-- ===== src/Lib.antt =====
-- A verification library for openporch, a platform orchestrator that resolves a graph of resources
-- for a deployment and provisions it.
--
-- What the program's parts do and where they are modelled:
--
-- - Ids (crates/core/src/ids.rs): identifiers. A Rust string is the list of its bytes, `Str`, and
--   the newtypes are names for it; `object_id_new` is `new` of each type of `object_id!`. The test
--   of each constructor is a function of its own (`is_valid_object_id`, `is_res_id`), and what it
--   accepts is in Ids/ObjectId and Ids/Chars. `Descriptor` has the derived order and its text.
-- - Model (crates/core/src/model.rs): criteria, definitions and contexts, over an argument `Value`
--   for the JSON values, which serde_json reads and writes.
-- - Criteria (crates/core/src/criteria.rs): `criterion_weight`, `definition_weight` and
--   `select_definition`, one function each. The loop of `select_definition` is `scan`, with its two
--   variables in `Best`, and the final match is `conclude`.
-- - Graph (crates/core/src/graph.rs): `layer_loop` and `layers_of` are `topological_layers` on the
--   map from each node to its dependencies, and `walk` and `find_cycle` are `find_cycle`. A panic
--   of the code and the end of the fuel are both `none`. The fuel of `layers_of` is the number of
--   nodes, since each round that goes on removes one; that of `find_cycle` is the same number,
--   since the nodes on the path are all different. Graph/Builder is the builder: `request`, `edge`,
--   `expand`, `match_dependents` and `build_graph`, each loop a function of its own. Its state is
--   `Builder`, and `Build` gives a `Result`, or `none` for a panic. The canonical text of params is
--   the `canonical` of its functions, which `build_graph` fills with that of Canonical
--   (`canonical_text`, which is empty where the writing panics). The loop of `build_graph` has fuel
--   for each pair of a type and a class of the input with a resource ID that some node or reference
--   has (`most_nodes`): that is enough, since a node is expanded once and has a type, a class and
--   an ID of these.
--   `match_dependents` has a round for each pair of nodes, which is enough: a round that goes on
--   adds an edge.
-- - Identity (crates/store/src/identity.rs, crates/store/src/error.rs): roles and `covers`, the roles
--   that the tables give a principal (`roles_in`), and each `check_*` function. A check that the code
--   makes in a transaction takes the tables and gives `ok` or the `StoreError`.
-- - Rbac (crates/server/src/rbac.rs): `evaluate`, cut at its `match` arms.
-- - Store (crates/store/src/audit.rs, crates/store/migrations): the audit log and the tables, for the
--   one organization of a store (`check_org` refuses any other). A column that no modelled operation
--   reads is left out. `World` gives the results of the calls of the clock and of the random
--   numbers that one operation makes, each under its own number. Times and generations are natural
--   numbers: they start at zero and stay far below 2^63.
-- - Permits (crates/store/src/sqlite_permits.rs): `issue_permits`, `bind_permits`,
--   `consume_permit` and `use_permit`, whose loops are recursion on the list that they go through.
--   Plans and permits are maps by ID, their primary key. The removal of an environment, which also
--   removes its permits, is not modelled.
-- - Deploy (crates/store/src/deploy.rs, crates/store/src/sqlite.rs): `accept_in_tx` and
--   `accept_deployment`. The checks are in Deploy/Guards in their order, the statements in
--   Deploy/Accept. A transaction that fails is rolled back, so a failure has no database; a
--   statement that breaks a UNIQUE constraint fails. JSON texts are read and written by an argument,
--   `Json`.
-- - Sets (crates/core/src/sets.rs): deployment sets and deltas. Each loop of `apply_delta` and of
--   `diff_sets` is a function of its own. serde_json and json_patch are the argument `Serde`, and
--   `SerdeLaws` says what is relied on. Sets/PerWorkload has the abstract view: what a delta does to
--   one workload.
-- - Canonical (crates/core/src/canonical.rs): `to_canonical_string`. A text is the list of its
--   characters, and a panic is `none`. The entries of an object are sorted as they are written.
--   Canonical/Number is `es_number`; the numbers of serde_json and of type f64 are the argument
--   `Numbers`, and `IsNumbers` says what is relied on: numbers are finite, and `{:e}` writes digits,
--   `e` and an exponent. Exponents of doubles are small, so integers are unbounded there.
-- - Placeholder (crates/core/src/placeholder.rs): strings with placeholders. `template_parse` and
--   `parse_path` are the two loops of the syntax, `interpret` gives a placeholder its meaning in a
--   dialect, `resolve_value` and `collect_placeholders` go through a JSON value. A text is the list
--   of its characters here; for identifiers, which are ASCII, that is the same. A panic and the
--   end of the fuel are `none`. The fuel is the number of characters, since each round takes one.
-- - RateLimit (crates/server/src/rate_limit.rs): `check_at`, cut into the choice of the key and the
--   charge of its bucket. The `HashMap` is a map by key, whose order nothing observes; `f64` is the
--   argument `Floats`.
-- - Redact (crates/core/src/redact.rs): `Redactor`. Positions count characters. The loop over the
--   occurrences of a form has one more than the length of the text as fuel, since each round moves
--   on by a character.
-- - BTreeMap: Rust's `BTreeMap` and `BTreeSet`, as lists in the order of their keys.
-- - Prelude: tests, lists, orders, sorting, results.
--
-- The components work together as in the code: `select_definition` picks the definition of each
-- node of the graph, and the graph's layers are the order of provisioning. A route asks `evaluate`;
-- the operation behind it asks the `check_*` functions again in its transaction; an accepted
-- deployment binds its permits by `bind_permits`, and each destructive action then asks
-- `consume_permit`.
--
-- Not modelled: HTTP handlers, the command line, the SQL text itself, drivers' processes, JSON
-- parsing, hashing and encryption, which are input and output or third-party code.
pub mod Prelude
pub mod BTreeMap
pub mod Ids
pub mod Model
pub mod Criteria
pub mod Graph
pub mod Identity
pub mod Rbac
pub mod Store
pub mod Permits
pub mod Deploy
pub mod Sets
pub mod Placeholder
pub mod Canonical
pub mod RateLimit
pub mod Redact

-- ===== src/Graph/Builder/Build.antt =====
-- `build_graph` of crates/core/src/graph.rs.
use openporch.Prelude.{
  length, ◌+◌, ℕ, zero, suc, Str, bytes, List, [], ◌∷◌, ◌++◌, Option, none, some, map,
}
use openporch.Prelude.Order.{str_ord}
use openporch.Prelude.Result.{Result, ok, err, map_err}
use openporch.BTreeMap.{BTreeMap, BTreeSet, get}
use openporch.Ids.{WorkloadId, ResId, Descriptor}
use openporch.Ids.Types.{default_class, descriptor_ord}
use openporch.Ids.Rules.{IdError, res_id_workload, res_id_private, res_id_shared}
use openporch.Sets.Types.{External, Module, SharedResource}
use openporch.Placeholder.Ref.{or_else}
use openporch.Placeholder.Expr.{Expr, context, resource, externals, shared, values, pod, Dialect}
use openporch.Placeholder.Json.{Value, null, string, object, Fields}
use openporch.Placeholder.Run.{Run}
use openporch.Placeholder.Collect.{Found, collect_placeholders}
use openporch.Canonical.Number.{Numbers}
use openporch.Canonical.Write.{canonical_text}
use openporch.Graph.Layers.{layers_of}
use openporch.Graph.Builder.Types.{
  GraphInput, invalid_id, cycle, Node, Builder, no_nodes, Build, ◌>>=◌,
}
use openporch.Graph.Builder.Request.{request}
use openporch.Graph.Builder.Expand.{add_edge, lift_option, expand}
use openporch.Graph.Builder.Universe.{most_nodes}
use openporch.Graph.Builder.Dependents.{match_dependents}

pub record ResourceGraph : Type 0 where
  pub nodes : BTreeMap Descriptor Node
  pub layers : List (List Descriptor)

abbrev pub base_env : Descriptor
base_env = record { ty = bytes "base-env"; class = default_class; id = bytes "base-env" }

abbrev pub workload_descriptor : WorkloadId → Module Value → Descriptor
workload_descriptor wid m = record {
  ty = bytes "workload";
  class = m.class;
  id = res_id_workload wid;
}

-- `Value::Object(module.spec.clone())`
abbrev pub fields_of : BTreeMap Str Value → Fields
fields_of [] = Fields.no_fields
fields_of ((k, v) ∷ m) = Fields.field k v (fields_of m)

-- The `json!` of a workload.
abbrev pub workload_params : WorkloadId → Module Value → Value
workload_params wid m = object (
    Fields.field (bytes "id") (string wid) (
      Fields.field (bytes "class") (string m.class)
        (Fields.field (bytes "spec") (object (fields_of m.spec)) Fields.no_fields)))

abbrev pub external_id : WorkloadId → Str → Option Str → Result IdError ResId
external_id wid key none = res_id_private wid key
external_id wid key (some id) = res_id_shared id

abbrev pub external_path : WorkloadId → Str → Str
external_path wid key = bytes "modules." ++ (wid ++ (bytes ".externals." ++ key))

abbrev pub or_default : Run (List Found) → Build (List Found)
or_default none = none
or_default (some (ok fs)) = some (ok fs)
or_default (some (err e)) = some (ok [])

module _ (canonical : Value → Str) (input : GraphInput) where
  unfoldable pub add_externals :
      WorkloadId → Descriptor → BTreeMap Str (External Value) → Builder → Build Builder
  add_externals wid w [] b = some (ok b)
  add_externals wid w ((key, ext) ∷ es) b = do
    res_id ← some (map_err (invalid_id (external_path wid key)) (external_id wid key ext.id))
    b1 ← some (
        request canonical input (record { ty = ext.ty; class = ext.class; id = res_id })
          (external_path wid key) (some (or_else ext.params null)) b)
    b2 ← add_edge w (record { ty = ext.ty; class = ext.class; id = res_id }) b1
    add_externals wid w es b2

  unfoldable pub add_modules : BTreeMap WorkloadId (Module Value) → Builder → Build Builder
  unfolding add_externals
  add_modules [] b = some (ok b)
  add_modules ((wid, m) ∷ ms) b = do
    b1 ← some (
        request canonical input (workload_descriptor wid m) (bytes "modules." ++ wid)
          (some (workload_params wid m)) b)
    b2 ← add_externals wid (workload_descriptor wid m) m.externals b1
    add_modules ms b2

  unfoldable pub add_shared : BTreeMap Str (SharedResource Value) → Builder → Build Builder
  add_shared [] b = some (ok b)
  add_shared ((id, s) ∷ ss) b = do
    res_id ← some (map_err (invalid_id (bytes "shared." ++ id)) (res_id_shared id))
    b1 ← some (
        request canonical input (record { ty = s.ty; class = s.class; id = res_id })
          (bytes "shared." ++ id) (some (or_else s.params null)) b)
    add_shared ss b1

  -- The edge for one placeholder of a workload, where it names a shared resource of the set.
  abbrev pub shared_edge :
      Descriptor → SharedResource Value → Result IdError ResId → Builder → Build Builder
  shared_edge w s (ok res_id) b = add_edge w (record { ty = s.ty; class = s.class; id = res_id }) b
  shared_edge w s (err e) b = some (ok b)

  unfoldable pub read_shared_ref : Descriptor → Expr → Builder → Build Builder
  read_shared_ref w (shared id p) b = elim (get id input.set.shared) [
    | none ↦ some (ok b)
    | some s ↦ shared_edge w s (res_id_shared id) b
  ]
  read_shared_ref w (context k) b = some (ok b)
  read_shared_ref w (resource t f) b = some (ok b)
  read_shared_ref w (externals k p) b = some (ok b)
  read_shared_ref w (values k p) b = some (ok b)
  read_shared_ref w (pod p) b = some (ok b)

  unfoldable pub read_all : Descriptor → List Found → Builder → Build Builder
  unfolding read_shared_ref
  read_all w [] b = some (ok b)
  read_all w (f ∷ fs) b = read_shared_ref w f.expr b >>= λ b'. read_all w fs b'

  unfoldable pub read_modules : BTreeMap WorkloadId (Module Value) → Builder → Build Builder
  unfolding read_all
  read_modules [] b = some (ok b)
  read_modules ((wid, m) ∷ ms) b = do
    found ← or_default (collect_placeholders Dialect.set (bytes "spec") (object (fields_of m.spec)))
    b1 ← read_all (workload_descriptor wid m) found b
    read_modules ms b1

  -- `while let Some(d) = b.queue.pop_front() { b.expand(&d)?; }`
  unfoldable pub expand_all : ℕ → Builder → Build Builder
  unfolding expand
  expand_all zero b = elim b.queue [ [] ↦ some (ok b) | d ∷ ds ↦ none ]
  expand_all (suc fuel) b = elim b.queue [
    | [] ↦ some (ok b)
    | d ∷ ds ↦ expand canonical input d (record b { queue = ds }) >>= λ b'. expand_all fuel b'
  ]

  -- Everything before the queue is worked off.
  unfoldable pub seed : Build Builder
  unfolding add_modules add_shared read_modules
  seed = do
    b0 ← some (request canonical input base_env (bytes "base-env") none no_nodes)
    b1 ← add_modules input.set.modules b0
    b2 ← add_shared input.set.shared b1
    read_modules input.set.modules b2

abbrev pub deps_of : BTreeMap Descriptor Node → BTreeMap Descriptor (BTreeSet Descriptor)
deps_of nodes = map (λ e. (e.0, e.1.depends_on)) nodes

abbrev pub in_order :
    BTreeMap Descriptor Node
    → Option (Result (List Descriptor) (List (List Descriptor)))
    → Build ResourceGraph
in_order nodes none = none
in_order nodes (some (ok layers)) = some (ok (record { nodes = nodes; layers = layers }))
in_order nodes (some (err c)) = some (err (cycle c))

-- What follows the loop.
unfoldable pub finish : Builder → Build ResourceGraph
unfolding match_dependents layers_of
finish b = do
  b' ← lift_option (match_dependents b)
  in_order b'.nodes (layers_of (deps_of b'.nodes))

-- The loop expands each node once.
unfoldable pub build_graph : {F : Type 0} → Numbers F → GraphInput → Build ResourceGraph
unfolding seed expand_all finish most_nodes canonical_text
build_graph n input = do
  b1 ← seed (canonical_text n) input
  b2 ← expand_all (canonical_text n) input (length b1.queue + most_nodes input b1) b1
  finish b2

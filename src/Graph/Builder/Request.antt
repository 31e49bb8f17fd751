-- ===== src/Graph/Builder/Request.antt =====
-- `Builder::request` and `Builder::edge` of crates/core/src/graph.rs. `canonical` stands for the
-- canonical JSON text of a value.
use Prim.Native.Nat.{Ordering}
use openporch.Prelude.{
  Str, Bool, true, false, not, [], ◌∷◌, ◌++◌, Option, none, some, find, if◌then◌else◌,
}
use openporch.Prelude.Order.{◌==◌, str_ord, str_cmp}
use openporch.Prelude.Result.{Result, ok, err, ◌>>=◌, map_err}
use openporch.BTreeMap.{BTreeMap, get, insert, set_insert, set_contains}
use openporch.BTreeMap.Laws.{is_some}
use openporch.Ids.{ResourceTypeId, Descriptor}
use openporch.Ids.Types.{descriptor_ord}
use openporch.Model.{ResourceDefinition, ResourceContext}
use openporch.Criteria.Select.{select_definition}
use openporch.Placeholder.Json.{Value, null, bool, number, string, array, object}
use openporch.Graph.Builder.Types.{
  ResourceUse, implicit, direct, indirect, ResourceType, has_class, GraphInput, GraphError,
  unknown_type, missing_class, no_match, conflict, Request, request_ord, Node, Builder,
}

-- `Builder::resource_type` and `Builder::is_implicit`.
unfoldable pub resource_type : GraphInput → ResourceTypeId → Option ResourceType
resource_type input ty = find (λ t. t.id == ty) input.types

abbrev is_implicit_use : ResourceUse → Bool
is_implicit_use implicit = true
is_implicit_use direct = false
is_implicit_use indirect = false

abbrev use_is_implicit : Option ResourceType → Bool
use_is_implicit none = false
use_is_implicit (some t) = is_implicit_use t.use_

unfoldable pub is_implicit : GraphInput → ResourceTypeId → Bool
unfolding resource_type
is_implicit input ty = use_is_implicit (resource_type input ty)

-- `.filter(|p| !p.is_null())`
abbrev pub non_null : Option Value → Option Value
non_null (some null) = none
non_null (some (bool b)) = some (bool b)
non_null (some (number n)) = some (number n)
non_null (some (string s)) = some (string s)
non_null (some (array vs)) = some (array vs)
non_null (some (object vs)) = some (object vs)
non_null none = none

-- The two paths, sorted.
abbrev pub sorted_conflict : Descriptor → Str → Str → GraphError
sorted_conflict d a b = elim (str_cmp b a) [
  | Ordering.lt ↦ conflict d b a
  | Ordering.eq ↦ conflict d a b
  | Ordering.gt ↦ conflict d a b
]

-- `binary_search` in the requests, which are in their order, and the insertion.
unfoldable pub add_request : Request → Node → Node
add_request r node = record node { requests = set_insert r node.requests }

unfoldable pub put_node : Descriptor → Node → Builder → Builder
put_node d node b = record b { nodes = insert d node b.nodes }

abbrev pub context_of : GraphInput → Descriptor → ResourceContext
context_of input d = record {
  org = input.org;
  app = input.app;
  env = input.env;
  env_type = input.env_type;
  res = d;
}

module _ (canonical : Value → Str) where
  abbrev pub canonical_of : Option Value → Option Str
  canonical_of none = none
  canonical_of (some v) = some (canonical v)

  -- A request for a node that the graph has.
  unfoldable pub request_again :
      Descriptor → Str → Option Value → Node → Builder → Result GraphError Builder
  unfolding add_request put_node
  request_again d path params node b =
      let req : Request = record { path = path; params = canonical_of params } in
      elim params [
        | none ↦ ok (put_node d (add_request req node) b)
        | some p ↦ elim (get d b.explicit) [
          | some (first, existing) ↦
              if not (existing == canonical p)
              then err (sorted_conflict d first path)
              else ok (put_node d (add_request req node) b)
          | none ↦
              ok
                (record (put_node d (add_request req (record node { params = non_null (some p) }))
                  b) { explicit = insert d (path, canonical p) b.explicit })
        ]
      ]

  abbrev pub fix_params :
      Descriptor
      → Str
      → Option Value
      → BTreeMap Descriptor (Str × Str)
      → BTreeMap Descriptor (Str × Str)
  fix_params d path none explicit = explicit
  fix_params d path (some p) explicit = insert d (path, canonical p) explicit

  -- A request that puts a node into the graph, and its descriptor at the end of the queue.
  unfoldable pub new_node :
      Descriptor → Str → Option Value → ResourceDefinition Value → Builder → Builder
  new_node d path params def b = record b {
    explicit = fix_params d path params b.explicit;
    nodes =
        insert d
          (record {
            descriptor = d;
            definition = def.id;
            driver_type = def.driver_type;
            params = non_null params;
            requests = record { path = path; params = canonical_of params } ∷ [];
            depends_on = [];
          })
          b.nodes;
    queue = b.queue ++ d ∷ [];
  }

  unfoldable pub request_first :
      GraphInput → Descriptor → Str → Option Value → Builder → Result GraphError Builder
  unfolding new_node
  request_first input d path params b =
      map_err (no_match path) (select_definition input.definitions (context_of input d)) >>= λ def.
      ok (new_node d path params def b)

  unfoldable pub request :
      GraphInput → Descriptor → Str → Option Value → Builder → Result GraphError Builder
  unfolding resource_type request_again request_first
  request input d path params b =
      if not (is_some (resource_type input d.ty))
      then err (unknown_type path d.ty)
      else if not (has_class input.classes d.ty d.class)
      then err (missing_class path d.ty d.class)
      else elim (get d b.nodes) [
        | some node ↦ request_again d path params node b
        | none ↦ request_first input d path params b
      ]

-- `Builder::edge`, with what it returns: whether the edge is new. `none` is the panic of the
-- `expect`.
unfoldable pub edge : Descriptor → Descriptor → Builder → Option (Builder × Bool)
edge from to b = elim (get from b.nodes) [
  | none ↦ none
  | some node ↦ some (
    record b {
      nodes = insert from (record node { depends_on = set_insert to node.depends_on }) b.nodes;
    },
    not (set_contains to node.depends_on),
  )
]

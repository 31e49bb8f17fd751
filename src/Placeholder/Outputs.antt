-- ===== src/Placeholder/Outputs.antt =====
-- The values that placeholders read: outputs of resources, shared values, and the scope in memory.
use openporch.Prelude.{
  ℕ, zero, suc, Str, bytes, join, true, List, [], ◌∷◌, ◌++◌, Option, none, some, if◌then◌else◌, any,
  is_nil,
}
use openporch.Prelude.Order.{str_ord, ◌==◌}
use openporch.Prelude.Result.{Result, ok, err, ◌>>=◌}
use openporch.BTreeMap.{BTreeMap, get}
use openporch.Ids.Types.{
  AccountId, ResourceTypeId, Descriptor, descriptor_ord, descriptor_to_string, default_class,
}
use openporch.Placeholder.Types.{Segment, name, quoted, index, key, segment_to_string}
use openporch.Placeholder.Ref.{ResourceRef, resource_ref_to_string, resolve_ref}
use openporch.Placeholder.Expr.{
  ContextKey, path, Expr, context, resource, externals, shared, values, pod, ResourceField, outputs,
  guresid, account,
}
use openporch.Placeholder.Json.{SecretRef, Value, Items, Fields, string, array, object}
use openporch.Placeholder.Resolve.{Lookup, value, secret_ref}

pub record ResourceOutputs : Type 0 where
  pub values : BTreeMap Str Value
  pub secrets : BTreeMap Str SecretRef
  pub guresid : Option Str
  pub account : Option AccountId

-- `Vec::get` and `Map::get`.
unfoldable pub item_at : ℕ → Items → Option Value
item_at i Items.no_items = none
item_at zero (Items.item v vs) = some v
item_at (suc i) (Items.item v vs) = item_at i vs

unfoldable pub field_named : Str → Fields → Option Value
field_named k Fields.no_fields = none
field_named k (Fields.field j v vs) = if k == j then some v else field_named k vs

-- One segment of `walk`.
unfoldable pub walk_step : Segment → Value → Option Value
unfolding item_at field_named
walk_step (index i) (array vs) = item_at i vs
walk_step (name k) (object vs) = field_named k vs
walk_step (quoted k) (object vs) = field_named k vs
walk_step seg v = none

abbrev pub ok_or {ℓ} : {A : Type ℓ} → Str → Option A → Result Str A
ok_or reason none = err reason
ok_or reason (some a) = ok a

unfoldable pub walk : Value → List Segment → Result Str Value
unfolding walk_step
walk v [] = ok v
walk v (seg ∷ segs) =
    ok_or (bytes "no field `" ++ (segment_to_string seg ++ bytes "`")) (walk_step seg v) >>= λ w.
    walk w segs

-- `map(Lookup::Value)`
abbrev pub as_value : Result Str Value → Result Str Lookup
as_value (ok v) = ok (value v)
as_value (err e) = err e

-- `ResourceOutputs::get`: a secret output before a value of the same name.
unfoldable pub get_output : ResourceOutputs → List Segment → Result Str Lookup
unfolding get walk
get_output o [] = err (bytes "an output name is required")
get_output o (first ∷ rest) = ok_or (bytes "output names are strings") (key first) >>= λ n.
    elim (get n o.secrets) [
      | some r ↦
          if is_nil rest
          then ok (secret_ref r)
          else err (bytes "secret output `" ++ (n ++ bytes "` has no fields"))
      | none ↦ ok_or (bytes "no output `" ++ (n ++ bytes "`")) (get n o.values) >>= λ v.
          as_value (walk v rest)
    ]

pub data SharedValue : Type 0 where
  plain_value : Value → SharedValue
  secret_value : SecretRef → SharedValue

-- The order of `ContextKey` is not used: its map is a function.
pub record MapScope : Type 0 where
  pub context : ContextKey → Option Value
  pub referrer : Option Descriptor
  pub implicit_types : List ResourceTypeId
  pub resources : BTreeMap Descriptor ResourceOutputs
  pub externals : BTreeMap Str ResourceOutputs
  pub shared : BTreeMap Str ResourceOutputs
  pub values : BTreeMap Str SharedValue

-- `MapScope::descriptor_for`. `none` is a panic.
abbrev pub named : Option Descriptor → Option (Result Str Descriptor)
named none = none
named (some d) = some (ok d)

abbrev pub class_and_id : ResourceRef → Option (Str × Str)
class_and_id r = elim r.class [
  | none ↦ none
  | some c ↦ elim r.id [ none ↦ none | some i ↦ some (c, i) ]
]

unfoldable pub descriptor_for : MapScope → ResourceRef → Option (Result Str Descriptor)
unfolding resolve_ref
descriptor_for s target =
    let implicit = any (λ t. target.ty == t) s.implicit_types in
    elim s.referrer [
      | some r ↦ named (resolve_ref target r implicit)
      | none ↦ elim (class_and_id target) [
        | some (c, i) ↦ some (ok (record { ty = target.ty; class = c; id = i }))
        | none ↦
            if implicit
            then named (
                resolve_ref target
                  (record { ty = target.ty; class = default_class; id = bytes "x" }) true)
            else some (
                err (
                  bytes "`"
                  ++ (resource_ref_to_string target ++ bytes "` needs a class and ID here")))
      ]
    ]

-- What a field of a resource gives.
unfoldable pub field_value : Descriptor → ResourceOutputs → ResourceField → Result Str Lookup
unfolding get_output
field_value d o (outputs p) = get_output o p
field_value d o guresid =
    ok_or (bytes "resource `" ++ (descriptor_to_string d ++ bytes "` has no GUResID yet")) o.guresid
    >>= λ g. ok (Lookup.value (string g))
field_value d o account =
    ok_or (bytes "resource `" ++ (descriptor_to_string d ++ bytes "` has no cloud account"))
      o.account
    >>= λ a. ok (Lookup.value (string a))

-- `lookup` of a shared value that is there.
unfoldable pub shared_value : Str → SharedValue → List Segment → Result Str Lookup
unfolding walk
shared_value k (plain_value v) p = as_value (walk v p)
shared_value k (secret_value r) p =
    if is_nil p
    then ok (secret_ref r)
    else err (bytes "secret value `" ++ (k ++ bytes "` has no fields"))

-- `MapScope::lookup`.
unfoldable pub map_lookup : MapScope → Expr → Option (Result Str Lookup)
unfolding get descriptor_for field_value get_output shared_value
map_lookup s (context k) = some (
    ok_or (bytes "`context." ++ (path k ++ bytes "` is not available here")) (s.context k) >>= λ v.
    ok (Lookup.value v))
map_lookup s (resource target field) = elim (descriptor_for s target) [
  | none ↦ none
  | some d? ↦ some (
      d? >>= λ d.
      ok_or (bytes "resource `" ++ (descriptor_to_string d ++ bytes "` is not in the graph"))
        (get d s.resources)
      >>= λ o. field_value d o field)
]
map_lookup s (externals k p) = some (
    ok_or (bytes "no dependency `" ++ (k ++ bytes "`")) (get k s.externals) >>= λ o. get_output o p)
map_lookup s (shared k p) = some (
    ok_or (bytes "no shared resource `" ++ (k ++ bytes "`")) (get k s.shared) >>= λ o.
    get_output o p)
map_lookup s (values k p) = some (
    ok_or (bytes "no shared value `" ++ (k ++ bytes "`")) (get k s.values) >>= λ v.
    shared_value k v p)
map_lookup s (pod p) = some (
    err (
      bytes "`pod."
      ++ (join (bytes ".") p ++ bytes "` needs a workload target that supports pod references")))

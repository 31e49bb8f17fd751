-- ===== src/Graph/Builder/Expand.antt =====
-- `Builder::expand`: the references and the co-provisioned resources of the definition that a node
-- was matched with (crates/core/src/graph.rs).
use openporch.Prelude.{
  Str, bytes, Bool, true, false, List, [], ◌∷◌, ◌++◌, Option, none, some, find, if◌then◌else◌,
}
use openporch.Prelude.Order.{◌==◌, str_ord}
use openporch.Prelude.Result.{ok, map_err}
use openporch.BTreeMap.{BTreeMap, get, set_insert}
use openporch.Ids.{DefinitionId, Descriptor}
use openporch.Ids.Types.{descriptor_ord, descriptor_to_string}
use openporch.Ids.Rules.{IdError}
use openporch.Model.{ResourceDefinition, Provision}
use openporch.Placeholder.Types.{syntax}
use openporch.Placeholder.Ref.{ResourceRef, resource_ref_parse, resolve_ref, or_else}
use openporch.Placeholder.Expr.{
  Expr, context, resource, externals, shared, values, pod, definition, driver_account,
  id_error_to_string,
}
use openporch.Placeholder.Json.{Value, null, string}
use openporch.Placeholder.Run.{Run}
use openporch.Placeholder.Resolve.{error_at}
use openporch.Placeholder.Collect.{Found, collect_placeholders}
use openporch.Graph.Builder.Types.{
  GraphInput, bad_placeholder, co_provision_ord, Builder, Build, ◌>>=◌,
}
use openporch.Graph.Builder.Request.{is_implicit, request, edge}

-- `map_err(perr)`
abbrev pub in_definition : {A : Type 0} → DefinitionId → Run A → Build A
in_definition id none = none
in_definition id (some r) = some (map_err (bad_placeholder id) r)

abbrev pub lift_option : {A : Type 0} → Option A → Build A
lift_option none = none
lift_option (some a) = some (ok a)

-- An edge, where it does not matter whether it is new.
abbrev pub add_edge : Descriptor → Descriptor → Builder → Build Builder
add_edge from to b = elim (edge from to b) [ none ↦ none | some (b', added) ↦ some (ok b') ]

-- `format!("definition `{}` {loc} for `{d}`", def.id)`
unfoldable pub path_for : DefinitionId → Str → Descriptor → Str
path_for id loc d =
    bytes "definition `"
    ++ (id ++ (bytes "` " ++ (loc ++ (bytes " for `" ++ (descriptor_to_string d ++ bytes "`")))))

unfoldable pub collect_account : Option Str → Run (List Found)
collect_account none = some (ok [])
collect_account (some acct) =
    collect_placeholders driver_account (bytes "driver_account") (string acct)

-- `found`: of the inputs, of the secrets and of the driver account.
unfoldable pub found_in : ResourceDefinition Value → Build (List Found)
unfolding collect_account
found_in def = do
  vs ←
      in_definition def.id
        (collect_placeholders definition (bytes "driver_inputs.values") def.driver_inputs.values)
  ss ←
      in_definition def.id
        (collect_placeholders definition (bytes "driver_inputs.secrets") def.driver_inputs.secrets)
  as' ← in_definition def.id (collect_account def.driver_account)
  some (ok (vs ++ (ss ++ as')))

module _ (canonical : Value → Str) (input : GraphInput) (id : DefinitionId) (d : Descriptor) where
  unfoldable pub resolve : ResourceRef → Build Descriptor
  unfolding is_implicit
  resolve target = lift_option (resolve_ref target d (is_implicit input target.ty))

  -- A reference of the definition itself.
  unfoldable pub refer : Str → Expr → Builder → Build Builder
  unfolding resolve path_for
  refer loc (resource target field) b = do
    to ← resolve target
    b' ← some (request canonical input to (path_for id loc d) none b)
    add_edge d to b'
  refer loc (context k) b = some (ok b)
  refer loc (externals k p) b = some (ok b)
  refer loc (shared k p) b = some (ok b)
  refer loc (values k p) b = some (ok b)
  refer loc (pod p) b = some (ok b)

  unfoldable pub refer_all : List Found → Builder → Build Builder
  unfolding refer
  refer_all [] b = some (ok b)
  refer_all (f ∷ fs) b = refer f.location f.expr b >>= λ b'. refer_all fs b'

  abbrev pub add_edge_to_other : Descriptor → Descriptor → Builder → Build Builder
  add_edge_to_other co to b = if to == co then some (ok b) else add_edge co to b

  -- A reference in the params of a co-provisioned resource.
  unfoldable pub refer_from : Descriptor → Str → Expr → Builder → Build Builder
  unfolding resolve path_for
  refer_from co loc (resource target field) b = do
    to ← resolve target
    b' ← some (request canonical input to (path_for id loc d) none b)
    add_edge_to_other co to b'
  refer_from co loc (context k) b = some (ok b)
  refer_from co loc (externals k p) b = some (ok b)
  refer_from co loc (shared k p) b = some (ok b)
  refer_from co loc (values k p) b = some (ok b)
  refer_from co loc (pod p) b = some (ok b)

  unfoldable pub refer_all_from : Descriptor → List Found → Builder → Build Builder
  unfolding refer_from
  refer_all_from co [] b = some (ok b)
  refer_all_from co (f ∷ fs) b = refer_from co f.location f.expr b >>= λ b'. refer_all_from co fs b'

  abbrev pub co_edge : Bool → Descriptor → Builder → Build Builder
  co_edge true co b = add_edge d co b
  co_edge false co b = add_edge co d b

  abbrev pub provision_at : Str → Str
  provision_at key = bytes "provision." ++ key

  unfoldable pub parse_key : Str → Build ResourceRef
  parse_key key = some (
      map_err
        (λ (e : IdError).
          bad_placeholder id (error_at (provision_at key) key (syntax (id_error_to_string e))))
        (resource_ref_parse key))

  -- `self.co.insert(..)`
  unfoldable pub add_co : Descriptor → Bool → Builder → Builder
  add_co co match_dependents b = record b {
    co = set_insert (record { source = d; co = co; match_dependents = match_dependents }) b.co;
  }

  -- One entry of `provision`.
  unfoldable pub provide : Str → Provision Value → Builder → Build Builder
  unfolding resolve path_for refer_all_from parse_key add_co
  provide key prov b = do
    target ← parse_key key
    co ← resolve target
    b1 ← some (
        request canonical input co (path_for id (provision_at key) d)
          (some (or_else prov.params null)) b)
    b2 ← co_edge prov.is_dependent co b1
    found ← in_definition id (
        collect_placeholders definition (provision_at key ++ bytes ".params")
          (or_else prov.params null))
    b3 ← refer_all_from co found b2
    some (ok (add_co co prov.match_dependents b3))

  unfoldable pub provide_all : BTreeMap Str (Provision Value) → Builder → Build Builder
  unfolding provide
  provide_all [] b = some (ok b)
  provide_all ((key, prov) ∷ ps) b = provide key prov b >>= λ b'. provide_all ps b'

unfoldable pub expand_with :
    (Value → Str) → GraphInput → Descriptor → ResourceDefinition Value → Builder → Build Builder
unfolding found_in refer_all provide_all
expand_with canonical input d def b = do
  found ← found_in def
  b' ← refer_all canonical input def.id d found b
  provide_all canonical input def.id d def.provision b'

-- `none` is a panic: the node or its definition is missing.
unfoldable pub expand : (Value → Str) → GraphInput → Descriptor → Builder → Build Builder
unfolding expand_with
expand canonical input d b = elim (get d b.nodes) [
  | none ↦ none
  | some node ↦ elim (find (λ x. x.id == node.definition) input.definitions) [
    | none ↦ none
    | some def ↦ expand_with canonical input d def b
  ]
]

-- ===== src/Graph/Builder/Universe.antt =====
-- The resource IDs that a graph can come to have, and how many nodes there are at most.
use openporch.Prelude.{
  ℕ, suc, ◌*◌, Str, bytes, List, [], ◌∷◌, ◌++◌, Option, none, some, map, length, true, false, find,
  ◌≡◌, refl, sym, ap, subst, inl, inr, ◌⊎◌, ◌∙◌, Memᴰ, Memᴰ-append_left, Memᴰ-append_right, Bool,
  Bool-cases, Option-cases, arith,
}
use openporch.Prelude.Order.{◌==◌, eq_iff, str_ord}
use openporch.Prelude.Result.{Result, ok, err}
use openporch.Prelude.Split.{replace}
use openporch.BTreeMap.{BTreeMap}
use openporch.Ids.{ResId, DefinitionId, Descriptor}
use openporch.Ids.Rules.{slash, hyphen, res_id_new, IdError}
use openporch.Ids.RoundTrip.{res_id_new-ok}
use openporch.Model.{ResourceDefinition, Provision}
use openporch.Placeholder.Ref.{ResourceRef, resource_ref_parse, resolve_ref, or_else, or_panic}
use openporch.Placeholder.Expr.{Expr, context, resource, externals, shared, values, pod, definition}
use openporch.Placeholder.Json.{Value, null}
use openporch.Placeholder.Collect.{Found, collect_placeholders}
use openporch.Graph.Builder.Types.{GraphInput, Builder, Build, ResourceType}
use openporch.Graph.Builder.Request.{is_implicit, resource_type}
use openporch.Graph.Builder.Expand.{in_definition, found_in}

abbrev pub option_list : Option ResId → List ResId
option_list none = []
option_list (some id) = id ∷ []

abbrev pub target_ids : Expr → List ResId
target_ids (resource t f) = option_list t.id
target_ids (context k) = []
target_ids (externals k p) = []
target_ids (shared k p) = []
target_ids (values k p) = []
target_ids (pod p) = []

abbrev pub found_ids : List Found → List ResId
found_ids [] = []
found_ids (f ∷ fs) = target_ids f.expr ++ found_ids fs

abbrev pub ids_of : Build (List Found) → List ResId
ids_of none = []
ids_of (some (err e)) = []
ids_of (some (ok fs)) = found_ids fs

abbrev pub ref_ids : Result IdError ResourceRef → List ResId
ref_ids (ok t) = option_list t.id
ref_ids (err e) = []

-- The IDs that the references of a definition name.
unfoldable pub provision_ids : DefinitionId → BTreeMap Str (Provision Value) → List ResId
unfolding collect_placeholders resource_ref_parse
provision_ids id [] = []
provision_ids id ((key, prov) ∷ ps) =
    ref_ids (resource_ref_parse key)
    ++ (ids_of (
          in_definition id (
            collect_placeholders definition ((bytes "provision." ++ key) ++ bytes ".params")
              (or_else prov.params null)))
        ++ provision_ids id ps)

unfoldable pub reference_ids : List (ResourceDefinition Value) → List ResId
unfolding provision_ids found_in
reference_ids [] = []
reference_ids (def ∷ defs) =
    (ids_of (found_in def) ++ provision_ids def.id def.provision) ++ reference_ids defs

unfoldable pub implicit_ids : List ResourceType → List ResId
implicit_ids types = map (λ t. replace slash hyphen t.id) types

-- With those of the nodes that there are.
unfoldable pub known_ids : GraphInput → Builder → List ResId
unfolding reference_ids implicit_ids
known_ids input b =
    map (λ e. e.0.id) b.nodes ++ (reference_ids input.definitions ++ implicit_ids input.types)

-- A node has a type and a class of the input and one of those IDs.
unfoldable pub most_nodes : GraphInput → Builder → ℕ
unfolding known_ids
most_nodes input b =
    length input.types * (suc (length input.classes.classes) * length (known_ids input b))

abbrev pub Within : List ResId → List ResId → Type 0
Within xs ids = (a : ResId) → Memᴰ a xs → Memᴰ a ids

pub Memᴰ-map {ℓ κ} :
    {A : Type ℓ} {B : Type κ} (f : A → B) {x : A} {xs : List A} → Memᴰ x xs → Memᴰ (f x) (map f xs)
Memᴰ-map f (Memᴰ.head e) = Memᴰ.head (ap f e)
Memᴰ-map f (Memᴰ.tail m) = Memᴰ.tail (Memᴰ-map f m)

pub find-Memᴰ {ℓ} :
    {A : Type ℓ} (p : A → Bool) (xs : List A) {x : A}
    → find p xs ≡ some x
    → Memᴰ x xs × (p x ≡ true)
find-Memᴰ p [] h = absurd (cc)
find-Memᴰ p (y ∷ ys) {x} h = elim (Bool-cases (p y)) [
  | inl e ↦
      let found : some y ≡ some x = rw (find, e) at h in
      let same : y ≡ x = cc in (Memᴰ.head (sym same), subst (λ z. p z ≡ true) same e)
  | inr e ↦ let (m, q) = find-Memᴰ p ys (rw (find, e) at h) in (Memᴰ.tail m, q)
]

pub Within-ids_of :
    (ids : List ResId) {m : Build (List Found)} {fs : List Found}
    → m ≡ some (ok fs)
    → Within (ids_of m) ids
    → Within (found_ids fs) ids
Within-ids_of ids e n a q = n a (subst (λ r. Memᴰ a (ids_of r)) (sym e) q)

pub reference_ids-Memᴰ :
    {def : ResourceDefinition Value} {defs : List (ResourceDefinition Value)} {a : ResId}
    → Memᴰ def defs
    → Memᴰ a (ids_of (found_in def) ++ provision_ids def.id def.provision)
    → Memᴰ a (reference_ids defs)
unfolding reference_ids
reference_ids-Memᴰ {a} (Memᴰ.head {xs = defs} e) q =
    Memᴰ-append_left (reference_ids defs)
      (subst (λ x. Memᴰ a (ids_of (found_in x) ++ provision_ids x.id x.provision)) e q)
reference_ids-Memᴰ (Memᴰ.tail {x = d} m) q =
    Memᴰ-append_right (ids_of (found_in d) ++ provision_ids d.id d.provision)
      (reference_ids-Memᴰ m q)

implicit-Memᴰ :
    (input : GraphInput) (ty : Str)
    → is_implicit input ty ≡ true
    → Memᴰ (replace slash hyphen ty) (implicit_ids input.types)
unfolding is_implicit resource_type implicit_ids
implicit-Memᴰ input ty h = elim (Option-cases (find (λ t. t.id == ty) input.types)) [
  | inl n ↦ absurd (let bad = rw n at h in cc)
  | inr (t, n) ↦
      let (m, e) = find-Memᴰ (λ t. t.id == ty) input.types n in
      subst (λ s. Memᴰ (replace slash hyphen s) (implicit_ids input.types)) ((eq_iff t.id ty).0 e)
        (Memᴰ-map (λ t. replace slash hyphen t.id) m)
]

or_else-id : (o : Option ResId) (s x : ResId) → x ≡ or_else o s → Memᴰ x (option_list o) ⊎ (x ≡ s)
or_else-id none s x h = inr h
or_else-id (some id) s x h = inl (Memᴰ.head h)

or_panic-id :
    (o : Option ResId) (r : Result IdError ResId) (x : ResId)
    → or_panic o r ≡ some x
    → Memᴰ x (option_list o) ⊎ (r ≡ ok x)
or_panic-id (some id) r x h = inl (Memᴰ.head (let q : x ≡ id = cc in q))
or_panic-id none (ok id) x h = inr (cc)
or_panic-id none (err e) x h = absurd (cc)

resolved_id :
    (t : ResourceRef) (d to : Descriptor) (implicit : Bool)
    → resolve_ref t d implicit ≡ some to
    → Memᴰ to.id (option_list t.id)
      ⊎ (to.id ≡ d.id)
      ⊎ (implicit ≡ true) × (to.id ≡ replace slash hyphen t.ty)
unfolding resolve_ref
resolved_id t d to false h =
    elim (or_else-id t.id d.id to.id (let q : to.id ≡ or_else t.id d.id = ground arith in q)) [
      | inl m ↦ inl m
      | inr e ↦ inr (inl e)
    ]
resolved_id t d to true h =
    elim (Option-cases (or_panic t.id (res_id_new (replace slash hyphen t.ty)))) [
      | inl n ↦ absurd (let bad = rw (resolve_ref, n) at h in cc)
      | inr (x, n) ↦
          let found = rw (resolve_ref, n) at h in
          let same : to.id ≡ x = ground arith in
          elim (or_panic-id t.id (res_id_new (replace slash hyphen t.ty)) x n) [
            | inl m ↦ inl (subst (λ y. Memᴰ y (option_list t.id)) (sym same) m)
            | inr e ↦ inr (inr (refl, same ∙ sym (res_id_new-ok (replace slash hyphen t.ty) e).1))
          ]
    ]

-- A reference resolves to a known ID.
pub resolved-Memᴰ :
    (input : GraphInput) (ids : List ResId) (t : ResourceRef) (d to : Descriptor)
    → Within (implicit_ids input.types) ids
    → Within (option_list t.id) ids
    → Memᴰ d.id ids
    → resolve_ref t d (is_implicit input t.ty) ≡ some to
    → Memᴰ to.id ids
resolved-Memᴰ input ids t d to implicit named m h =
    elim (resolved_id t d to (is_implicit input t.ty) h) [
      | inl n ↦ named to.id n
      | inr (inl e) ↦ subst (λ x. Memᴰ x ids) (sym e) m
      | inr (inr (i, e)) ↦ subst (λ x. Memᴰ x ids) (sym e) (implicit _ (implicit-Memᴰ input t.ty i))
    ]

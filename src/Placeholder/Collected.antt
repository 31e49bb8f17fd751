-- ===== src/Placeholder/Collected.antt =====
-- What `collect_placeholders` finds is all that resolution asks of the scope.
use openporch.Prelude.{
  ℕ, suc, Str, bytes, decimal, List, [], ◌∷◌, ◌++◌, none, some, All, ◌≡◌, ◌≢◌, refl, sym, subst,
  inl, inr, Option-cases, List-cases,
}
use openporch.Prelude.Result.{ok, Result-cases}
use openporch.Placeholder.Types.{
  RawPlaceholder, Part, literal, placeholder, Template, placeholders, whole,
}
use openporch.Placeholder.Scan.{template_parse}
use openporch.Placeholder.Expr.{Expr, Dialect, interpret}
use openporch.Placeholder.Json.{
  Value, Items, Fields, null, bool, number, string, array, object, SecretPart, whole_secret,
  references_in, render_parts, push_literal, Resolved, ResolvedItems, ResolvedFields, plain,
  secret_text, resolved_array, resolved_object,
}
use openporch.Placeholder.Run.{Run, ◌>>=◌, done, >>=-done, done_inj}
use openporch.Placeholder.Resolve.{
  Lookup, value, secret_ref, secret_sink, Scope, error_at, at, at_run, admit, look_up, look_up_all,
  whole_value, push_lookup, join_parts, conclude, resolve_template, resolve_string, resolve_value,
  resolve_items, resolve_fields,
}
use openporch.Placeholder.NoPanic.{resolve_template_total, count-look_up_all}
use openporch.Placeholder.Collect.{
  Found, collect_raw, collect_into, collect_items, collect_fields, collect_placeholders,
}

-- A computation that cannot be refused.
abbrev Settled : {A : Type 0} → Run A → Type 0
Settled {A = A} m = (m ≢ none) → (a : A) × (m ≡ done a)

All-init :
    {A : Type 0} (P : A → Type 0) (xs : List A) (a : A) → All P (xs ++ a ∷ []) → All P xs × P a
All-init P [] a h = (tt, h.0)
All-init P (x ∷ xs) a h = let (r, p) = All-init P xs a h.1 in ((h.0, r), p)

module _ (json_text : Value → Str) (lookup : Scope) (dialect : Dialect) where
  whole_value-Settled :
      (ls : List Lookup) → Settled (whole_value lookup json_text dialect secret_sink ls)
  unfolding whole_value
  whole_value-Settled [] h = absurd (h refl)
  whole_value-Settled (value v ∷ []) h = (plain v, refl)
  whole_value-Settled (secret_ref r ∷ []) h = (secret_text (whole_secret r), refl)
  whole_value-Settled (l ∷ m ∷ ls) h = whole_value-Settled (m ∷ ls) h

  join_parts-Settled :
      (ps : List Part) (ls : List Lookup) (out : List SecretPart)
      → Settled (join_parts lookup json_text dialect secret_sink ps ls out)
  unfolding join_parts
  join_parts-Settled [] ls out h = (out, refl)
  join_parts-Settled (literal s ∷ ps) ls out h = join_parts-Settled ps ls (push_literal s out) h
  join_parts-Settled (placeholder p ∷ ps) [] out h = absurd (h refl)
  join_parts-Settled (placeholder p ∷ ps) (l ∷ ls) out h =
      join_parts-Settled ps ls (push_lookup lookup json_text dialect secret_sink l out) h

  conclude-Settled :
      (ps : List SecretPart) → Settled (conclude lookup json_text dialect secret_sink ps)
  unfolding conclude
  conclude-Settled ps h = elim (List-cases (references_in ps)) [
    | inl n ↦ elim (Result-cases {E = Unit {0}} (render_parts (λ r. ok []) ps [])) [
      | inl (x, q) ↦ absurd (h (rw (conclude, n, q)))
      | inr (t, q) ↦ (plain (string t), rw (conclude, n, q))
    ]
    | inr (q, rs, n) ↦ (secret_text (record { parts = ps }), rw (conclude, n))
  ]

  left_total : {A B : Type 0} (m : Run A) (f : A → Run B) → (m >>= f) ≢ none → m ≢ none
  left_total none f h = absurd (h refl)
  left_total (some x) f h = λ e. cc

  resolve_template-Settled :
      (t : Template) (ls : List Lookup)
      → Settled (resolve_template lookup json_text dialect secret_sink t ls)
  unfolding resolve_template
  resolve_template-Settled t ls h = elim (Option-cases (whole t)) [
    | inl n ↦
        let steps = rw (resolve_template, n) at h in
        let (parts, e) =
          join_parts-Settled t.parts ls []
            (left_total (join_parts lookup json_text dialect secret_sink t.parts ls []) _ steps) in
        let (r, q) = conclude-Settled parts (rw e at steps) in (r, rw (resolve_template, n, e) q)
    | inr (p, n) ↦
        let (r, q) = whole_value-Settled ls (rw (resolve_template, n) at h) in
        (r, rw (resolve_template, n) q)
  ]

  -- The scope knows what a found placeholder asks for.
  abbrev pub Known : Found → Type 0
  Known f = (l : Lookup) × (lookup f.expr ≡ ok l)

  look_up-known :
      (location : Str) (p : RawPlaceholder) (e : Expr) (l : Lookup)
      → at (error_at location p.text) (interpret p dialect) ≡ done e
      → lookup e ≡ ok l
      → look_up lookup json_text dialect secret_sink location p ≡ done l
  unfolding look_up admit
  look_up-known location p e l h k = rw (h, k)

  collect_raw-Known :
      (location : Str) (ps : List RawPlaceholder) (out : List Found) {found : List Found}
      → collect_raw dialect location ps out ≡ done found
      → All Known found
      → All Known out
        × (ls : List Lookup) × (look_up_all lookup json_text dialect secret_sink location ps
            ≡ done ls)
  unfolding collect_raw look_up_all
  collect_raw-Known location [] out h a = (subst (All Known) (sym (done_inj h)) a, [], refl)
  collect_raw-Known location (p ∷ ps) out h a =
      let (e, e1, h1) = >>=-done (at (error_at location p.text) (interpret p dialect)) h in
      let (known, ls, e2) =
        collect_raw-Known location ps
          (out ++ record { location = location; raw = p; expr = e } ∷ []) h1 a in
      let (before, (l, e3)) =
        All-init Known out (record { location = location; raw = p; expr = e }) known in
      (before, l ∷ ls, rw (look_up-known location p e l e1 e3, e2))

  Resolves : Str → Value → Type 0
  Resolves location v =
      (r : Resolved) × (resolve_value lookup json_text dialect secret_sink location v ≡ done r)

  resolve_string-Known :
      (location s : Str) (out : List Found) {found : List Found}
      → collect_into dialect location (string s) out ≡ done found
      → All Known found
      → All Known out × Resolves location (string s)
  unfolding collect_into Resolves resolve_value resolve_string
  resolve_string-Known location s out h a =
      let (t, e1, h1) = >>=-done (at_run (error_at location s) (template_parse s)) h in
      let (known, ls, e2) = collect_raw-Known location (placeholders t) out h1 a in
      let (r, e3) = resolve_template-Settled t ls (
        resolve_template_total json_text lookup dialect secret_sink t ls
          (count-look_up_all json_text lookup dialect secret_sink location (placeholders t) e2)) in
      (known, (r, rw (e1, e2) e3))

  mutual
    unfolding collect_into collect_items collect_fields Resolves resolve_value resolve_items
        resolve_fields

    value-Known :
        (location : Str) (v : Value) (out : List Found) {found : List Found}
        → collect_into dialect location v out ≡ done found
        → All Known found
        → All Known out × Resolves location v
    value-Known location (string s) out h a = resolve_string-Known location s out h a
    value-Known location null out h a = (subst (All Known) (sym (done_inj h)) a, (plain null, refl))
    value-Known location (bool b) out h a =
        (subst (All Known) (sym (done_inj h)) a, (plain (bool b), refl))
    value-Known location (number n) out h a =
        (subst (All Known) (sym (done_inj h)) a, (plain (number n), refl))
    value-Known location (array vs) out h a =
        let (known, rs, e) = items-Known location 0 vs out h a in (known, (resolved_array rs, rw e))
    value-Known location (object vs) out h a =
        let (known, rs, e) = fields-Known location vs out h a in (known, (resolved_object rs, rw e))

    items-Known :
        (location : Str) (i : ℕ) (vs : Items) (out : List Found) {found : List Found}
        → collect_items dialect location i vs out ≡ done found
        → All Known found
        → All Known out
          × (rs : ResolvedItems) × (resolve_items lookup json_text dialect secret_sink location i vs
              ≡ done rs)
    items-Known location i Items.no_items out h a =
        (subst (All Known) (sym (done_inj h)) a, ResolvedItems.no_items, refl)
    items-Known location i (Items.item v vs) out h a =
        let here = location ++ bytes "[" ++ decimal i ++ bytes "]" in
        let (mid, e1, h1) = >>=-done (collect_into dialect here v out) h in
        let (middle, rs, e2) = items-Known location (suc i) vs mid h1 a in
        let (known, (r, e3)) = value-Known here v out e1 middle in
        (known, ResolvedItems.item r rs, rw (e3, e2))

    fields-Known :
        (location : Str) (vs : Fields) (out : List Found) {found : List Found}
        → collect_fields dialect location vs out ≡ done found
        → All Known found
        → All Known out
          × (rs : ResolvedFields) × (resolve_fields lookup json_text dialect secret_sink location vs
              ≡ done rs)
    fields-Known location Fields.no_fields out h a =
        (subst (All Known) (sym (done_inj h)) a, ResolvedFields.no_fields, refl)
    fields-Known location (Fields.field k v vs) out h a =
        let here = location ++ bytes "." ++ k in
        let (mid, e1, h1) = >>=-done (collect_into dialect here v out) h in
        let (middle, rs, e2) = fields-Known location vs mid h1 a in
        let (known, (r, e3)) = value-Known here v out e1 middle in
        (known, ResolvedFields.field k r rs, rw (e3, e2))

  -- A value whose placeholders `collect_placeholders` finds is resolved for a secret sink wherever
  -- the scope knows what each of them asks for: resolution asks for nothing else.
  pub resolve_value_of_collected :
      (location : Str) (v : Value) (found : List Found)
      → collect_placeholders dialect location v ≡ done found
      → All Known found
      → (r : Resolved) × (resolve_value lookup json_text dialect secret_sink location v ≡ done r)
  unfolding collect_placeholders Resolves
  resolve_value_of_collected location v found h a = (value-Known location v [] h a).1

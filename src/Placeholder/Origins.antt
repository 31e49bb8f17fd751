-- ===== src/Placeholder/Origins.antt =====
-- Where the secrets of a resolved value come from: what is looked up for the placeholders of the value
-- (crates/core/src/placeholder.rs).
use openporch.Prelude.{
  ℕ, suc, Str, bytes, decimal, ◌++◌, none, some, Option, Memᴰ, ◌⊎◌, ◌≡◌, ap, subst, inl, inr,
  Option-cases,
}
use openporch.Prelude.Result.{Result, ok, err}
use openporch.Placeholder.Types.{
  PlaceholderError, PlaceholderErrorKind, Template, RawPlaceholder, placeholders,
}
use openporch.Placeholder.Scan.{template_parse}
use openporch.Placeholder.Expr.{Dialect}
use openporch.Placeholder.Json.{
  SecretRef, Value, Items, Fields, null, bool, number, string, array, object, Resolved,
  ResolvedItems, ResolvedFields, resolved_array, resolved_object, plain_items, plain_fields,
}
use openporch.Placeholder.Run.{done, >>=-done, done_inj}
use openporch.Placeholder.Resolve.{
  Lookup, Sink, Scope, error_at, at_run, look_up, look_up_all, resolve_string, resolve_value,
  resolve_items, resolve_fields,
}
use openporch.Placeholder.Secrets.{
  Secrets, SecretsItems, SecretsFields, SecretOf, look_up_all-Secrets, resolve_template-Secrets,
}

-- A placeholder stands in some string of the value.
abbrev mutual
  pub HasPlaceholder : RawPlaceholder → Value → Type 0
  HasPlaceholder p (string s) =
      (t : Template) × (template_parse s ≡ some (ok t)) × Memᴰ p (placeholders t)
  HasPlaceholder p (array vs) = ItemsHavePlaceholder p vs
  HasPlaceholder p (object vs) = FieldsHavePlaceholder p vs
  HasPlaceholder p null = ⊥
  HasPlaceholder p (bool b) = ⊥
  HasPlaceholder p (number n) = ⊥

  pub ItemsHavePlaceholder : RawPlaceholder → Items → Type 0
  ItemsHavePlaceholder p Items.no_items = ⊥
  ItemsHavePlaceholder p (Items.item v vs) = HasPlaceholder p v ⊎ ItemsHavePlaceholder p vs

  pub FieldsHavePlaceholder : RawPlaceholder → Fields → Type 0
  FieldsHavePlaceholder p Fields.no_fields = ⊥
  FieldsHavePlaceholder p (Fields.field k v vs) = HasPlaceholder p v ⊎ FieldsHavePlaceholder p vs

at_run-done :
    (f : PlaceholderErrorKind → PlaceholderError)
    (m : Option (Result PlaceholderErrorKind Template)) {t : Template}
    → at_run f m ≡ done t
    → m ≡ some (ok t)
at_run-done f none h = absurd (cc)
at_run-done f (some (ok t)) h = ap (λ x. some (ok x)) (done_inj h)
at_run-done f (some (err e)) h = absurd (cc)

module _ (P : SecretRef → Type 0) (json_text : Value → Str) (lookup : Scope) (dialect : Dialect)
    (sink : Sink) where
  -- What is looked up for the placeholders `Q` is a value, or a secret that satisfies `P`.
  abbrev pub Finds : (RawPlaceholder → Type 0) → Type 0
  Finds Q =
      (location : Str) (p : RawPlaceholder) (l : Lookup)
      → Q p
      → look_up lookup json_text dialect sink location p ≡ done l
      → SecretOf P l

  resolve_string-Secrets :
      (location s : Str) {r : Resolved}
      → Finds (λ p. HasPlaceholder p (string s))
      → resolve_string lookup json_text dialect sink location s ≡ done r
      → Secrets P r
  unfolding resolve_string
  resolve_string-Secrets location s found e =
      let (t, e1, h1) = >>=-done (at_run (error_at location s) (template_parse s)) e in
      let (ls, e2, h2) =
        >>=-done (look_up_all lookup json_text dialect sink location (placeholders t)) h1 in
      resolve_template-Secrets P json_text lookup dialect sink t ls
        (look_up_all-Secrets P json_text lookup dialect sink location (placeholders t)
          (λ p l m.
            found location p l (t, at_run-done (error_at location s) (template_parse s) e1, m))
          e2)
        h2

  resolved_array-Secrets : (rs : ResolvedItems) → SecretsItems P rs → Secrets P (resolved_array rs)
  unfolding resolved_array
  resolved_array-Secrets rs h = elim (Option-cases (plain_items rs)) [
    | inl n ↦ rw (resolved_array, n) (h, n)
    | inr (vs, n) ↦ rw (resolved_array, n) tt
  ]

  resolved_object-Secrets :
      (rs : ResolvedFields) → SecretsFields P rs → Secrets P (resolved_object rs)
  unfolding resolved_object
  resolved_object-Secrets rs h = elim (Option-cases (plain_fields rs)) [
    | inl n ↦ rw (resolved_object, n) (h, n)
    | inr (vs, n) ↦ rw (resolved_object, n) tt
  ]

  mutual
    unfolding resolve_value resolve_items resolve_fields

    pub resolve_value-Secrets :
        (location : Str) (v : Value) {r : Resolved}
        → Finds (λ p. HasPlaceholder p v)
        → resolve_value lookup json_text dialect sink location v ≡ done r
        → Secrets P r
    resolve_value-Secrets location (string s) found e = resolve_string-Secrets location s found e
    resolve_value-Secrets location null found e = subst (Secrets P) (done_inj e) tt
    resolve_value-Secrets location (bool b) found e = subst (Secrets P) (done_inj e) tt
    resolve_value-Secrets location (number n) found e = subst (Secrets P) (done_inj e) tt
    resolve_value-Secrets location (array vs) found e =
        let (rs, e1, h1) = >>=-done (resolve_items lookup json_text dialect sink location 0 vs) e in
        subst (Secrets P) (done_inj h1)
          (resolved_array-Secrets rs (resolve_items-Secrets location 0 vs found e1))
    resolve_value-Secrets location (object vs) found e =
        let (rs, e1, h1) = >>=-done (resolve_fields lookup json_text dialect sink location vs) e in
        subst (Secrets P) (done_inj h1)
          (resolved_object-Secrets rs (resolve_fields-Secrets location vs found e1))

    resolve_items-Secrets :
        (location : Str) (i : ℕ) (vs : Items) {rs : ResolvedItems}
        → Finds (λ p. ItemsHavePlaceholder p vs)
        → resolve_items lookup json_text dialect sink location i vs ≡ done rs
        → SecretsItems P rs
    resolve_items-Secrets location i Items.no_items found e = subst (SecretsItems P) (done_inj e) tt
    resolve_items-Secrets location i (Items.item v vs) found e =
        let here = location ++ bytes "[" ++ decimal i ++ bytes "]" in
        let (r, e1, h1) = >>=-done (resolve_value lookup json_text dialect sink here v) e in
        let (rs, e2, h2) =
          >>=-done (resolve_items lookup json_text dialect sink location (suc i) vs) h1 in
        subst (SecretsItems P) (done_inj h2) (
          resolve_value-Secrets here v (λ x p l m. found x p l (inl m)) e1,
          resolve_items-Secrets location (suc i) vs (λ x p l m. found x p l (inr m)) e2,
        )

    resolve_fields-Secrets :
        (location : Str) (vs : Fields) {rs : ResolvedFields}
        → Finds (λ p. FieldsHavePlaceholder p vs)
        → resolve_fields lookup json_text dialect sink location vs ≡ done rs
        → SecretsFields P rs
    resolve_fields-Secrets location Fields.no_fields found e =
        subst (SecretsFields P) (done_inj e) tt
    resolve_fields-Secrets location (Fields.field k v vs) found e =
        let here = location ++ bytes "." ++ k in
        let (r, e1, h1) = >>=-done (resolve_value lookup json_text dialect sink here v) e in
        let (rs, e2, h2) = >>=-done (resolve_fields lookup json_text dialect sink location vs) h1 in
        subst (SecretsFields P) (done_inj h2) (
          resolve_value-Secrets here v (λ x p l m. found x p l (inl m)) e1,
          resolve_fields-Secrets location vs (λ x p l m. found x p l (inr m)) e2,
        )

-- ===== src/Placeholder/Sinks.antt =====
-- Every secret of a resolved value was found by the scope and admitted by the sink.
use openporch.Prelude.{Str, List, [], ◌∷◌, some, All, ◌≡◌, ◌≢◌, refl, sym, ap, ◌∙◌, subst}
use openporch.Prelude.Result.{Result, ok, err}
use openporch.Placeholder.Types.{
  PlaceholderError, unresolvable, secret_in_non_secret, RawPlaceholder,
}
use openporch.Placeholder.Expr.{Expr, Dialect, interpret}
use openporch.Placeholder.Json.{
  SecretRef, Value, Items, Fields, references_in, Resolved, ResolvedItems, ResolvedFields, plain,
  secret_text, mixed_array, mixed_object, plain_items, plain_fields, prepend_item, prepend_field,
  as_plain,
}
use openporch.Placeholder.Run.{done, >>=-done, done_inj}
use openporch.Placeholder.Resolve.{
  Lookup, value, secret_ref, Sink, plain_sink, secret_sink, Scope, error_at, at, admit, look_up,
  resolve_value,
}
use openporch.Placeholder.Origins.{HasPlaceholder, resolve_value-Secrets}
use openporch.Placeholder.Secrets.{Secrets, SecretsItems, SecretsFields, SecretOf}

nil_of_none : (qs : List SecretRef) → All (λ q. ⊥) qs → qs ≢ [] → ⊥
nil_of_none [] h n = n refl
nil_of_none (q ∷ qs) h n = h.0

-- A value without secrets is plain.
mutual
  plain_of_Secrets : (r : Resolved) → Secrets (λ q. ⊥) r → (w : Value) × (r ≡ plain w)
  plain_of_Secrets (plain v) h = (v, refl)
  plain_of_Secrets (secret_text e) h = absurd (nil_of_none (references_in e.parts) h.0 h.1)
  plain_of_Secrets (mixed_array rs) h =
      let (vs, e) = plain_of_SecretsItems rs h.0 in absurd (cc (sym e ∙ h.1))
  plain_of_Secrets (mixed_object rs) h =
      let (vs, e) = plain_of_SecretsFields rs h.0 in absurd (cc (sym e ∙ h.1))

  plain_of_SecretsItems :
      (rs : ResolvedItems) → SecretsItems (λ q. ⊥) rs → (vs : Items) × (plain_items rs ≡ some vs)
  plain_of_SecretsItems ResolvedItems.no_items h = (Items.no_items, refl)
  plain_of_SecretsItems (ResolvedItems.item r rs) h =
      let (w, e) = plain_of_Secrets r h.0 in
      let (vs, f) = plain_of_SecretsItems rs h.1 in
      (Items.item w vs, λ i. prepend_item (as_plain (e i)) (f i))

  plain_of_SecretsFields :
      (rs : ResolvedFields)
      → SecretsFields (λ q. ⊥) rs
      → (vs : Fields) × (plain_fields rs ≡ some vs)
  plain_of_SecretsFields ResolvedFields.no_fields h = (Fields.no_fields, refl)
  plain_of_SecretsFields (ResolvedFields.field k r rs) h =
      let (w, e) = plain_of_Secrets r h.0 in
      let (vs, f) = plain_of_SecretsFields rs h.1 in
      (Fields.field k w vs, λ i. prepend_field k (as_plain (e i)) (f i))

module _ (lookup : Scope) (json_text : Value → Str) (dialect : Dialect) where
  admit-plain :
      (e : PlaceholderError) (l : Lookup) {m : Lookup}
      → admit plain_sink e l ≡ done m
      → SecretOf (λ q. ⊥) m
  unfolding admit
  admit-plain e (value v) h = subst (SecretOf (λ q. ⊥)) (done_inj h) tt
  admit-plain e (secret_ref r) h = absurd (cc)

  look_up-plain :
      (location : Str) (p : RawPlaceholder) (l : Lookup)
      → look_up lookup json_text dialect plain_sink location p ≡ done l
      → SecretOf (λ q. ⊥) l
  unfolding look_up
  look_up-plain location p l h =
      let (expr, e1, h1) = >>=-done (at (error_at location p.text) (interpret p dialect)) h in
      let (found, e2, h2) =
        >>=-done (at (λ reason. error_at location p.text (unresolvable reason)) (lookup expr)) h1 in
      admit-plain (error_at location p.text secret_in_non_secret) found h2

  -- A value that is resolved for a plain sink has no secret anywhere in it: it is a plain value.
  pub resolve_value-plain :
      (location : Str) (v : Value) {r : Resolved}
      → resolve_value lookup json_text dialect plain_sink location v ≡ done r
      → (w : Value) × (r ≡ plain w)
  resolve_value-plain location v {r} h = plain_of_Secrets r (
      resolve_value-Secrets (λ q. ⊥) json_text lookup dialect plain_sink location v
        (λ x p l m. look_up-plain x p l) h)

  -- The secrets that the scope gives for the placeholders of a value.
  abbrev pub FromScope : Value → SecretRef → Type 0
  FromScope v q =
      (p : RawPlaceholder) × (expr : Expr) × HasPlaceholder p v
      × (interpret p dialect ≡ ok expr)
      × (lookup expr ≡ ok (secret_ref q))

  admit-found :
      (sink : Sink) (e : PlaceholderError) (l : Lookup) {m : Lookup}
      → admit sink e l ≡ done m
      → l ≡ m
  unfolding admit
  admit-found plain_sink e (value v) h = done_inj h
  admit-found plain_sink e (secret_ref r) h = absurd (cc)
  admit-found secret_sink e l h = done_inj h

  at-done {ℓ} :
      {E : Type ℓ} {A : Type 0} (f : E → PlaceholderError) (m : Result E A) {a : A}
      → at f m ≡ done a
      → m ≡ ok a
  at-done f (ok a) h = ap ok (done_inj h)
  at-done f (err e) h = absurd (cc)

  SecretOf-found :
      (v : Value) (p : RawPlaceholder) (expr : Expr) (l : Lookup)
      → HasPlaceholder p v
      → interpret p dialect ≡ ok expr
      → lookup expr ≡ ok l
      → SecretOf (FromScope v) l
  SecretOf-found v p expr (value w) m i h = tt
  SecretOf-found v p expr (secret_ref q) m i h = (p, expr, m, i, h)

  look_up-FromScope :
      (v : Value) (sink : Sink) (location : Str) (p : RawPlaceholder) (l : Lookup)
      → HasPlaceholder p v
      → look_up lookup json_text dialect sink location p ≡ done l
      → SecretOf (FromScope v) l
  unfolding look_up
  look_up-FromScope v sink location p l m h =
      let (expr, e1, h1) = >>=-done (at (error_at location p.text) (interpret p dialect)) h in
      let reason : Str → PlaceholderError = λ why. error_at location p.text (unresolvable why) in
      let (found, e2, h2) = >>=-done (at reason (lookup expr)) h1 in
      let same = admit-found sink (error_at location p.text secret_in_non_secret) found h2 in
      subst (SecretOf (FromScope v)) same (
        SecretOf-found v p expr found m
          (at-done (error_at location p.text) (interpret p dialect) e1)
          (at-done reason (lookup expr) e2))

  -- Each secret in a resolved value is one that the scope gave for what a placeholder in a string of
  -- the value means, and a value that is not plain has one.
  pub resolve_value-FromScope :
      (sink : Sink) (location : Str) (v : Value) {r : Resolved}
      → resolve_value lookup json_text dialect sink location v ≡ done r
      → Secrets (FromScope v) r
  resolve_value-FromScope sink location v h =
      resolve_value-Secrets (FromScope v) json_text lookup dialect sink location v
        (look_up-FromScope v sink) h

-- ===== src/Placeholder/Secrets.antt =====
-- Where the secrets of a resolved value come from.
use openporch.Prelude.{
  Str, List, [], ◌∷◌, ◌++◌, none, All, Memᴰ, ◌≡◌, ◌≢◌, refl, sym, ap, ◌∙◌, subst, inl, inr,
  Option-cases, List-cases,
}
use openporch.Prelude.Result.{ok, Result-cases}
use openporch.Placeholder.Types.{RawPlaceholder, Part, literal, placeholder, Template, whole}
use openporch.Placeholder.Expr.{Dialect}
use openporch.Placeholder.Json.{
  SecretRef, Value, null, bool, number, string, array, object, SecretPart, secret, whole_secret,
  references_in, render_parts, push_literal, Resolved, ResolvedItems, ResolvedFields, plain,
  secret_text, mixed_array, mixed_object, plain_items, plain_fields,
}
use openporch.Placeholder.Run.{done, >>=-done, done_inj}
use openporch.Placeholder.Resolve.{
  Lookup, value, secret_ref, Sink, Scope, look_up, look_up_all, whole_value, push_lookup,
  join_parts, conclude, resolve_template,
}

-- A value that is not plain has a secret in it, and every secret satisfies `P`.
module _ (P : SecretRef → Type 0) where
  abbrev mutual
    pub Secrets : Resolved → Type 0
    Secrets (plain v) = Unit
    Secrets (secret_text e) = All P (references_in e.parts) × (references_in e.parts ≢ [])
    Secrets (mixed_array rs) = SecretsItems rs × (plain_items rs ≡ none)
    Secrets (mixed_object rs) = SecretsFields rs × (plain_fields rs ≡ none)

    pub SecretsItems : ResolvedItems → Type 0
    SecretsItems ResolvedItems.no_items = Unit
    SecretsItems (ResolvedItems.item r rs) = Secrets r × SecretsItems rs

    pub SecretsFields : ResolvedFields → Type 0
    SecretsFields ResolvedFields.no_fields = Unit
    SecretsFields (ResolvedFields.field k r rs) = Secrets r × SecretsFields rs

  abbrev pub SecretOf : Lookup → Type 0
  SecretOf (value v) = Unit
  SecretOf (secret_ref r) = P r

references-push_literal :
    (s : Str) (ps : List SecretPart) → references_in (push_literal s ps) ≡ references_in ps
unfolding references_in push_literal
references-push_literal [] [] = refl
references-push_literal (c ∷ s) [] = refl
references-push_literal s (SecretPart.literal t ∷ []) = refl
references-push_literal [] (secret r ∷ []) = refl
references-push_literal (c ∷ s) (secret r ∷ []) = refl
references-push_literal s (SecretPart.literal t ∷ q ∷ ps) = references-push_literal s (q ∷ ps)
references-push_literal s (secret r ∷ q ∷ ps) = ap (λ x. r ∷ x) (references-push_literal s (q ∷ ps))

references-snoc :
    (r : SecretRef) (ps : List SecretPart)
    → references_in (ps ++ secret r ∷ []) ≡ references_in ps ++ r ∷ []
unfolding references_in
references-snoc r [] = refl
references-snoc r (SecretPart.literal t ∷ ps) = references-snoc r ps
references-snoc r (secret q ∷ ps) = ap (λ x. q ∷ x) (references-snoc r ps)

All-snoc :
    {A : Type 0} (P : A → Type 0) (xs : List A) (a : A) → All P xs → P a → All P (xs ++ a ∷ [])
All-snoc P [] a h p = (p, tt)
All-snoc P (x ∷ xs) a h p = (h.0, All-snoc P xs a h.1 p)

module _ (P : SecretRef → Type 0) (json_text : Value → Str) where
  AllSecrets : List SecretPart → Type 0
  AllSecrets ps = All P (references_in ps)

  no_secrets : AllSecrets []
  unfolding AllSecrets references_in
  no_secrets = tt

  push_literal-AllSecrets :
      (s : Str) (ps : List SecretPart) → AllSecrets ps → AllSecrets (push_literal s ps)
  unfolding AllSecrets
  push_literal-AllSecrets s ps h = subst (All P) (sym (references-push_literal s ps)) h

  whole_secret-Secrets : (q : SecretRef) → P q → Secrets P (secret_text (whole_secret q))
  unfolding references_in
  whole_secret-Secrets q p = ((p, tt), λ e. cc)

  all_snoc :
      (r : SecretRef) (ps : List SecretPart)
      → AllSecrets ps
      → P r
      → AllSecrets (ps ++ secret r ∷ [])
  unfolding AllSecrets
  all_snoc r ps h p =
      subst (All P) (sym (references-snoc r ps)) (All-snoc P (references_in ps) r h p)

  -- `push_lookup` and the functions after it do not depend on the scope, the dialect or the sink.
  module _ (lookup : Scope) (dialect : Dialect) (sink : Sink) where
    push_lookup-AllSecrets :
        (l : Lookup) (ps : List SecretPart)
        → SecretOf P l
        → AllSecrets ps
        → AllSecrets (push_lookup lookup json_text dialect sink l ps)
    unfolding push_lookup
    push_lookup-AllSecrets (value (string s)) ps p h = push_literal-AllSecrets s ps h
    push_lookup-AllSecrets (value null) ps p h = push_literal-AllSecrets (json_text null) ps h
    push_lookup-AllSecrets (value (bool b)) ps p h =
        push_literal-AllSecrets (json_text (bool b)) ps h
    push_lookup-AllSecrets (value (number n)) ps p h =
        push_literal-AllSecrets (json_text (number n)) ps h
    push_lookup-AllSecrets (value (array vs)) ps p h =
        push_literal-AllSecrets (json_text (array vs)) ps h
    push_lookup-AllSecrets (value (object vs)) ps p h =
        push_literal-AllSecrets (json_text (object vs)) ps h
    push_lookup-AllSecrets (secret_ref r) ps p h = all_snoc r ps h p

    join_parts-AllSecrets :
        (ps : List Part) (ls : List Lookup) (out : List SecretPart) {out' : List SecretPart}
        → All (SecretOf P) ls
        → AllSecrets out
        → join_parts lookup json_text dialect sink ps ls out ≡ done out'
        → AllSecrets out'
    unfolding join_parts
    join_parts-AllSecrets [] ls out a h e = subst AllSecrets (done_inj e) h
    join_parts-AllSecrets (literal s ∷ ps) ls out a h e =
        join_parts-AllSecrets ps ls (push_literal s out) a (push_literal-AllSecrets s out h) e
    join_parts-AllSecrets (placeholder p ∷ ps) [] out a h e = absurd (cc)
    join_parts-AllSecrets (placeholder p ∷ ps) (l ∷ ls) out a h e =
        join_parts-AllSecrets ps ls (push_lookup lookup json_text dialect sink l out) a.1
          (push_lookup-AllSecrets l out a.0 h) e

    whole_value-Secrets :
        (ls : List Lookup) {r : Resolved}
        → All (SecretOf P) ls
        → whole_value lookup json_text dialect sink ls ≡ done r
        → Secrets P r
    unfolding whole_value
    whole_value-Secrets [] a e = absurd (cc)
    whole_value-Secrets (value v ∷ []) a e = subst (Secrets P) (done_inj e) tt
    whole_value-Secrets (secret_ref q ∷ []) a e =
        subst (Secrets P) (done_inj e) (whole_secret-Secrets q a.0)
    whole_value-Secrets (l ∷ m ∷ ls) a e = whole_value-Secrets (m ∷ ls) a.1 e

    conclude-Secrets :
        (ps : List SecretPart) {r : Resolved}
        → AllSecrets ps
        → conclude lookup json_text dialect sink ps ≡ done r
        → Secrets P r
    unfolding conclude AllSecrets
    conclude-Secrets ps a e = elim (List-cases (references_in ps)) [
      | inl n ↦ elim (Result-cases {E = Unit {0}} (render_parts (λ r. ok []) ps [])) [
        | inl (x, q) ↦ absurd (let failed = rw (conclude, n, q) at e in cc)
        | inr (t, q) ↦ subst (Secrets P) (done_inj (rw (conclude, n, q) at e)) tt
      ]
      | inr (q, rs, n) ↦
          subst (Secrets P) (done_inj (rw (conclude, n) at e)) (a, λ m. cc (sym n ∙ m))
    ]

    pub look_up_all-Secrets :
        (location : Str) (ps : List RawPlaceholder) {ls : List Lookup}
        → ((p : RawPlaceholder) (l : Lookup)
            → Memᴰ p ps
            → look_up lookup json_text dialect sink location p ≡ done l
            → SecretOf P l)
        → look_up_all lookup json_text dialect sink location ps ≡ done ls
        → All (SecretOf P) ls
    unfolding look_up_all
    look_up_all-Secrets location [] h e = subst (All (SecretOf P)) (done_inj e) tt
    look_up_all-Secrets location (p ∷ ps) h e =
        let (found, e1, h1) = >>=-done (look_up lookup json_text dialect sink location p) e in
        let (rest, e2, h2) = >>=-done (look_up_all lookup json_text dialect sink location ps) h1 in
        subst (All (SecretOf P)) (done_inj h2) (
          h p found (Memᴰ.head refl) e1,
          look_up_all-Secrets location ps (λ q l m. h q l (Memᴰ.tail m)) e2,
        )

    pub resolve_template-Secrets :
        (t : Template) (ls : List Lookup) {r : Resolved}
        → All (SecretOf P) ls
        → resolve_template lookup json_text dialect sink t ls ≡ done r
        → Secrets P r
    unfolding resolve_template
    resolve_template-Secrets t ls a e = elim (Option-cases (whole t)) [
      | inl n ↦
          let (parts, e1, h1) =
            >>=-done (join_parts lookup json_text dialect sink t.parts ls [])
              (rw (resolve_template, n) at e) in
          conclude-Secrets parts (join_parts-AllSecrets t.parts ls [] a no_secrets e1) h1
      | inr (p, n) ↦ whole_value-Secrets ls a (rw (resolve_template, n) at e)
    ]

-- ===== src/Placeholder/NoPanic.antt =====
-- Resolution never panics: each `expect` of `resolve_string` finds what it expects.
use openporch.Prelude.{
  ℕ, suc, Str, bytes, decimal, List, [], ◌∷◌, ◌++◌, Option, none, some, length, ◌<◌, ◌≡◌, ◌≢◌, refl,
  sym, ap, inl, inr, arith, Option-cases, List-cases,
}
use openporch.Prelude.Result.{Result, ok, err}
use openporch.Placeholder.Types.{
  PlaceholderError, PlaceholderErrorKind, unresolvable, RawPlaceholder, Part, literal, placeholder,
  Template, placeholders, placeholders_in, whole, whole_of,
}
use openporch.Placeholder.Scan.{template_parse}
use openporch.Placeholder.Total.{template_parse_total}
use openporch.Placeholder.Expr.{Dialect, interpret}
use openporch.Placeholder.Json.{
  Value, Items, Fields, null, bool, number, string, array, object, SecretPart, secret,
  references_in, render_parts, push_literal,
}
use openporch.Placeholder.Run.{done, >>=-done, >>=-total, done_inj}
use openporch.Placeholder.Resolve.{
  Lookup, value, secret_ref, Sink, plain_sink, secret_sink, Scope, error_at, at, at_run, admit,
  look_up, look_up_all, whole_value, push_lookup, join_parts, conclude, resolve_template,
  resolve_string, resolve_value, resolve_items, resolve_fields,
}

admitted : (sink : Sink) (e : PlaceholderError) (l : Lookup) → admit sink e l ≢ none
unfolding admit
admitted plain_sink e (secret_ref r) = λ n. cc
admitted plain_sink e (value v) = λ n. cc
admitted secret_sink e l = λ n. cc

module _ (json_text : Value → Str) (lookup : Scope) (dialect : Dialect) (sink : Sink) where
  pub count-look_up_all :
      (location : Str) (ps : List RawPlaceholder) {ls : List Lookup}
      → look_up_all lookup json_text dialect sink location ps ≡ done ls
      → length ls ≡ length ps
  unfolding look_up_all
  count-look_up_all location [] e = ap length (sym (done_inj e))
  count-look_up_all location (p ∷ ps) e =
      let (found, e1, h1) = >>=-done (look_up lookup json_text dialect sink location p) e in
      let (rest, e2, h2) = >>=-done (look_up_all lookup json_text dialect sink location ps) h1 in
      omega (arith, ap length (done_inj h2), count-look_up_all location ps e2)

  admit_total : (e : PlaceholderError) (l : Lookup) → admit sink e l ≢ none
  admit_total e l = admitted sink e l

  at_total : {A E : Type 0} (f : E → PlaceholderError) (m : Result E A) → at f m ≢ none
  at_total f (ok a) = λ e. cc
  at_total f (err x) = λ e. cc

  look_up_total :
      (location : Str) (p : RawPlaceholder)
      → look_up lookup json_text dialect sink location p ≢ none
  unfolding look_up
  look_up_total location p =
      >>=-total (at (error_at location p.text) (interpret p dialect))
        (at_total _ (interpret p dialect))
        λ expr e.
          >>=-total (at (λ why. error_at location p.text (unresolvable why)) (lookup expr))
            (at_total _ (lookup expr)) λ found e'. admit_total _ found

  look_up_all_total :
      (location : Str) (ps : List RawPlaceholder)
      → look_up_all lookup json_text dialect sink location ps ≢ none
  unfolding look_up_all
  look_up_all_total location [] = λ e. cc
  look_up_all_total location (p ∷ ps) =
      >>=-total (look_up lookup json_text dialect sink location p) (look_up_total location p)
        λ found e.
          >>=-total (look_up_all lookup json_text dialect sink location ps)
            (look_up_all_total location ps) λ rest e'. λ n. cc

  whole_value_total :
      (ls : List Lookup) → 0 < length ls → whole_value lookup json_text dialect sink ls ≢ none
  unfolding whole_value
  whole_value_total [] h = absurd (omega arith)
  whole_value_total (value v ∷ []) h = λ e. cc
  whole_value_total (secret_ref r ∷ []) h = λ e. cc
  whole_value_total (l ∷ m ∷ ls) h = whole_value_total (m ∷ ls) (omega arith)

  join_parts_total :
      (ps : List Part) (ls : List Lookup) (out : List SecretPart)
      → length ls ≡ length (placeholders_in ps)
      → join_parts lookup json_text dialect sink ps ls out ≢ none
  unfolding join_parts
  join_parts_total [] ls out h = λ e. cc
  join_parts_total (literal s ∷ ps) ls out h = join_parts_total ps ls (push_literal s out) h
  join_parts_total (placeholder p ∷ ps) [] out h = absurd (omega arith)
  join_parts_total (placeholder p ∷ ps) (l ∷ ls) out h =
      join_parts_total ps ls (push_lookup lookup json_text dialect sink l out) (omega arith)

  -- A text without references is rendered without a call of `read`.
  render_parts_total :
      (ps : List SecretPart) (out : Str)
      → references_in ps ≡ []
      → (s : Str) × (render_parts {E = Unit {0}} (λ r. ok []) ps out ≡ ok s)
  unfolding render_parts references_in
  render_parts_total [] out h = (out, refl)
  render_parts_total (SecretPart.literal s ∷ ps) out h = render_parts_total ps (out ++ s) h
  render_parts_total (secret r ∷ ps) out h = absurd (cc)

  conclude_total : (ps : List SecretPart) → conclude lookup json_text dialect sink ps ≢ none
  unfolding conclude
  conclude_total ps = elim (List-cases (references_in ps)) [
    | inl n ↦
        let (s, q) = render_parts_total ps [] n in λ e. let failed = rw (conclude, n, q) at e in cc
    | inr (q, rs, n) ↦ λ e. let failed = rw (conclude, n) at e in cc
  ]

  whole-one :
      (ps : List Part) {p : RawPlaceholder} → whole_of ps ≡ some p → length (placeholders_in ps) ≡ 1
  whole-one [] h = absurd (cc)
  whole-one (literal s ∷ ps) h = absurd (cc)
  whole-one (placeholder p ∷ []) h = omega arith
  whole-one (placeholder p ∷ q ∷ ps) h = absurd (cc)

  pub resolve_template_total :
      (t : Template) (ls : List Lookup)
      → length ls ≡ length (placeholders t)
      → resolve_template lookup json_text dialect sink t ls ≢ none
  unfolding resolve_template
  resolve_template_total t ls h = elim (Option-cases (whole t)) [
    | inl n ↦
        rw (resolve_template, n)
          (>>=-total (join_parts lookup json_text dialect sink t.parts ls [])
            (join_parts_total t.parts ls [] h) λ parts e. conclude_total parts)
    | inr (p, n) ↦
        rw (resolve_template, n) (whole_value_total ls (omega (arith, whole-one t.parts n)))
  ]

  at_run_total :
      {A : Type 0} (f : PlaceholderErrorKind → PlaceholderError)
      (m : Option (Result PlaceholderErrorKind A))
      → m ≢ none
      → at_run f m ≢ none
  at_run_total f none h = λ e. h refl
  at_run_total f (some (ok a)) h = λ e. cc
  at_run_total f (some (err x)) h = λ e. cc

  -- A string is resolved or refused: nothing panics and no loop runs on.
  pub resolve_string_total :
      (location s : Str) → resolve_string lookup json_text dialect sink location s ≢ none
  unfolding resolve_string
  resolve_string_total location s =
      >>=-total (at_run (error_at location s) (template_parse s))
        (at_run_total _ (template_parse s) (template_parse_total s))
        λ t e.
          >>=-total (look_up_all lookup json_text dialect sink location (placeholders t))
            (look_up_all_total location (placeholders t))
            λ ls e'. resolve_template_total t ls (count-look_up_all location (placeholders t) e')

  mutual
    unfolding resolve_value resolve_items resolve_fields

    value_total :
        (location : Str) (v : Value) → resolve_value lookup json_text dialect sink location v ≢ none
    value_total location (string s) = resolve_string_total location s
    value_total location null = λ e. cc
    value_total location (bool b) = λ e. cc
    value_total location (number n) = λ e. cc
    value_total location (array vs) =
        >>=-total (resolve_items lookup json_text dialect sink location 0 vs)
          (items_total location 0 vs) λ rs e. λ n. cc
    value_total location (object vs) =
        >>=-total (resolve_fields lookup json_text dialect sink location vs)
          (fields_total location vs) λ rs e. λ n. cc

    items_total :
        (location : Str) (i : ℕ) (vs : Items)
        → resolve_items lookup json_text dialect sink location i vs ≢ none
    items_total location i Items.no_items = λ e. cc
    items_total location i (Items.item v vs) =
        let here = location ++ bytes "[" ++ decimal i ++ bytes "]" in
        >>=-total (resolve_value lookup json_text dialect sink here v) (value_total here v) λ r e.
          >>=-total (resolve_items lookup json_text dialect sink location (suc i) vs)
            (items_total location (suc i) vs) λ rs e'. λ n. cc

    fields_total :
        (location : Str) (vs : Fields)
        → resolve_fields lookup json_text dialect sink location vs ≢ none
    fields_total location Fields.no_fields = λ e. cc
    fields_total location (Fields.field k v vs) =
        let here = location ++ bytes "." ++ k in
        >>=-total (resolve_value lookup json_text dialect sink here v) (value_total here v) λ r e.
          >>=-total (resolve_fields lookup json_text dialect sink location vs)
            (fields_total location vs) λ rs e'. λ n. cc

  -- Every JSON value, with whatever strings in it, is resolved or refused: no loop runs on, and each
  -- `expect` on the way finds what it expects.
  pub resolve_value_total :
      (location : Str) (v : Value) → resolve_value lookup json_text dialect sink location v ≢ none
  resolve_value_total location v = value_total location v

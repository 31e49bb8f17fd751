-- ===== src/Placeholder/Resolve.antt =====
-- `resolve_string` and `resolve_value`. The scope that supplies the values is an argument, and so
-- is the JSON text of a value, which serde_json writes.
use openporch.Prelude.{ℕ, suc, Str, bytes, decimal, List, [], ◌∷◌, ◌++◌, Option, none, some}
use openporch.Prelude.Result.{Result, ok, err}
use openporch.Placeholder.Types.{
  PlaceholderError, PlaceholderErrorKind, unresolvable, secret_in_non_secret, RawPlaceholder, Part,
  literal, placeholder, Template, placeholders, whole,
}
use openporch.Placeholder.Scan.{template_parse}
use openporch.Placeholder.Expr.{Expr, Dialect, interpret}
use openporch.Placeholder.Json.{
  SecretRef, Value, Items, Fields, null, bool, number, string, array, object, SecretPart, secret,
  whole_secret, references_in, render_parts, push_literal, Resolved, ResolvedItems, ResolvedFields,
  plain, secret_text, resolved_array, resolved_object,
}
use openporch.Placeholder.Run.{Run, ◌>>=◌, done, fail}

pub data Lookup : Type 0 where
  value : Value → Lookup
  secret_ref : SecretRef → Lookup

pub data Sink : Type 0 where
  plain_sink : Sink
  secret_sink : Sink

-- `Scope::lookup`: a failure is a reason.
abbrev pub Scope : Type 0
Scope = Expr → Result Str Lookup

abbrev pub error_at : Str → Str → PlaceholderErrorKind → PlaceholderError
error_at location text kind = record { placeholder = text; location = location; kind = kind }

-- `map_err(|k| err(text, k))?`
abbrev pub at {ℓ} : {E : Type ℓ} {A : Type 0} → (E → PlaceholderError) → Result E A → Run A
at f (ok a) = done a
at f (err e) = fail (f e)

abbrev pub at_run :
    {A : Type 0}
    → (PlaceholderErrorKind → PlaceholderError)
    → Option (Result PlaceholderErrorKind A)
    → Run A
at_run f none = none
at_run f (some r) = at f r

-- A secret is refused in a plain sink.
unfoldable pub admit : Sink → PlaceholderError → Lookup → Run Lookup
admit plain_sink e (secret_ref r) = fail e
admit plain_sink e (value v) = done (value v)
admit secret_sink e found = done found

module _ (lookup : Scope) (json_text : Value → Str) (dialect : Dialect) (sink : Sink) where
  -- One round of the loop over the placeholders.
  unfoldable pub look_up : Str → RawPlaceholder → Run Lookup
  unfolding admit interpret
  look_up location p = do
    expr ← at (error_at location p.text) (interpret p dialect)
    found ← at (λ reason. error_at location p.text (unresolvable reason)) (lookup expr)
    admit sink (error_at location p.text secret_in_non_secret) found

  unfoldable pub look_up_all : Str → List RawPlaceholder → Run (List Lookup)
  unfolding look_up
  look_up_all location [] = done []
  look_up_all location (p ∷ ps) = do
    found ← look_up location p
    rest ← look_up_all location ps
    done (found ∷ rest)

  -- A string that is exactly one placeholder: `lookups.pop().expect(..)`.
  unfoldable pub whole_value : List Lookup → Run Resolved
  whole_value [] = none
  whole_value (value v ∷ []) = done (plain v)
  whole_value (secret_ref r ∷ []) = done (secret_text (whole_secret r))
  whole_value (l ∷ m ∷ ls) = whole_value (m ∷ ls)

  -- What one lookup adds to the text.
  unfoldable pub push_lookup : Lookup → List SecretPart → List SecretPart
  unfolding push_literal
  push_lookup (value (string s)) parts = push_literal s parts
  push_lookup (value v) parts = push_literal (json_text v) parts
  push_lookup (secret_ref r) parts = parts ++ secret r ∷ []

  -- The loop over the parts of the string.
  unfoldable pub join_parts : List Part → List Lookup → List SecretPart → Run (List SecretPart)
  unfolding push_lookup push_literal
  join_parts [] ls out = done out
  join_parts (literal s ∷ ps) ls out = join_parts ps ls (push_literal s out)
  join_parts (placeholder p ∷ ps) [] out = none
  join_parts (placeholder p ∷ ps) (l ∷ ls) out = join_parts ps ls (push_lookup l out)

  -- `.expect("no secrets")`, of a text without references.
  abbrev expect_text : Result (Unit {0}) Str → Run Resolved
  expect_text (ok s) = done (plain (string s))
  expect_text (err e) = none

  unfoldable pub conclude : List SecretPart → Run Resolved
  unfolding references_in render_parts
  conclude parts = elim (references_in parts) [
    | [] ↦ expect_text (render_parts (λ r. ok []) parts [])
    | r ∷ rs ↦ done (secret_text (record { parts = parts }))
  ]

  unfoldable pub resolve_template : Template → List Lookup → Run Resolved
  unfolding whole_value join_parts conclude
  resolve_template t found = elim (whole t) [
    | some p ↦ whole_value found
    | none ↦ do parts ← join_parts t.parts found []; conclude parts
  ]

  unfoldable pub resolve_string : Str → Str → Run Resolved
  unfolding template_parse look_up_all resolve_template
  resolve_string location s = do
    t ← at_run (error_at location s) (template_parse s)
    found ← look_up_all location (placeholders t)
    resolve_template t found

  unfoldable mutual
    unfolding resolve_string resolved_array resolved_object

    pub resolve_value : Str → Value → Run Resolved
    resolve_value location (string s) = resolve_string location s
    resolve_value location (array items) = do
      rs ← resolve_items location 0 items
      done (resolved_array rs)
    resolve_value location (object fields) = do
      rs ← resolve_fields location fields
      done (resolved_object rs)
    resolve_value location null = done (plain null)
    resolve_value location (bool b) = done (plain (bool b))
    resolve_value location (number n) = done (plain (number n))

    pub resolve_items : Str → ℕ → Items → Run ResolvedItems
    resolve_items location i Items.no_items = done ResolvedItems.no_items
    resolve_items location i (Items.item v vs) = do
      r ← resolve_value (location ++ bytes "[" ++ decimal i ++ bytes "]") v
      rs ← resolve_items location (suc i) vs
      done (ResolvedItems.item r rs)

    pub resolve_fields : Str → Fields → Run ResolvedFields
    resolve_fields location Fields.no_fields = done ResolvedFields.no_fields
    resolve_fields location (Fields.field k v vs) = do
      r ← resolve_value (location ++ bytes "." ++ k) v
      rs ← resolve_fields location vs
      done (ResolvedFields.field k r rs)

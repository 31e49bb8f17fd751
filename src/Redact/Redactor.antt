-- ===== src/Redact/Redactor.antt =====
-- `Redactor` (crates/core/src/redact.rs). A text is the list of its characters, and a position counts
-- characters.
use openporch.Prelude.{
  ℕ, zero, suc, ◌+◌, ◌-◌, Str, bytes, Bool, false, not, List, [], ◌∷◌, ◌++◌, Option, none, some,
  if◌then◌else◌, ltb, leb, nat_beq, is_nil, length, drop, any, keep,
}
use openporch.Prelude.Order.{str_ord, ◌==◌}
use openporch.Prelude.Sort.{sort}
use openporch.Redact.Find.{find_text, contains, replace_pair, replace_char}
use openporch.Redact.Ranges.{Range, range_ord}

abbrev pub redacted : Str
redacted = bytes "[REDACTED]"

abbrev pub passes : ℕ
passes = 8

-- The forms of a `Redactor`.
pub record Redactor : Type 0 where
  pub forms : List Str

-- The occurrences of a form from position `from` on, where `rest` begins, also those that overlap.
unfoldable pub occurrences : ℕ → Str → ℕ → Str → List Range
unfolding find_text
occurrences zero form from rest = []
occurrences (suc fuel) form from rest = elim (find_text form rest) [
  | none ↦ []
  | some i ↦
      (from + i, from + i + length form)
      ∷ occurrences fuel form (suc (from + i)) (drop (suc i) rest)
]

-- Each round of the loop moves on by a character, so this fuel is enough.
unfoldable pub all_ranges : List Str → Str → List Range
unfolding occurrences
all_ranges [] text = []
all_ranges (f ∷ fs) text = occurrences (suc (length text)) f 0 text ++ all_ranges fs text

-- The inner loop: ranges that overlap or touch are one.
unfoldable pub merge_from : ℕ → ℕ → List Range → List Range
merge_from s e [] = (s, e) ∷ []
merge_from s e ((s', e') ∷ rs) =
    let joined = merge_from s (if ltb e e' then e' else e) rs in
    let apart = (s, e) ∷ merge_from s' e' rs in if leb s' e then joined else apart

unfoldable pub merged : List Range → List Range
unfolding merge_from
merged [] = []
merged ((s, e) ∷ rs) = merge_from s e rs

abbrev take : ℕ → Str → Str
take zero s = []
take (suc n) [] = []
take (suc n) (c ∷ s) = c ∷ take n s

-- The text with the marker in place of each range, from position `at` on.
unfoldable pub write_out : Str → Str → ℕ → Str → List Range → Str
write_out text marker at out [] = out ++ drop at text
write_out text marker at out ((s, e) ∷ rs) =
    write_out text marker e (out ++ take (s - at) (drop at text) ++ marker) rs

-- `Redactor::pass`
unfoldable pub pass : Redactor → Str → Str → Option Str
unfolding all_ranges merged write_out sort
pass r text marker =
    if is_nil (all_ranges r.forms text)
    then none
    else some (write_out text marker 0 [] (merged (sort (all_ranges r.forms text))))

unfoldable pub settle : ℕ → Redactor → Str → Str → Str
unfolding pass
settle zero r marker out = marker
settle (suc n) r marker out = elim (pass r out marker) [
  | none ↦ out
  | some next ↦ settle n r marker next
]

unfoldable pub marker_for : Redactor → Str
unfolding find_text
marker_for r = if any (λ f. contains f redacted) r.forms then [] else redacted

-- `Redactor::redact`
unfoldable pub redact : Redactor → Str → Str
unfolding marker_for settle pass
redact r text = elim (pass r text (marker_for r)) [
  | none ↦ text
  | some out ↦ settle passes r (marker_for r) out
]

-- `Vec::dedup`
abbrev pub dedup_after : Str → List Str → List Str
dedup_after x [] = []
dedup_after x (y ∷ ys) = if y == x then dedup_after x ys else y ∷ dedup_after y ys

abbrev pub dedup : List Str → List Str
dedup [] = []
dedup (x ∷ xs) = x ∷ dedup_after x xs

-- The text between the quotes of a JSON string.
abbrev pub strip_first : Str → Str
strip_first [] = []
strip_first (c ∷ s) = if nat_beq c 34 then s else []

abbrev pub strip_last : Str → Str
strip_last [] = []
strip_last (c ∷ []) = []
strip_last (c ∷ d ∷ s) = c ∷ strip_last (d ∷ s)

abbrev pub ends_quoted : Str → Bool
ends_quoted [] = false
ends_quoted (c ∷ []) = nat_beq c 34
ends_quoted (c ∷ d ∷ s) = ends_quoted (d ∷ s)

unfoldable pub inside_quotes : Str → Str
inside_quotes s = if ends_quoted (strip_first s) then strip_last (strip_first s) else []

unfoldable pub go_escaped : Str → Str
unfolding replace_char
go_escaped s = replace_char 8233 (bytes "\\u2029") (
    replace_char 8232 (bytes "\\u2028") (
      replace_char 38 (bytes "\\u0026")
        (replace_char 62 (bytes "\\u003e") (replace_char 60 (bytes "\\u003c") s))))

unfoldable pub hcl_escaped : Str → Str
unfolding replace_pair
hcl_escaped s = replace_pair 37 123 (bytes "%%{") (replace_pair 36 123 (bytes "$${") s)

-- The JSON text of a string is an argument, since serde_json writes it.
module _ (json : Str → Str) where
  unfoldable pub escaped_forms : Str → List Str
  unfolding inside_quotes go_escaped hcl_escaped
  escaped_forms v =
      let j = inside_quotes (json v) in
      let g = go_escaped j in keep (λ f. not (f == v)) (hcl_escaped j ∷ hcl_escaped g ∷ j ∷ g ∷ [])

  -- The loop of `Redactor::add`.
  unfoldable pub push_forms : List Str → List Str → List Str
  unfolding escaped_forms
  push_forms forms [] = forms
  push_forms forms (v ∷ vs) =
      push_forms (if is_nil v then forms else forms ++ escaped_forms v ++ v ∷ []) vs

  -- `Redactor::add`
  unfoldable pub add : Redactor → List Str → Redactor
  unfolding push_forms sort
  add r values = record { forms = dedup (sort (push_forms r.forms values)) }

  -- `Redactor::new`
  unfoldable pub new : List Str → Redactor
  unfolding add
  new values = add (record { forms = [] }) values

-- ===== src/Placeholder/Scan.antt =====
-- `Template::parse`: literal text and placeholders of a string.
use openporch.Prelude.{
  ℕ, zero, suc, Str, bytes, ◌||◌, List, [], ◌∷◌, ◌++◌, Option, none, some, if◌then◌else◌, nat_beq,
  length, drop,
}
use openporch.Prelude.Result.{Result, ok, err}
use openporch.Prelude.Split.{split_once}
use openporch.Placeholder.Types.{
  PlaceholderErrorKind, syntax, Segment, Part, literal, placeholder, Template,
}
use openporch.Placeholder.Path.{single_quote, double_quote, parse_path}

-- `find_placeholder_end`: the index of the `}` that closes a body, outside quotes.
abbrev pub close_brace : ℕ
close_brace = 125

unfoldable pub find_end : Option ℕ → ℕ → Str → Option ℕ
find_end quote i [] = none
find_end (some q) i (c ∷ s) = find_end (if nat_beq c q then none else some q) (suc i) s
find_end none i (c ∷ s) =
    let in_quote = find_end (some c) (suc i) s in
    let outside = find_end none (suc i) s in
    if nat_beq c single_quote || nat_beq c double_quote
    then in_quote
    else if nat_beq c close_brace
    then some i
    else outside

unfoldable pub find_placeholder_end : Str → Option ℕ
unfolding find_end
find_placeholder_end s = find_end none 0 s

-- `&s[..n]`.
abbrev pub take : ℕ → Str → Str
take zero s = []
take (suc n) [] = []
take (suc n) (c ∷ s) = c ∷ take n s

abbrev pub dollar : ℕ
dollar = 36

-- What follows a dollar sign, by the prefixes that the loop tries in turn.
pub data After : Type 0 where
  escape : (tail : Str) → After
  opening : (tail : Str) → After
  plain : (tail : Str) → After

unfoldable pub after_dollar : Str → After
after_dollar [] = plain []
after_dollar (c ∷ []) = if nat_beq c 123 then opening [] else plain (c ∷ [])
after_dollar (c ∷ d ∷ s) =
    if nat_beq c 92
    then (if nat_beq d 123 then escape s else plain (c ∷ d ∷ s))
    else if nat_beq c 123
    then opening (d ∷ s)
    else plain (c ∷ d ∷ s)

-- `if !lit.is_empty() { parts.push(Part::Literal(..)) }`
unfoldable pub flush : List Part → Str → List Part
flush parts [] = parts
flush parts (c ∷ s) = parts ++ literal (c ∷ s) ∷ []

-- The variables of the loop.
pub record Scan : Type 0 where
  pub parts : List Part
  pub lit : Str
  pub rest : Str

abbrev pub Outcome : Type 0 → Type 0
Outcome A = Option (Result PlaceholderErrorKind A)

abbrev pub placeholder_of : Str → List Segment → Part
placeholder_of body segments =
    placeholder (record { text = bytes "${" ++ (body ++ bytes "}"); segments = segments })

-- The branch of a placeholder that starts at `tail`.
unfoldable pub take_placeholder : List Part → Str → Str → Outcome Scan
unfolding find_placeholder_end parse_path flush
take_placeholder parts lit tail = elim (find_placeholder_end tail) [
  | none ↦ some (err (syntax (bytes "unterminated `${`")))
  | some end ↦ elim (parse_path (take end tail)) [
    | none ↦ none
    | some (err e) ↦ some (err e)
    | some (ok segments) ↦ some (
        ok (record {
          parts = flush parts lit ++ placeholder_of (take end tail) segments ∷ [];
          lit = [];
          rest = drop (suc end) tail;
        }))
  ]
]

-- The branches of a round, with the text before a dollar sign.
unfoldable pub scan_after : Scan → Str → After → Outcome Scan
unfolding take_placeholder
scan_after s before (escape tail) =
    some (ok (record s { lit = s.lit ++ before ++ dollar ∷ 123 ∷ []; rest = tail }))
scan_after s before (opening tail) = take_placeholder s.parts (s.lit ++ before) tail
scan_after s before (plain tail) =
    some (ok (record s { lit = s.lit ++ before ++ dollar ∷ []; rest = tail }))

unfoldable pub scan_loop : ℕ → Scan → Outcome Template
unfolding scan_after after_dollar flush
scan_loop zero s = none
scan_loop (suc fuel) s = elim (split_once dollar s.rest) [
  | none ↦ some (ok (record { parts = flush s.parts (s.lit ++ s.rest) }))
  | some (before, after) ↦ elim (scan_after s before (after_dollar after)) [
    | none ↦ none
    | some (err e) ↦ some (err e)
    | some (ok s') ↦ scan_loop fuel s'
  ]
]

-- Each round takes a dollar sign at least.
unfoldable pub template_parse : Str → Outcome Template
unfolding scan_loop
template_parse s = scan_loop (suc (length s)) (record { parts = []; lit = []; rest = s })

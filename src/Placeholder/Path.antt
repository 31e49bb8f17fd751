-- ===== src/Placeholder/Path.antt =====
-- `parse_path`: the segments of a placeholder's body. The characters that are left are the list
-- from the code's index on, and fuel bounds the rounds of its loop.
use openporch.Prelude.{
  ℕ, zero, suc, ◌+◌, ◌-◌, ◌*◌, ◌^◌, Str, bytes, Bool, not, ◌&&◌, ◌||◌, List, [], ◌∷◌, ◌++◌, Option,
  none, some, if◌then◌else◌, ltb, leb, nat_beq, is_nil, length,
}
use openporch.Prelude.Result.{Result, ok, err, ◌>>=◌}
use openporch.Prelude.Split.{split_once}
use openporch.Placeholder.Types.{PlaceholderErrorKind, syntax, Segment, name, quoted, index}

-- `char::is_whitespace`: the code points with the property White_Space.
unfoldable pub is_whitespace : ℕ → Bool
is_whitespace c =
    (leb 9 c && leb c 13)
    || nat_beq c 32
    || nat_beq c 133
    || nat_beq c 160
    || nat_beq c 5760
    || (leb 8192 c && leb c 8202)
    || nat_beq c 8232
    || nat_beq c 8233
    || nat_beq c 8239
    || nat_beq c 8287
    || nat_beq c 12288

abbrev pub open_bracket : ℕ
open_bracket = 91

abbrev pub close_bracket : ℕ
close_bracket = 93

abbrev pub single_quote : ℕ
single_quote = 39

abbrev pub double_quote : ℕ
double_quote = 34

abbrev pub full_stop : ℕ
full_stop = 46

unfoldable pub is_name_char : ℕ → Bool
unfolding is_whitespace
is_name_char c =
    not (
      nat_beq c full_stop
      || nat_beq c open_bracket
      || nat_beq c close_bracket
      || nat_beq c single_quote
      || nat_beq c double_quote)
    && not (is_whitespace c)

-- `str::parse::<usize>`: an optional plus sign and digits, below 2^64.
abbrev usize_limit : ℕ
usize_limit = 2 ^ 64

abbrev pub next_digit : Option ℕ → ℕ → Option ℕ
next_digit none c = none
next_digit (some v) c =
    if leb 48 c && leb c 57 && ltb (v * 10 + (c - 48)) usize_limit
    then some (v * 10 + (c - 48))
    else none

abbrev pub digits_from : Option ℕ → Str → Option ℕ
digits_from v [] = v
digits_from v (c ∷ s) = digits_from (next_digit v c) s

abbrev pub digits : Str → Option ℕ
digits [] = none
digits (c ∷ s) = digits_from (some 0) (c ∷ s)

unfoldable pub parse_usize : Str → Option ℕ
parse_usize [] = none
parse_usize (c ∷ s) = if nat_beq c 43 then digits s else digits (c ∷ s)

-- `strip_prefix` and `strip_suffix` of one character.
abbrev pub strip_prefix : ℕ → Str → Option Str
strip_prefix q [] = none
strip_prefix q (c ∷ s) = if nat_beq c q then some s else none

abbrev pub strip_suffix : ℕ → Str → Option Str
strip_suffix q [] = none
strip_suffix q (c ∷ []) = if nat_beq c q then some [] else none
strip_suffix q (c ∷ d ∷ s) = elim (strip_suffix q (d ∷ s)) [ none ↦ none | some t ↦ some (c ∷ t) ]

-- The text between quotes `q`.
unfoldable pub unquote : ℕ → Str → Option Str
unquote q inner = elim (strip_prefix q inner) [ none ↦ none | some s ↦ strip_suffix q s ]

unfoldable pub index_segment : Str → Result PlaceholderErrorKind Segment
unfolding parse_usize
index_segment inner = elim (parse_usize inner) [
  | none ↦ err (syntax (bytes "brackets hold a quoted string or a non-negative index"))
  | some i ↦ ok (index i)
]

-- What stands in brackets.
unfoldable pub bracket_segment : Str → Result PlaceholderErrorKind Segment
unfolding unquote index_segment
bracket_segment inner = elim (unquote single_quote inner) [
  | some q ↦ ok (quoted q)
  | none ↦ elim (unquote double_quote inner) [ some q ↦ ok (quoted q) | none ↦ index_segment inner ]
]

-- `chars[i..]` and the segments so far.
abbrev pub PathState : Type 0
PathState = List Segment × Str

-- The characters of a name, and what follows them.
abbrev pub cons_name : ℕ → Str × Str → Str × Str
cons_name c r = (c ∷ r.0, r.1)

unfoldable pub name_span : Str → Str × Str
unfolding is_name_char
name_span [] = ([], [])
name_span (c ∷ s) = if is_name_char c then cons_name c (name_span s) else ([], c ∷ s)

-- The branch of `[`, after it.
unfoldable pub bracket_step : List Segment → Str → Result PlaceholderErrorKind PathState
unfolding bracket_segment
bracket_step segs s = elim (split_once close_bracket s) [
  | none ↦ err (syntax (bytes "unterminated `[`"))
  | some (inner, rest) ↦ do seg ← bracket_segment inner; ok (segs ++ seg ∷ [], rest)
]

-- The branch of `.`, after it.
unfoldable pub dot_step : List Segment → Str → Result PlaceholderErrorKind PathState
unfolding name_span
dot_step segs s =
    let (n, rest) = name_span s in
    if is_nil n then err (syntax (bytes "empty path segment")) else ok (segs ++ name n ∷ [], rest)

-- One round of the loop, at a character.
unfoldable pub path_step : List Segment → ℕ → Str → Result PlaceholderErrorKind PathState
unfolding bracket_step dot_step name_span is_name_char
path_step segs c s =
    if nat_beq c open_bracket
    then bracket_step segs s
    else if nat_beq c full_stop && not (is_nil segs)
    then dot_step segs s
    else if is_nil segs && is_name_char c
    then (let (n, rest) = name_span (c ∷ s) in ok (segs ++ name n ∷ [], rest))
    else err (syntax (bytes "unexpected `" ++ (c ∷ bytes "`")))

-- `none`: the fuel ran out.
unfoldable pub path_loop :
    ℕ → List Segment → Str → Option (Result PlaceholderErrorKind (List Segment))
unfolding path_step
path_loop fuel segs [] = some (ok segs)
path_loop zero segs (c ∷ s) = none
path_loop (suc fuel) segs (c ∷ s) = elim (path_step segs c s) [
  | err e ↦ some (err e)
  | ok (segs', rest) ↦ path_loop fuel segs' rest
]

-- Each round takes a character at least, so there are no more rounds than characters.
unfoldable pub parse_path : Str → Option (Result PlaceholderErrorKind (List Segment))
unfolding path_loop
parse_path body =
    if is_nil body
    then some (err (syntax (bytes "empty placeholder")))
    else path_loop (length body) [] body

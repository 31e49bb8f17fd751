-- ===== src/Placeholder/Total.antt =====
-- Both loops end within their fuel.
use openporch.Prelude.{
  ℕ, zero, suc, ◌+◌, ◌≤◌, ◌<◌, Str, List, [], ◌∷◌, ◌++◌, Option, none, some, length, drop, ◌≡◌, ◌≢◌,
  refl, ap, inl, inr, ◌⊎◌, arith, Option-cases, length-append,
}
use openporch.Prelude.Result.{Result, ok, err, >>=-ok, ok_inj, Result-cases}
use openporch.Prelude.Split.{split_once, append_of_split_once}
use openporch.Placeholder.Types.{PlaceholderErrorKind, Segment, Part}
use openporch.Placeholder.Path.{
  PathState, name_span, bracket_step, bracket_segment, dot_step, path_step, path_loop, parse_path,
  close_bracket,
}
use openporch.Placeholder.Scan.{
  Scan, After, escape, opening, plain, after_dollar, take_placeholder, scan_after, scan_loop,
  template_parse, find_placeholder_end, take, dollar,
}

length-name_span : (s : Str) → length (name_span s).1 ≤ length s
unfolding name_span
length-name_span [] = omega arith
length-name_span (c ∷ s) = ground (arith, length-name_span s)

split_once-shorter :
    (c : ℕ) (s : Str) {a b : Str} → split_once c s ≡ some (a, b) → length a + length b < length s
split_once-shorter c s {a} {b} e =
    omega (arith, ap length (append_of_split_once c s e).0, length-append a (c ∷ b))

bracket_step-shorter :
    (segs : List Segment) (s : Str) {segs' : List Segment} {rest : Str}
    → bracket_step segs s ≡ ok (segs', rest)
    → length rest ≤ length s
unfolding bracket_step
bracket_step-shorter segs s {rest = rest} h = elim (Option-cases (split_once close_bracket s)) [
  | inl e ↦ absurd (let failed = rw (bracket_step, e) at h in cc)
  | inr ((inner, after), e) ↦
      let (seg, p, q) = >>=-ok (bracket_segment inner) (rw (bracket_step, e) at h) in
      omega
        (arith, split_once-shorter close_bracket s e, ap (λ (x : PathState). length x.1) (ok_inj q))
]

dot_step-shorter :
    (segs : List Segment) (s : Str) {segs' : List Segment} {rest : Str}
    → dot_step segs s ≡ ok (segs', rest)
    → length rest ≤ length s
unfolding dot_step
dot_step-shorter segs s {segs'} {rest} h = ground (arith, length-name_span s)

path_step-shorter :
    (segs : List Segment) (c : ℕ) (s : Str) {segs' : List Segment} {rest : Str}
    → path_step segs c s ≡ ok (segs', rest)
    → length rest ≤ length s
unfolding path_step name_span
path_step-shorter segs c s {segs'} {rest} h = ground (
  arith,
  bracket_step-shorter segs s {segs' = segs'} {rest = rest},
  dot_step-shorter segs s {segs' = segs'} {rest = rest},
  length-name_span s,
)

path_loop_total :
    (fuel : ℕ) (segs : List Segment) (s : Str) → length s ≤ fuel → path_loop fuel segs s ≢ none
unfolding path_loop
path_loop_total fuel segs [] h = λ e. cc
path_loop_total zero segs (c ∷ s) h = absurd (omega arith)
path_loop_total (suc fuel) segs (c ∷ s) h = elim (Result-cases (path_step segs c s)) [
  | inl (e, p) ↦ λ n. cc (rw (path_loop, p) at n)
  | inr ((segs', rest), p) ↦ λ n.
      path_loop_total fuel segs' rest (omega (arith, path_step-shorter segs c s p))
        (rw (path_loop, p) at n)
]

parse_path_total : (body : Str) → parse_path body ≢ none
unfolding parse_path
parse_path_total [] = λ e. cc
parse_path_total (c ∷ s) = path_loop_total (length (c ∷ s)) [] (c ∷ s) (omega arith)

-- A step fails for good, or goes on with no more text than followed the dollar sign.
abbrev Shrinks : ℕ → Option (Result PlaceholderErrorKind Scan) → Type 0
Shrinks n none = ⊥
Shrinks n (some (err e)) = Unit
Shrinks n (some (ok s)) = length s.rest ≤ n

length-drop_le : (n : ℕ) (s : Str) → length (drop n s) ≤ length s
length-drop_le zero s = omega arith
length-drop_le (suc n) [] = omega arith
length-drop_le (suc n) (c ∷ s) = omega (arith, length-drop_le n s)

take_placeholder-Shrinks :
    (parts : List Part) (lit tail : Str) → Shrinks (length tail) (take_placeholder parts lit tail)
unfolding take_placeholder
take_placeholder-Shrinks parts lit tail = elim (Option-cases (find_placeholder_end tail)) [
  | inl e ↦ rw (take_placeholder, e) tt
  | inr (end, e) ↦ elim (Option-cases (parse_path (take end tail))) [
    | inl n ↦ absurd (parse_path_total (take end tail) n)
    | inr (err x, p) ↦ rw (take_placeholder, e, p) tt
    | inr (ok segs, p) ↦ rw (take_placeholder, e, p) (length-drop_le (suc end) tail)
  ]
]

Shrinks-mono :
    (m n : ℕ) (o : Option (Result PlaceholderErrorKind Scan)) → m ≤ n → Shrinks m o → Shrinks n o
Shrinks-mono m n none h s = s
Shrinks-mono m n (some (err e)) h s = s
Shrinks-mono m n (some (ok t)) h s = omega arith

abbrev after_text : After → Str
after_text (escape t) = t
after_text (opening t) = t
after_text (plain t) = t

length-after_dollar : (s : Str) → length (after_text (after_dollar s)) ≤ length s
unfolding after_dollar
length-after_dollar [] = omega arith
length-after_dollar (c ∷ []) = ground arith
length-after_dollar (c ∷ d ∷ s) = ground arith

scan_after-Shrinks :
    (s : Scan) (before : Str) (a : After) → Shrinks (length (after_text a)) (scan_after s before a)
unfolding scan_after
scan_after-Shrinks s before (escape t) = omega arith
scan_after-Shrinks s before (opening t) = take_placeholder-Shrinks s.parts (s.lit ++ before) t
scan_after-Shrinks s before (plain t) = omega arith

Outcome-cases :
    {A : Type 0} (o : Option (Result PlaceholderErrorKind A))
    → (o ≡ none) ⊎ ((e : PlaceholderErrorKind) × (o ≡ some (err e))) ⊎ ((a : A) × (o ≡ some (ok a)))
Outcome-cases none = inl refl
Outcome-cases (some (err e)) = inr (inl (e, refl))
Outcome-cases (some (ok a)) = inr (inr (a, refl))

scan_loop_total : (fuel : ℕ) (s : Scan) → length s.rest < fuel → scan_loop fuel s ≢ none
unfolding scan_loop
scan_loop_total zero s h = absurd (omega arith)
scan_loop_total (suc fuel) s h = elim (Option-cases (split_once dollar s.rest)) [
  | inl e ↦ λ n. cc (rw (scan_loop, e) at n)
  | inr ((before, after), e) ↦
      let shorter = split_once-shorter dollar s.rest e in
      let shrinks =
        Shrinks-mono _ (length after) (scan_after s before (after_dollar after))
          (length-after_dollar after) (scan_after-Shrinks s before (after_dollar after)) in
      elim (Outcome-cases (scan_after s before (after_dollar after))) [
        | inl p ↦ absurd (rw p at shrinks)
        | inr (inl (x, p)) ↦ λ n. cc (rw (scan_loop, e, p) at n)
        | inr (inr (s', p)) ↦
            let fewer : length s'.rest ≤ length after = rw p at shrinks in
            λ n. scan_loop_total fuel s' (omega arith) (rw (scan_loop, e, p) at n)
      ]
]

-- Parsing of a string always ends with a template or an error: the fuel is enough.
pub template_parse_total : (s : Str) → template_parse s ≢ none
unfolding template_parse
template_parse_total s =
    scan_loop_total (suc (length s)) (record { parts = []; lit = []; rest = s }) (omega arith)

-- ===== src/Ids/ObjectId.antt =====
-- What an object ID is, by the pattern that the documentation gives, and by its bytes.
use openporch.Prelude.{
  ℕ, ◌≤◌, Str, Bool, true, false, not, ◌&&◌, ◌||◌, [], ◌∷◌, if◌then◌else◌, ltb, nat_beq, length,
  ◌≡◌, refl, ◌↔◌, inl, inr, ◌⊎◌, arith, Bool-cases, subst, sym, and_left, and_right,
}
use openporch.Ids.Rules.{
  max_id_len, alnum, hyphen, last_of, window_ok, windows_ok, is_valid_object_id,
}

-- The pattern `[a-z0-9]+(?:-[a-z0-9]+)*`: words of letters and digits with single hyphens between.
pub data Matches : Str → Type 0 where
  last : (c : ℕ) → alnum c ≡ true → Matches (c ∷ [])
  more : (c : ℕ) {s : Str} → alnum c ≡ true → Matches s → Matches (c ∷ s)
  word : (c : ℕ) {s : Str} → alnum c ≡ true → Matches s → Matches (c ∷ hyphen ∷ s)

both : {a b : Bool} → a ≡ true → b ≡ true → (a && b) ≡ true
both h k = cc

not-alnum-hyphen : alnum hyphen ≡ false
unfolding alnum
not-alnum-hyphen = refl

-- The second byte of a window.
window_second :
    (x y : ℕ)
    → window_ok x y ≡ true
    → (alnum y ≡ true) ⊎ ((y ≡ hyphen) × (nat_beq x hyphen ≡ false))
unfolding window_ok
window_second x y h = elim (Bool-cases (alnum y)) [ inl a ↦ inl a | inr n ↦ inr (ground arith) ]

window_after_hyphen : (x y : ℕ) → x ≡ hyphen → window_ok x y ≡ true → alnum y ≡ true
unfolding window_ok
window_after_hyphen x y e h = ground arith

window_alnum : (x y : ℕ) → alnum x ≡ true → alnum y ≡ true → window_ok x y ≡ true
unfolding window_ok alnum
window_alnum x y a b = ground arith

window_to_hyphen : (x : ℕ) → alnum x ≡ true → window_ok x hyphen ≡ true
unfolding window_ok alnum
window_to_hyphen x a = ground arith

window_from_hyphen : (y : ℕ) → alnum y ≡ true → window_ok hyphen y ≡ true
unfolding window_ok alnum
window_from_hyphen y a = ground arith

Matches-of_windows :
    (c : ℕ) (s : Str)
    → alnum c ≡ true
    → windows_ok (c ∷ s) ≡ true
    → alnum (last_of c s) ≡ true
    → Matches (c ∷ s)
unfolding windows_ok
Matches-of_windows c [] a w l = last c a
Matches-of_windows c (d ∷ []) a w l = more c a (last d l)
Matches-of_windows c (d ∷ e ∷ s) a w l = elim (window_second c d (and_left _ _ w)) [
  | inl b ↦ more c a (Matches-of_windows d (e ∷ s) b (and_right (window_ok c d) _ w) l)
  | inr (h, n) ↦
      let rest = and_right (window_ok c d) _ w in
      let b = window_after_hyphen d e h (and_left _ _ rest) in
      subst (λ x. Matches (c ∷ x ∷ e ∷ s)) (sym h)
        (word c a (Matches-of_windows e s b (and_right (window_ok d e) _ rest) l))
]

-- A text that matches starts and ends with a letter or digit, and its windows are good.
abbrev Good : Str → Type 0
Good [] = ⊥
Good (c ∷ s) = (alnum c ≡ true) × (alnum (last_of c s) ≡ true) × (windows_ok (c ∷ s) ≡ true)

more-Good : (c : ℕ) (s : Str) → alnum c ≡ true → Good s → Good (c ∷ s)
unfolding windows_ok
more-Good c [] a g = absurd g
more-Good c (d ∷ s) a (b, l, w) = (a, l, both (window_alnum c d a b) w)

word-Good : (c : ℕ) (s : Str) → alnum c ≡ true → Good s → Good (c ∷ hyphen ∷ s)
unfolding windows_ok
word-Good c [] a g = absurd g
word-Good c (d ∷ s) a (b, l, w) =
    (a, l, both (window_to_hyphen c a) (both (window_from_hyphen d b) w))

Matches-Good : {s : Str} → Matches s → Good s
unfolding windows_ok
Matches-Good (last c a) = (a, a, refl)
Matches-Good (more c {s = s} a m) = more-Good c s a (Matches-Good m)
Matches-Good (word c {s = s} a m) = word-Good c s a (Matches-Good m)

-- The guards of `is_valid_object_id`.
guards_pass :
    (p q a l w : Bool)
    → (if p || q then false else if not a || not l then false else w) ≡ true
    → (p ≡ false) × (q ≡ false) × (a ≡ true) × (l ≡ true) × (w ≡ true)
guards_pass p q a l w h = ground arith

guards_pass_of :
    (p q a l w : Bool)
    → p ≡ false
    → q ≡ false
    → a ≡ true
    → l ≡ true
    → w ≡ true
    → (if p || q then false else if not a || not l then false else w) ≡ true
guards_pass_of p q a l w h1 h2 h3 h4 h5 = cc

-- A text is a valid object ID exactly when it matches the documented pattern and is 2 to 50
-- characters long.
pub is_valid_object_id_iff :
    (s : Str)
    → (is_valid_object_id s ≡ true) ↔ (Matches s × (2 ≤ length s) × (length s ≤ max_id_len))
unfolding is_valid_object_id
is_valid_object_id_iff [] = (λ h. cc, λ (m, a, b). absurd (omega arith))
is_valid_object_id_iff (c ∷ s) = (
  λ h.
      let (short, long, a, l, w) =
        guards_pass (ltb (length (c ∷ s)) 2) (ltb max_id_len (length (c ∷ s))) (alnum c)
          (alnum (last_of c s)) (windows_ok (c ∷ s)) h in
      (Matches-of_windows c s a w l, ground arith, ground arith),
  λ (m, short, long).
      let (a, l, w) = Matches-Good m in
      guards_pass_of (ltb (length (c ∷ s)) 2) (ltb max_id_len (length (c ∷ s))) (alnum c)
        (alnum (last_of c s)) (windows_ok (c ∷ s)) (ground arith) (ground arith) a l w,
)

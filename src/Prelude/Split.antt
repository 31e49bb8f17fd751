-- ===== src/Prelude/Split.antt =====
-- Searching and splitting texts: `contains`, `split_once`, `split`, `replace` for one character.
use Prim.Native.Nat.{ℕ}
use mathlib.Core.Path.{◌≡◌, refl, ap}
use mathlib.Core.Bool.{Bool, true, false}
use mathlib.Core.Logic.{inl, inr}
use mathlib.Core.List.{List, [], ◌∷◌, ◌++◌}
use mathlib.Core.Option.{Option, none, some}
use native.Mathlib.Omega.{arith}
use openporch.Prelude.Tests.{nat_beq, nat_beq_iff, if◌then◌else◌, Bool-cases}
use openporch.Prelude.Lists.{all, any, length, and_left, and_right}
use openporch.Prelude.Text.{Str}

-- `str::contains` of a character.
abbrev pub has_char : ℕ → Str → Bool
has_char c s = any (λ x. nat_beq x c) s

abbrev pub before_and : ℕ → Option (Str × Str) → Option (Str × Str)
before_and x none = none
before_and x (some (a, b)) = some (x ∷ a, b)

-- `str::split_once`: at the first such character.
abbrev pub split_once : ℕ → Str → Option (Str × Str)
split_once c [] = none
split_once c (x ∷ s) = if nat_beq x c then some ([], s) else before_and x (split_once c s)

abbrev pub onto_first : ℕ → List Str → List Str
onto_first x [] = []
onto_first x (s ∷ ss) = (x ∷ s) ∷ ss

-- `str::split`: at every such character.
abbrev pub split : ℕ → Str → List Str
split c [] = [] ∷ []
split c (x ∷ s) = if nat_beq x c then [] ∷ split c s else onto_first x (split c s)

-- `str::replace` of one character by another.
abbrev pub replace : ℕ → ℕ → Str → Str
replace c d [] = []
replace c d (x ∷ s) = (if nat_beq x c then d else x) ∷ replace c d s

pub split_once-append :
    (c : ℕ) (a b : Str) → has_char c a ≡ false → split_once c (a ++ c ∷ b) ≡ some (a, b)
split_once-append c [] b h = ground arith
split_once-append c (x ∷ a) b h = ground (arith, split_once-append c a b)

pub split_once-none : (c : ℕ) (s : Str) → has_char c s ≡ false → split_once c s ≡ none
split_once-none c [] h = refl
split_once-none c (x ∷ s) h = ground (arith, split_once-none c s)

before_and-eq_some :
    (x : ℕ) (o : Option (Str × Str)) {a b : Str}
    → before_and x o ≡ some (a, b)
    → (a' : Str) × (o ≡ some (a', b)) × (a ≡ x ∷ a')
before_and-eq_some x none h = absurd (cc)
before_and-eq_some x (some (a', b')) h = (a', ground arith, ground arith)

pub append_of_split_once :
    (c : ℕ) (s : Str) {a b : Str}
    → split_once c s ≡ some (a, b)
    → (s ≡ a ++ c ∷ b) × (has_char c a ≡ false)
append_of_split_once c [] h = absurd (cc)
append_of_split_once c (x ∷ s) {a} {b} h = elim (Bool-cases (nat_beq x c)) [
  | inl e ↦ ground arith
  | inr n ↦
      let (a', e, p) = before_and-eq_some x (split_once c s) (rw n at h) in
      let (q, r) = append_of_split_once c s e in (rw p (ap (λ t. x ∷ t) q), rw p (rw (n, r)))
]

pub split_of_absent : (c : ℕ) (s : Str) → has_char c s ≡ false → split c s ≡ s ∷ []
split_of_absent c [] h = refl
split_of_absent c (x ∷ s) h = ground (arith, split_of_absent c s)

pub length-replace : (c d : ℕ) (s : Str) → length (replace c d s) ≡ length s
length-replace c d [] = refl
length-replace c d (x ∷ s) = omega (arith, length-replace c d s)

-- A text of characters that satisfy a test has none that does not.
pub has_char-eq_false :
    (p : ℕ → Bool) (c : ℕ) (s : Str) → all p s ≡ true → p c ≡ false → has_char c s ≡ false
has_char-eq_false p c [] h n = refl
has_char-eq_false p c (x ∷ s) h n = elim (Bool-cases (nat_beq x c)) [
  | inl e ↦ absurd (let q = ap p ((nat_beq_iff x c).0 e) in cc (and_left (p x) (all p s) h))
  | inr m ↦ ground (arith, has_char-eq_false p c s (and_right (p x) _ h) n)
]

pub all-append_of :
    (p : ℕ → Bool) (a b : Str) → all p a ≡ true → all p b ≡ true → all p (a ++ b) ≡ true
all-append_of p [] b h k = k
all-append_of p (x ∷ a) b h k = ground (arith, all-append_of p a b)

pub has_char-append :
    (c : ℕ) (a b : Str) → has_char c a ≡ false → has_char c b ≡ false → has_char c (a ++ b) ≡ false
has_char-append c [] b h k = k
has_char-append c (x ∷ a) b h k = ground (arith, has_char-append c a b)

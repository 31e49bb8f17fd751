-- ===== src/Canonical/Utf16.antt =====
-- Texts of the same code units are the same (`encode_utf16`, as canonical.rs compares keys).
use openporch.Prelude.{
  ℕ, Str, Bool, true, List, [], ◌∷◌, ◌++◌, ltb, leb, ◌&&◌, ◌||◌, all, and_left, and_right, ◌≡◌,
  refl, arith,
}
use openporch.Canonical.Write.{code_units, encode_utf16}

-- The values of `char`: no surrogates, and at most 0x10FFFF.
abbrev pub is_char : ℕ → Bool
is_char c = ltb c 55296 || leb 57344 c && ltb c 1114112

abbrev pub IsText : Str → Type 0
IsText s = all is_char s ≡ true

code_units-injective :
    (c d : ℕ) (s t : List ℕ)
    → is_char c ≡ true
    → is_char d ≡ true
    → code_units c ++ s ≡ code_units d ++ t
    → (c ≡ d) × (s ≡ t)
code_units-injective c d s t h k e = (ground arith, ground arith)

pub encode_utf16-injective :
    (s t : Str) → IsText s → IsText t → encode_utf16 s ≡ encode_utf16 t → s ≡ t
unfolding encode_utf16
encode_utf16-injective [] [] h k e = refl
encode_utf16-injective [] (d ∷ t) h k e = ground arith
encode_utf16-injective (c ∷ s) [] h k e = ground arith
encode_utf16-injective (c ∷ s) (d ∷ t) h k e =
    let (p, q) =
      code_units-injective c d (encode_utf16 s) (encode_utf16 t) (and_left (is_char c) _ h)
        (and_left (is_char d) _ k) e in
    cc (p, encode_utf16-injective s t (and_right (is_char c) _ h) (and_right (is_char d) _ k) q)

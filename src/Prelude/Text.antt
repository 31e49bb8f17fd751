-- ===== src/Prelude/Text.antt =====
-- Rust strings as the lists of their bytes: every rule that the program checks is on bytes.
use Prim.Native.Nat.{ℕ, zero, suc, ◌+◌, ◌/◌, ◌%◌}
use Prim.Native.Char.{code}
use Prim.Native.String.{String}
use mathlib.Core.List.{List, [], ◌∷◌, ◌++◌}

abbrev pub Str : Type 0
Str = List ℕ

-- The bytes of an ASCII literal.
abbrev pub bytes : String → Str
bytes String.[] = []
bytes (String.◌∷◌ c s) = code c ∷ bytes s

-- `Display` of an unsigned integer. Each step divides by ten, so the number itself is fuel enough.
unfoldable pub decimal_of : ℕ → ℕ → Str → Str
decimal_of zero n acc = acc
decimal_of (suc fuel) zero acc = acc
decimal_of (suc fuel) (suc n) acc = decimal_of fuel (suc n / 10) ((48 + suc n % 10) ∷ acc)

unfoldable pub decimal : ℕ → Str
unfolding decimal_of
decimal zero = bytes "0"
decimal (suc n) = decimal_of (suc n) (suc n) []

-- `[..].join(sep)`
abbrev pub join : Str → List Str → Str
join sep [] = []
join sep (s ∷ []) = s
join sep (s ∷ t ∷ ss) = s ++ sep ++ join sep (t ∷ ss)

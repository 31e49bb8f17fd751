-- ===== src/Store/World.antt =====
-- What an operation takes from outside: the clock and the random numbers.
use openporch.Prelude.{Str, ℕ}

-- The results of the calls of `now_ms` and `random_hex` that one operation makes, by their number.
pub record World : Type 0 where
  pub clock : ℕ → ℕ
  pub hex : ℕ → Str

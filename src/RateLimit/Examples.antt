-- ===== src/RateLimit/Examples.antt =====
-- The limiter with whole numbers in place of `f64`: a token stands for sixty.
use openporch.Prelude.{
  ℕ, ◌+◌, ◌-◌, ◌*◌, ◌/◌, ◌≤◌, Str, bytes, [], ◌∷◌, Option, ltb, leb, length, if◌then◌else◌, ◌≡◌,
  refl, arith,
}
use openporch.Prelude.Order.{str_ord}
use openporch.BTreeMap.{get}
use openporch.RateLimit.Limiter.{
  max_keys, Floats, Buckets, no_buckets, allowed, rate_limited, check_at, check_all,
}
use openporch.RateLimit.Bounds.{check_all_bounded}
use openporch.RateLimit.Isolation.{check_at-other}

abbrev whole : Floats ℕ
whole = record {
  one = 60;
  sixty = 1;
  from_nat = λ n. n * 60;
  as_secs_f64 = λ n. n / 1000000000;
  add = λ a b. a + b;
  sub = λ a b. a - b;
  mul = λ a b. a * b / 60;
  div = λ a b. a / b;
  min = λ a b. if ltb a b then a else b;
  lt = ltb;
  le = leb;
  ceil_u64 = λ n. n;
}

abbrev alice : Str
alice = bytes "10.0.0.1"

abbrev bob : Str
bob = bytes "10.0.0.2"

abbrev two_allowed : Buckets ℕ
two_allowed = record {
  map =
      (alice, record { tokens = 0; updated = 5 }) ∷ (bob, record { tokens = 60; updated = 5 }) ∷ [];
  swept = Option.none;
}

-- Two requests a minute: the third of the same moment is refused.
after_two : check_all whole 2 ((alice, 5) ∷ (bob, 5) ∷ (alice, 5) ∷ []) no_buckets ≡ two_allowed
unfolding check_all
after_two = refl

third_refused : (check_at whole 2 alice 5 two_allowed).1 ≡ rate_limited 1
unfolding check_at
third_refused = refl

no_limit : check_at whole 0 alice 5 two_allowed ≡ (two_allowed, allowed)
unfolding check_at
no_limit = refl

check_all_bounded_example :
    length (check_all whole 2 ((alice, 5) ∷ (bob, 5) ∷ (alice, 5) ∷ []) no_buckets).map
    ≤ max_keys + 1
check_all_bounded_example = check_all_bounded whole 2 ((alice, 5) ∷ (bob, 5) ∷ (alice, 5) ∷ [])

check_at-other_example :
    get bob (check_at whole 2 alice 5 two_allowed).0.map ≡ get bob two_allowed.map
check_at-other_example = check_at-other whole 2 alice bob 5 two_allowed (omega arith) refl

-- ===== src/RateLimit/Limiter.antt =====
-- The token buckets of crates/server/src/rate_limit.rs. An `Instant` is a number of nanoseconds, and
-- the numbers of type `f64` with their operations are an argument.
use openporch.Prelude.{
  ℕ, ◌-◌, ◌/◌, Str, bytes, Bool, true, not, ◌&&◌, List, [], ◌∷◌, Option, none, some, keep,
  if◌then◌else◌, leb, ltb, nat_beq, length,
}
use openporch.Prelude.Order.{str_ord}
use openporch.BTreeMap.{BTreeMap, get, contains_key, insert}

abbrev pub max_keys : ℕ
max_keys = 10000

abbrev pub overflow : Str
overflow = bytes "overflow"

-- What the limiter computes on `f64`.
pub record Floats (F : Type 0) : Type 0 where
  pub one : F
  pub sixty : F
  -- `f64::from` of a `u32`, and `Duration::as_secs_f64`.
  pub from_nat : ℕ → F
  pub as_secs_f64 : ℕ → F
  pub add : F → F → F
  pub sub : F → F → F
  pub mul : F → F → F
  pub div : F → F → F
  pub min : F → F → F
  pub lt : F → F → Bool
  pub le : F → F → Bool
  -- `.ceil() as u64`
  pub ceil_u64 : F → ℕ

pub record Bucket (F : Type 0) : Type 0 where
  pub tokens : F
  pub updated : ℕ

pub record Buckets (F : Type 0) : Type 0 where
  pub map : BTreeMap Str (Bucket F)
  pub swept : Option ℕ

-- `Buckets::default`
abbrev pub no_buckets : {F : Type 0} → Buckets F
no_buckets = record { map = []; swept = none }

pub data Answer : Type 0 where
  allowed : Answer
  rate_limited : (seconds : ℕ) → Answer

-- `saturating_duration_since`, and `Duration::as_secs`.
abbrev since : ℕ → ℕ → ℕ
since earlier now = now - earlier

-- `.max(1)`
abbrev at_least_1 : ℕ → ℕ
at_least_1 n = if ltb n 1 then 1 else n

abbrev as_secs : ℕ → ℕ
as_secs nanos = nanos / 1000000000

module _ {F : Type 0} (f : Floats F) where
  unfoldable pub refill : Bucket F → ℕ → F → F → F
  refill b now rate capacity =
      f.min (f.add b.tokens (f.mul (f.as_secs_f64 (since b.updated now)) rate)) capacity

  unfoldable pub due : Option ℕ → ℕ → Bool
  due none now = true
  due (some t) now = leb 1 (as_secs (since t now))

  -- `retain` of the buckets that are not full.
  unfoldable pub sweep : ℕ → F → F → Buckets F → Buckets F
  unfolding refill
  sweep now rate capacity b = record {
    map = keep (λ e. f.lt (refill e.1 now rate capacity) capacity) b.map;
    swept = some now;
  }

  -- The state after a sweep, if one is due.
  unfoldable pub swept_if_due : ℕ → F → F → Buckets F → Buckets F
  unfolding sweep due
  swept_if_due now rate capacity b = if due b.swept now then sweep now rate capacity b else b

  -- The key that is charged, with the state to charge it in.
  unfoldable pub choose_key : Str → ℕ → F → F → Buckets F → Str × Buckets F
  unfolding swept_if_due contains_key
  choose_key key now rate capacity b =
      if leb max_keys (length b.map) && not (contains_key key b.map)
      then (let b' = swept_if_due now rate capacity b in
          (if leb max_keys (length b'.map) then overflow else key, b'))
      else (key, b)

  -- `entry(..).or_insert(..)`
  unfoldable pub bucket_of : Str → ℕ → F → Buckets F → Bucket F
  unfolding get
  bucket_of key now capacity b = elim (get key b.map) [
    | none ↦ record { tokens = capacity; updated = now }
    | some bucket ↦ bucket
  ]

  unfoldable pub charge : Str → ℕ → F → F → Buckets F → Buckets F × Answer
  unfolding bucket_of refill insert
  charge key now rate capacity b =
      let tokens = refill (bucket_of key now capacity b) now rate capacity in
      if f.le f.one tokens
      then (
        record b { map = insert key (record { tokens = f.sub tokens f.one; updated = now }) b.map },
        allowed,
      )
      else (
        record b { map = insert key (record { tokens = tokens; updated = now }) b.map },
        rate_limited (at_least_1 (f.ceil_u64 (f.div (f.sub f.one tokens) rate))),
      )

  unfoldable pub check_at : ℕ → Str → ℕ → Buckets F → Buckets F × Answer
  unfolding choose_key charge
  check_at per_minute key now b =
      if nat_beq per_minute 0
      then (b, allowed)
      else (let capacity = f.from_nat per_minute in
          let rate = f.div capacity f.sixty in
          let (key', b') = choose_key key now rate capacity b in charge key' now rate capacity b')

  -- The requests of a client, or of several, one after the other.
  unfoldable pub check_all : ℕ → List (Str × ℕ) → Buckets F → Buckets F
  unfolding check_at
  check_all per_minute [] b = b
  check_all per_minute ((key, now) ∷ rs) b =
      check_all per_minute rs (check_at per_minute key now b).0

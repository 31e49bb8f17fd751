-- ===== src/RateLimit/Isolation.antt =====
-- While there is room, a request charges the bucket of its own key only.
use openporch.Prelude.{
  ℕ, ◌<◌, Str, false, leb, nat_beq, length, ◌≡◌, refl, inl, inr, arith, Bool-cases,
}
use openporch.Prelude.Order.{str_ord, ◌==◌}
use openporch.BTreeMap.{get}
use openporch.BTreeMap.Laws.{get-insert}
use openporch.RateLimit.Limiter.{
  max_keys, Floats, Buckets, choose_key, charge, check_at, refill, bucket_of,
}

module _ {F : Type 0} (f : Floats F) where
  choose_key-room :
      (key : Str) (now : ℕ) (rate capacity : F) (b : Buckets F)
      → length b.map < max_keys
      → choose_key f key now rate capacity b ≡ (key, b)
  unfolding choose_key
  choose_key-room key now rate capacity b h =
      let full : leb max_keys (length b.map) ≡ false = ground arith in rw full

  charge-other :
      (key other : Str) (now : ℕ) (rate capacity : F) (b : Buckets F)
      → (other == key) ≡ false
      → get other (charge f key now rate capacity b).0.map ≡ get other b.map
  unfolding charge
  charge-other key other now rate capacity b n =
      let tokens = refill f (bucket_of f key now capacity b) now rate capacity in
      elim (Bool-cases (f.le f.one tokens)) [
        | inl e ↦ rw (
          charge,
          e,
          get-insert key other (record { tokens = f.sub tokens f.one; updated = now }) b.map,
          n,
        )
        | inr e ↦
            rw
              (charge, e, get-insert key other (record { tokens = tokens; updated = now }) b.map, n)
      ]

  -- While fewer than `max_keys` keys have buckets, a request for one key leaves the bucket of every
  -- other key as it is.
  pub check_at-other :
      (per_minute : ℕ) (key other : Str) (now : ℕ) (b : Buckets F)
      → length b.map < max_keys
      → (other == key) ≡ false
      → get other (check_at f per_minute key now b).0.map ≡ get other b.map
  unfolding check_at
  check_at-other per_minute key other now b h n = elim (Bool-cases (nat_beq per_minute 0)) [
    | inl z ↦ rw (check_at, z) refl
    | inr z ↦
        let capacity = f.from_nat per_minute in
        let rate = f.div capacity f.sixty in
        rw (check_at, z, choose_key-room key now rate capacity b h)
          (charge-other key other now rate capacity b n)
  ]

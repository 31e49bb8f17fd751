-- ===== src/RateLimit/Bounds.antt =====
-- The limiter's memory is bounded, and its answers.
use openporch.Prelude.{
  length-keep, ℕ, suc, ◌+◌, ◌≤◌, ◌<◌, Str, Bool, true, false, not, ◌&&◌, List, [], ◌∷◌,
  if◌then◌else◌, leb, nat_beq, length, ◌≡◌, ap, inl, inr, arith, Bool-cases,
}
use openporch.Prelude.Order.{str_ord, ◌==◌, eq_iff, eq_refl}
use openporch.BTreeMap.{contains_key, insert}
use openporch.BTreeMap.Sorted.{IsSorted, insert-IsSorted, keep-IsSorted}
use openporch.BTreeMap.Length.{length-insert, contains_key-insert, keep_all}
use openporch.RateLimit.Limiter.{
  max_keys, overflow, Floats, Bucket, Buckets, no_buckets, sweep, swept_if_due, choose_key, charge,
  check_at, check_all, refill, due, bucket_of,
}

-- There is at most one bucket more than `max_keys`, and then one is the overflow bucket.
pub record IsBounded {F : Type 0} (b : Buckets F) : Type 0 where
  pub sorted : IsSorted b.map
  pub few : length b.map ≤ max_keys + 1
  pub spare : length b.map ≡ max_keys + 1 → contains_key overflow b.map ≡ true

module _ {F : Type 0} (f : Floats F) where
  -- A new entry for a key keeps the bound where the key is there, is the overflow key or finds room.
  abbrev HasRoom : Str → Buckets F → Type 0
  HasRoom key b =
      contains_key key b.map ≡ false → (key == overflow) ≡ false → length b.map < max_keys

  size :
      (key : Str) (bucket : Bucket F) (b : Buckets F)
      → IsBounded b
      → length (insert key bucket b.map)
        ≡ (if contains_key key b.map then length b.map else suc (length b.map))
  size key bucket b v = length-insert key bucket b.map v.sorted

  overflow_key :
      (key : Str) (b : Buckets F)
      → (key == overflow) ≡ true
      → contains_key key b.map ≡ contains_key overflow b.map
  overflow_key key b e = ap (λ k. contains_key k b.map) ((eq_iff key overflow).0 e)

  insert-IsBounded :
      (key : Str) (bucket : Bucket F) (b : Buckets F)
      → IsBounded b
      → HasRoom key b
      → IsBounded (record b { map = insert key bucket b.map })
  insert-IsBounded key bucket b v h = record {
    sorted = insert-IsSorted key bucket b.map v.sorted;
    few = ground (arith, size key bucket b v, h, v.few, v.spare, overflow_key key b);
    spare = λ e. ground (
      arith,
      size key bucket b v,
      h,
      v.few,
      v.spare,
      contains_key-insert key overflow bucket b.map,
      eq_iff key overflow,
      eq_refl overflow,
    );
  }

  swept-IsBounded :
      (now : ℕ) (rate capacity : F) (b : Buckets F)
      → IsBounded b
      → IsBounded (sweep f now rate capacity b)
  unfolding sweep
  swept-IsBounded now rate capacity b v =
      let full : Str × Bucket F → Bool = λ e. f.lt (refill f e.1 now rate capacity) capacity in
      record {
        sorted = keep-IsSorted full b.map v.sorted;
        few = omega (arith, v.few, length-keep full b.map);
        spare = λ e.
            let same = keep_all full b.map (omega (arith, e, v.few, length-keep full b.map)) in
            rw same (v.spare (omega (arith, e, ap length same)));
      }

  sweep-IsBounded :
      (now : ℕ) (rate capacity : F) (b : Buckets F)
      → IsBounded b
      → IsBounded (swept_if_due f now rate capacity b)
  unfolding swept_if_due sweep
  sweep-IsBounded now rate capacity b v = elim (Bool-cases (due f b.swept now)) [
    | inl d ↦ rw (swept_if_due, d) (swept-IsBounded now rate capacity b v)
    | inr d ↦ rw (swept_if_due, d) v
  ]

  choose_key-IsBounded :
      (key : Str) (now : ℕ) (rate capacity : F) (b : Buckets F)
      → IsBounded b
      → IsBounded (choose_key f key now rate capacity b).1
        × HasRoom (choose_key f key now rate capacity b).0 (choose_key f key now rate capacity b).1
  unfolding choose_key
  choose_key-IsBounded key now rate capacity b v =
      elim (Bool-cases (leb max_keys (length b.map) && not (contains_key key b.map))) [
        | inl full ↦
            let b' = swept_if_due f now rate capacity b in
            let v' = sweep-IsBounded now rate capacity b v in
            elim (Bool-cases (leb max_keys (length b'.map))) [
              | inl still ↦ rw (choose_key, full, still) (v', λ m n. absurd (cc))
              | inr room ↦ rw (choose_key, full, room) (v', λ m n. ground arith)
            ]
        | inr free ↦ rw (choose_key, free) (v, λ m n. ground arith)
      ]

  charge-IsBounded :
      (key : Str) (now : ℕ) (rate capacity : F) (b : Buckets F)
      → IsBounded b
      → HasRoom key b
      → IsBounded (charge f key now rate capacity b).0
  unfolding charge
  charge-IsBounded key now rate capacity b v h =
      let tokens = refill f (bucket_of f key now capacity b) now rate capacity in
      elim (Bool-cases (f.le f.one tokens)) [
        | inl e ↦
            rw (charge, e)
              (insert-IsBounded key (record { tokens = f.sub tokens f.one; updated = now }) b v h)
        | inr e ↦
            rw (charge, e) (insert-IsBounded key (record { tokens = tokens; updated = now }) b v h)
      ]

  check_at-IsBounded :
      (per_minute : ℕ) (key : Str) (now : ℕ) (b : Buckets F)
      → IsBounded b
      → IsBounded (check_at f per_minute key now b).0
  unfolding check_at
  check_at-IsBounded per_minute key now b v = elim (Bool-cases (nat_beq per_minute 0)) [
    | inl z ↦ rw (check_at, z) v
    | inr z ↦
        let capacity = f.from_nat per_minute in
        let rate = f.div capacity f.sixty in
        let (v', room) = choose_key-IsBounded key now rate capacity b v in
        rw (check_at, z) (charge-IsBounded _ now rate capacity _ v' room)
  ]

  check_all-IsBounded :
      (per_minute : ℕ) (requests : List (Str × ℕ)) (b : Buckets F)
      → IsBounded b
      → IsBounded (check_all f per_minute requests b)
  unfolding check_all
  check_all-IsBounded per_minute [] b v = v
  check_all-IsBounded per_minute ((key, now) ∷ rs) b v =
      check_all-IsBounded per_minute rs (check_at f per_minute key now b).0
        (check_at-IsBounded per_minute key now b v)

  no_buckets-IsBounded : IsBounded (no_buckets {F = F})
  no_buckets-IsBounded = record {
    sorted = tt;
    few = omega arith;
    spare = λ e. absurd (omega arith);
  }

  -- Whatever requests come, from however many addresses and at whatever times, a new limiter never
  -- holds more than `max_keys` buckets and one for all the keys that find no room.
  pub check_all_bounded :
      (per_minute : ℕ) (requests : List (Str × ℕ))
      → length (check_all f per_minute requests no_buckets).map ≤ max_keys + 1
  check_all_bounded per_minute requests =
      (check_all-IsBounded per_minute requests no_buckets no_buckets-IsBounded).few

-- ===== src/Sets/Loops.antt =====
-- Each loop of `apply_delta` does to a workload what its abstract step does, and succeeds where
-- that does for every workload.
use openporch.Prelude.{
  true, false, List, [], ◌∷◌, Option, none, some, ◌≡◌, refl, ap, subst, arith, Memᴰ, Option-cases,
  Bool-cases, inl, inr,
}
use openporch.Prelude.Order.{str_ord, ◌==◌, eq_iff, eq_refl}
use openporch.Prelude.Result.{Result, ok, ◌>>=◌, >>=-ok, ok_inj}
use openporch.Prelude.Distinct.{Distinct}
use openporch.BTreeMap.{BTreeMap, get, contains_key, insert, remove, set_contains}
use openporch.BTreeMap.Laws.{contains_key-get, get-insert, get-remove}
use openporch.BTreeMap.Sorted.{IsSorted, Above, get-Above, insert-IsSorted, remove-IsSorted}
use openporch.BTreeMap.Members.{set_contains_iff}
use openporch.Ids.{WorkloadId}
use openporch.Sets.Types.{Module, DeltaError, Serde}
use openporch.Sets.Apply.{Modules, remove_workloads, add_workloads, update_workloads, patch_module}
use openporch.Sets.PerWorkload.{remove_at, add_at, update_at}

-- A step succeeds on every workload of `m`.
abbrev pub Succeeds {ℓ} :
    {V : Type ℓ}
    → (WorkloadId → Option (Module V) → Result DeltaError (Option (Module V)))
    → Modules V
    → Type ℓ
Succeeds {V = V} step m = (k : WorkloadId) → (o : Option (Module V)) × (step k (get k m) ≡ ok o)

absent :
    (id k : WorkloadId) (ids : List WorkloadId)
    → (¬ Memᴰ id ids)
    → (k == id) ≡ true
    → set_contains k ids ≡ false
absent id k ids n p = elim (Bool-cases (set_contains k ids)) [
  | inl c ↦ absurd (n (subst (λ j. Memᴰ j ids) ((eq_iff k id).0 p) ((set_contains_iff k ids).0 c)))
  | inr c ↦ c
]

module _ {ℓ} {V : Type ℓ} where
  remove_workloads-cons :
      (id : WorkloadId) (ids : List WorkloadId) (m : Modules V) {m' : Modules V}
      → remove_workloads (id ∷ ids) m ≡ ok m'
      → (contains_key id m ≡ true) × (remove_workloads ids (remove id m) ≡ ok m')
  unfolding remove_workloads
  remove_workloads-cons id ids m h = elim (Bool-cases (contains_key id m)) [
    | inl c ↦ (c, rw c at h)
    | inr c ↦ absurd (let failed = rw c at h in cc)
  ]

  pub remove_workloads-ok :
      (ids : List WorkloadId) (m : Modules V) {m' : Modules V}
      → remove_workloads ids m ≡ ok m'
      → (k : WorkloadId) → remove_at ids k (get k m) ≡ ok (get k m')
  unfolding remove_workloads
  remove_workloads-ok [] m h k = ap (λ n. ok (get k n)) (ok_inj h)
  remove_workloads-ok (id ∷ ids) m {m'} h k =
      let (c, rest) = remove_workloads-cons id ids m h in
      ground (
        arith,
        contains_key-get id m,
        get-remove id k m,
        eq_iff k id,
        remove_workloads-ok ids (remove id m) rest k,
      )

  pub remove_workloads-IsSorted :
      (ids : List WorkloadId) (m : Modules V) {m' : Modules V}
      → remove_workloads ids m ≡ ok m'
      → IsSorted m
      → IsSorted m'
  unfolding remove_workloads
  remove_workloads-IsSorted [] m h s = subst IsSorted (ok_inj h) s
  remove_workloads-IsSorted (id ∷ ids) m h s =
      remove_workloads-IsSorted ids (remove id m) (remove_workloads-cons id ids m h).1
        (remove-IsSorted id m s)

  remove_at-remove :
      (id k : WorkloadId) (ids : List WorkloadId) (m : Modules V)
      → (¬ Memᴰ id ids)
      → (o : Option (Module V)) × (remove_at (id ∷ ids) k (get k m) ≡ ok o)
      → (o : Option (Module V)) × (remove_at ids k (get k (remove id m)) ≡ ok o)
  remove_at-remove id k ids m n (o, e) = elim (Bool-cases (k == id)) [
    | inl p ↦ (none, rw (get-remove id k m, p, absent id k ids n p))
    | inr p ↦ (o, rw (get-remove id k m, p) (rw p at e))
  ]

  contains_of_remove_at :
      (id : WorkloadId) (ids : List WorkloadId) (m : Modules V)
      → (o : Option (Module V)) × (remove_at (id ∷ ids) id (get id m) ≡ ok o)
      → contains_key id m ≡ true
  contains_of_remove_at id ids m (o, e) = ground (arith, contains_key-get id m, eq_refl id)

  pub remove_workloads-total :
      (ids : List WorkloadId) (m : Modules V)
      → Distinct ids
      → Succeeds (remove_at ids) m
      → (m' : Modules V) × (remove_workloads ids m ≡ ok m')
  unfolding remove_workloads
  remove_workloads-total [] m d h = (m, refl)
  remove_workloads-total (id ∷ ids) m d h =
      let (n, e) =
        remove_workloads-total ids (remove id m) d.1 (λ k. remove_at-remove id k ids m d.0 (h k)) in
      (n, rw (contains_of_remove_at id ids m (h id)) e)

  -- The additions.
  add_workloads-cons :
      (id : WorkloadId) (new : Module V) (adds m : Modules V) {m' : Modules V}
      → add_workloads ((id, new) ∷ adds) m ≡ ok m'
      → (contains_key id m ≡ false) × (add_workloads adds (insert id new m) ≡ ok m')
  unfolding add_workloads
  add_workloads-cons id new adds m h = elim (Bool-cases (contains_key id m)) [
    | inl c ↦ absurd (let failed = rw c at h in cc)
    | inr c ↦ (c, rw c at h)
  ]

  pub add_workloads-ok :
      (adds m : Modules V) {m' : Modules V}
      → IsSorted adds
      → add_workloads adds m ≡ ok m'
      → (k : WorkloadId) → add_at adds k (get k m) ≡ ok (get k m')
  unfolding add_workloads get
  add_workloads-ok [] m s h k = ap (λ n. ok (get k n)) (ok_inj h)
  add_workloads-ok ((id, new) ∷ adds) m {m'} s h k =
      let (c, rest) = add_workloads-cons id new adds m h in
      ground (
        arith,
        contains_key-get id m,
        get-insert id k new m,
        eq_iff k id,
        get-Above id adds s.0,
        add_workloads-ok adds (insert id new m) s.1 rest k,
      )

  pub add_workloads-IsSorted :
      (adds m : Modules V) {m' : Modules V}
      → add_workloads adds m ≡ ok m'
      → IsSorted m
      → IsSorted m'
  unfolding add_workloads
  add_workloads-IsSorted [] m h s = subst IsSorted (ok_inj h) s
  add_workloads-IsSorted ((id, new) ∷ adds) m h s =
      add_workloads-IsSorted adds (insert id new m) (add_workloads-cons id new adds m h).1
        (insert-IsSorted id new m s)

  add_at-insert :
      (id k : WorkloadId) (new : Module V) (adds m : Modules V)
      → Above id adds
      → (o : Option (Module V)) × (add_at ((id, new) ∷ adds) k (get k m) ≡ ok o)
      → (o : Option (Module V)) × (add_at adds k (get k (insert id new m)) ≡ ok o)
  unfolding get
  add_at-insert id k new adds m a (o, e) = elim (Bool-cases (k == id)) [
    | inl p ↦ (some new, ground (arith, get-insert id k new m, eq_iff k id, get-Above id adds a))
    | inr p ↦ (o, ground (arith, get-insert id k new m))
  ]

  missing_of_add_at :
      (id : WorkloadId) (new : Module V) (adds m : Modules V)
      → (o : Option (Module V)) × (add_at ((id, new) ∷ adds) id (get id m) ≡ ok o)
      → contains_key id m ≡ false
  unfolding get
  missing_of_add_at id new adds m (o, e) = ground (arith, contains_key-get id m, eq_refl id)

  pub add_workloads-total :
      (adds m : Modules V)
      → IsSorted adds
      → Succeeds (add_at adds) m
      → (m' : Modules V) × (add_workloads adds m ≡ ok m')
  unfolding add_workloads
  add_workloads-total [] m s h = (m, refl)
  add_workloads-total ((id, new) ∷ adds) m s h =
      let (n, e) =
        add_workloads-total adds (insert id new m) s.1
          (λ k. add_at-insert id k new adds m s.0 (h k)) in
      (n, rw (missing_of_add_at id new adds m (h id)) e)

-- The updates.
module _ {ℓ} {V P : Type ℓ} (serde : Serde V P) where
  abbrev Updates : Type ℓ
  Updates = BTreeMap WorkloadId (List P)

  update_workloads-cons :
      (id : WorkloadId) (ops : List P) (updates : Updates) (m : Modules V) {m' : Modules V}
      → update_workloads serde ((id, ops) ∷ updates) m ≡ ok m'
      → (old : Module V) × (new : Module V) × (get id m ≡ some old)
        × (patch_module serde id ops old ≡ ok new)
        × (update_workloads serde updates (insert id new m) ≡ ok m')
  unfolding update_workloads
  update_workloads-cons id ops updates m h = elim (Option-cases (get id m)) [
    | inl e ↦ absurd (let failed = rw (update_workloads, e) at h in cc)
    | inr (old, e) ↦
        let (new, p, rest) =
          >>=-ok (patch_module serde id ops old) (rw (update_workloads, e) at h) in
        (old, new, e, p, rest)
  ]

  pub update_workloads-ok :
      (updates : Updates) (m : Modules V) {m' : Modules V}
      → IsSorted updates
      → update_workloads serde updates m ≡ ok m'
      → (k : WorkloadId) → update_at serde updates k (get k m) ≡ ok (get k m')
  unfolding update_workloads get
  update_workloads-ok [] m s h k = ap (λ n. ok (get k n)) (ok_inj h)
  update_workloads-ok ((id, ops) ∷ updates) m {m'} s h k =
      let (old, new, e, p, rest) = update_workloads-cons id ops updates m h in
      ground (
        arith,
        get-insert id k new m,
        eq_iff k id,
        get-Above id updates s.0,
        update_workloads-ok updates (insert id new m) s.1 rest k,
      )

  pub update_workloads-IsSorted :
      (updates : Updates) (m : Modules V) {m' : Modules V}
      → update_workloads serde updates m ≡ ok m'
      → IsSorted m
      → IsSorted m'
  unfolding update_workloads
  update_workloads-IsSorted [] m h s = subst IsSorted (ok_inj h) s
  update_workloads-IsSorted ((id, ops) ∷ updates) m h s =
      let (old, new, e, p, rest) = update_workloads-cons id ops updates m h in
      update_workloads-IsSorted updates (insert id new m) rest (insert-IsSorted id new m s)

  update_at-insert :
      (id k : WorkloadId) (ops : List P) (new : Module V) (updates : Updates) (m : Modules V)
      → Above id updates
      → (o : Option (Module V)) × (update_at serde ((id, ops) ∷ updates) k (get k m) ≡ ok o)
      → (o : Option (Module V)) × (update_at serde updates k (get k (insert id new m)) ≡ ok o)
  unfolding get
  update_at-insert id k ops new updates m a (o, e) = elim (Bool-cases (k == id)) [
    | inl p ↦ (some new, ground (arith, get-insert id k new m, eq_iff k id, get-Above id updates a))
    | inr p ↦ (o, ground (arith, get-insert id k new m))
  ]

  updated_of_update_at :
      (id : WorkloadId) (ops : List P) (updates : Updates) (m : Modules V)
      → (o : Option (Module V)) × (update_at serde ((id, ops) ∷ updates) id (get id m) ≡ ok o)
      → (old : Module V) × (new : Module V) × (get id m ≡ some old)
        × (patch_module serde id ops old ≡ ok new)
  unfolding get
  updated_of_update_at id ops updates m (o, e) = elim (Option-cases (get id m)) [
    | inl n ↦ absurd (ground (arith, eq_refl id))
    | inr (old, s) ↦
        let patched : (patch_module serde id ops old >>= (λ new. ok (some new))) ≡ ok o =
          ground (arith, eq_refl id) in
        let (new, p, q) = >>=-ok (patch_module serde id ops old) patched in (old, new, s, p)
  ]

  pub update_workloads-total :
      (updates : Updates) (m : Modules V)
      → IsSorted updates
      → Succeeds (update_at serde updates) m
      → (m' : Modules V) × (update_workloads serde updates m ≡ ok m')
  unfolding update_workloads
  update_workloads-total [] m s h = (m, refl)
  update_workloads-total ((id, ops) ∷ updates) m s h =
      let (old, new, e, p) = updated_of_update_at id ops updates m (h id) in
      let (n, q) =
        update_workloads-total updates (insert id new m) s.1
          (λ k. update_at-insert id k ops new updates m s.0 (h k)) in
      (n, rw (update_workloads, e, p) q)

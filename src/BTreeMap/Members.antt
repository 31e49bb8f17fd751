-- ===== src/BTreeMap/Members.antt =====
-- Which entries a map has, by lookup and by membership.
use Prim.Native.Nat.{Ordering}
use openporch.Prelude.{
  Bool, true, ◌&&◌, not, some, List, [], ◌∷◌, ◌≡◌, inl, inr, ◌↔◌, refl, sym, ap, ◌∙◌, subst, arith,
  Memᴰ, Bool-cases, keep, Memᴰ-keep, Memᴰ-keep_of,
}
use openporch.Prelude.Order.{Ord, ◌==◌, eq_iff}
use openporch.Prelude.Distinct.{Distinct, Memᴰ-cons_cases}
use openporch.BTreeMap.Defs.{BTreeMap, keys, get, contains_key, remove, set_remove, set_contains}
use openporch.BTreeMap.Sorted.{IsSorted, Above, get-cons_self}

module _ {ℓ κ} {K : Type ℓ} {V : Type κ} ⦃o : Ord K⦄ where
  pub get_of_mem_keys : (k : K) (m : BTreeMap K V) → Memᴰ k (keys m) → (v : V) × (get k m ≡ some v)
  unfolding get
  get_of_mem_keys k [] h = elim h [ ]
  get_of_mem_keys k ((j, v) ∷ m) h = elim (Bool-cases (k == j)) [
    | inl e ↦ (v, rw e)
    | inr e ↦ elim (Memᴰ-cons_cases h) [
      | inl q ↦ (v, rw ((eq_iff k j).1 q))
      | inr t ↦ let (w, p) = get_of_mem_keys k m t in (w, rw e p)
    ]
  ]

  pub mem_of_get : (k : K) (v : V) (m : BTreeMap K V) → get k m ≡ some v → Memᴰ (k, v) m
  unfolding get
  mem_of_get k v [] h = absurd (cc)
  mem_of_get k v ((j, w) ∷ m) h = elim (Bool-cases (k == j)) [
    | inl e ↦
        let p : some w ≡ some v = rw (e) at h in
        Memᴰ.head (λ i. ((eq_iff k j).0 e i, (let q : v ≡ w = cc in q) i))
    | inr e ↦ let p : get k m ≡ some v = rw e at h in Memᴰ.tail (mem_of_get k v m p)
  ]

  pub mem_keys : {k : K} {v : V} {m : BTreeMap K V} → Memᴰ (k, v) m → Memᴰ k (keys m)
  mem_keys (Memᴰ.head e) = Memᴰ.head (ap (λ x. x.0) e)
  mem_keys (Memᴰ.tail h) = Memᴰ.tail (mem_keys h)

  pub mem_of_mem_keys : (k : K) (m : BTreeMap K V) → Memᴰ k (keys m) → (v : V) × Memᴰ (k, v) m
  mem_of_mem_keys k m h = let (v, e) = get_of_mem_keys k m h in (v, mem_of_get k v m e)

  pub Above-mem :
      (k j : K) (v : V) (m : BTreeMap K V) → Above k m → Memᴰ (j, v) m → o.cmp k j ≡ Ordering.lt
  Above-mem k j v [] a h = elim h [ ]
  Above-mem k j v ((i, w) ∷ m) a (Memᴰ.head e) = rw (ap (λ x. x.0) e) a.0
  Above-mem k j v ((i, w) ∷ m) a (Memᴰ.tail h) = Above-mem k j v m a.1 h

  get-cons_above :
      (k j : K) (w : V) (m : BTreeMap K V) → o.cmp j k ≡ Ordering.lt → get k ((j, w) ∷ m) ≡ get k m
  unfolding get
  get-cons_above k j w m h = ground (arith, o.cmp-swap_lt j k)

  pub get_of_mem :
      (k : K) (v : V) (m : BTreeMap K V) → IsSorted m → Memᴰ (k, v) m → get k m ≡ some v
  get_of_mem k v [] s h = elim h [ ]
  get_of_mem k v ((j, w) ∷ m) s (Memᴰ.head e) =
      ap (λ x. get x ((j, w) ∷ m)) (ap (λ x. x.0) e)
      ∙ get-cons_self j w m
      ∙ ap some (ap (λ x. x.1) (sym e))
  get_of_mem k v ((j, w) ∷ m) s (Memᴰ.tail h) =
      get-cons_above k j w m (Above-mem j k v m s.0 h) ∙ get_of_mem k v m s.1 h

  pub remove-eq_keep : (k : K) (m : BTreeMap K V) → remove k m ≡ keep (λ e. not (k == e.0)) m
  unfolding remove
  remove-eq_keep k [] = refl
  remove-eq_keep k ((j, v) ∷ m) = ground (arith, remove-eq_keep k m)

module _ {ℓ} {K : Type ℓ} ⦃o : Ord K⦄ where
  mem_of_set_contains : (k : K) (s : List K) → set_contains k s ≡ true → Memᴰ k s
  mem_of_set_contains k [] h = absurd (cc)
  mem_of_set_contains k (j ∷ s) h = elim (Bool-cases (k == j)) [
    | inl e ↦ Memᴰ.head ((eq_iff k j).0 e)
    | inr e ↦ Memᴰ.tail (mem_of_set_contains k s (rw e at h))
  ]

  set_contains_of_mem : (k : K) {s : List K} → Memᴰ k s → set_contains k s ≡ true
  set_contains_of_mem k (Memᴰ.head {x = j} e) = rw ((eq_iff k j).1 e)
  set_contains_of_mem k (Memᴰ.tail {x = j} {xs = s} h) = ground (arith, set_contains_of_mem k h)

  pub set_contains_iff : (k : K) (s : List K) → (set_contains k s ≡ true) ↔ Memᴰ k s
  set_contains_iff k s = (mem_of_set_contains k s, set_contains_of_mem k)

  set_remove-eq_keep : (k : K) (s : List K) → set_remove k s ≡ keep (λ j. not (k == j)) s
  unfolding set_remove
  set_remove-eq_keep k [] = refl
  set_remove-eq_keep k (j ∷ s) = ground (arith, set_remove-eq_keep k s)

  pub ne_of_beq : (k a : K) → not (k == a) ≡ true → ¬ (a ≡ k)
  ne_of_beq k a h e = ground (arith, (eq_iff k a).1 (sym e))

  pub beq_of_ne : (k a : K) → ¬ (a ≡ k) → not (k == a) ≡ true
  beq_of_ne k a n = elim (Bool-cases (k == a)) [
    | inl e ↦ absurd (n (sym ((eq_iff k a).0 e)))
    | inr e ↦ rw e
  ]

  pub mem-set_remove : (a k : K) (s : List K) → Memᴰ a (set_remove k s) → Memᴰ a s × (¬ (a ≡ k))
  mem-set_remove a k s h =
      let (m, e) = Memᴰ-keep _ s (subst (Memᴰ a) (set_remove-eq_keep k s) h) in (m, ne_of_beq k a e)

  pub mem-set_remove_of : (a k : K) (s : List K) → Memᴰ a s → (¬ (a ≡ k)) → Memᴰ a (set_remove k s)
  mem-set_remove_of a k s h n =
      subst (Memᴰ a) (sym (set_remove-eq_keep k s)) (Memᴰ-keep_of _ h (beq_of_ne k a n))

  not-Above_self : (k : K) → ¬ (o.cmp k k ≡ Ordering.lt)
  not-Above_self k h = ground (arith, o.cmp-refl k)

  pub set_contains-keep :
      (k : K) (p : K → Bool) (xs : List K) → set_contains k (keep p xs) ≡ (set_contains k xs && p k)
  set_contains-keep k p [] = refl
  set_contains-keep k p (x ∷ xs) = elim (Bool-cases (k == x)) [
    | inl e ↦ ground (arith, ap p ((eq_iff k x).0 e), set_contains-keep k p xs)
    | inr e ↦ ground (arith, set_contains-keep k p xs)
  ]

module _ {ℓ κ} {K : Type ℓ} {V : Type κ} ⦃o : Ord K⦄ where
  pub set_contains-keys : (k : K) (m : BTreeMap K V) → set_contains k (keys m) ≡ contains_key k m
  unfolding contains_key
  set_contains-keys k [] = refl
  set_contains-keys k ((j, v) ∷ m) = ground (arith, set_contains-keys k m)

  pub keys-Distinct : (m : BTreeMap K V) → IsSorted m → Distinct (keys m)
  keys-Distinct [] s = tt
  keys-Distinct ((k, v) ∷ m) s = (
    λ h. let (w, e) = mem_of_mem_keys k m h in not-Above_self k (Above-mem k k w m s.0 e),
    keys-Distinct m s.1,
  )

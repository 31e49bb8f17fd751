-- ===== src/BTreeMap/Sets.antt =====
-- `BTreeSet` built from the items of a list: in order, each once, and no other item.
use Prim.Native.Nat.{Ordering}
use openporch.Prelude.{◌||◌, List, [], ◌∷◌, ◌≡◌, refl, sym, subst, arith, Memᴰ}
use openporch.Prelude.Order.{Ord, ◌==◌, eq_iff}
use openporch.Prelude.Distinct.{Distinct}
use openporch.BTreeMap.Defs.{set_insert, set_contains, collect_set}

module _ {ℓ} {K : Type ℓ} ⦃o : Ord K⦄ where
  -- Every item of the set is above `k`.
  abbrev pub SetAbove : K → List K → Type ℓ
  SetAbove k [] = Unit
  SetAbove k (j ∷ s) = (o.cmp k j ≡ Ordering.lt) × SetAbove k s

  abbrev pub IsSortedSet : List K → Type ℓ
  IsSortedSet [] = Unit
  IsSortedSet (k ∷ s) = SetAbove k s × IsSortedSet s

  SetAbove-trans : (k j : K) (s : List K) → o.cmp k j ≡ Ordering.lt → SetAbove j s → SetAbove k s
  SetAbove-trans k j [] h a = tt
  SetAbove-trans k j (i ∷ s) h a = (o.cmp_trans k j i h a.0, SetAbove-trans k j s h a.1)

  set_insert-SetAbove :
      (i k : K) (s : List K) → o.cmp i k ≡ Ordering.lt → SetAbove i s → SetAbove i (set_insert k s)
  unfolding set_insert
  set_insert-SetAbove i k [] h a = (h, tt)
  set_insert-SetAbove i k (j ∷ s) h a = ground (arith, set_insert-SetAbove i k s)

  pub set_insert-IsSortedSet : (k : K) (s : List K) → IsSortedSet s → IsSortedSet (set_insert k s)
  unfolding set_insert
  set_insert-IsSortedSet k [] h = (tt, tt)
  set_insert-IsSortedSet k (j ∷ s) h = ground (
    arith,
    SetAbove-trans k j s,
    set_insert-IsSortedSet k s,
    set_insert-SetAbove j k s,
    o.cmp-swap_gt k j,
  )

  pub SetAbove-lt : (k j : K) (s : List K) → SetAbove k s → Memᴰ j s → o.cmp k j ≡ Ordering.lt
  SetAbove-lt k j [] a m = elim m [ ]
  SetAbove-lt k j (i ∷ s) a (Memᴰ.head e) = subst (λ x. o.cmp k x ≡ Ordering.lt) (sym e) a.0
  SetAbove-lt k j (i ∷ s) a (Memᴰ.tail m) = SetAbove-lt k j s a.1 m

  not-lt_self : (k : K) → ¬ (o.cmp k k ≡ Ordering.lt)
  not-lt_self k h = ground (arith, h, o.cmp-refl k)

  pub Distinct-of_IsSortedSet : (s : List K) → IsSortedSet s → Distinct s
  Distinct-of_IsSortedSet [] h = tt
  Distinct-of_IsSortedSet (k ∷ s) h =
      (λ m. not-lt_self k (SetAbove-lt k k s h.0 m), Distinct-of_IsSortedSet s h.1)

  pub set_contains-set_insert :
      (a k : K) (s : List K) → set_contains a (set_insert k s) ≡ (a == k || set_contains a s)
  unfolding set_insert
  set_contains-set_insert a k [] = refl
  set_contains-set_insert a k (j ∷ s) =
      ground
        (arith, set_contains-set_insert a k s, o.cmp-eq k j, o.cmp-refl k, eq_iff a k, eq_iff a j)

  pub collect_set-IsSortedSet : (xs s : List K) → IsSortedSet s → IsSortedSet (collect_set xs s)
  unfolding collect_set
  collect_set-IsSortedSet [] s h = h
  collect_set-IsSortedSet (x ∷ xs) s h =
      collect_set-IsSortedSet xs (set_insert x s) (set_insert-IsSortedSet x s h)

  pub set_contains-collect_set :
      (a : K) (xs s : List K)
      → set_contains a (collect_set xs s) ≡ (set_contains a xs || set_contains a s)
  unfolding collect_set
  set_contains-collect_set a [] s = refl
  set_contains-collect_set a (x ∷ xs) s =
      ground (arith, set_contains-collect_set a xs (set_insert x s), set_contains-set_insert a x s)

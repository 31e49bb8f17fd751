-- ===== src/Prelude/Sort.antt =====
-- `slice::sort` over an ordered type, and that it forgets the order it was given.
use Prim.Native.Nat.{Ordering}
use mathlib.Core.List.{Permᴰ}
use openporch.Prelude.Order.{Ord}
use mathlib.Core.Path.{◌≡◌, refl, ap, ◌∙◌}
use mathlib.Core.List.{List, [], ◌∷◌, Memᴰ}
use native.Mathlib.Omega.{arith}

module _ {ℓ} {K : Type ℓ} ⦃o : Ord K⦄ where
  unfoldable pub sorted_insert : K → List K → List K
  sorted_insert k [] = k ∷ []
  sorted_insert k (j ∷ l) =
      let rest = sorted_insert k l in elim (o.cmp k j) [ Ordering.gt ↦ j ∷ rest | _ ↦ k ∷ j ∷ l ]

  unfoldable pub sort : List K → List K
  unfolding sorted_insert
  sort [] = []
  sort (k ∷ l) = sorted_insert k (sort l)

  sorted_insert_comm :
      (a b : K) (l : List K)
      → sorted_insert a (sorted_insert b l) ≡ sorted_insert b (sorted_insert a l)
  unfolding sorted_insert
  sorted_insert_comm a b [] =
      ground (arith, o.cmp-eq a b, o.cmp-swap_gt a b, o.cmp-swap_lt a b, o.cmp-swap_gt b a)
  sorted_insert_comm a b (j ∷ l) = ground (
    arith,
    o.cmp-eq a b,
    o.cmp-swap_gt a b,
    o.cmp-swap_lt a b,
    o.cmp-swap_gt b a,
    o.cmp-eq a j,
    o.cmp-eq b j,
    o.cmp-swap_gt a j,
    o.cmp-swap_gt b j,
    o.cmp_trans a j b,
    o.cmp_trans b j a,
    o.cmp-swap_lt b a,
    o.cmp-refl a,
    sorted_insert_comm a b l,
  )

  pub sort-perm : {l m : List K} → Permᴰ l m → sort l ≡ sort m
  unfolding sort
  sort-perm Permᴰ.nil = refl
  sort-perm (Permᴰ.cons {l₁ = l} {l₂ = m} e p) =
      ap (λ k. sorted_insert k (sort l)) e ∙ ap (sorted_insert _) (sort-perm p)
  sort-perm (Permᴰ.swap {a = a} {b = b} {l = l} e f) =
      rw (← e, ← f) (sorted_insert_comm a b (sort l))
  sort-perm (Permᴰ.trans p q) = sort-perm p ∙ sort-perm q

  Memᴰ-past :
      (k j : K) (rest : List K) {l : List K} {a : K}
      → Memᴰ a (k ∷ j ∷ l)
      → (Memᴰ a (k ∷ l) → Memᴰ a rest)
      → Memᴰ a (j ∷ rest)
  Memᴰ-past k j rest (Memᴰ.head e) f = Memᴰ.tail (f (Memᴰ.head e))
  Memᴰ-past k j rest (Memᴰ.tail (Memᴰ.head e)) f = Memᴰ.head e
  Memᴰ-past k j rest (Memᴰ.tail (Memᴰ.tail m)) f = Memᴰ.tail (f (Memᴰ.tail m))

  Memᴰ-placed :
      (c : Ordering) (k j : K) (l rest : List K) {a : K}
      → Memᴰ a (k ∷ j ∷ l)
      → (Memᴰ a (k ∷ l) → Memᴰ a rest)
      → Memᴰ a (elim c [ Ordering.gt ↦ j ∷ rest | _ ↦ k ∷ j ∷ l ])
  Memᴰ-placed Ordering.gt k j l rest m f = Memᴰ-past k j rest m f
  Memᴰ-placed Ordering.lt k j l rest m f = m
  Memᴰ-placed Ordering.eq k j l rest m f = m

  Memᴰ-sorted_insert : (k : K) (l : List K) {a : K} → Memᴰ a (k ∷ l) → Memᴰ a (sorted_insert k l)
  unfolding sorted_insert
  Memᴰ-sorted_insert k [] m = m
  Memᴰ-sorted_insert k (j ∷ l) m =
      Memᴰ-placed (o.cmp k j) k j l (sorted_insert k l) m (λ h. Memᴰ-sorted_insert k l h)

  -- Every item of a list is in the sorted list.
  pub Memᴰ-sort : (l : List K) {a : K} → Memᴰ a l → Memᴰ a (sort l)
  unfolding sort
  Memᴰ-sort (k ∷ l) (Memᴰ.head e) = Memᴰ-sorted_insert k (sort l) (Memᴰ.head e)
  Memᴰ-sort (k ∷ l) (Memᴰ.tail m) = Memᴰ-sorted_insert k (sort l) (Memᴰ.tail (Memᴰ-sort l m))
  Memᴰ-sort [] m = elim m [ ]

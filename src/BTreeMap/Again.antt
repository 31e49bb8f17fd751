-- ===== src/BTreeMap/Again.antt =====
-- An insertion of what is there changes nothing.
use openporch.Prelude.{true, List, [], ◌∷◌, some, ◌≡◌, refl, ap, ◌∙◌, inl, inr, arith, Bool-cases}
use openporch.Prelude.Order.{Ord, ◌==◌, eq_iff}
use openporch.BTreeMap.{BTreeMap, get, insert, set_insert, set_contains}
use openporch.BTreeMap.Sorted.{IsSorted, insert-IsSorted, eq_of_get}
use openporch.BTreeMap.Laws.{get-insert}
use openporch.BTreeMap.Sets.{IsSortedSet, SetAbove-lt}
use openporch.BTreeMap.Members.{set_contains_iff}

module _ {ℓ} {K : Type ℓ} ⦃o : Ord K⦄ where
  pub set_insert_again :
      (k : K) (s : List K) → IsSortedSet s → set_contains k s ≡ true → set_insert k s ≡ s
  unfolding set_insert
  set_insert_again k [] h m = absurd (cc)
  set_insert_again k (j ∷ s) h m = elim (Bool-cases (k == j)) [
    | inl e ↦ ground (arith, (eq_iff k j).0 e, o.cmp-refl j)
    | inr n ↦
        let rest : set_contains k s ≡ true = rw n at m in
        let above = o.cmp-swap_lt j k (SetAbove-lt j k s h.0 ((set_contains_iff k s).0 rest)) in
        let same = set_insert_again k s h.1 rest in rw (set_insert, above) (ap (λ t. j ∷ t) same)
  ]

  pub insert_again {κ} :
      {V : Type κ} (k : K) (v : V) (m : BTreeMap K V)
      → IsSorted m
      → get k m ≡ some v
      → insert k v m ≡ m
  insert_again k v m s h = eq_of_get (insert k v m) m (insert-IsSorted k v m s) s λ j.
      elim (Bool-cases (j == k)) [
        | inl e ↦ get-insert k j v m ∙ rw (e, (eq_iff j k).0 e, h) refl
        | inr n ↦ get-insert k j v m ∙ rw n refl
      ]

-- ===== src/BTreeMap/Defs.antt =====
-- The operations of `BTreeMap` and `BTreeSet` that the program calls.
use Prim.Native.Nat.{Ordering}
use openporch.Prelude.{
  Bool, true, false, Option, none, some, List, [], ◌∷◌, map, if◌then◌else◌, any,
}
use openporch.Prelude.Order.{Ord, ◌==◌}

abbrev pub BTreeMap {ℓ κ} : Type ℓ → Type κ → Type (ℓ ⊔ κ)
BTreeMap K V = List (K × V)

abbrev pub BTreeSet {ℓ} : Type ℓ → Type ℓ
BTreeSet K = List K

module _ {ℓ κ} {K : Type ℓ} {V : Type κ} where
  abbrev pub keys : BTreeMap K V → List K
  keys m = map (λ e. e.0) m

  abbrev pub values : BTreeMap K V → List V
  values m = map (λ e. e.1) m

module _ {ℓ κ} {K : Type ℓ} {V : Type κ} ⦃o : Ord K⦄ where
  unfoldable pub get : K → BTreeMap K V → Option V
  get k [] = none
  get k ((j, v) ∷ m) = if k == j then some v else get k m

  unfoldable pub contains_key : K → BTreeMap K V → Bool
  contains_key k [] = false
  contains_key k ((j, v) ∷ m) = if k == j then true else contains_key k m

  unfoldable pub insert : K → V → BTreeMap K V → BTreeMap K V
  insert k v [] = (k, v) ∷ []
  insert k v ((j, w) ∷ m) =
      let rest = insert k v m in
      elim (o.cmp k j) [
        | Ordering.lt ↦ (k, v) ∷ (j, w) ∷ m
        | Ordering.eq ↦ (k, v) ∷ m
        | Ordering.gt ↦ (j, w) ∷ rest
      ]

  unfoldable pub remove : K → BTreeMap K V → BTreeMap K V
  remove k [] = []
  remove k ((j, w) ∷ m) = let rest = remove k m in if k == j then rest else (j, w) ∷ rest

module _ {ℓ} {K : Type ℓ} ⦃o : Ord K⦄ where
  abbrev pub set_contains : K → BTreeSet K → Bool
  set_contains k s = any (λ j. k == j) s

  unfoldable pub set_insert : K → BTreeSet K → BTreeSet K
  set_insert k [] = k ∷ []
  set_insert k (j ∷ s) =
      let rest = set_insert k s in
      elim (o.cmp k j) [ Ordering.lt ↦ k ∷ j ∷ s | Ordering.eq ↦ j ∷ s | Ordering.gt ↦ j ∷ rest ]

  unfoldable pub set_remove : K → BTreeSet K → BTreeSet K
  set_remove k [] = []
  set_remove k (j ∷ s) = let rest = set_remove k s in if k == j then rest else j ∷ rest

  -- `.collect()` of the items of a list, into a set that has some already.
  unfoldable pub collect_set : List K → BTreeSet K → BTreeSet K
  unfolding set_insert
  collect_set [] s = s
  collect_set (x ∷ xs) s = collect_set xs (set_insert x s)

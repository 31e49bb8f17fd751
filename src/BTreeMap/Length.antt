-- ===== src/BTreeMap/Length.antt =====
-- How many entries a map has after an insertion or a filter.
use Prim.Native.Nat.{Ordering}
use openporch.Prelude.{
  suc, Bool, true, false, List, [], ◌∷◌, if◌then◌else◌, length, length-keep, keep, ◌≡◌, refl, arith,
}
use openporch.Prelude.Order.{Ord, ◌==◌}
use openporch.BTreeMap.Defs.{BTreeMap, contains_key, insert}
use openporch.BTreeMap.Laws.{contains_key-get, get-insert}
use openporch.BTreeMap.Sorted.{IsSorted, Above, get-Above}

module _ {ℓ κ} {K : Type ℓ} {V : Type κ} ⦃o : Ord K⦄ where
  contains_key-Above : (k : K) (m : BTreeMap K V) → Above k m → contains_key k m ≡ false
  contains_key-Above k m a = ground (arith, contains_key-get k m, get-Above k m)

  below-contains_key :
      (k j : K) (m : BTreeMap K V) → o.cmp k j ≡ Ordering.lt → Above j m → contains_key k m ≡ false
  unfolding contains_key
  below-contains_key k j [] h a = refl
  below-contains_key k j ((i, v) ∷ m) h a =
      ground (arith, o.cmp_trans k j i h a.0, below-contains_key k j m h a.1)

  pub length-insert :
      (k : K) (v : V) (m : BTreeMap K V)
      → IsSorted m
      → length (insert k v m) ≡ (if contains_key k m then length m else suc (length m))
  unfolding insert contains_key
  length-insert k v [] s = refl
  length-insert k v ((j, w) ∷ m) s = ground (arith, length-insert k v m, below-contains_key k j m)

  pub contains_key-insert :
      (k j : K) (v : V) (m : BTreeMap K V)
      → contains_key j (insert k v m) ≡ (if j == k then true else contains_key j m)
  contains_key-insert k j v m =
      ground (arith, contains_key-get j (insert k v m), contains_key-get j m, get-insert k j v m)

module _ {ℓ} {A : Type ℓ} where
  -- A filter that drops nothing by length drops nothing.
  pub keep_all : (p : A → Bool) (xs : List A) → length (keep p xs) ≡ length xs → keep p xs ≡ xs
  keep_all p [] h = refl
  keep_all p (x ∷ xs) h = ground (arith, keep_all p xs, length-keep p xs)

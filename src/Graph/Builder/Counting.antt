-- ===== src/Graph/Builder/Counting.antt =====
-- How many edges a graph has, and how many an insertion adds.
use Prim.Native.Nat.{Ordering}
use openporch.Prelude.{
  ℕ, suc, ◌+◌, false, List, [], ◌∷◌, none, some, length, if◌then◌else◌, ◌≡◌, refl, arith,
}
use openporch.Prelude.Order.{Ord, eq_iff}
use openporch.BTreeMap.{BTreeMap, get, insert, set_insert, set_contains}
use openporch.BTreeMap.Sorted.{IsSorted, Above}
use openporch.BTreeMap.Sets.{IsSortedSet, SetAbove}
use openporch.Ids.{Descriptor}
use openporch.Ids.Types.{descriptor_ord, descriptor_cmp}
use openporch.Graph.Builder.Types.{Node}

-- How many edges there are.
abbrev pub total : BTreeMap Descriptor Node → ℕ
total [] = 0
total ((d, n) ∷ nodes) = length n.depends_on + total nodes

pub get-below :
    (k j : Descriptor) (m : BTreeMap Descriptor Node)
    → descriptor_cmp k j ≡ Ordering.lt
    → Above j m
    → get k m ≡ none
unfolding get
get-below k j [] h a = refl
get-below k j ((i, w) ∷ m) h a =
    ground (
      arith,
      descriptor_ord.cmp_trans k j i,
      descriptor_ord.cmp-refl k,
      eq_iff k i,
      get-below k j m,
    )

pub total-insert :
    (d : Descriptor) (n n' : Node) (nodes : BTreeMap Descriptor Node)
    → IsSorted nodes
    → get d nodes ≡ some n
    → total (insert d n' nodes) + length n.depends_on ≡ total nodes + length n'.depends_on
unfolding get insert
total-insert d n n' [] s h = absurd (cc)
total-insert d n n' ((j, w) ∷ nodes) s h = ground (
  arith,
  descriptor_ord.cmp-eq d j,
  descriptor_ord.cmp-refl d,
  eq_iff d j,
  get-below d j nodes,
  total-insert d n n' nodes,
)

pub above-absent {ℓ} :
    {K : Type ℓ} ⦃o : Ord K⦄ (k j : K) (s : List K)
    → o.cmp k j ≡ Ordering.lt
    → SetAbove j s
    → set_contains k s ≡ false
above-absent k j [] h a = refl
above-absent ⦃o⦄ k j (i ∷ s) h a =
    ground (arith, o.cmp_trans k j i, o.cmp-refl k, eq_iff k i, above-absent k j s)

pub length-set_insert {ℓ} :
    {K : Type ℓ} ⦃o : Ord K⦄ (k : K) (s : List K)
    → IsSortedSet s
    → length (set_insert k s) ≡ (if set_contains k s then length s else suc (length s))
unfolding set_insert
length-set_insert k [] h = refl
length-set_insert ⦃o⦄ k (j ∷ s) h =
    ground
      (arith, o.cmp-eq k j, o.cmp-refl k, eq_iff k j, above-absent k j s, length-set_insert k s)

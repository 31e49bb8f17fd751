-- ===== src/Graph/Builder/Deps.antt =====
-- The dependencies of the builder's nodes, which `topological_layers` puts into layers.
use openporch.Prelude.{
  [], ◌∷◌, none, some, ◌≡◌, refl, sym, ap, subst, inl, inr, Memᴰ, All-Memᴰ, Bool-cases,
}
use openporch.Prelude.Order.{◌==◌}
use openporch.BTreeMap.{BTreeMap, BTreeSet, get, keys}
use openporch.BTreeMap.Sorted.{IsSorted, Above}
use openporch.Ids.{Descriptor}
use openporch.Ids.Types.{descriptor_ord}
use openporch.Graph.Topology.{IsClosed}
use openporch.Graph.Builder.Types.{GraphInput, Node}
use openporch.Graph.Builder.Build.{deps_of}
use openporch.Graph.Builder.Valid.{Has, AreNodes}
use openporch.Graph.Builder.Waits.{Has-mem}

keys-deps_of : (nodes : BTreeMap Descriptor Node) → keys (deps_of nodes) ≡ keys nodes
keys-deps_of [] = refl
keys-deps_of ((d, n) ∷ nodes) = ap (λ l. d ∷ l) (keys-deps_of nodes)

Above-deps_of :
    (d : Descriptor) (nodes : BTreeMap Descriptor Node) → Above d nodes → Above d (deps_of nodes)
Above-deps_of d [] a = tt
Above-deps_of d (e ∷ nodes) a = (a.0, Above-deps_of d nodes a.1)

pub deps_of-IsSorted :
    (nodes : BTreeMap Descriptor Node) → IsSorted nodes → IsSorted (deps_of nodes)
deps_of-IsSorted [] s = tt
deps_of-IsSorted ((d, n) ∷ nodes) s = (Above-deps_of d nodes s.0, deps_of-IsSorted nodes s.1)

get-deps_of :
    (d : Descriptor) (nodes : BTreeMap Descriptor Node) {deps : BTreeSet Descriptor}
    → get d (deps_of nodes) ≡ some deps
    → (n : Node) × (get d nodes ≡ some n) × (n.depends_on ≡ deps)
unfolding get
get-deps_of d [] h = absurd (cc)
get-deps_of d ((j, n) ∷ nodes) {deps} h = elim (Bool-cases (d == j)) [
  | inl e ↦ let found : some n.depends_on ≡ some deps = rw e at h in (n, rw e refl, cc)
  | inr e ↦ let (m, q, same) = get-deps_of d nodes (rw e at h) in (m, rw e q, same)
]

pub deps_of-IsClosed :
    (input : GraphInput) (nodes : BTreeMap Descriptor Node)
    → AreNodes input none nodes
    → IsClosed (deps_of nodes)
deps_of-IsClosed input nodes v a b e =
    let (n, found, same) = get-deps_of a nodes e.entry in
    subst (Memᴰ b) (sym (keys-deps_of nodes)) (
      Has-mem b nodes
        (All-Memᴰ (Has nodes) (v.each a n found).closed (subst (Memᴰ b) (sym same) e.dependency)))

-- ===== src/Graph/Examples.antt =====
-- Small graphs, with numbers for descriptors.
use openporch.Prelude.{
  ℕ, true, not, some, List, [], ◌∷◌, ◌≡◌, ◌⊎◌, ◌↔◌, refl, arith, all, all-Memᴰ, is_nil,
}
use openporch.Prelude.Order.{nat_ord}
use openporch.Prelude.Result.{ok, err}
use openporch.Prelude.Chain.{IsCycle}
use openporch.BTreeMap.{keys, get, insert, remove, set_remove, set_contains}
use openporch.BTreeMap.Sorted.{IsSorted}
use openporch.BTreeMap.Members.{mem_of_get, set_contains_iff}
use openporch.Graph.Layers.{layers_of, find_cycle}
use openporch.Graph.Cycle.{Edge, IsStuck, find_cycle-IsCycle}
use openporch.Graph.Rounds.{Deps}
use openporch.Graph.Topology.{IsClosed, IsOrder, layers_of_outcome}
use openporch.Graph.Acyclic.{layers_of-ok_iff}

-- 1 waits for 2 and 3, and 2 for 3.
abbrev diamond : Deps ℕ
diamond = (1, 2 ∷ 3 ∷ []) ∷ (2, 3 ∷ []) ∷ (3, []) ∷ []

-- 1 waits for 2, and 2 and 3 for each other.
abbrev knot : Deps ℕ
knot = (1, 2 ∷ []) ∷ (2, 3 ∷ []) ∷ (3, 2 ∷ []) ∷ []

program : Unit {0}
unfolding layers_of find_cycle get insert remove set_remove
program = tt

layers_of-diamond : layers_of diamond ≡ some (ok ((3 ∷ []) ∷ (2 ∷ []) ∷ (1 ∷ []) ∷ []))
unfolding program
layers_of-diamond = refl

layers_of-knot : layers_of knot ≡ some (err (2 ∷ 3 ∷ 2 ∷ []))
unfolding program
layers_of-knot = refl

IsClosed-check :
    (nodes : Deps ℕ)
    → all (λ e. all (λ d. set_contains d (keys nodes)) e.1) nodes ≡ true
    → IsClosed nodes
IsClosed-check nodes h a b e = (set_contains_iff b (keys nodes)).0 (
    all-Memᴰ (λ d. set_contains d (keys nodes))
      (all-Memᴰ (λ x. all (λ d. set_contains d (keys nodes)) x.1) h
        (mem_of_get a e.deps nodes e.entry))
      e.dependency)

IsStuck-check :
    (nodes : Deps ℕ)
    → all (λ e. not (is_nil e.1)) nodes ≡ true
    → all (λ e. all (λ d. set_contains d (keys nodes)) e.1) nodes ≡ true
    → IsStuck nodes
IsStuck-check nodes h c = record {
  waits = λ a deps e q.
      ground (arith, q, all-Memᴰ (λ x. not (is_nil x.1)) h (mem_of_get a deps nodes e));
  closed = IsClosed-check nodes c;
}

find_cycle-IsCycle_example : (c : List ℕ) × (find_cycle knot ≡ some c) × IsCycle (Edge knot) c
find_cycle-IsCycle_example = find_cycle-IsCycle knot (λ e. cc) (IsStuck-check knot refl refl)

diamond-IsSorted : IsSorted diamond
diamond-IsSorted = ((refl, (refl, tt)), ((refl, tt), (tt, tt)))

knot-IsSorted : IsSorted knot
knot-IsSorted = ((refl, (refl, tt)), ((refl, tt), (tt, tt)))

layers_of_outcome_example :
    ((layers : List (List ℕ)) × (layers_of diamond ≡ some (ok layers)) × IsOrder diamond [] layers)
    ⊎ ((c : List ℕ) × (layers_of diamond ≡ some (err c)) × IsCycle (Edge diamond) c)
layers_of_outcome_example = layers_of_outcome diamond diamond-IsSorted (IsClosed-check diamond refl)

layers_of-ok_iff_example :
    ((layers : List (List ℕ)) × (layers_of knot ≡ some (ok layers)))
    ↔ (¬ ((c : List ℕ) × IsCycle (Edge knot) c))
layers_of-ok_iff_example = layers_of-ok_iff knot knot-IsSorted (IsClosed-check knot refl)

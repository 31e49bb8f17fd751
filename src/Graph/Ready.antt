-- ===== src/Graph/Ready.antt =====
-- The nodes that are ready in a round: those with no unmet dependency.
use openporch.Prelude.{
  suc, ◌≤◌, ◌<◌, true, some, List, [], ◌∷◌, keep, is_nil, length, ◌≡◌, ◌≢◌, refl, ap, ◌∙◌, arith,
  Memᴰ, Memᴰ-keep, Memᴰ-keep_of,
}
use openporch.Prelude.Order.{Ord, eq_iff}
use openporch.Prelude.Distinct.{Distinct}
use openporch.BTreeMap.{keys, get, remove}
use openporch.BTreeMap.Sorted.{IsSorted, keep-IsSorted}
use openporch.BTreeMap.Members.{mem_of_get, mem_keys, mem_of_mem_keys, get_of_mem, keys-Distinct}
use openporch.Graph.Layers.{remove_all, satisfy_all, ready_nodes}
use openporch.Graph.Rounds.{Deps, round}

is_nil→eq {ℓ} : {A : Type ℓ} (l : List A) → is_nil l ≡ true → l ≡ []
is_nil→eq [] h = refl
is_nil→eq (x ∷ l) h = cc

module _ {ℓ} {K : Type ℓ} ⦃o : Ord K⦄ where
  pub mem-ready_nodes :
      (a : K) (m : Deps K) → IsSorted m → Memᴰ a (ready_nodes m) → get a m ≡ some []
  unfolding ready_nodes
  mem-ready_nodes a m s h =
      let (deps, t) = mem_of_mem_keys a (keep (λ e. is_nil e.1) m) h in
      let (t', e) = Memᴰ-keep (λ e. is_nil e.1) m t in
      get_of_mem a deps m s t' ∙ ap some (is_nil→eq deps e)

  pub mem-ready_nodes_of : (a : K) (m : Deps K) → get a m ≡ some [] → Memᴰ a (ready_nodes m)
  unfolding ready_nodes
  mem-ready_nodes_of a m e = mem_keys (Memᴰ-keep_of (λ e. is_nil e.1) (mem_of_get a [] m e) refl)

  pub ready_nodes-Distinct : (m : Deps K) → IsSorted m → Distinct (ready_nodes m)
  unfolding ready_nodes
  ready_nodes-Distinct m s = keys-Distinct _ (keep-IsSorted _ m s)

  length-remove_le : (k : K) (m : Deps K) → length (remove k m) ≤ length m
  unfolding remove
  length-remove_le k [] = omega arith
  length-remove_le k ((j, v) ∷ m) = ground (arith, length-remove_le k m)

  length-remove_lt : (k : K) (m : Deps K) → Memᴰ k (keys m) → length (remove k m) < length m
  unfolding remove
  length-remove_lt k [] h = elim h [ ]
  length-remove_lt k ((j, v) ∷ m) (Memᴰ.head e) =
      ground (arith, length-remove_le k m, (eq_iff k j).1 e)
  length-remove_lt k ((j, v) ∷ m) (Memᴰ.tail h) =
      ground (arith, length-remove_lt k m h, length-remove_le k m)

  length-remove_all : (ready : List K) (m : Deps K) → length (remove_all ready m) ≤ length m
  unfolding remove_all
  length-remove_all [] m = omega arith
  length-remove_all (d ∷ ready) m =
      omega (arith, length-remove_all ready (remove d m), length-remove_le d m)

  length-satisfy_all : (ready : List K) (m : Deps K) → length (satisfy_all ready m) ≡ length m
  unfolding satisfy_all
  length-satisfy_all ready [] = refl
  length-satisfy_all ready (e ∷ m) = ap suc (length-satisfy_all ready m)

  -- A round with a ready node leaves fewer nodes.
  pub length-round :
      (ready : List K) (m : Deps K)
      → ready ≢ []
      → ((a : K) → Memᴰ a ready → Memᴰ a (keys m))
      → length (round ready m) < length m
  unfolding remove_all
  length-round [] m n h = absurd (n refl)
  length-round (d ∷ ready) m n h = omega (
    arith,
    length-satisfy_all (d ∷ ready) (remove_all ready (remove d m)),
    length-remove_all ready (remove d m),
    length-remove_lt d m (h d (Memᴰ.head refl)),
  )

-- ===== src/Graph/Rounds.antt =====
-- One round of the loop of `topological_layers`: which nodes are ready, and what is left.
use openporch.Prelude.{List, [], ◌∷◌, ◌≡◌, inl, inr, sym, ap, subst, Memᴰ, Memᴰ-keep, Memᴰ-keep_of}
use openporch.Prelude.Order.{Ord}
use openporch.Prelude.Distinct.{not-Memᴰ-nil, Memᴰ-cons_cases}
use openporch.BTreeMap.{BTreeMap, BTreeSet, keys, remove, set_remove}
use openporch.BTreeMap.Sorted.{Above, IsSorted, remove-IsSorted}
use openporch.BTreeMap.Members.{
  mem_keys, mem_of_mem_keys, mem-set_remove, mem-set_remove_of, remove-eq_keep, ne_of_beq,
  beq_of_ne,
}
use openporch.Graph.Layers.{remove_all, satisfy, satisfy_all}

abbrev pub Deps {ℓ} : Type ℓ → Type ℓ
Deps K = BTreeMap K (BTreeSet K)

module _ {ℓ} {K : Type ℓ} ⦃o : Ord K⦄ where
  pub mem-satisfy :
      (a : K) (ready : List K) (deps : BTreeSet K)
      → Memᴰ a (satisfy ready deps)
      → Memᴰ a deps × (¬ Memᴰ a ready)
  unfolding satisfy
  mem-satisfy a [] deps h = (h, not-Memᴰ-nil)
  mem-satisfy a (d ∷ ready) deps h =
      let (m, n) = mem-satisfy a ready (set_remove d deps) h in
      let (m', ne) = mem-set_remove a d deps m in
      (m', λ t. elim (Memᴰ-cons_cases t) [ inl e ↦ ne e | inr t' ↦ n t' ])

  pub mem-satisfy_of :
      (a : K) (ready : List K) (deps : BTreeSet K)
      → Memᴰ a deps
      → (¬ Memᴰ a ready)
      → Memᴰ a (satisfy ready deps)
  unfolding satisfy
  mem-satisfy_of a [] deps m n = m
  mem-satisfy_of a (d ∷ ready) deps m n =
      mem-satisfy_of a ready (set_remove d deps)
        (mem-set_remove_of a d deps m (λ e. n (Memᴰ.head e))) (λ t. n (Memᴰ.tail t))

  mem-remove :
      (e : K × BTreeSet K) (k : K) (m : Deps K) → Memᴰ e (remove k m) → Memᴰ e m × (¬ (e.0 ≡ k))
  mem-remove e k m h =
      let (t, q) = Memᴰ-keep _ m (subst (Memᴰ e) (remove-eq_keep k m) h) in (t, ne_of_beq k e.0 q)

  mem-remove_of :
      (e : K × BTreeSet K) (k : K) (m : Deps K) → Memᴰ e m → (¬ (e.0 ≡ k)) → Memᴰ e (remove k m)
  mem-remove_of e k m h n =
      subst (Memᴰ e) (sym (remove-eq_keep k m)) (Memᴰ-keep_of _ h (beq_of_ne k e.0 n))

  mem-remove_all :
      (e : K × BTreeSet K) (ready : List K) (m : Deps K)
      → Memᴰ e (remove_all ready m)
      → Memᴰ e m × (¬ Memᴰ e.0 ready)
  unfolding remove_all
  mem-remove_all e [] m h = (h, not-Memᴰ-nil)
  mem-remove_all e (d ∷ ready) m h =
      let (t, n) = mem-remove_all e ready (remove d m) h in
      let (t', ne) = mem-remove e d m t in
      (t', λ u. elim (Memᴰ-cons_cases u) [ inl q ↦ ne q | inr u' ↦ n u' ])

  mem-remove_all_of :
      (e : K × BTreeSet K) (ready : List K) (m : Deps K)
      → Memᴰ e m
      → (¬ Memᴰ e.0 ready)
      → Memᴰ e (remove_all ready m)
  unfolding remove_all
  mem-remove_all_of e [] m h n = h
  mem-remove_all_of e (d ∷ ready) m h n =
      mem-remove_all_of e ready (remove d m) (mem-remove_of e d m h (λ q. n (Memᴰ.head q)))
        (λ t. n (Memᴰ.tail t))

  -- What is left for the next round.
  abbrev pub round : List K → Deps K → Deps K
  round ready m = satisfy_all ready (remove_all ready m)

  mem-satisfy_all :
      (a : K) (deps : BTreeSet K) (ready : List K) (m : Deps K)
      → Memᴰ (a, deps) (satisfy_all ready m)
      → (old : BTreeSet K) × Memᴰ (a, old) m × (deps ≡ satisfy ready old)
  unfolding satisfy_all
  mem-satisfy_all a deps ready [] h = elim h [ ]
  mem-satisfy_all a deps ready ((j, old) ∷ m) (Memᴰ.head e) =
      (old, Memᴰ.head (λ i. ((e i).0, old)), ap (λ x. x.1) e)
  mem-satisfy_all a deps ready ((j, w) ∷ m) (Memᴰ.tail h) =
      let (old, t, q) = mem-satisfy_all a deps ready m h in (old, Memᴰ.tail t, q)

  mem-satisfy_all_of :
      (a : K) (old : BTreeSet K) (ready : List K) {m : Deps K}
      → Memᴰ (a, old) m
      → Memᴰ (a, satisfy ready old) (satisfy_all ready m)
  unfolding satisfy_all
  mem-satisfy_all_of a old ready (Memᴰ.head e) = Memᴰ.head (λ i. ((e i).0, satisfy ready (e i).1))
  mem-satisfy_all_of a old ready (Memᴰ.tail h) = Memᴰ.tail (mem-satisfy_all_of a old ready h)

  pub mem-round :
      (a : K) (deps : BTreeSet K) (ready : List K) (m : Deps K)
      → Memᴰ (a, deps) (round ready m)
      → (old : BTreeSet K) × Memᴰ (a, old) m × (¬ Memᴰ a ready) × (deps ≡ satisfy ready old)
  mem-round a deps ready m h =
      let (old, t, q) = mem-satisfy_all a deps ready (remove_all ready m) h in
      let (t', n) = mem-remove_all (a, old) ready m t in (old, t', n, q)

  pub keys-round :
      (a : K) (ready : List K) (m : Deps K)
      → Memᴰ a (keys m)
      → (¬ Memᴰ a ready)
      → Memᴰ a (keys (round ready m))
  keys-round a ready m h n =
      let (old, t) = mem_of_mem_keys a m h in
      mem_keys (mem-satisfy_all_of a old ready (mem-remove_all_of (a, old) ready m t n))

  satisfy_all-Above :
      (k : K) (ready : List K) (m : Deps K) → Above k m → Above k (satisfy_all ready m)
  unfolding satisfy_all
  satisfy_all-Above k ready [] a = tt
  satisfy_all-Above k ready ((j, v) ∷ m) a = (a.0, satisfy_all-Above k ready m a.1)

  satisfy_all-IsSorted : (ready : List K) (m : Deps K) → IsSorted m → IsSorted (satisfy_all ready m)
  unfolding satisfy_all
  satisfy_all-IsSorted ready [] s = tt
  satisfy_all-IsSorted ready ((j, v) ∷ m) s =
      (satisfy_all-Above j ready m s.0, satisfy_all-IsSorted ready m s.1)

  remove_all-IsSorted : (ready : List K) (m : Deps K) → IsSorted m → IsSorted (remove_all ready m)
  unfolding remove_all
  remove_all-IsSorted [] m s = s
  remove_all-IsSorted (d ∷ ready) m s =
      remove_all-IsSorted ready (remove d m) (remove-IsSorted d m s)

  pub round-IsSorted : (ready : List K) (m : Deps K) → IsSorted m → IsSorted (round ready m)
  round-IsSorted ready m s =
      satisfy_all-IsSorted ready (remove_all ready m) (remove_all-IsSorted ready m s)

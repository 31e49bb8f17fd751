-- ===== src/Graph/Layering.antt =====
-- What the layers of `topological_layers` are, and that the loop either makes them or finds a cycle.
use openporch.Prelude.{
  some, List, [], ◌∷◌, ◌++◌, ◌≡◌, ◌⊎◌, inl, inr, sym, ap, ◌∙◌, subst, Memᴰ, Memᴰ-append,
  Memᴰ-append_left, Memᴰ-append_right, Bool-cases,
}
use openporch.Prelude.Order.{Ord}
use openporch.Prelude.Distinct.{Distinct, Distinct-append, not-Memᴰ-nil}
use openporch.BTreeMap.{BTreeSet, keys, get, set_contains}
use openporch.BTreeMap.Sorted.{IsSorted}
use openporch.BTreeMap.Members.{mem_of_get, mem_keys, get_of_mem, get_of_mem_keys, set_contains_iff}
use openporch.Graph.Layers.{ready_nodes, satisfy}
use openporch.Graph.Cycle.{Edge, IsStuck}
use openporch.Graph.Rounds.{
  Deps, round, mem-satisfy, mem-satisfy_of, mem-round, keys-round, round-IsSorted,
}
use openporch.Graph.Ready.{mem-ready_nodes, mem-ready_nodes_of, ready_nodes-Distinct}

abbrev pub concat {ℓ} : {A : Type ℓ} → List (List A) → List A
concat [] = []
concat (l ∷ ls) = l ++ concat ls

module _ {ℓ} {K : Type ℓ} ⦃o : Ord K⦄ where
  -- The dependencies of each layer stand in `seen` or in the layers before it.
  abbrev pub IsLayered : Deps K → List K → List (List K) → Type ℓ
  IsLayered nodes seen [] = Unit
  IsLayered nodes seen (l ∷ ls) =
      ((a b : K) → Memᴰ a l → Edge nodes a b → Memᴰ b seen) × IsLayered nodes (seen ++ l) ls

  -- Where the loop stands: `seen` is in layers, `left` remains.
  pub record Inv (nodes : Deps K) (seen : List K) (left : Deps K) : Type ℓ where
    pub sorted : IsSorted left
    pub real : (a b : K) → Edge left a b → Edge nodes a b
    pub unmet :
        (a b : K) (deps : BTreeSet K)
        → get a left ≡ some deps
        → Edge nodes a b
        → Memᴰ b deps ⊎ Memᴰ b seen
    pub closed : (a b : K) → Edge left a b → Memᴰ b (keys left)
    pub distinct : Distinct seen
    pub apart : (a : K) → Memᴰ a seen → ¬ Memᴰ a (keys left)
    pub cover : (a : K) → Memᴰ a (keys nodes) → Memᴰ a seen ⊎ Memᴰ a (keys left)
    pub inside : (a : K) → Memᴰ a (keys left) → Memᴰ a (keys nodes)
    pub seen_inside : (a : K) → Memᴰ a seen → Memᴰ a (keys nodes)

module _ {ℓ} {K : Type ℓ} ⦃o : Ord K⦄ (nodes : Deps K) (seen : List K) (left : Deps K)
    (inv : Inv nodes seen left) where
  unfoldable pub ready : List K
  ready = ready_nodes left

  ready_empty : (a : K) → Memᴰ a ready → get a left ≡ some []
  unfolding ready
  ready_empty a m = mem-ready_nodes a left inv.sorted m

  pub ready_inside : (a : K) → Memᴰ a ready → Memᴰ a (keys left)
  ready_inside a m = mem_keys (mem_of_get a [] left (ready_empty a m))

  pub ready_layered : (a b : K) → Memᴰ a ready → Edge nodes a b → Memᴰ b seen
  ready_layered a b m e = elim (inv.unmet a b [] (ready_empty a m) e) [
    | inl t ↦ absurd (not-Memᴰ-nil t)
    | inr s ↦ s
  ]

  ready_or_not : (a : K) → Memᴰ a ready ⊎ (¬ Memᴰ a ready)
  ready_or_not a = elim (Bool-cases (set_contains a ready)) [
    | inl e ↦ inl ((set_contains_iff a ready).0 e)
    | inr e ↦ inr (λ m. cc ((set_contains_iff a ready).1 m, e))
  ]

  old_entry :
      (a : K) (deps : BTreeSet K)
      → get a (round ready left) ≡ some deps
      → (old : BTreeSet K) × (get a left ≡ some old) × (¬ Memᴰ a ready) × (deps ≡ satisfy ready old)
  old_entry a deps e =
      let (old, t, n, q) = mem-round a deps ready left (mem_of_get a deps (round ready left) e) in
      (old, get_of_mem a old left inv.sorted t, n, q)

  old-Edge : (a b : K) → Edge (round ready left) a b → Edge left a b × (¬ Memᴰ b ready)
  old-Edge a b e =
      let (old, entry, n, q) = old_entry a e.deps e.entry in
      let (m, nb) = mem-satisfy b ready old (subst (Memᴰ b) q e.dependency) in
      (record { deps = old; entry = entry; dependency = m }, nb)

  keys_left : (a : K) → Memᴰ a (keys (round ready left)) → Memᴰ a (keys left) × (¬ Memᴰ a ready)
  keys_left a m =
      let (deps, e) = get_of_mem_keys a (round ready left) m in
      let (old, entry, n, q) = old_entry a deps e in (mem_keys (mem_of_get a old left entry), n)

  pub Inv-round : Inv nodes (seen ++ ready) (round ready left)
  Inv-round = record {
    sorted = round-IsSorted ready left inv.sorted;
    real = λ a b e. inv.real a b (old-Edge a b e).0;
    unmet = λ a b deps e edge.
        let (old, entry, n, q) = old_entry a deps e in
        elim (inv.unmet a b old entry edge) [
          | inl m ↦ elim (ready_or_not b) [
            | inl r ↦ inr (Memᴰ-append_right seen r)
            | inr nr ↦ inl (subst (Memᴰ b) (sym q) (mem-satisfy_of b ready old m nr))
          ]
          | inr s ↦ inr (Memᴰ-append_left ready s)
        ];
    closed = λ a b e.
        let (edge, nb) = old-Edge a b e in keys-round b ready left (inv.closed a b edge) nb;
    distinct =
        Distinct-append seen ready inv.distinct
          (unfold ready in ready_nodes-Distinct left inv.sorted)
          (λ a s r. inv.apart a s (ready_inside a r));
    apart = λ a m k.
        let (old, nr) = keys_left a k in
        elim (Memᴰ-append seen m) [ inl s ↦ inv.apart a s old | inr r ↦ nr r ];
    cover = λ a m. elim (inv.cover a m) [
      | inl s ↦ inl (Memᴰ-append_left ready s)
      | inr k ↦ elim (ready_or_not a) [
        | inl r ↦ inl (Memᴰ-append_right seen r)
        | inr nr ↦ inr (keys-round a ready left k nr)
      ]
    ];
    inside = λ a m. inv.inside a (keys_left a m).0;
    seen_inside = λ a m. elim (Memᴰ-append seen m) [
      | inl s ↦ inv.seen_inside a s
      | inr r ↦ inv.inside a (ready_inside a r)
    ];
  }

  pub IsStuck-of_nil : ready ≡ [] → IsStuck left
  unfolding ready
  IsStuck-of_nil e = record {
    waits = λ a deps entry q.
        not-Memᴰ-nil (subst (Memᴰ a) e (mem-ready_nodes_of a left (entry ∙ ap some q)));
    closed = inv.closed;
  }

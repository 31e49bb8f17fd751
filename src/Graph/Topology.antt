-- ===== src/Graph/Topology.antt =====
-- `topological_layers` of crates/core/src/graph.rs: the layers are an order, or there is a cycle.
use openporch.Prelude.{
  ℕ, suc, zero, ◌≤◌, false, Option, some, List, [], ◌∷◌, ◌++◌, is_nil, length, ◌≡◌, ◌≢◌, ◌⊎◌, inl,
  inr, ◌↔◌, refl, sym, ap, ◌∙◌, subst, arith, Memᴰ,
}
use mathlib.Core.List.{append-nil, append_assoc}
use openporch.Prelude.Order.{Ord}
use openporch.Prelude.Result.{Result, ok, err}
use openporch.Prelude.Distinct.{Distinct, not-Memᴰ-nil}
use openporch.Prelude.Chain.{IsCycle, IsCycle-map}
use openporch.BTreeMap.{keys}
use openporch.BTreeMap.Sorted.{IsSorted}
use openporch.Graph.Layers.{ready_nodes, layer_loop, find_cycle, layers_of, cycle_error}
use openporch.Graph.Cycle.{Edge, find_cycle-IsCycle}
use openporch.Graph.Rounds.{Deps, round}
use openporch.Graph.Ready.{length-round}
use openporch.Graph.Layering.{
  IsLayered, Inv, Inv-round, ready, ready_layered, ready_inside, IsStuck-of_nil, concat,
}

module _ {ℓ} {K : Type ℓ} ⦃o : Ord K⦄ where
  -- Every dependency is a node.
  abbrev pub IsClosed : Deps K → Type ℓ
  IsClosed nodes = (a b : K) → Edge nodes a b → Memᴰ b (keys nodes)

  -- Every node stands in exactly one layer, once, behind all of its dependencies.
  pub record IsOrder (nodes : Deps K) (seen : List K) (layers : List (List K)) : Type ℓ where
    pub layered : IsLayered nodes seen layers
    pub distinct : Distinct (seen ++ concat layers)
    pub cover : (a : K) → Memᴰ a (keys nodes) ↔ Memᴰ a (seen ++ concat layers)

  loop-stuck :
      (fuel : ℕ) (e : _) (rest : Deps K) (layers : List (List K))
      → ready_nodes (e ∷ rest) ≡ []
      → layer_loop (suc fuel) (e ∷ rest) layers ≡ cycle_error (find_cycle (e ∷ rest))
  unfolding layer_loop
  loop-stuck fuel e rest layers h = ground (arith, ap is_nil h)

  loop-next :
      (fuel : ℕ) (e : _) (rest : Deps K) (layers : List (List K))
      → is_nil (ready_nodes (e ∷ rest)) ≡ false
      → layer_loop (suc fuel) (e ∷ rest) layers
        ≡ layer_loop fuel
            (round (ready_nodes (e ∷ rest)) (e ∷ rest))
            (layers ++ ready_nodes (e ∷ rest) ∷ [])
  unfolding layer_loop
  loop-next fuel e rest layers h = ground (arith, h)

  nil_or_cons : (l : List K) → (l ≡ []) ⊎ (is_nil l ≡ false) × (l ≢ [])
  nil_or_cons [] = inl refl
  nil_or_cons (x ∷ l) = inr (refl, λ e. cc)

module _ {ℓ} {K : Type ℓ} ⦃o : Ord K⦄ (nodes : Deps K) where
  abbrev Outcome : List K → List (List K) → Option (Result (List K) (List (List K))) → Type ℓ
  Outcome seen layers r =
      ((more : List (List K)) × (r ≡ some (ok (layers ++ more))) × IsOrder nodes seen more)
      ⊎ ((c : List K) × (r ≡ some (err c)) × IsCycle (Edge nodes) c)

  finished : (seen : List K) → Inv nodes seen [] → IsOrder nodes seen []
  finished seen inv = record {
    layered = tt;
    distinct = subst Distinct (sym (append-nil seen)) inv.distinct;
    cover = λ a. (
      λ m. elim (inv.cover a m) [
        | inl s ↦ subst (Memᴰ a) (sym (append-nil seen)) s
        | inr t ↦ absurd (not-Memᴰ-nil t)
      ],
      λ m. inv.seen_inside a (subst (Memᴰ a) (append-nil seen) m),
    );
  }

  prepend :
      (seen : List K) (left : Deps K) (inv : Inv nodes seen left) (more : List (List K))
      → IsOrder nodes (seen ++ ready nodes seen left inv) more
      → IsOrder nodes seen (ready nodes seen left inv ∷ more)
  prepend seen left inv more h =
      let r = ready nodes seen left inv in
      let same : (seen ++ r) ++ concat more ≡ seen ++ (r ++ concat more) =
        append_assoc seen r (concat more) in
      record {
        layered = (ready_layered nodes seen left inv, h.layered);
        distinct = subst Distinct same h.distinct;
        cover = λ a. (
          λ m. subst (Memᴰ a) same ((h.cover a).0 m),
          λ m. (h.cover a).1 (subst (Memᴰ a) (sym same) m),
        );
      }

  loop_lem :
      (fuel : ℕ) (seen : List K) (left : Deps K) (layers : List (List K))
      → Inv nodes seen left
      → length left ≤ fuel
      → Outcome seen layers (layer_loop fuel left layers)
  unfolding ready
  loop_lem fuel seen [] layers inv h =
      inl (
        [],
        unfold layer_loop in ap (λ l. some (ok l)) (sym (append-nil layers)),
        finished seen inv,
      )
  loop_lem zero seen (e ∷ rest) layers inv h = absurd (omega arith)
  loop_lem (suc fuel) seen (e ∷ rest) layers inv h = elim (nil_or_cons (ready_nodes (e ∷ rest))) [
    | inl none_ready ↦
        let (c, found, cycle) =
          find_cycle-IsCycle (e ∷ rest) (λ q. cc)
            (IsStuck-of_nil nodes seen (e ∷ rest) inv none_ready) in
        inr (
          c,
          loop-stuck fuel e rest layers none_ready ∙ ap cycle_error found,
          IsCycle-map (Edge (e ∷ rest)) (Edge nodes) inv.real c cycle,
        )
    | inr (some_ready, n) ↦
        let r = ready_nodes (e ∷ rest) in
        let shorter = length-round r (e ∷ rest) n (ready_inside nodes seen (e ∷ rest) inv) in
        elim (loop_lem fuel (seen ++ r) (round r (e ∷ rest)) (layers ++ r ∷ [])
          (Inv-round nodes seen (e ∷ rest) inv) (omega (arith, shorter))) [
            | inl (more, result, order) ↦ inl (
              r ∷ more,
              loop-next fuel e rest layers some_ready
                  ∙ result
                  ∙ ap (λ l. some (ok l)) (append_assoc layers (r ∷ []) more),
              prepend seen (e ∷ rest) inv more order,
            )
            | inr (c, result, cycle) ↦
                inr (c, loop-next fuel e rest layers some_ready ∙ result, cycle)
          ]
  ]

  started : IsSorted nodes → IsClosed nodes → Inv nodes [] nodes
  started s closed = record {
    sorted = s;
    real = λ a b e. e;
    unmet = λ a b deps entry e.
        let same : some e.deps ≡ some deps = sym e.entry ∙ entry in
        let deps_eq : e.deps ≡ deps = cc in inl (subst (Memᴰ b) deps_eq e.dependency);
    closed = closed;
    distinct = tt;
    apart = λ a m. absurd (not-Memᴰ-nil m);
    cover = λ a m. inr m;
    inside = λ a m. m;
    seen_inside = λ a m. absurd (not-Memᴰ-nil m);
  }

  -- For nodes in the order of their keys whose dependencies are all nodes, the fuel is enough and
  -- nothing panics: either there are layers in which every node stands once and behind all of its
  -- dependencies, or the error holds nodes that each depend on the next one and end where they
  -- began.
  pub layers_of_outcome :
      IsSorted nodes
      → IsClosed nodes
      → ((layers : List (List K)) × (layers_of nodes ≡ some (ok layers)) × IsOrder nodes [] layers)
        ⊎ ((c : List K) × (layers_of nodes ≡ some (err c)) × IsCycle (Edge nodes) c)
  unfolding layers_of
  layers_of_outcome s closed = loop_lem (length nodes) [] nodes [] (started s closed) (omega arith)

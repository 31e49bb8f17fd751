-- ===== src/Graph/Acyclic.antt =====
-- `topological_layers` succeeds exactly on graphs without a cycle.
use openporch.Prelude.{
  some, List, [], ◌∷◌, ◌++◌, ◌≡◌, ◌⊎◌, inl, inr, ◌↔◌, refl, sym, subst, Memᴰ, Memᴰ-append,
  Memᴰ-append_left, Memᴰ-append_right,
}
use openporch.Prelude.Order.{Ord}
use openporch.Prelude.Result.{ok}
use openporch.Prelude.Distinct.{not-Memᴰ-nil}
use openporch.Prelude.Chain.{Chain, IsCycle}
use openporch.BTreeMap.Sorted.{IsSorted}
use openporch.BTreeMap.Members.{mem_of_get, mem_keys}
use openporch.Graph.Layers.{layers_of}
use openporch.Graph.Cycle.{Edge}
use openporch.Graph.Rounds.{Deps}
use openporch.Graph.Layering.{IsLayered, concat}
use openporch.Graph.Topology.{IsClosed, IsOrder, layers_of_outcome}

module _ {ℓ κ} {A : Type ℓ} (E : A → A → Type κ) where
  -- Every node of a path but the last has a successor on it.
  Chain-successor :
      (a : A) (l : List A) (z : A)
      → Memᴰ a l
      → Chain E (l ++ z ∷ [])
      → (b : A) × E a b × (Memᴰ b l ⊎ (b ≡ z))
  Chain-successor a [] z m c = elim m [ ]
  Chain-successor a (x ∷ []) z (Memᴰ.head e) c = (z, subst (λ y. E y z) (sym e) c.0, inr refl)
  Chain-successor a (x ∷ []) z (Memᴰ.tail m) c = elim m [ ]
  Chain-successor a (x ∷ y ∷ l) z (Memᴰ.head e) c =
      (y, subst (λ x. E x y) (sym e) c.0, inl (Memᴰ.tail (Memᴰ.head refl)))
  Chain-successor a (x ∷ y ∷ l) z (Memᴰ.tail m) c =
      let (b, e, w) = Chain-successor a (y ∷ l) z m c.1 in
      (b, e, elim w [ inl t ↦ inl (Memᴰ.tail t) | inr q ↦ inr q ])

  abbrev nodes_of : (c : List A) → IsCycle E c → List A
  nodes_of c h = h.start ∷ h.middle

  cycle-successor :
      (c : List A) (h : IsCycle E c) (a : A)
      → Memᴰ a (nodes_of c h)
      → (b : A) × E a b × Memᴰ b (nodes_of c h)
  cycle-successor c h a m =
      let (b, e, w) =
        Chain-successor a (nodes_of c h) h.start m (subst (Chain E) h.closed h.chain) in
      (b, e, elim w [ inl t ↦ t | inr q ↦ Memᴰ.head q ])

module _ {ℓ} {K : Type ℓ} ⦃o : Ord K⦄ (nodes : Deps K) where
  -- No node of a cycle can be the first to enter a layer.
  off_cycle :
      (c : List K) (h : IsCycle (Edge nodes) c) (seen : List K) (layers : List (List K))
      → IsLayered nodes seen layers
      → ((a : K) → Memᴰ a seen → ¬ Memᴰ a (nodes_of (Edge nodes) c h))
      → (a : K) → Memᴰ a (seen ++ concat layers)
      → ¬ Memᴰ a (nodes_of (Edge nodes) c h)
  off_cycle c h seen [] l off a m on = elim (Memᴰ-append seen m) [
    | inl s ↦ off a s on
    | inr t ↦ not-Memᴰ-nil t
  ]
  off_cycle c h seen (layer ∷ layers) l off a m on = elim (Memᴰ-append seen m) [
    | inl s ↦ off a s on
    | inr t ↦
        off_cycle c h (seen ++ layer) layers l.1
          (λ x mx onx. elim (Memᴰ-append seen mx) [
            | inl s ↦ off x s onx
            | inr y ↦
                let (b, e, onb) = cycle-successor (Edge nodes) c h x onx in off b (l.0 x b y e) onb
          ])
          a (regroup seen layer (concat layers) a (Memᴰ-append_right seen t)) on
  ]
    where
      regroup : (xs ys zs : List K) (a : K) → Memᴰ a (xs ++ (ys ++ zs)) → Memᴰ a ((xs ++ ys) ++ zs)
      regroup xs ys zs a m = elim (Memᴰ-append xs m) [
        | inl x ↦ Memᴰ-append_left zs (Memᴰ-append_left ys x)
        | inr r ↦ elim (Memᴰ-append ys r) [
          | inl y ↦ Memᴰ-append_left zs (Memᴰ-append_right xs y)
          | inr z ↦ Memᴰ-append_right (xs ++ ys) z
        ]
      ]

  ordered_acyclic :
      (layers : List (List K)) → IsOrder nodes [] layers → ¬ ((c : List K) × IsCycle (Edge nodes) c)
  ordered_acyclic layers order (c, h) =
      let (b, e, m) = cycle-successor (Edge nodes) c h h.start (Memᴰ.head refl) in
      let entry = mem_keys (mem_of_get h.start e.deps nodes e.entry) in
      off_cycle c h [] layers order.layered (λ a s. absurd (not-Memᴰ-nil s)) h.start
        ((order.cover h.start).0 entry) (Memᴰ.head refl)

  -- For nodes in the order of their keys whose dependencies are all nodes, there are layers
  -- exactly when no nodes depend on one another in a cycle.
  pub layers_of-ok_iff :
      IsSorted nodes
      → IsClosed nodes
      → ((layers : List (List K)) × (layers_of nodes ≡ some (ok layers)))
        ↔ (¬ ((c : List K) × IsCycle (Edge nodes) c))
  layers_of-ok_iff s closed = elim (layers_of_outcome nodes s closed) [
    | inl (layers, result, order) ↦ (λ _. ordered_acyclic layers order, λ _. (layers, result))
    | inr (c, failed, cycle) ↦ (λ (layers, result). absurd (cc), λ none. absurd (none (c, cycle)))
  ]

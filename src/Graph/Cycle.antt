-- ===== src/Graph/Cycle.antt =====
-- What `find_cycle` of crates/core/src/graph.rs finds.
use openporch.Prelude.{
  true, false, ℕ, suc, zero, ◌+◌, ◌≤◌, none, some, List, [], ◌∷◌, ◌++◌, length, drop, get_elem?,
  length-append, ◌≡◌, ◌≢◌, refl, sym, ap, ◌∙◌, subst, arith, Memᴰ, Memᴰ-append, inl, inr,
  Option-cases, if◌then◌else◌, Bool-cases, Memᴰ-append_right,
}
use openporch.Prelude.Order.{Ord, ◌==◌, eq_iff}
use openporch.Prelude.Distinct.{
  Distinct, Distinct-snoc, length-le_of_Distinct, not-Memᴰ-nil, Memᴰ-cons_cases, drop-append_le,
  drop-eq_cons, get_elem?-lt, get_elem?-append_left, get_elem?-snoc,
}
use openporch.Prelude.Chain.{Chain, Chain-snoc, Chain-drop, IsCycle}
use openporch.BTreeMap.{BTreeMap, BTreeSet, keys, get, insert}
use openporch.BTreeMap.Laws.{get-insert}
use openporch.BTreeMap.Members.{get_of_mem_keys}
use openporch.Graph.Layers.{first_dependency, walk, find_cycle}

module _ {ℓ} {K : Type ℓ} ⦃o : Ord K⦄ where
  -- `a` waits for `b`.
  pub record Edge (remaining : BTreeMap K (BTreeSet K)) (a b : K) : Type ℓ where
    pub deps : BTreeSet K
    pub entry : get a remaining ≡ some deps
    pub dependency : Memᴰ b deps

  -- Every node waits for something, and only for nodes that are there.
  pub record IsStuck (remaining : BTreeMap K (BTreeSet K)) : Type ℓ where
    pub waits : (a : K) (deps : BTreeSet K) → get a remaining ≡ some deps → deps ≢ []
    pub closed : (a b : K) → Edge remaining a b → Memᴰ b (keys remaining)

  length-keys : (m : BTreeMap K (BTreeSet K)) → length (keys m) ≡ length m
  length-keys [] = refl
  length-keys (e ∷ m) = ap suc (length-keys m)

  placed-step :
      (path : List K) (seen : BTreeMap K ℕ) (next a : K) (i : ℕ)
      → ((j : ℕ) → get a seen ≡ some j → get_elem? path j ≡ some a)
      → (if a == next then some (length path) else get a seen) ≡ some i
      → get_elem? (path ++ next ∷ []) i ≡ some a
  placed-step path seen next a i placed q = elim (Bool-cases (a == next)) [
    | inl t ↦
        let here : some (length path) ≡ some i = rw t at q in
        let same : i ≡ length path = cc in rw (same, (eq_iff a next).0 t) (get_elem?-snoc path next)
    | inr f ↦ get_elem?-append_left i path (next ∷ []) a (placed i (rw f at q))
  ]

  all_seen-step :
      (path : List K) (seen : BTreeMap K ℕ) (next a : K)
      → (Memᴰ a path → get a seen ≢ none)
      → Memᴰ a (path ++ next ∷ [])
      → (if a == next then some (length path) else get a seen) ≢ none
  all_seen-step path seen next a old m q = elim (Bool-cases (a == next)) [
    | inl t ↦ let here : some (length path) ≡ none = rw t at q in cc
    | inr f ↦ elim (Memᴰ-append path m) [
      | inl l ↦ old l (rw f at q)
      | inr r ↦ elim (Memᴰ-cons_cases r) [
        | inl e ↦ let bad : true ≡ false = rw ((eq_iff a next).1 e) at f in cc
        | inr t ↦ not-Memᴰ-nil t
      ]
    ]
  ]

module _ {ℓ} {K : Type ℓ} ⦃o : Ord K⦄ (remaining : BTreeMap K (BTreeSet K))
    (stuck : IsStuck remaining) where
  next_of :
      (a : K)
      → Memᴰ a (keys remaining)
      → (b : K) × (first_dependency remaining a ≡ some b) × Edge remaining a b
  unfolding first_dependency
  next_of a m = let (deps, e) = get_of_mem_keys a remaining m in go deps e
    where
      go :
          (deps : BTreeSet K)
          → get a remaining ≡ some deps
          → (b : K) × (first_dependency remaining a ≡ some b) × Edge remaining a b
      go [] e = absurd (stuck.waits a [] e refl)
      go (b ∷ deps) e =
          (b, rw e, record { deps = b ∷ deps; entry = e; dependency = Memᴰ.head refl })

  -- The variables of the loop: `current` ends the path, and `seen` has the place of each node.
  record Inv (path : List K) (seen : BTreeMap K ℕ) (current : K) : Type ℓ where
    front : List K
    ends : path ≡ front ++ current ∷ []
    distinct : Distinct path
    inside : (a : K) → Memᴰ a path → Memᴰ a (keys remaining)
    chain : Chain (Edge remaining) path
    placed : (a : K) (i : ℕ) → get a seen ≡ some i → get_elem? path i ≡ some a
    all_seen : (a : K) → Memᴰ a path → get a seen ≢ none

  Memᴰ-last : (front : List K) (current : K) → Memᴰ current (front ++ current ∷ [])
  Memᴰ-last front current = Memᴰ-append_right front (Memᴰ.head refl)

  extended-Chain :
      (path : List K) (seen : BTreeMap K ℕ) (current next : K)
      → Inv path seen current
      → Edge remaining current next
      → Chain (Edge remaining) (path ++ next ∷ [])
  extended-Chain path seen current next inv e =
      subst (λ p. Chain (Edge remaining) (p ++ next ∷ [])) (sym inv.ends)
        (Chain-snoc (Edge remaining) inv.front current next
          (subst (Chain (Edge remaining)) inv.ends inv.chain) e)

  IsCycle-at :
      (path : List K) (seen : BTreeMap K ℕ) (current next : K) (i : ℕ)
      → Inv path seen current
      → Edge remaining current next
      → get next seen ≡ some i
      → IsCycle (Edge remaining) (drop i path ++ next ∷ [])
  IsCycle-at path seen current next i inv e s =
      let at : get_elem? path i ≡ some next = inv.placed next i s in
      let le : i ≤ length path = omega (arith, get_elem?-lt i path next at) in
      record {
        start = next;
        middle = drop (suc i) path;
        closed = ap (λ l. l ++ next ∷ []) (drop-eq_cons i path next at);
        chain = subst (Chain (Edge remaining)) (drop-append_le i path (next ∷ []) le) (
            Chain-drop (Edge remaining) i (path ++ next ∷ [])
              (extended-Chain path seen current next inv e));
      }

  Inv-step :
      (path : List K) (seen : BTreeMap K ℕ) (current next : K)
      → Inv path seen current
      → Edge remaining current next
      → get next seen ≡ none
      → Inv (path ++ next ∷ []) (insert next (length path) seen) next
  Inv-step path seen current next inv e s = record {
    front = path;
    ends = refl;
    distinct = Distinct-snoc path next inv.distinct (λ m. inv.all_seen next m s);
    inside = λ a m. elim (Memᴰ-append path m) [
      | inl l ↦ inv.inside a l
      | inr r ↦ elim (Memᴰ-cons_cases r) [
        | inl q ↦ subst (λ x. Memᴰ x (keys remaining)) (sym q) (stuck.closed current next e)
        | inr t ↦ absurd (not-Memᴰ-nil t)
      ]
    ];
    chain = extended-Chain path seen current next inv e;
    placed = λ a i q.
        placed-step path seen next a i (λ j t. inv.placed a j t)
          (sym (get-insert next a (length path) seen) ∙ q);
    all_seen = λ a m q.
        all_seen-step path seen next a (inv.all_seen a) m
          (sym (get-insert next a (length path) seen) ∙ q);
  }

  walk-extend :
      (fuel : ℕ) (path : List K) (seen : BTreeMap K ℕ) (current next : K)
      → first_dependency remaining current ≡ some next
      → get next seen ≡ none
      → walk (suc fuel) remaining path seen current
        ≡ walk fuel remaining (path ++ next ∷ []) (insert next (length path) seen) next
  unfolding walk
  walk-extend fuel path seen current next first new = ground (arith, first, new)

  walk-close :
      (fuel : ℕ) (path : List K) (seen : BTreeMap K ℕ) (current next : K) (i : ℕ)
      → first_dependency remaining current ≡ some next
      → get next seen ≡ some i
      → walk (suc fuel) remaining path seen current ≡ some (drop i path ++ next ∷ [])
  unfolding walk
  walk-close fuel path seen current next i first old = ground (arith, first, old)

  walk_lem :
      (fuel : ℕ) (path : List K) (seen : BTreeMap K ℕ) (current : K)
      → Inv path seen current
      → length path + fuel ≡ suc (length remaining)
      → (c : List K) × (walk fuel remaining path seen current ≡ some c) × IsCycle (Edge remaining) c
  walk_lem zero path seen current inv h = absurd (
      omega (
        arith,
        h,
        length-keys remaining,
        length-le_of_Distinct path (keys remaining) inv.distinct inv.inside,
      ))
  walk_lem (suc fuel) path seen current inv h =
      let here : Memᴰ current path =
        subst (Memᴰ current) (sym inv.ends) (Memᴰ-last inv.front current) in
      let (next, first, e) = next_of current (inv.inside current here) in
      elim (Option-cases (get next seen)) [
        | inl new ↦
            let (c, found, cycle) =
              walk_lem fuel (path ++ next ∷ []) (insert next (length path) seen) next
                (Inv-step path seen current next inv e new)
                (omega (arith, h, length-append path (next ∷ []))) in
            (c, walk-extend fuel path seen current next first new ∙ found, cycle)
        | inr (i, old) ↦ (
          drop i path ++ next ∷ [],
          walk-close fuel path seen current next i first old,
          IsCycle-at path seen current next i inv e old,
        )
      ]

module _ {ℓ} {K : Type ℓ} ⦃o : Ord K⦄ where
  first_path-Inv :
      (start : K) (deps : BTreeSet K) (rest : BTreeMap K (BTreeSet K))
      (stuck : IsStuck ((start, deps) ∷ rest))
      → Inv ((start, deps) ∷ rest) stuck (start ∷ []) (insert start 0 []) start
  unfolding insert get
  first_path-Inv start deps rest stuck = record {
    front = [];
    ends = refl;
    distinct = (not-Memᴰ-nil, tt);
    inside =
        λ a m. elim (Memᴰ-cons_cases m) [ inl e ↦ Memᴰ.head e | inr t ↦ absurd (not-Memᴰ-nil t) ];
    chain = tt;
    placed = λ a i q. ground (arith, eq_iff a start);
    all_seen = λ a m q. elim (Memᴰ-cons_cases m) [
      | inl e ↦ ground (arith, (eq_iff a start).1 e)
      | inr t ↦ not-Memᴰ-nil t
    ];
  }

  -- Where every node waits for something, and only for nodes that are there, `find_cycle` does
  -- not panic, its fuel is enough, and the nodes that it returns wait each for the next one and
  -- end where they began.
  pub find_cycle-IsCycle :
      (remaining : BTreeMap K (BTreeSet K))
      → remaining ≢ []
      → IsStuck remaining
      → (c : List K) × (find_cycle remaining ≡ some c) × IsCycle (Edge remaining) c
  unfolding find_cycle
  find_cycle-IsCycle [] n stuck = absurd (n refl)
  find_cycle-IsCycle ((start, deps) ∷ rest) n stuck =
      walk_lem ((start, deps) ∷ rest) stuck (suc (length rest)) (start ∷ []) (insert start 0 [])
        start (first_path-Inv start deps rest stuck) (omega arith)

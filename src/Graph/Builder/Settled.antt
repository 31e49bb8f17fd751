-- ===== src/Graph/Builder/Settled.antt =====
-- When a round of `Builder::match_dependents` adds no edge, every dependent of a co-provisioned
-- resource's source depends on the resource.
use openporch.Prelude.{
  Bool, true, false, not, ◌&&◌, List, [], ◌∷◌, some, map, keep, All, All-Memᴰ, Memᴰ, Memᴰ-keep_of,
  ◌≡◌, ◌≢◌, sym, ap, ◌∙◌, subst, inl, inr, arith, Option-cases,
}
use openporch.Prelude.Order.{◌==◌, eq_iff}
use openporch.BTreeMap.{BTreeMap, get, insert, set_insert, set_contains, values}
use openporch.BTreeMap.Again.{set_insert_again, insert_again}
use openporch.BTreeMap.Members.{mem_of_get, set_contains_iff}
use openporch.Ids.{Descriptor}
use openporch.Ids.Types.{descriptor_ord}
use openporch.Graph.Builder.Types.{GraphInput, Node, CoProvision, Builder}
use openporch.Graph.Builder.Request.{edge}
use openporch.Graph.Builder.Dependents.{consumers, add_consumers, one_round}
use openporch.Graph.Builder.Valid.{Ids, IsValid}

-- The graph has an edge.
abbrev pub HasEdge : Builder → Descriptor → Descriptor → Type 0
HasEdge b from to = (n : Node) × (get from b.nodes ≡ some n) × Memᴰ to n.depends_on

-- What depends on the source of a co-provisioned resource with `match_dependents` depends on the
-- resource too, but for the source and the resource themselves.
abbrev pub MatchesDependents : Builder → Type 0
MatchesDependents b =
    (c : CoProvision) (d : Descriptor) (n : Node)
    → Memᴰ c b.co
    → c.match_dependents ≡ true
    → get d b.nodes ≡ some n
    → Memᴰ c.source n.depends_on
    → d ≢ c.co
    → d ≢ c.source
    → Memᴰ c.co n.depends_on

module _ (input : GraphInput) (ids : Ids) where
  -- An edge that is not new is there, and the builder stays as it is.
  edge-old :
      (from to : Descriptor) (b b' : Builder)
      → IsValid input ids b
      → edge from to b ≡ some (b', false)
      → (b' ≡ b) × HasEdge b from to
  unfolding edge
  edge-old from to b b' v h = elim (Option-cases (get from b.nodes)) [
    | inl n ↦ absurd (let bad = rw (edge, n) at h in cc)
    | inr (node, n) ↦
        let steps = rw (edge, n) at h in
        let there : set_contains to node.depends_on ≡ true = ground arith in
        let sorted = (v.nodes.each from node n).sorted in
        let same : record node { depends_on = set_insert to node.depends_on } ≡ node =
          λ i. record node { depends_on = set_insert_again to node.depends_on sorted there i } in
        let kept : insert from (record node { depends_on = set_insert to node.depends_on }) b.nodes
            ≡ b.nodes =
          ap (λ x. insert from x b.nodes) same ∙ insert_again from node b.nodes v.nodes.sorted n in
        let result : record b {
          nodes = insert from (record node { depends_on = set_insert to node.depends_on }) b.nodes;
        }
            ≡ b' =
          cc in
        (
          sym result ∙ (λ i. record b { nodes = kept i }),
          (node, n, (set_contains_iff to node.depends_on).0 there),
        )
  ]

  -- Once an edge is new, the round has added one.
  add_consumers-added :
      (co : Descriptor) (ds : List Descriptor) (b b' : Builder) (added' : Bool)
      → add_consumers co ds b true ≡ some (b', added')
      → added' ≡ true
  unfolding add_consumers
  add_consumers-added co [] b b' added' h = cc
  add_consumers-added co (d ∷ ds) b b' added' h = elim (Option-cases (edge d co b)) [
    | inl n ↦ absurd (let bad = rw (add_consumers, n) at h in cc)
    | inr ((b1, new), e) ↦ add_consumers-added co ds b1 b' added' (rw (add_consumers, e) at h)
  ]

  one_round-added :
      (cs : List CoProvision) (b b' : Builder) (added' : Bool)
      → one_round cs b true ≡ some (b', added')
      → added' ≡ true
  unfolding one_round
  one_round-added [] b b' added' h = cc
  one_round-added (c ∷ cs) b b' added' h =
      elim (Option-cases (add_consumers c.co (consumers c b.nodes) b true)) [
        | inl n ↦ absurd (let bad = rw (one_round, n) at h in cc)
        | inr ((b1, more), e) ↦
            let flag = add_consumers-added c.co (consumers c b.nodes) b b1 more e in
            one_round-added cs b1 b' added' (
              subst (λ (x : Bool). one_round cs b1 x ≡ some (b', added')) flag
                (rw (one_round, e) at h))
      ]

  add_consumers-old :
      (co : Descriptor) (ds : List Descriptor) (b b' : Builder)
      → IsValid input ids b
      → add_consumers co ds b false ≡ some (b', false)
      → (b' ≡ b) × All (λ d. HasEdge b d co) ds
  unfolding add_consumers
  add_consumers-old co [] b b' v h = (cc, tt)
  add_consumers-old co (d ∷ ds) b b' v h = elim (Option-cases (edge d co b)) [
    | inl n ↦ absurd (let bad = rw (add_consumers, n) at h in cc)
    | inr ((b1, true), e) ↦
        absurd (let q = add_consumers-added co ds b1 b' false (rw (add_consumers, e) at h) in cc)
    | inr ((b1, false), e) ↦
        let (same, there) = edge-old d co b b1 v e in
        let rest : add_consumers co ds b false ≡ some (b', false) =
          subst (λ x. add_consumers co ds x false ≡ some (b', false)) same
            (rw (add_consumers, e) at h) in
        let (q, all) = add_consumers-old co ds b b' v rest in (q, (there, all))
  ]

  -- The consumers of a co-provisioned resource in a graph whose round adds no edge.
  one_round-old :
      (cs : List CoProvision) (b b' : Builder)
      → IsValid input ids b
      → one_round cs b false ≡ some (b', false)
      → (b' ≡ b) × All (λ c. All (λ d. HasEdge b d c.co) (consumers c b.nodes)) cs
  unfolding one_round
  one_round-old [] b b' v h = (cc, tt)
  one_round-old (c ∷ cs) b b' v h =
      elim (Option-cases (add_consumers c.co (consumers c b.nodes) b false)) [
        | inl n ↦ absurd (let bad = rw (one_round, n) at h in cc)
        | inr ((b1, true), e) ↦
            absurd (let q = one_round-added cs b1 b' false (rw (one_round, e) at h) in cc)
        | inr ((b1, false), e) ↦
            let (same, there) = add_consumers-old c.co (consumers c b.nodes) b b1 v e in
            let rest : one_round cs b false ≡ some (b', false) =
              subst (λ x. one_round cs x false ≡ some (b', false)) same (rw (one_round, e) at h) in
            let (q, all) = one_round-old cs b b' v rest in (q, (there, all))
      ]

  values_of_mem :
      (d : Descriptor) (n : Node) (nodes : BTreeMap Descriptor Node)
      → Memᴰ (d, n) nodes
      → Memᴰ n (values nodes)
  values_of_mem d n [] m = elim m [ ]
  values_of_mem d n (e ∷ nodes) (Memᴰ.head q) = Memᴰ.head (ap (λ x. x.1) q)
  values_of_mem d n (e ∷ nodes) (Memᴰ.tail m) = Memᴰ.tail (values_of_mem d n nodes m)

  mem_map : {A B : Type 0} (f : A → B) {a : A} (xs : List A) → Memᴰ a xs → Memᴰ (f a) (map f xs)
  mem_map f [] m = elim m [ ]
  mem_map f (x ∷ xs) (Memᴰ.head q) = Memᴰ.head (ap f q)
  mem_map f (x ∷ xs) (Memᴰ.tail m) = Memᴰ.tail (mem_map f xs m)

  consumers-mem :
      (c : CoProvision) (d : Descriptor) (n : Node) (b : Builder)
      → IsValid input ids b
      → get d b.nodes ≡ some n
      → Memᴰ c.source n.depends_on
      → d ≢ c.co
      → d ≢ c.source
      → Memᴰ d (consumers c b.nodes)
  unfolding consumers
  consumers-mem c d n b v h m x y =
      let own = (v.nodes.each d n h).own in
      let test : (set_contains c.source n.depends_on
            && not (n.descriptor == c.co)
            && not (n.descriptor == c.source))
          ≡ true =
        ground (
          arith,
          own,
          eq_iff n.descriptor c.co,
          eq_iff n.descriptor c.source,
          (set_contains_iff c.source n.depends_on).1 m,
          x,
          y,
        ) in
      subst (λ k. Memᴰ k (consumers c b.nodes)) own
        (mem_map (λ k. k.descriptor) _
          (Memᴰ-keep_of _ (values_of_mem d n b.nodes (mem_of_get d n b.nodes h)) test))

  pub settled-MatchesDependents :
      (b b' : Builder)
      → IsValid input ids b
      → one_round (keep (λ c. c.match_dependents) b.co) b false ≡ some (b', false)
      → MatchesDependents b'
  settled-MatchesDependents b b' v h =
      let (same, all) = one_round-old (keep (λ c. c.match_dependents) b.co) b b' v h in
      subst MatchesDependents (sym same) (λ c d n m on found dep x y.
        let edges =
          All-Memᴰ (λ e. All (λ d. HasEdge b d e.co) (consumers e b.nodes)) all
            (Memᴰ-keep_of (λ e. e.match_dependents) m on) in
        let (n', found', there) =
          All-Memᴰ (λ d. HasEdge b d c.co) edges (consumers-mem c d n b v found dep x y) in
        let q : n' ≡ n = cc in subst (λ k. Memᴰ c.co k.depends_on) q there)

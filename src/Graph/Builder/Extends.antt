-- ===== src/Graph/Builder/Extends.antt =====
-- What every operation of the graph builder keeps of a graph.
use openporch.Prelude.{
  Str, Bool, [], ◌∷◌, ◌++◌, Option, none, some, Memᴰ, Memᴰ-append_left, Memᴰ-append_right, ◌≡◌, ◌⊎◌,
  refl, sym, ap, ◌∙◌, subst, inl, inr, arith, Bool-cases, Option-cases,
}
use openporch.Prelude.Order.{◌==◌, eq_iff, eq_refl, str_ord}
use openporch.Prelude.Result.{ok, err, Result-cases, ok_inj}
use openporch.BTreeMap.{BTreeMap, get, insert, set_insert}
use openporch.BTreeMap.Laws.{is_some, get-insert}
use openporch.BTreeMap.Sets.{set_contains-set_insert}
use openporch.BTreeMap.Members.{set_contains_iff}
use openporch.Ids.{Descriptor}
use openporch.Ids.Types.{descriptor_ord}
use openporch.Placeholder.Json.{Value}
use openporch.Criteria.Select.{select_definition}
use openporch.Graph.Builder.Types.{GraphInput, Node, CoProvision, Builder, Build, ◌>>=◌, has_class}
use openporch.Graph.Builder.Request.{
  request, request_again, request_first, new_node, put_node, add_request, resource_type, context_of,
  edge,
}
use openporch.Graph.Builder.Expand.{add_edge}
use openporch.Graph.Builder.Valid.{Has}
use openporch.Graph.Builder.Settled.{HasEdge}

-- The new builder has the edges of the old one, its nodes with their definitions, its co-provisioned
-- resources, and in its queue what was there and every node that is new.
pub record Extends (old new : Builder) : Type 0 where
  pub edges : (from to : Descriptor) → HasEdge old from to → HasEdge new from to
  pub fresh : (d : Descriptor) → Has new.nodes d → Has old.nodes d ⊎ Memᴰ d new.queue
  pub queue : (d : Descriptor) → Memᴰ d old.queue → Memᴰ d new.queue
  pub same :
      (d : Descriptor) (n : Node)
      → get d old.nodes ≡ some n
      → (n' : Node) × (get d new.nodes ≡ some n') × (n'.definition ≡ n.definition)
  pub co : (c : CoProvision) → Memᴰ c old.co → Memᴰ c new.co

pub Extends-refl : (b : Builder) → Extends b b
Extends-refl b = record {
  edges = λ x y h. h;
  fresh = λ d h. inl h;
  queue = λ d m. m;
  same = λ d n h. (n, h, refl);
  co = λ c m. m;
}

pub Extends-trans : (a b c : Builder) → Extends a b → Extends b c → Extends a c
Extends-trans a b c f g = record {
  edges = λ x y h. g.edges x y (f.edges x y h);
  fresh = λ d h. elim (g.fresh d h) [
    | inr m ↦ inr m
    | inl k ↦ elim (f.fresh d k) [ inl i ↦ inl i | inr m ↦ inr (g.queue d m) ]
  ];
  queue = λ d m. g.queue d (f.queue d m);
  same = λ d n h.
      let (n1, h1, e1) = f.same d n h in let (n2, h2, e2) = g.same d n1 h1 in (n2, h2, e2 ∙ e1);
  co = λ x m. g.co x (f.co x m);
}

-- Where the operation succeeds, it extends the builder and `P` holds of the result.
abbrev pub Reaches : Builder → (Builder → Type 0) → Build Builder → Type 0
Reaches b P m = (b' : Builder) → m ≡ some (ok b') → Extends b b' × P b'

pub Reaches-bind :
    (b : Builder) (P Q : Builder → Type 0) (m : Build Builder) (f : Builder → Build Builder)
    → Reaches b P m
    → ((b1 : Builder) → Extends b b1 → P b1 → Reaches b1 Q (f b1))
    → Reaches b Q (m >>= f)
Reaches-bind b P Q none f h k b' e = absurd (cc)
Reaches-bind b P Q (some (err x)) f h k b' e = absurd (cc)
Reaches-bind b P Q (some (ok b1)) f h k b' e =
    let (g, p) = h b1 refl in let (g', q) = k b1 g p b' e in (Extends-trans b b1 b' g g', q)

-- An operation that first computes a value.
pub Reaches-after :
    {A : Type 0} (b : Builder) (Q : Builder → Type 0) (m : Build A) (f : A → Build Builder)
    → ((a : A) → m ≡ some (ok a) → Reaches b Q (f a))
    → Reaches b Q (m >>= f)
Reaches-after b Q none f k b' e = absurd (cc)
Reaches-after b Q (some (err x)) f k b' e = absurd (cc)
Reaches-after b Q (some (ok a)) f k b' e = k a refl b' e

module _ (b : Builder) (d : Descriptor) (n' : Node)
    (explicit : BTreeMap Descriptor (Str × Str)) where
  abbrev put : Builder
  put = record b { nodes = insert d n' b.nodes; explicit = explicit }

  put-edges :
      (n : Node)
      → get d b.nodes ≡ some n
      → ((y : Descriptor) → Memᴰ y n.depends_on → Memᴰ y n'.depends_on)
      → (from to : Descriptor) → HasEdge b from to
      → HasEdge put from to
  put-edges n h more from to (m, found, dep) = elim (Bool-cases (from == d)) [
    | inl e ↦
        let q : m ≡ n = ground (arith, (eq_iff from d).0 e) in
        (
          n',
          get-insert d from n' b.nodes ∙ rw e refl,
          more to (subst (λ k. Memᴰ to k.depends_on) q dep),
        )
    | inr x ↦ (m, get-insert d from n' b.nodes ∙ rw x found, dep)
  ]

  pub put-Extends :
      (n : Node)
      → get d b.nodes ≡ some n
      → n'.definition ≡ n.definition
      → ((y : Descriptor) → Memᴰ y n.depends_on → Memᴰ y n'.depends_on)
      → Extends b put
  put-Extends n h e more = record {
    edges = put-edges n h more;
    fresh = λ x k. inl (ground (arith, get-insert d x n' b.nodes, k, h, eq_iff x d));
    queue = λ x m. m;
    same = λ x m found. elim (Bool-cases (x == d)) [
      | inl q ↦
          let p : m ≡ n = ground (arith, (eq_iff x d).0 q) in
          (n', get-insert d x n' b.nodes ∙ rw q refl, e ∙ ap (λ k. k.definition) (sym p))
      | inr q ↦ (m, get-insert d x n' b.nodes ∙ rw q found, refl)
    ];
    co = λ c m. m;
  }

-- An edge that is put is there.
pub edge-Reaches :
    (from to : Descriptor) (b b' : Builder) (new : Bool)
    → edge from to b ≡ some (b', new)
    → Extends b b' × HasEdge b' from to
unfolding edge
edge-Reaches from to b b' new h = elim (Option-cases (get from b.nodes)) [
  | inl n ↦ absurd (let bad = rw (edge, n) at h in cc)
  | inr (node, n) ↦
      let node' : Node = record node { depends_on = set_insert to node.depends_on } in
      let result : record b { nodes = insert from node' b.nodes } ≡ b' =
        ap (λ o. elim o [ none ↦ b | some (x, y) ↦ x ]) (rw (edge, n) at h) in
      let within = λ (y : Descriptor) (m : Memᴰ y node.depends_on).
        (set_contains_iff y (set_insert to node.depends_on)).0 (
          ground (
            arith,
            set_contains-set_insert y to node.depends_on,
            (set_contains_iff y node.depends_on).1 m,
          )) in
      let self : Memᴰ to (set_insert to node.depends_on) =
        (set_contains_iff to (set_insert to node.depends_on)).0
          (ground (arith, set_contains-set_insert to to node.depends_on, eq_refl to)) in
      subst (λ x. Extends b x × HasEdge x from to) result
        (
          put-Extends b from node' b.explicit node n refl within,
          (node', get-insert from from node' b.nodes ∙ rw (eq_refl from) refl, self),
        )
]

pub add_edge-Reaches :
    (from to : Descriptor) (b : Builder) → Reaches b (λ b'. HasEdge b' from to) (add_edge from to b)
add_edge-Reaches from to b b' h = elim (Option-cases (edge from to b)) [
  | inl n ↦ absurd (let bad = rw (add_edge, n) at h in cc)
  | inr ((b1, new), e) ↦
      let result : b1 ≡ b' = ap (λ m. elim m [ some (ok x) ↦ x | _ ↦ b ]) (rw (add_edge, e) at h) in
      subst (λ x. Extends b x × HasEdge x from to) result (edge-Reaches from to b b1 new e)
]

-- A node that is new is put at the end of the queue.
new-Extends :
    (b : Builder) (d : Descriptor) (n' : Node) (explicit : BTreeMap Descriptor (Str × Str))
    → get d b.nodes ≡ none
    → Extends b
        (record b { nodes = insert d n' b.nodes; explicit = explicit; queue = b.queue ++ d ∷ [] })
new-Extends b d n' explicit n =
    let still = λ (x : Descriptor) (m : Node) (found : get x b.nodes ≡ some m).
      elim (Bool-cases (x == d)) as (λ _. get x (insert d n' b.nodes) ≡ some m) [
        | inl q ↦ absurd (let bad = ap (λ k. get k b.nodes) ((eq_iff x d).0 q) in cc)
        | inr q ↦ get-insert d x n' b.nodes ∙ rw q found
      ] in
    record {
      edges = λ x y (m, found, dep). (m, still x m found, dep);
      fresh = λ x k. elim (Bool-cases (x == d)) [
        | inl q ↦ inr (Memᴰ-append_right b.queue (Memᴰ.head ((eq_iff x d).0 q)))
        | inr q ↦ inl (ground (arith, get-insert d x n' b.nodes, k, q))
      ];
      queue = λ x m. Memᴰ-append_left _ m;
      same = λ x m found. (m, still x m found, refl);
      co = λ c m. m;
    }

module _ (canonical : Value → Str) (d : Descriptor) (path : Str) where
  again-Extends :
      (params : Option Value) (b b' : Builder) (n : Node)
      → get d b.nodes ≡ some n
      → request_again canonical d path params n b ≡ ok b'
      → Extends b b'
  unfolding request_again add_request put_node
  again-Extends none b b' n found h =
      subst (Extends b) (ok_inj h) (put-Extends b d _ b.explicit n found refl (λ y m. m))
  again-Extends (some p) b b' n found h = elim (Option-cases (get d b.explicit)) [
    | inl e ↦
        subst (Extends b) (ok_inj (rw (request_again, e) at h))
          (put-Extends b d _ _ n found refl (λ y m. m))
    | inr ((first, existing), e) ↦ elim (Bool-cases (existing == canonical p)) [
      | inl q ↦
          subst (Extends b) (ok_inj (rw (request_again, e, q) at h))
            (put-Extends b d _ b.explicit n found refl (λ y m. m))
      | inr q ↦ absurd (let bad = rw (request_again, e, q) at h in cc)
    ]
  ]

  first-Extends :
      (input : GraphInput) (params : Option Value) (b b' : Builder)
      → get d b.nodes ≡ none
      → request_first canonical input d path params b ≡ ok b'
      → Extends b b'
  unfolding request_first new_node
  first-Extends input params b b' n h =
      elim (Result-cases (select_definition input.definitions (context_of input d))) [
        | inl (x, e) ↦ absurd (let bad = rw (request_first, e) at h in cc)
        | inr (def, e) ↦
            subst (Extends b) (ok_inj (rw (request_first, e) at h)) (new-Extends b d _ _ n)
      ]

  pub request-Reaches :
      (input : GraphInput) (params : Option Value) (b : Builder)
      → Reaches b (λ b'. Unit) (some (request canonical input d path params b))
  unfolding request
  request-Reaches input params b b' e =
      let h : request canonical input d path params b ≡ ok b' = cc in
      elim (Bool-cases (is_some (resource_type input d.ty))) [
        | inr k ↦ absurd (let bad = rw (request, k) at h in cc)
        | inl k ↦ elim (Bool-cases (has_class input.classes d.ty d.class)) [
          | inr q ↦ absurd (let bad = rw (request, k, q) at h in cc)
          | inl q ↦ elim (Option-cases (get d b.nodes)) [
            | inl n ↦ (first-Extends input params b b' n (rw (request, k, q, n) at h), tt)
            | inr (node, n) ↦ (again-Extends params b b' node n (rw (request, k, q, n) at h), tt)
          ]
        ]
      ]

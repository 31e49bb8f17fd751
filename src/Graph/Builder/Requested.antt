-- ===== src/Graph/Builder/Requested.antt =====
-- `Builder::request` and `Builder::edge` keep the builder valid and do not panic.
use Prim.Native.Nat.{Ordering}
use openporch.Prelude.{
  ℕ, suc, ◌+◌, Bool, false, length, length-append, if◌then◌else◌, ap, Str, true, List, [], ◌∷◌,
  ◌++◌, Option, none, some, find, All, All-append, ◌≡◌, refl, sym, ◌∙◌, subst, inl, inr, arith,
  Bool-cases, Option-cases,
}
use openporch.Prelude.Order.{◌==◌, eq_iff, str_ord, str_cmp}
use openporch.Prelude.Result.{ok, Result-cases}
use openporch.BTreeMap.{BTreeMap, get, insert, set_insert, contains_key}
use openporch.BTreeMap.Length.{length-insert}
use openporch.BTreeMap.Sets.{IsSortedSet, set_insert-IsSortedSet}
use openporch.BTreeMap.Laws.{is_some, contains_key-get}
use openporch.Ids.{Descriptor}
use openporch.Ids.Types.{descriptor_ord}
use openporch.Ids.RoundTrip.{IsValid as IsDescriptor}
use openporch.Model.{ResourceDefinition}
use openporch.Criteria.Select.{select_definition}
use openporch.Criteria.Outcome.{select_definition-eq_ok}
use openporch.Placeholder.Json.{Value}
use openporch.Graph.Builder.Types.{GraphInput, Node, Builder, conflict, has_class}
use openporch.Graph.Builder.Request.{
  request, request_again, request_first, new_node, edge, context_of, resource_type,
}
use openporch.Graph.Builder.Expand.{add_edge}
use openporch.Graph.Builder.Valid.{
  Has, Ids, IsNamed, IsNode, IsMatched, IsSelected, IsValid, AreNodes-insert, Grows-insert,
  Has-insert, Keeps, IsRefusal, Anything, All-map, All-set_insert,
}

conflict-IsRefusal :
    (d : Descriptor) (a b : Str) (c : Ordering)
    → IsRefusal (elim c [
      | Ordering.lt ↦ conflict d b a
      | Ordering.eq ↦ conflict d a b
      | Ordering.gt ↦ conflict d a b
    ])
conflict-IsRefusal d a b Ordering.lt = tt
conflict-IsRefusal d a b Ordering.eq = tt
conflict-IsRefusal d a b Ordering.gt = tt

module _ {input : GraphInput} {ids : Ids} {b : Builder} (v : IsValid input ids b)
    (d : Descriptor) where
  -- A node that takes the place of one, or of none.
  pub put-IsValid :
      (n : Node) (explicit : BTreeMap Descriptor (Str × Str))
      → IsNode input ids (insert d n b.nodes) d n
      → IsValid input ids (record b { nodes = insert d n b.nodes; explicit = explicit })
  put-IsValid n explicit w = record {
    nodes = AreNodes-insert d n v.nodes w;
    queued = All-map b.queue (Grows-insert d n b.nodes) v.queued;
    co = All-map b.co (λ c. Grows-insert d n b.nodes c.co) v.co;
  }

  length-put :
      (n n' : Node) → get d b.nodes ≡ some n → length (insert d n' b.nodes) ≡ length b.nodes
  length-put n n' h =
      let there : contains_key d b.nodes ≡ true = contains_key-get d b.nodes ∙ ap is_some h in
      ground (arith, length-insert d n' b.nodes v.nodes.sorted, there)

  pub put-Keeps :
      (n n' : Node) (explicit : BTreeMap Descriptor (Str × Str))
      → get d b.nodes ≡ some n
      → IsNode input ids (insert d n' b.nodes) d n'
      → Keeps input ids b
          (λ b'. Has b'.nodes d)
          (some (ok (record b { nodes = insert d n' b.nodes; explicit = explicit })))
  put-Keeps n n' explicit h w = (
    put-IsValid n' explicit w,
    (Grows-insert d n' b.nodes, ap (λ (k : ℕ). length b.queue + k) (sym (length-put n n' h))),
    Has-insert d n' b.nodes,
  )

  -- The node that takes its place has the same definition and dependencies.
  pub same-IsNode :
      (n n' : Node)
      → get d b.nodes ≡ some n
      → n'.descriptor ≡ n.descriptor
      → n'.definition ≡ n.definition
      → All (Has (insert d n' b.nodes)) n'.depends_on
      → IsSortedSet n'.depends_on
      → IsNode input ids (insert d n' b.nodes) d n'
  same-IsNode n n' h e1 e2 closed sorted =
      let w = v.nodes.each d n h in
      record {
        own = e1 ∙ w.own;
        descriptor = w.descriptor;
        known = w.known;
        class = w.class;
        named = w.named;
        matched = subst (IsMatched input) (sym e2) w.matched;
        selected = subst (IsSelected input d) (sym e2) w.selected;
        closed = closed;
        sorted = sorted;
      }

  still_closed :
      (n n' : Node) → get d b.nodes ≡ some n → All (Has (insert d n' b.nodes)) n.depends_on
  still_closed n n' h = All-map n.depends_on (Grows-insert d n' b.nodes) (v.nodes.each d n h).closed

  request_again-Keeps :
      (canonical : Value → Str) (path : Str) (params : Option Value) (n : Node)
      → get d b.nodes ≡ some n
      → Keeps input ids b (λ b'. Has b'.nodes d) (some (request_again canonical d path params n b))
  unfolding request_again
  request_again-Keeps canonical path none n h =
      put-Keeps n _ b.explicit h
        (same-IsNode n _ h refl refl (still_closed n _ h) (v.nodes.each d n h).sorted)
  request_again-Keeps canonical path (some p) n h = elim (Option-cases (get d b.explicit)) [
    | inl e ↦
        rw (request_again, e)
          (put-Keeps n _ _ h
            (same-IsNode n _ h refl refl (still_closed n _ h) (v.nodes.each d n h).sorted))
    | inr ((first, existing), e) ↦ elim (Bool-cases (existing == canonical p)) [
      | inl q ↦
          rw (request_again, e, q)
            (put-Keeps n _ b.explicit h
              (same-IsNode n _ h refl refl (still_closed n _ h) (v.nodes.each d n h).sorted))
      | inr q ↦ rw (request_again, e, q) (conflict-IsRefusal d first path (str_cmp path first))
    ]
  ]

find_self :
    (def : ResourceDefinition Value) (before after : List (ResourceDefinition Value))
    → is_some (find (λ x. x.id == def.id) (before ++ def ∷ after)) ≡ true
find_self def [] after = ground (arith, (eq_iff def.id def.id).1 refl)
find_self def (x ∷ xs) after = ground (arith, find_self def xs after)

selected-IsMatched :
    (input : GraphInput) (d : Descriptor) (def : ResourceDefinition Value)
    → select_definition input.definitions (context_of input d) ≡ ok def
    → IsMatched input def.id
selected-IsMatched input d def h =
    let (w, u) = (select_definition-eq_ok input.definitions (context_of input d) def).0 h in
    subst (λ l. is_some (find (λ x. x.id == def.id) l) ≡ true) (sym u.split)
      (find_self def u.before u.after)

one_more :
    (q q' l l' : ℕ) (known : Bool)
    → q' ≡ q + 1
    → l' ≡ (if known then l else suc l)
    → known ≡ false
    → q' + l ≡ q + l'
one_more q q' l l' known h k e = ground arith

-- What a request asks of the descriptor.
pub record IsAllowed (input : GraphInput) (ids : Ids) (d : Descriptor) : Type 0 where
  pub descriptor : IsDescriptor d
  pub named : IsNamed ids d

module _ (input : GraphInput) (ids : Ids) (canonical : Value → Str) (b : Builder) (d : Descriptor)
    (path : Str) (params : Option Value) (v : IsValid input ids b) (w : IsAllowed input ids d) where
  new_node-Keeps :
      (def : ResourceDefinition Value)
      → is_some (resource_type input d.ty) ≡ true
      → has_class input.classes d.ty d.class ≡ true
      → get d b.nodes ≡ none
      → select_definition input.definitions (context_of input d) ≡ ok def
      → Keeps input ids b
          (λ b'. Has b'.nodes d)
          (some (ok (new_node canonical d path params def b)))
  unfolding new_node
  new_node-Keeps def known class new m =
      let valid = put-IsValid v d _ b.explicit (record {
        own = refl;
        descriptor = w.descriptor;
        known = known;
        class = class;
        named = w.named;
        matched = selected-IsMatched input d def m;
        selected = (def, m, refl);
        closed = tt;
        sorted = tt;
      }) in
      let absent : contains_key d b.nodes ≡ false = contains_key-get d b.nodes ∙ ap is_some new in
      let longer = length-insert d _ b.nodes v.nodes.sorted in
      (
        record {
          nodes = valid.nodes;
          queued = All-append (Has _) b.queue (d ∷ []) valid.queued (Has-insert d _ b.nodes, tt);
          co = valid.co;
        },
        (
          Grows-insert d _ b.nodes,
          one_more _ _ _ _ _ (length-append b.queue (d ∷ [])) longer absent,
        ),
        Has-insert d _ b.nodes,
      )

  request_first-Keeps :
      is_some (resource_type input d.ty) ≡ true
      → has_class input.classes d.ty d.class ≡ true
      → get d b.nodes ≡ none
      → Keeps input ids b
          (λ b'. Has b'.nodes d)
          (some (request_first canonical input d path params b))
  unfolding request_first
  request_first-Keeps known class new =
      elim (Result-cases (select_definition input.definitions (context_of input d))) [
        | inl (x, e) ↦ rw (request_first, e) tt
        | inr (def, e) ↦ rw (request_first, e) (new_node-Keeps def known class new e)
      ]

  -- A request for a valid descriptor does not panic, and leaves the builder valid; where it
  -- succeeds the graph has the node.
  pub request-Keeps :
      Keeps input ids b (λ b'. Has b'.nodes d) (some (request canonical input d path params b))
  unfolding request
  request-Keeps = elim (Bool-cases (is_some (resource_type input d.ty))) [
    | inr e ↦ rw (request, e) tt
    | inl e ↦ elim (Bool-cases (has_class input.classes d.ty d.class)) [
      | inr q ↦ rw (request, e, q) tt
      | inl q ↦ elim (Option-cases (get d b.nodes)) [
        | inl n ↦ rw (request, e, q, n) (request_first-Keeps e q n)
        | inr (node, n) ↦
            rw (request, e, q, n) (request_again-Keeps v d canonical path params node n)
      ]
    ]
  ]

-- A node with one more dependency.
pub edge-IsNode :
    {input : GraphInput} {ids : Ids} {b : Builder} (v : IsValid input ids b) (from to : Descriptor)
    (n : Node)
    → get from b.nodes ≡ some n
    → Has b.nodes to
    → IsNode input ids
        (insert from (record n { depends_on = set_insert to n.depends_on }) b.nodes)
        from
        (record n { depends_on = set_insert to n.depends_on })
edge-IsNode {b} v from to n h k =
    same-IsNode v from n (record n { depends_on = set_insert to n.depends_on }) h refl refl
      (All-set_insert (Has _) to n.depends_on (Grows-insert from _ b.nodes to k)
        (still_closed v from n _ h))
      (set_insert-IsSortedSet to n.depends_on (v.nodes.each from n h).sorted)

-- An edge between two nodes.
pub add_edge-Keeps :
    (input : GraphInput) (ids : Ids) (b : Builder) (from to : Descriptor)
    → IsValid input ids b
    → Has b.nodes from
    → Has b.nodes to
    → Keeps input ids b Anything (add_edge from to b)
unfolding edge
add_edge-Keeps input ids b from to v h k = elim (Option-cases (get from b.nodes)) [
  | inl n ↦ absurd (let bad = rw n at h in cc)
  | inr (node, n) ↦
      let (valid, follows, has) =
        put-Keeps v from node _ b.explicit n (edge-IsNode v from to node n k) in
      rw (add_edge, edge, n) (valid, follows, tt)
]

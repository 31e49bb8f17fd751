-- ===== src/Graph/Builder/Worked.antt =====
-- Every node of the graph is expanded once the queue is empty.
use openporch.Prelude.{
  ℕ, zero, suc, Str, bytes, List, [], ◌∷◌, ◌++◌, Option, none, some, Memᴰ, All, ◌≡◌, ◌⊎◌, refl, sym,
  ap, ◌∙◌, subst, inl, inr, Option-cases, List-cases, find,
}
use openporch.Prelude.Order.{◌==◌, str_ord}
use openporch.Prelude.Result.{ok, err}
use openporch.BTreeMap.{get}
use openporch.Model.{ResourceDefinition}
use openporch.Ids.{Descriptor}
use openporch.Ids.Types.{descriptor_ord}
use openporch.Placeholder.Json.{Value, string}
use openporch.Placeholder.Expr.{definition, driver_account}
use openporch.Placeholder.Collect.{Found, collect_placeholders}
use openporch.Graph.Builder.Types.{GraphInput, Node, Builder, Build, ◌>>=◌}
use openporch.Graph.Builder.Expand.{
  in_definition, collect_account, found_in, refer_all, expand_with, expand,
}
use openporch.Graph.Builder.Build.{expand_all}
use openporch.Graph.Builder.Valid.{Has, All-map}
use openporch.Graph.Builder.Edges.{
  in_definition-eq, Reaches-weaken, Refers, Refers-extend, refer_all-Reaches,
}
use openporch.Graph.Builder.Provided.{
  Provides, Provides-extend, Provides-requeue, provide_all-Reaches,
}
use openporch.Graph.Builder.Extends.{Extends, Reaches, Reaches-bind, Reaches-after}

bind_ok :
    {A B : Type 0} (m : Build A) (f : A → Build B) {b : B}
    → (m >>= f) ≡ some (ok b)
    → (a : A) × (m ≡ some (ok a)) × (f a ≡ some (ok b))
bind_ok none f h = absurd (cc)
bind_ok (some (err e)) f h = absurd (cc)
bind_ok (some (ok a)) f h = (a, refl, h)

-- The placeholders of a definition: of its inputs, of its secrets and of its driver account.
pub record IsFound (def : ResourceDefinition Value) (found : List Found) : Type 0 where
  pub values : List Found
  pub secrets : List Found
  pub account : List Found
  pub of_values :
      collect_placeholders definition (bytes "driver_inputs.values") def.driver_inputs.values
      ≡ some (ok values)
  pub of_secrets :
      collect_placeholders definition (bytes "driver_inputs.secrets") def.driver_inputs.secrets
      ≡ some (ok secrets)
  pub of_account :
      (a : Str)
      → def.driver_account ≡ some a
      → collect_placeholders driver_account (bytes "driver_account") (string a) ≡ some (ok account)
  pub all : found ≡ values ++ (secrets ++ account)

collect_account-of :
    (o : Option Str) (fs : List Found) (a : Str)
    → collect_account o ≡ some (ok fs)
    → o ≡ some a
    → collect_placeholders driver_account (bytes "driver_account") (string a) ≡ some (ok fs)
unfolding collect_account
collect_account-of none fs a h e = absurd (cc)
collect_account-of (some b) fs a h e =
    let q : b ≡ a = cc in
    subst
      (λ x. collect_placeholders driver_account (bytes "driver_account") (string x) ≡ some (ok fs))
      q h

found_in-IsFound :
    (def : ResourceDefinition Value) (found : List Found)
    → found_in def ≡ some (ok found)
    → IsFound def found
unfolding found_in
found_in-IsFound def found h =
    let (vs, e1, h1) =
      bind_ok
        (in_definition def.id
          (collect_placeholders definition (bytes "driver_inputs.values") def.driver_inputs.values))
        _ h in
    let (ss, e2, h2) =
      bind_ok
        (in_definition def.id (
          collect_placeholders definition (bytes "driver_inputs.secrets")
            def.driver_inputs.secrets))
        _ h1 in
    let (as', e3, h3) = bind_ok (in_definition def.id (collect_account def.driver_account)) _ h2 in
    record {
      values = vs;
      secrets = ss;
      account = as';
      of_values = in_definition-eq def.id _ e1;
      of_secrets = in_definition-eq def.id _ e2;
      of_account =
          λ a q. collect_account-of def.driver_account as' a (in_definition-eq def.id _ e3) q;
      all = cc;
    }

module _ (canonical : Value → Str) (input : GraphInput) where
  -- The graph has what a definition asks for: the edges of its references, and its co-provisioned
  -- resources.
  pub record Expansion (d : Descriptor) (def : ResourceDefinition Value) (b : Builder)
      : Type 0 where
    pub found : List Found
    pub is_found : IsFound def found
    pub references : All (λ f. Refers canonical input def.id d f.expr b) found
    pub provisions : All (λ e. Provides canonical input def.id d e.0 e.1 b) def.provision

  -- The node has what the definition that it is matched with asks for.
  abbrev pub IsExpanded : Descriptor → Builder → Type 0
  IsExpanded d b =
      (n : Node) (def : ResourceDefinition Value)
      → get d b.nodes ≡ some n
      → find (λ x. x.id == n.definition) input.definitions ≡ some def
      → Expansion d def b

  Expansion-extend :
      (d : Descriptor) (def : ResourceDefinition Value) (b b' : Builder)
      → Extends b b'
      → Expansion d def b
      → Expansion d def b'
  Expansion-extend d def b b' g x = record {
    found = x.found;
    is_found = x.is_found;
    references =
        All-map x.found (λ f. Refers-extend canonical input def.id d f.expr b b' g) x.references;
    provisions =
        All-map def.provision (λ e. Provides-extend canonical input def.id d e.0 e.1 b b' g)
          x.provisions;
  }

  -- A node keeps its definition.
  IsExpanded-of :
      (d : Descriptor) (b b' : Builder) (n : Node) (def : ResourceDefinition Value)
      → get d b.nodes ≡ some n
      → find (λ x. x.id == n.definition) input.definitions ≡ some def
      → Extends b b'
      → Expansion d def b'
      → IsExpanded d b'
  IsExpanded-of d b b' n def h q g x n' def' h' q' =
      let (m, found, e) = g.same d n h in
      let same : n'.definition ≡ n.definition =
        ap (λ (o : Option Node). elim o [ none ↦ n'.definition | some k ↦ k.definition ])
          (sym h' ∙ found)
        ∙ e in
      let q'' : find (λ x. x.id == n.definition) input.definitions ≡ some def' =
        subst (λ i. find (λ x. x.id == i) input.definitions ≡ some def') same q' in
      let p : def ≡ def' = cc in subst (λ k. Expansion d k b') p x

  pub IsExpanded-extend :
      (d : Descriptor) (b b' : Builder)
      → Has b.nodes d
      → Extends b b'
      → IsExpanded d b
      → IsExpanded d b'
  IsExpanded-extend d b b' has g x n' def' h' q' = elim (Option-cases (get d b.nodes)) [
    | inl n ↦ absurd (let bad = rw n at has in cc)
    | inr (n, h) ↦
        let (m, found, e) = g.same d n h in
        let same : n'.definition ≡ n.definition =
          ap (λ (o : Option Node). elim o [ none ↦ n'.definition | some k ↦ k.definition ])
            (sym h' ∙ found)
          ∙ e in
        Expansion-extend d def' b b' g
          (x n def' h (subst (λ i. find (λ x. x.id == i) input.definitions ≡ some def') same q'))
  ]

  expand_with-Reaches :
      (d : Descriptor) (def : ResourceDefinition Value) (b : Builder)
      → Reaches b (Expansion d def) (expand_with canonical input d def b)
  unfolding expand_with
  expand_with-Reaches d def b = Reaches-after b (Expansion d def) (found_in def) _ λ found e.
      Reaches-bind b (λ b'. All (λ f. Refers canonical input def.id d f.expr b') found)
        (Expansion d def) (refer_all canonical input def.id d found b) _
        (refer_all-Reaches canonical input def.id d found b)
        λ b1 g refs.
          Reaches-weaken b1
            (λ b'. All (λ e. Provides canonical input def.id d e.0 e.1 b') def.provision)
            (Expansion d def) _ (provide_all-Reaches canonical input def.id d def.provision b1)
            λ b' g' ps. record {
              found = found;
              is_found = found_in-IsFound def found e;
              references =
                  All-map found (λ f. Refers-extend canonical input def.id d f.expr b1 b' g') refs;
              provisions = ps;
            }

  expand-Reaches :
      (d : Descriptor) (b : Builder) → Reaches b (IsExpanded d) (expand canonical input d b)
  unfolding expand
  expand-Reaches d b b' h = elim (Option-cases (get d b.nodes)) [
    | inl n ↦ absurd (let bad = rw (expand, n) at h in cc)
    | inr (node, n) ↦ elim (Option-cases (find (λ x. x.id == node.definition) input.definitions)) [
      | inl q ↦ absurd (let bad = rw (expand, n, q) at h in cc)
      | inr (def, q) ↦
          let (g, x) = expand_with-Reaches d def b b' (rw (expand, n, q) at h) in
          (g, IsExpanded-of d b b' node def n q g x)
    ]
  ]

  -- Every node waits in the queue or is expanded.
  abbrev pub Worked : Builder → Type 0
  Worked b = (d : Descriptor) → Has b.nodes d → Memᴰ d b.queue ⊎ IsExpanded d b

  IsExpanded-requeue :
      (queue : List Descriptor) (d : Descriptor) (b : Builder)
      → IsExpanded d b
      → IsExpanded d (record b { queue = queue })
  IsExpanded-requeue queue d b x n def h q =
      let y = x n def h q in
      record {
        found = y.found;
        is_found = y.is_found;
        references = y.references;
        provisions =
            All-map def.provision (λ e. Provides-requeue canonical input def.id d queue e.0 e.1 b)
              y.provisions;
      }

  popped-Worked :
      (d : Descriptor) (ds : List Descriptor) (b b' : Builder)
      → b.queue ≡ d ∷ ds
      → Worked b
      → Extends (record b { queue = ds }) b'
      → IsExpanded d b'
      → Worked b'
  popped-Worked d ds b b' e w g x k has = elim (g.fresh k has) [
    | inr m ↦ inl m
    | inl old ↦ elim (w k old) [
      | inr y ↦
          inr (IsExpanded-extend k (record b { queue = ds }) b' old g (IsExpanded-requeue ds k b y))
      | inl m ↦ elim (subst (Memᴰ k) e m) [
        | Memᴰ.head p ↦ inr (subst (λ i. IsExpanded i b') (sym p) x)
        | Memᴰ.tail t ↦ inl (g.queue k t)
      ]
    ]
  ]

  nothing_left :
      (b : Builder) → b.queue ≡ [] → Worked b → (d : Descriptor) → Has b.nodes d → IsExpanded d b
  nothing_left b e w d h = elim (w d h) [ inr x ↦ x | inl m ↦ elim (subst (Memᴰ d) e m) [ ] ]

  pub expand_all-IsExpanded :
      (fuel : ℕ) (b b' : Builder)
      → Worked b
      → expand_all canonical input fuel b ≡ some (ok b')
      → (d : Descriptor) → Has b'.nodes d
      → IsExpanded d b'
  unfolding expand_all
  expand_all-IsExpanded zero b b' w h = elim (List-cases b.queue) [
    | inl e ↦
        let q : b ≡ b' = ap (λ m. elim m [ some (ok x) ↦ x | _ ↦ b ]) (rw (expand_all, e) at h) in
        subst (λ y. (d : Descriptor) → Has y.nodes d → IsExpanded d y) q (nothing_left b e w)
    | inr (d, ds, e) ↦ absurd (let bad = rw (expand_all, e) at h in cc)
  ]
  expand_all-IsExpanded (suc fuel) b b' w h = elim (List-cases b.queue) [
    | inl e ↦
        let q : b ≡ b' = ap (λ m. elim m [ some (ok x) ↦ x | _ ↦ b ]) (rw (expand_all, e) at h) in
        subst (λ y. (d : Descriptor) → Has y.nodes d → IsExpanded d y) q (nothing_left b e w)
    | inr (d, ds, e) ↦
        let (b1, h1, h2) =
          bind_ok (expand canonical input d (record b { queue = ds })) _
            (rw (expand_all, e) at h) in
        let (g, x) = expand-Reaches d (record b { queue = ds }) b1 h1 in
        expand_all-IsExpanded fuel b1 b' (popped-Worked d ds b b1 e w g x) h2
  ]

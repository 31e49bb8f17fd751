-- ===== src/Graph/Builder/Provided.antt =====
-- The edges of co-provisioned resources, and of a whole expansion (`Builder::expand`).
use openporch.Prelude.{
  Str, bytes, Bool, true, false, List, [], ◌∷◌, ◌++◌, some, Memᴰ, All, ◌≡◌, refl, subst, inl, arith,
}
use openporch.Prelude.Order.{eq_refl, str_ord}
use openporch.Prelude.Result.{Result, ok, err, map_err}
use openporch.BTreeMap.{BTreeMap, set_insert}
use openporch.BTreeMap.Sets.{set_contains-set_insert}
use openporch.BTreeMap.Members.{set_contains_iff}
use openporch.Model.{Provision}
use openporch.Ids.{Descriptor, DefinitionId}
use openporch.Ids.Types.{descriptor_ord}
use openporch.Placeholder.Json.{Value, null}
use openporch.Placeholder.Ref.{ResourceRef, resource_ref_parse, or_else}
use openporch.Placeholder.Expr.{definition}
use openporch.Placeholder.Collect.{Found, collect_placeholders}
use openporch.Graph.Builder.Types.{
  GraphInput, GraphError, CoProvision, Builder, Build, co_provision_ord,
}
use openporch.Graph.Builder.Request.{request}
use openporch.Graph.Builder.Expand.{
  add_edge, path_for, resolve, refer_all_from, co_edge, provision_at, parse_key, add_co, provide,
  provide_all,
}
use openporch.Graph.Builder.Valid.{All-map}
use openporch.Graph.Builder.Settled.{HasEdge}
use openporch.Graph.Builder.Edges.{
  lift_option-eq, in_definition-eq, Reaches-weaken, Reaches-done, Names, RefersFrom,
  RefersFrom-extend, refer_all_from-Reaches,
}
use openporch.Graph.Builder.Extends.{
  Extends, Extends-trans, Reaches, Reaches-bind, Reaches-after, add_edge-Reaches, request-Reaches,
}

parse_ok :
    {E A : Type 0} (g : E → GraphError) (r : Result E A) {a : A}
    → ◌≡◌ {A = Build A} (some (map_err g r)) (some (ok a))
    → r ≡ ok a
parse_ok g (ok x) h = cc
parse_ok g (err e) h = absurd (cc)

module _ (canonical : Value → Str) (input : GraphInput) (id : DefinitionId) (d : Descriptor) where
  -- An entry of `provision` has its resource: the edge between the node and the resource, the edges of
  -- the references in its params, and the record for `match_dependents`.
  pub record Provides (key : Str) (prov : Provision Value) (b : Builder) : Type 0 where
    pub target : ResourceRef
    pub resource_named : Descriptor
    pub parsed : resource_ref_parse key ≡ ok target
    pub named : Names canonical input id d target resource_named
    pub dependent : prov.is_dependent ≡ true → HasEdge b d resource_named
    pub dependency : prov.is_dependent ≡ false → HasEdge b resource_named d
    pub recorded :
        Memᴰ
          (record { source = d; co = resource_named; match_dependents = prov.match_dependents })
          b.co
    pub found : List Found
    pub collected :
        collect_placeholders definition
          (bytes "provision." ++ key ++ bytes ".params")
          (or_else prov.params null)
        ≡ some (ok found)
    pub references : All (λ f. RefersFrom canonical input id d resource_named f.expr b) found

  pub Provides-extend :
      (key : Str) (prov : Provision Value) (b b' : Builder)
      → Extends b b'
      → Provides key prov b
      → Provides key prov b'
  Provides-extend key prov b b' g p = record {
    target = p.target;
    resource_named = p.resource_named;
    parsed = p.parsed;
    named = p.named;
    dependent = λ e. g.edges d p.resource_named (p.dependent e);
    dependency = λ e. g.edges p.resource_named d (p.dependency e);
    recorded = g.co _ p.recorded;
    found = p.found;
    collected = p.collected;
    references =
        All-map p.found (λ f. RefersFrom-extend canonical input id d p.resource_named f.expr b b' g)
          p.references;
  }

  -- The queue does not matter.
  pub Provides-requeue :
      (queue : List Descriptor) (key : Str) (prov : Provision Value) (b : Builder)
      → Provides key prov b
      → Provides key prov (record b { queue = queue })
  Provides-requeue queue key prov b p = record {
    target = p.target;
    resource_named = p.resource_named;
    parsed = p.parsed;
    named = p.named;
    dependent = p.dependent;
    dependency = p.dependency;
    recorded = p.recorded;
    found = p.found;
    collected = p.collected;
    references = p.references;
  }

  abbrev Joins : Bool → Descriptor → Builder → Type 0
  Joins dependent co b = (dependent ≡ true → HasEdge b d co) × (dependent ≡ false → HasEdge b co d)

  co_edge-Reaches :
      (dependent : Bool) (co : Descriptor) (b : Builder)
      → Reaches b (Joins dependent co) (co_edge canonical input id d dependent co b)
  co_edge-Reaches true co b =
      Reaches-weaken b (λ b'. HasEdge b' d co) (Joins true co) (add_edge d co b)
        (add_edge-Reaches d co b) (λ b' g h. ((λ e. h), (λ e. absurd (cc))))
  co_edge-Reaches false co b =
      Reaches-weaken b (λ b'. HasEdge b' co d) (Joins false co) (add_edge co d b)
        (add_edge-Reaches co d b) (λ b' g h. ((λ e. absurd (cc)), (λ e. h)))

  add_co-Extends :
      (co : Descriptor) (m : Bool) (b : Builder)
      → Extends b (add_co canonical input id d co m b)
        × Memᴰ
            (record { source = d; co = co; match_dependents = m })
            (add_co canonical input id d co m b).co
  unfolding add_co
  add_co-Extends co m b =
      let new : CoProvision = record { source = d; co = co; match_dependents = m } in
      (
        record {
          edges = λ x y h. h;
          fresh = λ x h. inl h;
          queue = λ x k. k;
          same = λ x n h. (n, h, refl);
          co = λ c k.
              (set_contains_iff c (set_insert new b.co)).0
                (ground (arith, set_contains-set_insert c new b.co, (set_contains_iff c b.co).1 k));
        },
        (set_contains_iff new (set_insert new b.co)).0
            (ground (arith, set_contains-set_insert new new b.co, eq_refl new)),
      )

  provide-Reaches :
      (key : Str) (prov : Provision Value) (b : Builder)
      → Reaches b (Provides key prov) (provide canonical input id d key prov b)
  unfolding provide resolve parse_key
  provide-Reaches key prov b =
      let params = or_else prov.params null in
      let place = path_for id (provision_at canonical input id d key) d in
      Reaches-after b (Provides key prov) (parse_key canonical input id d key) _ λ target e1.
        Reaches-after b (Provides key prov) (resolve canonical input id d target) _ λ co e2.
          Reaches-bind b (λ b'. Unit) (Provides key prov)
            (some (request canonical input co place (some params) b)) _
            (request-Reaches canonical co place input (some params) b)
            λ b1 g1 x.
              Reaches-bind b1 (Joins prov.is_dependent co) (Provides key prov)
                (co_edge canonical input id d prov.is_dependent co b1) _
                (co_edge-Reaches prov.is_dependent co b1)
                λ b2 g2 joined. Reaches-after b2 (Provides key prov) _ _ λ found e3.
                  Reaches-bind b2
                    (λ b'. All (λ f. RefersFrom canonical input id d co f.expr b') found)
                    (Provides key prov) (refer_all_from canonical input id d co found b2) _
                    (refer_all_from-Reaches canonical input id d co found b2)
                    λ b3 g3 refs b4 e4.
                      let (g4, m) = add_co-Extends co prov.match_dependents b3 in
                      let last = add_co canonical input id d co prov.match_dependents b3 in
                      let q : last ≡ b4 = cc in
                      let far : Extends b2 last = Extends-trans b2 b3 last g3 g4 in
                      subst (λ y. Extends b3 y × Provides key prov y) q
                        (
                          g4,
                          record {
                            target = target;
                            resource_named = co;
                            parsed = parse_ok _ _ e1;
                            named = lift_option-eq _ e2;
                            dependent = λ t. far.edges d co (joined.0 t);
                            dependency = λ t. far.edges co d (joined.1 t);
                            recorded = m;
                            found = found;
                            collected = in_definition-eq id _ e3;
                            references =
                                All-map found
                                  (λ f. RefersFrom-extend canonical input id d co f.expr b3 last g4)
                                  refs;
                          },
                        )

  pub provide_all-Reaches :
      (ps : BTreeMap Str (Provision Value)) (b : Builder)
      → Reaches b (λ b'. All (λ e. Provides e.0 e.1 b') ps) (provide_all canonical input id d ps b)
  unfolding provide_all
  provide_all-Reaches [] b = Reaches-done b (λ b'. Unit) tt
  provide_all-Reaches ((key, prov) ∷ ps) b =
      Reaches-bind b (Provides key prov) (λ b'. All (λ e. Provides e.0 e.1 b') ((key, prov) ∷ ps)) _
        _ (provide-Reaches key prov b)
        λ b1 g p.
          Reaches-weaken b1 (λ b'. All (λ e. Provides e.0 e.1 b') ps)
            (λ b'. All (λ e. Provides e.0 e.1 b') ((key, prov) ∷ ps)) _ (provide_all-Reaches ps b1)
            λ b' g' a. (Provides-extend key prov b1 b' g' p, a)

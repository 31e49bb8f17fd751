-- ===== src/Graph/Builder/Edges.antt =====
-- The edges that `Builder::expand` puts into the graph: for the references of a node's definition, and
-- for the resources that are provisioned with it.
use openporch.Prelude.{
  Str, List, [], ◌∷◌, Option, none, some, All, ◌≡◌, ◌≢◌, subst, inl, inr, Bool-cases,
}
use openporch.Prelude.Order.{◌==◌, eq_iff, str_ord}
use openporch.Prelude.Result.{ok, err}
use openporch.Ids.{Descriptor, DefinitionId}
use openporch.Ids.Types.{descriptor_ord}
use openporch.Placeholder.Json.{Value}
use openporch.Placeholder.Ref.{ResourceRef, resolve_ref}
use openporch.Placeholder.Run.{Run}
use openporch.Placeholder.Expr.{
  Expr, context, resource, externals, shared, values, pod, ResourceField,
}
use openporch.Placeholder.Collect.{Found}
use openporch.Graph.Builder.Types.{GraphInput, Builder, Build, co_provision_ord}
use openporch.Graph.Builder.Request.{request, is_implicit}
use openporch.Graph.Builder.Expand.{
  in_definition, lift_option, add_edge, path_for, resolve, refer, refer_all, add_edge_to_other,
  refer_from, refer_all_from,
}
use openporch.Graph.Builder.Settled.{HasEdge}
use openporch.Graph.Builder.Extends.{
  Extends, Extends-refl, Reaches, Reaches-bind, Reaches-after, add_edge-Reaches, request-Reaches,
}

pub lift_option-eq : {A : Type 0} (o : Option A) {a : A} → lift_option o ≡ some (ok a) → o ≡ some a
lift_option-eq none h = absurd (cc)
lift_option-eq (some x) h = cc

pub in_definition-eq :
    {A : Type 0} (id : DefinitionId) (m : Run A) {a : A}
    → in_definition id m ≡ some (ok a)
    → m ≡ some (ok a)
in_definition-eq id none h = absurd (cc)
in_definition-eq id (some (ok x)) h = cc
in_definition-eq id (some (err e)) h = absurd (cc)

pub Reaches-weaken :
    (b : Builder) (P Q : Builder → Type 0) (m : Build Builder)
    → Reaches b P m
    → ((b' : Builder) → Extends b b' → P b' → Q b')
    → Reaches b Q m
Reaches-weaken b P Q m h k b' e = let (g, p) = h b' e in (g, k b' g p)

pub Reaches-done : (b : Builder) (P : Builder → Type 0) → P b → Reaches b P (some (ok b))
Reaches-done b P p b' e =
    let q : b ≡ b' = cc in subst (λ x. Extends b x × P x) q (Extends-refl b, p)

module _ (canonical : Value → Str) (input : GraphInput) (id : DefinitionId) (d : Descriptor) where
  -- The descriptor that a reference names from the node.
  abbrev pub Names : ResourceRef → Descriptor → Type 0
  Names t to = resolve_ref t d (is_implicit input t.ty) ≡ some to

  -- A reference has its edge from the node.
  abbrev pub Refers : Expr → Builder → Type 0
  Refers e b =
      (t : ResourceRef) (f : ResourceField)
      → e ≡ resource t f
      → (to : Descriptor) × Names t to × HasEdge b d to

  -- A reference in the params of a co-provisioned resource has its edge from there.
  abbrev pub RefersFrom : Descriptor → Expr → Builder → Type 0
  RefersFrom co e b =
      (t : ResourceRef) (f : ResourceField)
      → e ≡ resource t f
      → (to : Descriptor) × Names t to × (to ≢ co → HasEdge b co to)

  refer-Reaches :
      (loc : Str) (e : Expr) (b : Builder)
      → Reaches b (Refers e) (refer canonical input id d loc e b)
  unfolding refer resolve
  refer-Reaches loc (resource t f) b = Reaches-after b (Refers (resource t f)) _ _ λ to named.
      Reaches-bind b (λ b'. Unit) (Refers (resource t f))
        (some (request canonical input to (path_for id loc d) none b)) _
        (request-Reaches canonical to (path_for id loc d) input none b)
        λ b1 g x.
          Reaches-weaken b1 (λ b'. HasEdge b' d to) (Refers (resource t f)) (add_edge d to b1)
            (add_edge-Reaches d to b1)
            λ b' g' h u k q.
              let same : t ≡ u = cc in
              (to, subst (λ r. Names r to) same (lift_option-eq _ named), h)
  refer-Reaches loc (context k) b = Reaches-done b (Refers (context k)) (λ t f q. absurd (cc))
  refer-Reaches loc (externals k p) b =
      Reaches-done b (Refers (externals k p)) (λ t f q. absurd (cc))
  refer-Reaches loc (shared k p) b = Reaches-done b (Refers (shared k p)) (λ t f q. absurd (cc))
  refer-Reaches loc (values k p) b = Reaches-done b (Refers (values k p)) (λ t f q. absurd (cc))
  refer-Reaches loc (pod p) b = Reaches-done b (Refers (pod p)) (λ t f q. absurd (cc))

  pub Refers-extend : (e : Expr) (b b' : Builder) → Extends b b' → Refers e b → Refers e b'
  Refers-extend e b b' g r t f q = let (to, n, h) = r t f q in (to, n, g.edges d to h)

  pub RefersFrom-extend :
      (co : Descriptor) (e : Expr) (b b' : Builder)
      → Extends b b'
      → RefersFrom co e b
      → RefersFrom co e b'
  RefersFrom-extend co e b b' g r t f q =
      let (to, n, h) = r t f q in (to, n, λ x. g.edges co to (h x))

  pub refer_all-Reaches :
      (fs : List Found) (b : Builder)
      → Reaches b (λ b'. All (λ f. Refers f.expr b') fs) (refer_all canonical input id d fs b)
  unfolding refer_all
  refer_all-Reaches [] b = Reaches-done b (λ b'. Unit) tt
  refer_all-Reaches (f ∷ fs) b =
      Reaches-bind b (Refers f.expr) (λ b'. All (λ f. Refers f.expr b') (f ∷ fs)) _ _
        (refer-Reaches f.location f.expr b)
        λ b1 g r.
          Reaches-weaken b1 (λ b'. All (λ f. Refers f.expr b') fs)
            (λ b'. All (λ f. Refers f.expr b') (f ∷ fs)) _ (refer_all-Reaches fs b1)
            λ b' g' a. (Refers-extend f.expr b1 b' g' r, a)

  to_other-Reaches :
      (co to : Descriptor) (b : Builder)
      → Reaches b
          (λ b'. to ≢ co → HasEdge b' co to)
          (add_edge_to_other canonical input id d co to b)
  to_other-Reaches co to b = elim (Bool-cases (to == co)) [
    | inl e ↦ rw (add_edge_to_other, e) (Reaches-done b _ (λ n. absurd (n ((eq_iff to co).0 e))))
    | inr e ↦
        rw (add_edge_to_other, e)
          (Reaches-weaken b (λ b'. HasEdge b' co to) (λ b'. to ≢ co → HasEdge b' co to)
            (add_edge co to b) (add_edge-Reaches co to b) (λ b' g h n. h))
  ]

  refer_from-Reaches :
      (co : Descriptor) (loc : Str) (e : Expr) (b : Builder)
      → Reaches b (RefersFrom co e) (refer_from canonical input id d co loc e b)
  unfolding refer_from resolve
  refer_from-Reaches co loc (resource t f) b =
      Reaches-after b (RefersFrom co (resource t f)) _ _ λ to named.
        Reaches-bind b (λ b'. Unit) (RefersFrom co (resource t f))
          (some (request canonical input to (path_for id loc d) none b)) _
          (request-Reaches canonical to (path_for id loc d) input none b)
          λ b1 g x.
            Reaches-weaken b1 (λ b'. to ≢ co → HasEdge b' co to) (RefersFrom co (resource t f)) _
              (to_other-Reaches co to b1)
              λ b' g' h u k q.
                let same : t ≡ u = cc in
                (to, subst (λ r. Names r to) same (lift_option-eq _ named), h)
  refer_from-Reaches co loc (context k) b =
      Reaches-done b (RefersFrom co (context k)) (λ t f q. absurd (cc))
  refer_from-Reaches co loc (externals k p) b =
      Reaches-done b (RefersFrom co (externals k p)) (λ t f q. absurd (cc))
  refer_from-Reaches co loc (shared k p) b =
      Reaches-done b (RefersFrom co (shared k p)) (λ t f q. absurd (cc))
  refer_from-Reaches co loc (values k p) b =
      Reaches-done b (RefersFrom co (values k p)) (λ t f q. absurd (cc))
  refer_from-Reaches co loc (pod p) b =
      Reaches-done b (RefersFrom co (pod p)) (λ t f q. absurd (cc))

  pub refer_all_from-Reaches :
      (co : Descriptor) (fs : List Found) (b : Builder)
      → Reaches b
          (λ b'. All (λ f. RefersFrom co f.expr b') fs)
          (refer_all_from canonical input id d co fs b)
  unfolding refer_all_from
  refer_all_from-Reaches co [] b = Reaches-done b (λ b'. Unit) tt
  refer_all_from-Reaches co (f ∷ fs) b =
      Reaches-bind b (RefersFrom co f.expr) (λ b'. All (λ f. RefersFrom co f.expr b') (f ∷ fs)) _ _
        (refer_from-Reaches co f.location f.expr b)
        λ b1 g r.
          Reaches-weaken b1 (λ b'. All (λ f. RefersFrom co f.expr b') fs)
            (λ b'. All (λ f. RefersFrom co f.expr b') (f ∷ fs)) _ (refer_all_from-Reaches co fs b1)
            λ b' g' a. (RefersFrom-extend co f.expr b1 b' g' r, a)

-- ===== src/Graph/Builder/Expanded.antt =====
-- `Builder::expand` keeps the builder valid and does not panic.
use openporch.Prelude.{
  Str, bytes, Bool, true, false, List, [], ◌∷◌, ◌++◌, none, some, find, All, Memᴰ, Memᴰ-append_left,
  Memᴰ-append_right, ◌≡◌, sym, subst, refl, inl, inr, Bool-cases, Option-cases,
}
use openporch.Prelude.Order.{◌==◌, str_ord}
use openporch.Prelude.Result.{ok, Result-cases}
use openporch.BTreeMap.{BTreeMap, get}
use openporch.Ids.{DefinitionId, Descriptor, ResId}
use openporch.Ids.Types.{descriptor_ord}
use openporch.Model.{ResourceDefinition, Provision}
use openporch.Placeholder.Ref.{ResourceRef, resource_ref_parse, or_else}
use openporch.Placeholder.RefLaws.{resource_ref_parse_iff, IsValid as IsReference}
use openporch.Placeholder.Implicit.{resolve_ref_valid}
use openporch.Placeholder.Expr.{Expr, context, resource, externals, shared, values, pod, definition}
use openporch.Placeholder.Json.{Value, null}
use openporch.Placeholder.Collect.{Found, collect_placeholders}
use openporch.Placeholder.References.{Valid, ReferenceIsValid, collect_placeholders-Finds}
use openporch.Graph.Builder.Types.{GraphInput, Builder, Build, co_provision_ord}
use openporch.Graph.Builder.Request.{is_implicit, request}
use openporch.Graph.Builder.Expand.{
  in_definition, found_in, path_for, resolve, refer, refer_all, add_edge_to_other, refer_from,
  refer_all_from, co_edge, provision_at, parse_key, add_co, provide, provide_all, expand_with,
  expand,
}
use openporch.Graph.Builder.Valid.{
  Has, IsValid, Keeps, Keeps-bind, Anything, All-set_insert, Follows-refl,
}
use openporch.Graph.Builder.Requested.{IsAllowed, request-Keeps, add_edge-Keeps}
use openporch.Graph.Builder.Universe.{
  Within, option_list, target_ids, found_ids, ids_of, ref_ids, provision_ids, reference_ids,
  implicit_ids, resolved-Memᴰ, reference_ids-Memᴰ, find-Memᴰ, Within-ids_of,
}
use openporch.Graph.Builder.Gives.{
  Gives, Gives-Keeps, Gives-self, in_definition-Gives, found_in-Gives,
}

module _ (canonical : Value → Str) (input : GraphInput) (id : DefinitionId) (d : Descriptor)
    (ids : List ResId) (implicit : Within (implicit_ids input.types) ids)
    (w : IsAllowed input (some ids) d) where
  abbrev Names : ResourceRef → Type 0
  Names t = IsReference t × Within (option_list t.id) ids

  resolve-Gives :
      (t : ResourceRef)
      → IsReference t
      → Within (option_list t.id) ids
      → Gives (IsAllowed input (some ids)) (resolve canonical input id d t)
  unfolding resolve
  resolve-Gives t v named =
      let (to, e, valid, same) = resolve_ref_valid t d (is_implicit input t.ty) v w.descriptor in
      rw (resolve, e)
        (record {
          descriptor = valid;
          named = resolved-Memᴰ input ids t d to implicit named w.named e;
        })

  parse_key-Gives :
      (key : Str)
      → Within (ref_ids (resource_ref_parse key)) ids
      → Gives Names (parse_key canonical input id d key)
  unfolding parse_key
  parse_key-Gives key n = elim (Result-cases (resource_ref_parse key)) [
    | inl (x, e) ↦ rw (parse_key, e) tt
    | inr (t, e) ↦
        rw (parse_key, e)
          (
            ((resource_ref_parse_iff key t).0 e).1,
            λ a m. n a (subst (λ r. Memᴰ a (ref_ids r)) (sym e) m),
          )
  ]

  refer-Keeps :
      (loc : Str) (e : Expr) (b : Builder)
      → ReferenceIsValid e
      → Within (target_ids e) ids
      → IsValid input (some ids) b
      → Has b.nodes d
      → Keeps input (some ids) b Anything (refer canonical input id d loc e b)
  unfolding refer
  refer-Keeps loc (resource t f) b r n v h =
      Gives-Keeps input (some ids) b (IsAllowed input (some ids)) Anything _ _
        (resolve-Gives t (r t f refl) n)
        λ to wt.
          Keeps-bind input (some ids) b (λ b'. Has b'.nodes to) Anything
            (some (request canonical input to (path_for id loc d) none b)) _
            (request-Keeps input (some ids) canonical b to (path_for id loc d) none v wt)
            λ b' v' g has. add_edge-Keeps input (some ids) b' d to v' (g.0 d h) has
  refer-Keeps loc (context k) b r n v h = (v, Follows-refl b, tt)
  refer-Keeps loc (externals k p) b r n v h = (v, Follows-refl b, tt)
  refer-Keeps loc (shared k p) b r n v h = (v, Follows-refl b, tt)
  refer-Keeps loc (values k p) b r n v h = (v, Follows-refl b, tt)
  refer-Keeps loc (pod p) b r n v h = (v, Follows-refl b, tt)

  refer_all-Keeps :
      (fs : List Found) (b : Builder)
      → All Valid fs
      → Within (found_ids fs) ids
      → IsValid input (some ids) b
      → Has b.nodes d
      → Keeps input (some ids) b Anything (refer_all canonical input id d fs b)
  unfolding refer_all
  refer_all-Keeps [] b a n v h = (v, Follows-refl b, tt)
  refer_all-Keeps (f ∷ fs) b a n v h =
      Keeps-bind input (some ids) b Anything Anything _ _
        (refer-Keeps f.location f.expr b a.0 (λ i m. n i (Memᴰ-append_left (found_ids fs) m)) v h)
        λ b' v' g _.
          refer_all-Keeps fs b' a.1 (λ i m. n i (Memᴰ-append_right (target_ids f.expr) m)) v'
            (g.0 d h)

  other_edge-Keeps :
      (co to : Descriptor) (b : Builder)
      → IsValid input (some ids) b
      → Has b.nodes co
      → Has b.nodes to
      → Keeps input (some ids) b Anything (add_edge_to_other canonical input id d co to b)
  other_edge-Keeps co to b v h k = elim (Bool-cases (to == co)) [
    | inl e ↦ rw (add_edge_to_other, e) (v, Follows-refl b, tt)
    | inr e ↦ rw (add_edge_to_other, e) (add_edge-Keeps input (some ids) b co to v h k)
  ]

  refer_from-Keeps :
      (co : Descriptor) (loc : Str) (e : Expr) (b : Builder)
      → ReferenceIsValid e
      → Within (target_ids e) ids
      → IsValid input (some ids) b
      → Has b.nodes co
      → Keeps input (some ids) b Anything (refer_from canonical input id d co loc e b)
  unfolding refer_from
  refer_from-Keeps co loc (resource t f) b r n v h =
      Gives-Keeps input (some ids) b (IsAllowed input (some ids)) Anything _ _
        (resolve-Gives t (r t f refl) n)
        λ to wt.
          Keeps-bind input (some ids) b (λ b'. Has b'.nodes to) Anything
            (some (request canonical input to (path_for id loc d) none b)) _
            (request-Keeps input (some ids) canonical b to (path_for id loc d) none v wt)
            λ b' v' g has. other_edge-Keeps co to b' v' (g.0 co h) has
  refer_from-Keeps co loc (context k) b r n v h = (v, Follows-refl b, tt)
  refer_from-Keeps co loc (externals k p) b r n v h = (v, Follows-refl b, tt)
  refer_from-Keeps co loc (shared k p) b r n v h = (v, Follows-refl b, tt)
  refer_from-Keeps co loc (values k p) b r n v h = (v, Follows-refl b, tt)
  refer_from-Keeps co loc (pod p) b r n v h = (v, Follows-refl b, tt)

  refer_all_from-Keeps :
      (co : Descriptor) (fs : List Found) (b : Builder)
      → All Valid fs
      → Within (found_ids fs) ids
      → IsValid input (some ids) b
      → Has b.nodes co
      → Keeps input (some ids) b Anything (refer_all_from canonical input id d co fs b)
  unfolding refer_all_from
  refer_all_from-Keeps co [] b a n v h = (v, Follows-refl b, tt)
  refer_all_from-Keeps co (f ∷ fs) b a n v h =
      Keeps-bind input (some ids) b Anything Anything _ _
        (refer_from-Keeps co f.location f.expr b a.0
          (λ i m. n i (Memᴰ-append_left (found_ids fs) m)) v h)
        λ b' v' g _.
          refer_all_from-Keeps co fs b' a.1 (λ i m. n i (Memᴰ-append_right (target_ids f.expr) m))
            v' (g.0 co h)

  co_edge-Keeps :
      (is_dependent : Bool) (co : Descriptor) (b : Builder)
      → IsValid input (some ids) b
      → Has b.nodes d
      → Has b.nodes co
      → Keeps input (some ids) b Anything (co_edge canonical input id d is_dependent co b)
  co_edge-Keeps true co b v h k = add_edge-Keeps input (some ids) b d co v h k
  co_edge-Keeps false co b v h k = add_edge-Keeps input (some ids) b co d v k h

  add_co-IsValid :
      (co : Descriptor) (m : Bool) (b : Builder)
      → IsValid input (some ids) b
      → Has b.nodes co
      → IsValid input (some ids) (add_co canonical input id d co m b)
  unfolding add_co
  add_co-IsValid co m b v h = record {
    nodes = v.nodes;
    queued = v.queued;
    co = All-set_insert (λ c. Has b.nodes c.co) _ b.co h v.co;
  }

  abbrev params_found : Str → Provision Value → Build (List Found)
  params_found key prov = in_definition id (
      collect_placeholders definition (provision_at canonical input id d key ++ bytes ".params")
        (or_else prov.params null))

  provide-Keeps :
      (key : Str) (prov : Provision Value) (b : Builder)
      → Within (ref_ids (resource_ref_parse key)) ids
      → Within (ids_of (params_found key prov)) ids
      → IsValid input (some ids) b
      → Has b.nodes d
      → Keeps input (some ids) b Anything (provide canonical input id d key prov b)
  unfolding provide
  provide-Keeps key prov b nk np v h =
      let params = or_else prov.params null in
      let place = path_for id (provision_at canonical input id d key) d in
      Gives-Keeps input (some ids) b Names Anything (parse_key canonical input id d key) _
        (parse_key-Gives key nk)
        λ target r.
          Gives-Keeps input (some ids) b (IsAllowed input (some ids)) Anything
            (resolve canonical input id d target) _ (resolve-Gives target r.0 r.1)
            λ co wc.
              Keeps-bind input (some ids) b (λ b'. Has b'.nodes co) Anything
                (some (request canonical input co place (some params) b)) _
                (request-Keeps input (some ids) canonical b co place (some params) v wc)
                λ b1 v1 g1 has1.
                  Keeps-bind input (some ids) b1 Anything Anything
                    (co_edge canonical input id d prov.is_dependent co b1) _
                    (co_edge-Keeps prov.is_dependent co b1 v1 (g1.0 d h) has1)
                    λ b2 v2 g2 _.
                      Gives-Keeps input (some ids) b2
                        (λ fs. All Valid fs × (params_found key prov ≡ some (ok fs))) Anything
                        (params_found key prov) _
                        (Gives-self (All Valid) (params_found key prov) (
                          in_definition-Gives id _
                            (collect_placeholders-Finds definition _ params)))
                        λ found (a, e).
                          Keeps-bind input (some ids) b2 Anything Anything
                            (refer_all_from canonical input id d co found b2) _
                            (refer_all_from-Keeps co found b2 a (Within-ids_of _ e np) v2
                              (g2.0 co has1))
                            λ b3 v3 g3 _. (
                              add_co-IsValid co prov.match_dependents b3 v3
                                  (g3.0 co (g2.0 co has1)),
                              Follows-refl b3,
                              tt,
                            )

  provide_all-Keeps :
      (ps : BTreeMap Str (Provision Value)) (b : Builder)
      → Within (provision_ids id ps) ids
      → IsValid input (some ids) b
      → Has b.nodes d
      → Keeps input (some ids) b Anything (provide_all canonical input id d ps b)
  unfolding provide_all provision_ids
  provide_all-Keeps [] b n v h = (v, Follows-refl b, tt)
  provide_all-Keeps ((key, prov) ∷ ps) b n v h =
      Keeps-bind input (some ids) b Anything Anything _ _
        (provide-Keeps key prov b (λ a m. n a (Memᴰ-append_left _ m))
          (λ a m. n a (Memᴰ-append_right (ref_ids (resource_ref_parse key)) (Memᴰ-append_left _ m)))
          v h)
        λ b' v' g _.
          provide_all-Keeps ps b'
            (λ a m. n a (
              Memᴰ-append_right (ref_ids (resource_ref_parse key))
                (Memᴰ-append_right (ids_of (params_found key prov)) m)))
            v' (g.0 d h)

module _ (canonical : Value → Str) (input : GraphInput) (ids : List ResId)
    (implicit : Within (implicit_ids input.types) ids)
    (named : Within (reference_ids input.definitions) ids) where
  expand_with-Keeps :
      (d : Descriptor) (def : ResourceDefinition Value) (b : Builder)
      → Memᴰ def input.definitions
      → IsAllowed input (some ids) d
      → IsValid input (some ids) b
      → Has b.nodes d
      → Keeps input (some ids) b Anything (expand_with canonical input d def b)
  unfolding expand_with
  expand_with-Keeps d def b m w v h =
      let its : Within (ids_of (found_in def) ++ provision_ids def.id def.provision) ids =
        λ a q. named a (reference_ids-Memᴰ m q) in
      Gives-Keeps input (some ids) b (λ fs. All Valid fs × (found_in def ≡ some (ok fs))) Anything
        (found_in def) _ (Gives-self (All Valid) (found_in def) (found_in-Gives def))
        λ found (a, e).
          Keeps-bind input (some ids) b Anything Anything
            (refer_all canonical input def.id d found b) _
            (refer_all-Keeps canonical input def.id d ids implicit w found b a
              (Within-ids_of ids e (λ a q. its a (Memᴰ-append_left _ q))) v h)
            λ b' v' g _.
              provide_all-Keeps canonical input def.id d ids implicit w def.provision b'
                (λ a q. its a (Memᴰ-append_right (ids_of (found_in def)) q)) v' (g.0 d h)

  -- Expanding a node of a valid builder never panics: it fails with an error of the input, or the
  -- builder is valid again and has every node that it had.
  pub expand-Keeps :
      (d : Descriptor) (b : Builder)
      → IsValid input (some ids) b
      → Has b.nodes d
      → Keeps input (some ids) b Anything (expand canonical input d b)
  unfolding expand
  expand-Keeps d b v h = elim (Option-cases (get d b.nodes)) [
    | inl n ↦ absurd (let bad = rw n at h in cc)
    | inr (node, n) ↦
        let own = v.nodes.each d node n in
        elim (Option-cases (find (λ x. x.id == node.definition) input.definitions)) [
          | inl q ↦ absurd (let bad = rw q at own.matched in cc)
          | inr (def, q) ↦
              let m = (find-Memᴰ (λ x. x.id == node.definition) input.definitions q).0 in
              rw (expand, n, q)
                (expand_with-Keeps d def b m
                  (record { descriptor = own.descriptor; named = own.named }) v h)
        ]
  ]

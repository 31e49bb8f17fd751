-- ===== src/Graph/Builder/Seeded.antt =====
-- What `build_graph` puts into the graph before it works off the queue.
use openporch.Prelude.{
  Str, bytes, List, [], ◌∷◌, ◌++◌, none, some, All, All-Memᴰ, ◌≡◌, sym, ◌∙◌, subst, inl, inr,
  Option-cases,
}
use openporch.Prelude.Order.{str_ord}
use openporch.Prelude.Result.{Result, ok, err, Result-cases}
use openporch.BTreeMap.{BTreeMap, get}
use openporch.BTreeMap.Members.{mem_of_get}
use openporch.Ids.{WorkloadId, ResId, Descriptor}
use openporch.Ids.Types.{descriptor_ord}
use openporch.Ids.Rules.{IdError, res_id_shared}
use openporch.Sets.Types.{External, Module, SharedResource}
use openporch.Placeholder.Ref.{or_else}
use openporch.Placeholder.Expr.{Expr, context, resource, externals, shared, values, pod, Dialect}
use openporch.Placeholder.Json.{Value, null, object}
use openporch.Placeholder.Run.{Run}
use openporch.Placeholder.Collect.{Found, collect_placeholders}
use openporch.Placeholder.References.{Finds, collect_placeholders-Finds}
use openporch.Graph.Builder.Types.{GraphInput, Builder, Build, no_nodes}
use openporch.Graph.Builder.Request.{request}
use openporch.Graph.Builder.Expand.{add_edge}
use openporch.Graph.Builder.Build.{
  base_env, workload_descriptor, workload_params, external_id, external_path, fields_of, or_default,
  add_externals, add_modules, add_shared, read_shared_ref, read_all, read_modules, seed,
}
use openporch.Graph.Builder.Valid.{
  Ids, Has, Follows, Follows-refl, IsValid, Keeps, Keeps-bind, Anything, All-map,
}
use openporch.Graph.Builder.Requested.{IsAllowed, request-Keeps, add_edge-Keeps}
use openporch.Graph.Builder.Gives.{Gives, Gives-Keeps}
use openporch.Graph.Builder.Input.{
  ExternalIsValid, ModuleIsValid, SharedIsValid, InputIsValid, workload-IsDescriptor,
  base_env-IsDescriptor, external_id-valid,
}

or_default-Gives : (m : Run (List Found)) → Finds m → Gives (λ fs. Unit) (or_default m)
or_default-Gives none h = h
or_default-Gives (some (err e)) h = tt
or_default-Gives (some (ok fs)) h = tt

Keeps-map :
    (input : GraphInput) (ids : Ids) (old : Builder) (P Q : Builder → Type 0) (m : Build Builder)
    → ((b : Builder) → Follows old b → P b → Q b)
    → Keeps input ids old P m
    → Keeps input ids old Q m
Keeps-map input ids old P Q none f h = h
Keeps-map input ids old P Q (some (err e)) f h = h
Keeps-map input ids old P Q (some (ok b)) f h = (h.0, h.1, f b h.1 h.2)

module _ (canonical : Value → Str) (input : GraphInput) where
  add_externals-Keeps :
      (wid : WorkloadId) (w : Descriptor) (es : BTreeMap Str (External Value)) (b : Builder)
      → All ExternalIsValid es
      → IsValid input none b
      → Has b.nodes w
      → Keeps input none b Anything (add_externals canonical input wid w es b)
  unfolding add_externals
  add_externals-Keeps wid w [] b a v h = (v, Follows-refl b, tt)
  add_externals-Keeps wid w ((key, ext) ∷ es) b a v h =
      elim (Result-cases (external_id wid key ext.id)) [
        | inl (x, e) ↦ rw (add_externals, e) tt
        | inr (r, e) ↦
            let dep : Descriptor = record { ty = ext.ty; class = ext.class; id = r } in
            let valid : IsAllowed input none dep = record {
              descriptor = record {
                ty = a.0.0;
                class = a.0.1;
                id = external_id-valid wid key ext.id e;
              };
              named = tt;
            } in
            let path = external_path wid key in
            let params = or_else ext.params null in
            rw (add_externals, e)
              (Keeps-bind input none b (λ b'. Has b'.nodes dep) Anything
                (some (request canonical input dep path (some params) b)) _
                (request-Keeps input none canonical b dep path (some params) v valid)
                λ b1 v1 g1 has.
                  Keeps-bind input none b1 Anything Anything (add_edge w dep b1) _
                    (add_edge-Keeps input none b1 w dep v1 (g1.0 w h) has)
                    λ b2 v2 g2 _. add_externals-Keeps wid w es b2 a.1 v2 (g2.0 w (g1.0 w h)))
      ]

  abbrev HasWorkloads : BTreeMap WorkloadId (Module Value) → Builder → Type 0
  HasWorkloads ms b = All (λ e. Has b.nodes (workload_descriptor e.0 e.1)) ms

  add_modules-Keeps :
      (ms : BTreeMap WorkloadId (Module Value)) (b : Builder)
      → All ModuleIsValid ms
      → IsValid input none b
      → Keeps input none b (HasWorkloads ms) (add_modules canonical input ms b)
  unfolding add_modules
  add_modules-Keeps [] b a v = (v, Follows-refl b, tt)
  add_modules-Keeps ((wid, m) ∷ ms) b a v =
      let w = workload_descriptor wid m in
      let path = bytes "modules." ++ wid in
      let params = workload_params wid m in
      Keeps-bind input none b (λ b'. Has b'.nodes w) (HasWorkloads ((wid, m) ∷ ms))
        (some (request canonical input w path (some params) b)) _
        (request-Keeps input none canonical b w path (some params) v
          (record { descriptor = workload-IsDescriptor wid m a.0; named = tt }))
        λ b1 v1 g1 has.
          Keeps-bind input none b1 Anything (HasWorkloads ((wid, m) ∷ ms))
            (add_externals canonical input wid w m.externals b1) _
            (add_externals-Keeps wid w m.externals b1 a.0.2 v1 has)
            λ b2 v2 g2 _.
              Keeps-map input none b2 (HasWorkloads ms) (HasWorkloads ((wid, m) ∷ ms))
                (add_modules canonical input ms b2)
                (λ b3 g3 all_there. (g3.0 w (g2.0 w has), all_there))
                (add_modules-Keeps ms b2 a.1 v2)

  abbrev SharedIsThere : Builder → Str × SharedResource Value → Type 0
  SharedIsThere b e =
      (r : ResId)
      → res_id_shared e.0 ≡ ok r
      → Has b.nodes (record { ty = e.1.ty; class = e.1.class; id = r })

  abbrev HasShared : BTreeMap Str (SharedResource Value) → Builder → Type 0
  HasShared ss b = All (SharedIsThere b) ss

  add_shared-Keeps :
      (ss : BTreeMap Str (SharedResource Value)) (b : Builder)
      → All SharedIsValid ss
      → IsValid input none b
      → Keeps input none b (HasShared ss) (add_shared canonical input ss b)
  unfolding add_shared
  add_shared-Keeps [] b a v = (v, Follows-refl b, tt)
  add_shared-Keeps ((id, s) ∷ ss) b a v = elim (Result-cases (res_id_shared id)) [
    | inl (x, e) ↦ rw (add_shared, e) tt
    | inr (r, e) ↦
        let d : Descriptor = record { ty = s.ty; class = s.class; id = r } in
        let path = bytes "shared." ++ id in
        let params = or_else s.params null in
        let valid : IsAllowed input none d = record {
          descriptor = record {
            ty = a.0.0;
            class = a.0.1;
            id = external_id-valid [] [] (some id) e;
          };
          named = tt;
        } in
        rw (add_shared, e)
          (Keeps-bind input none b (λ b'. Has b'.nodes d) (HasShared ((id, s) ∷ ss))
            (some (request canonical input d path (some params) b)) _
            (request-Keeps input none canonical b d path (some params) v valid)
            λ b1 v1 g1 has.
              Keeps-map input none b1 (HasShared ss) (HasShared ((id, s) ∷ ss))
                (add_shared canonical input ss b1)
                (λ b2 g2 there. (
                  λ r' e'.
                      let same : ◌≡◌ {A = Result IdError ResId} (ok r) (ok r') = sym e ∙ e' in
                      subst (λ x. Has b2.nodes (record { ty = s.ty; class = s.class; id = x }))
                        (let q : r ≡ r' = cc in q) (g2.0 d has),
                  there,
                ))
                (add_shared-Keeps ss b1 a.1 v1))
  ]

  read_shared_ref-Keeps :
      (w : Descriptor) (e : Expr) (b : Builder)
      → IsValid input none b
      → Has b.nodes w
      → HasShared input.set.shared b
      → Keeps input none b Anything (read_shared_ref canonical input w e b)
  unfolding read_shared_ref
  read_shared_ref-Keeps w (shared id p) b v h there =
      elim (Option-cases (get id input.set.shared)) [
        | inl n ↦ rw (read_shared_ref, n) (v, Follows-refl b, tt)
        | inr (s, n) ↦ elim (Result-cases (res_id_shared id)) [
          | inl (x, e) ↦ rw (read_shared_ref, n, e) (v, Follows-refl b, tt)
          | inr (r, e) ↦
              rw (read_shared_ref, n, e)
                (add_edge-Keeps input none b w _ v h
                  (All-Memᴰ (SharedIsThere b) there (mem_of_get id s input.set.shared n) r e))
        ]
      ]
  read_shared_ref-Keeps w (context k) b v h there = (v, Follows-refl b, tt)
  read_shared_ref-Keeps w (resource t f) b v h there = (v, Follows-refl b, tt)
  read_shared_ref-Keeps w (externals k p) b v h there = (v, Follows-refl b, tt)
  read_shared_ref-Keeps w (values k p) b v h there = (v, Follows-refl b, tt)
  read_shared_ref-Keeps w (pod p) b v h there = (v, Follows-refl b, tt)

  HasShared-grow :
      (ss : BTreeMap Str (SharedResource Value)) (b b' : Builder)
      → Follows b b'
      → HasShared ss b
      → HasShared ss b'
  HasShared-grow ss b b' g there =
      All-map ss (λ e h r q. g.0 (record { ty = e.1.ty; class = e.1.class; id = r }) (h r q)) there

  read_all-Keeps :
      (w : Descriptor) (fs : List Found) (b : Builder)
      → IsValid input none b
      → Has b.nodes w
      → HasShared input.set.shared b
      → Keeps input none b Anything (read_all canonical input w fs b)
  unfolding read_all
  read_all-Keeps w [] b v h there = (v, Follows-refl b, tt)
  read_all-Keeps w (f ∷ fs) b v h there =
      Keeps-bind input none b Anything Anything (read_shared_ref canonical input w f.expr b) _
        (read_shared_ref-Keeps w f.expr b v h there)
        λ b' v' g _.
          read_all-Keeps w fs b' v' (g.0 w h) (HasShared-grow input.set.shared b b' g there)

  read_modules-Keeps :
      (ms : BTreeMap WorkloadId (Module Value)) (b : Builder)
      → IsValid input none b
      → HasWorkloads ms b
      → HasShared input.set.shared b
      → Keeps input none b Anything (read_modules canonical input ms b)
  unfolding read_modules
  read_modules-Keeps [] b v h there = (v, Follows-refl b, tt)
  read_modules-Keeps ((wid, m) ∷ ms) b v h there =
      Gives-Keeps input none b (λ fs. Unit) Anything
        (or_default (collect_placeholders Dialect.set (bytes "spec") (object (fields_of m.spec)))) _
        (or_default-Gives _
          (collect_placeholders-Finds Dialect.set (bytes "spec") (object (fields_of m.spec))))
        λ found _.
          Keeps-bind input none b Anything Anything
            (read_all canonical input (workload_descriptor wid m) found b) _
            (read_all-Keeps (workload_descriptor wid m) found b v h.0 there)
            λ b1 v1 g1 _.
              read_modules-Keeps ms b1 v1 (All-map ms (λ e. g1.0 (workload_descriptor e.0 e.1)) h.1)
                (HasShared-grow input.set.shared b b1 g1 there)

  no_nodes-IsValid : IsValid input none no_nodes
  no_nodes-IsValid = record {
    nodes = record { sorted = tt; each = λ d n h. absurd (unfold get in cc) };
    queued = tt;
    co = tt;
  }

  pub seed-Keeps : InputIsValid input → Keeps input none no_nodes Anything (seed canonical input)
  unfolding seed
  seed-Keeps i =
      let ms = input.set.modules in
      let ss = input.set.shared in
      let path = bytes "base-env" in
      Keeps-bind input none no_nodes (λ b'. Has b'.nodes base_env) Anything
        (some (request canonical input base_env path none no_nodes)) _
        (request-Keeps input none canonical no_nodes base_env path none no_nodes-IsValid
          (record { descriptor = base_env-IsDescriptor; named = tt }))
        λ b0 v0 g0 _.
          Keeps-bind input none b0 (HasWorkloads ms) Anything (add_modules canonical input ms b0) _
            (add_modules-Keeps ms b0 i.modules v0)
            λ b1 v1 g1 workloads.
              Keeps-bind input none b1 (HasShared ss) Anything (add_shared canonical input ss b1) _
                (add_shared-Keeps ss b1 i.shared v1)
                λ b2 v2 g2 there.
                  read_modules-Keeps ms b2 v2
                    (All-map ms (λ e. g2.0 (workload_descriptor e.0 e.1)) workloads) there

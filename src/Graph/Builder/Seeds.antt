-- ===== src/Graph/Builder/Seeds.antt =====
-- What is put into the graph before the queue, and the matching of dependents, extend the graph.
use openporch.Prelude.{
  ℕ, zero, suc, ◌*◌, length, Str, bytes, Bool, true, false, ◌||◌, List, [], ◌∷◌, ◌++◌, Option, none,
  some, ◌≡◌, ap, arith, subst, inl, inr, Option-cases, keep,
}
use openporch.Prelude.Order.{str_ord, eq_iff}
use openporch.Prelude.Result.{Result, ok, err, map_err}
use openporch.BTreeMap.{BTreeMap, get, insert, set_insert}
use openporch.BTreeMap.Laws.{get-insert}
use openporch.Ids.{WorkloadId, Descriptor, ResId}
use openporch.Ids.Rules.{IdError, res_id_shared}
use openporch.Ids.Types.{descriptor_ord}
use openporch.Sets.Types.{External, Module, SharedResource}
use openporch.Placeholder.Json.{Value, null, object}
use openporch.Placeholder.Ref.{or_else}
use openporch.Placeholder.Expr.{Expr, Dialect, context, resource, externals, shared, values, pod}
use openporch.Placeholder.Collect.{Found, collect_placeholders}
use openporch.Graph.Builder.Types.{
  GraphInput, invalid_id, CoProvision, Node, Builder, no_nodes, Build, ◌>>=◌,
}
use openporch.Graph.Builder.Request.{request, edge}
use openporch.Graph.Builder.Expand.{add_edge}
use openporch.Graph.Builder.Build.{
  add_externals, add_modules, add_shared, shared_edge, read_shared_ref, read_all, read_modules,
  seed, workload_descriptor, workload_params, external_path, external_id, fields_of, or_default,
  base_env,
}
use openporch.Graph.Builder.Dependents.{
  consumers, add_consumers, one_round, dependents_loop, match_dependents,
}
use openporch.Graph.Builder.Valid.{Has, Anything}
use openporch.Graph.Builder.Settled.{HasEdge}
use openporch.Graph.Builder.Edges.{Reaches-weaken, Reaches-done}
use openporch.Graph.Builder.Worked.{Worked}
use openporch.Graph.Builder.Extends.{
  Extends, Extends-refl, Extends-trans, Reaches, Reaches-bind, Reaches-after, edge-Reaches,
  add_edge-Reaches, request-Reaches,
}

module _ (canonical : Value → Str) (input : GraphInput) where
  then_all :
      (b : Builder) (m : Build Builder) (f : Builder → Build Builder)
      → Reaches b Anything m
      → ((b1 : Builder) → Reaches b1 Anything (f b1))
      → Reaches b Anything (m >>= f)
  then_all b m f h k = Reaches-bind b Anything Anything m f h (λ b1 g x. k b1)

  asked :
      (d : Descriptor) (path : Str) (params : Option Value) (b : Builder)
      → Reaches b Anything (some (request canonical input d path params b))
  asked d path params b = request-Reaches canonical d path input params b

  edged : (from to : Descriptor) (b : Builder) → Reaches b Anything (add_edge from to b)
  edged from to b =
      Reaches-weaken b (λ b'. HasEdge b' from to) Anything (add_edge from to b)
        (add_edge-Reaches from to b) (λ b' g h. tt)

  add_externals-Reaches :
      (wid : WorkloadId) (w : Descriptor) (es : BTreeMap Str (External Value)) (b : Builder)
      → Reaches b Anything (add_externals canonical input wid w es b)
  unfolding add_externals
  add_externals-Reaches wid w [] b = Reaches-done b Anything tt
  add_externals-Reaches wid w ((key, ext) ∷ es) b =
      Reaches-after b Anything
        (some (map_err (invalid_id (external_path wid key)) (external_id wid key ext.id))) _
        λ id e.
          then_all b
            (some (
              request canonical input (record { ty = ext.ty; class = ext.class; id = id })
                (external_path wid key) (some (or_else ext.params null)) b))
            _ (asked _ _ _ b)
            λ b1.
              then_all b1 (add_edge w (record { ty = ext.ty; class = ext.class; id = id }) b1) _
                (edged w _ b1) (add_externals-Reaches wid w es)

  add_modules-Reaches :
      (ms : BTreeMap WorkloadId (Module Value)) (b : Builder)
      → Reaches b Anything (add_modules canonical input ms b)
  unfolding add_modules
  add_modules-Reaches [] b = Reaches-done b Anything tt
  add_modules-Reaches ((wid, m) ∷ ms) b =
      then_all b
        (some (
          request canonical input (workload_descriptor wid m) (bytes "modules." ++ wid)
            (some (workload_params wid m)) b))
        _ (asked _ _ _ b)
        λ b1.
          then_all b1 (add_externals canonical input wid (workload_descriptor wid m) m.externals b1)
            _ (add_externals-Reaches wid _ m.externals b1) (add_modules-Reaches ms)

  add_shared-Reaches :
      (ss : BTreeMap Str (SharedResource Value)) (b : Builder)
      → Reaches b Anything (add_shared canonical input ss b)
  unfolding add_shared
  add_shared-Reaches [] b = Reaches-done b Anything tt
  add_shared-Reaches ((id, s) ∷ ss) b =
      Reaches-after b Anything
        (some (map_err (invalid_id (bytes "shared." ++ id)) (res_id_shared id))) _
        λ res e.
          then_all b
            (some (
              request canonical input (record { ty = s.ty; class = s.class; id = res })
                (bytes "shared." ++ id) (some (or_else s.params null)) b))
            _ (asked _ _ _ b) (add_shared-Reaches ss)

  shared_edge-Reaches :
      (w : Descriptor) (s : SharedResource Value) (r : Result IdError ResId) (b : Builder)
      → Reaches b Anything (shared_edge canonical input w s r b)
  shared_edge-Reaches w s (ok id) b = edged w _ b
  shared_edge-Reaches w s (err e) b = Reaches-done b Anything tt

  read_shared_ref-Reaches :
      (w : Descriptor) (e : Expr) (b : Builder)
      → Reaches b Anything (read_shared_ref canonical input w e b)
  unfolding read_shared_ref
  read_shared_ref-Reaches w (shared id p) b = elim (Option-cases (get id input.set.shared)) [
    | inl n ↦ rw (read_shared_ref, n) (Reaches-done b Anything tt)
    | inr (s, n) ↦ rw (read_shared_ref, n) (shared_edge-Reaches w s (res_id_shared id) b)
  ]
  read_shared_ref-Reaches w (context k) b = Reaches-done b Anything tt
  read_shared_ref-Reaches w (resource t f) b = Reaches-done b Anything tt
  read_shared_ref-Reaches w (externals k p) b = Reaches-done b Anything tt
  read_shared_ref-Reaches w (values k p) b = Reaches-done b Anything tt
  read_shared_ref-Reaches w (pod p) b = Reaches-done b Anything tt

  read_all-Reaches :
      (w : Descriptor) (fs : List Found) (b : Builder)
      → Reaches b Anything (read_all canonical input w fs b)
  unfolding read_all
  read_all-Reaches w [] b = Reaches-done b Anything tt
  read_all-Reaches w (f ∷ fs) b =
      then_all b (read_shared_ref canonical input w f.expr b) _ (read_shared_ref-Reaches w f.expr b)
        (read_all-Reaches w fs)

  read_modules-Reaches :
      (ms : BTreeMap WorkloadId (Module Value)) (b : Builder)
      → Reaches b Anything (read_modules canonical input ms b)
  unfolding read_modules
  read_modules-Reaches [] b = Reaches-done b Anything tt
  read_modules-Reaches ((wid, m) ∷ ms) b =
      Reaches-after b Anything
        (or_default (collect_placeholders Dialect.set (bytes "spec") (object (fields_of m.spec)))) _
        λ found e.
          then_all b (read_all canonical input (workload_descriptor wid m) found b) _
            (read_all-Reaches _ found b) (read_modules-Reaches ms)

  seed-Reaches : Reaches no_nodes Anything (seed canonical input)
  unfolding seed
  seed-Reaches =
      then_all no_nodes (some (request canonical input base_env (bytes "base-env") none no_nodes)) _
        (asked _ _ _ no_nodes)
        λ b0.
          then_all b0 (add_modules canonical input input.set.modules b0) _
            (add_modules-Reaches input.set.modules b0)
            λ b1.
              then_all b1 (add_shared canonical input input.set.shared b1) _
                (add_shared-Reaches input.set.shared b1) (read_modules-Reaches input.set.modules)

  -- Every node waits for its expansion when the queue is worked off.
  pub seed-Worked : (b : Builder) → seed canonical input ≡ some (ok b) → Worked canonical input b
  unfolding get
  seed-Worked b e d h = elim ((seed-Reaches b e).0.fresh d h) [
    | inl bad ↦ absurd (cc)
    | inr m ↦ inl m
  ]

-- The builder is extended, by edges alone.
abbrev pub Settles : Builder → Builder → Type 0
Settles b b' = Extends b b' × ((d : Descriptor) → Has b'.nodes d → Has b.nodes d)

Settles-refl : (b : Builder) → Settles b b
Settles-refl b = (Extends-refl b, λ d h. h)

Settles-trans : (a b c : Builder) → Settles a b → Settles b c → Settles a c
Settles-trans a b c f g = (Extends-trans a b c f.0 g.0, λ d h. f.1 d (g.1 d h))

edge-Settles :
    (from to : Descriptor) (b b' : Builder) (new : Bool)
    → edge from to b ≡ some (b', new)
    → Settles b b'
unfolding edge
edge-Settles from to b b' new h = elim (Option-cases (get from b.nodes)) [
  | inl n ↦ absurd (let bad = rw (edge, n) at h in cc)
  | inr (node, n) ↦
      let node' : Node = record node { depends_on = set_insert to node.depends_on } in
      let result : record b { nodes = insert from node' b.nodes } ≡ b' =
        ap (λ o. elim o [ none ↦ b | some (x, y) ↦ x ]) (rw (edge, n) at h) in
      (
        (edge-Reaches from to b b' new h).0,
        subst (λ x. (d : Descriptor) → Has x.nodes d → Has b.nodes d) result
            (λ d k. ground (arith, get-insert from d node' b.nodes, k, n, eq_iff d from)),
      )
]

add_consumers-Settles :
    (co : Descriptor) (ds : List Descriptor) (b b' : Builder) (added added' : Bool)
    → add_consumers co ds b added ≡ some (b', added')
    → Settles b b'
unfolding add_consumers
add_consumers-Settles co [] b b' added added' h =
    subst (Settles b) (ap (λ o. elim o [ none ↦ b | some (x, y) ↦ x ]) h) (Settles-refl b)
add_consumers-Settles co (d ∷ ds) b b' added added' h = elim (Option-cases (edge d co b)) [
  | inl n ↦ absurd (let bad = rw (add_consumers, n) at h in cc)
  | inr ((b1, new), e) ↦
      Settles-trans b b1 b' (edge-Settles d co b b1 new e)
        (add_consumers-Settles co ds b1 b' (added || new) added' (rw (add_consumers, e) at h))
]

one_round-Settles :
    (cs : List CoProvision) (b b' : Builder) (added added' : Bool)
    → one_round cs b added ≡ some (b', added')
    → Settles b b'
unfolding one_round
one_round-Settles [] b b' added added' h =
    subst (Settles b) (ap (λ o. elim o [ none ↦ b | some (x, y) ↦ x ]) h) (Settles-refl b)
one_round-Settles (c ∷ cs) b b' added added' h =
    elim (Option-cases (add_consumers c.co (consumers c b.nodes) b added)) [
      | inl n ↦ absurd (let bad = rw (one_round, n) at h in cc)
      | inr ((b1, more), e) ↦
          Settles-trans b b1 b' (add_consumers-Settles c.co (consumers c b.nodes) b b1 added more e)
            (one_round-Settles cs b1 b' more added' (rw (one_round, e) at h))
    ]

loop-Settles : (fuel : ℕ) (b b' : Builder) → dependents_loop fuel b ≡ some b' → Settles b b'
unfolding dependents_loop
loop-Settles zero b b' h = absurd (cc)
loop-Settles (suc fuel) b b' h =
    elim (Option-cases (one_round (keep (λ c. c.match_dependents) b.co) b false)) [
      | inl n ↦ absurd (let bad = rw (dependents_loop, n) at h in cc)
      | inr ((b1, true), e) ↦
          Settles-trans b b1 b' (one_round-Settles _ b b1 false true e)
            (loop-Settles fuel b1 b' (rw (dependents_loop, e) at h))
      | inr ((b1, false), e) ↦
          let q : b1 ≡ b' =
            ap (λ o. elim o [ none ↦ b1 | some x ↦ x ]) (rw (dependents_loop, e) at h) in
          subst (Settles b) q (one_round-Settles _ b b1 false false e)
    ]

pub match_dependents-Settles : (b b' : Builder) → match_dependents b ≡ some b' → Settles b b'
unfolding match_dependents
match_dependents-Settles b b' h = loop-Settles (suc (length b.nodes * length b.nodes)) b b' h

-- ===== src/Graph/Builder/Outcome.antt =====
-- `build_graph` as a whole.
use openporch.Prelude.{
  ℕ, zero, suc, ◌+◌, ◌≤◌, length, arith, [], ◌∷◌, none, some, All, ◌≡◌, refl, ap, subst, inl, inr,
  Str, List-cases,
}
use openporch.Prelude.Chain.{IsCycle}
use openporch.Prelude.Result.{ok, err}
use openporch.BTreeMap.{BTreeMap}
use openporch.Ids.{Descriptor}
use openporch.Ids.Types.{descriptor_ord}
use openporch.Placeholder.Json.{Value}
use openporch.Graph.Cycle.{Edge}
use openporch.Graph.Topology.{IsOrder, layers_of_outcome}
use openporch.Graph.Builder.Types.{
  GraphInput, GraphError, unknown_type, invalid_id, missing_class, no_match, bad_placeholder,
  conflict, cycle, Node, Builder, Build, no_nodes, ◌>>=◌,
}
use openporch.Graph.Builder.Expand.{expand}
use openporch.Canonical.Number.{Numbers}
use openporch.Canonical.Write.{canonical_text}
use openporch.Graph.Builder.Build.{ResourceGraph, seed, expand_all, deps_of, finish, build_graph}
use openporch.Graph.Builder.Deps.{deps_of-IsSorted, deps_of-IsClosed}
use openporch.Graph.Builder.Valid.{Ids, Has, AreNodes, IsValid, IsRefusal, Follows, Keeps, Anything}
use openporch.Graph.Builder.Gives.{Gives, Gives-bind}
use openporch.Graph.Builder.Universe.{most_nodes}
use openporch.Graph.Builder.Bound.{
  ids_from, nodes-le, start-IsValid, implicit_known, reference_known,
}
use openporch.Graph.Builder.Expanded.{expand-Keeps}
use openporch.Graph.Builder.Dependents.{match_dependents}
use openporch.Graph.Builder.Settled.{MatchesDependents}
use openporch.Graph.Builder.Worked.{IsExpanded, IsExpanded-extend, expand_all-IsExpanded}
use openporch.Graph.Builder.Seeds.{seed-Worked, match_dependents-Settles}
use openporch.Graph.Builder.Waits.{match_dependents_total}
use openporch.Graph.Builder.Input.{InputIsValid}
use openporch.Graph.Builder.Seeded.{seed-Keeps}

Keeps-Gives :
    (input : GraphInput) (ids : Ids) (old : Builder) (m : Build Builder)
    → Keeps input ids old Anything m
    → Gives (λ b. IsValid input ids b × Follows old b) m
Keeps-Gives input ids old none h = h
Keeps-Gives input ids old (some (err e)) h = h
Keeps-Gives input ids old (some (ok b)) h = (h.0, h.1)

AreNodes-forget :
    {input : GraphInput} {ids : Ids} {nodes : BTreeMap Descriptor Node}
    → AreNodes input ids nodes
    → AreNodes input none nodes
AreNodes-forget v = record {
  sorted = v.sorted;
  each = λ d n h.
      let w = v.each d n h in
      record {
        own = w.own;
        descriptor = w.descriptor;
        known = w.known;
        class = w.class;
        named = tt;
        matched = w.matched;
        selected = w.selected;
        closed = w.closed;
        sorted = w.sorted;
      };
}

module _ (canonical : Value → Str) (input : GraphInput) (start : Builder) where
  -- Each round takes a node from the queue, and puts there only nodes that are new.
  expand_all-Gives :
      (fuel : ℕ) (b : Builder)
      → IsValid input (some (ids_from input start)) b
      → length b.queue + most_nodes input start ≤ fuel + length b.nodes
      → Gives (IsValid input (some (ids_from input start))) (expand_all canonical input fuel b)
  unfolding expand_all
  expand_all-Gives zero b v h = elim (List-cases b.queue) [
    | inl e ↦ rw (expand_all, e) v
    | inr (d, ds, e) ↦ absurd (omega (arith, ap length e, nodes-le input start b.nodes v.nodes, h))
  ]
  expand_all-Gives (suc fuel) b v h = elim (List-cases b.queue) [
    | inl e ↦ rw (expand_all, e) v
    | inr (d, ds, e) ↦
        let there : All (Has b.nodes) (d ∷ ds) = subst (All (Has b.nodes)) e v.queued in
        let rest : Builder = record b { queue = ds } in
        let popped : IsValid input (some (ids_from input start)) rest = record {
          nodes = v.nodes;
          queued = there.1;
          co = v.co;
        } in
        rw (expand_all, e)
          (Gives-bind (λ b'. IsValid input (some (ids_from input start)) b' × Follows rest b')
            (IsValid input (some (ids_from input start))) (expand canonical input d rest) _
            (Keeps-Gives input (some (ids_from input start)) rest (expand canonical input d rest) (
              expand-Keeps canonical input (ids_from input start) (implicit_known input start)
                (reference_known input start) d rest popped there.0))
            λ b' (v', f). expand_all-Gives fuel b' v' (omega (arith, ap length e, f.1, h)))
  ]

module _ {F : Type 0} (n : Numbers F) (input : GraphInput) where
  -- The builder at the end of `build_graph`: the set is read, the queue is worked off, and dependents
  -- are matched.
  pub record IsBuilt (b : Builder) : Type 0 where
    pub seeded : Builder
    pub expanded : Builder
    pub seeds : seed (canonical_text n) input ≡ some (ok seeded)
    pub expands :
        expand_all (canonical_text n) input (length seeded.queue + most_nodes input seeded) seeded
        ≡ some (ok expanded)
    pub matches : match_dependents expanded ≡ some b

  -- The graph of the input: its nodes are valid, each has what its definition asks for, and they have
  -- every edge that `match_dependents` asks for.
  pub record IsGraph (b : Builder) : Type 0 where
    pub built : IsBuilt b
    pub nodes : AreNodes input none b.nodes
    pub expanded : (d : Descriptor) → Has b.nodes d → IsExpanded (canonical_text n) input d b
    pub dependents : MatchesDependents b

  -- What `build_graph` may return: an error of the input; a real cycle of the graph; or the graph's
  -- nodes with layers that are an order of them. There is no panic, and the fuel does not end.
  abbrev pub Outcome : Build ResourceGraph → Type 0
  Outcome none = ⊥
  Outcome (some (err (cycle c))) = (b : Builder) × IsGraph b × IsCycle (Edge (deps_of b.nodes)) c
  Outcome (some (err (unknown_type path ty))) = Unit
  Outcome (some (err (invalid_id path e))) = Unit
  Outcome (some (err (missing_class path ty class))) = Unit
  Outcome (some (err (no_match path e))) = Unit
  Outcome (some (err (bad_placeholder def e))) = Unit
  Outcome (some (err (conflict d first second))) = Unit
  Outcome (some (ok g)) =
      (b : Builder) × IsGraph b × (g.nodes ≡ b.nodes) × IsOrder (deps_of b.nodes) [] g.layers

  Outcome-refusal : (e : GraphError) → IsRefusal e → Outcome (some (err e))
  Outcome-refusal (cycle c) h = absurd h
  Outcome-refusal (unknown_type path ty) h = tt
  Outcome-refusal (invalid_id path e) h = tt
  Outcome-refusal (missing_class path ty class) h = tt
  Outcome-refusal (no_match path e) h = tt
  Outcome-refusal (bad_placeholder def e) h = tt
  Outcome-refusal (conflict d first second) h = tt

  Gives-Outcome :
      (P : Builder → Type 0) (m : Build Builder) (f : Builder → Build ResourceGraph)
      → Gives P m
      → ((b : Builder) → m ≡ some (ok b) → P b → Outcome (f b))
      → Outcome (m >>= f)
  Gives-Outcome P none f h k = absurd h
  Gives-Outcome P (some (err e)) f h k = Outcome-refusal e h
  Gives-Outcome P (some (ok b)) f h k = k b refl h

  finish-Outcome :
      (ids : Ids) (b1 b2 : Builder)
      → IsValid input ids b2
      → seed (canonical_text n) input ≡ some (ok b1)
      → expand_all (canonical_text n) input (length b1.queue + most_nodes input b1) b1
        ≡ some (ok b2)
      → Outcome (finish b2)
  unfolding finish
  finish-Outcome ids b1 b2 v seeds expands =
      let (b, e, v', g, m) = match_dependents_total input ids b2 v in
      let graph : IsGraph b = record {
        built = record {
          seeded = b1;
          expanded = b2;
          seeds = seeds;
          expands = expands;
          matches = e;
        };
        nodes = AreNodes-forget v'.nodes;
        expanded = λ d has.
            let (old, same) = match_dependents-Settles b2 b e in
            let worked =
              expand_all-IsExpanded (canonical_text n) input (length b1.queue + most_nodes input b1)
                b1 b2 (seed-Worked (canonical_text n) input b1 seeds) expands in
            IsExpanded-extend (canonical_text n) input d b2 b (same d has) old
              (worked d (same d has));
        dependents = m;
      } in
      elim (layers_of_outcome (deps_of b.nodes) (deps_of-IsSorted b.nodes v'.nodes.sorted)
        (deps_of-IsClosed input b.nodes graph.nodes)) [
          | inl (layers, q, order) ↦ rw (finish, e, q) (b, graph, refl, order)
          | inr (c, q, found) ↦ rw (finish, e, q) (b, graph, found)
        ]

  -- For a set with valid identifiers `build_graph` ends, and does not panic outside the writing
  -- of canonical texts. The graph that it builds has only nodes of types and classes of the
  -- input, each matched with the definition that `select_definition` gives for it, and their
  -- dependencies are all nodes. Each node has what its definition asks for: an edge to every
  -- resource that a placeholder of the definition's inputs, secrets or driver account refers to;
  -- for each entry of `provision` the edge between the node and the resource, in the direction
  -- that `is_dependent` tells, and the resource's edges for the references in its params.
  -- Whatever depends on the source of a co-provisioned resource with `match_dependents` depends
  -- on the resource too. What is returned is an error of the input, a cycle of this graph, or
  -- the nodes of this graph in layers that are an order of them.
  pub build_graph_outcome : InputIsValid input → Outcome (build_graph n input)
  unfolding build_graph
  build_graph_outcome i =
      let canonical = canonical_text n in
      Gives-Outcome (λ b. IsValid input none b × Follows no_nodes b) (seed canonical input) _
        (Keeps-Gives input none no_nodes (seed canonical input) (seed-Keeps canonical input i))
        λ b e (v, f).
          Gives-Outcome (IsValid input (some (ids_from input b)))
            (expand_all canonical input (length b.queue + most_nodes input b) b) _
            (expand_all-Gives canonical input b (length b.queue + most_nodes input b) b
              (start-IsValid input b v) (omega arith))
            λ b' e' v'. finish-Outcome (some (ids_from input b)) b b' v' e e'

-- ===== src/Graph/Builder/Dependents.antt =====
-- `Builder::match_dependents` of crates/core/src/graph.rs.
use openporch.Prelude.{
  ℕ, zero, suc, ◌*◌, Bool, true, false, ◌||◌, ◌&&◌, not, List, [], ◌∷◌, Option, none, some, map,
  keep, length,
}
use openporch.Prelude.Order.{◌==◌}
use openporch.BTreeMap.{BTreeMap, values, set_contains}
use openporch.Ids.{Descriptor}
use openporch.Ids.Types.{descriptor_ord}
use openporch.Graph.Builder.Types.{Node, CoProvision, Builder}
use openporch.Graph.Builder.Request.{edge}

unfoldable pub consumers : CoProvision → BTreeMap Descriptor Node → List Descriptor
consumers c nodes =
    map (λ n. n.descriptor)
      (keep
        (λ n.
          set_contains c.source n.depends_on
          && not (n.descriptor == c.co)
          && not (n.descriptor == c.source))
        (values nodes))

-- `for consumer in consumers { added |= self.edge(&consumer, &c.co); }`
unfoldable pub add_consumers :
    Descriptor → List Descriptor → Builder → Bool → Option (Builder × Bool)
unfolding edge
add_consumers co [] b added = some (b, added)
add_consumers co (d ∷ ds) b added = elim (edge d co b) [
  | none ↦ none
  | some (b', new) ↦ add_consumers co ds b' (added || new)
]

-- `for c in cos { .. }`
unfoldable pub one_round : List CoProvision → Builder → Bool → Option (Builder × Bool)
unfolding consumers add_consumers
one_round [] b added = some (b, added)
one_round (c ∷ cs) b added = elim (add_consumers c.co (consumers c b.nodes) b added) [
  | none ↦ none
  | some (b', added') ↦ one_round cs b' added'
]

unfoldable pub dependents_loop : ℕ → Builder → Option Builder
unfolding one_round
dependents_loop zero b = none
dependents_loop (suc fuel) b = elim (one_round (keep (λ c. c.match_dependents) b.co) b false) [
  | none ↦ none
  | some (b', true) ↦ dependents_loop fuel b'
  | some (b', false) ↦ some b'
]

-- Each round but the last adds one of the edges between two nodes.
unfoldable pub match_dependents : Builder → Option Builder
unfolding dependents_loop
match_dependents b = dependents_loop (suc (length b.nodes * length b.nodes)) b

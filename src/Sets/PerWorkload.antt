-- ===== src/Sets/PerWorkload.antt =====
-- What a delta does to one workload, whatever the others are: the abstract view of `apply_delta`.
-- `none` is a workload that the set does not have.
use openporch.Prelude.{List, Option, none, some, if◌then◌else◌}
use openporch.Prelude.Order.{str_ord}
use openporch.Prelude.Result.{Result, ok, err, ◌>>=◌}
use openporch.BTreeMap.{BTreeMap, get, set_contains}
use openporch.Ids.{WorkloadId}
use openporch.Sets.Types.{
  Module, Delta, DeltaError, remove_missing, add_existing, update_missing, Serde,
}
use openporch.Sets.Apply.{Modules, patch_module}

module _ {ℓ} {V : Type ℓ} where
  abbrev pub remove_at :
      List WorkloadId → WorkloadId → Option (Module V) → Result DeltaError (Option (Module V))
  remove_at ids k o =
      if set_contains k ids
      then elim o [ none ↦ err (remove_missing k) | some old ↦ ok none ]
      else ok o

  abbrev pub add_at :
      Modules V → WorkloadId → Option (Module V) → Result DeltaError (Option (Module V))
  add_at adds k o = elim (get k adds) [
    | none ↦ ok o
    | some new ↦ elim o [ none ↦ ok (some new) | some old ↦ err (add_existing k) ]
  ]

module _ {ℓ} {V P : Type ℓ} (serde : Serde V P) where
  abbrev pub update_at :
      BTreeMap WorkloadId (List P)
      → WorkloadId
      → Option (Module V)
      → Result DeltaError (Option (Module V))
  update_at updates k o = elim (get k updates) [
    | none ↦ ok o
    | some ops ↦ elim o [
      | none ↦ err (update_missing k)
      | some old ↦ do new ← patch_module serde k ops old; ok (some new)
    ]
  ]

  abbrev pub workload_after :
      Delta V P → WorkloadId → Option (Module V) → Result DeltaError (Option (Module V))
  workload_after delta k o = do
    kept ← remove_at delta.modules.remove k o
    added ← add_at delta.modules.add k kept
    update_at delta.modules.update k added

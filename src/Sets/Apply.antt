-- ===== src/Sets/Apply.antt =====
-- `apply_delta`: removals, then additions, then updates, then the shared resources.
use openporch.Prelude.{Str, List, [], ◌∷◌, none, some, is_nil, if◌then◌else◌}
use openporch.Prelude.Order.{str_ord}
use openporch.Prelude.Result.{Result, ok, err, ◌>>=◌, map_err}
use openporch.BTreeMap.{BTreeMap, get, contains_key, insert, remove}
use openporch.Ids.{WorkloadId}
use openporch.Sets.Types.{
  Module, SharedResource, DeploymentSet, Delta, DeltaError, remove_missing, add_existing,
  update_missing, update_failed, shared_failed, Serde,
}

abbrev pub Modules {ℓ} : Type ℓ → Type ℓ
Modules V = BTreeMap WorkloadId (Module V)

module _ {ℓ} {V : Type ℓ} where
  unfoldable pub remove_workloads : List WorkloadId → Modules V → Result DeltaError (Modules V)
  unfolding contains_key remove
  remove_workloads [] m = ok m
  remove_workloads (id ∷ ids) m =
      let rest = remove_workloads ids (remove id m) in
      if contains_key id m then rest else err (remove_missing id)

  unfoldable pub add_workloads : Modules V → Modules V → Result DeltaError (Modules V)
  unfolding contains_key insert
  add_workloads [] m = ok m
  add_workloads ((id, new) ∷ adds) m =
      let rest = add_workloads adds (insert id new m) in
      if contains_key id m then err (add_existing id) else rest

module _ {ℓ} {V P : Type ℓ} (serde : Serde V P) where
  -- What an update makes of a workload.
  unfoldable pub patch_module : WorkloadId → List P → Module V → Result DeltaError (Module V)
  patch_module id ops old = do
    doc ← map_err (update_failed id) (serde.module_to_value old)
    patched ← map_err (update_failed id) (serde.patch doc ops)
    map_err (update_failed id) (serde.module_from_value patched)

  unfoldable pub update_workloads :
      BTreeMap WorkloadId (List P) → Modules V → Result DeltaError (Modules V)
  unfolding get insert patch_module
  update_workloads [] m = ok m
  update_workloads ((id, ops) ∷ updates) m = elim (get id m) [
    | none ↦ err (update_missing id)
    | some old ↦ do new ← patch_module id ops old; update_workloads updates (insert id new m)
  ]

  unfoldable pub apply_shared :
      List P → BTreeMap Str (SharedResource V) → Result DeltaError (BTreeMap Str (SharedResource V))
  apply_shared ops shared = if is_nil ops then ok shared else (do
    doc ← map_err shared_failed (serde.shared_to_value shared)
    patched ← map_err shared_failed (serde.patch doc ops)
    map_err shared_failed (serde.shared_from_value patched))

  unfoldable pub apply_delta : DeploymentSet V → Delta V P → Result DeltaError (DeploymentSet V)
  unfolding remove_workloads add_workloads update_workloads apply_shared
  apply_delta set delta = do
    kept ← remove_workloads delta.modules.remove set.modules
    added ← add_workloads delta.modules.add kept
    updated ← update_workloads delta.modules.update added
    shared ← apply_shared delta.shared set.shared
    ok (record { modules = updated; shared = shared })

-- ===== src/Sets/Workload.antt =====
-- The delta for one workload.
use openporch.Prelude.{some, ◌≡◌, Option-cases, inl, inr}
use openporch.Prelude.Order.{str_ord}
use openporch.Prelude.Result.{ok}
use openporch.BTreeMap.{get, insert}
use openporch.BTreeMap.Laws.{contains_key-get}
use openporch.Ids.{WorkloadId}
use openporch.Sets.Types.{Module, DeploymentSet, Delta, default_delta, Serde}
use openporch.Sets.Apply.{apply_delta, update_workloads}
use openporch.Sets.Diff.{insert_add, insert_update, workload_delta}
use openporch.Sets.Serde.{SerdeLaws, ModuleReadsBack}
use openporch.Sets.Differences.{ops_of, module_diff_lem}
use openporch.Sets.RoundTrip.{patch_module-ops_of}

module _ {ℓ} {V P : Type ℓ} {serde : Serde V P} (laws : SerdeLaws serde) where
  -- Applied to the set, the delta of `workload_delta` puts the workload there, new or in place of
  -- the old one, and changes nothing else.
  pub apply_delta-workload_delta :
      (set : DeploymentSet V) (id : WorkloadId) (m : Module V)
      → ModuleReadsBack laws m
      → (d : Delta V P) × (workload_delta serde set id m ≡ some d)
        × (apply_delta serde set d ≡ ok (record set { modules = insert id m set.modules }))
  unfolding apply_delta workload_delta
  apply_delta-workload_delta set id m h = elim (Option-cases (get id set.modules)) [
    | inl e ↦ (
      insert_add id m default_delta,
      rw (workload_delta, e),
      rw (contains_key-get id set.modules, e),
    )
    | inr (old, e) ↦ (
      insert_update id (ops_of laws old m) default_delta,
      rw (workload_delta, e) (rw (module_diff_lem laws old m)),
      rw (update_workloads, e) (rw (patch_module-ops_of laws id old m h)),
    )
  ]

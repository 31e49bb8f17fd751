-- ===== src/Sets/Refines.antt =====
-- `apply_delta` does to every workload what its abstract view says, and succeeds exactly where that
-- succeeds for each of them.
use openporch.Prelude.{Str, ◌≡◌, refl, ap, ◌∙◌, ◌↔◌}
use openporch.Prelude.Order.{str_ord}
use openporch.Prelude.Result.{ok, >>=-ok, >>=-after, ok_inj}
use openporch.Prelude.Distinct.{Distinct}
use openporch.BTreeMap.{BTreeMap, get}
use openporch.BTreeMap.Sorted.{IsSorted}
use openporch.Ids.{WorkloadId}
use openporch.Sets.Types.{SharedResource, DeploymentSet, Delta, Serde}
use openporch.Sets.Apply.{
  Modules, remove_workloads, add_workloads, update_workloads, apply_shared, apply_delta,
}
use openporch.Sets.PerWorkload.{remove_at, add_at, workload_after}
use openporch.Sets.Loops.{
  Succeeds, remove_workloads-ok, remove_workloads-IsSorted, remove_workloads-total,
  add_workloads-ok, add_workloads-IsSorted, add_workloads-total, update_workloads-ok,
  update_workloads-IsSorted, update_workloads-total,
}

-- The maps of a delta are in order, as every `BTreeMap` is, and it removes no workload twice.
pub record IsProper {ℓ} {V P : Type ℓ} (d : Delta V P) : Type ℓ where
  pub adds_sorted : IsSorted d.modules.add
  pub updates_sorted : IsSorted d.modules.update
  pub removes_distinct : Distinct d.modules.remove

abbrev first {ℓ κ μ} :
    {A : Type ℓ} {B : A → Type κ} {C : A → Type μ} → (a : A) × B a × C a → (a : A) × B a
first (a, b, c) = (a, b)

module _ {ℓ} {V P : Type ℓ} (serde : Serde V P) (set : DeploymentSet V) (d : Delta V P) where
  -- The stages of a run that succeeds.
  pub record Run (out : DeploymentSet V) : Type ℓ where
    pub kept : Modules V
    pub added : Modules V
    pub removes : remove_workloads d.modules.remove set.modules ≡ ok kept
    pub adds : add_workloads d.modules.add kept ≡ ok added
    pub updates : update_workloads serde d.modules.update added ≡ ok out.modules
    pub shares : apply_shared serde d.shared set.shared ≡ ok out.shared

  Run-of_apply_delta : {out : DeploymentSet V} → apply_delta serde set d ≡ ok out → Run out
  unfolding apply_delta
  Run-of_apply_delta h =
      let (kept, r, h1) = >>=-ok (remove_workloads d.modules.remove set.modules) h in
      let (added, a, h2) = >>=-ok (add_workloads d.modules.add kept) h1 in
      let (updated, u, h3) = >>=-ok (update_workloads serde d.modules.update added) h2 in
      let (shared, s, h4) = >>=-ok (apply_shared serde d.shared set.shared) h3 in
      record {
        kept = kept;
        added = added;
        removes = r;
        adds = a;
        updates = u ∙ ap (λ (x : DeploymentSet V). ok x.modules) (ok_inj h4);
        shares = s ∙ ap (λ (x : DeploymentSet V). ok x.shared) (ok_inj h4);
      }

  apply_delta_of_Run : {out : DeploymentSet V} → Run out → apply_delta serde set d ≡ ok out
  unfolding apply_delta
  apply_delta_of_Run {out} r = rw (r.removes, r.adds, r.updates, r.shares)

  pub apply_delta-IsSorted :
      {out : DeploymentSet V}
      → apply_delta serde set d ≡ ok out
      → IsSorted set.modules
      → IsSorted out.modules
  apply_delta-IsSorted h s =
      let r = Run-of_apply_delta h in
      update_workloads-IsSorted serde d.modules.update r.added r.updates (
        add_workloads-IsSorted d.modules.add r.kept r.adds
          (remove_workloads-IsSorted d.modules.remove set.modules r.removes s))

  -- Where a well-formed delta is applied, every workload is what the delta's own entries make of
  -- that workload alone.
  pub apply_delta-refines :
      {out : DeploymentSet V}
      → IsProper d
      → apply_delta serde set d ≡ ok out
      → (k : WorkloadId) → workload_after serde d k (get k set.modules) ≡ ok (get k out.modules)
  apply_delta-refines p h k =
      let r = Run-of_apply_delta h in
      rw (
        remove_workloads-ok d.modules.remove set.modules r.removes k,
        add_workloads-ok d.modules.add r.kept p.adds_sorted r.adds k,
        update_workloads-ok serde d.modules.update r.added p.updates_sorted r.updates k,
      )

  -- It succeeds where each workload's own changes and those of the shared resources do.
  pub apply_delta-total :
      {shared : BTreeMap Str (SharedResource V)}
      → IsProper d
      → Succeeds (workload_after serde d) set.modules
      → apply_shared serde d.shared set.shared ≡ ok shared
      → (out : DeploymentSet V) × (apply_delta serde set d ≡ ok out) × (out.shared ≡ shared)
  apply_delta-total {shared} p h s =
      let (kept, r) =
        remove_workloads-total d.modules.remove set.modules p.removes_distinct
          (λ k. first (>>=-ok (remove_at d.modules.remove k (get k set.modules)) (h k).1)) in
      let removed = remove_workloads-ok d.modules.remove set.modules r in
      let (added, a) = add_workloads-total d.modules.add kept p.adds_sorted (λ k.
        first (>>=-ok (add_at d.modules.add k (get k kept)) (>>=-after _ (removed k) (h k).1))) in
      let grown = add_workloads-ok d.modules.add kept p.adds_sorted a in
      let (updated, u) =
        update_workloads-total serde d.modules.update added p.updates_sorted
          (λ k. ((h k).0, >>=-after _ (grown k) (>>=-after _ (removed k) (h k).1))) in
      (
        record { modules = updated; shared = shared },
        apply_delta_of_Run
            (record { kept = kept; added = added; removes = r; adds = a; updates = u; shares = s }),
        refl,
      )

  -- A delta that is well formed can be applied exactly where its changes succeed for every
  -- workload alone and those of the shared resources do.
  pub apply_delta-eq_ok_iff :
      IsProper d
      → ((out : DeploymentSet V) × (apply_delta serde set d ≡ ok out)) ↔ (
          Succeeds (workload_after serde d) set.modules
          × (shared : BTreeMap Str (SharedResource V)) × (apply_shared serde d.shared set.shared
              ≡ ok shared))
  apply_delta-eq_ok_iff p = (
    λ (out, h). (
      λ k. (get k out.modules, apply_delta-refines p h k),
      out.shared,
      (Run-of_apply_delta h).shares,
    ),
    λ (each, shared, s). let (out, e, q) = apply_delta-total p each s in (out, e),
  )

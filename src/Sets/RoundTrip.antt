-- ===== src/Sets/RoundTrip.antt =====
-- The delta between two sets leads from the one to the other.
use openporch.Prelude.{
  Str, true, not, List, [], none, some, ◌≡◌, sym, ap, ◌∙◌, subst, arith, keep, ◌&&◌, Option-cases,
  Bool-cases, inl, inr,
}
use openporch.Prelude.Order.{str_ord}
use openporch.Prelude.Result.{ok, ok_inj}
use openporch.Prelude.Distinct.{Distinct, keep-Distinct}
use openporch.BTreeMap.{BTreeMap, keys, get, contains_key, set_contains}
use openporch.BTreeMap.Laws.{is_some, contains_key-get}
use openporch.BTreeMap.Sorted.{IsSorted, eq_of_get}
use openporch.BTreeMap.Members.{keys-Distinct, set_contains-keep, set_contains-keys}
use openporch.BTreeMap.Equal.{map_eq, map_eq-Decides}
use openporch.Ids.{WorkloadId}
use openporch.Sets.Types.{
  Module, SharedResource, DeploymentSet, Delta, default_delta, Serde, shared_resource_eq,
}
use openporch.Sets.Apply.{Modules, patch_module, apply_shared, apply_delta}
use openporch.Sets.Diff.{diff_shared, diff_sets}
use openporch.Sets.PerWorkload.{workload_after}
use openporch.Sets.Refines.{IsProper, apply_delta-refines, apply_delta-total, apply_delta-IsSorted}
use openporch.Sets.Equal.{module_eq-Decides, shared_resource_eq-Decides}
use openporch.Sets.Serde.{SerdeLaws, ModuleReadsBack, SharedReadsBack, ReadsBack}
use openporch.Sets.Differences.{
  removing, diff_removed_lem, ops_of, rounds, diff_workloads_lem, added_at, updated_at,
  rounds-InOrder, rounds-add, rounds-update, rounds-remove,
}

module _ {ℓ} {V P : Type ℓ} {serde : Serde V P} (laws : SerdeLaws serde) where
  -- A patch that is the difference of two workloads makes the second of the first.
  pub patch_module-ops_of :
      (id : WorkloadId) (old new : Module V)
      → ModuleReadsBack laws new
      → patch_module serde id (ops_of laws old new) old ≡ ok new
  unfolding patch_module
  patch_module-ops_of id old new h = rw (
    laws.module_serializes old,
    laws.patch-diff (laws.module_value old) (laws.module_value new),
    h,
  )

  -- The same of the shared resources, where an empty patch is not applied.
  apply_shared-diff :
      (s t : BTreeMap Str (SharedResource V))
      → SharedReadsBack laws s
      → SharedReadsBack laws t
      → apply_shared serde (serde.diff (laws.shared_value s) (laws.shared_value t)) s ≡ ok t
  unfolding apply_shared
  apply_shared-diff s t hs ht =
      let v = laws.shared_value s in
      let w = laws.shared_value t in
      ground (arith, laws.shared_serializes s, laws.patch-diff v w, laws.patch-nil v)

  apply_shared-nil :
      (s t : BTreeMap Str (SharedResource V))
      → map_eq (shared_resource_eq serde.value_eq) s t ≡ true
      → apply_shared serde [] s ≡ ok t
  unfolding apply_shared
  apply_shared-nil s t e =
      ap ok (
        (map_eq-Decides _ (shared_resource_eq-Decides serde.value_eq laws.value_eq-Decides) s t).0
          e)

  diff_shared_lem :
      (s t : BTreeMap Str (SharedResource V))
      → SharedReadsBack laws s
      → SharedReadsBack laws t
      → (ops : List P) × (diff_shared serde s t ≡ some ops) × (apply_shared serde ops s ≡ ok t)
  unfolding diff_shared
  diff_shared_lem s t hs ht = elim (Bool-cases (map_eq (shared_resource_eq serde.value_eq) s t)) [
    | inl e ↦ ([], rw e, apply_shared-nil s t e)
    | inr n ↦ (
      serde.diff (laws.shared_value s) (laws.shared_value t),
      rw (n, laws.shared_serializes s, laws.shared_serializes t),
      apply_shared-diff s t hs ht,
    )
  ]

  -- The delta, written as the rounds of its two loops.
  abbrev removed : Modules V → Modules V → List WorkloadId
  removed a b = keep (λ k. not (contains_key k b)) (keys a)

  abbrev delta_of : Modules V → Modules V → List P → Delta V P
  delta_of a b ops = record (rounds laws a b (removing default_delta (removed a b))) {
    shared = ops;
  }

  diff_sets_lem :
      (a b : DeploymentSet V) (ops : List P)
      → diff_shared serde a.shared b.shared ≡ some ops
      → diff_sets serde a b ≡ some (delta_of a.modules b.modules ops)
  unfolding diff_sets
  diff_sets_lem a b ops e = rw (
    diff_removed_lem {P = P} b.modules (keys a.modules) default_delta,
    diff_workloads_lem laws a.modules b.modules
        (removing default_delta (removed a.modules b.modules)),
    e,
  )

  delta_of-IsProper : (a b : Modules V) (ops : List P) → IsSorted a → IsProper (delta_of a b ops)
  delta_of-IsProper a b ops s =
      let (adds, updates) =
        rounds-InOrder laws a b (removing default_delta (removed a b)) (tt, tt) in
      record {
        adds_sorted = adds;
        updates_sorted = updates;
        removes_distinct =
            subst Distinct (sym (rounds-remove laws a b (removing default_delta (removed a b))))
              (keep-Distinct _ (keys a) (keys-Distinct a s));
      }

  -- What the two sets have at a workload, and what a delta has there.
  record At (a b : Modules V) (d : Delta V P) (k : WorkloadId) : Type ℓ where
    removes : set_contains k d.modules.remove ≡ (is_some (get k a) && not (is_some (get k b)))
    adds : get k d.modules.add ≡ added_at laws a b k none
    updates : get k d.modules.update ≡ updated_at laws a b k none

  At-delta_of :
      (a b : Modules V) (ops : List P) → IsSorted b → (k : WorkloadId) → At a b (delta_of a b ops) k
  unfolding get
  At-delta_of a b ops s k =
      let start = removing default_delta (removed a b) in
      record {
        removes =
            ap (set_contains k) (rounds-remove laws a b start)
            ∙ set_contains-keep k (λ j. not (contains_key j b)) (keys a)
            ∙ (λ i.
                (set_contains-keys k a ∙ contains_key-get k a) i && not (contains_key-get k b i));
        adds = rounds-add laws a b start s k;
        updates = rounds-update laws a b start s k;
      }

  -- What such a delta makes of a workload of `a` is that workload of `b`.
  workload_after-At :
      (a b : Modules V) (d : Delta V P) (k : WorkloadId)
      → At a b d k
      → ((m : Module V) → get k b ≡ some m → ModuleReadsBack laws m)
      → workload_after serde d k (get k a) ≡ ok (get k b)
  workload_after-At a b d k at back = elim (Option-cases (get k b)) [
    | inl nb ↦ ground (arith, at.removes, at.adds, at.updates)
    | inr (new, eb) ↦ elim (Option-cases (get k a)) [
      | inl na ↦ ground (arith, at.removes, at.adds, at.updates)
      | inr (old, ea) ↦
          let patched = patch_module-ops_of k old new (back new eb) in
          let same = (module_eq-Decides serde.value_eq laws.value_eq-Decides old new).0 in
          ground (arith, at.removes, at.adds, at.updates, same)
    ]
  ]

  -- Applied to the set `a`, the delta that `diff_sets` gives for two sets makes `b` of it, where
  -- the workloads of `b` and the shared resources of both read back from JSON as they were.
  pub apply_delta-diff_sets :
      (a b : DeploymentSet V)
      → IsSorted a.modules
      → IsSorted b.modules
      → SharedReadsBack laws a.shared
      → ReadsBack laws b
      → (d : Delta V P) × (diff_sets serde a b ≡ some d) × (apply_delta serde a d ≡ ok b)
  apply_delta-diff_sets a b sa sb ha hb =
      let (ops, diffed, shared) = diff_shared_lem a.shared b.shared ha hb.shared in
      let d = delta_of a.modules b.modules ops in
      let proper = delta_of-IsProper a.modules b.modules ops sa in
      let after : (k : WorkloadId)
          → workload_after serde d k (get k a.modules) ≡ ok (get k b.modules) =
        λ k.
          workload_after-At a.modules b.modules d k (At-delta_of a.modules b.modules ops sb k)
            (hb.modules k) in
      let (out, applied, shares) =
        apply_delta-total serde a d proper (λ k. (get k b.modules, after k)) shared in
      let modules : out.modules ≡ b.modules =
        eq_of_get out.modules b.modules (apply_delta-IsSorted serde a d applied sa) sb
          (λ k. ok_inj (sym (apply_delta-refines serde a d proper applied k) ∙ after k)) in
      (
        d,
        diff_sets_lem a b ops diffed,
        applied ∙ (λ i. ok (record { modules = modules i; shared = shares i })),
      )

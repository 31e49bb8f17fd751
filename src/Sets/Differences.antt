-- ===== src/Sets/Differences.antt =====
-- What `diff_sets` puts into a delta, workload by workload.
use openporch.Prelude.{
  Bool, true, false, not, List, [], ◌∷◌, ◌++◌, Option, none, some, if◌then◌else◌, ◌≡◌, refl, sym,
  ap, ◌∙◌, arith, keep, append_nil, Bool-cases, Option-cases, inl, inr,
}
use mathlib.Core.List.{append_assoc}
use openporch.Prelude.Order.{str_ord, ◌==◌, eq_iff}
use openporch.BTreeMap.{get, contains_key}
use openporch.BTreeMap.Laws.{get-insert}
use openporch.BTreeMap.Sorted.{IsSorted, get-Above, insert-IsSorted}
use openporch.Ids.{WorkloadId}
use openporch.Sets.Types.{Module, Delta, Serde, module_eq}
use openporch.Sets.Apply.{Modules}
use openporch.Sets.Diff.{
  ◌>>=◌, push_remove, insert_add, insert_update, diff_removed, diff_workload, diff_workloads,
  module_diff,
}
use openporch.Sets.Serde.{SerdeLaws}

module _ {ℓ} {V P : Type ℓ} where
  abbrev pub removing : Delta V P → List WorkloadId → Delta V P
  removing d ids = record d { modules = record d.modules { remove = ids } }

  -- The loop over the workloads of `a` only removes, in the order of the keys.
  pub diff_removed_lem :
      (b : Modules V) (ids : List WorkloadId) (d : Delta V P)
      → diff_removed b ids d
        ≡ removing d (d.modules.remove ++ keep (λ k. not (contains_key k b)) ids)
  unfolding diff_removed
  diff_removed_lem b [] d = ap (removing d) (sym (append_nil d.modules.remove))
  diff_removed_lem b (id ∷ ids) d = elim (Bool-cases (contains_key id b)) [
    | inl c ↦ rw c (diff_removed_lem b ids d)
    | inr c ↦ rw c (
        diff_removed_lem b ids (push_remove id d)
        ∙ ap (removing d) (append_assoc d.modules.remove (id ∷ []) _))
  ]

module _ {ℓ} {V P : Type ℓ} {serde : Serde V P} (laws : SerdeLaws serde) where
  abbrev pub ops_of : Module V → Module V → List P
  ops_of old new = serde.diff (laws.module_value old) (laws.module_value new)

  pub module_diff_lem : (old new : Module V) → module_diff serde old new ≡ some (ops_of old new)
  unfolding module_diff
  module_diff_lem old new = rw (laws.module_serializes old, laws.module_serializes new)

  -- One round of the loop over the workloads of `b`, which cannot panic.
  abbrev round : Modules V → WorkloadId → Module V → Delta V P → Delta V P
  round a id new d = elim (get id a) [
    | none ↦ insert_add id new d
    | some old ↦ if module_eq serde.value_eq old new then d else insert_update id (ops_of old new) d
  ]

  settle :
      (same : Bool) (o : Option (List P)) (ops : List P) (id : WorkloadId) (d : Delta V P)
      → o ≡ some ops
      → (if same then some d else (o >>= (λ ops. some (insert_update id ops d))))
        ≡ some (if same then d else insert_update id ops d)
  settle true o ops id d e = refl
  settle false o ops id d e = rw e

  diff_workload_lem :
      (a : Modules V) (id : WorkloadId) (new : Module V) (d : Delta V P)
      → diff_workload serde a id new d ≡ some (round a id new d)
  unfolding diff_workload
  diff_workload_lem a id new d = elim (Option-cases (get id a)) [
    | inl e ↦ rw (diff_workload, round, e)
    | inr (old, e) ↦
        rw (diff_workload, round, e)
          (settle (module_eq serde.value_eq old new) (module_diff serde old new) (ops_of old new) id
            d (module_diff_lem old new))
  ]

  abbrev pub rounds : Modules V → Modules V → Delta V P → Delta V P
  rounds a [] d = d
  rounds a ((id, new) ∷ ms) d = rounds a ms (round a id new d)

  pub diff_workloads_lem :
      (a ms : Modules V) (d : Delta V P) → diff_workloads serde a ms d ≡ some (rounds a ms d)
  unfolding diff_workloads
  diff_workloads_lem a [] d = refl
  diff_workloads_lem a ((id, new) ∷ ms) d =
      rw (diff_workload_lem a id new d) (diff_workloads_lem a ms (round a id new d))

  -- What one round and all of them leave for a workload.
  abbrev pub added_at : Modules V → Modules V → WorkloadId → Option (Module V) → Option (Module V)
  added_at a ms k before = elim (get k ms) [
    | none ↦ before
    | some new ↦ elim (get k a) [ none ↦ some new | some old ↦ before ]
  ]

  abbrev pub updated_at : Modules V → Modules V → WorkloadId → Option (List P) → Option (List P)
  updated_at a ms k before = elim (get k ms) [
    | none ↦ before
    | some new ↦ elim (get k a) [
      | none ↦ before
      | some old ↦ if module_eq serde.value_eq old new then before else some (ops_of old new)
    ]
  ]

  round-add :
      (a : Modules V) (id k : WorkloadId) (new : Module V) (d : Delta V P)
      → get k (round a id new d).modules.add ≡ (
          if k == id
          then elim (get k a) [ none ↦ some new | some old ↦ get k d.modules.add ]
          else get k d.modules.add)
  round-add a id k new d = ground (arith, get-insert id k new d.modules.add, eq_iff k id)

  round-update :
      (a : Modules V) (id k : WorkloadId) (new : Module V) (d : Delta V P)
      → get k (round a id new d).modules.update ≡ (
          if k == id
          then elim (get k a) [
            | none ↦ get k d.modules.update
            | some old ↦
                if module_eq serde.value_eq old new
                then get k d.modules.update
                else some (ops_of old new)
          ]
          else get k d.modules.update)
  round-update a id k new d = elim (Option-cases (get id a)) [
    | inl e ↦ ground (arith, eq_iff k id)
    | inr (old, e) ↦ ground (arith, get-insert id k (ops_of old new) d.modules.update, eq_iff k id)
  ]

  -- The deltas with maps in order.
  abbrev pub InOrder : Delta V P → Type 0
  InOrder d = IsSorted d.modules.add × IsSorted d.modules.update

  choice-InOrder :
      (same : Bool) (id : WorkloadId) (ops : List P) (d : Delta V P)
      → InOrder d
      → InOrder (if same then d else insert_update id ops d)
  choice-InOrder true id ops d s = s
  choice-InOrder false id ops d s = (s.0, insert-IsSorted id ops d.modules.update s.1)

  round-InOrder :
      (a : Modules V) (id : WorkloadId) (new : Module V) (d : Delta V P)
      → InOrder d
      → InOrder (round a id new d)
  round-InOrder a id new d s = elim (Option-cases (get id a)) [
    | inl e ↦ rw (round, e) (insert-IsSorted id new d.modules.add s.0, s.1)
    | inr (old, e) ↦
        rw (round, e) (choice-InOrder (module_eq serde.value_eq old new) id (ops_of old new) d s)
  ]

  pub rounds-InOrder : (a ms : Modules V) (d : Delta V P) → InOrder d → InOrder (rounds a ms d)
  rounds-InOrder a [] d s = s
  rounds-InOrder a ((id, new) ∷ ms) d s =
      rounds-InOrder a ms (round a id new d) (round-InOrder a id new d s)

  pub rounds-add :
      (a ms : Modules V) (d : Delta V P)
      → IsSorted ms
      → (k : WorkloadId) → get k (rounds a ms d).modules.add ≡ added_at a ms k (get k d.modules.add)
  unfolding get
  rounds-add a [] d s k = refl
  rounds-add a ((id, new) ∷ ms) d s k =
      rounds-add a ms (round a id new d) s.1 k
      ∙ ground (arith, round-add a id k new d, eq_iff k id, get-Above id ms s.0)

  pub rounds-update :
      (a ms : Modules V) (d : Delta V P)
      → IsSorted ms
      → (k : WorkloadId)
      → get k (rounds a ms d).modules.update ≡ updated_at a ms k (get k d.modules.update)
  unfolding get
  rounds-update a [] d s k = refl
  rounds-update a ((id, new) ∷ ms) d s k =
      rounds-update a ms (round a id new d) s.1 k
      ∙ ground (arith, round-update a id k new d, eq_iff k id, get-Above id ms s.0)

  pub rounds-remove :
      (a ms : Modules V) (d : Delta V P) → (rounds a ms d).modules.remove ≡ d.modules.remove
  rounds-remove a [] d = refl
  rounds-remove a ((id, new) ∷ ms) d = rounds-remove a ms (round a id new d) ∙ ground arith

-- ===== src/Sets/Diff.antt =====
-- `diff_sets` and `workload_delta`. `none` is the panic of an `expect`.
use openporch.Prelude.{Str, List, [], ◌∷◌, ◌++◌, Option, none, some, if◌then◌else◌}
use openporch.Prelude.Order.{str_ord}
use openporch.Prelude.Result.{Result, ok, err}
use openporch.BTreeMap.{BTreeMap, keys, get, contains_key, insert}
use openporch.BTreeMap.Equal.{map_eq}
use openporch.Ids.{WorkloadId}
use openporch.Sets.Types.{
  Module, SharedResource, DeploymentSet, Delta, default_delta, Serde, module_eq, shared_resource_eq,
}
use openporch.Sets.Apply.{Modules}

-- `.expect(..)`.
abbrev pub expect {ℓ κ} : {E : Type κ} {A : Type ℓ} → Result E A → Option A
expect (ok a) = some a
expect (err e) = none

infixl 5 ◌>>=◌
abbrev pub ◌>>=◌ {ℓ κ} : {A : Type ℓ} {B : Type κ} → Option A → (A → Option B) → Option B
none >>= f = none
some a >>= f = f a

-- The changes that are put into a delta.
module _ {ℓ} {V P : Type ℓ} where
  abbrev pub push_remove : WorkloadId → Delta V P → Delta V P
  push_remove id d = record d {
    modules = record d.modules { remove = d.modules.remove ++ id ∷ [] };
  }

  abbrev pub insert_add : WorkloadId → Module V → Delta V P → Delta V P
  insert_add id module_ d = record d {
    modules = record d.modules { add = insert id module_ d.modules.add };
  }

  abbrev pub insert_update : WorkloadId → List P → Delta V P → Delta V P
  insert_update id ops d = record d {
    modules = record d.modules { update = insert id ops d.modules.update };
  }

  -- The loop over the workloads of `a`.
  unfoldable pub diff_removed : Modules V → List WorkloadId → Delta V P → Delta V P
  unfolding contains_key
  diff_removed b [] d = d
  diff_removed b (id ∷ ids) d =
      diff_removed b ids (if contains_key id b then d else push_remove id d)

module _ {ℓ} {V P : Type ℓ} (serde : Serde V P) where
  unfoldable pub module_diff : Module V → Module V → Option (List P)
  module_diff old new = do
    a ← expect (serde.module_to_value old)
    b ← expect (serde.module_to_value new)
    some (serde.diff a b)

  -- The body of the loop over the workloads of `b`.
  unfoldable pub diff_workload : Modules V → WorkloadId → Module V → Delta V P → Option (Delta V P)
  unfolding get insert module_diff
  diff_workload a id new d = elim (get id a) [
    | none ↦ some (insert_add id new d)
    | some old ↦
        if module_eq serde.value_eq old new
        then some d
        else (do ops ← module_diff old new; some (insert_update id ops d))
  ]

  unfoldable pub diff_workloads : Modules V → Modules V → Delta V P → Option (Delta V P)
  unfolding diff_workload
  diff_workloads a [] d = some d
  diff_workloads a ((id, new) ∷ ms) d = do d' ← diff_workload a id new d; diff_workloads a ms d'

  unfoldable pub diff_shared :
      BTreeMap Str (SharedResource V) → BTreeMap Str (SharedResource V) → Option (List P)
  diff_shared a b = if map_eq (shared_resource_eq serde.value_eq) a b then some [] else (do
    v ← expect (serde.shared_to_value a)
    w ← expect (serde.shared_to_value b)
    some (serde.diff v w))

  unfoldable pub diff_sets : DeploymentSet V → DeploymentSet V → Option (Delta V P)
  unfolding diff_removed diff_workloads diff_shared
  diff_sets a b = do
    d ← diff_workloads a.modules b.modules (diff_removed b.modules (keys a.modules) default_delta)
    shared ← diff_shared a.shared b.shared
    some (record d { shared = shared })

  unfoldable pub workload_delta : DeploymentSet V → WorkloadId → Module V → Option (Delta V P)
  unfolding get insert module_diff
  workload_delta set id module_ = elim (get id set.modules) [
    | none ↦ some (insert_add id module_ default_delta)
    | some old ↦ do ops ← module_diff old module_; some (insert_update id ops default_delta)
  ]

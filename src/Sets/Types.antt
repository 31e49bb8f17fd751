-- ===== src/Sets/Types.antt =====
-- Deployment sets and deltas (crates/core/src/sets.rs). JSON values and the operations of a JSON
-- Patch are arguments, `Value` and `PatchOperation`. Two values that compare equal are one, and the
-- comparison of a `serde_json` map does not see the order of its keys, so `spec` is a map in order.
use openporch.Prelude.{Str, Bool, List, [], Option, is_nil, ◌&&◌}
use openporch.Prelude.Order.{◌==◌, str_ord}
use openporch.Prelude.Result.{Result}
use openporch.BTreeMap.{BTreeMap}
use openporch.BTreeMap.Equal.{option_eq, map_eq}
use openporch.Ids.{WorkloadId, ClassId, ResourceTypeId}

pub record External {ℓ} (Value : Type ℓ) : Type ℓ where
  pub ty : ResourceTypeId
  pub class : ClassId
  pub id : Option Str
  pub params : Option Value

pub record Module {ℓ} (Value : Type ℓ) : Type ℓ where
  pub class : ClassId
  pub spec : BTreeMap Str Value
  pub externals : BTreeMap Str (External Value)

pub record SharedResource {ℓ} (Value : Type ℓ) : Type ℓ where
  pub ty : ResourceTypeId
  pub class : ClassId
  pub params : Option Value

pub record DeploymentSet {ℓ} (Value : Type ℓ) : Type ℓ where
  pub modules : BTreeMap WorkloadId (Module Value)
  pub shared : BTreeMap Str (SharedResource Value)

pub record ModuleChanges {ℓ} (Value PatchOperation : Type ℓ) : Type ℓ where
  pub add : BTreeMap WorkloadId (Module Value)
  pub remove : List WorkloadId
  pub update : BTreeMap WorkloadId (List PatchOperation)

pub record Delta {ℓ} (Value PatchOperation : Type ℓ) : Type ℓ where
  pub modules : ModuleChanges Value PatchOperation
  pub shared : List PatchOperation

-- `Delta::default`.
abbrev pub default_delta {ℓ} : {V P : Type ℓ} → Delta V P
default_delta = record { modules = record { add = []; remove = []; update = [] }; shared = [] }

unfoldable pub is_empty {ℓ} : {V P : Type ℓ} → Delta V P → Bool
is_empty d =
    is_nil d.modules.add && is_nil d.modules.remove && is_nil d.modules.update && is_nil d.shared

pub data DeltaError : Type 0 where
  remove_missing : WorkloadId → DeltaError
  add_existing : WorkloadId → DeltaError
  update_missing : WorkloadId → DeltaError
  update_failed : WorkloadId → Str → DeltaError
  shared_failed : Str → DeltaError

-- The calls of serde_json and json_patch. An error is the text that it displays.
pub record Serde {ℓ} (Value PatchOperation : Type ℓ) : Type ℓ where
  pub module_to_value : Module Value → Result Str Value
  pub module_from_value : Value → Result Str (Module Value)
  pub shared_to_value : BTreeMap Str (SharedResource Value) → Result Str Value
  pub shared_from_value : Value → Result Str (BTreeMap Str (SharedResource Value))
  pub patch : Value → List PatchOperation → Result Str Value
  pub diff : Value → Value → List PatchOperation
  pub value_eq : Value → Value → Bool

-- The derived `==`.
module _ {ℓ} {Value : Type ℓ} (value_eq : Value → Value → Bool) where
  unfoldable pub external_eq : External Value → External Value → Bool
  external_eq a b =
      a.ty == b.ty
      && a.class == b.class
      && option_eq ◌==◌ a.id b.id
      && option_eq value_eq a.params b.params

  unfoldable pub module_eq : Module Value → Module Value → Bool
  module_eq a b =
      a.class == b.class
      && map_eq value_eq a.spec b.spec
      && map_eq external_eq a.externals b.externals

  unfoldable pub shared_resource_eq : SharedResource Value → SharedResource Value → Bool
  shared_resource_eq a b =
      a.ty == b.ty && a.class == b.class && option_eq value_eq a.params b.params

-- ===== src/Model.antt =====
-- Domain objects shared by the API, the store and the engine (crates/core/src/model.rs).
use openporch.Prelude.{Str, Bool, Option, List}
use openporch.BTreeMap.{BTreeMap}
use openporch.Ids.{
  OrgId, AppId, EnvId, EnvTypeId, DefinitionId, CriterionId, ClassId, ResourceTypeId, ResId,
  Descriptor,
}

pub record Criterion : Type 0 where
  pub id : Option CriterionId
  pub env_type : Option EnvTypeId
  pub app_id : Option AppId
  pub env_id : Option EnvId
  pub res_id : Option ResId
  pub class : Option ClassId

pub record ResourceContext : Type 0 where
  pub org : OrgId
  pub app : AppId
  pub env : EnvId
  pub env_type : EnvTypeId
  pub res : Descriptor

-- The JSON values of a definition are an argument, `Value`, since `serde_json` reads and writes
-- them.
pub record DriverInputs {ℓ} (Value : Type ℓ) : Type ℓ where
  pub values : Value
  pub secrets : Value
  pub secret_refs : Value

pub record Provision {ℓ} (Value : Type ℓ) : Type ℓ where
  pub is_dependent : Bool
  pub match_dependents : Bool
  pub params : Option Value

pub record ResourceDefinition {ℓ} (Value : Type ℓ) : Type ℓ where
  pub id : DefinitionId
  pub name : Str
  pub ty : ResourceTypeId
  pub driver_type : Str
  pub driver_account : Option Str
  pub driver_inputs : DriverInputs Value
  pub provision : BTreeMap Str (Provision Value)
  pub criteria : List Criterion

-- ===== src/Permits/Types.antt =====
-- The records of crates/store/src/sqlite_permits.rs.
use openporch.Prelude.{Str, bytes, ℕ, ◌*◌, Bool, Option, List, [], ◌∷◌}
use openporch.BTreeMap.{BTreeMap}
use openporch.Store.Audit.{AuditIntent}

abbrev pub permit_ttl_ms : ℕ
permit_ttl_ms = 60 * 60 * 1000

-- `ACTIONS`
abbrev pub actions : List Str
actions = bytes "delete" ∷ bytes "detach" ∷ bytes "replace" ∷ bytes "unknown" ∷ []

-- `DETACHED`
abbrev pub detached_mark : Str
detached_mark = bytes "detach"

pub record PermitBinding : Type 0 where
  pub presented : List Str
  pub digests : BTreeMap Str Str
  pub required : List (Str × Str)

pub record NewPlan {ℓ} (Value : Type ℓ) : Type ℓ where
  pub org : Str
  pub app : Str
  pub env : Str
  pub kind : Str
  pub base_generation : ℕ
  pub set_id : Option Str
  pub body : Value
  pub audit : AuditIntent

pub record PlanRecord {ℓ} (Value : Type ℓ) : Type ℓ where
  pub id : Str
  pub app : Str
  pub env : Str
  pub actor : Str
  pub kind : Str
  pub base_generation : ℕ
  pub set_id : Option Str
  pub body : Value
  pub created_at : ℕ
  pub expires_at : ℕ

pub record NewPermit : Type 0 where
  pub descriptor : Str
  pub guresid : Option Str
  pub action : Str
  pub plan_fingerprint : Option Str
  pub config_digest : Str

pub record PermitRecord : Type 0 where
  pub id : Str
  pub plan : Str
  pub descriptor : Str
  pub guresid : Option Str
  pub action : Str
  pub plan_fingerprint : Option Str
  pub base_generation : ℕ
  pub issuer : Str
  pub expires_at : ℕ
  pub bound_to : Option Str

pub record PermitUse : Type 0 where
  pub org : Str
  pub app : Str
  pub env : Str
  pub deployment : Option Str
  pub presented : List Str
  pub descriptor : Str
  pub guresid : Option Str
  pub action : Str
  pub fingerprint : Option Str

pub record BoundPermit : Type 0 where
  pub descriptor : Str
  pub action : Str
  pub issued_entry : Option Str

pub record UsedPermit : Type 0 where
  pub issued_entry : Option Str
  pub first : Bool

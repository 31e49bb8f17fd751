-- ===== src/Deploy/Types.antt =====
-- The records of crates/store/src/deploy.rs, and `DeploymentRow` of crates/store/src/sqlite.rs as a
-- record of it.
use openporch.Prelude.{Str, bytes, ℕ, Bool, Option, ◌++◌, if◌then◌else◌}
use openporch.Prelude.Order.{◌==◌, str_ord}
use openporch.Prelude.Result.{Result, ok, err, ◌>>=◌}
use openporch.Identity.Tables.{StoreError, corrupt}
use openporch.Identity.Authority.{quote}
use openporch.Store.Audit.{AuditIntent}
use openporch.Store.Rows.{DeploymentRow}
use openporch.Permits.Types.{PermitBinding}

pub data DeploymentKind : Type 0 where
  deploy delete_env : DeploymentKind

pub data DeploymentStatus : Type 0 where
  in_progress succeeded failed : DeploymentStatus

unfoldable pub kind_as_str : DeploymentKind → Str
kind_as_str deploy = bytes "deploy"
kind_as_str delete_env = bytes "delete_env"

unfoldable pub kind_parse : Str → Result StoreError DeploymentKind
kind_parse s =
    if s == bytes "deploy"
    then ok deploy
    else if s == bytes "delete_env"
    then ok delete_env
    else err (corrupt (bytes "deployment kind " ++ quote s))

unfoldable pub status_parse : Str → Result StoreError DeploymentStatus
status_parse s =
    if s == bytes "in_progress"
    then ok in_progress
    else if s == bytes "succeeded"
    then ok succeeded
    else if s == bytes "failed"
    then ok failed
    else err (corrupt (bytes "deployment status " ++ quote s))

pub record DeploymentRecord : Type 0 where
  pub id : Str
  pub app : Str
  pub env : Str
  pub seq : ℕ
  pub kind : DeploymentKind
  pub actor : Str
  pub set_id : Option Str
  pub delta_id : Option Str
  pub comment : Str
  pub generation : ℕ
  pub status : DeploymentStatus
  pub error : Option Str
  pub created_at : ℕ
  pub finished_at : Option ℕ

-- `DeploymentRow::into_record`
unfoldable pub into_record : DeploymentRow → Result StoreError DeploymentRecord
unfolding kind_parse status_parse
into_record row = kind_parse row.kind >>= λ kind. status_parse row.status >>= λ status. ok record {
  id = row.id;
  app = row.app_id;
  env = row.env_id;
  seq = row.seq;
  kind = kind;
  actor = row.actor_id;
  set_id = row.set_id;
  delta_id = row.delta_id;
  comment = row.comment;
  generation = row.generation;
  status = status;
  error = row.error;
  created_at = row.created_at;
  finished_at = row.finished_at;
}

pub data Acceptance : Type 0 where
  created replayed : DeploymentRecord → Acceptance

pub record DeploymentRequest {ℓ} (Value : Type ℓ) : Type ℓ where
  pub org : Str
  pub app : Str
  pub env : Str
  pub actor : Str
  pub expected_generation : ℕ
  pub idempotency_key : Option Str
  pub fingerprint : Str
  pub kind : DeploymentKind
  pub set_id : Option Str
  pub delta_id : Option Str
  pub delta_content : Option Value
  pub comment : Str
  pub snapshot : Value
  pub audit : AuditIntent
  pub permits : PermitBinding

-- What serde_json does for a type of values: the text of a value, the value of a text or why there
-- is none, and whether two values are equal.
pub record Json {ℓ} (Value : Type ℓ) : Type ℓ where
  pub to_string : Value → Str
  pub from_str : Str → Result Str Value
  pub value_eq : Value → Value → Bool

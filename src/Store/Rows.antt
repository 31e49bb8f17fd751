-- ===== src/Store/Rows.antt =====
-- The tables of the store's one organization (crates/store/migrations) and the lookups in them.
use openporch.Prelude.{
  Str, bytes, ℕ, Bool, ◌&&◌, Option, none, some, List, ◌++◌, if◌then◌else◌, find,
}
use openporch.Prelude.Order.{◌==◌, str_ord}
use openporch.Prelude.Result.{Result, ok, err}
use openporch.BTreeMap.{BTreeMap, get, insert}
use openporch.Identity.Tables.{StoreError, not_found, database, IdentityTables}
use openporch.Identity.Authority.{quote}
use openporch.Store.Audit.{AuditEntry}

-- A row of `apps`; the state is `active` or `deleting`.
pub record AppRow : Type 0 where
  pub id : Str
  pub state : Str

pub record EnvRow : Type 0 where
  pub app_id : Str
  pub id : Str
  pub name : Str
  pub env_type : Str
  pub generation : ℕ
  pub desired_set_id : Option Str
  pub last_successful_set_id : Option Str
  pub last_successful_deploy_id : Option Str
  pub state : Str

pub record EnvTypeRow : Type 0 where
  pub id : Str
  pub protected : Bool

pub record SetRow : Type 0 where
  pub app_id : Str
  pub id : Str

pub record DeltaRow : Type 0 where
  pub app_id : Str
  pub id : Str
  pub content : Str
  pub frozen_at : Option ℕ

pub record DeploymentRow : Type 0 where
  pub app_id : Str
  pub env_id : Str
  pub id : Str
  pub seq : ℕ
  pub kind : Str
  pub actor_id : Str
  pub set_id : Option Str
  pub delta_id : Option Str
  pub comment : Str
  pub generation : ℕ
  pub status : Str
  pub idempotency_key : Option Str
  pub request_fingerprint : Option Str
  pub snapshot : Str
  pub error : Option Str
  pub created_at : ℕ
  pub finished_at : Option ℕ

-- The columns of `active_resources` that the operations here read.
pub record ResourceRow : Type 0 where
  pub app_id : Str
  pub env_id : Str
  pub descriptor : Str
  pub status : Str
  pub ownership : Str
  pub scheduled_deletion : Bool

pub record PlanRow : Type 0 where
  pub app_id : Str
  pub env_id : Str
  pub actor_id : Str
  pub kind : Str
  pub base_generation : ℕ
  pub set_id : Option Str
  pub body : Str
  pub created_at : ℕ
  pub expires_at : ℕ

pub record PermitRow : Type 0 where
  pub app_id : Str
  pub env_id : Str
  pub plan_id : Str
  pub descriptor : Str
  pub guresid : Option Str
  pub action : Str
  pub plan_fingerprint : Option Str
  pub base_generation : ℕ
  pub config_digest : Str
  pub issuer_id : Str
  pub created_at : ℕ
  pub expires_at : ℕ
  pub bound_to : Option Str
  pub bound_at : Option ℕ
  pub used_at : Option ℕ
  pub issued_entry : Option Str

-- Plans and permits are by ID, their primary key.
pub record Db : Type 0 where
  pub org : Str
  pub identity : IdentityTables
  pub apps : List AppRow
  pub envs : List EnvRow
  pub env_types : List EnvTypeRow
  pub sets : List SetRow
  pub deltas : List DeltaRow
  pub deployments : List DeploymentRow
  pub active_resources : List ResourceRow
  pub plans : BTreeMap Str PlanRow
  pub permits : BTreeMap Str PermitRow
  pub audit_log : List AuditEntry

-- `SqliteStore::check_org`
unfoldable pub check_org : Db → Str → Result StoreError (Unit {0})
check_org db org =
    if org == db.org then ok tt else err (not_found (bytes "organization " ++ quote org))

-- The row of a statement with `app_id = ? AND id = ?`, the primary key.
abbrev pub is_env : Str → Str → EnvRow → Bool
is_env app env row = row.app_id == app && row.id == env

unfoldable pub find_env : Db → Str → Str → Option EnvRow
find_env db app env = find (is_env app env) db.envs

abbrev pub path_of : Str → Str → Str
path_of app env = app ++ bytes "/" ++ env

abbrev pub no_env : Str → Str → StoreError
no_env app env = not_found (bytes "environment " ++ quote (path_of app env))

-- What `fetch_one` fails with where there is no row.
abbrev pub row_not_found : StoreError
row_not_found = database (bytes "RowNotFound")

abbrev pub ok_or {ℓ} : {A : Type ℓ} → Option A → StoreError → Result StoreError A
ok_or (some a) e = ok a
ok_or none e = err e

abbrev pub permit_if : Str → Str → Option PermitRow → Option PermitRow
permit_if app env none = none
permit_if app env (some row) = if row.app_id == app && row.env_id == env then some row else none

-- The permit `id` of the environment.
unfoldable pub find_permit : Db → Str → Str → Str → Option PermitRow
find_permit db app env id = permit_if app env (get id db.permits)

abbrev set_permit : Str → Option PermitRow → BTreeMap Str PermitRow → BTreeMap Str PermitRow
set_permit id none permits = permits
set_permit id (some row) permits = insert id row permits

abbrev pub map_option {ℓ κ} : {A : Type ℓ} {B : Type κ} → (A → B) → Option A → Option B
map_option f none = none
map_option f (some a) = some (f a)

-- `UPDATE permits SET .. WHERE id = ?`
unfoldable pub update_permit : Str → (PermitRow → PermitRow) → Db → Db
update_permit id f db = record db {
  permits = set_permit id (map_option f (get id db.permits)) db.permits;
}

-- ===== src/Identity/Tables.antt =====
-- The tables that `roles_in` of crates/store/src/identity.rs reads, for the one organization of the
-- store, and the errors of crates/store/src/error.rs.
use openporch.Prelude.{Str, Option, none, some, List, [], ◌∷◌, if◌then◌else◌, ℕ}
use openporch.Prelude.Order.{◌==◌, str_ord}
use openporch.BTreeMap.{BTreeMap, BTreeSet, get, insert, set_insert}
use openporch.Identity.Roles.{OrgRole, AppRole, Roles, no_roles}
use openporch.Identity.RoleIds.{app_role_parse}

-- Failures of the database, of migrations and of files keep their text.
pub data StoreError : Type 0 where
  already_owned : (path : Str) → StoreError
  schema_too_new : (found supported : ℕ) → StoreError
  not_found already_exists busy detached recovery_required : Str → StoreError
  stale_generation : (expected actual : ℕ) → StoreError
  migration_required : (descriptor from to : Str) → StoreError
  permit_invalid approval_required idempotency_mismatch invalid conflict forbidden :
      Str → StoreError
  corrupt database migrate : Str → StoreError
  io : (context source : Str) → StoreError

-- A row of `app_roles`; the role is the text that is stored.
pub record AppRoleRow : Type 0 where
  pub app_id : Str
  pub principal_id : Str
  pub role : Str

-- A row of `env_type_roles`.
pub record EnvTypeRoleRow : Type 0 where
  pub env_type_id : Str
  pub principal_id : Str

pub record IdentityTables : Type 0 where
  pub principals : BTreeMap Str OrgRole
  pub app_roles : List AppRoleRow
  pub env_type_roles : List EnvTypeRoleRow

-- `filter_map(|(a, r)| AppRole::parse(&r).map(|r| (a, r))).collect()`, for the selected rows.
abbrev insert_role : Str → Option AppRole → BTreeMap Str AppRole → BTreeMap Str AppRole
insert_role app none apps = apps
insert_role app (some r) apps = insert app r apps

unfoldable pub apps_of : Str → List AppRoleRow → BTreeMap Str AppRole → BTreeMap Str AppRole
apps_of p [] apps = apps
apps_of p (row ∷ rows) apps =
    apps_of p rows (
      if row.principal_id == p then insert_role row.app_id (app_role_parse row.role) apps else apps)

unfoldable pub deployer_of : Str → List EnvTypeRoleRow → BTreeSet Str → BTreeSet Str
deployer_of p [] types = types
deployer_of p (row ∷ rows) types =
    deployer_of p rows (if row.principal_id == p then set_insert row.env_type_id types else types)

unfoldable pub roles_in : IdentityTables → Str → Roles
unfolding apps_of deployer_of
roles_in tables principal = elim (get principal tables.principals) [
  | none ↦ no_roles
  | some role ↦ record {
    org = some role;
    apps = apps_of principal tables.app_roles [];
    deployer = deployer_of principal tables.env_type_roles [];
  }
]

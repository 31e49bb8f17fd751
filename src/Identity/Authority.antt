-- ===== src/Identity/Authority.antt =====
-- The authority checks of crates/store/src/identity.rs, each made inside the transaction of the
-- change that it guards. No actor is the server itself.
use openporch.Prelude.{
  Str, bytes, Bool, true, false, not, ◌&&◌, ◌||◌, Option, none, some, ◌++◌, if◌then◌else◌,
}
use openporch.Prelude.Order.{str_ord}
use openporch.Prelude.Result.{Result, ok, err}
use openporch.BTreeMap.{get, set_contains}
use openporch.Identity.Roles.{
  OrgRole, AppRole, Roles, manager, developer, owner, no_roles, opt_is_admin, opt_at_least, covers,
}
use openporch.Identity.Tables.{StoreError, not_found, forbidden, IdentityTables, roles_in}

abbrev pub Checked : Type 0
Checked = Result StoreError (Unit {0})

abbrev pub allowed : Checked
allowed = ok tt

abbrev pub quote : Str → Str
quote s = bytes "`" ++ s ++ bytes "`"

abbrev pub denied_change : Str → StoreError
denied_change actor =
    forbidden
      (quote actor ++ bytes " does not hold every permission this change would grant or affect")

abbrev pub opt_is_manager : Option OrgRole → Bool
opt_is_manager (some manager) = true
opt_is_manager _ = false

abbrev pub opt_is_owner : Option AppRole → Bool
opt_is_owner (some owner) = true
opt_is_owner _ = false

-- `current`: the roles of the target, or none.
abbrev pub target_roles : IdentityTables → Option Str → Roles
target_roles tables none = no_roles
target_roles tables (some t) = roles_in tables t

-- The check of the role that the change results in.
unfoldable pub check_resulting : Str → Roles → Roles → Option OrgRole → Checked
check_resulting actor issuer current none = allowed
check_resulting actor issuer current (some role) =
    if opt_is_admin (some role) || not (covers issuer (record current { org = some role }))
    then err (denied_change actor)
    else allowed

unfoldable pub check_authority_for :
    IdentityTables → Option Str → Option Str → Option OrgRole → (removal : Bool) → Checked
unfolding check_resulting
check_authority_for tables none target resulting removal = allowed
check_authority_for tables (some actor) target resulting removal =
    let issuer = roles_in tables actor in
    let current = target_roles tables target in
    if opt_is_admin issuer.org
    then allowed
    else if not (opt_is_manager issuer.org)
    then err (denied_change actor)
    else if opt_is_admin current.org || not removal && not (covers issuer current)
    then err (denied_change actor)
    else check_resulting actor issuer current resulting

unfoldable pub check_authority : IdentityTables → Option Str → Option Str → Option OrgRole → Checked
unfolding check_authority_for
check_authority tables actor target resulting =
    check_authority_for tables actor target resulting false

unfoldable pub check_removal_authority : IdentityTables → Option Str → Str → Checked
unfolding check_authority_for
check_removal_authority tables actor target =
    check_authority_for tables actor (some target) none true

unfoldable pub check_app_authority : IdentityTables → Option Str → Str → Checked
check_app_authority tables none app = allowed
check_app_authority tables (some actor) app =
    let roles = roles_in tables actor in
    if opt_is_admin roles.org || opt_is_owner (get app roles.apps)
    then allowed
    else err (forbidden (quote actor ++ bytes " is not `owner` on " ++ quote app))

abbrev pub not_developer : Str → Str → StoreError
not_developer actor app =
    forbidden (quote actor ++ bytes " is not `developer` or `owner` on " ++ quote app)

abbrev pub not_deployer : Str → StoreError
not_deployer env_type =
    forbidden (bytes "requires the `deployer` role on environment type " ++ quote env_type)

unfoldable pub check_env_authority : IdentityTables → Option Str → Str → Str → Checked
check_env_authority tables none app env_type = allowed
check_env_authority tables (some actor) app env_type =
    let roles = roles_in tables actor in
    if opt_is_admin roles.org
    then allowed
    else if not (opt_at_least (get app roles.apps) developer)
    then err (not_developer actor app)
    else if not (set_contains env_type roles.deployer)
    then err (not_deployer env_type)
    else allowed

unfoldable pub check_admin_authority : IdentityTables → Option Str → Checked
check_admin_authority tables none = allowed
check_admin_authority tables (some actor) =
    if opt_is_admin (roles_in tables actor).org
    then allowed
    else err (forbidden (quote actor ++ bytes " is not an administrator"))

unfoldable pub check_create_app_authority : IdentityTables → Option Str → Checked
check_create_app_authority tables none = allowed
check_create_app_authority tables (some actor) =
    let role = (roles_in tables actor).org in
    if opt_is_admin role || opt_is_manager role
    then allowed
    else err (forbidden (quote actor ++ bytes " is not an administrator or manager"))

-- `exists`: whether the application has a row.
unfoldable pub check_configure_authority :
    IdentityTables → (exists : Bool) → Option Str → Str → Checked
check_configure_authority tables false actor app =
    err (not_found (bytes "application " ++ quote app))
check_configure_authority tables true none app = allowed
check_configure_authority tables true (some actor) app =
    let roles = roles_in tables actor in
    if opt_is_admin roles.org || opt_at_least (get app roles.apps) developer
    then allowed
    else err (not_developer actor app)

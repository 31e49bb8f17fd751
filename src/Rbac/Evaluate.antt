-- ===== src/Rbac/Evaluate.antt =====
-- `evaluate` and its types of crates/server/src/rbac.rs.
use openporch.Prelude.{
  Str, bytes, Bool, true, false, not, ◌||◌, Option, none, some, ◌++◌, if◌then◌else◌,
}
use openporch.Prelude.Order.{str_ord}
use openporch.BTreeMap.{get, contains_key, set_contains}
use openporch.Identity.Roles.{
  OrgRole, AppRole, Roles, manager, org_viewer, developer, opt_is_admin, opt_at_least,
}
use openporch.Identity.Authority.{quote, opt_is_owner}

pub data OrgPerm : Type 0 where
  read_members read_all manage_members create_app administer : OrgPerm

pub data AppPerm : Type 0 where
  read configure manage deploy : AppPerm

pub data Permission : Type 0 where
  public authenticated : Permission
  org : OrgPerm → Permission
  app : AppPerm → Permission

pub data Decision : Type 0 where
  allow : Decision
  deny : Str → Decision
  hidden : Decision

pub record Scope : Type 0 where
  pub app : Option Str
  pub env_type : Option Str

abbrev is_admin : Roles → Bool
is_admin roles = opt_is_admin roles.org

abbrev pub opt_is_viewer : Option OrgRole → Bool
opt_is_viewer (some org_viewer) = true
opt_is_viewer _ = false

unfoldable pub can_see_app : Roles → Str → Bool
can_see_app roles app_id =
    is_admin roles || (opt_is_viewer roles.org || contains_key app_id roles.apps)

abbrev requires : Str → Decision
requires what = deny (bytes "requires " ++ what)

unfoldable pub evaluate_org : OrgPerm → OrgRole → Decision
evaluate_org read_members r = allow
evaluate_org read_all org_viewer = allow
evaluate_org read_all _ = requires (bytes "the `administrator` or `orgViewer` role")
evaluate_org manage_members manager = allow
evaluate_org manage_members _ = requires (bytes "the `administrator` or `manager` role")
evaluate_org create_app manager = allow
evaluate_org create_app _ = requires (bytes "the `administrator` or `manager` role")
evaluate_org administer r = requires (bytes "the `administrator` role")

unfoldable pub evaluate_deploy : Option AppRole → Roles → Str → Option Str → Decision
evaluate_deploy role roles app_id env_type =
    if not (opt_at_least role developer)
    then requires (bytes "`developer` or `owner` on " ++ quote app_id)
    else elim env_type [
      | some t ↦
          if set_contains t roles.deployer
          then allow
          else deny (bytes "requires the `deployer` role on environment type " ++ quote t)
      | none ↦ deny (bytes "no environment in scope")
    ]

unfoldable pub evaluate_app : AppPerm → Roles → Str → Option Str → Decision
unfolding evaluate_deploy
evaluate_app read roles app_id env_type = allow
evaluate_app configure roles app_id env_type =
    if opt_at_least (get app_id roles.apps) developer
    then allow
    else requires (bytes "`developer` or `owner` on " ++ quote app_id)
evaluate_app manage roles app_id env_type =
    if opt_is_owner (get app_id roles.apps)
    then allow
    else requires (bytes "`owner` on " ++ quote app_id)
evaluate_app deploy roles app_id env_type =
    evaluate_deploy (get app_id roles.apps) roles app_id env_type

-- The `match perm` of a member who is no administrator.
unfoldable pub evaluate_perm : Permission → OrgRole → Roles → Scope → Decision
unfolding evaluate_org evaluate_app can_see_app
evaluate_perm public org_role roles scope = allow
evaluate_perm authenticated org_role roles scope = allow
evaluate_perm (org p) org_role roles scope = evaluate_org p org_role
evaluate_perm (app p) org_role roles scope = elim scope.app [
  | none ↦ deny (bytes "no application in scope")
  | some a ↦ if can_see_app roles a then evaluate_app p roles a scope.env_type else hidden
]

unfoldable pub evaluate : Permission → Roles → Scope → Decision
unfolding evaluate_perm
evaluate perm roles scope = elim roles.org [
  | none ↦ deny (bytes "not a member of the organization")
  | some org_role ↦
      if opt_is_admin (some org_role) then allow else evaluate_perm perm org_role roles scope
]

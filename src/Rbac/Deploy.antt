-- ===== src/Rbac/Deploy.antt =====
-- The decision of a route (crates/server/src/rbac.rs) and the check inside the transaction
-- (crates/store/src/identity.rs) agree.
use openporch.Prelude.{Str, true, none, some, ◌≡◌, ◌↔◌, ap, ◌∙◌, arith}
use openporch.Prelude.Order.{str_ord}
use openporch.Prelude.Result.{ok}
use openporch.BTreeMap.{BTreeMap, get, contains_key}
use openporch.BTreeMap.Laws.{contains_key-get}
use openporch.Identity.Coverage.{opt_at_least-is_some}
use openporch.Identity.Roles.{AppRole, developer, opt_at_least, no_roles}
use openporch.Identity.Tables.{IdentityTables, roles_in}
use openporch.Identity.Authority.{check_env_authority}
use openporch.Rbac.Evaluate.{
  Scope, allow, evaluate, evaluate_perm, evaluate_app, evaluate_deploy, can_see_app, app, deploy,
}

roles_in-of_no_org :
    (tables : IdentityTables) (p : Str)
    → (roles_in tables p).org ≡ none
    → roles_in tables p ≡ no_roles
unfolding roles_in
roles_in-of_no_org tables p h = ground (arith, h)

opt_at_least-contains_key :
    (a : Str) (r : AppRole) (apps : BTreeMap Str AppRole)
    → opt_at_least (get a apps) r ≡ true
    → contains_key a apps ≡ true
opt_at_least-contains_key a r apps h =
    contains_key-get a apps ∙ opt_at_least-is_some (get a apps) r h

no_org_apps :
    (tables : IdentityTables) (p a : Str)
    → (roles_in tables p).org ≡ none
    → get a (roles_in tables p).apps ≡ none
unfolding get
no_org_apps tables p a h = ap (λ r. get a r.apps) (roles_in-of_no_org tables p h)

abbrev pub deploy_scope : Str → Str → Scope
deploy_scope app_id env_type = record { app = some app_id; env_type = some env_type }

module _ (tables : IdentityTables) (actor app_id env_type : Str) where
  check_env-to :
      check_env_authority tables (some actor) app_id env_type ≡ ok tt
      → evaluate (app deploy) (roles_in tables actor) (deploy_scope app_id env_type) ≡ allow
  unfolding check_env_authority evaluate evaluate_perm evaluate_app evaluate_deploy can_see_app
  check_env-to h = ground (
    arith,
    h,
    no_org_apps tables actor app_id,
    opt_at_least-contains_key app_id developer (roles_in tables actor).apps,
  )

  check_env-of :
      evaluate (app deploy) (roles_in tables actor) (deploy_scope app_id env_type) ≡ allow
      → check_env_authority tables (some actor) app_id env_type ≡ ok tt
  unfolding check_env_authority evaluate evaluate_perm evaluate_app evaluate_deploy can_see_app
  check_env-of h = ground (arith, h)

-- For a principal, the check inside the transaction of a deployment succeeds exactly when the route's
-- decision for `Deploy`, on the same roles, application and environment type, is to allow it.
pub check_env_authority_iff :
    (tables : IdentityTables) (actor app_id env_type : Str)
    → (check_env_authority tables (some actor) app_id env_type ≡ ok tt)
      ↔ (evaluate (app deploy) (roles_in tables actor) (deploy_scope app_id env_type) ≡ allow)
check_env_authority_iff tables actor app_id env_type =
    (check_env-to tables actor app_id env_type, check_env-of tables actor app_id env_type)

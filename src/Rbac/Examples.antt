-- ===== src/Rbac/Examples.antt =====
-- An organization with an administrator, a manager and a member, and what the permission model
-- decides for them.
use openporch.Prelude.{Str, bytes, some, [], ◌∷◌, ◌≡◌, ◌↔◌, refl}
use openporch.Prelude.Order.{str_ord}
use openporch.Prelude.Result.{ok}
use openporch.BTreeMap.{contains_key, get, insert, set_insert}
use openporch.Identity.Roles.{
  Roles, administrator, manager, member, developer, owner, covers, org_role_as_str,
}
use openporch.Identity.RoleIds.{app_role_as_str, org_role_parse, app_role_parse, role_parse-eq_some}
use openporch.Identity.Tables.{IdentityTables, roles_in}
use openporch.Identity.Authority.{check_env_authority, check_authority}
use openporch.Rbac.Evaluate.{allow, evaluate, app, deploy}
use openporch.Rbac.Ceiling.{covers-evaluate}
use openporch.Rbac.Deploy.{deploy_scope, check_env_authority_iff}
use openporch.Rbac.Grants.{check_authority-evaluate}

abbrev ada : Str
ada = bytes "ada"

abbrev bob : Str
bob = bytes "bob"

abbrev shop : Str
shop = bytes "shop"

abbrev prod : Str
prod = bytes "prod"

abbrev tables : IdentityTables
tables = record {
  principals = (ada, manager) ∷ (bob, member) ∷ [];
  app_roles =
      record { app_id = shop; principal_id = ada; role = bytes "owner" }
      ∷ record { app_id = shop; principal_id = bob; role = bytes "developer" }
      ∷ [];
  env_type_roles =
      record { env_type_id = prod; principal_id = ada }
      ∷ record { env_type_id = prod; principal_id = bob }
      ∷ [];
}

abbrev lead : Roles
lead = record { org = some manager; apps = (shop, owner) ∷ []; deployer = prod ∷ [] }

abbrev worker : Roles
worker = record { org = some member; apps = (shop, developer) ∷ []; deployer = prod ∷ [] }

roles_of_ada : roles_in tables ada ≡ lead
unfolding roles_in get insert set_insert app_role_parse
roles_of_ada = refl

covers-evaluate_example : evaluate (app deploy) lead (deploy_scope shop prod) ≡ allow
unfolding covers get evaluate contains_key
covers-evaluate_example =
    covers-evaluate lead worker (app deploy) (deploy_scope shop prod) refl refl

check_env_authority_iff_example :
    (check_env_authority tables (some bob) shop prod ≡ ok tt)
    ↔ (evaluate (app deploy) (roles_in tables bob) (deploy_scope shop prod) ≡ allow)
check_env_authority_iff_example = check_env_authority_iff tables bob shop prod

check_env_authority_of_bob : check_env_authority tables (some bob) shop prod ≡ ok tt
unfolding check_env_authority roles_in get insert set_insert app_role_parse
check_env_authority_of_bob = refl

-- The manager may make a member of the organization of bob, who is one and deploys the shop.
check_authority-evaluate_example :
    evaluate (app deploy) (roles_in tables ada) (deploy_scope shop prod) ≡ allow
unfolding check_authority roles_in get insert set_insert app_role_parse covers evaluate contains_key
check_authority-evaluate_example =
    check_authority-evaluate tables ada (some bob) member (app deploy) (deploy_scope shop prod) refl
      refl

role_parse-eq_some_example :
    ((org_role_parse (bytes "owner") ≡ some administrator)
      ↔ (bytes "owner" ≡ org_role_as_str administrator))
    × ((app_role_parse (bytes "owner") ≡ some owner) ↔ (bytes "owner" ≡ app_role_as_str owner))
role_parse-eq_some_example = role_parse-eq_some (bytes "owner") administrator owner

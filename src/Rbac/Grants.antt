-- ===== src/Rbac/Grants.antt =====
-- What a change of members that `check_authority` (crates/store/src/identity.rs) lets through can
-- grant, in the permissions of crates/server/src/rbac.rs.
use openporch.Prelude.{Str, Bool, true, false, Option, some, ◌≡◌, arith}
use openporch.Prelude.Order.{str_ord}
use openporch.Prelude.Result.{ok}
use openporch.Identity.Roles.{OrgRole, Roles, opt_is_admin, covers}
use openporch.Identity.Tables.{IdentityTables, roles_in}
use openporch.Identity.Authority.{
  check_authority, check_authority_for, check_resulting, target_roles,
}
use openporch.Rbac.Evaluate.{Scope, allow, evaluate, Permission}
use openporch.Rbac.Ceiling.{covers-evaluate}

resulting-covered :
    (actor : Str) (issuer current : Roles) (role : OrgRole)
    → check_resulting actor issuer current (some role) ≡ ok tt
    → covers issuer (record current { org = some role }) ≡ true
unfolding check_resulting
resulting-covered actor issuer current role h = ground (arith, h)

covers-of_admin :
    (issuer target : Roles) → opt_is_admin issuer.org ≡ true → covers issuer target ≡ true
unfolding covers
covers-of_admin issuer target h = rw h

check_authority-covers :
    (tables : IdentityTables) (actor : Str) (target : Option Str) (role : OrgRole) (removal : Bool)
    → check_authority_for tables (some actor) target (some role) removal ≡ ok tt
    → covers (roles_in tables actor) (record (target_roles tables target) { org = some role })
      ≡ true
unfolding check_authority_for
check_authority-covers tables actor target role removal h = ground (
  arith,
  h,
  covers-of_admin (roles_in tables actor) (record (target_roles tables target) { org = some role }),
  resulting-covered actor (roles_in tables actor) (target_roles tables target) role,
)

-- Where a principal may change a member (or a new one) to an organization role, the principal is
-- allowed, in every scope, each permission that the member is then allowed: nobody grants more than
-- they have.
pub check_authority-evaluate :
    (tables : IdentityTables) (actor : Str) (target : Option Str) (role : OrgRole) (p : Permission)
    → (scope : Scope) → check_authority tables (some actor) target (some role) ≡ ok tt
    → evaluate p (record (target_roles tables target) { org = some role }) scope ≡ allow
    → evaluate p (roles_in tables actor) scope ≡ allow
unfolding check_authority
check_authority-evaluate tables actor target role p scope h k =
    covers-evaluate (roles_in tables actor)
      (record (target_roles tables target) { org = some role }) p scope
      (check_authority-covers tables actor target role false h) k

-- ===== src/Identity/RoleIds.antt =====
-- `as_str` and `parse` of the role types of crates/store/src/identity.rs.
use openporch.Prelude.{Str, bytes, Option, none, some, if◌then◌else◌, ◌≡◌, ◌↔◌, arith}
use openporch.Prelude.Order.{◌==◌, str_ord, eq_iff}
use openporch.Identity.Roles.{
  OrgRole, AppRole, administrator, manager, member, org_viewer, viewer, developer, owner,
  org_role_as_str,
}

unfoldable pub org_role_parse : Str → Option OrgRole
org_role_parse s =
    if s == bytes "administrator"
    then some administrator
    else if s == bytes "manager"
    then some manager
    else if s == bytes "member"
    then some member
    else if s == bytes "orgViewer"
    then some org_viewer
    else none

unfoldable pub app_role_as_str : AppRole → Str
app_role_as_str viewer = bytes "viewer"
app_role_as_str developer = bytes "developer"
app_role_as_str owner = bytes "owner"

unfoldable pub app_role_parse : Str → Option AppRole
app_role_parse s =
    if s == bytes "viewer"
    then some viewer
    else if s == bytes "developer"
    then some developer
    else if s == bytes "owner"
    then some owner
    else none

org_role_parse-eq_some :
    (s : Str) (r : OrgRole) → (org_role_parse s ≡ some r) ↔ (s ≡ org_role_as_str r)
unfolding org_role_parse org_role_as_str
org_role_parse-eq_some s r = (to s r, of r s)
  where
    to : (s : Str) (r : OrgRole) → org_role_parse s ≡ some r → s ≡ org_role_as_str r
    to s r h = ground (
      arith,
      eq_iff s (bytes "administrator"),
      eq_iff s (bytes "manager"),
      eq_iff s (bytes "member"),
      eq_iff s (bytes "orgViewer"),
    )

    of : (r : OrgRole) (s : Str) → s ≡ org_role_as_str r → org_role_parse s ≡ some r
    of administrator s h = rw h
    of manager s h = rw h
    of member s h = rw h
    of org_viewer s h = rw h

app_role_parse-eq_some :
    (s : Str) (r : AppRole) → (app_role_parse s ≡ some r) ↔ (s ≡ app_role_as_str r)
unfolding app_role_parse app_role_as_str
app_role_parse-eq_some s r = (to s r, of r s)
  where
    to : (s : Str) (r : AppRole) → app_role_parse s ≡ some r → s ≡ app_role_as_str r
    to s r h =
        ground
          (arith, eq_iff s (bytes "viewer"), eq_iff s (bytes "developer"), eq_iff s (bytes "owner"))

    of : (r : AppRole) (s : Str) → s ≡ app_role_as_str r → app_role_parse s ≡ some r
    of viewer s h = rw h
    of developer s h = rw h
    of owner s h = rw h

-- A text parses to a role of the organization, or of an application, exactly when it is the text
-- that the role is written as.
pub role_parse-eq_some :
    (s : Str) (r : OrgRole) (q : AppRole)
    → ((org_role_parse s ≡ some r) ↔ (s ≡ org_role_as_str r))
      × ((app_role_parse s ≡ some q) ↔ (s ≡ app_role_as_str q))
role_parse-eq_some s r q = (org_role_parse-eq_some s r, app_role_parse-eq_some s q)

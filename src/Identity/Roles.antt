-- ===== src/Identity/Roles.antt =====
-- The role types and `covers` of crates/store/src/identity.rs.
use openporch.Prelude.{
  Str, bytes, ℕ, leb, Bool, true, false, ◌&&◌, ◌||◌, Option, none, some, [], all, is_nil,
}
use openporch.Prelude.Order.{str_ord}
use openporch.BTreeMap.{BTreeMap, BTreeSet, get, set_contains}

pub data OrgRole : Type 0 where
  administrator manager member org_viewer : OrgRole

pub data AppRole : Type 0 where
  viewer developer owner : AppRole

-- `#[derive(PartialEq)]` of `OrgRole`.
abbrev pub org_role_eq : OrgRole → OrgRole → Bool
org_role_eq administrator administrator = true
org_role_eq manager manager = true
org_role_eq member member = true
org_role_eq org_viewer org_viewer = true
org_role_eq _ _ = false

-- The derived order of `AppRole`, from weakest to strongest.
abbrev pub app_rank : AppRole → ℕ
app_rank viewer = 0
app_rank developer = 1
app_rank owner = 2

-- `a >= b` of `Option<AppRole>`: `None` is below every role.
abbrev pub opt_at_least : Option AppRole → AppRole → Bool
opt_at_least none b = false
opt_at_least (some a) b = leb (app_rank b) (app_rank a)

unfoldable pub org_role_as_str : OrgRole → Str
org_role_as_str administrator = bytes "administrator"
org_role_as_str manager = bytes "manager"
org_role_as_str member = bytes "member"
org_role_as_str org_viewer = bytes "orgViewer"

pub record Roles : Type 0 where
  pub org : Option OrgRole
  pub apps : BTreeMap Str AppRole
  pub deployer : BTreeSet Str

-- `Roles::default()`.
abbrev pub no_roles : Roles
no_roles = record { org = none; apps = []; deployer = [] }

abbrev pub opt_is_admin : Option OrgRole → Bool
opt_is_admin (some administrator) = true
opt_is_admin _ = false

unfoldable pub org_role_covers : OrgRole → OrgRole → Bool
org_role_covers issuer target =
    org_role_eq issuer administrator || org_role_eq target member || org_role_eq issuer target

unfoldable pub apps_covered : BTreeMap Str AppRole → BTreeMap Str AppRole → Bool
apps_covered issuer target = all (λ e. opt_at_least (get e.0 issuer) e.1) target

-- `target.deployer.is_subset(&issuer.deployer)`
unfoldable pub is_subset : BTreeSet Str → BTreeSet Str → Bool
is_subset target issuer = all (λ t. set_contains t issuer) target

-- The part after the test for an administrator, by the two organization roles.
unfoldable pub covers_by : Option OrgRole → Option OrgRole → Roles → Roles → Bool
unfolding org_role_covers apps_covered is_subset
covers_by (some i) (some t) issuer target =
    org_role_covers i t
    && (apps_covered issuer.apps target.apps && is_subset target.deployer issuer.deployer)
covers_by _ none issuer target = is_nil target.apps && is_nil target.deployer
covers_by none (some t) issuer target = false

unfoldable pub covers : Roles → Roles → Bool
unfolding covers_by
covers issuer target = opt_is_admin issuer.org || covers_by issuer.org target.org issuer target

-- ===== src/Rbac/Ceiling.antt =====
-- `evaluate` (crates/server/src/rbac.rs) against `covers` and `check_env_authority`
-- (crates/store/src/identity.rs).
use openporch.Prelude.{
  Str, true, false, Option, none, some, ◌≡◌, inl, inr, refl, arith, Bool-cases, Option-cases,
  if◌then◌else◌,
}
use openporch.Prelude.Order.{str_ord}
use openporch.BTreeMap.{get}
use openporch.Identity.Roles.{
  OrgRole, AppRole, Roles, member, viewer, developer, owner, opt_is_admin, opt_at_least,
  org_role_covers, covers,
}
use openporch.Identity.Coverage.{
  org_role_covers-cases, covered-not_admin, Above, covers-Above, apps_covered-at_least,
  apps_covered-contains_key, is_subset-set_contains,
}
use openporch.Identity.Authority.{opt_is_owner}
use openporch.Rbac.Evaluate.{
  OrgPerm, AppPerm, Permission, Scope, allow, evaluate, evaluate_perm, evaluate_org, evaluate_app,
  evaluate_deploy, can_see_app, public, authenticated, org, app, read_members, read, configure,
  manage, deploy,
}

evaluate_org-of_member :
    (p : OrgPerm) (i : OrgRole) → evaluate_org p member ≡ allow → evaluate_org p i ≡ allow
unfolding evaluate_org
evaluate_org-of_member read_members i h = refl
evaluate_org-of_member p i h = absurd (cc)

evaluate_org_mono :
    (p : OrgPerm) (i t : OrgRole)
    → opt_is_admin (some i) ≡ false
    → org_role_covers i t ≡ true
    → evaluate_org p t ≡ allow
    → evaluate_org p i ≡ allow
evaluate_org_mono p i t n h k = elim (org_role_covers-cases i t n h) [
  | inl e ↦ evaluate_org-of_member p i (rw e at k)
  | inr e ↦ rw e k
]

can_see_app_mono :
    (i t : OrgRole) (issuer target : Roles) (a : Str)
    → opt_is_admin (some i) ≡ false
    → issuer.org ≡ some i
    → target.org ≡ some t
    → Above i t issuer target
    → can_see_app target a ≡ true
    → can_see_app issuer a ≡ true
unfolding can_see_app
can_see_app_mono i t issuer target a n p q c h = elim (org_role_covers-cases i t n c.role) [
  | inl e ↦ ground (arith, p, q, e, apps_covered-contains_key issuer.apps target.apps a c.apps)
  | inr e ↦ ground (arith, p, q, e, apps_covered-contains_key issuer.apps target.apps a c.apps)
]

opt_is_owner-eq_at_least : (o : Option AppRole) → opt_is_owner o ≡ opt_at_least o owner
opt_is_owner-eq_at_least none = refl
opt_is_owner-eq_at_least (some viewer) = refl
opt_is_owner-eq_at_least (some developer) = refl
opt_is_owner-eq_at_least (some owner) = refl

evaluate_app_mono :
    (p : AppPerm) (issuer target : Roles) (a : Str) (e : Option Str) {i t : OrgRole}
    → Above i t issuer target
    → evaluate_app p target a e ≡ allow
    → evaluate_app p issuer a e ≡ allow
unfolding evaluate_app evaluate_deploy
evaluate_app_mono read issuer target a e c h = refl
evaluate_app_mono configure issuer target a e c h =
    ground (arith, apps_covered-at_least issuer.apps target.apps a developer c.apps)
evaluate_app_mono manage issuer target a e c h = ground (
  arith,
  apps_covered-at_least issuer.apps target.apps a owner c.apps,
  opt_is_owner-eq_at_least (get a issuer.apps),
  opt_is_owner-eq_at_least (get a target.apps),
)
evaluate_app_mono deploy issuer target a none c h = ground (arith, h)
evaluate_app_mono deploy issuer target a (some ty) c h = ground (
  arith,
  apps_covered-at_least issuer.apps target.apps a developer c.apps,
  is_subset-set_contains target.deployer issuer.deployer ty c.deployer,
)

evaluate_perm_mono :
    (p : Permission) (scope : Scope) (i t : OrgRole) (issuer target : Roles)
    → opt_is_admin (some i) ≡ false
    → issuer.org ≡ some i
    → target.org ≡ some t
    → Above i t issuer target
    → evaluate_perm p t target scope ≡ allow
    → evaluate_perm p i issuer scope ≡ allow
unfolding evaluate_perm
evaluate_perm_mono public scope i t issuer target n e f c h = refl
evaluate_perm_mono authenticated scope i t issuer target n e f c h = refl
evaluate_perm_mono (org p) scope i t issuer target n e f c h = evaluate_org_mono p i t n c.role h
evaluate_perm_mono (app p) scope i t issuer target n e f c h = elim (Option-cases scope.app) [
  | inl q ↦ absurd (ground (arith, q, h))
  | inr (a, q) ↦ ground (
    arith,
    q,
    h,
    can_see_app_mono i t issuer target a n e f c,
    evaluate_app_mono p issuer target a scope.env_type c,
  )
]

evaluate-of_org :
    (p : Permission) (r : Roles) (scope : Scope) (i : OrgRole)
    → r.org ≡ some i
    → evaluate p r scope ≡ (if opt_is_admin (some i) then allow else evaluate_perm p i r scope)
unfolding evaluate
evaluate-of_org p r scope i e = rw e

evaluate-of_none :
    (p : Permission) (r : Roles) (scope : Scope) → r.org ≡ none → ¬ (evaluate p r scope ≡ allow)
unfolding evaluate
evaluate-of_none p r scope e h = ground (arith, e, h)

covers-evaluate_not_admin :
    (issuer target : Roles) (p : Permission) (scope : Scope) (t : OrgRole)
    → target.org ≡ some t
    → opt_is_admin issuer.org ≡ false
    → covers issuer target ≡ true
    → evaluate p target scope ≡ allow
    → evaluate p issuer scope ≡ allow
covers-evaluate_not_admin issuer target p scope t e n c h =
    let (i, f, above) = covers-Above issuer target t e n c in
    let ni : opt_is_admin (some i) ≡ false = rw f at n in
    let nt = covered-not_admin i t ni above.role in
    let k : evaluate_perm p t target scope ≡ allow =
      rw (evaluate-of_org p target scope t e, nt) at h in
    let r = evaluate_perm_mono p scope i t issuer target ni f e above k in
    rw (evaluate-of_org p issuer scope i f, ni) r

evaluate-of_admin :
    (p : Permission) (r : Roles) (scope : Scope)
    → opt_is_admin r.org ≡ true
    → evaluate p r scope ≡ allow
unfolding evaluate
evaluate-of_admin p r scope h = ground (arith, h)

-- Where the roles of an issuer cover the roles of a target, every permission that the target is
-- allowed in a scope is allowed to the issuer in it.
pub covers-evaluate :
    (issuer target : Roles) (p : Permission) (scope : Scope)
    → covers issuer target ≡ true
    → evaluate p target scope ≡ allow
    → evaluate p issuer scope ≡ allow
covers-evaluate issuer target p scope c h = elim (Option-cases target.org) [
  | inl e ↦ absurd (evaluate-of_none p target scope e h)
  | inr (t, e) ↦ elim (Bool-cases (opt_is_admin issuer.org)) [
    | inl a ↦ evaluate-of_admin p issuer scope a
    | inr n ↦ covers-evaluate_not_admin issuer target p scope t e n c h
  ]
]

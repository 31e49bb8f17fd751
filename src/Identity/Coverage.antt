-- ===== src/Identity/Coverage.antt =====
-- What `covers` of crates/store/src/identity.rs says about each role of the two principals.
use openporch.Prelude.{
  Str, true, false, Option, none, some, ◌≡◌, ◌⊎◌, inl, inr, refl, sym, ◌∙◌, arith, all-Memᴰ,
  Option-cases, and_left, and_right,
}
use openporch.Prelude.Order.{str_ord}
use openporch.BTreeMap.{BTreeMap, BTreeSet, get, contains_key, set_contains}
use openporch.BTreeMap.Laws.{contains_key-get, is_some}
use openporch.BTreeMap.Members.{mem_of_get, set_contains_iff}
use openporch.Identity.Roles.{
  OrgRole, AppRole, Roles, org_role_eq, administrator, manager, member, org_viewer, opt_is_admin,
  opt_at_least, org_role_covers, apps_covered, is_subset, covers_by, covers,
}

pub opt_at_least_trans :
    (a : Option AppRole) (b c : AppRole)
    → opt_at_least a b ≡ true
    → opt_at_least (some b) c ≡ true
    → opt_at_least a c ≡ true
opt_at_least_trans none b c h k = cc
opt_at_least_trans (some a) b c h k = ground arith

pub apps_covered-at_least :
    (i t : BTreeMap Str AppRole) (a : Str) (r : AppRole)
    → apps_covered i t ≡ true
    → opt_at_least (get a t) r ≡ true
    → opt_at_least (get a i) r ≡ true
unfolding apps_covered
apps_covered-at_least i t a r h k = elim (Option-cases (get a t)) [
  | inl e ↦ ground (arith, e)
  | inr (s, e) ↦
      opt_at_least_trans (get a i) s r
        (all-Memᴰ (λ e. opt_at_least (get e.0 i) e.1) h (mem_of_get a s t e)) (rw e at k)
]

pub opt_at_least-is_some :
    (o : Option AppRole) (r : AppRole) → opt_at_least o r ≡ true → is_some o ≡ true
opt_at_least-is_some none r h = h
opt_at_least-is_some (some s) r h = refl

pub apps_covered-contains_key :
    (i t : BTreeMap Str AppRole) (a : Str)
    → apps_covered i t ≡ true
    → contains_key a t ≡ true
    → contains_key a i ≡ true
unfolding apps_covered
apps_covered-contains_key i t a h k = elim (Option-cases (get a t)) [
  | inl e ↦ ground (arith, e, contains_key-get a t)
  | inr (s, e) ↦
      contains_key-get a i
      ∙ opt_at_least-is_some (get a i) s
          (all-Memᴰ (λ e. opt_at_least (get e.0 i) e.1) h (mem_of_get a s t e))
]

pub is_subset-set_contains :
    (t i : BTreeSet Str) (a : Str)
    → is_subset t i ≡ true
    → set_contains a t ≡ true
    → set_contains a i ≡ true
unfolding is_subset
is_subset-set_contains t i a h k = all-Memᴰ (λ x. set_contains x i) h ((set_contains_iff a t).0 k)

-- What is left of `covers` when the target is a member of the organization.
pub record Above (i t : OrgRole) (issuer target : Roles) : Type 0 where
  pub role : org_role_covers i t ≡ true
  pub apps : apps_covered issuer.apps target.apps ≡ true
  pub deployer : is_subset target.deployer issuer.deployer ≡ true

pub covers-Above :
    (issuer target : Roles) (t : OrgRole)
    → target.org ≡ some t
    → opt_is_admin issuer.org ≡ false
    → covers issuer target ≡ true
    → (i : OrgRole) × (issuer.org ≡ some i) × Above i t issuer target
unfolding covers covers_by
covers-Above issuer target t e n h = elim (Option-cases issuer.org) [
  | inl p ↦
      absurd
        (let q : covers_by none (some t) issuer target ≡ true = ground (arith, p, e, n, h) in cc)
  | inr (i, p) ↦
      let q : covers_by (some i) (some t) issuer target ≡ true = ground (arith, p, e, n, h) in
      let r = and_right _ _ q in
      (i, p, record { role = and_left _ _ q; apps = and_left _ _ r; deployer = and_right _ _ r })
]

org_role_eq→eq : (a b : OrgRole) → org_role_eq a b ≡ true → a ≡ b
org_role_eq→eq administrator administrator h = refl
org_role_eq→eq manager manager h = refl
org_role_eq→eq member member h = refl
org_role_eq→eq org_viewer org_viewer h = refl
org_role_eq→eq a b h = cc

pub org_role_covers-cases :
    (i t : OrgRole)
    → opt_is_admin (some i) ≡ false
    → org_role_covers i t ≡ true
    → (t ≡ member) ⊎ (i ≡ t)
unfolding org_role_covers
org_role_covers-cases i member n h = inl refl
org_role_covers-cases manager manager n h = inr refl
org_role_covers-cases org_viewer org_viewer n h = inr refl
org_role_covers-cases administrator t n h = absurd (cc)
org_role_covers-cases manager t n h = absurd (cc)
org_role_covers-cases member t n h = absurd (cc)
org_role_covers-cases org_viewer t n h = absurd (cc)

pub covered-not_admin :
    (i t : OrgRole)
    → opt_is_admin (some i) ≡ false
    → org_role_covers i t ≡ true
    → opt_is_admin (some t) ≡ false
covered-not_admin i t n h = elim (org_role_covers-cases i t n h) [
  | inl e ↦ rw e
  | inr e ↦ rw (sym e) n
]

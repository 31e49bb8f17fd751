-- ===== src/Permits/ConsumeOutcome.antt =====
-- `consume_permit` (crates/store/src/sqlite_permits.rs): which permit it uses, and when it finds none.
use openporch.Prelude.{
  Str, ℕ, ◌<◌, true, false, not, ◌&&◌, Option, none, some, ◌≡◌, ◌↔◌, ◌⊎◌, inl, inr, refl, sym, ap,
  ◌∙◌, arith, Option-cases, Memᴰ, and_left, and_right,
}
use openporch.Prelude.Order.{str_ord, eq_iff}
use openporch.Prelude.Result.{ok}
use openporch.BTreeMap.{get}
use openporch.BTreeMap.Laws.{is_some-eq_false, is_some}
use openporch.Store.Lookup.{permit_if-eq_some}
use openporch.Store.Rows.{Db, PermitRow, find_permit}
use openporch.Permits.Types.{PermitUse}
use openporch.Permits.Checks.{issuer_lost}
use openporch.Permits.Consume.{refused, refused_row, refused_detach, opt_str_beq, for_action}

-- What the row of a permit must say for the action that `u` describes.
pub record Covers (db : Db) (u : PermitUse) (ty : Str) (generation now : ℕ) (id : Str)
    (row : PermitRow) : Type 0 where
  pub stored : get id db.permits ≡ some row
  pub of_app : row.app_id ≡ u.app
  pub of_env : row.env_id ≡ u.env
  pub of_resource : row.descriptor ≡ u.descriptor
  pub of_action : row.action ≡ u.action
  pub identity : (row.guresid ≡ none) ⊎ (row.guresid ≡ u.guresid)
  pub plan : (row.plan_fingerprint ≡ none) ⊎ (row.plan_fingerprint ≡ u.fingerprint)
  pub presented : u.deployment ≡ none → Memᴰ id u.presented
  pub binding :
      (row.bound_to ≡ u.deployment)
      × (u.deployment ≡ none → (now < row.expires_at) × (row.base_generation ≡ generation))
  pub held : issuer_lost db u.app ty u.action row.issuer_id ≡ ok none

pub opt_str_beq_iff : (a b : Option Str) → (opt_str_beq a b ≡ true) ↔ (a ≡ b)
opt_str_beq_iff none none = (λ h. refl, λ e. refl)
opt_str_beq_iff (some a) (some b) =
    (λ h. ap some ((eq_iff a b).0 h), λ e. (eq_iff a b).1 (let q : a ≡ b = cc in q))
opt_str_beq_iff none (some b) = (λ h. cc, λ e. cc)
opt_str_beq_iff (some a) none = (λ h. cc, λ e. cc)

-- A value that must be the wanted one where there is any.
none_or_same :
    (o w : Option Str) → (is_some o && not (opt_str_beq o w)) ≡ false → (o ≡ none) ⊎ (o ≡ w)
none_or_same none w h = inl refl
none_or_same (some a) w h = inr ((opt_str_beq_iff (some a) w).0 (ground (arith, h)))

module _ (db : Db) (u : PermitUse) (ty : Str) (generation now : ℕ) where
  refused-eq_none :
      (id : Str) (row : PermitRow)
      → refused db u ty generation now id row ≡ ok none
      → (refused_row u generation now id row ≡ none)
        × (issuer_lost db u.app ty u.action row.issuer_id ≡ ok none)
  unfolding refused
  refused-eq_none id row h = (ground (arith, h), ground (arith, h))

  refused_row-eq_none :
      (id : Str) (row : PermitRow)
      → refused_row u generation now id row ≡ none
      → ((row.guresid ≡ none) ⊎ (row.guresid ≡ u.guresid))
        × ((row.plan_fingerprint ≡ none) ⊎ (row.plan_fingerprint ≡ u.fingerprint))
        × (u.deployment ≡ none → refused_detach generation now id row ≡ none)
  unfolding refused_row
  refused_row-eq_none id row h = (
    none_or_same row.guresid u.guresid (ground (arith, h)),
    none_or_same row.plan_fingerprint u.fingerprint (ground (arith, h)),
    λ e. ground (arith, h, e),
  )

  refused_detach-eq_none :
      (id : Str) (row : PermitRow)
      → refused_detach generation now id row ≡ none
      → (row.bound_to ≡ none) × (now < row.expires_at) × (row.base_generation ≡ generation)
  unfolding refused_detach
  refused_detach-eq_none id row h =
      (is_some-eq_false row.bound_to (ground (arith, h)), ground (arith, h), ground (arith, h))

same-of_none_or :
    (o w : Option Str) → (o ≡ none) ⊎ (o ≡ w) → (is_some o && not (opt_str_beq o w)) ≡ false
same-of_none_or o w (inl e) = rw e
same-of_none_or o w (inr e) = ground (arith, (opt_str_beq_iff o w).1 e)

module _ (db : Db) (u : PermitUse) (ty : Str) (generation now : ℕ) where
  refused_row-of :
      (id : Str) (row : PermitRow)
      → Covers db u ty generation now id row
      → refused_row u generation now id row ≡ none
  unfolding refused_row refused_detach
  refused_row-of id row c = elim (Option-cases u.deployment) [
    | inl e ↦
        let (lives, same) = c.binding.1 e in
        let free : row.bound_to ≡ none = c.binding.0 ∙ e in
        ground (
          arith,
          e,
          lives,
          same,
          free,
          same-of_none_or row.guresid u.guresid c.identity,
          same-of_none_or row.plan_fingerprint u.fingerprint c.plan,
        )
    | inr (d, e) ↦ ground (
      arith,
      e,
      same-of_none_or row.guresid u.guresid c.identity,
      same-of_none_or row.plan_fingerprint u.fingerprint c.plan,
    )
  ]

  pub refused-of_Covers :
      (id : Str) (row : PermitRow)
      → Covers db u ty generation now id row
      → refused db u ty generation now id row ≡ ok none
  unfolding refused
  refused-of_Covers id row c = rw (refused_row-of id row c, c.held)

  pub find_permit-eq_some :
      (id : Str) (row : PermitRow)
      → find_permit db u.app u.env id ≡ some row
      → (get id db.permits ≡ some row) × (row.app_id ≡ u.app) × (row.env_id ≡ u.env)
  unfolding find_permit
  find_permit-eq_some id row h = permit_if-eq_some u.app u.env (get id db.permits) row h

  pub Covers-of_row :
      (id : Str) (row : PermitRow)
      → get id db.permits ≡ some row
      → row.app_id ≡ u.app
      → row.env_id ≡ u.env
      → for_action u row ≡ true
      → (u.deployment ≡ none → Memᴰ id u.presented)
      → ((d : Str) → u.deployment ≡ some d → row.bound_to ≡ some d)
      → refused db u ty generation now id row ≡ ok none
      → Covers db u ty generation now id row
  Covers-of_row id row st a e f p b h =
      let (r, held) = refused-eq_none db u ty generation now id row h in
      let (guresid, plan, detach) = refused_row-eq_none db u ty generation now id row r in
      record {
        stored = st;
        of_app = a;
        of_env = e;
        of_resource = (eq_iff row.descriptor u.descriptor).0 (and_left _ _ f);
        of_action = (eq_iff row.action u.action).0 (and_right _ _ f);
        identity = guresid;
        plan = plan;
        presented = p;
        binding = (
          bound_to_of (Option-cases u.deployment) detach,
          λ q.
              let (free, lives, same) =
                refused_detach-eq_none db u ty generation now id row (detach q) in
              (lives, same),
        );
        held = held;
      }
    where
      bound_to_of :
          (u.deployment ≡ none) ⊎ ((d : Str) × (u.deployment ≡ some d))
          → (u.deployment ≡ none → refused_detach generation now id row ≡ none)
          → row.bound_to ≡ u.deployment
      bound_to_of (inl q) detach =
          (refused_detach-eq_none db u ty generation now id row (detach q)).0 ∙ sym q
      bound_to_of (inr (d, q)) detach = b d q ∙ sym q

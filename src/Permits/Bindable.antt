-- ===== src/Permits/Bindable.antt =====
-- When a presented permit can be bound: the guards of `bind_permits`
-- (crates/store/src/sqlite_permits.rs) as one condition.
use openporch.Prelude.{Str, bytes, ℕ, ◌<◌, true, false, Option, none, some, ◌≡◌, ◌↔◌, ap, arith}
use openporch.Prelude.Order.{◌==◌, str_ord, eq_iff}
use openporch.Prelude.Result.{ok}
use openporch.BTreeMap.{BTreeMap, get}
use openporch.BTreeMap.Laws.{is_some-eq_false}
use openporch.Store.Rows.{Db, PermitRow, find_permit}
use openporch.Permits.Checks.{issuer_lost}
use openporch.Permits.Bind.{check_bind, check_holder, same_digest}

-- The permit `id` of the environment, whose row is `row`, can be bound to a deployment.
pub record IsBindable (db : Db) (app env ty : Str) (generation now : ℕ) (digests : BTreeMap Str Str)
    (id : Str) (row : PermitRow) : Type 0 where
  pub found : find_permit db app env id ≡ some row
  pub unbound : row.bound_to ≡ none
  pub unexpired : now < row.expires_at
  pub current : row.base_generation ≡ generation
  pub for_deployment : (row.action == bytes "detach") ≡ false
  pub held : issuer_lost db app ty row.action row.issuer_id ≡ ok none
  pub as_previewed : get row.descriptor digests ≡ some row.config_digest

same_digest_iff : (o : Option Str) (d : Str) → (same_digest o d ≡ true) ↔ (o ≡ some d)
same_digest_iff none d = (λ h. cc, λ h. cc)
same_digest_iff (some c) d =
    (λ h. ap some ((eq_iff c d).0 h), λ h. (eq_iff c d).1 (let q : c ≡ d = cc in q))

module _ (db : Db) (app ty : Str) (digests : BTreeMap Str Str) (id : Str) (row : PermitRow) where
  check_holder-eq_ok :
      check_holder db app ty digests id row ≡ ok tt
      → (issuer_lost db app ty row.action row.issuer_id ≡ ok none)
        × (get row.descriptor digests ≡ some row.config_digest)
  unfolding check_holder
  check_holder-eq_ok h = (
    ground (arith, h),
    ground (arith, h, same_digest_iff (get row.descriptor digests) row.config_digest),
  )

  check_holder-ok_of :
      issuer_lost db app ty row.action row.issuer_id ≡ ok none
      → get row.descriptor digests ≡ some row.config_digest
      → check_holder db app ty digests id row ≡ ok tt
  unfolding check_holder
  check_holder-ok_of h k =
      rw (h, (same_digest_iff (get row.descriptor digests) row.config_digest).1 k)

module _ (db : Db) (app env ty : Str) (generation now : ℕ) (digests : BTreeMap Str Str) (id : Str)
    (row : PermitRow) where
  pub IsBindable-of_check :
      find_permit db app env id ≡ some row
      → check_bind db app ty generation now digests id row ≡ ok tt
      → IsBindable db app env ty generation now digests id row
  unfolding check_bind
  IsBindable-of_check f h =
      let k : check_holder db app ty digests id row ≡ ok tt = ground (arith, h) in
      let (held, digest) = check_holder-eq_ok db app ty digests id row k in
      record {
        found = f;
        unbound = is_some-eq_false row.bound_to (ground (arith, h));
        unexpired = ground (arith, h);
        current = ground (arith, h);
        for_deployment = ground (arith, h);
        held = held;
        as_previewed = digest;
      }

  pub check-of_IsBindable :
      IsBindable db app env ty generation now digests id row
      → check_bind db app ty generation now digests id row ≡ ok tt
  unfolding check_bind
  check-of_IsBindable b = ground (
    arith,
    b.unbound,
    b.unexpired,
    b.current,
    b.for_deployment,
    check_holder-ok_of db app ty digests id row b.held b.as_previewed,
  )

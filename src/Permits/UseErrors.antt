-- ===== src/Permits/UseErrors.antt =====
-- The failures of `use_permit` (crates/store/src/sqlite_permits.rs) that are not a missing permit.
use openporch.Prelude.{Str, ◌≡◌, ◌≢◌, ◌⊎◌, inl, inr, refl, Bool-cases}
use openporch.Prelude.Order.{◌==◌, str_ord}
use openporch.Prelude.Result.{err}
use openporch.Identity.Tables.{
  StoreError, approval_required, already_owned, schema_too_new, not_found, already_exists, busy,
  detached, recovery_required, stale_generation, migration_required, permit_invalid,
  idempotency_mismatch, invalid, conflict, forbidden, corrupt, database, migrate, io,
}
use openporch.Store.World.{World}
use openporch.Store.Rows.{Db, check_org}
use openporch.Permits.Types.{PermitUse}
use openporch.Permits.UsePermit.{use_answer}

pub use_answer-failed :
    (w : World) (u : PermitUse) (deployment : Str) (db : Db) (e : StoreError)
    → ((reasons : Str) → e ≢ approval_required reasons)
    → use_answer w u deployment db (err e) ≡ (db, err e)
unfolding use_answer
use_answer-failed w u deployment db (approval_required r) n = absurd (n r refl)
use_answer-failed w u deployment db (already_owned p) n = refl
use_answer-failed w u deployment db (schema_too_new f s) n = refl
use_answer-failed w u deployment db (not_found s) n = refl
use_answer-failed w u deployment db (already_exists s) n = refl
use_answer-failed w u deployment db (busy s) n = refl
use_answer-failed w u deployment db (detached s) n = refl
use_answer-failed w u deployment db (recovery_required s) n = refl
use_answer-failed w u deployment db (stale_generation x a) n = refl
use_answer-failed w u deployment db (migration_required d a b) n = refl
use_answer-failed w u deployment db (permit_invalid s) n = refl
use_answer-failed w u deployment db (idempotency_mismatch s) n = refl
use_answer-failed w u deployment db (invalid s) n = refl
use_answer-failed w u deployment db (conflict s) n = refl
use_answer-failed w u deployment db (forbidden s) n = refl
use_answer-failed w u deployment db (corrupt s) n = refl
use_answer-failed w u deployment db (database s) n = refl
use_answer-failed w u deployment db (migrate s) n = refl
use_answer-failed w u deployment db (io c s) n = refl

-- An error is a missing permit, or another one.
pub error_kind :
    (e : StoreError)
    → ((reasons : Str) × (e ≡ approval_required reasons))
      ⊎ ((reasons : Str) → e ≢ approval_required reasons)
error_kind (approval_required r) = inl (r, refl)
error_kind (already_owned p) = inr (λ r q. cc)
error_kind (schema_too_new f s) = inr (λ r q. cc)
error_kind (not_found s) = inr (λ r q. cc)
error_kind (already_exists s) = inr (λ r q. cc)
error_kind (busy s) = inr (λ r q. cc)
error_kind (detached s) = inr (λ r q. cc)
error_kind (recovery_required s) = inr (λ r q. cc)
error_kind (stale_generation x a) = inr (λ r q. cc)
error_kind (migration_required d a b) = inr (λ r q. cc)
error_kind (permit_invalid s) = inr (λ r q. cc)
error_kind (idempotency_mismatch s) = inr (λ r q. cc)
error_kind (invalid s) = inr (λ r q. cc)
error_kind (conflict s) = inr (λ r q. cc)
error_kind (forbidden s) = inr (λ r q. cc)
error_kind (corrupt s) = inr (λ r q. cc)
error_kind (database s) = inr (λ r q. cc)
error_kind (migrate s) = inr (λ r q. cc)
error_kind (io c s) = inr (λ r q. cc)

pub check_org-other :
    (db : Db) (org : Str) (x : StoreError)
    → check_org db org ≡ err x
    → (reasons : Str) → x ≢ approval_required reasons
unfolding check_org
check_org-other db org x h reasons q = elim (Bool-cases (org == db.org)) [
  | inl e ↦ absurd (let bad = rw e at h in cc)
  | inr e ↦ absurd (let bad = rw e at h in cc)
]

-- ===== src/Permits/Issuer.antt =====
-- `issuer_lost` (crates/store/src/sqlite_permits.rs) always gives a verdict: the checks it makes
-- fail only by `Forbidden`.
use openporch.Prelude.{Str, Bool, true, false, Option, none, some, ◌≡◌, refl, arith}
use openporch.Prelude.Order.{str_ord}
use openporch.Prelude.Result.{ok, err}
use openporch.Identity.Tables.{forbidden, IdentityTables}
use openporch.Identity.Authority.{Checked, check_admin_authority, check_env_authority}
use openporch.Store.Rows.{Db}
use openporch.Permits.Checks.{issuer_lost, issuer_authority, check_protection, lost_of}

-- A success, or a failure by `Forbidden`.
abbrev is_verdict : Checked → Bool
is_verdict (ok u) = true
is_verdict (err (forbidden e)) = true
is_verdict (err e) = false

lost_of-total : (c : Checked) → is_verdict c ≡ true → (o : Option Str) × (lost_of c ≡ ok o)
lost_of-total (ok u) h = (none, refl)
lost_of-total (err (forbidden e)) h = (some e, refl)
lost_of-total (err e) h = absurd (cc)

check_admin-is_verdict :
    (tables : IdentityTables) (issuer : Str)
    → is_verdict (check_admin_authority tables (some issuer)) ≡ true
unfolding check_admin_authority
check_admin-is_verdict tables issuer = ground arith

check_env-is_verdict :
    (tables : IdentityTables) (issuer app ty : Str)
    → is_verdict (check_env_authority tables (some issuer) app ty) ≡ true
unfolding check_env_authority
check_env-is_verdict tables issuer app ty = ground arith

check_protection-is_verdict :
    (db : Db) (ty action issuer : Str) → is_verdict (check_protection db ty action issuer) ≡ true
unfolding check_protection
check_protection-is_verdict db ty action issuer =
    ground (arith, check_admin-is_verdict db.identity issuer)

issuer_authority-is_verdict :
    (db : Db) (app ty action issuer : Str)
    → is_verdict (issuer_authority db app ty action issuer) ≡ true
unfolding issuer_authority
issuer_authority-is_verdict db app ty action issuer = ground (
  arith,
  check_admin-is_verdict db.identity issuer,
  check_env-is_verdict db.identity issuer app ty,
  check_protection-is_verdict db ty action issuer,
)

pub issuer_lost-total :
    (db : Db) (app ty action issuer : Str)
    → (o : Option Str) × (issuer_lost db app ty action issuer ≡ ok o)
unfolding issuer_lost
issuer_lost-total db app ty action issuer =
    lost_of-total (issuer_authority db app ty action issuer)
      (issuer_authority-is_verdict db app ty action issuer)

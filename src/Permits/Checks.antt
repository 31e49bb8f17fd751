-- ===== src/Permits/Checks.antt =====
-- The checks that `bind_permits`, `consume_permit` and `issue_permits` of
-- crates/store/src/sqlite_permits.rs share.
use openporch.Prelude.{Str, bytes, Bool, false, Option, none, some, ◌++◌, if◌then◌else◌, find}
use openporch.Prelude.Order.{◌==◌, str_ord}
use openporch.Prelude.Result.{Result, ok, err, ◌>>=◌}
use openporch.Identity.Tables.{StoreError, forbidden}
use openporch.Identity.Authority.{
  Checked, allowed, quote, check_admin_authority, check_env_authority,
}
use openporch.Store.Rows.{Db, EnvRow, EnvTypeRow, find_env, no_env}

abbrev env_type_of : Str → Str → Option EnvRow → Result StoreError Str
env_type_of app env none = err (no_env app env)
env_type_of app env (some row) = ok row.env_type

unfoldable pub env_type : Db → Str → Str → Result StoreError Str
env_type db app env = env_type_of app env (find_env db app env)

abbrev is_protected_row : Option EnvTypeRow → Bool
is_protected_row none = false
is_protected_row (some row) = row.protected

-- `protected == Some(true)`
unfoldable pub is_protected : Db → Str → Bool
is_protected db ty = is_protected_row (find (λ row. row.id == ty) db.env_types)

abbrev protected_what : Str → Str
protected_what ty = bytes "environment type " ++ quote ty ++ bytes " is protected: "

abbrev pub unknown_impact : Str → StoreError
unknown_impact ty = forbidden (
    protected_what ty
    ++ bytes
        "a change whose impact its driver cannot preview gets no permit; deploy it where its driver can plan it, or remove the protection")

abbrev pub needs_admin : Str → Str → Str → StoreError
needs_admin ty action issuer = forbidden (
    protected_what ty
    ++ quote issuer
    ++ bytes " is not an administrator, which a "
    ++ action
    ++ bytes " permit there needs")

-- The last `match` of `check_protection`.
abbrev reworded : StoreError → Checked → Checked
reworded e (err (forbidden m)) = err e
reworded e other = other

unfoldable pub check_protection : Db → (ty action issuer : Str) → Checked
check_protection db ty action issuer =
    if is_protected db ty
    then (if action == bytes "unknown"
        then err (unknown_impact ty)
        else reworded (needs_admin ty action issuer)
            (check_admin_authority db.identity (some issuer)))
    else allowed

-- The last `match` of `issuer_lost`.
abbrev pub lost_of : Checked → Result StoreError (Option Str)
lost_of (ok u) = ok none
lost_of (err (forbidden e)) = ok (some e)
lost_of (err e) = err e

unfoldable pub issuer_authority : Db → (app ty action issuer : Str) → Checked
issuer_authority db app ty action issuer =
    (if action == bytes "detach"
      then check_admin_authority db.identity (some issuer)
      else check_env_authority db.identity (some issuer) app ty)
    >>= λ u. check_protection db ty action issuer

-- Why the issuer no longer holds the authority, or none while it does.
unfoldable pub issuer_lost : Db → (app ty action issuer : Str) → Result StoreError (Option Str)
unfolding issuer_authority
issuer_lost db app ty action issuer = lost_of (issuer_authority db app ty action issuer)

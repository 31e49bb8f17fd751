-- ===== src/Permits/Bind.antt =====
-- `bind_permits` and `audit_bound` of crates/store/src/sqlite_permits.rs.
use openporch.Prelude.{
  Str, bytes, ℕ, leb, nat_beq, Bool, false, not, Option, none, some, List, [], ◌∷◌, ◌++◌,
  if◌then◌else◌, ◌&&◌, any, map, keep, is_nil, join, decimal, suc,
}
use openporch.Prelude.Order.{◌==◌, str_ord}
use openporch.Prelude.Result.{Result, ok, err, ◌>>=◌, ◌>>◌}
use openporch.BTreeMap.{BTreeMap, BTreeSet, get, collect_set}
use openporch.BTreeMap.Laws.{is_some}
use openporch.Identity.Tables.{StoreError, permit_invalid, approval_required}
use openporch.Identity.Authority.{Checked, allowed, quote}
use openporch.Store.Audit.{AuditIntent, AuditOutcome, insert_entry}
use openporch.Store.World.{World}
use openporch.Store.Rows.{Db, PermitRow, find_permit, update_permit, path_of}
use openporch.Permits.Types.{PermitBinding, BoundPermit}
use openporch.Permits.Checks.{env_type, issuer_lost}

abbrev permit_text : Str → Str
permit_text id = bytes "permit " ++ quote id

abbrev pub not_issued : Str → Str → Str → StoreError
not_issued id app env =
    permit_invalid (permit_text id ++ bytes " was not issued for " ++ quote (path_of app env))

abbrev pub bound_already : Str → StoreError
bound_already id =
    permit_invalid
      (permit_text id ++ bytes " was already bound to another deployment; preview again")

abbrev pub expired : Str → StoreError
expired id = permit_invalid (permit_text id ++ bytes " has expired; preview again")

abbrev pub stale : Str → ℕ → ℕ → StoreError
stale id base generation = permit_invalid (
    permit_text id
    ++ bytes " was issued at generation "
    ++ decimal base
    ++ bytes ", but the environment is at "
    ++ decimal generation
    ++ bytes "; preview again")

abbrev pub for_detach : Str → StoreError
for_detach id =
    permit_invalid (permit_text id ++ bytes " is for a detach, which no deployment runs")

abbrev pub no_longer_holds : Str → Str → StoreError
no_longer_holds id e = permit_invalid (permit_text id ++ bytes " no longer holds: " ++ e)

abbrev pub changed_since : Str → Str → StoreError
changed_since id descriptor = permit_invalid (
    permit_text id
    ++ bytes " is for "
    ++ quote descriptor
    ++ bytes
        " as previewed, but its configuration has changed since or the deployment does not change it; preview again")

-- `binding.digests.get(&descriptor) == Some(&digest)`
abbrev pub same_digest : Option Str → Str → Bool
same_digest none d = false
same_digest (some c) d = c == d

abbrev pub check_lost : Str → Option Str → Checked
check_lost id none = allowed
check_lost id (some e) = err (no_longer_holds id e)

-- The call of `issuer_lost` and what follows it, up to the UPDATE.
unfoldable pub check_holder : Db → (app ty : Str) → BTreeMap Str Str → Str → PermitRow → Checked
check_holder db app ty digests id row = issuer_lost db app ty row.action row.issuer_id >>= λ lost.
    check_lost id lost
    >> (if same_digest (get row.descriptor digests) row.config_digest
        then allowed
        else err (changed_since id row.descriptor))

-- The guards of the loop's body, in their order.
unfoldable pub check_bind :
    Db → (app ty : Str) → (generation now : ℕ) → BTreeMap Str Str → Str → PermitRow → Checked
unfolding check_holder
check_bind db app ty generation now digests id row =
    if is_some row.bound_to
    then err (bound_already id)
    else if leb row.expires_at now
    then err (expired id)
    else if not (nat_beq row.base_generation generation)
    then err (stale id row.base_generation generation)
    else if row.action == bytes "detach"
    then err (for_detach id)
    else check_holder db app ty digests id row

-- `UPDATE permits SET bound_to = ?, bound_at = ?`
abbrev pub bind_row : Str → ℕ → PermitRow → PermitRow
bind_row deployment now row = record row { bound_to = some deployment; bound_at = some now }

-- The loop's variables, with the database that its statements change.
pub record Bound : Type 0 where
  pub db : Db
  pub covered : List (Str × Str)
  pub bound : List BoundPermit

abbrev pub bound_permit : PermitRow → BoundPermit
bound_permit row = record {
  descriptor = row.descriptor;
  action = row.action;
  issued_entry = row.issued_entry;
}

abbrev pub pair_beq : Str × Str → Str × Str → Bool
pair_beq p q = p.0 == q.0 && p.1 == q.1

-- `covered.contains(r)`; the set is only asked for members, so a list of them stands for it.
abbrev pub covers_pair : List (Str × Str) → Str × Str → Bool
covers_pair covered r = any (pair_beq r) covered

module _ (app env ty : Str) (generation now : ℕ) (deployment : Str)
    (digests : BTreeMap Str Str) where
  -- The loop's body after the query.
  unfoldable pub bind_found : Str → Option PermitRow → Bound → Result StoreError Bound
  unfolding check_bind
  bind_found id none b = err (not_issued id app env)
  bind_found id (some row) b =
      check_bind b.db app ty generation now digests id row
      >> ok record {
        db = update_permit id (bind_row deployment now) b.db;
        covered = b.covered ++ (row.descriptor, row.action) ∷ [];
        bound = b.bound ++ bound_permit row ∷ [];
      }

  unfoldable pub bind_one : Str → Bound → Result StoreError Bound
  unfolding bind_found
  bind_one id b = bind_found id (find_permit b.db app env id) b

  unfoldable pub bind_loop : BTreeSet Str → Bound → Result StoreError Bound
  unfolding bind_one
  bind_loop [] b = ok b
  bind_loop (id ∷ ids) b = bind_one id b >>= bind_loop ids

-- `missing`, before it is written out.
abbrev pub missing : List (Str × Str) → List (Str × Str) → List (Str × Str)
missing required covered = keep (λ r. not (covers_pair covered r)) required

abbrev pub needs_permits : List (Str × Str) → StoreError
needs_permits rs = approval_required (
    bytes "the deployment needs permits for: "
    ++ join (bytes ", ") (map (λ r. r.1 ++ bytes " of " ++ quote r.0) rs)
    ++ bytes "; preview it and request them")

unfoldable pub check_required : List (Str × Str) → Bound → Result StoreError Bound
check_required required b =
    if is_nil (missing required b.covered)
    then ok b
    else err (needs_permits (missing required b.covered))

abbrev pub type_if_any : Db → (app env : Str) → BTreeSet Str → Result StoreError Str
type_if_any db app env [] = ok []
type_if_any db app env (id ∷ ids) = env_type db app env

unfoldable pub bind_permits :
    Db
    → (now : ℕ) → (app env : Str) → (generation : ℕ) → (deployment : Str) → PermitBinding
    → Result StoreError Bound
unfolding bind_loop collect_set check_required
bind_permits db now app env generation deployment binding =
    let presented = collect_set binding.presented [] in
    type_if_any db app env presented >>= λ ty.
    bind_loop app env ty generation now deployment binding.digests presented
      record { db = db; covered = []; bound = [] }
    >>= check_required binding.required

-- The audit entry of a bound permit.
abbrev bind_intent : AuditIntent → Str → Str → BoundPermit → AuditIntent
bind_intent base app env permit = record base {
  action = bytes "permit.bind";
  target = some (path_of app env ++ bytes "/" ++ permit.descriptor);
  outcome = AuditOutcome.accepted;
  reason = some permit.action;
}

-- `n`: the number of the next call for a random number and for the clock.
unfoldable pub audit_bound :
    World
    → (n m : ℕ) → AuditIntent
    → (app env deployment : Str) → List BoundPermit
    → Db
    → Result StoreError Db
audit_bound w n m base app env deployment [] db = ok db
audit_bound w n m base app env deployment (permit ∷ permits) db =
    insert_entry db.audit_log (w.hex n) (w.clock m) (bind_intent base app env permit)
      (some deployment) permit.issued_entry
    >>= λ log.
        audit_bound w (suc n) (suc m) base app env deployment permits
          (record db { audit_log = log })

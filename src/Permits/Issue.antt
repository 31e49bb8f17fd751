-- ===== src/Permits/Issue.antt =====
-- `issue_permits` of crates/store/src/sqlite_permits.rs.
use openporch.Prelude.{
  Str, bytes, ℕ, ◌+◌, suc, leb, nat_beq, Bool, not, ◌&&◌, Option, none, some, List, [], ◌∷◌, ◌++◌,
  if◌then◌else◌, any, find, join, decimal,
}
use openporch.Prelude.Order.{◌==◌, str_ord}
use openporch.Prelude.Result.{Result, ok, err, ◌>>=◌, ◌>>◌}
use openporch.BTreeMap.{BTreeMap, get, insert, contains_key}
use openporch.Identity.Tables.{StoreError, not_found, invalid, forbidden, permit_invalid}
use openporch.Identity.Authority.{
  Checked, allowed, quote, check_admin_authority, check_env_authority,
}
use openporch.Store.Audit.{AuditIntent, insert_entry, unique_violation}
use openporch.Store.World.{World}
use openporch.Store.Rows.{
  Db, EnvRow, PlanRow, PermitRow, find_env, path_of, ok_or, row_not_found, check_org,
}
use openporch.Permits.Types.{NewPermit, PermitRecord, actions, permit_ttl_ms}
use openporch.Permits.Checks.{env_type, check_protection}

abbrev plan_if : Str → Str → Option PlanRow → Option PlanRow
plan_if app env none = none
plan_if app env (some row) = if row.app_id == app && row.env_id == env then some row else none

unfoldable pub find_plan : Db → Str → Str → Str → Option PlanRow
find_plan db app env id = plan_if app env (get id db.plans)

abbrev pub plan_text : Str → Str
plan_text plan = bytes "plan " ++ quote plan

abbrev pub is_action : NewPermit → Bool
is_action p = any (λ a. p.action == a) actions

abbrev check_actions : Option NewPermit → Checked
check_actions none = allowed
check_actions (some p) = err (
    invalid (
      quote p.action
      ++ bytes " is not a destructive action; use one of "
      ++ join (bytes ", ") actions))

abbrev pub check_unexpired : (plan : Str) → PlanRow → (now : ℕ) → Checked
check_unexpired plan row now =
    if leb row.expires_at now
    then err (permit_invalid (plan_text plan ++ bytes " has expired; preview again"))
    else allowed

-- The checks of the plan against the environment's generation, and of the actions.
unfoldable pub check_plan : (plan : Str) → PlanRow → (generation : ℕ) → List NewPermit → Checked
check_plan plan row generation permits =
    if not (nat_beq row.base_generation generation)
    then err (
        permit_invalid (
          plan_text plan
          ++ bytes " was made at generation "
          ++ decimal row.base_generation
          ++ bytes ", but the environment is at "
          ++ decimal generation
          ++ bytes "; preview again"))
    else check_actions (find (λ p. not (is_action p)) permits)

unfoldable pub check_protections : Db → (ty issuer : Str) → List NewPermit → Checked
check_protections db ty issuer [] = allowed
check_protections db ty issuer (p ∷ ps) =
    check_protection db ty p.action issuer >> check_protections db ty issuer ps

-- The authority that the actions need.
unfoldable pub check_issuer : Db → (app ty issuer : Str) → List NewPermit → Checked
unfolding check_protections
check_issuer db app ty issuer permits =
    check_env_authority db.identity (some issuer) app ty
    >> (if any (λ p. p.action == bytes "detach") permits
        then check_admin_authority db.identity (some issuer)
        else allowed)
    >> check_protections db ty issuer permits

abbrev pub permit_row :
    (app env plan issuer : Str) → (base_generation now : ℕ) → (entry : Str) → NewPermit → PermitRow
permit_row app env plan issuer base_generation now entry p = record {
  app_id = app;
  env_id = env;
  plan_id = plan;
  descriptor = p.descriptor;
  guresid = p.guresid;
  action = p.action;
  plan_fingerprint = p.plan_fingerprint;
  base_generation = base_generation;
  config_digest = p.config_digest;
  issuer_id = issuer;
  created_at = now;
  expires_at = now + permit_ttl_ms;
  bound_to = none;
  bound_at = none;
  used_at = none;
  issued_entry = some entry;
}

abbrev permit_record : Str → PermitRow → PermitRecord
permit_record id row = record {
  id = id;
  plan = row.plan_id;
  descriptor = row.descriptor;
  guresid = row.guresid;
  action = row.action;
  plan_fingerprint = row.plan_fingerprint;
  base_generation = row.base_generation;
  issuer = row.issuer_id;
  expires_at = row.expires_at;
  bound_to = row.bound_to;
}

-- The INSERT of a permit; its ID is the primary key.
unfoldable pub insert_permit :
    Str → PermitRow → BTreeMap Str PermitRow → Result StoreError (BTreeMap Str PermitRow)
insert_permit id row permits =
    if contains_key id permits then err unique_violation else ok (insert id row permits)

-- The loop over the new permits; `n` is the number of the next random number. `rows` gives the row of
-- a permit.
unfoldable pub issue_loop :
    World
    → (n : ℕ) → (NewPermit → PermitRow)
    → List NewPermit
    → BTreeMap Str PermitRow
    → List PermitRecord
    → Result StoreError (BTreeMap Str PermitRow × List PermitRecord)
unfolding insert_permit
issue_loop w n row [] permits records = ok (permits, records)
issue_loop w n row (p ∷ ps) permits records =
    insert_permit (bytes "prm-" ++ w.hex n) (row p) permits >>= λ next.
    issue_loop w (suc n) row ps next
      (records ++ permit_record (bytes "prm-" ++ w.hex n) (row p) ∷ [])

abbrev pub generation_of : Option EnvRow → Result StoreError ℕ
generation_of none = err row_not_found
generation_of (some row) = ok row.generation

abbrev pub issue_intent : AuditIntent → (app env plan : Str) → AuditIntent
issue_intent audit app env plan = record audit {
  target = some (path_of app env ++ bytes "/" ++ plan);
}

module _ (w : World) (app env plan issuer : Str) (permits : List NewPermit)
    (audit : AuditIntent) where
  -- The audit entry and the permits, once every check is passed.
  unfoldable pub issue_checked : Db → PlanRow → Result StoreError (Db × List PermitRecord)
  unfolding issue_loop
  issue_checked db row =
      insert_entry db.audit_log (w.hex 0) (w.clock 1) (issue_intent audit app env plan) none none
      >>= λ log.
          issue_loop w 1 (permit_row app env plan issuer row.base_generation (w.clock 0) (w.hex 0))
            permits db.permits []
          >>= λ r. ok (record db { permits = r.0; audit_log = log }, r.1)

  unfoldable pub issue_by : Db → Result StoreError (Db × List PermitRecord)
  unfolding issue_checked check_plan check_issuer
  issue_by db = ok_or (find_plan db app env plan) (not_found (plan_text plan)) >>= λ row.
      check_unexpired plan row (w.clock 0) >> generation_of (find_env db app env) >>= λ generation.
      check_plan plan row generation permits >> env_type db app env >>= λ ty.
      check_issuer db app ty issuer permits >> issue_checked db row

abbrev pub issue_or :
    World
    → (app env plan : Str) → List NewPermit
    → AuditIntent
    → Option Str
    → Db
    → Result StoreError (Db × List PermitRecord)
issue_or w app env plan permits audit none db =
    err (forbidden (bytes "permits need an acting principal"))
issue_or w app env plan permits audit (some issuer) db =
    issue_by w app env plan issuer permits audit db

unfoldable pub issue_permits :
    World
    → (org app env plan : Str) → List NewPermit
    → AuditIntent
    → Db
    → Result StoreError (Db × List PermitRecord)
unfolding issue_by
issue_permits w org app env plan permits audit db =
    check_org db org >> issue_or w app env plan permits audit audit.actor db

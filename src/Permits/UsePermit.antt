-- ===== src/Permits/UsePermit.antt =====
-- `use_permit` and `acceptance_intent` of crates/store/src/sqlite_permits.rs.
use openporch.Prelude.{
  Str, bytes, Bool, ◌&&◌, Option, none, some, List, [], ◌++◌, if◌then◌else◌, find,
}
use openporch.Prelude.Order.{◌==◌, str_ord}
use openporch.Prelude.Result.{Result, ok, err}
use openporch.Identity.Tables.{StoreError, invalid, approval_required}
use openporch.Store.Audit.{AuditIntent, AuditEntry, AuditOutcome, insert_entry}
use openporch.Store.World.{World}
use openporch.Store.Rows.{Db, path_of, check_org}
use openporch.Permits.Types.{PermitUse, UsedPermit}
use openporch.Permits.Consume.{consume_permit, opt_str_beq}

-- The audit entry that accepted a deployment.
abbrev pub is_acceptance : Str → AuditEntry → Bool
is_acceptance deployment e =
    opt_str_beq e.operation_id (some deployment) && e.outcome == bytes "accepted"

abbrev accepted_id : Option AuditEntry → Option Str
accepted_id none = none
accepted_id (some e) = some e.id

abbrev deploys_path : Str → Str → Str → Str
deploys_path org app env =
    bytes "/orgs/" ++ org ++ bytes "/apps/" ++ app ++ bytes "/envs/" ++ env ++ bytes "/deploys"

abbrev intent_of : (org app env : Str) → Option AuditEntry → AuditIntent
intent_of org app env none = record {
  org = org;
  actor = none;
  request_id = none;
  method = bytes "POST";
  path = deploys_path org app env;
  action = [];
  target = none;
  outcome = AuditOutcome.accepted;
  status_code = none;
  reason = none;
}
intent_of org app env (some e) = record {
  org = org;
  actor = e.actor_id;
  request_id = e.request_id;
  method = e.method;
  path = e.path;
  action = [];
  target = e.target;
  outcome = AuditOutcome.accepted;
  status_code = none;
  reason = none;
}

-- The rows of the log are in the order of `seq`, so the first one is found.
unfoldable pub acceptance_intent :
    List AuditEntry → (org app env deployment : Str) → Option Str × AuditIntent
acceptance_intent log org app env deployment = (
  accepted_id (find (is_acceptance deployment) log),
  intent_of org app env (find (is_acceptance deployment) log),
)

-- The database and the answer: the code commits before some of its failures.
abbrev pub Answer : Type 0
Answer = Db × Result StoreError (Unit {0})

abbrev pub use_intent : PermitUse → AuditIntent → AuditOutcome → Str → AuditIntent
use_intent u base outcome reason = record base {
  action = bytes "permit.use";
  target = some (path_of u.app u.env ++ bytes "/" ++ u.descriptor);
  outcome = outcome;
  reason = some reason;
}

-- Commits what was done with a new log, or rolls back to `before`.
abbrev pub commit_with :
    Db → Db → Result StoreError (List AuditEntry) → Result StoreError (Unit {0}) → Answer
commit_with before done (ok log) answer = (record done { audit_log = log }, answer)
commit_with before done (err e) answer = (before, err e)

module _ (w : World) (u : PermitUse) (deployment : Str) where
  abbrev pub acceptance : Db → Option Str × AuditIntent
  acceptance db = acceptance_intent db.audit_log u.org u.app u.env deployment

  abbrev pub use_entry : Db → AuditOutcome → Str → Option Str → Result StoreError (List AuditEntry)
  use_entry db outcome reason correlates =
      insert_entry db.audit_log (w.hex 0) (w.clock 1)
        (use_intent u (acceptance db).1 outcome reason) (some deployment) correlates

  -- The `match used`.
  unfoldable pub use_answer : Db → Result StoreError (Db × UsedPermit) → Answer
  unfolding acceptance_intent
  use_answer db (ok (done, used)) =
      if used.first
      then commit_with db done (use_entry done AuditOutcome.succeeded u.action used.issued_entry)
          (ok tt)
      else (done, ok tt)
  use_answer db (err (approval_required e)) =
      commit_with db db
        (use_entry db AuditOutcome.denied (bytes "approval_required") (acceptance db).0)
        (err (approval_required e))
  use_answer db (err e) = (db, err e)

abbrev pub detach_itself : StoreError
detach_itself = invalid (bytes "a detach uses its permit inside the detach itself")

abbrev pub use_in : World → PermitUse → Option Str → Db → Answer
use_in w u none db = (db, err detach_itself)
use_in w u (some deployment) db = use_answer w u deployment db (consume_permit db (w.clock 0) u)

abbrev pub checked_use : World → PermitUse → Db → Result StoreError (Unit {0}) → Answer
checked_use w u db (ok x) = use_in w u u.deployment db
checked_use w u db (err e) = (db, err e)

unfoldable pub use_permit : World → PermitUse → Db → Answer
unfolding use_answer
use_permit w u db = checked_use w u db (check_org db u.org)

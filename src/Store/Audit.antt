-- ===== src/Store/Audit.antt =====
-- Audit entries (crates/store/src/audit.rs).
use openporch.Prelude.{Str, bytes, ℕ, Option, none, some, List, [], ◌∷◌, ◌++◌, any, if◌then◌else◌}
use openporch.Prelude.Order.{◌==◌, str_ord}
use openporch.Prelude.Result.{Result, ok, err}
use openporch.Identity.Tables.{StoreError, database}

pub data AuditOutcome : Type 0 where
  accepted succeeded failed denied : AuditOutcome

unfoldable pub outcome_as_str : AuditOutcome → Str
outcome_as_str accepted = bytes "accepted"
outcome_as_str succeeded = bytes "succeeded"
outcome_as_str failed = bytes "failed"
outcome_as_str denied = bytes "denied"

pub record AuditIntent : Type 0 where
  pub org : Str
  pub actor : Option Str
  pub request_id : Option Str
  pub method : Str
  pub path : Str
  pub action : Str
  pub target : Option Str
  pub outcome : AuditOutcome
  pub status_code : Option ℕ
  pub reason : Option Str

-- `AuditIntent::accepted`
unfoldable pub accepted_intent : (org actor method path action : Str) → AuditIntent
accepted_intent org actor method path action = record {
  org = org;
  actor = some actor;
  request_id = none;
  method = method;
  path = path;
  action = action;
  target = none;
  outcome = accepted;
  status_code = none;
  reason = none;
}

-- A row of `audit_log`, newest last; `seq` is the row's position.
pub record AuditEntry : Type 0 where
  pub id : Str
  pub at : ℕ
  pub actor_id : Option Str
  pub request_id : Option Str
  pub operation_id : Option Str
  pub method : Str
  pub path : Str
  pub action : Str
  pub target : Option Str
  pub outcome : Str
  pub status_code : Option ℕ
  pub reason : Option Str
  pub correlates : Option Str

-- The failure of a statement whose row breaks a UNIQUE constraint.
abbrev pub unique_violation : StoreError
unique_violation = database (bytes "UNIQUE constraint failed")

unfoldable pub entry_of : (id : Str) → (at : ℕ) → AuditIntent → Option Str → Option Str → AuditEntry
unfolding outcome_as_str
entry_of id at intent operation_id correlates = record {
  id = id;
  at = at;
  actor_id = intent.actor;
  request_id = intent.request_id;
  operation_id = operation_id;
  method = intent.method;
  path = intent.path;
  action = intent.action;
  target = intent.target;
  outcome = outcome_as_str intent.outcome;
  status_code = intent.status_code;
  reason = intent.reason;
  correlates = correlates;
}

-- `audit::insert`: `id` and `at` are what the random numbers and the clock give. The result is the
-- log; the entry's ID is `id`.
unfoldable pub insert_entry :
    List AuditEntry
    → (id : Str) → (at : ℕ) → AuditIntent
    → Option Str
    → Option Str
    → Result StoreError (List AuditEntry)
insert_entry log id at intent operation_id correlates =
    if any (λ e. e.id == id) log
    then err unique_violation
    else ok (log ++ entry_of id at intent operation_id correlates ∷ [])

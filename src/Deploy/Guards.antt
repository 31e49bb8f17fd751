-- ===== src/Deploy/Guards.antt =====
-- The checks of `accept_in_tx` (crates/store/src/sqlite.rs), in its order.
use openporch.Prelude.{
  Str, bytes, ℕ, nat_beq, Bool, true, false, not, ◌&&◌, ◌||◌, Option, none, some, List, ◌++◌,
  if◌then◌else◌, map, keep, find, any, is_nil, join,
}
use openporch.Prelude.Order.{◌==◌, str_ord}
use openporch.Prelude.Sort.{sort}
use openporch.Prelude.Result.{Result, ok, err, ◌>>=◌, ◌>>◌}
use openporch.Identity.Tables.{
  StoreError, not_found, conflict, stale_generation, busy, recovery_required, corrupt,
  idempotency_mismatch,
}
use openporch.Identity.Authority.{Checked, allowed, quote}
use openporch.Store.Rows.{Db, DeploymentRow, ResourceRow, DeltaRow, path_of, row_not_found, ok_or}
use openporch.Permits.Consume.{opt_str_beq, coalesce}
use openporch.Deploy.Types.{
  DeploymentKind, deploy, delete_env, DeploymentRecord, Acceptance, replayed, into_record, Json,
}

abbrev pub in_env : Str → Str → DeploymentRow → Bool
in_env app env d = d.app_id == app && d.env_id == env

-- `fetch_deployment`: the record of a row, or none.
abbrev record_of : Option DeploymentRow → Result StoreError (Option DeploymentRecord)
record_of none = ok none
record_of (some row) = into_record row >>= λ d. ok (some d)

unfoldable pub fetch_deployment :
    List DeploymentRow → (app env id : Str) → Result StoreError (Option DeploymentRecord)
fetch_deployment rows app env id = record_of (find (λ d. in_env app env d && d.id == id) rows)

abbrev no_deployment : Str → StoreError
no_deployment id = corrupt (bytes "deployment " ++ quote id)

-- `fetch_deployment(..)?.ok_or_else(..)?`
unfoldable pub the_deployment :
    List DeploymentRow → (app env id : Str) → Result StoreError DeploymentRecord
unfolding fetch_deployment
the_deployment rows app env id =
    fetch_deployment rows app env id >>= λ d. ok_or d (no_deployment id)

abbrev pub app_state_of : Db → Str → Result StoreError Str
app_state_of db app = elim (find (λ a. a.id == app) db.apps) [
  | none ↦ err row_not_found
  | some a ↦ ok a.state
]

abbrev active : Str
active = bytes "active"

-- The first `match req.kind`: whether the states of the application and the environment let it.
unfoldable pub check_states : DeploymentKind → (app env app_state state : Str) → Checked
check_states deploy app env app_state state =
    if not (app_state == active)
    then err (conflict (bytes "application " ++ quote app ++ bytes " is being deleted"))
    else if not (state == active)
    then err (conflict (bytes "environment " ++ quote (path_of app env) ++ bytes " is " ++ state))
    else allowed
check_states delete_env app env app_state state =
    if state == bytes "deleting"
    then err (
        conflict
          (bytes "environment " ++ quote (path_of app env) ++ bytes " is already being deleted"))
    else if env == bytes "development" && app_state == active
    then err (conflict (bytes "the `development` environment exists as long as its application"))
    else allowed

abbrev pub is_running : Str → Str → DeploymentRow → Bool
is_running app env d = in_env app env d && d.status == bytes "in_progress"

abbrev pub is_uncertain : Str → Str → ResourceRow → Bool
is_uncertain app env r =
    (r.app_id == app && r.env_id == env)
    && (r.status == bytes "unknown" || r.status == bytes "recovery_required")

-- The descriptors of the query of uncertain resources, ordered.
abbrev pub uncertain : Db → Str → Str → List Str
uncertain db app env =
    sort (map (λ r. r.descriptor) (keep (is_uncertain app env) db.active_resources))

abbrev check_running : Option DeploymentRow → Checked
check_running none = allowed
check_running (some d) = err (busy d.id)

unfoldable pub check_free : Db → (app env : Str) → (expected generation : ℕ) → Checked
check_free db app env expected generation =
    if not (nat_beq generation expected)
    then err (stale_generation expected generation)
    else (check_running (find (is_running app env) db.deployments)
        >> (if is_nil (uncertain db app env)
            then allowed
            else err (recovery_required (join (bytes ", ") (uncertain db app env)))))

abbrev check_set_exists : Db → Str → Str → Checked
check_set_exists db app set_id =
    if any (λ s. s.app_id == app && s.id == set_id) db.sets
    then allowed
    else err (not_found (bytes "set " ++ quote set_id))

-- `match (req.kind, &req.set_id)`
unfoldable pub check_set : Db → DeploymentKind → (app : Str) → Option Str → Checked
check_set db deploy app none = err (conflict (bytes "a deployment needs a set"))
check_set db delete_env app (some set_id) =
    err (conflict (bytes "an environment deletion deploys no set"))
check_set db deploy app (some set_id) = check_set_exists db app set_id
check_set db delete_env app none = allowed

abbrev pub is_delta : Str → Str → DeltaRow → Bool
is_delta app delta d = d.app_id == app && d.id == delta

abbrev no_delta : Str → StoreError
no_delta delta = not_found (bytes "delta " ++ quote delta)

abbrev parsed {ℓ} : {Value : Type ℓ} → Str → Result Str Value → Result StoreError Value
parsed delta (ok v) = ok v
parsed delta (err e) = err (corrupt (bytes "delta " ++ quote delta ++ bytes ": " ++ e))

abbrev compared : Str → Bool → Checked
compared delta true = allowed
compared delta false = err (
    conflict
      (bytes "delta " ++ quote delta ++ bytes " changed while the deployment was being prepared"))

-- The stored delta against the content that the set was derived from.
unfoldable pub check_delta {ℓ} :
    {Value : Type ℓ} → Json Value → Db → (app : Str) → Option Str → Option Value → Checked
check_delta json db app (some delta) (some expected) =
    ok_or (find (is_delta app delta) db.deltas) (no_delta delta) >>= λ stored.
    parsed delta (json.from_str stored.content) >>= λ v. compared delta (json.value_eq v expected)
check_delta json db app _ _ = allowed

-- `UPDATE deltas SET frozen_at = COALESCE(frozen_at, ?)`
abbrev pub freeze : Str → Str → ℕ → DeltaRow → DeltaRow
freeze app delta now d =
    if is_delta app delta d then record d { frozen_at = coalesce d.frozen_at now } else d

unfoldable pub freeze_delta : Db → (now : ℕ) → (app : Str) → Option Str → Result StoreError Db
freeze_delta db now app none = ok db
freeze_delta db now app (some delta) =
    if any (is_delta app delta) db.deltas
    then ok (record db { deltas = map (freeze app delta now) db.deltas })
    else err (no_delta delta)

abbrev pub is_prior : Str → Str → Str → Str → DeploymentRow → Bool
is_prior app env actor key d =
    in_env app env d && (d.actor_id == actor && opt_str_beq d.idempotency_key (some key))

-- The answer to a request whose idempotency key a deployment has, or none.
abbrev pub prior_of :
    Db
    → (app env key fingerprint : Str) → Option DeploymentRow
    → Result StoreError (Option Acceptance)
prior_of db app env key fingerprint none = ok none
prior_of db app env key fingerprint (some d) =
    if opt_str_beq d.request_fingerprint (some fingerprint)
    then (the_deployment db.deployments app env d.id >>= λ r. ok (some (replayed r)))
    else err (idempotency_mismatch key)

unfoldable pub replay :
    Db
    → (app env actor : Str) → Option Str
    → (fingerprint : Str) → Result StoreError (Option Acceptance)
unfolding the_deployment
replay db app env actor none fingerprint = ok none
replay db app env actor (some key) fingerprint =
    prior_of db app env key fingerprint (find (is_prior app env actor key) db.deployments)

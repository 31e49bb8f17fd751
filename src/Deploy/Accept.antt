-- ===== src/Deploy/Accept.antt =====
-- `accept_in_tx` and `accept_deployment` of crates/store/src/sqlite.rs.
use openporch.Prelude.{
  Str, bytes, ℕ, ◌+◌, leb, Bool, true, false, ◌&&◌, ◌||◌, Option, none, some, List, [], ◌∷◌, ◌++◌,
  if◌then◌else◌, map, any,
}
use openporch.Prelude.Order.{◌==◌, nat_ord, str_ord}
use openporch.Prelude.Result.{Result, ok, err, ◌>>=◌, ◌>>◌}
use openporch.Identity.Tables.{StoreError}
use openporch.Identity.Authority.{Checked, check_env_authority}
use openporch.Store.Audit.{AuditIntent, AuditOutcome, insert_entry, unique_violation}
use openporch.Store.World.{World}
use openporch.Store.Rows.{
  Db, EnvRow, DeploymentRow, find_env, is_env, no_env, path_of, ok_or, check_org,
}
use openporch.Permits.Bind.{Bound, bind_permits, audit_bound}
use openporch.Permits.Consume.{opt_str_beq}
use openporch.Deploy.Types.{
  DeploymentKind, deploy, delete_env, kind_as_str, DeploymentRequest, Acceptance, created, Json,
}
use openporch.Deploy.Guards.{
  app_state_of, check_states, check_free, check_set, check_delta, freeze_delta, replay,
  the_deployment, in_env,
}

-- `SELECT COALESCE(MAX(seq), 0)`
abbrev max_nat : ℕ → ℕ → ℕ
max_nat a b = if leb a b then b else a

unfoldable pub max_seq : Str → Str → List DeploymentRow → ℕ
max_seq app env [] = 0
max_seq app env (d ∷ ds) =
    let rest = max_seq app env ds in if in_env app env d then max_nat d.seq rest else rest

-- The UNIQUE constraints of `deployments`: its key, its place in the environment, the idempotency key
-- of the actor, and at most one that runs.
abbrev same_key : Option Str → DeploymentRow → Bool
same_key none d = false
same_key (some key) d = opt_str_beq d.idempotency_key (some key)

abbrev pub clashes : DeploymentRow → DeploymentRow → Bool
clashes row d =
    in_env row.app_id row.env_id d
    && (d.id == row.id
        || (d.seq == row.seq
            || (d.actor_id == row.actor_id && same_key row.idempotency_key d
                || d.status == bytes "in_progress" && row.status == bytes "in_progress")))

unfoldable pub insert_deployment : Db → DeploymentRow → Result StoreError Db
insert_deployment db row =
    if any (clashes row) db.deployments
    then err unique_violation
    else ok (record db { deployments = db.deployments ++ row ∷ [] })

abbrev or_else {ℓ} : {A : Type ℓ} → Option A → Option A → Option A
or_else (some a) o = some a
or_else none o = o

abbrev is_delete : DeploymentKind → Bool
is_delete deploy = false
is_delete delete_env = true

-- `UPDATE envs SET generation = ?, desired_set_id = COALESCE(..), state = CASE ..`
abbrev pub move_env : DeploymentKind → Option Str → ℕ → EnvRow → EnvRow
move_env kind set_id generation row = record row {
  generation = generation;
  desired_set_id = or_else set_id row.desired_set_id;
  state = if is_delete kind then bytes "deleting" else row.state;
}

abbrev pub update_envs : Str → Str → (EnvRow → EnvRow) → List EnvRow → List EnvRow
update_envs app env f rows = map (λ row. if is_env app env row then f row else row) rows

module _ {ℓ} {Value : Type ℓ} (json : Json Value) (w : World) (req : DeploymentRequest Value) where
  -- The row of the deployment that is accepted. The numbers say which call of the clock and of the
  -- random numbers each value is from.
  abbrev pub new_row : ℕ → ℕ → DeploymentRow
  new_row seq generation = record {
    app_id = req.app;
    env_id = req.env;
    id = w.hex 0;
    seq = seq;
    kind = kind_as_str req.kind;
    actor_id = req.actor;
    set_id = req.set_id;
    delta_id = req.delta_id;
    comment = req.comment;
    generation = generation;
    status = bytes "in_progress";
    idempotency_key = req.idempotency_key;
    request_fingerprint = some req.fingerprint;
    snapshot = json.to_string req.snapshot;
    error = none;
    created_at = w.clock 2;
    finished_at = none;
  }

  abbrev pub accept_intent : AuditIntent
  accept_intent = record req.audit {
    outcome = AuditOutcome.accepted;
    target = or_else req.audit.target (some (path_of req.app req.env));
  }

  -- The checks on a request that is no retry, with the environment's row.
  unfoldable pub check_request : Db → EnvRow → Checked
  unfolding check_states check_free check_set check_delta
  check_request db row =
      check_env_authority db.identity req.audit.actor req.app row.env_type
      >> (app_state_of db req.app >>= λ app_state.
          check_states req.kind req.app req.env app_state row.state)
      >> check_free db req.app req.env req.expected_generation row.generation
      >> check_set db req.kind req.app req.set_id
      >> check_delta json db req.app req.delta_id req.delta_content

  -- The statements after the permits are bound.
  unfoldable pub record_accepted : EnvRow → Bound → Result StoreError (Db × Acceptance)
  unfolding max_seq insert_deployment
  record_accepted row b =
      insert_deployment b.db
        (new_row (max_seq req.app req.env b.db.deployments + 1) (row.generation + 1))
      >>= λ db.
          let moved = record db {
            envs =
                update_envs req.app req.env (move_env req.kind req.set_id (row.generation + 1))
                  db.envs;
          } in
          insert_entry moved.audit_log (w.hex 1) (w.clock 3) accept_intent (some (w.hex 0)) none
          >>= λ log.
              audit_bound w 2 4 accept_intent req.app req.env (w.hex 0) b.bound
                (record moved { audit_log = log })
              >>= λ done. the_deployment done.deployments req.app req.env (w.hex 0) >>= λ d.
                  ok (done, created d)

  unfoldable pub accept_new : Db → EnvRow → Result StoreError (Db × Acceptance)
  unfolding check_request record_accepted
  accept_new db row =
      check_request db row >> freeze_delta db (w.clock 0) req.app req.delta_id >>= λ frozen.
      bind_permits frozen (w.clock 1) req.app req.env row.generation (w.hex 0) req.permits
      >>= record_accepted row

  abbrev pub accept_or : Db → Option Acceptance → Result StoreError (Db × Acceptance)
  accept_or db (some a) = ok (db, a)
  accept_or db none = ok_or (find_env db req.app req.env) (no_env req.app req.env) >>= accept_new db

  unfoldable pub accept_in_tx : Db → Result StoreError (Db × Acceptance)
  unfolding accept_new replay
  accept_in_tx db =
      replay db req.app req.env req.actor req.idempotency_key req.fingerprint >>= accept_or db

  -- On a failure the transaction is rolled back: the result has no database then.
  unfoldable pub accept_deployment : Db → Result StoreError (Db × Acceptance)
  unfolding accept_in_tx
  accept_deployment db = check_org db req.org >> accept_in_tx db

-- ===== src/Deploy/Examples.antt =====
-- The permit of the shop is bound by the acceptance of a deployment, used by it, and refused to another.
use openporch.Prelude.{Str, bytes, none, some, [], ◌∷◌, ◌≡◌, refl}
use openporch.Prelude.Sort.{sort}
use openporch.Prelude.Order.{str_ord}
use openporch.Prelude.Result.{Result, ok, err}
use openporch.BTreeMap.{get, insert}
use openporch.Identity.Tables.{approval_required, StoreError, roles_in}
use openporch.Identity.Authority.{check_env_authority, check_admin_authority}
use openporch.Store.Audit.{insert_entry, entry_of}
use openporch.Store.Rows.{Db, PermitRow, find_env, find_permit, update_permit, check_org}
use openporch.Permits.Types.{PermitUse, UsedPermit}
use openporch.Permits.Checks.{env_type, issuer_lost, check_protection, is_protected}
use openporch.Permits.Bind.{Bound, bind_permits, bind_row, audit_bound}
use openporch.Permits.BindOutcome.{CanBind, Binds, bind_permits-succeeds_iff, bind_permits-Binds}
use openporch.Permits.Consume.{consume_permit, use_row, used_permit}
use openporch.Permits.ConsumeOutcome.{Covers}
use openporch.Permits.ConsumeLaws.{consume_permit-succeeds_iff}
use openporch.Deploy.Types.{
  DeploymentRecord, Acceptance, created, replayed, into_record, kind_as_str,
}
use openporch.Deploy.Guards.{freeze_delta}
use openporch.Deploy.Accept.{accept_deployment, accept_in_tx}
use openporch.Deploy.Laws.{created_record}
use openporch.Deploy.Accepted.{Accepted, accept_created}
use openporch.Permits.UsePermit.{use_permit}
use openporch.Permits.Used.{Consumed, consume_permit-Consumed}
use openporch.Permits.UseOutcome.{UseOutcome, use_permit_outcome}
use openporch.Deploy.Permits.{PermitStep, PermitSteps, steps-KeepsAll}
use openporch.Permits.Life.{Keeps}
use openporch.Deploy.Retry.{accept_again, accept_while_running}
use openporch.Deploy.Fixture.{
  text_json, world, later, cache, prm, dev_env, permit, shop_db, binding, request, deployment,
}

-- The binding of the one permit.
abbrev bound_permits : Bound
bound_permits = record {
  db = record shop_db { permits = (prm, bind_row deployment 1000 permit) ∷ [] };
  covered = (cache, bytes "delete") ∷ [];
  bound = record { descriptor = cache; action = bytes "delete"; issued_entry = none } ∷ [];
}

bind_permits-Binds_example :
    (can : CanBind shop_db 1000 (bytes "shop") (bytes "dev") 3 deployment binding) × Binds shop_db
      1000
      (bytes "shop")
      (bytes "dev")
      3
      deployment
      binding
      can.rows
      bound_permits
unfolding bind_permits env_type find_env find_permit get issuer_lost check_env_authority roles_in
    check_protection is_protected check_admin_authority update_permit insert
bind_permits-Binds_example =
    bind_permits-Binds shop_db 1000 (bytes "shop") (bytes "dev") 3 deployment binding bound_permits
      refl

bind_permits-succeeds_iff_example :
    CanBind shop_db 1000 (bytes "shop") (bytes "dev") 3 deployment binding
unfolding bind_permits env_type find_env find_permit get issuer_lost check_env_authority roles_in
    check_protection is_protected check_admin_authority update_permit insert
bind_permits-succeeds_iff_example =
    (bind_permits-succeeds_iff shop_db 1000 (bytes "shop") (bytes "dev") 3 deployment binding).0
      (bound_permits, refl)

abbrev deletion : PermitUse
deletion = record {
  org = bytes "acme";
  app = bytes "shop";
  env = bytes "dev";
  deployment = some deployment;
  presented = [];
  descriptor = cache;
  guresid = some (bytes "g1");
  action = bytes "delete";
  fingerprint = none;
}

abbrev used : UsedPermit
used = used_permit (bind_row deployment 1000 permit)

abbrev used_db : Db
used_db = record shop_db { permits = (prm, use_row 1500 (bind_row deployment 1000 permit)) ∷ [] }

consume_permit-succeeds_iff_example :
    (id : Str) × (p : PermitRow) × Covers bound_permits.db deletion (bytes "test") 3 1500 id p
unfolding consume_permit find_env env_type issuer_lost check_env_authority roles_in get
    check_protection is_protected check_admin_authority update_permit insert
consume_permit-succeeds_iff_example =
    (consume_permit-succeeds_iff bound_permits.db 1500 deletion dev_env (tt, tt) refl (λ e. cc)).0
      ((used_db, used), refl)

consume_permit-Consumed_example :
    Consumed bound_permits.db deletion (bytes "test") 3 1500 used_db used
unfolding consume_permit find_env env_type issuer_lost check_env_authority roles_in get
    check_protection is_protected check_admin_authority update_permit insert
consume_permit-Consumed_example =
    consume_permit-Consumed bound_permits.db used_db 1500 deletion used dev_env (tt, tt) refl
      (λ e. cc) refl

use_permit_outcome_example :
    UseOutcome world deletion bound_permits.db
      (bytes "test")
      3
      (use_permit world deletion bound_permits.db)
unfolding find_env
use_permit_outcome_example =
    use_permit_outcome world deletion bound_permits.db dev_env (tt, tt) refl refl

abbrev db_of : Result StoreError (Db × Acceptance) → Db
db_of (ok r) = r.0
db_of (err e) = shop_db

abbrev run : Result StoreError (Db × Acceptance)
run = accept_in_tx text_json world request shop_db

run_eq : run ≡ ok (db_of run, created (created_record text_json world request shop_db))
unfolding accept_in_tx find_env check_env_authority roles_in get sort freeze_delta bind_permits
    env_type find_permit issuer_lost check_protection is_protected check_admin_authority
    update_permit insert_entry audit_bound entry_of insert into_record kind_as_str
run_eq = refl

accept_created_example :
    Accepted text_json world request shop_db
      (db_of run)
      (created_record text_json world request shop_db)
accept_created_example =
    accept_created text_json world request shop_db (db_of run)
      (created_record text_json world request shop_db) run_eq

accept_again_example :
    accept_in_tx text_json later request (db_of run)
    ≡ ok (db_of run, replayed (created_record text_json world request shop_db))
accept_again_example =
    accept_again text_json world request later (bytes "k1") shop_db (db_of run)
      (created_record text_json world request shop_db) refl run_eq

accept_while_running_example :
    (r : DeploymentRecord) × (replayed (created_record text_json world request shop_db)
      ≡ replayed r)
    × (db_of run ≡ db_of run)
accept_while_running_example =
    accept_while_running text_json world request later request shop_db (db_of run) (db_of run)
      (created_record text_json world request shop_db)
      (replayed (created_record text_json world request shop_db)) refl refl run_eq
      accept_again_example

accept_eq :
    accept_deployment text_json world request shop_db
    ≡ ok (db_of run, created (created_record text_json world request shop_db))
unfolding accept_deployment check_org
accept_eq = run_eq

abbrev deletion_in_run : PermitUse
deletion_in_run = record deletion { deployment = some (0 ∷ []) }

abbrev used_of : Result StoreError (Db × UsedPermit) → Db × UsedPermit
used_of (ok r) = r
used_of (err e) = (shop_db, used)

use_eq :
    consume_permit (db_of run) 1500 deletion_in_run
    ≡ ok (used_of (consume_permit (db_of run) 1500 deletion_in_run))
unfolding consume_permit accept_in_tx find_env check_env_authority roles_in get sort freeze_delta
    bind_permits env_type find_permit issuer_lost check_protection is_protected
    check_admin_authority update_permit insert_entry audit_bound entry_of insert into_record
    kind_as_str
use_eq = refl

-- The permit is bound by the acceptance, then used by the deployment.
steps-KeepsAll_example :
    (b : PermitRow) × (get prm (used_of (consume_permit (db_of run) 1500 deletion_in_run)).0.permits
      ≡ some b)
    × Keeps permit b
unfolding get
steps-KeepsAll_example =
    steps-KeepsAll text_json
      (PermitSteps.next
        (PermitStep.accepts world request (created (created_record text_json world request shop_db))
          accept_eq)
        (PermitSteps.next
          (PermitStep.uses 1500 deletion_in_run
            (used_of (consume_permit (db_of run) 1500 deletion_in_run)) use_eq)
          PermitSteps.done))
      prm permit refl

abbrev reason_of : Result StoreError (Db × UsedPermit) → Str
reason_of (err (approval_required e)) = e
reason_of r = []

-- The permit is not bound to the deployment, so its deletion of the cache is refused.
refusal_eq :
    consume_permit shop_db (world.clock 0) deletion
    ≡ err (approval_required (reason_of (consume_permit shop_db (world.clock 0) deletion)))
unfolding consume_permit env_type find_env
refusal_eq = refl

-- ===== src/Deploy/Accepted.antt =====
-- What an acceptance of a deployment (crates/store/src/sqlite.rs, `accept_in_tx`) means for its environment.
use openporch.Prelude.{
  Str, ℕ, ◌+◌, true, none, some, List, [], ◌∷◌, ◌≡◌, inl, inr, refl, sym, ◌∙◌, arith, find, is_nil,
  bytes, Option, ap,
}
use openporch.Prelude.Order.{str_ord, eq_refl}
use openporch.Prelude.Result.{ok, ok_inj}
use openporch.Store.World.{World}
use openporch.Store.Rows.{Db, EnvRow, DeploymentRow, find_env, is_env, map_option}
use openporch.Deploy.Types.{
  DeploymentRecord, DeploymentRequest, DeploymentKind, deploy, delete_env, created, replayed, Json,
  into_record,
}
use openporch.Deploy.Guards.{the_deployment, is_running, check_set, uncertain}
use openporch.Deploy.Accept.{check_request, accept_in_tx, move_env}
use openporch.Deploy.Created.{created_row, accept_in_tx-eq_ok}
use openporch.Deploy.Laws.{
  find-append, find-update_envs, check_free-eq_ok, check_request-free, the_created, created_record,
  into_record-created_row, is_env-move_env,
}

deploy-move_env :
    (db : Db) (app : Str) (kind : DeploymentKind) (set_id : Option Str) (generation : ℕ)
    (row : EnvRow)
    → check_set db kind app set_id ≡ ok tt
    → kind ≡ deploy
    → ((move_env kind set_id generation row).desired_set_id ≡ set_id)
      × ((move_env kind set_id generation row).state ≡ row.state)
unfolding check_set
deploy-move_env db app deploy none generation row h e = absurd (cc)
deploy-move_env db app deploy (some s) generation row h e = (refl, refl)
deploy-move_env db app delete_env set_id generation row h e = absurd (cc)

delete-move_env :
    (db : Db) (app : Str) (kind : DeploymentKind) (set_id : Option Str) (generation : ℕ)
    (row : EnvRow)
    → check_set db kind app set_id ≡ ok tt
    → kind ≡ delete_env
    → ((move_env kind set_id generation row).desired_set_id ≡ row.desired_set_id)
      × ((move_env kind set_id generation row).state ≡ bytes "deleting")
unfolding check_set
delete-move_env db app delete_env none generation row h e = (refl, refl)
delete-move_env db app delete_env (some s) generation row h e = absurd (cc)
delete-move_env db app deploy set_id generation row h e = absurd (cc)

module _ {ℓ} {Value : Type ℓ} (json : Json Value) (w : World) (req : DeploymentRequest Value) where
  -- What an acceptance of the new deployment `d` says of the database before and after it.
  pub record Accepted (db db' : Db) (d : DeploymentRecord) : Type 0 where
    pub row : EnvRow
    pub after : EnvRow
    pub running : DeploymentRow
    pub found : find_env db req.app req.env ≡ some row
    pub expected : row.generation ≡ req.expected_generation
    pub idle : find (is_running req.app req.env) db.deployments ≡ none
    pub certain : uncertain db req.app req.env ≡ []
    pub found_after : find_env db' req.app req.env ≡ some after
    pub generation : after.generation ≡ req.expected_generation + 1
    pub set_of_deploy :
        req.kind ≡ deploy → (after.desired_set_id ≡ req.set_id) × (after.state ≡ row.state)
    pub set_of_delete :
        req.kind ≡ delete_env
        → (after.desired_set_id ≡ row.desired_set_id) × (after.state ≡ bytes "deleting")
    pub runs : find (is_running req.app req.env) db'.deployments ≡ some running
    pub recorded : into_record running ≡ ok d
    pub as_asked : d ≡ created_record json w req db

  check_request-set :
      (db : Db) (row : EnvRow)
      → check_request json w req db row ≡ ok tt
      → check_set db req.kind req.app req.set_id ≡ ok tt
  unfolding check_request
  check_request-set db row h = ground (arith, h)

  -- An acceptance of a new deployment: the environment was at the generation that the request expects
  -- and had no running deployment and no uncertain resource; after it the environment is one
  -- generation on, wants the set that is deployed (or is being deleted), and its running deployment
  -- is the one that is returned, with the next number of the environment.
  pub accept_created :
      (db db' : Db) (d : DeploymentRecord)
      → accept_in_tx json w req db ≡ ok (db', created d)
      → Accepted db db' d
  unfolding find_env
  accept_created db db' d h = elim (accept_in_tx-eq_ok json w req db db' (created d) h) [
    | inl (r, q, e) ↦ absurd (let x : created d ≡ replayed r = q in cc)
    | inr (row, r, q, c) ↦
        let (gen, free, certain) =
          check_free-eq_ok db req.app req.env req.expected_generation row.generation
            (check_request-free json w req db row c.checked) in
        let set_ok = check_request-set db row c.checked in
        let same : d ≡ r = (let x : created d ≡ created r = q in cc) in
        let record_eq =
          sym (the_created json w req db row c.unique)
          ∙ ap (λ ds. the_deployment ds req.app req.env (w.hex 0)) (sym c.deployments)
          ∙ c.result in
        record {
          row = row;
          after = move_env req.kind req.set_id (row.generation + 1) row;
          running = created_row json w req db row;
          found = c.env_found;
          expected = gen;
          idle = free;
          certain = is_nil-eq_nil (uncertain db req.app req.env) certain;
          found_after =
              ap (find (is_env req.app req.env)) c.envs
              ∙ find-update_envs req.app req.env (move_env req.kind req.set_id (row.generation + 1))
                  db.envs (is_env-move_env json w req (row.generation + 1))
              ∙ ap (map_option (move_env req.kind req.set_id (row.generation + 1))) c.env_found;
          generation = ap (λ g. g + 1) gen;
          set_of_deploy =
              deploy-move_env db req.app req.kind req.set_id (row.generation + 1) row set_ok;
          set_of_delete =
              delete-move_env db req.app req.kind req.set_id (row.generation + 1) row set_ok;
          runs =
              ap (find (is_running req.app req.env)) c.deployments
              ∙ find-append (is_running req.app req.env) db.deployments
                  (created_row json w req db row) free
              ∙ rw (eq_refl req.app, eq_refl req.env);
          recorded = record_eq ∙ ap ok (sym same);
          as_asked = same ∙ ok_inj (sym record_eq ∙ into_record-created_row json w req db row gen);
        }
  ]
    where
      is_nil-eq_nil : (xs : List Str) → is_nil xs ≡ true → xs ≡ []
      is_nil-eq_nil [] h = refl
      is_nil-eq_nil (x ∷ xs) h = cc

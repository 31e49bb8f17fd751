-- ===== src/Deploy/Laws.antt =====
-- Acceptance of deployments (crates/store/src/sqlite.rs): generations, the one running deployment of an
-- environment, and retries.
use openporch.Prelude.{
  Str, ℕ, ◌+◌, Bool, true, false, ◌&&◌, ◌||◌, none, some, List, [], ◌∷◌, ◌++◌, if◌then◌else◌, ◌≡◌,
  refl, ◌∙◌, arith, any, find, is_nil,
}
use openporch.Prelude.Order.{◌==◌, str_ord, eq_refl}
use openporch.Prelude.Result.{Result, ok, err, ◌>>=◌}
use openporch.Identity.Tables.{StoreError}
use openporch.Store.World.{World}
use openporch.Store.Rows.{Db, EnvRow, DeploymentRow, is_env, ok_or, map_option}
use openporch.Deploy.Types.{
  DeploymentRecord, DeploymentRequest, DeploymentKind, deploy, delete_env, in_progress, Json,
  into_record, kind_as_str, kind_parse, status_parse,
}
use openporch.Deploy.Guards.{
  the_deployment, fetch_deployment, in_env, is_running, check_free, uncertain,
}
use openporch.Deploy.Accept.{max_seq, clashes, check_request, move_env, update_envs}
use openporch.Deploy.Created.{created_row}

pub find-append {ℓ} :
    {A : Type ℓ} (p : A → Bool) (xs : List A) (y : A)
    → find p xs ≡ none
    → find p (xs ++ y ∷ []) ≡ (if p y then some y else none)
find-append p [] y h = ground arith
find-append p (x ∷ xs) y h = ground (arith, find-append p xs y)

pub find-update_envs :
    (app env : Str) (f : EnvRow → EnvRow) (rows : List EnvRow)
    → ((row : EnvRow) → is_env app env (f row) ≡ is_env app env row)
    → find (is_env app env) (update_envs app env f rows) ≡ map_option f (find (is_env app env) rows)
find-update_envs app env f [] k = refl
find-update_envs app env f (row ∷ rows) k = ground (arith, k row, find-update_envs app env f rows k)

pub check_free-eq_ok :
    (db : Db) (app env : Str) (expected generation : ℕ)
    → check_free db app env expected generation ≡ ok tt
    → (generation ≡ expected)
      × (find (is_running app env) db.deployments ≡ none)
      × (is_nil (uncertain db app env) ≡ true)
unfolding check_free
check_free-eq_ok db app env expected generation h =
    (ground (arith, h), ground (arith, h), ground (arith, h))

or_false_left : (a b : Bool) → (a || b) ≡ false → a ≡ false
or_false_left true b h = cc
or_false_left false b h = refl

or_false_right : (a b : Bool) → (a || b) ≡ false → b ≡ false
or_false_right true b h = cc
or_false_right false b h = h

and_or_false : (a b c : Bool) → (a && (b || c)) ≡ false → (a && b) ≡ false
and_or_false true b c h = or_false_left b c h
and_or_false false b c h = refl

find-cons_false {ℓ} :
    {A : Type ℓ} (p : A → Bool) (x : A) (xs : List A)
    → p x ≡ false
    → find p xs ≡ none
    → find p (x ∷ xs) ≡ none
find-cons_false p x xs h k = ground (arith, h, k)

no_clash-find :
    (row : DeploymentRow) (ds : List DeploymentRow)
    → any (clashes row) ds ≡ false
    → find (λ d. in_env row.app_id row.env_id d && d.id == row.id) ds ≡ none
no_clash-find row [] h = refl
no_clash-find row (d ∷ ds) h =
    find-cons_false (λ d. in_env row.app_id row.env_id d && d.id == row.id) d ds
      (and_or_false (in_env row.app_id row.env_id d) (d.id == row.id) _
        (or_false_left (clashes row d) (any (clashes row) ds) h))
      (no_clash-find row ds (or_false_right (clashes row d) (any (clashes row) ds) h))

record_or_same :
    (m : Result StoreError DeploymentRecord) (e : StoreError)
    → ((m >>= λ d. ok (some d)) >>= λ d. ok_or d e) ≡ m
record_or_same (ok d) e = refl
record_or_same (err x) e = refl

kind_parse-as_str : (k : DeploymentKind) → kind_parse (kind_as_str k) ≡ ok k
unfolding kind_parse kind_as_str
kind_parse-as_str deploy = refl
kind_parse-as_str delete_env = refl

module _ {ℓ} {Value : Type ℓ} (json : Json Value) (w : World) (req : DeploymentRequest Value) where
  pub check_request-free :
      (db : Db) (row : EnvRow)
      → check_request json w req db row ≡ ok tt
      → check_free db req.app req.env req.expected_generation row.generation ≡ ok tt
  unfolding check_request
  check_request-free db row h = ground (arith, h)

  pub the_created :
      (db : Db) (row : EnvRow)
      → any (clashes (created_row json w req db row)) db.deployments ≡ false
      → the_deployment
          (db.deployments ++ created_row json w req db row ∷ [])
          req.app
          req.env
          (w.hex 0)
        ≡ into_record (created_row json w req db row)
  unfolding the_deployment fetch_deployment
  the_created db row h =
      let new = created_row json w req db row in
      let found : find (λ d. in_env req.app req.env d && d.id == w.hex 0)
            (db.deployments ++ new ∷ [])
          ≡ some new =
        find-append (λ d. in_env req.app req.env d && d.id == w.hex 0) db.deployments new
          (no_clash-find new db.deployments h)
        ∙ rw (eq_refl req.app, eq_refl req.env, eq_refl (w.hex 0)) in
      rw found (record_or_same (into_record new) _)

  -- The record of the deployment that an acceptance creates.
  abbrev pub created_record : Db → DeploymentRecord
  created_record db = record {
    id = w.hex 0;
    app = req.app;
    env = req.env;
    seq = max_seq req.app req.env db.deployments + 1;
    kind = req.kind;
    actor = req.actor;
    set_id = req.set_id;
    delta_id = req.delta_id;
    comment = req.comment;
    generation = req.expected_generation + 1;
    status = in_progress;
    error = none;
    created_at = w.clock 2;
    finished_at = none;
  }

  pub into_record-created_row :
      (db : Db) (row : EnvRow)
      → row.generation ≡ req.expected_generation
      → into_record (created_row json w req db row) ≡ ok (created_record db)
  unfolding into_record status_parse
  into_record-created_row db row e = rw (kind_parse-as_str req.kind, e)

  pub is_env-move_env :
      (generation : ℕ) (row : EnvRow)
      → is_env req.app req.env (move_env req.kind req.set_id generation row)
        ≡ is_env req.app req.env row
  is_env-move_env generation row = refl

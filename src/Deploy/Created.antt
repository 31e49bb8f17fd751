-- ===== src/Deploy/Created.antt =====
-- What an acceptance of a new deployment by `accept_in_tx` (crates/store/src/sqlite.rs) went through
-- and left.
use openporch.Prelude.{
  Str, ℕ, ◌+◌, false, Option, none, some, List, [], ◌∷◌, ◌++◌, ◌≡◌, ◌⊎◌, inl, inr, refl, sym, ap,
  ◌∙◌, subst, arith, any, map, find, suc,
}
use openporch.Prelude.Order.{str_ord}
use openporch.Prelude.Result.{ok, ◌>>=◌, ◌>>◌, >>=-ok, ok_inj}
use openporch.Identity.Tables.{StoreError}
use openporch.Store.Audit.{AuditIntent, insert_entry}
use openporch.Store.World.{World}
use openporch.Store.Rows.{Db, EnvRow, DeploymentRow, find_env, no_env, ok_or}
use openporch.Permits.Types.{BoundPermit}
use openporch.Permits.Bind.{Bound, bind_permits, audit_bound}
use openporch.Permits.BindOutcome.{bind_permits-Binds}
use openporch.Deploy.Types.{
  DeploymentRecord, DeploymentRequest, Acceptance, created, replayed, Json,
}
use openporch.Deploy.Guards.{freeze_delta, freeze, replay, prior_of, the_deployment, is_prior}
use openporch.Deploy.Accept.{
  max_seq, insert_deployment, clashes, new_row, accept_intent, check_request, record_accepted,
  accept_new, accept_or, accept_in_tx, move_env, update_envs,
}

ok_or-eq_ok {ℓ} :
    {A : Type ℓ} (o : Option A) (e : StoreError) (a : A) → ok_or o e ≡ ok a → o ≡ some a
ok_or-eq_ok none e a h = absurd (cc)
ok_or-eq_ok (some b) e a h = cc

insert_deployment-eq_ok :
    (db db' : Db) (row : DeploymentRow)
    → insert_deployment db row ≡ ok db'
    → (any (clashes row) db.deployments ≡ false)
      × (db' ≡ record db { deployments = db.deployments ++ row ∷ [] })
unfolding insert_deployment
insert_deployment-eq_ok db db' row h = (ground (arith, h), ground (arith, h))

-- The audit entries of the permits change the log alone.
audit_bound-eq_ok :
    (w : World) (n m : ℕ) (base : AuditIntent) (app env deployment : Str)
    (permits : List BoundPermit) (db db' : Db)
    → audit_bound w n m base app env deployment permits db ≡ ok db'
    → db' ≡ record db { audit_log = db'.audit_log }
unfolding audit_bound
audit_bound-eq_ok w n m base app env deployment [] db db' h =
    subst (λ x. x ≡ record db { audit_log = x.audit_log }) (let e : db ≡ db' = cc in e) refl
audit_bound-eq_ok w n m base app env deployment (p ∷ ps) db db' h =
    let (log, e, k) =
      >>=-ok (insert_entry db.audit_log (w.hex n) (w.clock m) _ (some deployment) p.issued_entry)
        h in
    audit_bound-eq_ok w (suc n) (suc m) base app env deployment ps (record db { audit_log = log })
      db' k

pub freeze_delta-frame :
    (db frozen : Db) (now : ℕ) (app : Str) (delta : Option Str)
    → freeze_delta db now app delta ≡ ok frozen
    → frozen ≡ record db { deltas = frozen.deltas }
unfolding freeze_delta
freeze_delta-frame db frozen now app none h =
    subst (λ x. x ≡ record db { deltas = x.deltas }) (let e : db ≡ frozen = cc in e) refl
freeze_delta-frame db frozen now app (some delta) h =
    subst (λ x. x ≡ record db { deltas = x.deltas })
      (let e : record db { deltas = map (freeze app delta now) db.deltas } ≡ frozen =
          ground (arith, h) in
        e)
      refl

prior_of-replayed :
    (db : Db) (app env key fingerprint : Str) (o : Option DeploymentRow) (a : Acceptance)
    → prior_of db app env key fingerprint o ≡ ok (some a)
    → (d : DeploymentRecord) × (a ≡ replayed d)
prior_of-replayed db app env key fingerprint none a h = absurd (cc)
prior_of-replayed db app env key fingerprint (some row) a h =
    let k : (the_deployment db.deployments app env row.id >>= λ r. ok (some (replayed r)))
        ≡ ok (some a) =
      ground (arith, h) in
    let (d, e, q) = >>=-ok (the_deployment db.deployments app env row.id) k in
    (d, (let p : a ≡ replayed d = cc in p))

replay-replayed :
    (db : Db) (app env actor : Str) (key : Option Str) (fingerprint : Str) (a : Acceptance)
    → replay db app env actor key fingerprint ≡ ok (some a)
    → (d : DeploymentRecord) × (a ≡ replayed d)
unfolding replay
replay-replayed db app env actor none fingerprint a h = absurd (cc)
replay-replayed db app env actor (some key) fingerprint a h =
    prior_of-replayed db app env key fingerprint (find (is_prior app env actor key) db.deployments)
      a h

module _ {ℓ} {Value : Type ℓ} (json : Json Value) (w : World) (req : DeploymentRequest Value) where
  abbrev pub created_row : Db → EnvRow → DeploymentRow
  created_row db row =
      new_row json w req (max_seq req.app req.env db.deployments + 1) (row.generation + 1)

  -- The acceptance of a new deployment `d` in the environment with the row `row`.
  pub record IsCreated (db db' : Db) (row : EnvRow) (d : DeploymentRecord) : Type ℓ where
    pub env_found : find_env db req.app req.env ≡ some row
    pub fresh : replay db req.app req.env req.actor req.idempotency_key req.fingerprint ≡ ok none
    pub checked : check_request json w req db row ≡ ok tt
    pub unique : any (clashes (created_row db row)) db.deployments ≡ false
    pub deployments : db'.deployments ≡ db.deployments ++ created_row db row ∷ []
    pub envs :
        db'.envs
        ≡ update_envs req.app req.env (move_env req.kind req.set_id (row.generation + 1)) db.envs
    pub result : the_deployment db'.deployments req.app req.env (w.hex 0) ≡ ok d
    pub permits :
        (frozen : Db) × (b : Bound) × (freeze_delta db (w.clock 0) req.app req.delta_id ≡ ok frozen)
        × (bind_permits frozen (w.clock 1) req.app req.env row.generation (w.hex 0) req.permits
            ≡ ok b)
        × (db'.permits ≡ b.db.permits)

  record_accepted-eq_ok :
      (row : EnvRow) (b : Bound) (db' : Db) (a : Acceptance)
      → record_accepted json w req row b ≡ ok (db', a)
      → (d : DeploymentRecord) × (a ≡ created d)
        × (any (clashes (created_row b.db row)) b.db.deployments ≡ false)
        × (db'.deployments ≡ b.db.deployments ++ created_row b.db row ∷ [])
        × (db'.envs
            ≡ update_envs req.app req.env
                (move_env req.kind req.set_id (row.generation + 1))
                b.db.envs)
        × (the_deployment db'.deployments req.app req.env (w.hex 0) ≡ ok d)
        × (db'.permits ≡ b.db.permits)
  unfolding record_accepted
  record_accepted-eq_ok row b db' a h =
      let (db1, e1, h1) = >>=-ok (insert_deployment b.db (created_row b.db row)) h in
      let (u, f) = insert_deployment-eq_ok b.db db1 (created_row b.db row) e1 in
      let (log, e2, h2) =
        >>=-ok
          (insert_entry db1.audit_log (w.hex 1) (w.clock 3) (accept_intent json w req)
            (some (w.hex 0)) none)
          h1 in
      let moved = record db1 {
        envs =
            update_envs req.app req.env (move_env req.kind req.set_id (row.generation + 1))
              db1.envs;
        audit_log = log;
      } in
      let (done, e3, h3) =
        >>=-ok
          (audit_bound w 2 4 (accept_intent json w req) req.app req.env (w.hex 0) b.bound moved)
          h2 in
      let (d, e4, h4) = >>=-ok (the_deployment done.deployments req.app req.env (w.hex 0)) h3 in
      let p : done ≡ db' = ap (λ x. x.0) (ok_inj h4) in
      let q : created d ≡ a = ap (λ x. x.1) (ok_inj h4) in
      let frame =
        audit_bound-eq_ok w 2 4 (accept_intent json w req) req.app req.env (w.hex 0) b.bound moved
          done e3 in
      (
        d,
        sym q,
        u,
        ap (λ x. x.deployments) (sym p) ∙ ap (λ x. x.deployments) frame ∙ ap (λ x. x.deployments) f,
        ap (λ x. x.envs) (sym p)
            ∙ ap (λ x. x.envs) frame
            ∙ ap
                (λ x.
                  update_envs req.app req.env (move_env req.kind req.set_id (row.generation + 1))
                    x.envs)
                f,
        subst (λ x. the_deployment x.deployments req.app req.env (w.hex 0) ≡ ok d) p e4,
        ap (λ x. x.permits) (sym p) ∙ ap (λ x. x.permits) frame ∙ ap (λ x. x.permits) f,
      )

  accept_new-eq_ok :
      (db : Db) (row : EnvRow) (db' : Db) (a : Acceptance)
      → find_env db req.app req.env ≡ some row
      → replay db req.app req.env req.actor req.idempotency_key req.fingerprint ≡ ok none
      → accept_new json w req db row ≡ ok (db', a)
      → (d : DeploymentRecord) × (a ≡ created d) × IsCreated db db' row d
  unfolding accept_new
  accept_new-eq_ok db row db' a f r h =
      let (frozen, e1, h1) =
        >>=-ok (check_request json w req db row >> freeze_delta db (w.clock 0) req.app req.delta_id)
          h in
      let (u, c, e0) = >>=-ok (check_request json w req db row) e1 in
      let (b, e2, h2) =
        >>=-ok
          (bind_permits frozen (w.clock 1) req.app req.env row.generation (w.hex 0) req.permits)
          h1 in
      let (d, q, clash, deps, envs, res, perms) = record_accepted-eq_ok row b db' a h2 in
      let same = freeze_delta-frame db frozen (w.clock 0) req.app req.delta_id e0 in
      let (can, eff) =
        bind_permits-Binds frozen (w.clock 1) req.app req.env row.generation (w.hex 0) req.permits b
          e2 in
      let same_deps : b.db.deployments ≡ db.deployments =
        ap (λ x. x.deployments) eff.others ∙ ap (λ x. x.deployments) same in
      let same_envs : b.db.envs ≡ db.envs = ap (λ x. x.envs) eff.others ∙ ap (λ x. x.envs) same in
      (
        d,
        q,
        record {
          env_found = f;
          fresh = r;
          checked = c;
          unique =
              subst
                (λ ds.
                  any
                    (clashes
                      (new_row json w req (max_seq req.app req.env ds + 1) (row.generation + 1)))
                    ds
                  ≡ false)
                same_deps clash;
          deployments =
              deps
              ∙ ap
                  (λ ds.
                    ds
                    ++ new_row json w req (max_seq req.app req.env ds + 1) (row.generation + 1)
                      ∷ [])
                  same_deps;
          envs =
              envs
              ∙ ap (update_envs req.app req.env (move_env req.kind req.set_id (row.generation + 1)))
                  same_envs;
          result = res;
          permits = (frozen, b, e0, e2, perms);
        },
      )

  -- A successful acceptance is the replay of an earlier one, which changes nothing, or the creation of
  -- a new deployment.
  pub accept_in_tx-eq_ok :
      (db db' : Db) (a : Acceptance)
      → accept_in_tx json w req db ≡ ok (db', a)
      → ((d : DeploymentRecord) × (a ≡ replayed d) × (db' ≡ db))
        ⊎ ((row : EnvRow) × (d : DeploymentRecord) × (a ≡ created d) × IsCreated db db' row d)
  unfolding accept_in_tx
  accept_in_tx-eq_ok db db' a h =
      let (o, e, k) =
        >>=-ok (replay db req.app req.env req.actor req.idempotency_key req.fingerprint) h in
      by_replay o e k
    where
      by_replay :
          (o : Option Acceptance)
          → replay db req.app req.env req.actor req.idempotency_key req.fingerprint ≡ ok o
          → accept_or json w req db o ≡ ok (db', a)
          → ((d : DeploymentRecord) × (a ≡ replayed d) × (db' ≡ db))
            ⊎ ((row : EnvRow) × (d : DeploymentRecord) × (a ≡ created d) × IsCreated db db' row d)
      by_replay (some b) e k =
          let (d, q) =
            replay-replayed db req.app req.env req.actor req.idempotency_key req.fingerprint b e in
          inl (d, sym (ap (λ x. x.1) (ok_inj k)) ∙ q, sym (ap (λ x. x.0) (ok_inj k)))
      by_replay none e k =
          let (row, f, k1) =
            >>=-ok (ok_or (find_env db req.app req.env) (no_env req.app req.env)) k in
          let (d, q, c) =
            accept_new-eq_ok db row db' a
              (ok_or-eq_ok (find_env db req.app req.env) (no_env req.app req.env) row f) e k1 in
          inr (row, d, q, c)

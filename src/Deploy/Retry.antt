-- ===== src/Deploy/Retry.antt =====
-- Requests after an acceptance (crates/store/src/sqlite.rs, `accept_in_tx`): the same request again, and
-- another one while the deployment runs.
use openporch.Prelude.{
  Str, true, Option, none, some, ◌≡◌, inl, inr, refl, sym, ap, ◌∙◌, arith, find,
}
use openporch.Prelude.Order.{str_ord, eq_refl}
use openporch.Prelude.Result.{ok, ◌>>=◌, >>=-ok, ok_inj}
use openporch.Store.World.{World}
use openporch.Store.Rows.{Db, EnvRow, DeploymentRow}
use openporch.Permits.Consume.{opt_str_beq}
use openporch.Deploy.Types.{
  DeploymentRecord, DeploymentRequest, Acceptance, created, replayed, Json,
}
use openporch.Deploy.Guards.{replay, prior_of, the_deployment, is_prior, is_running}
use openporch.Deploy.Accept.{accept_in_tx, accept_or}
use openporch.Deploy.Created.{IsCreated, created_row, accept_in_tx-eq_ok}
use openporch.Deploy.Laws.{find-append}
use openporch.Deploy.Accepted.{accept_created}

prior_of-eq_none :
    (db : Db) (app env key fingerprint : Str) (o : Option DeploymentRow)
    → prior_of db app env key fingerprint o ≡ ok none
    → o ≡ none
prior_of-eq_none db app env key fingerprint none h = refl
prior_of-eq_none db app env key fingerprint (some row) h =
    let k : (the_deployment db.deployments app env row.id >>= λ r. ok (some (replayed r)))
        ≡ ok none =
      ground (arith, h) in
    let (d, e, q) = >>=-ok (the_deployment db.deployments app env row.id) k in
    absurd (let x : some (replayed d) ≡ none = ok_inj q in cc)

opt_str_beq_refl : (s : Str) → opt_str_beq (some s) (some s) ≡ true
opt_str_beq_refl s = eq_refl s

prior_of-of_match :
    (db : Db) (app env key fingerprint : Str) (row : DeploymentRow) (d : DeploymentRecord)
    → row.request_fingerprint ≡ some fingerprint
    → the_deployment db.deployments app env row.id ≡ ok d
    → prior_of db app env key fingerprint (some row) ≡ ok (some (replayed d))
prior_of-of_match db app env key fingerprint row d f h = rw (f, eq_refl fingerprint, h)

module _ {ℓ} {Value : Type ℓ} (json : Json Value) (w : World) (req : DeploymentRequest Value) where
  replay-after :
      (key : Str) (db db' : Db) (row : EnvRow) (d : DeploymentRecord)
      → req.idempotency_key ≡ some key
      → IsCreated json w req db db' row d
      → replay db' req.app req.env req.actor (some key) req.fingerprint ≡ ok (some (replayed d))
  unfolding replay
  replay-after key db db' row d e c =
      let new = created_row json w req db row in
      let before : find (is_prior req.app req.env req.actor key) db.deployments ≡ none =
        prior_of-eq_none db req.app req.env key req.fingerprint _
          (sym (ap (λ k. replay db req.app req.env req.actor k req.fingerprint) e) ∙ c.fresh) in
      let found : find (is_prior req.app req.env req.actor key) db'.deployments ≡ some new =
        ap (find (is_prior req.app req.env req.actor key)) c.deployments
        ∙ find-append (is_prior req.app req.env req.actor key) db.deployments new before
        ∙ rw (e, eq_refl req.app, eq_refl req.env, eq_refl req.actor, eq_refl key) in
      ap (prior_of db' req.app req.env key req.fingerprint) found
      ∙ prior_of-of_match db' req.app req.env key req.fingerprint new d refl c.result

  -- A request that has an idempotency key and created a deployment, made again, gives this deployment
  -- and changes nothing, whatever the clock and the random numbers are by then.
  pub accept_again :
      (again : World) (key : Str) (db db' : Db) (d : DeploymentRecord)
      → req.idempotency_key ≡ some key
      → accept_in_tx json w req db ≡ ok (db', created d)
      → accept_in_tx json again req db' ≡ ok (db', replayed d)
  unfolding accept_in_tx
  accept_again again key db db' d e h = elim (accept_in_tx-eq_ok json w req db db' (created d) h) [
    | inl (r, q, f) ↦ absurd (let x : created d ≡ replayed r = q in cc)
    | inr (row, r, q, c) ↦
        let same : r ≡ d = (let x : created d ≡ created r = q in cc) in
        ap (λ m. m >>= accept_or json again req db')
          (ap (λ k. replay db' req.app req.env req.actor k req.fingerprint) e
            ∙ replay-after key db db' row r e c
            ∙ ap (λ x. ok (some (replayed x))) same)
  ]

  -- While the deployment that a request created runs, every other request for the environment that
  -- succeeds is the retry of an earlier one, and changes nothing: no second deployment is created.
  pub accept_while_running :
      (later : World) (other : DeploymentRequest Value) (db db' db'' : Db) (d : DeploymentRecord)
      (a : Acceptance)
      → other.app ≡ req.app
      → other.env ≡ req.env
      → accept_in_tx json w req db ≡ ok (db', created d)
      → accept_in_tx json later other db' ≡ ok (db'', a)
      → (r : DeploymentRecord) × (a ≡ replayed r) × (db'' ≡ db')
  accept_while_running later other db db' db'' d a p q h k =
      elim (accept_in_tx-eq_ok json later other db' db'' a k) [
        | inl r ↦ r
        | inr (row, r, e, c) ↦
            let second : accept_in_tx json later other db' ≡ ok (db'', created r) =
              k ∙ ap (λ x. ok (db'', x)) e in
            let s = accept_created json later other db' db'' r second in
            let f = accept_created json w req db db' d h in
            absurd (
              let x : some f.running ≡ none =
                sym f.runs
                ∙ (λ i. find (is_running (sym p i) (sym q i)) db'.deployments)
                ∙ s.idle in
              cc)
      ]

-- ===== src/Deploy/Permits.antt =====
-- The life of a permit across the operations that write permits: their issue, the acceptance of a
-- deployment and their use (crates/store/src/sqlite_permits.rs, crates/store/src/sqlite.rs).
use openporch.Prelude.{
  Str, ℕ, Option, none, some, List, [], ◌∷◌, ◌≡◌, inl, inr, refl, sym, ap, ◌∙◌, subst, arith,
  Bool-cases, Memᴰ,
}
use openporch.Prelude.Order.{str_ord}
use openporch.Prelude.Result.{ok, ◌>>=◌, ◌>>◌, >>=-ok, ok_inj}
use openporch.Prelude.Distinct.{Memᴰ-cons_cases}
use openporch.BTreeMap.{BTreeMap, get, set_contains, collect_set}
use openporch.BTreeMap.Sets.{set_contains-collect_set}
use openporch.BTreeMap.Members.{set_contains_iff}
use openporch.Store.Audit.{AuditIntent, insert_entry}
use openporch.Store.World.{World}
use openporch.Store.Lookup.{permit_if-eq_some}
use openporch.Store.Rows.{Db, PermitRow, PlanRow, find_permit, check_org, ok_or, find_env}
use openporch.Identity.Tables.{not_found}
use openporch.Permits.Checks.{env_type}
use openporch.Permits.Types.{NewPermit, PermitRecord, PermitUse, UsedPermit, PermitBinding}
use openporch.Permits.Bind.{Bound, bind_permits, bind_row}
use openporch.Permits.Bindable.{IsBindable}
use openporch.Permits.BindLoop.{AllBindable}
use openporch.Permits.BindOutcome.{bind_permits-Binds}
use openporch.Permits.Consume.{consume_permit, consume_loop, candidates, use_row}
use openporch.Permits.ConsumeLoop.{consume_loop-eq_ok}
use openporch.Permits.Issue.{
  issue_permits, issue_or, issue_by, issue_checked, issue_loop, find_plan, generation_of,
  check_unexpired, issue_intent, permit_row, plan_text, check_plan, check_issuer,
}
use openporch.Permits.Life.{
  KeepsAll, Keeps-refl, Keeps-trans, Keeps-bind_row, Keeps-use_row, KeepsAll-update_permit,
  issue_loop-KeepsAll,
}
use openporch.Deploy.Types.{DeploymentRequest, Acceptance, Json}
use openporch.Deploy.Accept.{accept_deployment}
use openporch.Deploy.Created.{accept_in_tx-eq_ok, freeze_delta-frame}

AllBindable-Memᴰ :
    (app env ty : Str) (generation now : ℕ) (deployment : Str) (digests : BTreeMap Str Str)
    (db : Db) (j : Str)
    → (ids : List Str) (rows : List PermitRow)
    → AllBindable app env ty generation now deployment digests db ids rows
    → Memᴰ j ids
    → (row : PermitRow) × IsBindable db app env ty generation now digests j row
AllBindable-Memᴰ app env ty generation now deployment digests db j [] rows h m = elim m [ ]
AllBindable-Memᴰ app env ty generation now deployment digests db j (id ∷ ids) [] h m = absurd h
AllBindable-Memᴰ app env ty generation now deployment digests db j (id ∷ ids) (row ∷ rows) h m =
    elim (Memᴰ-cons_cases m) [
      | inl e ↦
          (row, subst (λ x. IsBindable db app env ty generation now digests x row) (sym e) h.0)
      | inr t ↦ AllBindable-Memᴰ app env ty generation now deployment digests db j ids rows h.1 t
    ]

free-of_bindable :
    (db : Db) (app env ty : Str) (generation now : ℕ) (digests : BTreeMap Str Str) (j : Str)
    (row a : PermitRow)
    → IsBindable db app env ty generation now digests j row
    → get j db.permits ≡ some a
    → a.bound_to ≡ none
unfolding find_permit
free-of_bindable db app env ty generation now digests j row a b h =
    let e : some a ≡ some row =
      sym h ∙ (permit_if-eq_some app env (get j db.permits) row b.found).0 in
    let q : a ≡ row = cc in ap (λ x. x.bound_to) q ∙ b.unbound

bind_permits-KeepsAll :
    (db : Db) (now : ℕ) (app env : Str) (generation : ℕ) (deployment : Str)
    (binding : PermitBinding) (b : Bound)
    → bind_permits db now app env generation deployment binding ≡ ok b
    → KeepsAll db.permits b.db.permits
bind_permits-KeepsAll db now app env generation deployment binding b h j a e =
    let (can, eff) = bind_permits-Binds db now app env generation deployment binding b h in
    elim (Bool-cases (set_contains j binding.presented)) [
      | inl p ↦
          let m =
            (set_contains_iff j (collect_set binding.presented [])).0
              (set_contains-collect_set j binding.presented [] ∙ rw p refl) in
          let (row, bindable) =
            AllBindable-Memᴰ app env can.ty generation now deployment binding.digests db j _
              can.rows can.bindable m in
          (
            bind_row deployment now a,
            eff.permits j ∙ rw (p, e),
            Keeps-bind_row deployment now a (
                free-of_bindable db app env can.ty generation now binding.digests j row a bindable
                  e),
          )
      | inr p ↦ (a, eff.permits j ∙ rw (p, e), Keeps-refl a)
    ]

consume_permit-KeepsAll :
    (db : Db) (now : ℕ) (u : PermitUse) (r : Db × UsedPermit)
    → consume_permit db now u ≡ ok r
    → KeepsAll db.permits r.0.permits
unfolding consume_permit
consume_permit-KeepsAll db now u r h =
    let chain : (env_type db u.app u.env >>= λ ty.
    generation_of (find_env db u.app u.env) >>= λ generation.
    consume_loop db u ty generation now (candidates db u u.deployment) [])
        ≡ ok r =
      ground (arith, h) in
    let (ty, e1, h1) = >>=-ok (env_type db u.app u.env) chain in
    let (generation, e2, h2) = >>=-ok (generation_of (find_env db u.app u.env)) h1 in
    let (c, m, f, q) =
      consume_loop-eq_ok db u ty generation now (candidates db u u.deployment) [] r h2 in
    subst (λ x. KeepsAll db.permits x.0.permits) (sym q)
      (KeepsAll-update_permit c.0 (use_row now) db (Keeps-use_row now))

accept_deployment-KeepsAll {ℓ} :
    {Value : Type ℓ} (json : Json Value) (w : World) (req : DeploymentRequest Value) (db db' : Db)
    (a : Acceptance)
    → accept_deployment json w req db ≡ ok (db', a)
    → KeepsAll db.permits db'.permits
unfolding accept_deployment
accept_deployment-KeepsAll json w req db db' a h =
    let (u, e, k) = >>=-ok (check_org db req.org) h in
    elim (accept_in_tx-eq_ok json w req db db' a k) [
      | inl (d, p, q) ↦
          subst (λ x. KeepsAll db.permits x.permits) (sym q) (λ id r g. (r, g, Keeps-refl r))
      | inr (row, d, p, c) ↦
          let (frozen, b, f1, f2, f3) = c.permits in
          let same : frozen.permits ≡ db.permits =
            ap (λ x. x.permits)
              (freeze_delta-frame db frozen (w.clock 0) req.app req.delta_id f1) in
          subst (λ x. KeepsAll x db'.permits) same
            (subst (λ x. KeepsAll frozen.permits x) (sym f3)
              (bind_permits-KeepsAll frozen (w.clock 1) req.app req.env row.generation (w.hex 0)
                req.permits b f2))
    ]

issue_checked-KeepsAll :
    (w : World) (app env plan issuer : Str) (permits : List NewPermit) (audit : AuditIntent)
    (db : Db) (row : PlanRow)
    → (r : Db × List PermitRecord) → issue_checked w app env plan issuer permits audit db row ≡ ok r
    → KeepsAll db.permits r.0.permits
unfolding issue_checked
issue_checked-KeepsAll w app env plan issuer permits audit db row r h =
    let (log, e1, h1) =
      >>=-ok
        (insert_entry db.audit_log (w.hex 0) (w.clock 1) (issue_intent audit app env plan) none
          none)
        h in
    let (s, e2, h2) =
      >>=-ok
        (issue_loop w 1 (permit_row app env plan issuer row.base_generation (w.clock 0) (w.hex 0))
          permits db.permits [])
        h1 in
    subst (λ x. KeepsAll db.permits x.0.permits) (ok_inj h2)
      (issue_loop-KeepsAll w 1
        (permit_row app env plan issuer row.base_generation (w.clock 0) (w.hex 0)) permits
        db.permits [] s e2)

issue_by-KeepsAll :
    (w : World) (app env plan issuer : Str) (permits : List NewPermit) (audit : AuditIntent)
    (db : Db)
    → (r : Db × List PermitRecord) → issue_by w app env plan issuer permits audit db ≡ ok r
    → KeepsAll db.permits r.0.permits
unfolding issue_by
issue_by-KeepsAll w app env plan issuer permits audit db r h =
    let (row, e1, h1) = >>=-ok (ok_or (find_plan db app env plan) (not_found (plan_text plan))) h in
    let (generation, e2, h2) =
      >>=-ok (check_unexpired plan row (w.clock 0) >> generation_of (find_env db app env)) h1 in
    let (ty, e3, h3) = >>=-ok (check_plan plan row generation permits >> env_type db app env) h2 in
    let (u, e4, h4) = >>=-ok (check_issuer db app ty issuer permits) h3 in
    issue_checked-KeepsAll w app env plan issuer permits audit db row r h4

issue_permits-KeepsAll :
    (w : World) (org app env plan : Str) (permits : List NewPermit) (audit : AuditIntent) (db : Db)
    → (r : Db × List PermitRecord) → issue_permits w org app env plan permits audit db ≡ ok r
    → KeepsAll db.permits r.0.permits
unfolding issue_permits
issue_permits-KeepsAll w org app env plan permits audit db r h =
    let (u, e, k) = >>=-ok (check_org db org) h in by_actor audit.actor k
  where
    by_actor :
        (actor : Option Str)
        → issue_or w app env plan permits audit actor db ≡ ok r
        → KeepsAll db.permits r.0.permits
    by_actor none k = absurd (cc)
    by_actor (some issuer) k = issue_by-KeepsAll w app env plan issuer permits audit db r k

-- A successful operation that writes permits.
pub data PermitStep {ℓ} {Value : Type ℓ} (json : Json Value) : Db → Db → Type ℓ where
  issues :
      {db : Db} (w : World) (org app env plan : Str) (permits : List NewPermit)
      (audit : AuditIntent) (r : Db × List PermitRecord)
      → issue_permits w org app env plan permits audit db ≡ ok r
      → PermitStep json db r.0
  accepts :
      {db : Db} {db' : Db} (w : World) (req : DeploymentRequest Value) (a : Acceptance)
      → accept_deployment json w req db ≡ ok (db', a)
      → PermitStep json db db'
  uses :
      {db : Db} (now : ℕ) (u : PermitUse) (r : Db × UsedPermit)
      → consume_permit db now u ≡ ok r
      → PermitStep json db r.0

-- Any number of such operations, one after the other.
pub data PermitSteps {ℓ} {Value : Type ℓ} (json : Json Value) : Db → Db → Type ℓ where
  done : {db : Db} → PermitSteps json db db
  next : {a b c : Db} → PermitStep json a b → PermitSteps json b c → PermitSteps json a c

step-KeepsAll {ℓ} :
    {Value : Type ℓ} (json : Json Value) {db : Db} {db' : Db}
    → PermitStep json db db'
    → KeepsAll db.permits db'.permits
step-KeepsAll json (issues {db = db} w org app env plan permits audit r h) =
    issue_permits-KeepsAll w org app env plan permits audit db r h
step-KeepsAll json (accepts {db = db} {db' = db'} w req a h) =
    accept_deployment-KeepsAll json w req db db' a h
step-KeepsAll json (uses {db = db} now u r h) = consume_permit-KeepsAll db now u r h

-- However permits are issued, bound and used, a permit that is in the tables stays there for the same
-- action on the same resource, from the same plan and issuer and with the same end; once it is bound
-- to a deployment or a detach it is bound to that one for good, and its first use is kept.
pub steps-KeepsAll {ℓ} :
    {Value : Type ℓ} (json : Json Value) {db : Db} {db' : Db}
    → PermitSteps json db db'
    → KeepsAll db.permits db'.permits
steps-KeepsAll json done id a e = (a, e, Keeps-refl a)
steps-KeepsAll json (next s rest) id a e =
    let (b, f, u) = step-KeepsAll json s id a e in
    let (c, g, v) = steps-KeepsAll json rest id b f in (c, g, Keeps-trans u v)

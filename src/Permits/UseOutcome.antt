-- ===== src/Permits/UseOutcome.antt =====
-- `use_permit` (crates/store/src/sqlite_permits.rs): when a destructive action may run, what is left
-- of the permit, and what the audit log tells.
use openporch.Prelude.{
  Str, bytes, ℕ, true, false, none, some, List, [], ◌∷◌, ◌++◌, Option, any, ◌≡◌, ◌≢◌, ◌⊎◌, inl, inr,
  refl, ap, ◌∙◌, sym, subst, Bool-cases, Option-cases,
}
use openporch.Prelude.Order.{◌==◌, str_ord}
use openporch.Prelude.Result.{ok, err, Result-cases}
use openporch.BTreeMap.Sorted.{IsSorted}
use openporch.Identity.Tables.{StoreError, approval_required}
use openporch.Store.Audit.{AuditEntry, AuditOutcome, insert_entry, entry_of}
use openporch.Store.World.{World}
use openporch.Store.Rows.{Db, EnvRow, PermitRow, find_env, check_org}
use openporch.Permits.Types.{PermitUse, UsedPermit}
use openporch.Permits.Consume.{consume_permit}
use openporch.Permits.ConsumeOutcome.{Covers}
use openporch.Permits.ConsumeLaws.{consume_permit-succeeds_iff}
use openporch.Permits.Used.{IsUse, Consumed, consume_permit-Consumed}
use openporch.Permits.UseErrors.{use_answer-failed, error_kind, check_org-other}
use openporch.Permits.UsePermit.{
  Answer, acceptance, use_intent, use_entry, use_answer, use_in, checked_use, use_permit,
}

-- One more entry stands in the log, for the use of a permit by the deployment, and refers to the entry
-- `cause`.
pub record IsLogged (deployment outcome : Str) (cause : Option Str) (before after : List AuditEntry)
    : Type 0 where
  pub entry : AuditEntry
  pub log : after ≡ before ++ entry ∷ []
  pub action : entry.action ≡ bytes "permit.use"
  pub outcome_text : entry.outcome ≡ outcome
  pub operation : entry.operation_id ≡ some deployment
  pub correlates : entry.correlates ≡ cause

module _ (w : World) (u : PermitUse) (db : Db) (ty : Str) (generation : ℕ) where
  -- The action may run: a permit bound to the deployment covers it and is used; its first use, and
  -- no later one, is in the log.
  pub record Authorized (db' : Db) : Type 0 where
    pub deployment : Str
    pub by : u.deployment ≡ some deployment
    pub id : Str
    pub row : PermitRow
    pub covers : Covers db u ty generation (w.clock 0) id row
    pub permits : IsUse (w.clock 0) id row db.permits db'.permits
    pub others : db' ≡ record db { permits = db'.permits; audit_log = db'.audit_log }
    pub first_use :
        row.used_at ≡ none
        → IsLogged deployment (bytes "succeeded") row.issued_entry db.audit_log db'.audit_log
    pub later_use : row.used_at ≢ none → db'.audit_log ≡ db.audit_log

  -- The action is refused: no permit covers it, and the log gets the denial and nothing else changes.
  pub record Denied (db' : Db) : Type 0 where
    pub deployment : Str
    pub by : u.deployment ≡ some deployment
    pub uncovered : (id : Str) (row : PermitRow) → ¬ Covers db u ty generation (w.clock 0) id row
    pub logged :
        IsLogged deployment
          (bytes "denied")
          (acceptance w u deployment db).0
          db.audit_log
          db'.audit_log
    pub others : db' ≡ record db { audit_log = db'.audit_log }

  abbrev pub UseOutcome : Answer → Type 0
  UseOutcome (db', ok x) = Authorized db'
  UseOutcome (db', err e) =
      ((reasons : Str) × (e ≡ approval_required reasons) × Denied db')
      ⊎ (((reasons : Str) → e ≢ approval_required reasons) × (db' ≡ db))

with_log :
    (db done : Db) (log : List AuditEntry)
    → done ≡ record db { permits = done.permits }
    → record done { audit_log = log } ≡ record db { permits = done.permits; audit_log = log }
with_log db done log e = λ i. record (e i) { audit_log = log }

module _ (w : World) (u : PermitUse) (db : Db) (env : EnvRow) (sorted : IsSorted db.permits)
    (found : find_env db u.app u.env ≡ some env)
    (fresh : any (λ x. x.id == w.hex 0) db.audit_log ≡ false) where
  abbrev Outcome : Answer → Type 0
  Outcome = UseOutcome w u db env.env_type env.generation

  -- The row that a use or a denial appends to a log in which its ID is new.
  use_entry-logged :
      (deployment : Str) (d : Db) (outcome : AuditOutcome) (reason : Str) (correlates : Option Str)
      → d.audit_log ≡ db.audit_log
      → use_entry w u deployment d outcome reason correlates
        ≡ ok (
            d.audit_log
            ++ entry_of
                (w.hex 0)
                (w.clock 1)
                (use_intent u (acceptance w u deployment d).1 outcome reason)
                (some deployment)
                correlates
              ∷ [])
  unfolding insert_entry
  use_entry-logged deployment d outcome reason correlates e = rw (e, fresh) refl

  no_detach :
      (deployment : Str)
      → u.deployment ≡ some deployment
      → u.deployment ≡ none
      → u.action ≡ bytes "detach"
  no_detach deployment e n = absurd (let q : some deployment ≡ none = sym e ∙ n in cc)

  committed :
      (deployment : Str) (done : Db) (used : UsedPermit)
      → Consumed db u env.env_type env.generation (w.clock 0) done used
      → used.first ≡ true
      → use_answer w u deployment db (ok (done, used)) ≡ (
        record done {
          audit_log =
              db.audit_log
              ++ entry_of
                  (w.hex 0)
                  (w.clock 1)
                  (use_intent u (acceptance w u deployment done).1 AuditOutcome.succeeded u.action)
                  (some deployment)
                  used.issued_entry
                ∷ [];
        },
        ok tt,
      )
  unfolding use_answer
  committed deployment done used c f =
      let log = ap (λ x. x.audit_log) c.others in
      rw
        (
          use_answer,
          f,
          use_entry-logged deployment done AuditOutcome.succeeded u.action used.issued_entry log,
        )
        (rw log refl)

  used-Outcome :
      (deployment : Str)
      → u.deployment ≡ some deployment
      → (done : Db) (used : UsedPermit)
      → Consumed db u env.env_type env.generation (w.clock 0) done used
      → Outcome (use_answer w u deployment db (ok (done, used)))
  unfolding use_answer entry_of
  used-Outcome deployment e done used c = elim (Bool-cases used.first) [
    | inl f ↦ rw (committed deployment done used c f) record {
      deployment = deployment;
      by = e;
      id = c.id;
      row = c.row;
      covers = c.covers;
      permits = c.permits;
      others = with_log db done _ c.others;
      first_use = λ n. record {
        entry = _;
        log = refl;
        action = refl;
        outcome_text = refl;
        operation = refl;
        correlates = c.entry;
      };
      later_use = λ n. absurd (n (c.first.0 f));
    }
    | inr f ↦
        rw (use_answer, f)
          record {
            deployment = deployment;
            by = e;
            id = c.id;
            row = c.row;
            covers = c.covers;
            permits = c.permits;
            others = with_log db done done.audit_log c.others;
            first_use = λ n. absurd (let q = c.first.1 n in cc);
            later_use = λ n. ap (λ x. x.audit_log) c.others;
          }
  ]

  denied-Outcome :
      (deployment reasons : Str)
      → u.deployment ≡ some deployment
      → consume_permit db (w.clock 0) u ≡ err (approval_required reasons)
      → Outcome (use_answer w u deployment db (err (approval_required reasons)))
  unfolding use_answer entry_of
  denied-Outcome deployment reasons e h =
      rw
        (
          use_answer,
          use_entry-logged deployment db AuditOutcome.denied (bytes "approval_required")
              (acceptance w u deployment db).0 refl,
        )
        (inl (
          reasons,
          refl,
          record {
            deployment = deployment;
            by = e;
            uncovered = λ id row c.
                let (r, q) =
                  (consume_permit-succeeds_iff db (w.clock 0) u env sorted found
                      (no_detach deployment e)).1
                    (id, row, c) in
                absurd (cc (sym h ∙ q));
            logged = record {
              entry = _;
              log = refl;
              action = refl;
              outcome_text = refl;
              operation = refl;
              correlates = refl;
            };
            others = refl;
          },
        ))

  failed-Outcome :
      (deployment : Str) (x : StoreError)
      → u.deployment ≡ some deployment
      → consume_permit db (w.clock 0) u ≡ err x
      → ((reasons : Str) × (x ≡ approval_required reasons))
        ⊎ ((reasons : Str) → x ≢ approval_required reasons)
      → Outcome (use_answer w u deployment db (err x))
  failed-Outcome deployment x e h (inl (reasons, q)) =
      subst (λ y. Outcome (use_answer w u deployment db (err y))) (sym q)
        (denied-Outcome deployment reasons e (h ∙ ap err q))
  failed-Outcome deployment x e h (inr n) =
      subst Outcome (sym (use_answer-failed w u deployment db x n)) (inr (n, refl))

  use_in-Outcome : Outcome (use_in w u u.deployment db)
  use_in-Outcome = elim (Option-cases u.deployment) [
    | inl e ↦ rw e (inr ((λ r q. cc), refl))
    | inr (deployment, e) ↦ elim (Result-cases (consume_permit db (w.clock 0) u)) [
      | inr ((done, used), h) ↦
          subst (λ x. Outcome (use_in w u x db)) (sym e)
            (subst (λ x. Outcome (use_answer w u deployment db x)) (sym h)
              (used-Outcome deployment e done used (
                consume_permit-Consumed db done (w.clock 0) u used env sorted found
                  (no_detach deployment e) h)))
      | inl (x, h) ↦
          subst (λ x. Outcome (use_in w u x db)) (sym e)
            (subst (λ x. Outcome (use_answer w u deployment db x)) (sym h)
              (failed-Outcome deployment x e h (error_kind x)))
    ]
  ]

  -- `use_permit` on an environment that exists, with a new ID for its audit entry: the action may run
  -- only where a permit that is bound to the deployment covers it. Then the row of this permit is marked
  -- as used, the first use is recorded as succeeded with the entry that issued the permit, a later use
  -- is not recorded, and nothing else changes. Where it fails for want of a permit, no permit covers the
  -- action, and the denial is recorded for the deployment and nothing else changes; any other failure
  -- changes nothing.
  pub use_permit_outcome : UseOutcome w u db env.env_type env.generation (use_permit w u db)
  unfolding use_permit
  use_permit_outcome = elim (Result-cases (check_org db u.org)) [
    | inr (x, h) ↦ subst (λ x. Outcome (checked_use w u db x)) (sym h) use_in-Outcome
    | inl (x, h) ↦
        subst (λ x. Outcome (checked_use w u db x)) (sym h)
          (inr (check_org-other db u.org x h, refl))
  ]

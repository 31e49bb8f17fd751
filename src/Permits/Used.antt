-- ===== src/Permits/Used.antt =====
-- What `consume_permit` (crates/store/src/sqlite_permits.rs) writes and reports.
use openporch.Prelude.{
  Str, bytes, ℕ, true, false, not, none, some, Option, ◌≡◌, ◌≢◌, ◌↔◌, refl, ap, ◌∙◌, sym, subst,
  Bool-cases, inl, inr,
}
use openporch.Prelude.Order.{◌==◌, str_ord, eq_iff}
use openporch.Prelude.Result.{ok}
use openporch.BTreeMap.{BTreeMap, get}
use openporch.BTreeMap.Sorted.{IsSorted}
use openporch.BTreeMap.Laws.{is_some}
use openporch.Store.Rows.{Db, EnvRow, PermitRow, find_env, update_permit}
use openporch.Permits.Types.{PermitUse, UsedPermit}
use openporch.Permits.BindLoop.{get-update_permit}
use openporch.Permits.Consume.{consume_permit, use_row, coalesce}
use openporch.Permits.ConsumeOutcome.{Covers}
use openporch.Permits.ConsumeLaws.{consume_permit-eq_ok}

-- A column that is set where it was empty, and keeps its value where it was not.
pub record IsSetOnce {ℓ} {A : Type ℓ} (before : Option A) (value : A) (after : Option A)
    : Type ℓ where
  pub first : before ≡ none → after ≡ some value
  pub again : (a : A) → before ≡ some a → after ≡ some a

-- The permits `after` are `before` with the use of the permit `id`, whose row was `row`.
pub record IsUse (now : ℕ) (id : Str) (row : PermitRow) (before after : BTreeMap Str PermitRow)
    : Type 0 where
  pub used : PermitRow
  pub found : get id after ≡ some used
  pub others : (j : Str) → j ≢ id → get j after ≡ get j before
  pub used_at : IsSetOnce row.used_at now used.used_at
  pub bound_to : IsSetOnce row.bound_to (bytes "detach") used.bound_to
  pub bound_at : IsSetOnce row.bound_at now used.bound_at
  pub kept :
      used
      ≡ record row { used_at = used.used_at; bound_to = used.bound_to; bound_at = used.bound_at }

coalesce-IsSetOnce {ℓ} :
    {A : Type ℓ} (before : Option A) (value : A) → IsSetOnce before value (coalesce before value)
coalesce-IsSetOnce none value = record { first = λ e. refl; again = λ a e. cc }
coalesce-IsSetOnce (some b) value = record { first = λ e. cc; again = λ a e. e }

not_same : (j id : Str) → j ≢ id → (j == id) ≡ false
not_same j id n = elim (Bool-cases (j == id)) [ inl e ↦ absurd (n ((eq_iff j id).0 e)) | inr e ↦ e ]

update_permit-IsUse :
    (db : Db) (now : ℕ) (id : Str) (row : PermitRow)
    → get id db.permits ≡ some row
    → IsUse now id row db.permits (update_permit id (use_row now) db).permits
update_permit-IsUse db now id row h = record {
  used = use_row now row;
  found = get-update_permit id id (use_row now) db ∙ rw ((eq_iff id id).1 refl, h) refl;
  others = λ j n. get-update_permit id j (use_row now) db ∙ rw (not_same j id n) refl;
  used_at = coalesce-IsSetOnce row.used_at now;
  bound_to = coalesce-IsSetOnce row.bound_to (bytes "detach");
  bound_at = coalesce-IsSetOnce row.bound_at now;
  kept = refl;
}

update_permit-frame :
    (db : Db) (id : Str) (f : PermitRow → PermitRow)
    → update_permit id f db ≡ record db { permits = (update_permit id f db).permits }
unfolding update_permit
update_permit-frame db id f = refl

first_iff : (o : Option ℕ) → (not (is_some o) ≡ true) ↔ (o ≡ none)
first_iff none = (λ h. refl, λ e. refl)
first_iff (some t) = (λ h. cc, λ e. cc)

-- What a use of a permit that covers the action leaves in the database, and what it reports.
pub record Consumed (db : Db) (u : PermitUse) (ty : Str) (generation now : ℕ) (db' : Db)
    (used : UsedPermit) : Type 0 where
  pub id : Str
  pub row : PermitRow
  pub covers : Covers db u ty generation now id row
  pub permits : IsUse now id row db.permits db'.permits
  pub others : db' ≡ record db { permits = db'.permits }
  pub entry : used.issued_entry ≡ row.issued_entry
  pub first : (used.first ≡ true) ↔ (row.used_at ≡ none)

-- When `consume_permit` succeeds it used one permit that covers the action. In the row of this
-- permit the time of the use, the deployment that it is bound to (the mark of a detach) and the time
-- of the binding are set where they were empty, and nothing else is changed; no other permit and no
-- other table changes. It reports the audit entry that issued the permit, and that the use is the
-- first exactly where the row had no time of a use.
pub consume_permit-Consumed :
    (db db' : Db) (now : ℕ) (u : PermitUse) (used : UsedPermit) (row : EnvRow)
    → IsSorted db.permits
    → find_env db u.app u.env ≡ some row
    → (u.deployment ≡ none → u.action ≡ bytes "detach")
    → consume_permit db now u ≡ ok (db', used)
    → Consumed db u row.env_type row.generation now db' used
consume_permit-Consumed db db' now u used row s e g h =
    let (id, p, c, q, r) = consume_permit-eq_ok db db' now u used row s e g h in
    record {
      id = id;
      row = p;
      covers = c;
      permits =
          subst (λ x. IsUse now id p db.permits x.permits) (sym q)
            (update_permit-IsUse db now id p c.stored);
      others =
          subst (λ x. x ≡ record db { permits = x.permits }) (sym q)
            (update_permit-frame db id (use_row now));
      entry = ap (λ x. x.issued_entry) r;
      first = subst (λ x. (x.first ≡ true) ↔ (p.used_at ≡ none)) (sym r) (first_iff p.used_at);
    }

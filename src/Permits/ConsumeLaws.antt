-- ===== src/Permits/ConsumeLaws.antt =====
-- `consume_permit` (crates/store/src/sqlite_permits.rs): exactly when it authorizes an action, and with
-- which effect.
use openporch.Prelude.{
  Str, bytes, ℕ, true, false, not, ◌&&◌, none, some, [], ◌≡◌, ◌↔◌, ◌⊎◌, inl, inr, sym, ap, ◌∙◌,
  subst, arith, Option-cases, Memᴰ, Memᴰ-keep, Memᴰ-keep_of, and_left, and_right,
}
use openporch.Prelude.Order.{◌==◌, str_ord, eq_iff}
use openporch.Prelude.Result.{ok}
use openporch.BTreeMap.{get}
use openporch.BTreeMap.Sorted.{IsSorted}
use openporch.BTreeMap.Members.{get_of_mem, mem_of_get}
use openporch.BTreeMap.Laws.{is_some}
use openporch.Store.Rows.{Db, EnvRow, PermitRow, find_env, find_permit, update_permit}
use openporch.Permits.Types.{PermitUse, UsedPermit}
use openporch.Permits.Checks.{env_type}
use openporch.Permits.Consume.{
  Candidate, candidates, bound_here, for_action, opt_str_beq, refused, consume_loop, consume_permit,
  use_row, used_permit,
}
use openporch.Permits.ConsumeLoop.{
  presented_rows-Memᴰ, presented_rows-of, consume_loop-eq_ok, consume_loop-of,
}
use openporch.Permits.ConsumeOutcome.{
  Covers, opt_str_beq_iff, find_permit-eq_some, refused-of_Covers, Covers-of_row,
}

find_permit-of :
    (db : Db) (app env id : Str) (row : PermitRow)
    → get id db.permits ≡ some row
    → row.app_id ≡ app
    → row.env_id ≡ env
    → find_permit db app env id ≡ some row
unfolding find_permit
find_permit-of db app env id row h a e =
    rw h (ground (arith, (eq_iff row.app_id app).1 a, (eq_iff row.env_id env).1 e))

for_action-of :
    (u : PermitUse) (row : PermitRow)
    → row.descriptor ≡ u.descriptor
    → row.action ≡ u.action
    → for_action u row ≡ true
for_action-of u row d a =
    rw ((eq_iff row.descriptor u.descriptor).1 d, (eq_iff row.action u.action).1 a)

bound_here-of :
    (u : PermitUse) (d id : Str) (row : PermitRow)
    → row.app_id ≡ u.app
    → row.env_id ≡ u.env
    → row.bound_to ≡ some d
    → for_action u row ≡ true
    → bound_here u d (id, row) ≡ true
bound_here-of u d id row a e b f = ground (
  arith,
  f,
  (eq_iff row.app_id u.app).1 a,
  (eq_iff row.env_id u.env).1 e,
  (opt_str_beq_iff row.bound_to (some d)).1 b,
)

consume_permit-eq_loop :
    (db : Db) (now : ℕ) (u : PermitUse) (row : EnvRow)
    → find_env db u.app u.env ≡ some row
    → (u.deployment ≡ none → u.action ≡ bytes "detach")
    → consume_permit db now u
      ≡ consume_loop db u row.env_type row.generation now (candidates db u u.deployment) []
unfolding consume_permit env_type
consume_permit-eq_loop db now u row e g = ground (arith, e, guard_of (Option-cases u.deployment) g)
  where
    guard_of :
        (u.deployment ≡ none) ⊎ ((d : Str) × (u.deployment ≡ some d))
        → (u.deployment ≡ none → u.action ≡ bytes "detach")
        → (not (is_some u.deployment) && not (u.action == bytes "detach")) ≡ false
    guard_of (inl q) g = ground (arith, (eq_iff u.action (bytes "detach")).1 (g q))
    guard_of (inr (d, q)) g = rw q

module _ (db : Db) (u : PermitUse) (ty : Str) (generation now : ℕ) where
  Covers-of_bound :
      (d : Str) (c : Candidate)
      → u.deployment ≡ some d
      → IsSorted db.permits
      → Memᴰ c db.permits
      → bound_here u d c ≡ true
      → refused db u ty generation now c.0 c.1 ≡ ok none
      → Covers db u ty generation now c.0 c.1
  Covers-of_bound d c e s m b h =
      let scope = and_left (c.1.app_id == u.app && c.1.env_id == u.env) _ b in
      let rest = and_right (c.1.app_id == u.app && c.1.env_id == u.env) _ b in
      Covers-of_row db u ty generation now c.0 c.1 (get_of_mem c.0 c.1 db.permits s m)
        ((eq_iff c.1.app_id u.app).0 (and_left _ _ scope))
        ((eq_iff c.1.env_id u.env).0 (and_right (c.1.app_id == u.app) _ scope))
        (and_right (opt_str_beq c.1.bound_to (some d)) _ rest)
        (λ q. absurd (let p : none ≡ some d = sym q ∙ e in cc))
        (λ d' q.
          (opt_str_beq_iff c.1.bound_to (some d)).0 (and_left _ (for_action u c.1) rest)
          ∙ sym e
          ∙ q)
        h

  Covers-of_presented :
      (c : Candidate)
      → u.deployment ≡ none
      → Memᴰ c.0 u.presented
        × (find_permit db u.app u.env c.0 ≡ some c.1)
        × (for_action u c.1 ≡ true)
      → refused db u ty generation now c.0 c.1 ≡ ok none
      → Covers db u ty generation now c.0 c.1
  Covers-of_presented c e (m, f, a) h =
      let (st, app, env) = find_permit-eq_some db u ty generation now c.0 c.1 f in
      Covers-of_row db u ty generation now c.0 c.1 st app env a (λ q. m)
        (λ d q. absurd (let p : none ≡ some d = sym e ∙ q in cc)) h

  Covers-of_candidate :
      (c : Candidate)
      → IsSorted db.permits
      → Memᴰ c (candidates db u u.deployment)
      → refused db u ty generation now c.0 c.1 ≡ ok none
      → Covers db u ty generation now c.0 c.1
  unfolding candidates
  Covers-of_candidate c s m h = elim (Option-cases u.deployment) [
    | inl e ↦
        Covers-of_presented c e
          (presented_rows-Memᴰ db u u.presented c (subst (λ d. Memᴰ c (candidates db u d)) e m)) h
    | inr (d, e) ↦
        let (k, b) =
          Memᴰ-keep (bound_here u d) db.permits (subst (λ d. Memᴰ c (candidates db u d)) e m) in
        Covers-of_bound d c e s k b h
  ]

  candidate-of_Covers :
      (id : Str) (row : PermitRow)
      → Covers db u ty generation now id row
      → Memᴰ (id, row) (candidates db u u.deployment)
  unfolding candidates
  candidate-of_Covers id row c = elim (Option-cases u.deployment) [
    | inl e ↦
        subst (λ d. Memᴰ (id, row) (candidates db u d)) (sym e)
          (presented_rows-of db u (id, row)
            (find_permit-of db u.app u.env id row c.stored c.of_app c.of_env)
            (for_action-of u row c.of_resource c.of_action) (c.presented e))
    | inr (d, e) ↦
        subst (λ d. Memᴰ (id, row) (candidates db u d)) (sym e)
          (Memᴰ-keep_of (bound_here u d) (mem_of_get id row db.permits c.stored) (
            bound_here-of u d id row c.of_app c.of_env (c.binding.0 ∙ e)
              (for_action-of u row c.of_resource c.of_action)))
  ]

-- `consume_permit` on an environment that exists succeeds exactly where some permit covers the action:
-- for a deployment one that is bound to it, and for a detach one that is presented, not bound, not
-- expired and issued at the environment's generation; in both cases of the environment, for this
-- action on this resource, for this identity and driver plan where it names them, and of an issuer
-- who still holds the authority.
pub consume_permit-succeeds_iff :
    (db : Db) (now : ℕ) (u : PermitUse) (row : EnvRow)
    → IsSorted db.permits
    → find_env db u.app u.env ≡ some row
    → (u.deployment ≡ none → u.action ≡ bytes "detach")
    → ((r : Db × UsedPermit) × (consume_permit db now u ≡ ok r))
      ↔ ((id : Str) × (p : PermitRow) × Covers db u row.env_type row.generation now id p)
consume_permit-succeeds_iff db now u row s e g = (to, of)
  where
    to :
        (r : Db × UsedPermit) × (consume_permit db now u ≡ ok r)
        → (id : Str) × (p : PermitRow) × Covers db u row.env_type row.generation now id p
    to (r, h) =
        let (c, m, f, q) =
          consume_loop-eq_ok db u row.env_type row.generation now (candidates db u u.deployment) []
            r (sym (consume_permit-eq_loop db now u row e g) ∙ h) in
        (c.0, c.1, Covers-of_candidate db u row.env_type row.generation now c s m f)

    of :
        (id : Str) × (p : PermitRow) × Covers db u row.env_type row.generation now id p
        → (r : Db × UsedPermit) × (consume_permit db now u ≡ ok r)
    of (id, p, c) =
        let (r, h) =
          consume_loop-of db u row.env_type row.generation now (candidates db u u.deployment) []
            (id, p) (candidate-of_Covers db u row.env_type row.generation now id p c)
            (refused-of_Covers db u row.env_type row.generation now id p c) in
        (r, consume_permit-eq_loop db now u row e g ∙ h)

-- What `consume_permit` leaves when it succeeds: it used one permit that covers the action, wrote only
-- to the row of this permit, and tells whether this was its first use.
pub consume_permit-eq_ok :
    (db db' : Db) (now : ℕ) (u : PermitUse) (used : UsedPermit) (row : EnvRow)
    → IsSorted db.permits
    → find_env db u.app u.env ≡ some row
    → (u.deployment ≡ none → u.action ≡ bytes "detach")
    → consume_permit db now u ≡ ok (db', used)
    → (id : Str) × (p : PermitRow) × Covers db u row.env_type row.generation now id p
      × (db' ≡ update_permit id (use_row now) db)
      × (used ≡ used_permit p)
consume_permit-eq_ok db db' now u used row s e g h =
    let (c, m, f, q) =
      consume_loop-eq_ok db u row.env_type row.generation now (candidates db u u.deployment) []
        (db', used) (sym (consume_permit-eq_loop db now u row e g) ∙ h) in
    (
      c.0,
      c.1,
      Covers-of_candidate db u row.env_type row.generation now c s m f,
      ap (λ x. x.0) q,
      ap (λ x. x.1) q,
    )

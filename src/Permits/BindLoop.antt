-- ===== src/Permits/BindLoop.antt =====
-- The loop of `bind_permits` (crates/store/src/sqlite_permits.rs): what it leaves when it succeeds.
use openporch.Prelude.{
  Str, ℕ, Bool, true, false, Option, none, some, List, [], ◌∷◌, ◌++◌, if◌then◌else◌, ◌≡◌, inl, inr,
  refl, sym, ap, ◌∙◌, subst, arith, Option-cases,
}
use openporch.Prelude.Order.{◌==◌, str_ord, eq_iff}
use openporch.Prelude.Result.{ok, >>=-ok}
use openporch.BTreeMap.{BTreeMap, get}
use openporch.BTreeMap.Laws.{get-insert}
use openporch.Store.Lookup.{permit_if-eq_some}
use openporch.Store.Rows.{Db, PermitRow, find_permit, update_permit, permit_if, map_option}
use openporch.Permits.Bind.{
  Bound, bind_found, bind_one, bind_loop, bind_row, bound_permit, check_bind,
}
use openporch.Permits.Checks.{issuer_lost, check_protection, is_protected}
use openporch.Permits.Bindable.{IsBindable, IsBindable-of_check}

-- A statement that updates one permit changes what is found under its own ID alone.
pub get-update_permit :
    (id j : Str) (f : PermitRow → PermitRow) (db : Db)
    → get j (update_permit id f db).permits
      ≡ (if j == id then map_option f (get j db.permits) else get j db.permits)
unfolding update_permit
get-update_permit id j f db = elim (Option-cases (get id db.permits)) [
  | inl e ↦ ground (arith, e, eq_iff j id)
  | inr (r, e) ↦ ground (arith, e, eq_iff j id, get-insert id j (f r) db.permits)
]

find-of_update :
    (app env : Str) (same : Bool) (o : Option PermitRow) (f : PermitRow → PermitRow)
    (row : PermitRow)
    → ((r : PermitRow) → ¬ (f r ≡ row))
    → permit_if app env (if same then map_option f o else o) ≡ some row
    → permit_if app env o ≡ some row
find-of_update app env same none f row n h = ground (arith, h)
find-of_update app env false (some r) f row n h = h
find-of_update app env true (some r) f row n h =
    absurd
      (n r (let e : some (f r) ≡ some row = (permit_if-eq_some app env (some (f r)) row h).0 in cc))

find-update_permit :
    (app env id j deployment : Str) (now : ℕ) (db : Db) (row : PermitRow)
    → find_permit (update_permit id (bind_row deployment now) db) app env j ≡ some row
    → row.bound_to ≡ none
    → find_permit db app env j ≡ some row
unfolding find_permit
find-update_permit app env id j deployment now db row h u =
    find-of_update app env (j == id) (get j db.permits) (bind_row deployment now) row
      (λ r. λ e. absurd (let q : some deployment ≡ none = ap (λ x. x.bound_to) e ∙ u in cc))
      (subst (λ o. permit_if app env o ≡ some row)
        (get-update_permit id j (bind_row deployment now) db) h)

pub issuer_lost-update_permit :
    (db : Db) (app ty action issuer id : Str) (f : PermitRow → PermitRow)
    → issuer_lost (update_permit id f db) app ty action issuer ≡ issuer_lost db app ty action issuer
unfolding issuer_lost check_protection is_protected update_permit
issuer_lost-update_permit db app ty action issuer id f = refl

module _ (app env ty : Str) (generation now : ℕ) (deployment : Str)
    (digests : BTreeMap Str Str) where
  -- The rows of the permits `ids`, each bindable, in their order.
  abbrev pub AllBindable : Db → List Str → List PermitRow → Type 0
  AllBindable db [] [] = Unit
  AllBindable db (id ∷ ids) (row ∷ rows) =
      IsBindable db app env ty generation now digests id row × AllBindable db ids rows
  AllBindable db _ _ = ⊥

  IsBindable-of_update :
      (db : Db) (id j : Str) (row : PermitRow)
      → IsBindable
          (update_permit id (bind_row deployment now) db)
          app
          env
          ty
          generation
          now
          digests
          j
          row
      → IsBindable db app env ty generation now digests j row
  IsBindable-of_update db id j row b = record {
    found = find-update_permit app env id j deployment now db row b.found b.unbound;
    unbound = b.unbound;
    unexpired = b.unexpired;
    current = b.current;
    for_deployment = b.for_deployment;
    held =
        sym (
          issuer_lost-update_permit db app ty row.action row.issuer_id id (bind_row deployment now))
        ∙ b.held;
    as_previewed = b.as_previewed;
  }

  AllBindable-of_update :
      (db : Db) (id : Str) (ids : List Str) (rows : List PermitRow)
      → AllBindable (update_permit id (bind_row deployment now) db) ids rows
      → AllBindable db ids rows
  AllBindable-of_update db id [] [] h = tt
  AllBindable-of_update db id (j ∷ ids) (row ∷ rows) h =
      (IsBindable-of_update db id j row h.0, AllBindable-of_update db id ids rows h.1)
  AllBindable-of_update db id [] (row ∷ rows) h = h
  AllBindable-of_update db id (j ∷ ids) [] h = h

  abbrev pub after_one : Str → PermitRow → Bound → Bound
  after_one id row b = record {
    db = update_permit id (bind_row deployment now) b.db;
    covered = b.covered ++ (row.descriptor, row.action) ∷ [];
    bound = b.bound ++ bound_permit row ∷ [];
  }

  -- The variables once the permits `ids`, with the rows `rows`, are bound.
  abbrev pub after : List Str → List PermitRow → Bound → Bound
  after (id ∷ ids) (row ∷ rows) b = after ids rows (after_one id row b)
  after _ _ b = b

  bind_one-eq_ok :
      (id : Str) (b b' : Bound)
      → bind_one app env ty generation now deployment digests id b ≡ ok b'
      → (row : PermitRow) × IsBindable b.db app env ty generation now digests id row
        × (b' ≡ after_one id row b)
  unfolding bind_one bind_found
  bind_one-eq_ok id b b' h = elim (Option-cases (find_permit b.db app env id)) [
    | inl e ↦ absurd (ground (arith, e, h))
    | inr (row, e) ↦
        let k : check_bind b.db app ty generation now digests id row ≡ ok tt =
          ground (arith, e, h) in
        (
          row,
          IsBindable-of_check b.db app env ty generation now digests id row e k,
          ground (arith, e, h, k),
        )
  ]

  pub bind_loop-eq_ok :
      (ids : List Str) (b b' : Bound)
      → bind_loop app env ty generation now deployment digests ids b ≡ ok b'
      → (rows : List PermitRow) × AllBindable b.db ids rows × (b' ≡ after ids rows b)
  unfolding bind_loop
  bind_loop-eq_ok [] b b' h = ([], tt, ground (arith, h))
  bind_loop-eq_ok (id ∷ ids) b b' h =
      let (b1, e, k) = >>=-ok (bind_one app env ty generation now deployment digests id b) h in
      let (row, one, p) = bind_one-eq_ok id b b1 e in
      let (rows, all, q) = bind_loop-eq_ok ids b1 b' k in
      (
        row ∷ rows,
        (
          one,
          AllBindable-of_update b.db id ids rows (subst (λ x. AllBindable x.db ids rows) p all),
        ),
        q ∙ ap (after ids rows) p,
      )

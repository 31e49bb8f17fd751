-- ===== src/Permits/BindAll.antt =====
-- The loop of `bind_permits` (crates/store/src/sqlite_permits.rs) succeeds where every permit can be
-- bound, and what its statements leave in the tables.
use openporch.Prelude.{
  Str, ℕ, false, List, [], ◌∷◌, ◌++◌, if◌then◌else◌, ◌≡◌, inl, inr, refl, sym, ap, ◌∙◌, arith,
  Bool-cases, Option-cases, Memᴰ, map, append_nil, append_snoc,
}
use openporch.Prelude.Order.{◌==◌, str_ord, eq_iff}
use openporch.Prelude.Result.{ok, ◌>>=◌}
use openporch.Prelude.Distinct.{Distinct}
use openporch.BTreeMap.{BTreeMap, get, set_contains}
use openporch.Store.Rows.{Db, PermitRow, find_permit, update_permit, permit_if, map_option}
use openporch.Permits.Bind.{Bound, bind_found, bind_one, bind_loop, bind_row, bound_permit}
use openporch.Permits.Bindable.{IsBindable, check-of_IsBindable}
use openporch.Permits.BindLoop.{
  AllBindable, after, after_one, get-update_permit, issuer_lost-update_permit,
}

abbrev pub pair_of : PermitRow → Str × Str
pair_of row = (row.descriptor, row.action)

find_permit-update_other :
    (app env id j : Str) (f : PermitRow → PermitRow) (db : Db)
    → (j == id) ≡ false
    → find_permit (update_permit id f db) app env j ≡ find_permit db app env j
unfolding find_permit
find_permit-update_other app env id j f db e =
    ap (permit_if app env) (get-update_permit id j f db ∙ rw e)

module _ (app env ty : Str) (generation now : ℕ) (deployment : Str)
    (digests : BTreeMap Str Str) where
  IsBindable-to_update :
      (db : Db) (id j : Str) (row : PermitRow)
      → (j == id) ≡ false
      → IsBindable db app env ty generation now digests j row
      → IsBindable
          (update_permit id (bind_row deployment now) db)
          app
          env
          ty
          generation
          now
          digests
          j
          row
  IsBindable-to_update db id j row n b = record {
    found = find_permit-update_other app env id j (bind_row deployment now) db n ∙ b.found;
    unbound = b.unbound;
    unexpired = b.unexpired;
    current = b.current;
    for_deployment = b.for_deployment;
    held =
        issuer_lost-update_permit db app ty row.action row.issuer_id id (bind_row deployment now)
        ∙ b.held;
    as_previewed = b.as_previewed;
  }

  AllBindable-to_update :
      (db : Db) (id : Str) (ids : List Str) (rows : List PermitRow)
      → ¬ Memᴰ id ids
      → AllBindable app env ty generation now deployment digests db ids rows
      → AllBindable app env ty generation now deployment digests
          (update_permit id (bind_row deployment now) db)
          ids
          rows
  AllBindable-to_update db id [] [] n h = tt
  AllBindable-to_update db id (j ∷ ids) (row ∷ rows) n h = (
    IsBindable-to_update db id j row (not_eq j id (λ e. n (Memᴰ.head (sym e)))) h.0,
    AllBindable-to_update db id ids rows (λ m. n (Memᴰ.tail m)) h.1,
  )
    where
      not_eq : (j id : Str) → ¬ (j ≡ id) → (j == id) ≡ false
      not_eq j id n = elim (Bool-cases (j == id)) [
        | inl e ↦ absurd (n ((eq_iff j id).0 e))
        | inr e ↦ e
      ]
  AllBindable-to_update db id [] (row ∷ rows) n h = h
  AllBindable-to_update db id (j ∷ ids) [] n h = h

  bind_one-of_IsBindable :
      (id : Str) (row : PermitRow) (b : Bound)
      → IsBindable b.db app env ty generation now digests id row
      → bind_one app env ty generation now deployment digests id b
        ≡ ok (after_one app env ty generation now deployment digests id row b)
  unfolding bind_one bind_found
  bind_one-of_IsBindable id row b h =
      rw (h.found, check-of_IsBindable b.db app env ty generation now digests id row h)

  pub bind_loop-of_AllBindable :
      (ids : List Str) (rows : List PermitRow) (b : Bound)
      → Distinct ids
      → AllBindable app env ty generation now deployment digests b.db ids rows
      → bind_loop app env ty generation now deployment digests ids b
        ≡ ok (after app env ty generation now deployment digests ids rows b)
  unfolding bind_loop
  bind_loop-of_AllBindable [] [] b d h = refl
  bind_loop-of_AllBindable (id ∷ ids) (row ∷ rows) b d h =
      ap (λ m. m >>= bind_loop app env ty generation now deployment digests ids)
        (bind_one-of_IsBindable id row b h.0)
      ∙ bind_loop-of_AllBindable ids rows
          (after_one app env ty generation now deployment digests id row b) d.1
          (AllBindable-to_update b.db id ids rows d.0 h.1)
  bind_loop-of_AllBindable [] (row ∷ rows) b d h = absurd h
  bind_loop-of_AllBindable (id ∷ ids) [] b d h = absurd h

  pub after-covered :
      (db : Db) (ids : List Str) (rows : List PermitRow) (b : Bound)
      → AllBindable app env ty generation now deployment digests db ids rows
      → (after app env ty generation now deployment digests ids rows b).covered
        ≡ b.covered ++ map pair_of rows
  after-covered db [] [] b h = sym (append_nil b.covered)
  after-covered db (id ∷ ids) (row ∷ rows) b h =
      after-covered db ids rows (after_one app env ty generation now deployment digests id row b)
        h.1
      ∙ append_snoc b.covered (pair_of row) (map pair_of rows)
  after-covered db [] (row ∷ rows) b h = absurd h
  after-covered db (id ∷ ids) [] b h = absurd h

  pub after-bound :
      (db : Db) (ids : List Str) (rows : List PermitRow) (b : Bound)
      → AllBindable app env ty generation now deployment digests db ids rows
      → (after app env ty generation now deployment digests ids rows b).bound
        ≡ b.bound ++ map bound_permit rows
  after-bound db [] [] b h = sym (append_nil b.bound)
  after-bound db (id ∷ ids) (row ∷ rows) b h =
      after-bound db ids rows (after_one app env ty generation now deployment digests id row b) h.1
      ∙ append_snoc b.bound (bound_permit row) (map bound_permit rows)
  after-bound db [] (row ∷ rows) b h = absurd h
  after-bound db (id ∷ ids) [] b h = absurd h

  -- Only the table of permits changes.
  pub after-frame :
      (ids : List Str) (rows : List PermitRow) (b : Bound)
      → (after app env ty generation now deployment digests ids rows b).db ≡ record b.db {
        permits = (after app env ty generation now deployment digests ids rows b).db.permits;
      }
  unfolding update_permit
  after-frame [] rows b = refl
  after-frame (id ∷ ids) [] b = refl
  after-frame (id ∷ ids) (row ∷ rows) b =
      after-frame ids rows (after_one app env ty generation now deployment digests id row b)

  pub get-after :
      (db : Db) (ids : List Str) (rows : List PermitRow) (b : Bound) (j : Str)
      → AllBindable app env ty generation now deployment digests db ids rows
      → get j (after app env ty generation now deployment digests ids rows b).db.permits ≡ (
          if set_contains j ids
          then map_option (bind_row deployment now) (get j b.db.permits)
          else get j b.db.permits)
  get-after db [] [] b j h = refl
  get-after db (id ∷ ids) (row ∷ rows) b j h = elim (Option-cases (get j b.db.permits)) [
    | inl e ↦ ground (
      arith,
      e,
      get-after db ids rows (after_one app env ty generation now deployment digests id row b) j h.1,
      get-update_permit id j (bind_row deployment now) b.db,
    )
    | inr (r, e) ↦ ground (
      arith,
      e,
      get-after db ids rows (after_one app env ty generation now deployment digests id row b) j h.1,
      get-update_permit id j (bind_row deployment now) b.db,
    )
  ]
  get-after db [] (row ∷ rows) b j h = absurd h
  get-after db (id ∷ ids) [] b j h = absurd h

-- ===== src/Permits/BindOutcome.antt =====
-- `bind_permits` (crates/store/src/sqlite_permits.rs): exactly when it succeeds, and its effect.
use openporch.Prelude.{
  Str, ℕ, Bool, true, false, not, ◌||◌, List, [], ◌∷◌, some, if◌then◌else◌, ◌≡◌, ◌↔◌, inl, inr,
  refl, sym, ap, ◌∙◌, subst, arith, Bool-cases, Memᴰ, map, Memᴰ-keep_of, is_nil, and_left,
  and_right,
}
use openporch.Prelude.Order.{str_ord, eq_iff}
use openporch.Prelude.Result.{ok, ◌>>=◌, >>=-ok}
use openporch.BTreeMap.{BTreeSet, get, set_contains, collect_set}
use openporch.BTreeMap.Sets.{
  Distinct-of_IsSortedSet, collect_set-IsSortedSet, set_contains-collect_set,
}
use openporch.Store.Rows.{Db, PermitRow, map_option}
use openporch.Permits.Types.{PermitBinding, BoundPermit}
use openporch.Permits.Bind.{
  Bound, bind_loop, bind_row, bind_permits, check_required, missing, covers_pair, pair_beq,
  type_if_any,
}
use openporch.Permits.BindLoop.{AllBindable, after, bind_loop-eq_ok}
use openporch.Permits.BindAll.{
  pair_of, bind_loop-of_AllBindable, after-covered, after-bound, after-frame, get-after,
}

pair_beq_iff : (p q : Str × Str) → (pair_beq p q ≡ true) ↔ (p ≡ q)
pair_beq_iff p q = (
  λ h i. ((eq_iff p.0 q.0).0 (and_left _ _ h) i, (eq_iff p.1 q.1).0 (and_right _ _ h) i),
  λ e. rw ((eq_iff p.0 q.0).1 (ap (λ x. x.0) e), (eq_iff p.1 q.1).1 (ap (λ x. x.1) e)),
)

covers_pair-Memᴰ :
    (covered : List (Str × Str)) (r : Str × Str) → covers_pair covered r ≡ true → Memᴰ r covered
covers_pair-Memᴰ [] r h = absurd (cc)
covers_pair-Memᴰ (p ∷ ps) r h = elim (Bool-cases (pair_beq r p)) [
  | inl e ↦ Memᴰ.head ((pair_beq_iff r p).0 e)
  | inr e ↦ Memᴰ.tail (covers_pair-Memᴰ ps r (rw e at h))
]

covers_pair-of_Memᴰ :
    (r : Str × Str) {covered : List (Str × Str)} → Memᴰ r covered → covers_pair covered r ≡ true
covers_pair-of_Memᴰ r (Memᴰ.head {x = p} e) = rw ((pair_beq_iff r p).1 e)
covers_pair-of_Memᴰ r (Memᴰ.tail {x = p} {xs = ps} m) = ground (arith, covers_pair-of_Memᴰ r m)

Memᴰ-is_nil {ℓ} : {A : Type ℓ} {a : A} {xs : List A} → Memᴰ a xs → is_nil xs ≡ false
Memᴰ-is_nil (Memᴰ.head e) = refl
Memᴰ-is_nil (Memᴰ.tail m) = refl

missing-covers :
    (required covered : List (Str × Str)) (r : Str × Str)
    → is_nil (missing required covered) ≡ true
    → Memᴰ r required
    → covers_pair covered r ≡ true
missing-covers required covered r h m = elim (Bool-cases (covers_pair covered r)) [
  | inl e ↦ e
  | inr e ↦
      let k : Memᴰ r (missing required covered) =
        Memᴰ-keep_of (λ r. not (covers_pair covered r)) m (rw e) in
      absurd (let q = Memᴰ-is_nil k in cc)
]

missing-is_nil :
    (required covered : List (Str × Str))
    → ((r : Str × Str) → Memᴰ r required → covers_pair covered r ≡ true)
    → is_nil (missing required covered) ≡ true
missing-is_nil [] covered f = refl
missing-is_nil (r ∷ rs) covered f =
    ground (arith, f r (Memᴰ.head refl), missing-is_nil rs covered (λ s m. f s (Memᴰ.tail m)))

module _ (db : Db) (now : ℕ) (app env : Str) (generation : ℕ) (deployment : Str)
    (binding : PermitBinding) where
  abbrev pub presented_set : BTreeSet Str
  presented_set = collect_set binding.presented []

  abbrev pub start : Bound
  start = record { db = db; covered = []; bound = [] }

  -- The permits presented, with their rows: each can be bound, and each known destructive action
  -- is the action of one of them.
  pub record CanBind : Type 0 where
    pub ty : Str
    pub rows : List PermitRow
    pub type_found : type_if_any db app env presented_set ≡ ok ty
    pub bindable :
        AllBindable app env ty generation now deployment binding.digests db presented_set rows
    pub required : (r : Str × Str) → Memᴰ r binding.required → Memᴰ r (map pair_of rows)

  -- The result of a binding of the permits with the rows `rows`: in the tables exactly the
  -- presented permits are bound, to the deployment and at the time, and keep their other columns.
  pub record Binds (rows : List PermitRow) (b : Bound) : Type 0 where
    pub permits :
        (j : Str)
        → get j b.db.permits ≡ (
            if set_contains j binding.presented
            then map_option {A = PermitRow}
                (λ row. record row { bound_to = some deployment; bound_at = some now })
                (get j db.permits)
            else get j db.permits)
    pub others : b.db ≡ record db { permits = b.db.permits }
    pub bound :
        b.bound
        ≡ map {A = PermitRow} {B = BoundPermit}
            (λ row. record {
              descriptor = row.descriptor;
              action = row.action;
              issued_entry = row.issued_entry;
            })
            rows

  can_bind :
      (ty : Str) (rows : List PermitRow)
      → type_if_any db app env presented_set ≡ ok ty
      → AllBindable app env ty generation now deployment binding.digests db presented_set rows
      → is_nil (
          missing binding.required
            (after app env ty generation now deployment binding.digests presented_set rows
              start).covered)
        ≡ true
      → CanBind
  can_bind ty rows f h m = record {
    ty = ty;
    rows = rows;
    type_found = f;
    bindable = h;
    required = λ r k. covers_pair-Memᴰ (map pair_of rows) r (
        missing-covers binding.required (map pair_of rows) r
          (subst (λ c. is_nil (missing binding.required c) ≡ true)
            (after-covered app env ty generation now deployment binding.digests db presented_set
              rows start h)
            m)
          k);
  }

  binds :
      (ty : Str) (rows : List PermitRow)
      → AllBindable app env ty generation now deployment binding.digests db presented_set rows
      → Binds rows
          (after app env ty generation now deployment binding.digests presented_set rows start)
  binds ty rows h = record {
    permits = λ j.
        get-after app env ty generation now deployment binding.digests db presented_set rows start j
          h
        ∙ ap
            (λ c.
              if c
              then map_option (bind_row deployment now) (get j db.permits)
              else get j db.permits)
            (set_contains-collect_set j binding.presented [] ∙ or_false _);
    others =
        after-frame app env ty generation now deployment binding.digests presented_set rows start;
    bound =
        after-bound app env ty generation now deployment binding.digests db presented_set rows start
          h;
  }
    where
      or_false : (b : Bool) → (b || false) ≡ b
      or_false true = refl
      or_false false = refl

  check_required-eq_ok :
      (b b' : Bound)
      → check_required binding.required b ≡ ok b'
      → (is_nil (missing binding.required b.covered) ≡ true) × (b ≡ b')
  unfolding check_required
  check_required-eq_ok b b' h = (ground (arith, h), ground (arith, h))

  bound_by :
      (b : Bound)
      → bind_permits db now app env generation deployment binding ≡ ok b
      → (can : CanBind) × Binds can.rows b
  unfolding bind_permits can_bind
  bound_by b h =
      let (ty, e, h1) = >>=-ok (type_if_any db app env presented_set) h in
      let (b1, f, h2) =
        >>=-ok (bind_loop app env ty generation now deployment binding.digests presented_set start)
          h1 in
      let (rows, all, p) =
        bind_loop-eq_ok app env ty generation now deployment binding.digests presented_set start b1
          f in
      let (m, q) = check_required-eq_ok b1 b h2 in
      subst (λ x. (can : CanBind) × Binds can.rows x) (sym p ∙ q)
        (
          can_bind ty rows e all
              (subst (λ x. is_nil (missing binding.required x.covered) ≡ true) p m),
          binds ty rows all,
        )

  check_required-ok_of :
      (b : Bound)
      → is_nil (missing binding.required b.covered) ≡ true
      → check_required binding.required b ≡ ok b
  unfolding check_required
  check_required-ok_of b h = rw h

  bind_permits-of_CanBind :
      (can : CanBind)
      → bind_permits db now app env generation deployment binding
        ≡ ok (
            after app env can.ty generation now deployment binding.digests presented_set can.rows
              start)
  unfolding bind_permits
  bind_permits-of_CanBind can =
      let loop =
        bind_loop-of_AllBindable app env can.ty generation now deployment binding.digests
          presented_set can.rows start
          (Distinct-of_IsSortedSet presented_set (collect_set-IsSortedSet binding.presented [] tt))
          can.bindable in
      let last =
        after app env can.ty generation now deployment binding.digests presented_set can.rows
          start in
      let covered =
        after-covered app env can.ty generation now deployment binding.digests db presented_set
          can.rows start can.bindable in
      let none_missing : is_nil (missing binding.required last.covered) ≡ true =
        subst (λ c. is_nil (missing binding.required c) ≡ true) (sym covered)
          (missing-is_nil binding.required (map pair_of can.rows)
            (λ r m. covers_pair-of_Memᴰ r (can.required r m))) in
      ap
        (λ m. m >>= λ ty.
          bind_loop app env ty generation now deployment binding.digests presented_set start
          >>= check_required binding.required)
        can.type_found
      ∙ ap (λ m. m >>= check_required binding.required) loop
      ∙ check_required-ok_of last none_missing

  -- `bind_permits` succeeds exactly where every permit presented can be bound (it is of the
  -- environment, not bound, not expired, issued at the environment's generation, not for a detach,
  -- of an issuer who still holds the authority, and for the configuration that is now deployed) and
  -- every known destructive action is one that they permit.
  pub bind_permits-succeeds_iff :
      ((b : Bound) × (bind_permits db now app env generation deployment binding ≡ ok b)) ↔ CanBind
  bind_permits-succeeds_iff = (
    λ h. (bound_by h.0 h.1).0,
    λ can. (
      after app env can.ty generation now deployment binding.digests presented_set can.rows start,
      bind_permits-of_CanBind can,
    ),
  )

  -- When `bind_permits` succeeds, exactly the permits presented are bound to the deployment, at the
  -- time of the binding; no other permit and no other table changes; and what it returns for the
  -- audit log are these permits, in the order of their IDs.
  pub bind_permits-Binds :
      (b : Bound)
      → bind_permits db now app env generation deployment binding ≡ ok b
      → (can : CanBind) × Binds can.rows b
  bind_permits-Binds b h = bound_by b h

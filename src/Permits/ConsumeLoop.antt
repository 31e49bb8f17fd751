-- ===== src/Permits/ConsumeLoop.antt =====
-- The loop of `consume_permit` (crates/store/src/sqlite_permits.rs) and the permits it goes through.
use openporch.Prelude.{
  Str, ℕ, true, Option, none, some, List, [], ◌∷◌, ◌++◌, ◌≡◌, ◌⊎◌, inl, inr, refl, sym, ap, ◌∙◌,
  Memᴰ, Memᴰ-cons_if, Memᴰ-cons_if_head, Memᴰ-cons_if_tail,
}
use openporch.Prelude.Order.{str_ord}
use openporch.Prelude.Result.{ok, ◌>>=◌, >>=-ok}
use openporch.Prelude.Distinct.{Memᴰ-cons_cases}
use openporch.Store.Rows.{Db, PermitRow, find_permit, update_permit}
use openporch.Permits.Types.{PermitUse, UsedPermit}
use openporch.Permits.Issuer.{issuer_lost-total}
use openporch.Permits.Consume.{
  Candidate, presented_rows, refused, refused_row, consume_loop, use_row, used_permit, for_action,
  candidate_if, use_or, held_or, lost_text,
}

Memᴰ-candidate_if :
    (u : PermitUse) (id : Str) (o : Option PermitRow) (rest : List Candidate) (c : Candidate)
    → Memᴰ c (candidate_if u id o rest)
    → ((c.0 ≡ id) × (o ≡ some c.1) × (for_action u c.1 ≡ true)) ⊎ Memᴰ c rest
Memᴰ-candidate_if u id none rest c m = inr m
Memᴰ-candidate_if u id (some row) rest c m =
    elim (Memᴰ-cons_if (for_action u row) (id, row) rest m) [
      | inl (f, e) ↦
          inl (ap (λ x. x.0) e, ap (λ x. some x.1) (sym e), ap (λ x. for_action u x.1) e ∙ f)
      | inr t ↦ inr t
    ]

pub presented_rows-Memᴰ :
    (db : Db) (u : PermitUse) (ids : List Str) (c : Candidate)
    → Memᴰ c (presented_rows db u ids)
    → Memᴰ c.0 ids × (find_permit db u.app u.env c.0 ≡ some c.1) × (for_action u c.1 ≡ true)
unfolding presented_rows
presented_rows-Memᴰ db u [] c m = elim m [ ]
presented_rows-Memᴰ db u (id ∷ ids) c m =
    elim (Memᴰ-candidate_if u id (find_permit db u.app u.env id) (presented_rows db u ids) c m) [
      | inl (e, f, g) ↦ (Memᴰ.head e, ap (find_permit db u.app u.env) e ∙ f, g)
      | inr t ↦ let (k, f, g) = presented_rows-Memᴰ db u ids c t in (Memᴰ.tail k, f, g)
    ]

candidate_if-head :
    (u : PermitUse) (id : Str) (o : Option PermitRow) (rest : List Candidate) (c : Candidate)
    → c.0 ≡ id
    → o ≡ some c.1
    → for_action u c.1 ≡ true
    → Memᴰ c (candidate_if u id o rest)
candidate_if-head u id none rest c e f g = absurd (cc)
candidate_if-head u id (some row) rest c e f g =
    let p : row ≡ c.1 = cc in
    Memᴰ-cons_if_head (for_action u row) rest (ap (for_action u) p ∙ g) (λ i. (e i, sym p i))

candidate_if-tail :
    (u : PermitUse) (id : Str) (o : Option PermitRow) (rest : List Candidate) (c : Candidate)
    → Memᴰ c rest
    → Memᴰ c (candidate_if u id o rest)
candidate_if-tail u id none rest c m = m
candidate_if-tail u id (some row) rest c m = Memᴰ-cons_if_tail (for_action u row) (id, row) m

pub presented_rows-of :
    (db : Db) (u : PermitUse) (c : Candidate)
    → find_permit db u.app u.env c.0 ≡ some c.1
    → for_action u c.1 ≡ true
    → {ids : List Str} → Memᴰ c.0 ids
    → Memᴰ c (presented_rows db u ids)
unfolding presented_rows
presented_rows-of db u c e f (Memᴰ.head {x = id} {xs = ids} q) =
    candidate_if-head u id (find_permit db u.app u.env id) (presented_rows db u ids) c q
      (ap (find_permit db u.app u.env) (sym q) ∙ e) f
presented_rows-of db u c e f (Memᴰ.tail {x = id} {xs = ids} m) =
    candidate_if-tail u id (find_permit db u.app u.env id) (presented_rows db u ids) c
      (presented_rows-of db u c e f m)

module _ (db : Db) (u : PermitUse) (ty : Str) (generation now : ℕ) where
  -- The permit and the row that the loop uses: the first that is not refused.
  pub consume_loop-eq_ok :
      (cs : List Candidate) (reasons : List Str) (r : Db × UsedPermit)
      → consume_loop db u ty generation now cs reasons ≡ ok r
      → (c : Candidate) × Memᴰ c cs
        × (refused db u ty generation now c.0 c.1 ≡ ok none)
        × (r ≡ (update_permit c.0 (use_row now) db, used_permit c.1))
  unfolding consume_loop
  consume_loop-eq_ok [] reasons r h = absurd (cc)
  consume_loop-eq_ok (c ∷ cs) reasons r h =
      let (o, e, k) = >>=-ok (refused db u ty generation now c.0 c.1) h in
      elim o
          as (λ o.
            refused db u ty generation now c.0 c.1 ≡ ok o
            → use_or db now c (consume_loop db u ty generation now cs) reasons o ≡ ok r
            → (d : Candidate) × Memᴰ d (c ∷ cs)
              × (refused db u ty generation now d.0 d.1 ≡ ok none)
              × (r ≡ (update_permit d.0 (use_row now) db, used_permit d.1))) [
                | none ↦ λ e k. (
                  c,
                  Memᴰ.head refl,
                  e,
                  (let q : r ≡ (update_permit c.0 (use_row now) db, used_permit c.1) = cc in q),
                )
                | some why ↦ λ e k.
                    let (d, m, f, q) = consume_loop-eq_ok cs (reasons ++ why ∷ []) r k in
                    (d, Memᴰ.tail m, f, q)
              ]
        e k

  refused-total :
      (id : Str) (row : PermitRow)
      → (o : Option Str) × (refused db u ty generation now id row ≡ ok o)
  unfolding refused
  refused-total id row = held_or-total (refused_row u generation now id row)
    where
      held_or-total : (o : Option Str) → (p : Option Str) × (held_or db u ty id row o ≡ ok p)
      held_or-total (some why) = (some why, refl)
      held_or-total none =
          let (o, e) = issuer_lost-total db u.app ty u.action row.issuer_id in
          (lost_text id o, ap (λ m. m >>= λ lost. ok (lost_text id lost)) e)

  pub consume_loop-of :
      (cs : List Candidate) (reasons : List Str) (c : Candidate)
      → Memᴰ c cs
      → refused db u ty generation now c.0 c.1 ≡ ok none
      → (r : Db × UsedPermit) × (consume_loop db u ty generation now cs reasons ≡ ok r)
  unfolding consume_loop
  consume_loop-of [] reasons c m h = elim m [ ]
  consume_loop-of (d ∷ ds) reasons c m h =
      let (o, e) = refused-total d.0 d.1 in
      let (r, k) = step o e (λ rs t. consume_loop-of ds rs c t h) in
      (r, ap (λ v. v >>= use_or db now d (consume_loop db u ty generation now ds) reasons) e ∙ k)
    where
      step :
          (o : Option Str)
          → refused db u ty generation now d.0 d.1 ≡ ok o
          → ((rs : List Str)
              → Memᴰ c ds
              → (r : Db × UsedPermit) × (consume_loop db u ty generation now ds rs ≡ ok r))
          → (r : Db × UsedPermit) × (use_or db now d
                (consume_loop db u ty generation now ds)
                reasons
                o
              ≡ ok r)
      step none e next = ((update_permit d.0 (use_row now) db, used_permit d.1), refl)
      step (some why) e next = elim (Memᴰ-cons_cases m) [
        | inl p ↦ absurd (
            let q : ok (some why) ≡ ok none =
              sym e ∙ ap (λ x. refused db u ty generation now x.0 x.1) (sym p) ∙ h in
            cc)
        | inr t ↦ next (reasons ++ why ∷ []) t
      ]

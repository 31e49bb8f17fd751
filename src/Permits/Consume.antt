-- ===== src/Permits/Consume.antt =====
-- `consume_permit` of crates/store/src/sqlite_permits.rs.
use openporch.Prelude.{
  Str, bytes, ℕ, leb, nat_beq, Bool, true, false, not, Option, none, some, List, [], ◌∷◌, ◌++◌,
  if◌then◌else◌, ◌&&◌, keep, cons_if, is_nil, join, decimal,
}
use openporch.Prelude.Order.{◌==◌, str_ord}
use openporch.Prelude.Result.{Result, ok, err, ◌>>=◌}
use openporch.BTreeMap.Laws.{is_some}
use openporch.Identity.Tables.{StoreError, invalid, approval_required}
use openporch.Identity.Authority.{quote}
use openporch.Store.Rows.{
  Db, EnvRow, PermitRow, find_env, find_permit, update_permit, row_not_found,
}
use openporch.Permits.Types.{PermitUse, UsedPermit, detached_mark}
use openporch.Permits.Checks.{env_type, issuer_lost}

abbrev pub Candidate : Type 0
Candidate = Str × PermitRow

-- `a == b` of `Option<&str>`
abbrev pub opt_str_beq : Option Str → Option Str → Bool
opt_str_beq none none = true
opt_str_beq (some a) (some b) = a == b
opt_str_beq _ _ = false

abbrev pub for_action : PermitUse → PermitRow → Bool
for_action u row = row.descriptor == u.descriptor && row.action == u.action

-- The condition of the query of the permits bound to a deployment.
abbrev pub bound_here : PermitUse → Str → Candidate → Bool
bound_here u deployment c =
    (c.1.app_id == u.app && c.1.env_id == u.env)
    && (opt_str_beq c.1.bound_to (some deployment) && for_action u c.1)

-- The query of one presented permit.
abbrev pub candidate_if : PermitUse → Str → Option PermitRow → List Candidate → List Candidate
candidate_if u id none rest = rest
candidate_if u id (some row) rest = cons_if (for_action u row) (id, row) rest

unfoldable pub presented_rows : Db → PermitUse → List Str → List Candidate
presented_rows db u [] = []
presented_rows db u (id ∷ ids) =
    candidate_if u id (find_permit db u.app u.env id) (presented_rows db u ids)

unfoldable pub candidates : Db → PermitUse → Option Str → List Candidate
unfolding presented_rows
candidates db u (some deployment) = keep (bound_here u deployment) db.permits
candidates db u none = presented_rows db u u.presented

abbrev permit_text : Str → Str
permit_text id = bytes "permit " ++ quote id

abbrev text_or_empty : Option Str → Str
text_or_empty none = []
text_or_empty (some s) = s

-- The checks of a detach, which binds the permit itself.
unfoldable pub refused_detach : (generation now : ℕ) → Str → PermitRow → Option Str
refused_detach generation now id row =
    if is_some row.bound_to
    then some (permit_text id ++ bytes " was already used")
    else if leb row.expires_at now
    then some (permit_text id ++ bytes " has expired")
    else if not (nat_beq row.base_generation generation)
    then some (
        permit_text id
        ++ bytes " was issued at generation "
        ++ decimal row.base_generation
        ++ bytes ", but the environment is at "
        ++ decimal generation)
    else none

abbrev detach_refusal : Option Str → (generation now : ℕ) → Str → PermitRow → Option Str
detach_refusal none generation now id row = refused_detach generation now id row
detach_refusal (some deployment) generation now id row = none

-- Why a candidate does not cover the action, as far as its row tells.
unfoldable pub refused_row : PermitUse → (generation now : ℕ) → Str → PermitRow → Option Str
unfolding refused_detach
refused_row u generation now id row =
    if is_some row.guresid && not (opt_str_beq row.guresid u.guresid)
    then some (permit_text id ++ bytes " is for another resource identity")
    else if is_some row.plan_fingerprint && not (opt_str_beq row.plan_fingerprint u.fingerprint)
    then some (
        permit_text id
        ++ bytes " covers driver plan "
        ++ text_or_empty row.plan_fingerprint
        ++ bytes ", not this one")
    else detach_refusal u.deployment generation now id row

abbrev pub lost_text : Str → Option Str → Option Str
lost_text id none = none
lost_text id (some e) = some (permit_text id ++ bytes " no longer holds: " ++ e)

abbrev pub held_or :
    Db → PermitUse → Str → Str → PermitRow → Option Str → Result StoreError (Option Str)
held_or db u ty id row (some why) = ok (some why)
held_or db u ty id row none =
    issuer_lost db u.app ty u.action row.issuer_id >>= λ lost. ok (lost_text id lost)

-- The loop's body up to the UPDATE: none where the permit covers the action.
unfoldable pub refused :
    Db → PermitUse → Str → (generation now : ℕ) → Str → PermitRow → Result StoreError (Option Str)
unfolding refused_row
refused db u ty generation now id row = held_or db u ty id row (refused_row u generation now id row)

abbrev pub coalesce {ℓ} : {A : Type ℓ} → Option A → A → Option A
coalesce (some a) b = some a
coalesce none b = some b

-- The UPDATE of a permit that is used.
abbrev pub use_row : ℕ → PermitRow → PermitRow
use_row now row = record row {
  used_at = coalesce row.used_at now;
  bound_to = coalesce row.bound_to detached_mark;
  bound_at = coalesce row.bound_at now;
}

abbrev pub used_permit : PermitRow → UsedPermit
used_permit row = record { issued_entry = row.issued_entry; first = not (is_some row.used_at) }

abbrev pub no_permit : PermitUse → List Str → StoreError
no_permit u reasons = approval_required (
    if is_nil reasons
    then bytes "no permit covers the " ++ (u.action ++ bytes " of " ++ quote u.descriptor)
    else bytes "no permit covers the "
      ++ (u.action ++ bytes " of " ++ quote u.descriptor)
      ++ bytes ": "
      ++ join (bytes "; ") reasons)

abbrev pub use_or :
    Db
    → (now : ℕ) → Candidate
    → (List Str → Result StoreError (Db × UsedPermit))
    → List Str
    → Option Str
    → Result StoreError (Db × UsedPermit)
use_or db now c next reasons none = ok (update_permit c.0 (use_row now) db, used_permit c.1)
use_or db now c next reasons (some why) = next (reasons ++ why ∷ [])

module _ (db : Db) (u : PermitUse) (ty : Str) (generation now : ℕ) where
  -- The loop over the candidates, with the reasons that refused the earlier ones.
  unfoldable pub consume_loop : List Candidate → List Str → Result StoreError (Db × UsedPermit)
  unfolding refused
  consume_loop [] reasons = err (no_permit u reasons)
  consume_loop (c ∷ cs) reasons =
      refused db u ty generation now c.0 c.1 >>= use_or db now c (consume_loop cs) reasons

abbrev pub generation_of : Option EnvRow → Result StoreError ℕ
generation_of none = err row_not_found
generation_of (some row) = ok row.generation

abbrev pub only_bound : Str → StoreError
only_bound action =
    invalid (bytes "a " ++ action ++ bytes " permit is used only by the deployment it is bound to")

unfoldable pub consume_permit : Db → (now : ℕ) → PermitUse → Result StoreError (Db × UsedPermit)
unfolding consume_loop candidates
consume_permit db now u =
    if not (is_some u.deployment) && not (u.action == bytes "detach")
    then err (only_bound u.action)
    else (env_type db u.app u.env >>= λ ty.
        generation_of (find_env db u.app u.env) >>= λ generation.
        consume_loop db u ty generation now (candidates db u u.deployment) [])

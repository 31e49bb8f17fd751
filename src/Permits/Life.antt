-- ===== src/Permits/Life.antt =====
-- The life of a permit in the tables (crates/store/src/sqlite_permits.rs): what no operation changes.
use openporch.Prelude.{
  Str, bytes, ℕ, suc, false, Option, none, some, List, [], ◌∷◌, ◌++◌, ◌≡◌, inl, inr, refl, sym, ap,
  ◌∙◌, subst, arith, Bool-cases,
}
use openporch.Prelude.Order.{◌==◌, str_ord, eq_iff}
use openporch.Prelude.Result.{ok, >>=-ok, ok_inj}
use openporch.BTreeMap.{BTreeMap, get, insert, contains_key}
use openporch.BTreeMap.Laws.{contains_key-get, get-insert}
use openporch.Store.World.{World}
use openporch.Store.Rows.{Db, PermitRow, update_permit}
use openporch.Permits.Types.{NewPermit, PermitRecord, detached_mark}
use openporch.Permits.Bind.{bind_row}
use openporch.Permits.Consume.{use_row, coalesce}
use openporch.Permits.Issue.{insert_permit, issue_loop}
use openporch.Permits.BindLoop.{get-update_permit}

-- What a later row of a permit keeps of an earlier one: what it is for and when it ends; what it is
-- bound to and since when, once it is; and when it was first used, once it was.
pub record Keeps (a b : PermitRow) : Type 0 where
  pub app_id : b.app_id ≡ a.app_id
  pub env_id : b.env_id ≡ a.env_id
  pub plan_id : b.plan_id ≡ a.plan_id
  pub descriptor : b.descriptor ≡ a.descriptor
  pub guresid : b.guresid ≡ a.guresid
  pub action : b.action ≡ a.action
  pub plan_fingerprint : b.plan_fingerprint ≡ a.plan_fingerprint
  pub base_generation : b.base_generation ≡ a.base_generation
  pub config_digest : b.config_digest ≡ a.config_digest
  pub issuer_id : b.issuer_id ≡ a.issuer_id
  pub expires_at : b.expires_at ≡ a.expires_at
  pub bound_to : (d : Str) → a.bound_to ≡ some d → b.bound_to ≡ some d
  pub used_at : (t : ℕ) → a.used_at ≡ some t → b.used_at ≡ some t

pub Keeps-refl : (a : PermitRow) → Keeps a a
Keeps-refl a = record {
  app_id = refl;
  env_id = refl;
  plan_id = refl;
  descriptor = refl;
  guresid = refl;
  action = refl;
  plan_fingerprint = refl;
  base_generation = refl;
  config_digest = refl;
  issuer_id = refl;
  expires_at = refl;
  bound_to = λ d e. e;
  used_at = λ t e. e;
}

pub Keeps-trans : {a b c : PermitRow} → Keeps a b → Keeps b c → Keeps a c
Keeps-trans h k = record {
  app_id = k.app_id ∙ h.app_id;
  env_id = k.env_id ∙ h.env_id;
  plan_id = k.plan_id ∙ h.plan_id;
  descriptor = k.descriptor ∙ h.descriptor;
  guresid = k.guresid ∙ h.guresid;
  action = k.action ∙ h.action;
  plan_fingerprint = k.plan_fingerprint ∙ h.plan_fingerprint;
  base_generation = k.base_generation ∙ h.base_generation;
  config_digest = k.config_digest ∙ h.config_digest;
  issuer_id = k.issuer_id ∙ h.issuer_id;
  expires_at = k.expires_at ∙ h.expires_at;
  bound_to = λ d e. k.bound_to d (h.bound_to d e);
  used_at = λ t e. k.used_at t (h.used_at t e);
}

pub Keeps-bind_row :
    (deployment : Str) (now : ℕ) (a : PermitRow)
    → a.bound_to ≡ none
    → Keeps a (bind_row deployment now a)
Keeps-bind_row deployment now a free = record {
  app_id = refl;
  env_id = refl;
  plan_id = refl;
  descriptor = refl;
  guresid = refl;
  action = refl;
  plan_fingerprint = refl;
  base_generation = refl;
  config_digest = refl;
  issuer_id = refl;
  expires_at = refl;
  bound_to = λ d e. absurd (let x : none ≡ some d = sym free ∙ e in cc);
  used_at = λ t e. e;
}

coalesce-some {ℓ} : {A : Type ℓ} (o : Option A) (a b : A) → o ≡ some a → coalesce o b ≡ some a
coalesce-some o a b h = rw h

pub Keeps-use_row : (now : ℕ) (a : PermitRow) → Keeps a (use_row now a)
Keeps-use_row now a = record {
  app_id = refl;
  env_id = refl;
  plan_id = refl;
  descriptor = refl;
  guresid = refl;
  action = refl;
  plan_fingerprint = refl;
  base_generation = refl;
  config_digest = refl;
  issuer_id = refl;
  expires_at = refl;
  bound_to = λ d e. coalesce-some a.bound_to d detached_mark e;
  used_at = λ t e. coalesce-some a.used_at t now e;
}

-- Every permit of the first table is in the second, with a row that keeps it.
abbrev pub KeepsAll : BTreeMap Str PermitRow → BTreeMap Str PermitRow → Type 0
KeepsAll before after =
    (id : Str) (a : PermitRow)
    → get id before ≡ some a
    → (b : PermitRow) × (get id after ≡ some b) × Keeps a b

pub KeepsAll-update_permit :
    (id : Str) (f : PermitRow → PermitRow) (db : Db)
    → ((a : PermitRow) → Keeps a (f a))
    → KeepsAll db.permits (update_permit id f db).permits
KeepsAll-update_permit id f db k j a h = elim (Bool-cases (j == id)) [
  | inl e ↦ (f a, get-update_permit id j f db ∙ rw (e, h), k a)
  | inr e ↦ (a, get-update_permit id j f db ∙ rw (e, h), Keeps-refl a)
]

insert_permit-KeepsAll :
    (id : Str) (row : PermitRow) (before after : BTreeMap Str PermitRow)
    → insert_permit id row before ≡ ok after
    → KeepsAll before after
unfolding insert_permit
insert_permit-KeepsAll id row before after h j a e =
    let fresh : contains_key id before ≡ false = ground (arith, h) in
    let p : insert id row before ≡ after = ground (arith, h) in
    let other : (j == id) ≡ false =
      ground (arith, fresh, e, contains_key-get id before, eq_iff j id) in
    (a, sym (ap (get j) p) ∙ get-insert id j row before ∙ rw (other, e), Keeps-refl a)

pub issue_loop-KeepsAll :
    (w : World) (n : ℕ) (row : NewPermit → PermitRow) (ps : List NewPermit)
    (before : BTreeMap Str PermitRow) (rs : List PermitRecord)
    → (r : BTreeMap Str PermitRow × List PermitRecord) → issue_loop w n row ps before rs ≡ ok r
    → KeepsAll before r.0
unfolding issue_loop
issue_loop-KeepsAll w n row [] before rs r h =
    subst (λ x. KeepsAll before x.0) (ok_inj h) (λ id a e. (a, e, Keeps-refl a))
issue_loop-KeepsAll w n row (p ∷ ps) before rs r h =
    let (next, e, k) = >>=-ok (insert_permit (bytes "prm-" ++ w.hex n) (row p) before) h in
    λ id a q.
      let (b, f, u) =
        insert_permit-KeepsAll (bytes "prm-" ++ w.hex n) (row p) before next e id a q in
      let (c, g, v) = issue_loop-KeepsAll w (suc n) row ps next _ r k id b f in
      (c, g, Keeps-trans u v)

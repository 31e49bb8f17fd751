-- ===== src/Criteria/WeightLaws.antt =====
-- What `criterion_weight` computes: the sum of the points of the fields that a matching criterion
-- sets, an order in which the more specific field decides.
use openporch.Prelude.{
  ℕ, ◌+◌, ◌≤◌, ◌<◌, ◌≡◌, ◌↔◌, refl, ap, sym, ◌∙◌, Option, none, some, List, arith,
}
use openporch.Prelude.Order.{str_ord, eq_iff}
use openporch.Ids.{ClassId, default_class}
use openporch.Model.{Criterion, ResourceContext}
use openporch.Criteria.Weight.{field_weight, class_weight, criterion_weight, ◌>>=◌}

-- A field that is set must equal the context's.
abbrev pub FieldMatches : Option (List ℕ) → List ℕ → Type 0
FieldMatches none actual = Unit
FieldMatches (some v) actual = v ≡ actual

-- Without a class, only the default class matches.
abbrev pub ClassMatches : Option ClassId → ClassId → Type 0
ClassMatches none class = class ≡ default_class
ClassMatches (some v) class = v ≡ class

pub record Matches (c : Criterion) (ctx : ResourceContext) : Type 0 where
  pub env_type : FieldMatches c.env_type ctx.env_type
  pub app_id : FieldMatches c.app_id ctx.app
  pub env_id : FieldMatches c.env_id ctx.env
  pub res_id : FieldMatches c.res_id ctx.res.id
  pub class : ClassMatches c.class ctx.res.class

abbrev pub bit {ℓ} : {A : Type ℓ} → Option A → ℕ → ℕ
bit none points = 0
bit (some a) points = points

abbrev pub points : Criterion → ℕ
points c = bit c.env_type 1 + bit c.app_id 2 + bit c.env_id 4 + bit c.res_id 8 + bit c.class 16

field_weight-eq_some :
    (o : Option (List ℕ)) (actual : List ℕ) (p weight w : ℕ)
    → (field_weight o actual p weight ≡ some w) ↔ FieldMatches o actual × (w ≡ weight + bit o p)
field_weight-eq_some none actual p weight w = (λ h. (tt, ground arith), λ h. ground arith)
field_weight-eq_some (some v) actual p weight w =
    (λ h. ground (arith, eq_iff v actual), λ h. ground (arith, eq_iff v actual))

class_weight-eq_some :
    (o : Option ClassId) (class : ClassId) (weight w : ℕ)
    → (class_weight o class weight ≡ some w) ↔ ClassMatches o class × (w ≡ weight + bit o 16)
class_weight-eq_some none class weight w = (
  λ h. ground (arith, eq_iff class default_class),
  λ h. ground (arith, eq_iff class default_class),
)
class_weight-eq_some (some v) class weight w =
    (λ h. ground (arith, eq_iff v class), λ h. ground (arith, eq_iff v class))

bind-eq_some {ℓ κ} :
    {A : Type ℓ} {B : Type κ} (m : Option A) (f : A → Option B) {b : B}
    → (m >>= f) ≡ some b
    → (a : A) × (m ≡ some a) × (f a ≡ some b)
bind-eq_some none f h = cc
bind-eq_some (some a) f h = (a, refl, h)

criterion_weight_sound :
    (c : Criterion) (ctx : ResourceContext) (w : ℕ)
    → criterion_weight c ctx ≡ some w
    → Matches c ctx × (w ≡ points c)
unfolding criterion_weight
criterion_weight_sound c ctx w h =
    let (w1, e1, h1) = bind-eq_some (field_weight c.env_type ctx.env_type 1 0) _ h in
    let (w2, e2, h2) = bind-eq_some (field_weight c.app_id ctx.app 2 w1) _ h1 in
    let (w3, e3, h3) = bind-eq_some (field_weight c.env_id ctx.env 4 w2) _ h2 in
    let (w4, e4, h4) = bind-eq_some (field_weight c.res_id ctx.res.id 8 w3) _ h3 in
    let (m1, s1) = (field_weight-eq_some c.env_type ctx.env_type 1 0 w1).0 e1 in
    let (m2, s2) = (field_weight-eq_some c.app_id ctx.app 2 w1 w2).0 e2 in
    let (m3, s3) = (field_weight-eq_some c.env_id ctx.env 4 w2 w3).0 e3 in
    let (m4, s4) = (field_weight-eq_some c.res_id ctx.res.id 8 w3 w4).0 e4 in
    let (m5, s5) = (class_weight-eq_some c.class ctx.res.class w4 w).0 h4 in
    (record { env_type = m1; app_id = m2; env_id = m3; res_id = m4; class = m5 }, omega arith)

criterion_weight_complete :
    (c : Criterion) (ctx : ResourceContext)
    → Matches c ctx
    → criterion_weight c ctx ≡ some (points c)
unfolding criterion_weight
criterion_weight_complete c ctx m =
    rw
      (
        (field_weight-eq_some c.env_type ctx.env_type 1 0 _).1 (m.env_type, refl),
        (field_weight-eq_some c.app_id ctx.app 2 _ _).1 (m.app_id, refl),
        (field_weight-eq_some c.env_id ctx.env 4 _ _).1 (m.env_id, refl),
        (field_weight-eq_some c.res_id ctx.res.id 8 _ _).1 (m.res_id, refl),
      )
      ((class_weight-eq_some c.class ctx.res.class _ (points c)).1 (m.class, omega arith))

-- A criterion has the weight `w` for a context exactly when every field that it sets equals the
-- context's (with no class set, when the context's class is `default`) and `w` is the sum of the
-- points of the fields set: 1 for the environment type, 2 for the application, 4 for the
-- environment, 8 for the resource ID and 16 for the class.
pub criterion_weight-eq_some :
    (c : Criterion) (ctx : ResourceContext) (w : ℕ)
    → (criterion_weight c ctx ≡ some w) ↔ Matches c ctx × (w ≡ points c)
criterion_weight-eq_some c ctx w =
    (criterion_weight_sound c ctx w, λ h. criterion_weight_complete c ctx h.0 ∙ ap some (sym h.1))

abbrev pub Wins : Option (List ℕ) → Option (List ℕ) → Type 0 → Type 0
Wins (some a) none rest = Unit
Wins none (some b) rest = ⊥
Wins none none rest = rest
Wins (some a) (some b) rest = rest

-- The order in which a specific field decides: class first, then resource ID, environment,
-- application and environment type.
abbrev pub MoreSpecific : Criterion → Criterion → Type 0
MoreSpecific c d = Wins c.class d.class (
    Wins c.res_id d.res_id
      (Wins c.env_id d.env_id (Wins c.app_id d.app_id (Wins c.env_type d.env_type ⊥))))

-- One field more: what is below it counts less than the field.
Wins-lt_iff :
    (o q : Option (List ℕ)) (p r s : ℕ) (Rest : Type 0)
    → r < p
    → s < p
    → (s < r) ↔ Rest
    → (s + bit q p < r + bit o p) ↔ Wins o q Rest
Wins-lt_iff none none p r s Rest hr hs e =
    (λ h. e.0 (omega arith), λ h. let lt = e.1 h in omega arith)
Wins-lt_iff none (some b) p r s Rest hr hs e = (λ h. omega arith, λ h. absurd h)
Wins-lt_iff (some a) none p r s Rest hr hs e = (λ h. tt, λ h. omega arith)
Wins-lt_iff (some a) (some b) p r s Rest hr hs e =
    (λ h. e.0 (omega arith), λ h. let lt = e.1 h in omega arith)

Wins-bit-lt_iff : (o q : Option (List ℕ)) → (bit q 1 < bit o 1) ↔ Wins o q ⊥
Wins-bit-lt_iff none none = (λ h. omega arith, λ h. absurd h)
Wins-bit-lt_iff none (some b) = (λ h. omega arith, λ h. absurd h)
Wins-bit-lt_iff (some a) none = (λ h. tt, λ h. omega arith)
Wins-bit-lt_iff (some a) (some b) = (λ h. omega arith, λ h. absurd h)

bit-le {ℓ} : {A : Type ℓ} (o : Option A) (p : ℕ) → bit o p ≤ p
bit-le none p = omega arith
bit-le (some a) p = omega arith

points-lt_iff : (c d : Criterion) → (points d < points c) ↔ MoreSpecific c d
points-lt_iff c d =
    let step1 = Wins-bit-lt_iff c.env_type d.env_type in
    let step2 =
      Wins-lt_iff c.app_id d.app_id 2 (bit c.env_type 1) (bit d.env_type 1) _
        (omega (arith, bit-le c.env_type 1)) (omega (arith, bit-le d.env_type 1)) step1 in
    let step3 =
      Wins-lt_iff c.env_id d.env_id 4 (bit c.env_type 1 + bit c.app_id 2)
        (bit d.env_type 1 + bit d.app_id 2) _ (ground arith) (ground arith) step2 in
    let step4 =
      Wins-lt_iff c.res_id d.res_id 8 (bit c.env_type 1 + bit c.app_id 2 + bit c.env_id 4)
        (bit d.env_type 1 + bit d.app_id 2 + bit d.env_id 4) _ (ground arith) (ground arith)
        step3 in
    Wins-lt_iff c.class d.class 16
      (bit c.env_type 1 + bit c.app_id 2 + bit c.env_id 4 + bit c.res_id 8)
      (bit d.env_type 1 + bit d.app_id 2 + bit d.env_id 4 + bit d.res_id 8) _ (ground arith)
      (ground arith) step4

-- Between two criteria that both match, the weight is larger exactly for the more specific one:
-- the first field, in the order class, resource ID, environment, application, environment type,
-- that only one of them sets decides.
pub criterion_weight-lt_iff :
    (c d : Criterion) (ctx : ResourceContext) (v w : ℕ)
    → criterion_weight c ctx ≡ some v
    → criterion_weight d ctx ≡ some w
    → (w < v) ↔ MoreSpecific c d
criterion_weight-lt_iff c d ctx v w hc hd =
    rw (criterion_weight_sound c ctx v hc).1
      (rw (criterion_weight_sound d ctx w hd).1 (points-lt_iff c d))

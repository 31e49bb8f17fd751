-- ===== src/Criteria/Weight.antt =====
-- `criterion_weight` and `definition_weight` of crates/core/src/criteria.rs.
use openporch.Prelude.{ℕ, ◌+◌, Option, none, some, List, [], ◌∷◌, if◌then◌else◌, leb}
use openporch.Prelude.Order.{◌==◌, str_ord}
use openporch.Ids.{ClassId, is_default}
use openporch.Model.{Criterion, ResourceContext, ResourceDefinition}

infixl 5 ◌>>=◌
abbrev pub ◌>>=◌ {ℓ κ} : {A : Type ℓ} {B : Type κ} → Option A → (A → Option B) → Option B
none >>= f = none
some a >>= f = f a

-- One block `if let Some(v) = field { if *v != actual { return None; } weight += points; }`.
abbrev pub field_weight : Option (List ℕ) → List ℕ → ℕ → ℕ → Option ℕ
field_weight none actual points weight = some weight
field_weight (some v) actual points weight = if v == actual then some (weight + points) else none

-- The final `match`: without a class only the default class matches.
abbrev pub class_weight : Option ClassId → ClassId → ℕ → Option ℕ
class_weight (some v) class weight = if v == class then some (weight + 16) else none
class_weight none class weight = if is_default class then some weight else none

unfoldable pub criterion_weight : Criterion → ResourceContext → Option ℕ
criterion_weight c ctx = do
  weight ← field_weight c.env_type ctx.env_type 1 0
  weight ← field_weight c.app_id ctx.app 2 weight
  weight ← field_weight c.env_id ctx.env 4 weight
  weight ← field_weight c.res_id ctx.res.id 8 weight
  class_weight c.class ctx.res.class weight

-- `filter_map(..).max()`.
abbrev pub max_option : Option ℕ → Option ℕ → Option ℕ
max_option none o = o
max_option (some a) none = some a
max_option (some a) (some b) = some (if leb a b then b else a)

unfoldable pub best_weight : List Criterion → ResourceContext → Option ℕ
best_weight [] ctx = none
best_weight (c ∷ cs) ctx = max_option (criterion_weight c ctx) (best_weight cs ctx)

unfoldable pub definition_weight {ℓ} :
    {Value : Type ℓ} → ResourceDefinition Value → ResourceContext → Option ℕ
unfolding best_weight
definition_weight def ctx = if def.ty == ctx.res.ty then best_weight def.criteria ctx else none

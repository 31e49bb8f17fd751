-- ===== src/Criteria/Select.antt =====
-- `select_definition` of crates/core/src/criteria.rs, with its errors.
use openporch.Prelude.{
  ℕ, Str, Option, none, some, List, [], ◌∷◌, ◌++◌, map, if◌then◌else◌, ltb, nat_beq, is_nil, ◌||◌,
}
use openporch.Prelude.Order.{str_ord}
use openporch.Prelude.Result.{Result, ok, err}
use openporch.Prelude.Sort.{sort}
use openporch.Ids.{DefinitionId}
use openporch.Ids.Types.{descriptor_to_string}
use openporch.Model.{ResourceContext, ResourceDefinition}
use openporch.Criteria.Weight.{definition_weight}

pub data MatchError : Type 0 where
  no_match : ResourceContext → MatchError
  ambiguous : (descriptor : Str) (definitions : List DefinitionId) (weight : ℕ) → MatchError

-- The two variables of the loop.
pub record Best {ℓ} (Value : Type ℓ) : Type ℓ where
  pub best : List (ResourceDefinition Value)
  pub best_weight : ℕ

module _ {ℓ} {Value : Type ℓ} where
  unfoldable pub weigh_in : ResourceDefinition Value → Option ℕ → Best Value → Best Value
  weigh_in def none b = b
  weigh_in def (some w) b =
      if is_nil b.best || ltb b.best_weight w
      then record { best = def ∷ []; best_weight = w }
      else if nat_beq w b.best_weight
      then record b { best = b.best ++ def ∷ [] }
      else b

  unfoldable pub scan : ResourceContext → List (ResourceDefinition Value) → Best Value → Best Value
  unfolding weigh_in
  scan ctx [] b = b
  scan ctx (def ∷ defs) b = scan ctx defs (weigh_in def (definition_weight def ctx) b)

  -- The final `match best.len()`.
  unfoldable pub conclude :
      ResourceContext
      → ℕ
      → List (ResourceDefinition Value)
      → Result MatchError (ResourceDefinition Value)
  conclude ctx best_weight [] = err (no_match ctx)
  conclude ctx best_weight (d ∷ []) = ok d
  conclude ctx best_weight (d ∷ e ∷ ds) =
      err
        (ambiguous (descriptor_to_string ctx.res) (sort (map (λ x. x.id) (d ∷ e ∷ ds))) best_weight)

  unfoldable pub scanned : ResourceContext → List (ResourceDefinition Value) → Best Value
  unfolding scan
  scanned ctx defs = scan ctx defs (record { best = []; best_weight = 0 })

  unfoldable pub select_definition :
      List (ResourceDefinition Value)
      → ResourceContext
      → Result MatchError (ResourceDefinition Value)
  unfolding scanned conclude
  select_definition defs ctx = conclude ctx (scanned ctx defs).best_weight (scanned ctx defs).best

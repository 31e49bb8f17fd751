-- ===== src/Placeholder/Collect.antt =====
-- `collect_placeholders`: every placeholder in a value, interpreted, with its location.
use openporch.Prelude.{ℕ, suc, Str, bytes, decimal, List, [], ◌∷◌, ◌++◌}
use openporch.Placeholder.Types.{RawPlaceholder, placeholders}
use openporch.Placeholder.Scan.{template_parse}
use openporch.Placeholder.Expr.{Expr, Dialect, interpret}
use openporch.Placeholder.Json.{Value, Items, Fields, null, bool, number, string, array, object}
use openporch.Placeholder.Run.{Run, ◌>>=◌, done}
use openporch.Placeholder.Resolve.{error_at, at, at_run}

pub record Found : Type 0 where
  pub location : Str
  pub raw : RawPlaceholder
  pub expr : Expr

module _ (dialect : Dialect) where
  unfoldable pub collect_raw : Str → List RawPlaceholder → List Found → Run (List Found)
  unfolding interpret
  collect_raw location [] out = done out
  collect_raw location (p ∷ ps) out = do
    e ← at (error_at location p.text) (interpret p dialect)
    collect_raw location ps (out ++ record { location = location; raw = p; expr = e } ∷ [])

  unfoldable mutual
    unfolding collect_raw template_parse

    pub collect_into : Str → Value → List Found → Run (List Found)
    collect_into location (string s) out = do
      t ← at_run (error_at location s) (template_parse s)
      collect_raw location (placeholders t) out
    collect_into location (array vs) out = collect_items location 0 vs out
    collect_into location (object vs) out = collect_fields location vs out
    collect_into location null out = done out
    collect_into location (bool b) out = done out
    collect_into location (number n) out = done out

    pub collect_items : Str → ℕ → Items → List Found → Run (List Found)
    collect_items location i Items.no_items out = done out
    collect_items location i (Items.item v vs) out = do
      out' ← collect_into (location ++ bytes "[" ++ decimal i ++ bytes "]") v out
      collect_items location (suc i) vs out'

    pub collect_fields : Str → Fields → List Found → Run (List Found)
    collect_fields location Fields.no_fields out = done out
    collect_fields location (Fields.field k v vs) out = do
      out' ← collect_into (location ++ bytes "." ++ k) v out
      collect_fields location vs out'

  unfoldable pub collect_placeholders : Str → Value → Run (List Found)
  unfolding collect_into collect_items collect_fields collect_raw template_parse
  collect_placeholders location v = collect_into location v []

-- ===== src/Store/Lookup.antt =====
-- What the query of a permit by its environment and ID tells of the row.
use openporch.Prelude.{Str, Option, none, some, ◌≡◌, arith}
use openporch.Prelude.Order.{eq_iff, str_ord}
use openporch.Store.Rows.{PermitRow, permit_if}

pub permit_if-eq_some :
    (app env : Str) (o : Option PermitRow) (row : PermitRow)
    → permit_if app env o ≡ some row
    → (o ≡ some row) × (row.app_id ≡ app) × (row.env_id ≡ env)
permit_if-eq_some app env none row h = absurd (cc)
permit_if-eq_some app env (some r) row h = (
  ground (arith, h),
  ground (arith, h, eq_iff r.app_id app),
  ground (arith, h, eq_iff r.env_id env),
)

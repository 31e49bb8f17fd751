-- ===== src/Redact/Ranges.antt =====
-- Ranges of positions, and their order: by start, then by end.
use Prim.Native.Nat.{Ordering, compare}
use openporch.Prelude.{ℕ, ◌≡◌, arith}
use openporch.Prelude.Order.{Ord, then_cmp}

abbrev pub Range : Type 0
Range = ℕ × ℕ

abbrev pub start : Range → ℕ
start r = r.0

abbrev pub end : Range → ℕ
end r = r.1

abbrev pub range_cmp : Range → Range → Ordering
range_cmp a b = then_cmp (compare a.0 b.0) (compare a.1 b.1)

pub range_cmp-eq : (a b : Range) → range_cmp a b ≡ Ordering.eq → a ≡ b
range_cmp-eq a b h = ground arith

pub range_cmp_refl : (a : Range) → range_cmp a a ≡ Ordering.eq
range_cmp_refl a = ground arith

pub range_cmp-swap_lt : (a b : Range) → range_cmp a b ≡ Ordering.lt → range_cmp b a ≡ Ordering.gt
range_cmp-swap_lt a b h = ground arith

pub range_cmp-swap_gt : (a b : Range) → range_cmp a b ≡ Ordering.gt → range_cmp b a ≡ Ordering.lt
range_cmp-swap_gt a b h = ground arith

pub range_cmp_trans :
    (a b c : Range)
    → range_cmp a b ≡ Ordering.lt
    → range_cmp b c ≡ Ordering.lt
    → range_cmp a c ≡ Ordering.lt
range_cmp_trans a b c h k = ground arith

instance abbrev pub range_ord : Ord Range
range_ord = record {
  cmp = range_cmp;
  cmp-eq = range_cmp-eq;
  cmp-refl = range_cmp_refl;
  cmp-swap_lt = range_cmp-swap_lt;
  cmp-swap_gt = range_cmp-swap_gt;
  cmp_trans = range_cmp_trans;
}

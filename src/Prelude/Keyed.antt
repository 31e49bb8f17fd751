-- ===== src/Prelude/Keyed.antt =====
-- Orders of pairs, and of types that a key tells apart.
use Prim.Native.Nat.{Ordering}
use mathlib.Core.Path.{◌≡◌}
use native.Mathlib.Omega.{arith}
use openporch.Prelude.Order.{Ord, then_cmp}

-- Lexicographic, as a derived `Ord` compares the fields.
module _ {ℓ κ} {A : Type ℓ} {B : Type κ} (oa : Ord A) (ob : Ord B) where
  abbrev pub pair_cmp : A × B → A × B → Ordering
  pair_cmp x y = then_cmp (oa.cmp x.0 y.0) (ob.cmp x.1 y.1)

  pub pair_cmp-eq : (x y : A × B) → pair_cmp x y ≡ Ordering.eq → x ≡ y
  pair_cmp-eq x y h = ground (arith, oa.cmp-eq x.0 y.0, ob.cmp-eq x.1 y.1)

  pub pair_cmp_refl : (x : A × B) → pair_cmp x x ≡ Ordering.eq
  pair_cmp_refl x = ground (arith, oa.cmp-refl x.0, ob.cmp-refl x.1)

  first_swap_eq : (a b : A) → oa.cmp a b ≡ Ordering.eq → oa.cmp b a ≡ Ordering.eq
  first_swap_eq a b h = cc (oa.cmp-eq a b h, oa.cmp-refl a)

  pub pair_cmp-swap_lt : (x y : A × B) → pair_cmp x y ≡ Ordering.lt → pair_cmp y x ≡ Ordering.gt
  pair_cmp-swap_lt x y h =
      ground (arith, oa.cmp-swap_lt x.0 y.0, ob.cmp-swap_lt x.1 y.1, first_swap_eq x.0 y.0)

  pub pair_cmp-swap_gt : (x y : A × B) → pair_cmp x y ≡ Ordering.gt → pair_cmp y x ≡ Ordering.lt
  pair_cmp-swap_gt x y h =
      ground (arith, oa.cmp-swap_gt x.0 y.0, ob.cmp-swap_gt x.1 y.1, first_swap_eq x.0 y.0)

  pub pair_cmp_trans :
      (x y z : A × B)
      → pair_cmp x y ≡ Ordering.lt
      → pair_cmp y z ≡ Ordering.lt
      → pair_cmp x z ≡ Ordering.lt
  pair_cmp_trans x y z h k = ground (
    arith,
    oa.cmp_trans x.0 y.0 z.0,
    ob.cmp_trans x.1 y.1 z.1,
    oa.cmp-eq x.0 y.0,
    oa.cmp-eq y.0 z.0,
  )

  abbrev pub pair_ord : Ord (A × B)
  pair_ord = record {
    cmp = pair_cmp;
    cmp-eq = pair_cmp-eq;
    cmp-refl = pair_cmp_refl;
    cmp-swap_lt = pair_cmp-swap_lt;
    cmp-swap_gt = pair_cmp-swap_gt;
    cmp_trans = pair_cmp_trans;
  }

-- The order of the keys.
module _ {ℓ κ} {A : Type ℓ} {K : Type κ} (o : Ord K) (key : A → K)
    (injective : (a b : A) → key a ≡ key b → a ≡ b) where
  abbrev pub ord_by : Ord A
  ord_by = record {
    cmp = λ a b. o.cmp (key a) (key b);
    cmp-eq = λ a b h. injective a b (o.cmp-eq (key a) (key b) h);
    cmp-refl = λ a. o.cmp-refl (key a);
    cmp-swap_lt = λ a b. o.cmp-swap_lt (key a) (key b);
    cmp-swap_gt = λ a b. o.cmp-swap_gt (key a) (key b);
    cmp_trans = λ a b c. o.cmp_trans (key a) (key b) (key c);
  }

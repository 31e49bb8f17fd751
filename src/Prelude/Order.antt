-- ===== src/Prelude/Order.antt =====
-- `Ord` of the keys: a comparison and its laws, with the instances that the program derives.
use Prim.Native.Nat.{ℕ, compare, Ordering}
use mathlib.Core.Path.{◌≡◌, refl}
use mathlib.Core.Logic.{◌↔◌}
use mathlib.Core.Bool.{Bool, true, false}
use mathlib.Core.List.{[], ◌∷◌}
use native.Mathlib.Omega.{arith}
use openporch.Prelude.Text.{Str}

pub record Ord {ℓ} (K : Type ℓ) : Type ℓ where
  pub cmp : K → K → Ordering
  pub cmp-eq : (a b : K) → cmp a b ≡ Ordering.eq → a ≡ b
  pub cmp-refl : (a : K) → cmp a a ≡ Ordering.eq
  pub cmp-swap_lt : (a b : K) → cmp a b ≡ Ordering.lt → cmp b a ≡ Ordering.gt
  pub cmp-swap_gt : (a b : K) → cmp a b ≡ Ordering.gt → cmp b a ≡ Ordering.lt
  pub cmp_trans :
      (a b c : K) → cmp a b ≡ Ordering.lt → cmp b c ≡ Ordering.lt → cmp a c ≡ Ordering.lt

-- `Ordering::then`: the second comparison decides where the first is equal.
abbrev pub then_cmp : Ordering → Ordering → Ordering
then_cmp Ordering.eq o = o
then_cmp Ordering.lt o = Ordering.lt
then_cmp Ordering.gt o = Ordering.gt

abbrev pub is_eq : Ordering → Bool
is_eq Ordering.eq = true
is_eq _ = false

infix 50 ◌==◌
abbrev pub ◌==◌ {ℓ} : {K : Type ℓ} ⦃o : Ord K⦄ → K → K → Bool
◌==◌ ⦃o⦄ a b = is_eq (o.cmp a b)

module _ {ℓ} {K : Type ℓ} ⦃o : Ord K⦄ where
  is_eq→eq : (a b : K) (c : Ordering) → o.cmp a b ≡ c → is_eq c ≡ true → a ≡ b
  is_eq→eq a b Ordering.eq h k = o.cmp-eq a b h
  is_eq→eq a b Ordering.lt h k = cc
  is_eq→eq a b Ordering.gt h k = cc

  pub eq_iff : (a b : K) → ((a == b) ≡ true) ↔ (a ≡ b)
  eq_iff a b = (is_eq→eq a b (o.cmp a b) refl, λ e. rw (e, o.cmp-refl b) refl)

  pub eq_refl : (a : K) → (a == a) ≡ true
  eq_refl a = (eq_iff a a).1 refl

pub nat_cmp-eq : (a b : ℕ) → compare a b ≡ Ordering.eq → a ≡ b
nat_cmp-eq a b h = ground arith

pub nat_cmp_refl : (a : ℕ) → compare a a ≡ Ordering.eq
nat_cmp_refl a = ground arith

pub nat_cmp-swap_lt : (a b : ℕ) → compare a b ≡ Ordering.lt → compare b a ≡ Ordering.gt
nat_cmp-swap_lt a b h = ground arith

pub nat_cmp-swap_gt : (a b : ℕ) → compare a b ≡ Ordering.gt → compare b a ≡ Ordering.lt
nat_cmp-swap_gt a b h = ground arith

pub nat_cmp_trans :
    (a b c : ℕ) → compare a b ≡ Ordering.lt → compare b c ≡ Ordering.lt → compare a c ≡ Ordering.lt
nat_cmp_trans a b c h k = ground arith

instance abbrev pub nat_ord : Ord ℕ
nat_ord = record {
  cmp = compare;
  cmp-eq = nat_cmp-eq;
  cmp-refl = nat_cmp_refl;
  cmp-swap_lt = nat_cmp-swap_lt;
  cmp-swap_gt = nat_cmp-swap_gt;
  cmp_trans = nat_cmp_trans;
}

-- Bytewise, as `str` compares.
abbrev pub str_cmp : Str → Str → Ordering
str_cmp [] [] = Ordering.eq
str_cmp [] (y ∷ ys) = Ordering.lt
str_cmp (x ∷ xs) [] = Ordering.gt
str_cmp (x ∷ xs) (y ∷ ys) = then_cmp (compare x y) (str_cmp xs ys)

pub str_cmp-eq : (a b : Str) → str_cmp a b ≡ Ordering.eq → a ≡ b
str_cmp-eq [] [] h = refl
str_cmp-eq [] (y ∷ ys) h = cc
str_cmp-eq (x ∷ xs) [] h = cc
str_cmp-eq (x ∷ xs) (y ∷ ys) h = ground (arith, str_cmp-eq xs ys)

pub str_cmp_refl : (a : Str) → str_cmp a a ≡ Ordering.eq
str_cmp_refl [] = refl
str_cmp_refl (x ∷ xs) = ground (arith, str_cmp_refl xs)

pub str_cmp-swap_lt : (a b : Str) → str_cmp a b ≡ Ordering.lt → str_cmp b a ≡ Ordering.gt
str_cmp-swap_lt [] [] h = cc
str_cmp-swap_lt [] (y ∷ ys) h = refl
str_cmp-swap_lt (x ∷ xs) [] h = cc
str_cmp-swap_lt (x ∷ xs) (y ∷ ys) h = ground (arith, str_cmp-swap_lt xs ys)

pub str_cmp-swap_gt : (a b : Str) → str_cmp a b ≡ Ordering.gt → str_cmp b a ≡ Ordering.lt
str_cmp-swap_gt [] [] h = cc
str_cmp-swap_gt [] (y ∷ ys) h = cc
str_cmp-swap_gt (x ∷ xs) [] h = refl
str_cmp-swap_gt (x ∷ xs) (y ∷ ys) h = ground (arith, str_cmp-swap_gt xs ys)

pub str_cmp_trans :
    (a b c : Str)
    → str_cmp a b ≡ Ordering.lt
    → str_cmp b c ≡ Ordering.lt
    → str_cmp a c ≡ Ordering.lt
str_cmp_trans [] [] c h k = cc
str_cmp_trans [] (y ∷ ys) [] h k = cc
str_cmp_trans [] (y ∷ ys) (z ∷ zs) h k = refl
str_cmp_trans (x ∷ xs) [] c h k = cc
str_cmp_trans (x ∷ xs) (y ∷ ys) [] h k = cc
str_cmp_trans (x ∷ xs) (y ∷ ys) (z ∷ zs) h k = ground (arith, str_cmp_trans xs ys zs)

pub str_cmp-swap_eq : (a b : Str) → str_cmp a b ≡ Ordering.eq → str_cmp b a ≡ Ordering.eq
str_cmp-swap_eq a b h = cc (str_cmp-eq a b h, str_cmp_refl a)

instance abbrev pub str_ord : Ord Str
str_ord = record {
  cmp = str_cmp;
  cmp-eq = str_cmp-eq;
  cmp-refl = str_cmp_refl;
  cmp-swap_lt = str_cmp-swap_lt;
  cmp-swap_gt = str_cmp-swap_gt;
  cmp_trans = str_cmp_trans;
}

-- ===== src/BTreeMap/Equal.antt =====
-- The derived equality of maps and options, from equality of what they hold.
use openporch.Prelude.{
  Bool, true, false, Option, none, some, [], ◌∷◌, ◌≡◌, refl, ap, subst, arith, ◌&&◌, ◌↔◌, and_left,
  and_right,
}
use openporch.Prelude.Order.{Ord, ◌==◌, eq_iff, eq_refl}
use openporch.BTreeMap.Defs.{BTreeMap}

-- A test that decides equality.
abbrev pub Decides {ℓ} : {A : Type ℓ} → (A → A → Bool) → Type ℓ
Decides {A = A} eq = (a b : A) → (eq a b ≡ true) ↔ (a ≡ b)

-- `==` of options.
abbrev pub option_eq {ℓ} : {A : Type ℓ} → (A → A → Bool) → Option A → Option A → Bool
option_eq eq none none = true
option_eq eq (some a) (some b) = eq a b
option_eq eq none (some b) = false
option_eq eq (some a) none = false

pub option_eq-Decides {ℓ} : {A : Type ℓ} (eq : A → A → Bool) → Decides eq → Decides (option_eq eq)
option_eq-Decides eq d none none = (λ h. refl, λ h. refl)
option_eq-Decides eq d (some a) (some b) = (λ h. ap some ((d a b).0 h), λ h. (d a b).1 (cc))
option_eq-Decides eq d none (some b) = (λ h. cc, λ h. cc)
option_eq-Decides eq d (some a) none = (λ h. cc, λ h. cc)

module _ {ℓ κ} {K : Type ℓ} {V : Type κ} ⦃o : Ord K⦄ (eq : V → V → Bool) where
  -- `==` of maps: the same entries in the same order.
  abbrev pub map_eq : BTreeMap K V → BTreeMap K V → Bool
  map_eq [] [] = true
  map_eq ((k, v) ∷ m) ((j, w) ∷ n) = k == j && eq v w && map_eq m n
  map_eq [] (e ∷ n) = false
  map_eq (e ∷ m) [] = false

  map_eq_sound : Decides eq → (m n : BTreeMap K V) → map_eq m n ≡ true → m ≡ n
  map_eq_sound d [] [] h = refl
  map_eq_sound d ((k, v) ∷ m) ((j, w) ∷ n) h =
      let keys_and_values = and_left _ _ h in
      let e = (eq_iff k j).0 (and_left _ _ keys_and_values) in
      let f = (d v w).0 (and_right _ _ keys_and_values) in
      let g = map_eq_sound d m n (and_right _ _ h) in λ i. (e i, f i) ∷ g i
  map_eq_sound d [] (e ∷ n) h = cc
  map_eq_sound d (e ∷ m) [] h = cc

  map_eq_refl : Decides eq → (m : BTreeMap K V) → map_eq m m ≡ true
  map_eq_refl d [] = refl
  map_eq_refl d ((k, v) ∷ m) = ground (arith, eq_refl k, (d v v).1 refl, map_eq_refl d m)

  pub map_eq-Decides : Decides eq → Decides map_eq
  map_eq-Decides d m n =
      (map_eq_sound d m n, λ e. subst (λ x. map_eq m x ≡ true) e (map_eq_refl d m))

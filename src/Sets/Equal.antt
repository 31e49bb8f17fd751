-- ===== src/Sets/Equal.antt =====
-- The derived equalities of sets.rs decide equality.
use openporch.Prelude.{Bool, true, ◌&&◌, ◌≡◌, refl, and_left, and_right, subst}
use openporch.Prelude.Order.{◌==◌, eq_iff, eq_refl, str_ord}
use openporch.BTreeMap.Equal.{Decides, option_eq-Decides, map_eq-Decides}
use openporch.Sets.Types.{external_eq, module_eq, shared_resource_eq}

-- A conjunction of tests that all hold, from the left.
three : (a b c : Bool) → (a && b && c) ≡ true → (a ≡ true) × (b ≡ true) × (c ≡ true)
three a b c h =
    (and_left a b (and_left _ c h), and_right a b (and_left _ c h), and_right (a && b) c h)

both : (a b : Bool) → a ≡ true → b ≡ true → (a && b) ≡ true
both a b h k = cc

of_three : (a b c : Bool) → a ≡ true → b ≡ true → c ≡ true → (a && b && c) ≡ true
of_three a b c h k l = cc

module _ {ℓ} {V : Type ℓ} (eq : V → V → Bool) (d : Decides eq) where
  external_eq-Decides : Decides (external_eq eq)
  unfolding external_eq
  external_eq-Decides a b = (
    λ h.
        let (t, c, i) = three _ _ _ (and_left _ _ h) in
        let t' = (eq_iff a.ty b.ty).0 t in
        let c' = (eq_iff a.class b.class).0 c in
        let i' = (option_eq-Decides ◌==◌ eq_iff a.id b.id).0 i in
        let p' = (option_eq-Decides eq d a.params b.params).0 (and_right _ _ h) in
        λ j. record { ty = t' j; class = c' j; id = i' j; params = p' j },
    λ e.
        subst (λ x. external_eq eq a x ≡ true) e
          (both _ _
            (of_three _ _ _ (eq_refl a.ty) (eq_refl a.class)
              ((option_eq-Decides ◌==◌ eq_iff a.id a.id).1 refl))
            ((option_eq-Decides eq d a.params a.params).1 refl)),
  )

  pub module_eq-Decides : Decides (module_eq eq)
  unfolding module_eq
  module_eq-Decides a b = (
    λ h.
        let (c, s, x) = three _ _ _ h in
        let c' = (eq_iff a.class b.class).0 c in
        let s' = (map_eq-Decides eq d a.spec b.spec).0 s in
        let x' =
          (map_eq-Decides (external_eq eq) external_eq-Decides a.externals b.externals).0 x in
        λ j. record { class = c' j; spec = s' j; externals = x' j },
    λ e.
        subst (λ x. module_eq eq a x ≡ true) e
          (of_three _ _ _ (eq_refl a.class) ((map_eq-Decides eq d a.spec a.spec).1 refl)
            ((map_eq-Decides (external_eq eq) external_eq-Decides a.externals a.externals).1 refl)),
  )

  pub shared_resource_eq-Decides : Decides (shared_resource_eq eq)
  unfolding shared_resource_eq
  shared_resource_eq-Decides a b = (
    λ h.
        let (t, c, p) = three _ _ _ h in
        let t' = (eq_iff a.ty b.ty).0 t in
        let c' = (eq_iff a.class b.class).0 c in
        let p' = (option_eq-Decides eq d a.params b.params).0 p in
        λ j. record { ty = t' j; class = c' j; params = p' j },
    λ e.
        subst (λ x. shared_resource_eq eq a x ≡ true) e
          (of_three _ _ _ (eq_refl a.ty) (eq_refl a.class)
            ((option_eq-Decides eq d a.params a.params).1 refl)),
  )

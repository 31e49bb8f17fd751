-- ===== src/Criteria/Selected.antt =====
-- The pass of `select_definition` over the definitions keeps those of greatest weight.
use openporch.Prelude.{
  ℕ, ◌<◌, ◌≡◌, ◌≢◌, ◌⊎◌, inl, inr, refl, ap, ◌∙◌, true, false, Option, none, some, List, [], ◌∷◌,
  ◌++◌, arith, All, Bool-cases, ltb, is_nil, nat_beq, nat_beq_iff, ltb→lt, ◌||◌,
}
use openporch.Model.{ResourceContext, ResourceDefinition}
use openporch.Criteria.Weight.{definition_weight}
use openporch.Criteria.Select.{Best, weigh_in, scan, scanned}
use openporch.Criteria.Winners.{
  Below, IsBest, IsBest-first, IsBest-skip, IsBest-new, IsBest-tie, All-Below_of_none,
  All-Below_of_lt,
}
use mathlib.Core.List.{append-nil, append_assoc}

module _ {ℓ} {A : Type ℓ} where
  heavier_cases : (l : List A) (v w : ℕ) → (is_nil l || ltb v w) ≡ true → (l ≡ []) ⊎ (v < w)
  heavier_cases [] v w h = inl refl
  heavier_cases (x ∷ l) v w h = inr (ltb→lt v w h)

  lighter : (l : List A) (v w : ℕ) → (is_nil l || ltb v w) ≡ false → nat_beq w v ≡ false → w < v
  lighter [] v w h k = cc
  lighter (x ∷ l) v w h k = ground arith

  not_nil : (l : List A) (v w : ℕ) → (is_nil l || ltb v w) ≡ false → l ≢ []
  not_nil [] v w h e = cc
  not_nil (x ∷ l) v w h e = cc

module _ {ℓ} {Value : Type ℓ} (ctx : ResourceContext) where
  abbrev pub weight_in : ResourceDefinition Value → Option ℕ
  weight_in d = definition_weight d ctx

  All-Below :
      (pre : List (ResourceDefinition Value)) (b : Best Value) (w : ℕ)
      → IsBest weight_in pre b.best_weight b.best
      → (is_nil b.best || ltb b.best_weight w) ≡ true
      → All (λ e. Below w (weight_in e)) pre
  All-Below pre b w h t = elim (heavier_cases b.best b.best_weight w t) [
    | inl e ↦ All-Below_of_none weight_in w pre (h.none_of_nil e)
    | inr l ↦ All-Below_of_lt weight_in b.best_weight w pre l h.upper
  ]

  weigh_in-IsBest :
      (pre : List (ResourceDefinition Value)) (d : ResourceDefinition Value) (b : Best Value)
      (w : Option ℕ)
      → weight_in d ≡ w
      → IsBest weight_in pre b.best_weight b.best
      → IsBest weight_in (pre ++ d ∷ []) (weigh_in d w b).best_weight (weigh_in d w b).best
  unfolding weigh_in
  weigh_in-IsBest pre d b none e h =
      IsBest-skip weight_in pre b.best_weight b.best d h (rw e tt) (λ q. e)
  weigh_in-IsBest pre d b (some w) e h = elim (Bool-cases (is_nil b.best || ltb b.best_weight w)) [
    | inl heavier ↦ rw heavier (IsBest-new weight_in pre w d (All-Below pre b w h heavier) e)
    | inr not_heavier ↦ elim (Bool-cases (nat_beq w b.best_weight)) [
      | inl same ↦
          rw (not_heavier, same)
            (IsBest-tie weight_in pre b.best_weight b.best d h
              (e ∙ ap some ((nat_beq_iff w _).0 same)))
      | inr less ↦
          rw (not_heavier, less)
            (IsBest-skip weight_in pre b.best_weight b.best d h
              (rw e (lighter b.best b.best_weight w not_heavier less))
              (λ q. absurd (not_nil b.best b.best_weight w not_heavier q)))
    ]
  ]

  scan-IsBest :
      (pre defs : List (ResourceDefinition Value)) (b : Best Value)
      → IsBest weight_in pre b.best_weight b.best
      → IsBest weight_in (pre ++ defs) (scan ctx defs b).best_weight (scan ctx defs b).best
  unfolding scan
  scan-IsBest pre [] b h = rw append-nil h
  scan-IsBest pre (d ∷ defs) b h = rw (append_assoc pre (d ∷ []) defs) at (
      scan-IsBest (pre ++ d ∷ []) defs (weigh_in d (weight_in d) b)
        (weigh_in-IsBest pre d b (weight_in d) refl h))

  pub scanned-IsBest :
      (defs : List (ResourceDefinition Value))
      → IsBest weight_in defs (scanned ctx defs).best_weight (scanned ctx defs).best
  unfolding scanned
  scanned-IsBest defs =
      scan-IsBest [] defs (record { best = []; best_weight = 0 }) (IsBest-first weight_in)

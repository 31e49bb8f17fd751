-- ===== src/Criteria/Outcome.antt =====
-- What `select_definition` returns, on each of its three ways out, and that the order of the
-- definitions does not matter.
use mathlib.Core.List.{Permᴰ}
use mathlib.Core.List.Permᴰ
use openporch.Prelude.{
  ℕ, ◌<◌, ◌≡◌, ◌≢◌, ◌↔◌, ◌⊎◌, inl, inr, refl, ap, sym, ◌∙◌, none, List, [], ◌∷◌, map, arith, All,
  length,
}
use openporch.Prelude.Result.{ok, err}
use openporch.Prelude.Sort.{sort, sort-perm}
use openporch.Prelude.Order.{str_ord}
use openporch.Ids.{DefinitionId}
use openporch.Model.{ResourceContext, ResourceDefinition}
use openporch.Criteria.Weight.{definition_weight}
use openporch.Ids.Types.{descriptor_to_string}
use openporch.Criteria.Select.{scanned, conclude, select_definition, no_match, ambiguous}
use openporch.Criteria.Winners.{
  AtMost, winners, IsBest, IsBest-weight, IsBest-best, winners-nil_of_none, winners-perm, All-perm,
  nil_of_perm,
}
use openporch.Criteria.Unique.{IsUnique, IsUnique-winners, IsUnique-upper, IsUnique-of_winners}
use openporch.Criteria.Selected.{weight_in, scanned-IsBest}

nil-cases {ℓ} : {A : Type ℓ} (l : List A) → (l ≡ []) ⊎ (l ≢ [])
nil-cases [] = inl refl
nil-cases (x ∷ l) = inr (λ e. cc)

module _ {ℓ} {Value : Type ℓ} where
  conclude-eq_ok :
      (ctx : ResourceContext) (w : ℕ) (l : List (ResourceDefinition Value))
      (d : ResourceDefinition Value)
      → conclude ctx w l ≡ ok d
      → l ≡ d ∷ []
  unfolding conclude
  conclude-eq_ok ctx w [] d h = cc
  conclude-eq_ok ctx w (x ∷ []) d h = cc
  conclude-eq_ok ctx w (x ∷ y ∷ l) d h = cc

  conclude-eq_no_match :
      (ctx c : ResourceContext) (w : ℕ) (l : List (ResourceDefinition Value))
      → conclude ctx w l ≡ err (no_match c)
      → (l ≡ []) × (c ≡ ctx)
  unfolding conclude
  conclude-eq_no_match ctx c w [] h = (refl, cc)
  conclude-eq_no_match ctx c w (x ∷ []) h = absurd (cc)
  conclude-eq_no_match ctx c w (x ∷ y ∷ l) h = absurd (cc)

  abbrev ids : List (ResourceDefinition Value) → List DefinitionId
  ids l = map (λ x. x.id) l

  conclude-eq_ambiguous :
      (ctx : ResourceContext) (w : ℕ) (l : List (ResourceDefinition Value)) (s : List ℕ)
      (ds : List DefinitionId) (v : ℕ)
      → conclude ctx w l ≡ err (ambiguous s ds v)
      → (1 < length l) × (v ≡ w) × (ds ≡ sort (ids l)) × (s ≡ descriptor_to_string ctx.res)
  unfolding conclude
  conclude-eq_ambiguous ctx w [] s ds v h = absurd (cc)
  conclude-eq_ambiguous ctx w (x ∷ []) s ds v h = absurd (cc)
  conclude-eq_ambiguous ctx w (x ∷ y ∷ l) s ds v h = (omega arith, cc, cc, cc)

  conclude_of_two :
      (ctx : ResourceContext) (w : ℕ) (l : List (ResourceDefinition Value))
      → 1 < length l
      → conclude ctx w l ≡ err (ambiguous (descriptor_to_string ctx.res) (sort (ids l)) w)
  unfolding conclude
  conclude_of_two ctx w [] h = absurd (omega arith)
  conclude_of_two ctx w (x ∷ []) h = absurd (omega arith)
  conclude_of_two ctx w (x ∷ y ∷ l) h = refl

  singleton_of_perm :
      {l m : List (ResourceDefinition Value)} (d : ResourceDefinition Value)
      → Permᴰ l m
      → l ≡ d ∷ []
      → m ≡ d ∷ []
  singleton_of_perm d Permᴰ.nil e = e
  singleton_of_perm d (Permᴰ.cons f p) e = cc (nil_of_perm p (cc))
  singleton_of_perm d (Permᴰ.swap f g) e = absurd (cc)
  singleton_of_perm d (Permᴰ.trans p q) e = singleton_of_perm d q (singleton_of_perm d p e)

  ids-perm : {l m : List (ResourceDefinition Value)} → Permᴰ l m → Permᴰ (ids l) (ids m)
  ids-perm Permᴰ.nil = Permᴰ.nil
  ids-perm (Permᴰ.cons e p) = Permᴰ.cons (ap (λ x. x.id) e) (ids-perm p)
  ids-perm (Permᴰ.swap e f) = Permᴰ.swap (ap (λ x. x.id) e) (ap (λ x. x.id) f)
  ids-perm (Permᴰ.trans p q) = Permᴰ.trans (ids-perm p) (ids-perm q)

  conclude-perm :
      (ctx : ResourceContext) (w : ℕ) (l m : List (ResourceDefinition Value))
      → Permᴰ l m
      → conclude ctx w l ≡ conclude ctx w m
  conclude-perm ctx w [] m p = ap (conclude ctx w) (sym (nil_of_perm p refl))
  conclude-perm ctx w (x ∷ []) m p = ap (conclude ctx w) (sym (singleton_of_perm x p refl))
  conclude-perm ctx w (x ∷ y ∷ l) [] p = absurd (cc (nil_of_perm (Permᴰ.symm p) refl))
  conclude-perm ctx w (x ∷ y ∷ l) (z ∷ []) p = absurd (cc (singleton_of_perm z (Permᴰ.symm p) refl))
  conclude-perm ctx w (x ∷ y ∷ l) (z ∷ t ∷ m) p =
      conclude_of_two ctx w (x ∷ y ∷ l) (omega arith)
      ∙ ap (λ ds. err (ambiguous (descriptor_to_string ctx.res) ds w)) (sort-perm (ids-perm p))
      ∙ sym (conclude_of_two ctx w (z ∷ t ∷ m) (omega arith))

  -- The weight of the pass is the greatest, so any weight that is attained and not passed is it.
  select_by_weight :
      (defs : List (ResourceDefinition Value)) (ctx : ResourceContext) (w : ℕ)
      → All (λ x. AtMost w (weight_in ctx x)) defs
      → winners (weight_in ctx) w defs ≢ []
      → select_definition defs ctx ≡ conclude ctx w (winners (weight_in ctx) w defs)
  unfolding select_definition
  select_by_weight defs ctx w a n =
      let b = scanned-IsBest ctx defs in
      rw (IsBest-best (weight_in ctx) defs w _ _ b a n)
        (rw (IsBest-weight (weight_in ctx) defs w _ _ b a n) refl)

  select_of_none :
      (defs : List (ResourceDefinition Value)) (ctx : ResourceContext)
      → All (λ x. weight_in ctx x ≡ none) defs
      → select_definition defs ctx ≡ err (no_match ctx)
  unfolding select_definition
  select_of_none defs ctx n =
      ap (conclude ctx (scanned ctx defs).best_weight)
        ((scanned-IsBest ctx defs).best_eq ∙ winners-nil_of_none (weight_in ctx) _ defs n)

  -- A definition is selected exactly when it stands in the list at a place where it matches the
  -- context with some weight, and every definition before it and after it either does not match
  -- or matches with a smaller weight.
  pub select_definition-eq_ok :
      (defs : List (ResourceDefinition Value)) (ctx : ResourceContext)
      (d : ResourceDefinition Value)
      → (select_definition defs ctx ≡ ok d)
        ↔ ((w : ℕ) × IsUnique (λ x. definition_weight x ctx) defs d w)
  unfolding select_definition
  select_definition-eq_ok defs ctx d =
      let b = scanned-IsBest ctx defs in
      (
        λ h. (
          (scanned ctx defs).best_weight,
          IsUnique-of_winners (weight_in ctx) _ defs d b.upper
              (sym b.best_eq ∙ conclude-eq_ok ctx _ _ d h),
        ),
        λ (w, u).
            let alone = IsUnique-winners (weight_in ctx) defs d w u in
            select_by_weight defs ctx w (IsUnique-upper (weight_in ctx) defs d w u) (λ e. cc alone)
            ∙ ap (conclude ctx w) alone,
      )

  -- No definition is found exactly when none matches the context, and the error holds that
  -- context.
  pub select_definition-eq_no_match :
      (defs : List (ResourceDefinition Value)) (ctx c : ResourceContext)
      → (select_definition defs ctx ≡ err (no_match c))
        ↔ All (λ x. definition_weight x ctx ≡ none) defs × (c ≡ ctx)
  unfolding select_definition
  select_definition-eq_no_match defs ctx c =
      let b = scanned-IsBest ctx defs in
      (
        λ h. let (e, q) = conclude-eq_no_match ctx c _ _ h in (b.none_of_nil e, q),
        λ (n, q). select_of_none defs ctx n ∙ ap (λ x. err (no_match x)) (sym q),
      )

  -- The error names a tie exactly when at least two definitions match with the reported weight,
  -- none matches with a greater one, and the reported IDs are those of all the definitions of
  -- that weight, sorted.
  pub select_definition-eq_ambiguous :
      (defs : List (ResourceDefinition Value)) (ctx : ResourceContext) (s : List ℕ)
      (ds : List DefinitionId) (w : ℕ)
      → (select_definition defs ctx ≡ err (ambiguous s ds w))
        ↔ (1 < length (winners (λ x. definition_weight x ctx) w defs))
          × All (λ x. AtMost w (definition_weight x ctx)) defs
          × (ds ≡ sort (map (λ x. x.id) (winners (λ x. definition_weight x ctx) w defs)))
          × (s ≡ descriptor_to_string ctx.res)
  unfolding select_definition
  select_definition-eq_ambiguous defs ctx s ds w =
      let b = scanned-IsBest ctx defs in
      (
        λ h.
            let (two, same, sorted, named) = conclude-eq_ambiguous ctx _ _ s ds w h in
            rw same (rw (← b.best_eq) (two, b.upper, sorted, named)),
        λ (two, upper, sorted, named).
            select_by_weight defs ctx w upper (λ e. omega (arith, ap length e))
            ∙ conclude_of_two ctx w _ two
            ∙ cc,
      )

  -- The outcome does not depend on the order in which the definitions are given.
  pub select_definition-perm :
      (defs others : List (ResourceDefinition Value)) (ctx : ResourceContext)
      → Permᴰ defs others
      → select_definition defs ctx ≡ select_definition others ctx
  select_definition-perm defs others ctx p = elim (nil-cases (winners (weight_in ctx) w defs)) [
    | inl e ↦
        let n = b.none_of_nil (b.best_eq ∙ e) in
        select_of_none defs ctx n
        ∙ sym
            (select_of_none others ctx (All-perm (weight_in ctx) (λ x. weight_in ctx x ≡ none) p n))
    | inr n ↦
        select_by_weight defs ctx w b.upper n
        ∙ conclude-perm ctx w _ _ moved
        ∙ sym (
            select_by_weight others ctx w
              (All-perm (weight_in ctx) (λ x. AtMost w (weight_in ctx x)) p b.upper)
              (λ e. n (nil_of_perm (Permᴰ.symm moved) e)))
  ]
    where
      w : ℕ
      w = (scanned ctx defs).best_weight

      b : IsBest (weight_in ctx) defs w (scanned ctx defs).best
      b = scanned-IsBest ctx defs

      moved : Permᴰ (winners (weight_in ctx) w defs) (winners (weight_in ctx) w others)
      moved = winners-perm (weight_in ctx) w p

-- ===== src/Criteria/Unique.antt =====
-- One item alone of the greatest weight, and where it stands in the list.
use openporch.Prelude.{
  ℕ, ◌≡◌, ◌⊎◌, inl, inr, ap, sym, subst, ◌∙◌, Option, none, some, List, [], ◌∷◌, ◌++◌, arith, All,
  All-append,
}
use openporch.Criteria.Winners.{
  AtMost, Below, winners, winners-append, winners-nil_of_Below, winners_self, AtMost-self,
  All-AtMost, Below-of_winners-nil,
}

module _ {ℓ} {D : Type ℓ} (wt : D → Option ℕ) where
  pub record IsUnique (xs : List D) (d : D) (weight : ℕ) : Type ℓ where
    pub before : List D
    pub after : List D
    pub split : xs ≡ before ++ d ∷ after
    pub weighs : wt d ≡ some weight
    pub before_below : All (λ e. Below weight (wt e)) before
    pub after_below : All (λ e. Below weight (wt e)) after

  pub IsUnique-winners : (xs : List D) (d : D) (w : ℕ) → IsUnique xs d w → winners wt w xs ≡ d ∷ []
  IsUnique-winners xs d w u =
      ap (winners wt w) u.split
      ∙ winners-append wt w u.before (d ∷ u.after)
      ∙ ap (λ l. l ++ winners wt w (d ∷ u.after))
          (winners-nil_of_Below wt w u.before u.before_below)
      ∙ winners-append wt w (d ∷ []) u.after
      ∙ ap (λ l. l ++ winners wt w u.after) (winners_self wt w d u.weighs)
      ∙ ap (λ l. d ∷ l) (winners-nil_of_Below wt w u.after u.after_below)

  pub IsUnique-upper :
      (xs : List D) (d : D) (w : ℕ) → IsUnique xs d w → All (λ e. AtMost w (wt e)) xs
  IsUnique-upper xs d w u = subst (All (λ e. AtMost w (wt e))) (sym u.split) (
      All-append (λ e. AtMost w (wt e)) u.before (d ∷ u.after)
        (All-AtMost wt w u.before u.before_below)
        (AtMost-self wt w (wt d) u.weighs, All-AtMost wt w u.after u.after_below))

  IsUnique-cons :
      (x : D) (xs : List D) (d : D) (w : ℕ)
      → Below w (wt x)
      → IsUnique xs d w
      → IsUnique (x ∷ xs) d w
  IsUnique-cons x xs d w b u = record {
    before = x ∷ u.before;
    after = u.after;
    split = ap (λ l. x ∷ l) u.split;
    weighs = u.weighs;
    before_below = (b, u.before_below);
    after_below = u.after_below;
  }

  weight_cases : (w : ℕ) (o : Option ℕ) → AtMost w o → (o ≡ some w) ⊎ Below w o
  weight_cases w none a = inr tt
  weight_cases w (some v) a = ground arith

  pub IsUnique-of_winners :
      (w : ℕ) (xs : List D) (d : D)
      → All (λ e. AtMost w (wt e)) xs
      → winners wt w xs ≡ d ∷ []
      → IsUnique xs d w
  IsUnique-of_winners w [] d a e = absurd (cc)
  IsUnique-of_winners w (x ∷ xs) d a e = elim (weight_cases w (wt x) a.0) [
    | inl weighs ↦
        let head : x ∷ winners wt w xs ≡ d ∷ [] =
          ap (λ l. l ++ winners wt w xs) (sym (winners_self wt w x weighs))
          ∙ sym (winners-append wt w (x ∷ []) xs)
          ∙ e in
        let x_is_d : x ≡ d = cc in
        record {
          before = [];
          after = xs;
          split = ap (λ y. y ∷ xs) x_is_d;
          weighs = ap wt (sym x_is_d) ∙ weighs;
          before_below = tt;
          after_below = Below-of_winners-nil wt w xs a.1 (cc);
        }
    | inr below ↦ IsUnique-cons x xs d w below (
        IsUnique-of_winners w xs d a.1 (
          ap (λ l. l ++ winners wt w xs) (sym (winners-nil_of_Below wt w (x ∷ []) (below, tt)))
          ∙ sym (winners-append wt w (x ∷ []) xs)
          ∙ e))
  ]

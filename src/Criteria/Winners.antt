-- ===== src/Criteria/Winners.antt =====
-- The items of greatest weight, over any way to weigh them: what `select_definition` computes in
-- one pass, said in two.
use openporch.Prelude.{
  ℕ, ◌≤◌, ◌<◌, ◌≡◌, ◌≢◌, refl, ap, sym, subst, ◌∙◌, All-append, Bool, true, false, Option, none,
  some, List, [], ◌∷◌, ◌++◌, arith, nat_beq, keep, cons_if, All,
}
use mathlib.Core.List.{Permᴰ, append-nil}
use mathlib.Core.List.Permᴰ

abbrev pub has_weight : ℕ → Option ℕ → Bool
has_weight w none = false
has_weight w (some v) = nat_beq v w

abbrev pub AtMost : ℕ → Option ℕ → Type 0
AtMost w none = Unit
AtMost w (some v) = v ≤ w

abbrev pub Below : ℕ → Option ℕ → Type 0
Below w none = Unit
Below w (some v) = v < w

module _ {ℓ} {D : Type ℓ} where
  cons_if-perm :
      (b c : Bool) (x y : D) {l m : List D}
      → b ≡ c
      → x ≡ y
      → Permᴰ l m
      → Permᴰ (cons_if b x l) (cons_if c y m)
  cons_if-perm true true x y e f p = Permᴰ.cons f p
  cons_if-perm false false x y e f p = p
  cons_if-perm true false x y e f p = cc
  cons_if-perm false true x y e f p = cc

  cons_if-swap_perm :
      (b c : Bool) (x y : D) (l : List D)
      → Permᴰ (cons_if b x (cons_if c y l)) (cons_if c y (cons_if b x l))
  cons_if-swap_perm true true x y l = Permᴰ.swap refl refl
  cons_if-swap_perm true false x y l = Permᴰ.refl _
  cons_if-swap_perm false c x y l = Permᴰ.refl _

  snoc-ne-nil : (l : List D) (d : D) → l ++ d ∷ [] ≢ []
  snoc-ne-nil [] d e = cc
  snoc-ne-nil (x ∷ l) d e = cc

  pub nil_of_perm : {l m : List D} → Permᴰ l m → l ≡ [] → m ≡ []
  nil_of_perm Permᴰ.nil e = refl
  nil_of_perm (Permᴰ.cons f p) e = cc
  nil_of_perm (Permᴰ.swap f g) e = cc
  nil_of_perm (Permᴰ.trans p q) e = nil_of_perm q (nil_of_perm p e)

module _ {ℓ} {D : Type ℓ} (wt : D → Option ℕ) where
  abbrev pub winners : ℕ → List D → List D
  winners w = keep (λ d. has_weight w (wt d))

  pub winners-append :
      (w : ℕ) (xs ys : List D) → winners w (xs ++ ys) ≡ winners w xs ++ winners w ys
  winners-append w [] ys = refl
  winners-append w (x ∷ xs) ys = ground (arith, winners-append w xs ys)

  pub winners-nil_of_Below :
      (w : ℕ) (xs : List D) → All (λ d. Below w (wt d)) xs → winners w xs ≡ []
  winners-nil_of_Below w [] h = refl
  winners-nil_of_Below w (x ∷ xs) h = ground (arith, winners-nil_of_Below w xs)

  pub winners-nil_of_none : (w : ℕ) (xs : List D) → All (λ d. wt d ≡ none) xs → winners w xs ≡ []
  winners-nil_of_none w [] h = refl
  winners-nil_of_none w (x ∷ xs) h = ground (arith, winners-nil_of_none w xs)

  pub Below-of_winners-nil :
      (w : ℕ) (xs : List D)
      → All (λ d. AtMost w (wt d)) xs
      → winners w xs ≡ []
      → All (λ d. Below w (wt d)) xs
  Below-of_winners-nil w [] h e = tt
  Below-of_winners-nil w (x ∷ xs) h e = ground (arith, Below-of_winners-nil w xs h.1)

  pub winners_self : (w : ℕ) (d : D) → wt d ≡ some w → winners w (d ∷ []) ≡ d ∷ []
  winners_self w d e = ground arith

  AtMost-of_Below : (w : ℕ) (o : Option ℕ) → Below w o → AtMost w o
  AtMost-of_Below w none h = tt
  AtMost-of_Below w (some v) h = omega arith

  pub AtMost-self : (w : ℕ) (o : Option ℕ) → o ≡ some w → AtMost w o
  AtMost-self w none e = tt
  AtMost-self w (some v) e = ground arith

  pub All-AtMost :
      (w : ℕ) (xs : List D) → All (λ e. Below w (wt e)) xs → All (λ e. AtMost w (wt e)) xs
  All-AtMost w [] h = tt
  All-AtMost w (x ∷ xs) h = (AtMost-of_Below w (wt x) h.0, All-AtMost w xs h.1)

  -- The one pass's state, when it has read `xs`.
  pub record IsBest (xs : List D) (w : ℕ) (best : List D) : Type ℓ where
    pub best_eq : best ≡ winners w xs
    pub upper : All (λ d. AtMost w (wt d)) xs
    pub none_of_nil : best ≡ [] → All (λ d. wt d ≡ none) xs

  pub IsBest-first : IsBest [] 0 []
  IsBest-first = record { best_eq = refl; upper = tt; none_of_nil = λ e. tt }

  -- An item that does not reach the weight changes nothing.
  pub IsBest-skip :
      (xs : List D) (w : ℕ) (best : List D) (d : D)
      → IsBest xs w best
      → Below w (wt d)
      → (best ≡ [] → wt d ≡ none)
      → IsBest (xs ++ d ∷ []) w best
  IsBest-skip xs w best d h b n = record {
    best_eq =
        h.best_eq
        ∙ sym (append-nil (winners w xs))
        ∙ ap (λ l. winners w xs ++ l) (sym (winners-nil_of_Below w (d ∷ []) (b, tt)))
        ∙ sym (winners-append w xs (d ∷ []));
    upper = All-append (λ e. AtMost w (wt e)) xs (d ∷ []) h.upper (AtMost-of_Below w (wt d) b, tt);
    none_of_nil = λ e. All-append (λ x. wt x ≡ none) xs (d ∷ []) (h.none_of_nil e) (n e, tt);
  }

  Below-of_none : (w : ℕ) (o : Option ℕ) → o ≡ none → Below w o
  Below-of_none w none e = tt
  Below-of_none w (some v) e = cc

  Below-of_AtMost : (v w : ℕ) (o : Option ℕ) → v < w → AtMost v o → Below w o
  Below-of_AtMost v w none h a = tt
  Below-of_AtMost v w (some u) h a = omega arith

  pub All-Below_of_none :
      (w : ℕ) (xs : List D) → All (λ e. wt e ≡ none) xs → All (λ e. Below w (wt e)) xs
  All-Below_of_none w [] h = tt
  All-Below_of_none w (x ∷ xs) h = (Below-of_none w (wt x) h.0, All-Below_of_none w xs h.1)

  pub All-Below_of_lt :
      (v w : ℕ) (xs : List D) → v < w → All (λ e. AtMost v (wt e)) xs → All (λ e. Below w (wt e)) xs
  All-Below_of_lt v w [] l h = tt
  All-Below_of_lt v w (x ∷ xs) l h =
      (Below-of_AtMost v w (wt x) l h.0, All-Below_of_lt v w xs l h.1)

  -- A heavier item starts over.
  pub IsBest-new :
      (xs : List D) (w : ℕ) (d : D)
      → All (λ e. Below w (wt e)) xs
      → wt d ≡ some w
      → IsBest (xs ++ d ∷ []) w (d ∷ [])
  IsBest-new xs w d b e = record {
    best_eq =
        sym (winners_self w d e)
        ∙ ap (λ l. l ++ winners w (d ∷ [])) (sym (winners-nil_of_Below w xs b))
        ∙ sym (winners-append w xs (d ∷ []));
    upper =
        All-append (λ x. AtMost w (wt x)) xs (d ∷ []) (All-AtMost w xs b)
          (AtMost-self w (wt d) e, tt);
    none_of_nil = λ q. cc;
  }

  -- An item of the same weight joins.
  pub IsBest-tie :
      (xs : List D) (w : ℕ) (best : List D) (d : D)
      → IsBest xs w best
      → wt d ≡ some w
      → IsBest (xs ++ d ∷ []) w (best ++ d ∷ [])
  IsBest-tie xs w best d h e = record {
    best_eq =
        ap (λ l. l ++ d ∷ []) h.best_eq
        ∙ ap (λ l. winners w xs ++ l) (sym (winners_self w d e))
        ∙ sym (winners-append w xs (d ∷ []));
    upper = All-append (λ x. AtMost w (wt x)) xs (d ∷ []) h.upper (AtMost-self w (wt d) e, tt);
    none_of_nil = λ q. absurd (snoc-ne-nil best d q);
  }

  le_of_winners :
      (v w : ℕ) (xs : List D) → All (λ d. AtMost w (wt d)) xs → winners v xs ≢ [] → v ≤ w
  le_of_winners v w [] h n = absurd (n refl)
  le_of_winners v w (x ∷ xs) h n = ground (arith, le_of_winners v w xs h.1)

  -- The weight of the pass is the greatest, whatever the order.
  pub IsBest-weight :
      (xs : List D) (v w : ℕ) (best : List D)
      → IsBest xs w best
      → All (λ d. AtMost v (wt d)) xs
      → winners v xs ≢ []
      → w ≡ v
  IsBest-weight xs v w best h a n =
      let up : v ≤ w = le_of_winners v w xs h.upper n in
      let down : w ≤ v =
        le_of_winners w v xs a
          (λ e. n (winners-nil_of_none v xs (h.none_of_nil (h.best_eq ∙ e)))) in
      omega arith

  pub IsBest-best :
      (xs : List D) (v w : ℕ) (best : List D)
      → IsBest xs w best
      → All (λ d. AtMost v (wt d)) xs
      → winners v xs ≢ []
      → best ≡ winners v xs
  IsBest-best xs v w best h a n =
      h.best_eq ∙ ap (λ u. winners u xs) (IsBest-weight xs v w best h a n)

  pub winners-perm : (w : ℕ) {xs ys : List D} → Permᴰ xs ys → Permᴰ (winners w xs) (winners w ys)
  winners-perm w Permᴰ.nil = Permᴰ.nil
  winners-perm w (Permᴰ.cons {a = a} {b = b} e p) =
      cons_if-perm _ _ a b (ap (λ d. has_weight w (wt d)) e) e (winners-perm w p)
  winners-perm w (Permᴰ.swap {a = a} {b = b} {l = l} e f) =
      rw (← e, ← f)
        (cons_if-swap_perm (has_weight w (wt a)) (has_weight w (wt b)) a b (winners w l))
  winners-perm w (Permᴰ.trans p q) = Permᴰ.trans (winners-perm w p) (winners-perm w q)

  pub All-perm {κ} : (P : D → Type κ) {xs ys : List D} → Permᴰ xs ys → All P xs → All P ys
  All-perm P Permᴰ.nil h = tt
  All-perm P (Permᴰ.cons e p) h = (subst P e h.0, All-perm P p h.1)
  All-perm P (Permᴰ.swap e f) h = (subst P f h.1.0, (subst P e h.0, h.1.1))
  All-perm P (Permᴰ.trans p q) h = All-perm P q (All-perm P p h)

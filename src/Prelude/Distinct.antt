-- ===== src/Prelude/Distinct.antt =====
-- Lists with no item twice, and how many items they can have.
use Prim.Native.Nat.{ℕ, zero, suc, ◌≤◌, ◌<◌}
use mathlib.Core.Path.{◌≡◌, refl, sym, ap, subst}
use mathlib.Core.Bool.{Bool, true, false}
use mathlib.Core.Logic.{◌⊎◌, inl, inr, ◌≢◌}
use mathlib.Core.List.{List, [], ◌∷◌, ◌++◌, Memᴰ}
use mathlib.Core.Option.{some}
use native.Mathlib.Omega.{arith}
use openporch.Prelude.Lists.{
  length, length-append, keep, cons_if, Memᴰ-keep, get_elem?, drop, Memᴰ-append, Memᴰ-append_left,
  Memᴰ-append_right,
}

module _ {ℓ} {A : Type ℓ} where
  abbrev pub Distinct : List A → Type ℓ
  Distinct [] = Unit
  Distinct (x ∷ xs) = (¬ Memᴰ x xs) × Distinct xs

  pub not-Memᴰ-nil : {x : A} → ¬ Memᴰ x []
  not-Memᴰ-nil m = elim m [ ]

  pub Memᴰ-cons_cases : {a x : A} {xs : List A} → Memᴰ a (x ∷ xs) → (a ≡ x) ⊎ Memᴰ a xs
  Memᴰ-cons_cases (Memᴰ.head e) = inl e
  Memᴰ-cons_cases (Memᴰ.tail m) = inr m

  Memᴰ-split :
      {x : A} {ys : List A} → Memᴰ x ys → (pre : List A) × (post : List A) × (ys ≡ pre ++ x ∷ post)
  Memᴰ-split (Memᴰ.head {xs = xs} e) = ([], xs, ap (λ y. y ∷ xs) (sym e))
  Memᴰ-split (Memᴰ.tail {x = y} m) =
      let (pre, post, e) = Memᴰ-split m in (y ∷ pre, post, ap (λ l. y ∷ l) e)

  Memᴰ-middle :
      {a x : A} (pre post : List A) → Memᴰ a (pre ++ x ∷ post) → a ≢ x → Memᴰ a (pre ++ post)
  Memᴰ-middle pre post m n = elim (Memᴰ-append pre m) [
    | inl l ↦ Memᴰ-append_left post l
    | inr r ↦ elim (Memᴰ-cons_cases r) [ inl e ↦ absurd (n e) | inr t ↦ Memᴰ-append_right pre t ]
  ]

  -- A list with no item twice is no longer than a list that has all of its items.
  pub length-le_of_Distinct :
      (xs ys : List A) → Distinct xs → ((x : A) → Memᴰ x xs → Memᴰ x ys) → length xs ≤ length ys
  length-le_of_Distinct [] ys d h = omega arith
  length-le_of_Distinct (x ∷ xs) ys d h =
      let (pre, post, e) = Memᴰ-split (h x (Memᴰ.head refl)) in
      let rest : length xs ≤ length (pre ++ post) =
        length-le_of_Distinct xs (pre ++ post) d.1 (λ a m.
          Memᴰ-middle pre post (subst (Memᴰ a) e (h a (Memᴰ.tail m)))
            (λ q. d.0 (subst (λ y. Memᴰ y xs) q m))) in
      omega (arith, rest, ap length e, length-append pre post, length-append pre (x ∷ post))

  pub Distinct-snoc : (xs : List A) (y : A) → Distinct xs → ¬ Memᴰ y xs → Distinct (xs ++ y ∷ [])
  Distinct-snoc [] y d n = (not-Memᴰ-nil, tt)
  Distinct-snoc (x ∷ xs) y d n = (
    λ m. elim (Memᴰ-append xs m) [
      | inl l ↦ d.0 l
      | inr r ↦ elim (Memᴰ-cons_cases r) [ inl e ↦ n (Memᴰ.head (sym e)) | inr t ↦ not-Memᴰ-nil t ]
    ],
    Distinct-snoc xs y d.1 (λ m. n (Memᴰ.tail m)),
  )

  pub drop-append_le :
      (i : ℕ) (xs ys : List A) → i ≤ length xs → drop i (xs ++ ys) ≡ drop i xs ++ ys
  drop-append_le zero xs ys h = refl
  drop-append_le (suc i) [] ys h = absurd (omega arith)
  drop-append_le (suc i) (x ∷ xs) ys h = drop-append_le i xs ys (omega arith)

  pub drop-eq_cons :
      (i : ℕ) (xs : List A) (x : A) → get_elem? xs i ≡ some x → drop i xs ≡ x ∷ drop (suc i) xs
  drop-eq_cons i [] x e = absurd (cc)
  drop-eq_cons zero (y ∷ xs) x e = ap (λ z. z ∷ xs) (cc)
  drop-eq_cons (suc i) (y ∷ xs) x e = drop-eq_cons i xs x e

  pub get_elem?-lt : (i : ℕ) (xs : List A) (x : A) → get_elem? xs i ≡ some x → i < length xs
  get_elem?-lt i [] x e = absurd (cc)
  get_elem?-lt zero (y ∷ xs) x e = omega arith
  get_elem?-lt (suc i) (y ∷ xs) x e = omega (arith, get_elem?-lt i xs x e)

  pub get_elem?-append_left :
      (i : ℕ) (xs ys : List A) (x : A) → get_elem? xs i ≡ some x → get_elem? (xs ++ ys) i ≡ some x
  get_elem?-append_left i [] ys x e = absurd (cc)
  get_elem?-append_left zero (y ∷ xs) ys x e = e
  get_elem?-append_left (suc i) (y ∷ xs) ys x e = get_elem?-append_left i xs ys x e

  pub get_elem?-snoc : (xs : List A) (x : A) → get_elem? (xs ++ x ∷ []) (length xs) ≡ some x
  get_elem?-snoc [] x = refl
  get_elem?-snoc (y ∷ xs) x = get_elem?-snoc xs x

  pub Distinct-append :
      (xs ys : List A)
      → Distinct xs
      → Distinct ys
      → ((a : A) → Memᴰ a xs → ¬ Memᴰ a ys)
      → Distinct (xs ++ ys)
  Distinct-append [] ys d e h = e
  Distinct-append (x ∷ xs) ys d e h = (
    λ m. elim (Memᴰ-append xs m) [ inl l ↦ d.0 l | inr r ↦ h x (Memᴰ.head refl) r ],
    Distinct-append xs ys d.1 e (λ a m. h a (Memᴰ.tail m)),
  )

  cons_if-Distinct :
      (b : Bool) (x : A) (xs : List A) → (¬ Memᴰ x xs) → Distinct xs → Distinct (cons_if b x xs)
  cons_if-Distinct true x xs n d = (n, d)
  cons_if-Distinct false x xs n d = d

  pub keep-Distinct : (p : A → Bool) (xs : List A) → Distinct xs → Distinct (keep p xs)
  keep-Distinct p [] d = tt
  keep-Distinct p (x ∷ xs) d =
      cons_if-Distinct (p x) x (keep p xs) (λ m. d.0 (Memᴰ-keep p xs m).0) (keep-Distinct p xs d.1)

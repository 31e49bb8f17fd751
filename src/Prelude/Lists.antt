-- ===== src/Prelude/Lists.antt =====
-- Lists measured by native numbers, and predicates on them that compute.
use Prim.Native.Nat.{ℕ, zero, suc, ◌+◌, ◌≤◌}
use mathlib.Core.Path.{◌≡◌, refl, sym, ap, subst, ◌∙◌}
use mathlib.Core.Bool.{Bool, true, false, ◌&&◌, ◌||◌}
use mathlib.Core.Logic.{◌⊎◌, inl, inr}
use mathlib.Core.List.{List, [], ◌∷◌, ◌++◌, Memᴰ}
use mathlib.Core.Option.{Option, none, some}
use native.Mathlib.Omega.{arith}

module _ {ℓ} {A : Type ℓ} where
  abbrev pub length : List A → ℕ
  length [] = 0
  length (x ∷ xs) = suc (length xs)

  abbrev pub get_elem? : List A → ℕ → Option A
  get_elem? [] i = none
  get_elem? (x ∷ xs) zero = some x
  get_elem? (x ∷ xs) (suc i) = get_elem? xs i

  abbrev pub drop : ℕ → List A → List A
  drop zero xs = xs
  drop (suc n) [] = []
  drop (suc n) (x ∷ xs) = drop n xs

  abbrev pub is_nil : List A → Bool
  is_nil [] = true
  is_nil (x ∷ xs) = false

  abbrev pub all : (A → Bool) → List A → Bool
  all p [] = true
  all p (x ∷ xs) = p x && all p xs

  abbrev pub any : (A → Bool) → List A → Bool
  any p [] = false
  any p (x ∷ xs) = p x || any p xs

  abbrev pub cons_if : Bool → A → List A → List A
  cons_if true x xs = x ∷ xs
  cons_if false x xs = xs

  -- `Iterator::filter`, over a Boolean test.
  abbrev pub keep : (A → Bool) → List A → List A
  keep p [] = []
  keep p (x ∷ xs) = cons_if (p x) x (keep p xs)

  abbrev pub find : (A → Bool) → List A → Option A
  find p [] = none
  find p (x ∷ xs) = let rest = find p xs in elim (p x) [ true ↦ some x | false ↦ rest ]

  abbrev pub All {κ} : (A → Type κ) → List A → Type κ
  All P [] = Unit
  All P (x ∷ xs) = P x × All P xs

pub and_left : (a b : Bool) → (a && b) ≡ true → a ≡ true
and_left true b h = refl
and_left false b h = cc

pub and_right : (a b : Bool) → (a && b) ≡ true → b ≡ true
and_right true b h = h
and_right false b h = cc

module _ {ℓ} {A : Type ℓ} where
  pub length-append : (xs ys : List A) → length (xs ++ ys) ≡ length xs + length ys
  length-append [] ys = omega arith
  length-append (x ∷ xs) ys = omega (arith, length-append xs ys)

  pub append_nil : (xs : List A) → xs ++ [] ≡ xs
  append_nil [] = refl
  append_nil (x ∷ xs) = ap (λ l. x ∷ l) (append_nil xs)

  pub append_snoc : (xs : List A) (y : A) (zs : List A) → (xs ++ y ∷ []) ++ zs ≡ xs ++ y ∷ zs
  append_snoc [] y zs = refl
  append_snoc (x ∷ xs) y zs = ap (λ l. x ∷ l) (append_snoc xs y zs)

  pub Memᴰ-append_left : {a : A} {xs : List A} (ys : List A) → Memᴰ a xs → Memᴰ a (xs ++ ys)
  Memᴰ-append_left ys (Memᴰ.head e) = Memᴰ.head e
  Memᴰ-append_left ys (Memᴰ.tail h) = Memᴰ.tail (Memᴰ-append_left ys h)

  pub Memᴰ-append_right : {a : A} (xs : List A) {ys : List A} → Memᴰ a ys → Memᴰ a (xs ++ ys)
  Memᴰ-append_right [] h = h
  Memᴰ-append_right (x ∷ xs) h = Memᴰ.tail (Memᴰ-append_right xs h)

  pub Memᴰ-append : {a : A} (xs : List A) {ys : List A} → Memᴰ a (xs ++ ys) → Memᴰ a xs ⊎ Memᴰ a ys
  Memᴰ-append [] h = inr h
  Memᴰ-append (x ∷ xs) (Memᴰ.head e) = inl (Memᴰ.head e)
  Memᴰ-append (x ∷ xs) (Memᴰ.tail h) = elim (Memᴰ-append xs h) [
    | inl l ↦ inl (Memᴰ.tail l)
    | inr r ↦ inr r
  ]

  pub Memᴰ-cons_if :
      {a : A} (b : Bool) (x : A) (xs : List A)
      → Memᴰ a (cons_if b x xs)
      → (b ≡ true) × (a ≡ x) ⊎ Memᴰ a xs
  Memᴰ-cons_if true x xs (Memᴰ.head e) = inl (refl, e)
  Memᴰ-cons_if true x xs (Memᴰ.tail m) = inr m
  Memᴰ-cons_if false x xs m = inr m

  pub Memᴰ-cons_if_head :
      {a : A} (b : Bool) {x : A} (xs : List A) → b ≡ true → a ≡ x → Memᴰ a (cons_if b x xs)
  Memᴰ-cons_if_head true xs h e = Memᴰ.head e
  Memᴰ-cons_if_head false xs h e = cc

  pub Memᴰ-cons_if_tail :
      {a : A} (b : Bool) (x : A) {xs : List A} → Memᴰ a xs → Memᴰ a (cons_if b x xs)
  Memᴰ-cons_if_tail true x m = Memᴰ.tail m
  Memᴰ-cons_if_tail false x m = m

  pub Memᴰ-keep :
      {a : A} (p : A → Bool) (xs : List A) → Memᴰ a (keep p xs) → Memᴰ a xs × (p a ≡ true)
  Memᴰ-keep p [] h = elim h [ ]
  Memᴰ-keep p (x ∷ xs) h = elim (Memᴰ-cons_if (p x) x (keep p xs) h) [
    | inl (e, q) ↦ (Memᴰ.head q, ap p q ∙ e)
    | inr m ↦ let (m', e) = Memᴰ-keep p xs m in (Memᴰ.tail m', e)
  ]

  pub Memᴰ-keep_of :
      {a : A} (p : A → Bool) {xs : List A} → Memᴰ a xs → p a ≡ true → Memᴰ a (keep p xs)
  Memᴰ-keep_of p (Memᴰ.head {x = x} {xs = xs} q) e =
      Memᴰ-cons_if_head (p x) (keep p xs) (sym (ap p q) ∙ e) q
  Memᴰ-keep_of p (Memᴰ.tail {x = x} m) e = Memᴰ-cons_if_tail (p x) x (Memᴰ-keep_of p m e)

  pub length-keep : (p : A → Bool) (xs : List A) → length (keep p xs) ≤ length xs
  length-keep p [] = omega arith
  length-keep p (x ∷ xs) = ground (arith, length-keep p xs)

  pub All-append {κ} : (P : A → Type κ) (xs ys : List A) → All P xs → All P ys → All P (xs ++ ys)
  All-append P [] ys h k = k
  All-append P (x ∷ xs) ys h k = (h.0, All-append P xs ys h.1 k)

  pub All-Memᴰ {κ} : (P : A → Type κ) {a : A} {xs : List A} → All P xs → Memᴰ a xs → P a
  All-Memᴰ P h (Memᴰ.head e) = subst P (sym e) h.0
  All-Memᴰ P h (Memᴰ.tail m) = All-Memᴰ P h.1 m

  pub All-of_Memᴰ {κ} : (P : A → Type κ) (xs : List A) → ((a : A) → Memᴰ a xs → P a) → All P xs
  All-of_Memᴰ P [] h = tt
  All-of_Memᴰ P (x ∷ xs) h = (h x (Memᴰ.head refl), All-of_Memᴰ P xs (λ a m. h a (Memᴰ.tail m)))

  pub all-Memᴰ : (p : A → Bool) {a : A} {xs : List A} → all p xs ≡ true → Memᴰ a xs → p a ≡ true
  all-Memᴰ p {a} (h) (Memᴰ.head {x = x} {xs = xs} e) = ap p e ∙ and_left (p x) (all p xs) h
  all-Memᴰ p h (Memᴰ.tail {x = x} {xs = xs} m) = all-Memᴰ p (and_right (p x) (all p xs) h) m

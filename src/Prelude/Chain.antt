-- ===== src/Prelude/Chain.antt =====
-- Paths in a graph: lists whose neighbours are related.
use Prim.Native.Nat.{ℕ, zero, suc}
use mathlib.Core.Path.{◌≡◌}
use mathlib.Core.List.{List, [], ◌∷◌, ◌++◌}
use openporch.Prelude.Lists.{drop}

module _ {ℓ κ} {A : Type ℓ} (E : A → A → Type κ) where
  abbrev pub Chain : List A → Type κ
  Chain [] = Unit
  Chain (x ∷ []) = Unit
  Chain (x ∷ y ∷ l) = E x y × Chain (y ∷ l)

  pub Chain-snoc :
      (l : List A) (x y : A) → Chain (l ++ x ∷ []) → E x y → Chain ((l ++ x ∷ []) ++ y ∷ [])
  Chain-snoc [] x y c e = (e, tt)
  Chain-snoc (a ∷ []) x y c e = (c.0, (e, tt))
  Chain-snoc (a ∷ b ∷ l) x y c e = (c.0, Chain-snoc (b ∷ l) x y c.1 e)

  Chain-tail : (x : A) (l : List A) → Chain (x ∷ l) → Chain l
  Chain-tail x [] c = tt
  Chain-tail x (y ∷ l) c = c.1

  pub Chain-drop : (i : ℕ) (l : List A) → Chain l → Chain (drop i l)
  Chain-drop zero l c = c
  Chain-drop (suc i) [] c = tt
  Chain-drop (suc i) (x ∷ l) c = Chain-drop i l (Chain-tail x l c)

  -- A path that ends where it began.
  pub record IsCycle (c : List A) : Type (ℓ ⊔ κ) where
    pub start : A
    pub middle : List A
    pub closed : c ≡ start ∷ middle ++ start ∷ []
    pub chain : Chain c

pub Chain-map {ℓ κ μ} :
    {A : Type ℓ} (E : A → A → Type κ) (F : A → A → Type μ)
    → ((a b : A) → E a b → F a b)
    → (l : List A) → Chain E l
    → Chain F l
Chain-map E F f [] c = tt
Chain-map E F f (x ∷ []) c = tt
Chain-map E F f (x ∷ y ∷ l) c = (f x y c.0, Chain-map E F f (y ∷ l) c.1)

pub IsCycle-map {ℓ κ μ} :
    {A : Type ℓ} (E : A → A → Type κ) (F : A → A → Type μ)
    → ((a b : A) → E a b → F a b)
    → (c : List A) → IsCycle E c
    → IsCycle F c
IsCycle-map E F f c h = record {
  start = h.start;
  middle = h.middle;
  closed = h.closed;
  chain = Chain-map E F f c h.chain;
}

-- ===== src/Placeholder/Run.antt =====
-- Computations that fail with a `PlaceholderError`. `none` is a panic, or the end of the fuel.
use openporch.Prelude.{Option, none, some, ◌≡◌, refl}
use openporch.Prelude.Result.{Result, ok, err}
use openporch.Placeholder.Types.{PlaceholderError}

abbrev pub Run : Type 0 → Type 0
Run A = Option (Result PlaceholderError A)

infixl 5 ◌>>=◌
abbrev pub ◌>>=◌ : {A B : Type 0} → Run A → (A → Run B) → Run B
none >>= f = none
some (err e) >>= f = some (err e)
some (ok a) >>= f = f a

abbrev pub done : {A : Type 0} → A → Run A
done a = some (ok a)

abbrev pub fail : {A : Type 0} → PlaceholderError → Run A
fail e = some (err e)

-- A chain succeeds through a first part that succeeds.
pub >>=-done :
    {A B : Type 0} {f : A → Run B} {b : B} (m : Run A)
    → (m >>= f) ≡ done b
    → (a : A) × (m ≡ done a) × (f a ≡ done b)
>>=-done none h = absurd (cc)
>>=-done (some (err e)) h = absurd (cc)
>>=-done (some (ok a)) h = (a, refl, h)

-- A chain of parts that do not panic does not panic.
pub >>=-total :
    {A B : Type 0} {f : A → Run B} (m : Run A)
    → ¬ (m ≡ none)
    → ((a : A) → m ≡ done a → ¬ (f a ≡ none))
    → ¬ ((m >>= f) ≡ none)
>>=-total none h k = λ e. h refl
>>=-total (some (err x)) h k = λ e. cc
>>=-total (some (ok a)) h k = k a refl

pub done_inj : {A : Type 0} {a b : A} → ◌≡◌ {A = Run A} (done a) (done b) → a ≡ b
done_inj h = cc

-- ===== src/Canonical/Number.antt =====
-- `es_number` of crates/core/src/canonical.rs, and what it uses of the integers. `none` is a panic.
use openporch.Prelude.{
  ℕ, zero, suc, ◌+◌, ◌-◌, ◌*◌, Str, bytes, decimal, Bool, true, false, not, ◌&&◌, [], ◌∷◌, ◌++◌,
  Option, none, some, if◌then◌else◌, leb, nat_beq, length, keep,
}
use openporch.Prelude.Split.{split_once, before_and}

-- Signed integers; `negsuc n` is `-(n + 1)`.
pub data ℤ : Type 0 where
  pos : ℕ → ℤ
  negsuc : ℕ → ℤ

-- `to_string`
abbrev pub to_text : ℤ → Str
to_text (pos n) = decimal n
to_text (negsuc n) = 45 ∷ decimal (suc n)

-- `unsigned_abs`
abbrev pub unsigned_abs : ℤ → ℕ
unsigned_abs (pos n) = n
unsigned_abs (negsuc n) = suc n

abbrev pub leb_ℤ : ℤ → ℤ → Bool
leb_ℤ (pos a) (pos b) = leb a b
leb_ℤ (pos a) (negsuc b) = false
leb_ℤ (negsuc a) (pos b) = true
leb_ℤ (negsuc a) (negsuc b) = leb b a

abbrev pub add_one : ℤ → ℤ
add_one (pos n) = pos (suc n)
add_one (negsuc zero) = pos 0
add_one (negsuc (suc n)) = negsuc n

abbrev pub sub_one : ℤ → ℤ
sub_one (pos zero) = negsuc 0
sub_one (pos (suc n)) = pos n
sub_one (negsuc n) = negsuc (suc n)

abbrev pub is_digit : ℕ → Bool
is_digit c = leb 48 c && leb c 57

abbrev pub digits_from : ℕ → Str → Option ℕ
digits_from acc [] = some acc
digits_from acc (c ∷ s) =
    let rest = digits_from (acc * 10 + (c - 48)) s in if is_digit c then rest else none

-- The digits behind a sign, up to a bound of the type.
abbrev pub digits_to : ℕ → Str → Option ℕ
digits_to bound [] = none
digits_to bound (c ∷ s) = elim (digits_from 0 (c ∷ s)) [
  | none ↦ none
  | some n ↦ if leb n bound then some n else none
]

abbrev pub negative : Option ℕ → Option ℤ
negative none = none
negative (some zero) = some (pos 0)
negative (some (suc n)) = some (negsuc n)

abbrev pub non_negative : Option ℕ → Option ℤ
non_negative none = none
non_negative (some n) = some (pos n)

-- `parse::<i32>`
unfoldable pub parse_i32 : Str → Option ℤ
parse_i32 [] = none
parse_i32 (c ∷ s) =
    if nat_beq c 45
    then negative (digits_to 2147483648 s)
    else if nat_beq c 43
    then non_negative (digits_to 2147483647 s)
    else non_negative (digits_to 2147483647 (c ∷ s))

-- `str::repeat` of a character.
abbrev pub repeat : ℕ → ℕ → Str
repeat c zero = []
repeat c (suc n) = c ∷ repeat c n

-- The slices `[..n]` and `[n..]`.
abbrev pub slices : ℕ → Str → Option (Str × Str)
slices zero s = some ([], s)
slices (suc n) [] = none
slices (suc n) (c ∷ s) = before_and c (slices n s)

-- `format!("{}.{}", a, b)`
abbrev pub with_point : Option (Str × Str) → Option Str
with_point none = none
with_point (some (a, b)) = some (a ++ 46 ∷ b)

abbrev pub followed_by : Option Str → Str → Option Str
followed_by none t = none
followed_by (some s) t = some (s ++ t)

abbrev pub exponent_text : ℤ → Str
exponent_text (pos e) = 43 ∷ decimal e
exponent_text (negsuc e) = to_text (negsuc e)

abbrev pub exponential : Str → ℤ → Option Str
exponential digits e =
    if nat_beq (length digits) 1
    then some (digits ++ 101 ∷ exponent_text e)
    else followed_by (with_point (slices 1 digits)) (101 ∷ exponent_text e)

-- `body`, for the digits and the position `n` of the point.
unfoldable pub es_body : Str → ℤ → Option Str
es_body digits n =
    if leb_ℤ (pos (length digits)) n && leb_ℤ n (pos 21)
    then some (digits ++ repeat 48 (unsigned_abs n - length digits))
    else if leb_ℤ (pos 1) n && leb_ℤ n (pos 21)
    then with_point (slices (unsigned_abs n) digits)
    else if leb_ℤ (negsuc 4) n && leb_ℤ n (pos 0)
    then some (bytes "0." ++ repeat 48 (unsigned_abs n) ++ digits)
    else exponential digits (sub_one n)

-- `serde_json::Number` by its text, and `f64`.
pub record Numbers (F : Type 0) : Type 0 where
  pub as_i64 : Str → Option ℤ
  pub as_u64 : Str → Option ℕ
  pub as_f64 : Str → Option F
  -- `f == 0.0` and `f < 0.0`.
  pub is_zero : F → Bool
  pub is_negative : F → Bool
  -- `format!("{:e}", f.abs())`
  pub scientific : F → Str

-- `mantissa.chars().filter(|c| *c != '.')`
abbrev pub digits_of : Str → Str
digits_of mantissa = keep (λ c. not (nat_beq c 46)) mantissa

abbrev pub signed : Bool → Option Str → Option Str
signed b none = none
signed b (some s) = some (if b then 45 ∷ s else s)

abbrev pub body_at : Str → Option ℤ → Option Str
body_at mantissa none = none
body_at mantissa (some e) = es_body (digits_of mantissa) (add_one e)

abbrev pub body_of : Option (Str × Str) → Option Str
body_of none = none
body_of (some (mantissa, exp)) = body_at mantissa (parse_i32 exp)

unfoldable pub es_number : {F : Type 0} → Numbers F → F → Option Str
unfolding es_body parse_i32
es_number n f =
    if n.is_zero f
    then some (bytes "0")
    else signed (n.is_negative f) (body_of (split_once 101 (n.scientific f)))

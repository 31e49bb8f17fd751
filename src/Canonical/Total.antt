-- ===== src/Canonical/Total.antt =====
-- That every value has a canonical text: no `expect` and no slice of canonical.rs panics.
use openporch.Prelude.{
  ℕ, zero, suc, ◌≤◌, ◌<◌, Str, Bool, true, false, ◌&&◌, List, [], ◌∷◌, ◌++◌, Option, none, some,
  nat_beq, length, if◌then◌else◌, Option-cases, ◌≡◌, refl, inl, inr, arith,
}
use openporch.Prelude.Split.{has_char, split_once-append}
use openporch.Placeholder.Json.{Value, Items, Fields}
use openporch.Canonical.Number.{
  ℤ, pos, negsuc, parse_i32, slices, with_point, followed_by, exponential, leb_ℤ, es_body, Numbers,
  digits_of, es_number, signed, add_one, sub_one, unsigned_abs,
}
use openporch.Canonical.Write.{
  Entry, cons_text, place, exact_i64, exact_u64, write_number, write_value, write_items,
  sorted_entries, to_canonical_string, canonical_text, bracketed, braced,
}

-- What `format!` writes for `{:e}`: digits with a point, `e`, and an exponent.
pub record IsScientific (text : Str) : Type 0 where
  pub mantissa : Str
  pub exponent : Str
  pub power : ℤ
  pub form : text ≡ mantissa ++ 101 ∷ exponent
  pub one_e : has_char 101 mantissa ≡ false
  pub digit : 0 < length (digits_of mantissa)
  pub number : parse_i32 exponent ≡ some power

-- Numbers are finite doubles, and a double is written with digits and an exponent.
pub record IsNumbers {F : Type 0} (n : Numbers F) : Type 0 where
  pub finite : (t : Str) → (f : F) × (n.as_f64 t ≡ some f)
  pub written : (f : F) → IsScientific (n.scientific f)

-- A result that is not a panic.
abbrev Gives {ℓ} : {A : Type ℓ} → Option A → Type ℓ
Gives {A = A} o = (a : A) × (o ≡ some a)

slices-Gives : (k : ℕ) (s : Str) → k ≤ length s → Gives (slices k s)
slices-Gives zero s h = (([], s), refl)
slices-Gives (suc k) [] h = absurd (omega arith)
slices-Gives (suc k) (c ∷ s) h =
    let ((a, b), e) = slices-Gives k s (omega arith) in ((c ∷ a, b), rw e refl)

with_point-Gives : (o : Option (Str × Str)) → Gives o → Gives (with_point o)
with_point-Gives o (p, e) = (p.0 ++ 46 ∷ p.1, rw e refl)

followed_by-Gives : (o : Option Str) (t : Str) → Gives o → Gives (followed_by o t)
followed_by-Gives o t (s, e) = (s ++ t, rw e refl)

Gives-if {ℓ} :
    {A : Type ℓ} (c : Bool) (x y : Option A)
    → (c ≡ true → Gives x)
    → (c ≡ false → Gives y)
    → Gives (if c then x else y)
Gives-if true x y f g = f refl
Gives-if false x y f g = g refl

exponential-Gives : (digits : Str) (e : ℤ) → 0 < length digits → Gives (exponential digits e)
exponential-Gives digits e h =
    Gives-if (nat_beq (length digits) 1) _ _ (λ one. (_, refl))
      λ more. followed_by-Gives _ _ (with_point-Gives _ (slices-Gives 1 digits (omega arith)))

-- The point of a number that is not past its digits stands among them.
point_among :
    (k : ℕ) (n : ℤ)
    → (leb_ℤ (pos k) n && leb_ℤ n (pos 21)) ≡ false
    → (leb_ℤ (pos 1) n && leb_ℤ n (pos 21)) ≡ true
    → unsigned_abs n ≤ k
point_among k (pos n) past among = ground arith
point_among k (negsuc n) past among = absurd (cc)

es_body-Gives : (digits : Str) (n : ℤ) → 0 < length digits → Gives (es_body digits n)
unfolding es_body
es_body-Gives digits n h =
    Gives-if (leb_ℤ (pos (length digits)) n && leb_ℤ n (pos 21)) _ _ (λ past. (_, refl))
      λ past.
        Gives-if (leb_ℤ (pos 1) n && leb_ℤ n (pos 21)) _ _
          (λ among.
            with_point-Gives _
              (slices-Gives (unsigned_abs n) digits (point_among (length digits) n past among)))
          λ among.
            Gives-if (leb_ℤ (negsuc 4) n && leb_ℤ n (pos 0)) _ _ (λ small. (_, refl))
              λ large. exponential-Gives digits (sub_one n) h

signed-Gives : (b : Bool) (o : Option Str) → Gives o → Gives (signed b o)
signed-Gives b none (s, e) = absurd (cc)
signed-Gives b (some s) g = (_, refl)

module _ {F : Type 0} (n : Numbers F) (ok : IsNumbers n) where
  es_number-Gives : (f : F) → Gives (es_number n f)
  unfolding es_number
  es_number-Gives f =
      let w = ok.written f in
      Gives-if (n.is_zero f) _ _ (λ zero. (_, refl))
        λ other.
          rw (w.form, split_once-append 101 w.mantissa w.exponent w.one_e, w.number)
            (signed-Gives (n.is_negative f) _
              (es_body-Gives (digits_of w.mantissa) (add_one w.power) w.digit))

  write_number-Gives : (t : Str) → Gives (write_number n t)
  unfolding write_number
  write_number-Gives t = elim (Option-cases (exact_i64 (n.as_i64 t))) [
    | inr (s, e) ↦ (s, rw (write_number, e) refl)
    | inl big ↦ elim (Option-cases (exact_u64 (n.as_u64 t))) [
      | inr (s, e) ↦ (s, rw (write_number, big, e) refl)
      | inl huge ↦ let (f, e) = ok.finite t in rw (write_number, big, huge, e) (es_number-Gives f)
    ]
  ]

  cons_text-Gives :
      (o : Option Str) (ts : Option (List Str)) → Gives o → Gives ts → Gives (cons_text o ts)
  cons_text-Gives o ts (s, e) (ss, f) = (s ∷ ss, rw (e, f) refl)

  place-Gives :
      (k : Str) (o : Option Str) (es : Option (List Entry))
      → Gives o
      → Gives es
      → Gives (place k o es)
  place-Gives k none es (s, e) g = absurd (cc)
  place-Gives k (some t) none g (es, e) = absurd (cc)
  place-Gives k (some t) (some es) g h = (_, refl)

  bracketed-Gives : (ts : Option (List Str)) → Gives ts → Gives (bracketed ts)
  bracketed-Gives none (ts, e) = absurd (cc)
  bracketed-Gives (some ts) g = (_, refl)

  braced-Gives : (es : Option (List Entry)) → Gives es → Gives (braced es)
  braced-Gives none (es, e) = absurd (cc)
  braced-Gives (some es) g = (_, refl)

  mutual
    unfolding write_value

    write_value-Gives : (v : Value) → Gives (write_value n v)
    write_value-Gives Value.null = (_, refl)
    write_value-Gives (Value.bool true) = (_, refl)
    write_value-Gives (Value.bool false) = (_, refl)
    write_value-Gives (Value.number t) = write_number-Gives t
    write_value-Gives (Value.string s) = (_, refl)
    write_value-Gives (Value.array is) = bracketed-Gives _ (write_items-Gives is)
    write_value-Gives (Value.object fs) = braced-Gives _ (sorted_entries-Gives fs)

    write_items-Gives : (is : Items) → Gives (write_items n is)
    write_items-Gives Items.no_items = (_, refl)
    write_items-Gives (Items.item v is) =
        cons_text-Gives _ _ (write_value-Gives v) (write_items-Gives is)

    sorted_entries-Gives : (fs : Fields) → Gives (sorted_entries n fs)
    sorted_entries-Gives Fields.no_fields = (_, refl)
    sorted_entries-Gives (Fields.field k v fs) =
        place-Gives k _ _ (write_value-Gives v) (sorted_entries-Gives fs)

  -- Where numbers are finite and `{:e}` writes a double as digits, `e` and an exponent, writing a
  -- value never panics: `canonical_text` is what `to_canonical_string` returns.
  pub to_canonical_string_total : (v : Value) → to_canonical_string n v ≡ some (canonical_text n v)
  unfolding to_canonical_string canonical_text
  to_canonical_string_total v = let (t, e) = write_value-Gives v in rw e refl

-- ===== src/Canonical/Examples.antt =====
-- The tests of crates/core/src/canonical.rs, and runs of the theorems.
use openporch.Prelude.{
  ◌<◌, length, Str, bytes, decimal, ap, true, false, [], ◌∷◌, ◌++◌, none, some, if◌then◌else◌, ◌≡◌,
  ◌≢◌, refl, arith,
}
use openporch.Prelude.Split.{has_char}
use openporch.Prelude.Order.{◌==◌, str_ord}
use openporch.Placeholder.Json.{
  Value, null, bool, number, string, array, object, no_items, item, Fields,
}
use openporch.Canonical.Number.{ℤ, pos, negsuc, parse_i32, digits_of, Numbers, es_number}
use openporch.Canonical.Write.{insert_entry, write_string, to_canonical_string, canonical_text}
use openporch.Canonical.Total.{IsNumbers, IsScientific, to_canonical_string_total}
use openporch.Canonical.Order.{Same, SameItems, SameFields, to_canonical_string-Same}

-- Some doubles: 0, 0.5, -2.5, 1e20, 1.5e-10, 4.5e300 and 2^64.
pub data Double : Type 0 where
  zero half minus big tiny huge limit : Double

abbrev pub read : Str → Double
read t = if t == bytes "0.5" then half else if t == bytes "-2.5" then minus else limit

abbrev pub numbers : Numbers Double
numbers = record {
  as_i64 = λ t. if t == bytes "-7" then some (negsuc 6) else none;
  as_u64 = λ t. if t == bytes "1" then some 1 else none;
  as_f64 = λ t. some (read t);
  is_zero = λ f. elim f [ zero ↦ true | _ ↦ false ];
  is_negative = λ f. elim f [ minus ↦ true | _ ↦ false ];
  scientific = λ f. elim f [
    | zero ↦ bytes "0e0"
    | half ↦ bytes "5e-1"
    | minus ↦ bytes "2.5e0"
    | big ↦ bytes "1e20"
    | tiny ↦ bytes "1.5e-10"
    | huge ↦ bytes "4.5e300"
    | limit ↦ bytes "1.8446744073709552e19"
  ];
}

formats_half : es_number numbers half ≡ some (bytes "0.5")
unfolding es_number
formats_half = refl

formats_minus : es_number numbers minus ≡ some (bytes "-2.5")
unfolding es_number
formats_minus = refl

formats_big : es_number numbers big ≡ some (bytes "100000000000000000000")
unfolding es_number
formats_big = refl

formats_tiny : es_number numbers tiny ≡ some (bytes "1.5e-10")
unfolding es_number decimal
formats_tiny = refl

formats_huge : es_number numbers huge ≡ some (bytes "4.5e+300")
unfolding es_number decimal
formats_huge = refl

formats_limit : es_number numbers limit ≡ some (bytes "18446744073709552000")
unfolding es_number
formats_limit = refl

escapes :
    write_string (bytes "a\"b\\c" ++ 10 ∷ 100 ∷ 1 ∷ bytes "e/")
    ≡ bytes "\"a\\\"b\\\\c\\nd\\u0001e/\""
unfolding write_string
escapes = refl

-- A field whose value is null.
abbrev entry : Str → Value → Fields → Fields
entry = Fields.field

abbrev end : Fields
end = Fields.no_fields

-- By code point U+FB33 is before U+1F600, and by UTF-16 code units after it.
abbrev by_units : Value
by_units = object (
    entry (64307 ∷ []) null
      (entry (128512 ∷ []) null (entry (8364 ∷ []) null (entry (128 ∷ []) null end))))

sorts_by_units :
    to_canonical_string numbers by_units
    ≡ some (
        bytes "{\""
        ++ (128 ∷ bytes "\":null,\"")
        ++ (8364 ∷ bytes "\":null,\"")
        ++ (128512 ∷ bytes "\":null,\"")
        ++ (64307 ∷ bytes "\":null}"))
unfolding to_canonical_string insert_entry
sorts_by_units = refl

abbrev inner : Value
inner = object (entry (bytes "z") null (entry (bytes "a") (bool true) end))

abbrev sorted_inner : Value
sorted_inner = object (entry (bytes "a") (bool true) (entry (bytes "z") null end))

abbrev first : Value
first = object (
    entry (bytes "b") (array (item (number (bytes "1")) (item inner no_items)))
      (entry (bytes "a") (string (bytes "x")) end))

abbrev second : Value
second = object (
    entry (bytes "a") (string (bytes "x"))
      (entry (bytes "b") (array (item (number (bytes "1")) (item sorted_inner no_items))) end))

sorts_keys :
    to_canonical_string numbers first
    ≡ some (bytes "{\"a\":\"x\",\"b\":[1,{\"a\":true,\"z\":null}]}")
unfolding to_canonical_string insert_entry decimal
sorts_keys = refl

b≢a : bytes "b" ≢ bytes "a"
b≢a e = absurd (let q : true ≡ false = ap (has_char 98) e in cc)

z≢a : bytes "z" ≢ bytes "a"
z≢a e = absurd (let q : true ≡ false = ap (has_char 122) e in cc)

first-Same : Same first second
first-Same = Same.object (
    SameFields.trans
      (SameFields.field (bytes "b")
        (Same.array (
          SameItems.item (Same.same (number (bytes "1"))) (
            SameItems.item
              (Same.object
                (SameFields.swap (bytes "z") (bytes "a") null (bool true) end refl refl z≢a))
              SameItems.no_items)))
        (SameFields.field (bytes "a") (Same.same (string (bytes "x"))) SameFields.no_fields))
      (SameFields.swap (bytes "b") (bytes "a") _ (string (bytes "x")) end refl refl b≢a))

to_canonical_string-Same_example :
    to_canonical_string numbers first ≡ to_canonical_string numbers second
to_canonical_string-Same_example = to_canonical_string-Same numbers first-Same

scientific :
    {text : Str} (mantissa exponent : Str) (power : ℤ)
    → text ≡ mantissa ++ 101 ∷ exponent
    → has_char 101 mantissa ≡ false
    → 0 < length (digits_of mantissa)
    → parse_i32 exponent ≡ some power
    → IsScientific text
scientific m e p form one digit parsed = record {
  mantissa = m;
  exponent = e;
  power = p;
  form = form;
  one_e = one;
  digit = digit;
  number = parsed;
}

double_IsScientific : (f : Double) → IsScientific (numbers.scientific f)
unfolding parse_i32
double_IsScientific zero = scientific (bytes "0") (bytes "0") (pos 0) refl refl (omega arith) refl
double_IsScientific half =
    scientific (bytes "5") (bytes "-1") (negsuc 0) refl refl (omega arith) refl
double_IsScientific minus =
    scientific (bytes "2.5") (bytes "0") (pos 0) refl refl (omega arith) refl
double_IsScientific big = scientific (bytes "1") (bytes "20") (pos 20) refl refl (omega arith) refl
double_IsScientific tiny =
    scientific (bytes "1.5") (bytes "-10") (negsuc 9) refl refl (omega arith) refl
double_IsScientific huge =
    scientific (bytes "4.5") (bytes "300") (pos 300) refl refl (omega arith) refl
double_IsScientific limit =
    scientific (bytes "1.8446744073709552") (bytes "19") (pos 19) refl refl (omega arith) refl

numbers-IsNumbers : IsNumbers numbers
numbers-IsNumbers = record { finite = λ t. (read t, refl); written = double_IsScientific }

to_canonical_string_total_example :
    to_canonical_string numbers first ≡ some (canonical_text numbers first)
to_canonical_string_total_example = to_canonical_string_total numbers numbers-IsNumbers first

-- ===== src/Canonical/Write.antt =====
-- `to_canonical_string`, `write_value` and `write_string` of crates/core/src/canonical.rs. What a
-- function pushes onto `out` is its result, and `none` is a panic. A text is the list of its characters.
use Prim.Native.Nat.{Ordering}
use openporch.Prelude.{
  ℕ, ◌+◌, ◌-◌, ◌/◌, ◌%◌, ◌^◌, Str, bytes, decimal, join, true, false, List, [], ◌∷◌, ◌++◌, Option,
  none, some, if◌then◌else◌, leb, ltb, nat_beq,
}
use openporch.Prelude.Order.{str_cmp}
use openporch.Placeholder.Json.{Value, null, bool, number, string, array, object, Items, Fields}
use openporch.Canonical.Number.{ℤ, to_text, unsigned_abs, Numbers, es_number}

-- The code units of a character.
abbrev pub code_units : ℕ → List ℕ
code_units c =
    if ltb c 65536 then c ∷ [] else (55296 + (c - 65536) / 1024) ∷ (56320 + (c - 65536) % 1024) ∷ []

unfoldable pub encode_utf16 : Str → List ℕ
encode_utf16 [] = []
encode_utf16 (c ∷ s) = code_units c ++ encode_utf16 s

-- The order of the entries of an object, and a stable insertion by it.
unfoldable pub key_cmp : Str → Str → Ordering
unfolding encode_utf16
key_cmp a b = str_cmp (encode_utf16 a) (encode_utf16 b)

abbrev pub hex_digit : ℕ → ℕ
hex_digit d = if ltb d 10 then 48 + d else 87 + d

-- The arms of the `match` on a character.
abbrev pub escape : ℕ → Str
escape c =
    if nat_beq c 34
    then bytes "\\\""
    else if nat_beq c 92
    then bytes "\\\\"
    else if nat_beq c 8
    then bytes "\\b"
    else if nat_beq c 12
    then bytes "\\f"
    else if nat_beq c 10
    then bytes "\\n"
    else if nat_beq c 13
    then bytes "\\r"
    else if nat_beq c 9
    then bytes "\\t"
    else if ltb c 32
    then bytes "\\u00" ++ hex_digit (c / 16) ∷ hex_digit (c % 16) ∷ []
    else c ∷ []

abbrev pub escape_all : Str → Str
escape_all [] = []
escape_all (c ∷ s) = escape c ++ escape_all s

unfoldable pub write_string : Str → Str
write_string s = 34 ∷ (escape_all s ++ 34 ∷ [])

abbrev pub exact : ℕ
exact = 2 ^ 53

abbrev pub exact_i64 : Option ℤ → Option Str
exact_i64 none = none
exact_i64 (some i) = if leb (unsigned_abs i) exact then some (to_text i) else none

abbrev pub exact_u64 : Option ℕ → Option Str
exact_u64 none = none
exact_u64 (some u) = if leb u exact then some (decimal u) else none

-- An entry, by its key and the text of its value.
pub record Entry : Type 0 where
  pub key : Str
  pub text : Str

unfoldable pub insert_entry : Entry → List Entry → List Entry
unfolding key_cmp
insert_entry e [] = e ∷ []
insert_entry e (j ∷ es) =
    let rest = insert_entry e es in
    elim (key_cmp e.key j.key) [ Ordering.gt ↦ j ∷ rest | _ ↦ e ∷ j ∷ es ]

abbrev pub cons_text : Option Str → Option (List Str) → Option (List Str)
cons_text none ts = none
cons_text (some t) none = none
cons_text (some t) (some ts) = some (t ∷ ts)

abbrev pub place : Str → Option Str → Option (List Entry) → Option (List Entry)
place k none es = none
place k (some t) none = none
place k (some t) (some es) = some (insert_entry (record { key = k; text = t }) es)

abbrev pub entry_texts : List Entry → List Str
entry_texts [] = []
entry_texts (e ∷ es) = (write_string e.key ++ 58 ∷ e.text) ∷ entry_texts es

abbrev pub bracketed : Option (List Str) → Option Str
bracketed none = none
bracketed (some ts) = some (91 ∷ (join (bytes ",") ts ++ 93 ∷ []))

abbrev pub braced : Option (List Entry) → Option Str
braced none = none
braced (some es) = some (123 ∷ (join (bytes ",") (entry_texts es) ++ 125 ∷ []))

module _ {F : Type 0} (n : Numbers F) where
  abbrev pub as_double : Option F → Option Str
  as_double none = none
  as_double (some f) = es_number n f

  unfoldable pub write_number : Str → Option Str
  write_number t = elim (exact_i64 (n.as_i64 t)) [
    | some s ↦ some s
    | none ↦ elim (exact_u64 (n.as_u64 t)) [ some s ↦ some s | none ↦ as_double (n.as_f64 t) ]
  ]

  -- The entries of an object are sorted as they are written: an insertion puts each before those
  -- behind it that are not smaller, which sorts by key and keeps the order of equal keys.
  unfoldable mutual
    unfolding write_number write_string

    pub write_value : Value → Option Str
    write_value null = some (bytes "null")
    write_value (bool true) = some (bytes "true")
    write_value (bool false) = some (bytes "false")
    write_value (number t) = write_number t
    write_value (string s) = some (write_string s)
    write_value (array is) = bracketed (write_items is)
    write_value (object fs) = braced (sorted_entries fs)

    pub write_items : Items → Option (List Str)
    write_items Items.no_items = some []
    write_items (Items.item v is) = cons_text (write_value v) (write_items is)

    pub sorted_entries : Fields → Option (List Entry)
    sorted_entries Fields.no_fields = some []
    sorted_entries (Fields.field k v fs) = place k (write_value v) (sorted_entries fs)

  unfoldable pub to_canonical_string : Value → Option Str
  unfolding write_value
  to_canonical_string v = write_value v

  abbrev pub or_empty : Option Str → Str
  or_empty none = []
  or_empty (some t) = t

  -- The text that is returned, and none of it on a panic.
  unfoldable pub canonical_text : Value → Str
  unfolding to_canonical_string
  canonical_text v = or_empty (to_canonical_string v)

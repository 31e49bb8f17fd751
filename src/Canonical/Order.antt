-- ===== src/Canonical/Order.antt =====
-- The order of an object's fields does not show in its canonical text.
use Prim.Native.Nat.{Ordering}
use openporch.Prelude.{Str, ap, ◌∙◌, List, [], ◌∷◌, Option, none, some, ◌≡◌, ◌≢◌, refl, arith}
use openporch.Prelude.Order.{
  str_cmp-eq, str_cmp-swap_lt, str_cmp-swap_gt, str_cmp_trans, str_cmp-swap_eq,
}
use openporch.Placeholder.Json.{Value, Items, Fields}
use openporch.Canonical.Number.{Numbers}
use openporch.Canonical.Utf16.{IsText, encode_utf16-injective}
use openporch.Canonical.Write.{
  encode_utf16, key_cmp, Entry, insert_entry, place, bracketed, braced, write_value, write_items,
  sorted_entries, to_canonical_string,
}

-- Values that are the same but for the order of the fields of their objects, at every depth. Two
-- fields may change places where their keys differ.
mutual
  pub data Same : Value → Value → Type 0 where
    same : (v : Value) → Same v v
    array : {is js : Items} → SameItems is js → Same (Value.array is) (Value.array js)
    object : {fs gs : Fields} → SameFields fs gs → Same (Value.object fs) (Value.object gs)

  pub data SameItems : Items → Items → Type 0 where
    no_items : SameItems Items.no_items Items.no_items
    item :
        {v w : Value} {is js : Items}
        → Same v w
        → SameItems is js
        → SameItems (Items.item v is) (Items.item w js)

  pub data SameFields : Fields → Fields → Type 0 where
    no_fields : SameFields Fields.no_fields Fields.no_fields
    field :
        {v w : Value} {fs gs : Fields} (k : Str)
        → Same v w
        → SameFields fs gs
        → SameFields (Fields.field k v fs) (Fields.field k w gs)
    swap :
        (k j : Str) (v w : Value) (fs : Fields)
        → IsText k
        → IsText j
        → k ≢ j
        → SameFields
            (Fields.field k v (Fields.field j w fs))
            (Fields.field j w (Fields.field k v fs))
    trans : {fs gs hs : Fields} → SameFields fs gs → SameFields gs hs → SameFields fs hs

key_cmp-swap_lt : (a b : Str) → key_cmp a b ≡ Ordering.lt → key_cmp b a ≡ Ordering.gt
unfolding key_cmp
key_cmp-swap_lt a b = str_cmp-swap_lt (encode_utf16 a) (encode_utf16 b)

key_cmp-swap_gt : (a b : Str) → key_cmp a b ≡ Ordering.gt → key_cmp b a ≡ Ordering.lt
unfolding key_cmp
key_cmp-swap_gt a b = str_cmp-swap_gt (encode_utf16 a) (encode_utf16 b)

key_cmp-swap_eq : (a b : Str) → key_cmp a b ≡ Ordering.eq → key_cmp b a ≡ Ordering.eq
unfolding key_cmp
key_cmp-swap_eq a b = str_cmp-swap_eq (encode_utf16 a) (encode_utf16 b)

key_cmp_trans :
    (a b c : Str)
    → key_cmp a b ≡ Ordering.lt
    → key_cmp b c ≡ Ordering.lt
    → key_cmp a c ≡ Ordering.lt
unfolding key_cmp
key_cmp_trans a b c = str_cmp_trans (encode_utf16 a) (encode_utf16 b) (encode_utf16 c)

-- Keys that are the same in UTF-16 compare alike to a third.
key_cmp-same : (a b c : Str) → key_cmp a b ≡ Ordering.eq → key_cmp a c ≡ key_cmp b c
unfolding key_cmp
key_cmp-same a b c h = rw (str_cmp-eq (encode_utf16 a) (encode_utf16 b) h) refl

key_cmp-differ : (a b : Str) → encode_utf16 a ≢ encode_utf16 b → key_cmp a b ≢ Ordering.eq
unfolding key_cmp
key_cmp-differ a b n e = n (str_cmp-eq (encode_utf16 a) (encode_utf16 b) e)

insert_entry_comm :
    (a b : Entry) (es : List Entry)
    → key_cmp a.key b.key ≢ Ordering.eq
    → insert_entry a (insert_entry b es) ≡ insert_entry b (insert_entry a es)
unfolding insert_entry
insert_entry_comm a b [] n =
    ground (arith, key_cmp-swap_gt a.key b.key, key_cmp-swap_lt a.key b.key)
insert_entry_comm a b (j ∷ es) n = ground (
  arith,
  key_cmp-swap_gt a.key b.key,
  key_cmp-swap_lt a.key b.key,
  key_cmp-swap_gt b.key a.key,
  key_cmp-swap_gt a.key j.key,
  key_cmp-swap_gt b.key j.key,
  key_cmp_trans a.key j.key b.key,
  key_cmp_trans b.key j.key a.key,
  key_cmp-swap_lt a.key j.key,
  key_cmp-same a.key j.key b.key,
  key_cmp-same b.key j.key a.key,
  key_cmp-swap_eq a.key j.key,
  key_cmp-swap_eq b.key j.key,
  insert_entry_comm a b es n,
)

place_comm :
    (k j : Str) (s t : Option Str) (es : Option (List Entry))
    → encode_utf16 k ≢ encode_utf16 j
    → place k s (place j t es) ≡ place j t (place k s es)
place_comm k j none none es n = refl
place_comm k j none (some t) none n = refl
place_comm k j none (some t) (some es) n = refl
place_comm k j (some s) none es n = elim es [ none ↦ refl | some es' ↦ refl ]
place_comm k j (some s) (some t) none n = refl
place_comm k j (some s) (some t) (some es) n = ap some (
    insert_entry_comm (record { key = k; text = s }) (record { key = j; text = t }) es
      (key_cmp-differ k j n))

module _ {F : Type 0} (n : Numbers F) where
  mutual
    unfolding write_value

    write_value-Same : {v w : Value} → Same v w → write_value n v ≡ write_value n w
    write_value-Same (Same.same v) = refl
    write_value-Same (Same.array p) = ap bracketed (write_items-Same p)
    write_value-Same (Same.object p) = ap braced (sorted_entries-Same p)

    write_items-Same : {is js : Items} → SameItems is js → write_items n is ≡ write_items n js
    write_items-Same SameItems.no_items = refl
    write_items-Same (SameItems.item p q) = rw (write_value-Same p, write_items-Same q) refl

    sorted_entries-Same :
        {fs gs : Fields} → SameFields fs gs → sorted_entries n fs ≡ sorted_entries n gs
    sorted_entries-Same SameFields.no_fields = refl
    sorted_entries-Same (SameFields.field k p q) =
        rw (write_value-Same p, sorted_entries-Same q) refl
    sorted_entries-Same (SameFields.swap k j v w fs tk tj d) =
        place_comm k j (write_value n v) (write_value n w) (sorted_entries n fs)
          (λ e. d (encode_utf16-injective k j tk tj e))
    sorted_entries-Same (SameFields.trans p q) = sorted_entries-Same p ∙ sorted_entries-Same q

  -- Two values that differ only in the order of the fields of their objects, at any depth, where
  -- the fields of an object that change places have different keys, have the same canonical text.
  pub to_canonical_string-Same :
      {v w : Value} → Same v w → to_canonical_string n v ≡ to_canonical_string n w
  unfolding to_canonical_string
  to_canonical_string-Same = write_value-Same

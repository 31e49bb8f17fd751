-- ===== src/Placeholder/Json.antt =====
-- JSON values, and values that hold secret references in place of strings
-- (crates/core/src/placeholder.rs, crates/core/src/model.rs). A number is its text.
use openporch.Prelude.{Str, Bool, true, false, List, [], ◌∷◌, ◌++◌, Option, none, some}
use openporch.Prelude.Result.{Result, ok, ◌>>=◌}

pub record SecretRef : Type 0 where
  pub store : Str
  pub reference : Str
  pub version : Option Str

-- `serde_json::Value`. The entries of an object are in their order.
mutual
  pub data Value : Type 0 where
    null : Value
    bool : Bool → Value
    number : Str → Value
    string : Str → Value
    array : Items → Value
    object : Fields → Value

  pub data Items : Type 0 where
    no_items : Items
    item : Value → Items → Items

  pub data Fields : Type 0 where
    no_fields : Fields
    field : Str → Value → Fields → Fields

pub data SecretPart : Type 0 where
  literal : Str → SecretPart
  secret : SecretRef → SecretPart

-- `SecretExpr`, by its parts.
pub record SecretExpr : Type 0 where
  pub parts : List SecretPart

-- `SecretExpr::whole`
abbrev pub whole_secret : SecretRef → SecretExpr
whole_secret r = record { parts = secret r ∷ [] }

-- `SecretExpr::references`
unfoldable pub references_in : List SecretPart → List SecretRef
references_in [] = []
references_in (literal s ∷ ps) = references_in ps
references_in (secret r ∷ ps) = r ∷ references_in ps

-- `SecretExpr::render`
unfoldable pub render_parts {ℓ} :
    {E : Type ℓ} → (SecretRef → Result E Str) → List SecretPart → Str → Result E Str
render_parts read [] out = ok out
render_parts read (literal s ∷ ps) out = render_parts read ps (out ++ s)
render_parts read (secret r ∷ ps) out = read r >>= λ s. render_parts read ps (out ++ s)

-- `SecretExpr::push_literal`: onto a literal that stands last.
unfoldable pub push_literal : Str → List SecretPart → List SecretPart
push_literal [] [] = []
push_literal (c ∷ s) [] = literal (c ∷ s) ∷ []
push_literal s (literal t ∷ []) = literal (t ++ s) ∷ []
push_literal [] (secret r ∷ []) = secret r ∷ []
push_literal (c ∷ s) (secret r ∷ []) = secret r ∷ literal (c ∷ s) ∷ []
push_literal s (p ∷ q ∷ ps) = p ∷ push_literal s (q ∷ ps)

mutual
  pub data Resolved : Type 0 where
    plain : Value → Resolved
    secret_text : SecretExpr → Resolved
    mixed_array : ResolvedItems → Resolved
    mixed_object : ResolvedFields → Resolved

  pub data ResolvedItems : Type 0 where
    no_items : ResolvedItems
    item : Resolved → ResolvedItems → ResolvedItems

  pub data ResolvedFields : Type 0 where
    no_fields : ResolvedFields
    field : Str → Resolved → ResolvedFields → ResolvedFields

-- `Resolved::is_tainted`
abbrev pub is_tainted : Resolved → Bool
is_tainted (plain v) = false
is_tainted (secret_text e) = true
is_tainted (mixed_array rs) = true
is_tainted (mixed_object rs) = true

-- `Resolved::as_plain`
abbrev pub as_plain : Resolved → Option Value
as_plain (plain v) = some v
as_plain (secret_text e) = none
as_plain (mixed_array rs) = none
as_plain (mixed_object rs) = none

-- The values of items that are all plain.
abbrev pub prepend_item : Option Value → Option Items → Option Items
prepend_item none vs = none
prepend_item (some v) none = none
prepend_item (some v) (some vs) = some (Items.item v vs)

abbrev pub plain_items : ResolvedItems → Option Items
plain_items no_items = some Items.no_items
plain_items (item r rs) = prepend_item (as_plain r) (plain_items rs)

abbrev pub prepend_field : Str → Option Value → Option Fields → Option Fields
prepend_field k none vs = none
prepend_field k (some v) none = none
prepend_field k (some v) (some vs) = some (Fields.field k v vs)

abbrev pub plain_fields : ResolvedFields → Option Fields
plain_fields no_fields = some Fields.no_fields
plain_fields (field k r rs) = prepend_field k (as_plain r) (plain_fields rs)

-- `Resolved::array` and `Resolved::object`: plain where every part is.
unfoldable pub resolved_array : ResolvedItems → Resolved
resolved_array rs = elim (plain_items rs) [ none ↦ mixed_array rs | some vs ↦ plain (array vs) ]

unfoldable pub resolved_object : ResolvedFields → Resolved
resolved_object rs = elim (plain_fields rs) [ none ↦ mixed_object rs | some vs ↦ plain (object vs) ]

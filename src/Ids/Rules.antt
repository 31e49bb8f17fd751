-- ===== src/Ids/Rules.antt =====
-- The validation rules of crates/core/src/ids.rs. A text is the list of its bytes.
use openporch.Prelude.{
  ℕ, Str, bytes, Bool, true, false, not, ◌&&◌, ◌||◌, [], ◌∷◌, ◌++◌, none, some, if◌then◌else◌, ltb,
  leb, nat_beq, length, is_nil, all,
}
use openporch.Prelude.Result.{Result, ok, err}
use openporch.Prelude.Split.{has_char, split_once, split}
use openporch.Ids.Types.{WorkloadId, ClassId, ResourceTypeId, ResId}

abbrev pub max_id_len : ℕ
max_id_len = 50

pub record IdError : Type 0 where
  pub kind : Str
  pub value : Str
  pub reason : Str

abbrev pub is_ascii_lowercase : ℕ → Bool
is_ascii_lowercase c = leb 97 c && leb c 122

abbrev pub is_ascii_uppercase : ℕ → Bool
is_ascii_uppercase c = leb 65 c && leb c 90

abbrev pub is_ascii_digit : ℕ → Bool
is_ascii_digit c = leb 48 c && leb c 57

abbrev pub is_ascii_alphanumeric : ℕ → Bool
is_ascii_alphanumeric c = is_ascii_lowercase c || is_ascii_uppercase c || is_ascii_digit c

abbrev pub hyphen : ℕ
hyphen = 45

unfoldable pub alnum : ℕ → Bool
alnum c = is_ascii_lowercase c || is_ascii_digit c

-- `b[0]` and `b[b.len() - 1]`, of a text that is not empty.
abbrev pub last_of : ℕ → Str → ℕ
last_of c [] = c
last_of c (d ∷ s) = last_of d s

-- The test of one window of two bytes.
unfoldable pub window_ok : ℕ → ℕ → Bool
unfolding alnum
window_ok x y =
    if nat_beq x hyphen && nat_beq y hyphen
    then false
    else (alnum x || nat_beq x hyphen) && (alnum y || nat_beq y hyphen)

-- `b.windows(2).all(..)`.
unfoldable pub windows_ok : Str → Bool
unfolding window_ok
windows_ok [] = true
windows_ok (x ∷ []) = true
windows_ok (x ∷ y ∷ s) = window_ok x y && windows_ok (y ∷ s)

unfoldable pub is_valid_object_id : Str → Bool
unfolding alnum windows_ok
is_valid_object_id [] = false
is_valid_object_id (c ∷ s) =
    if ltb (length (c ∷ s)) 2 || ltb max_id_len (length (c ∷ s))
    then false
    else if not (alnum c) || not (alnum (last_of c s))
    then false
    else windows_ok (c ∷ s)

abbrev pub object_id_rule : Str
object_id_rule =
    bytes
      "IDs use lowercase letters, digits and single hyphens, start and end with a letter or digit, and are 2 to 50 characters long"

-- `new` of the types of `object_id!` and of `ClassId`, by their kind.
unfoldable pub object_id_new : Str → Str → Result IdError Str
unfolding is_valid_object_id
object_id_new kind s =
    if is_valid_object_id s
    then ok s
    else err (record { kind = kind; value = s; reason = object_id_rule })

abbrev pub class_new : Str → Result IdError ClassId
class_new s = object_id_new (bytes "class") s

abbrev pub starts_with_hyphen : Str → Bool
starts_with_hyphen [] = false
starts_with_hyphen (c ∷ s) = nat_beq c hyphen

abbrev pub ends_with_hyphen : Str → Bool
ends_with_hyphen [] = false
ends_with_hyphen (c ∷ s) = nat_beq (last_of c s) hyphen

unfoldable pub is_type_name : Str → Bool
unfolding alnum
is_type_name s =
    not (is_nil s)
    && leb (length s) max_id_len
    && all (λ c. alnum c || nat_beq c hyphen) s
    && not (starts_with_hyphen s)
    && not (ends_with_hyphen s)

abbrev pub slash : ℕ
slash = 47

unfoldable pub is_resource_type : Str → Bool
unfolding is_valid_object_id is_type_name
is_resource_type s = elim (split_once slash s) [
  | none ↦ is_type_name s
  | some (org, name) ↦ is_valid_object_id org && is_type_name name
]

abbrev pub type_rule : Str
type_rule = bytes "types are lowercase names such as `postgres`, or `{org}/{name}` for custom types"

unfoldable pub resource_type_new : Str → Result IdError ResourceTypeId
unfolding is_resource_type
resource_type_new s =
    if is_resource_type s
    then ok s
    else err (record { kind = bytes "resource type"; value = s; reason = type_rule })

-- `ResourceTypeId::is_custom`.
abbrev pub is_custom : ResourceTypeId → Bool
is_custom t = has_char slash t

unfoldable pub res_id_char : ℕ → Bool
res_id_char c = is_ascii_alphanumeric c || nat_beq c hyphen || nat_beq c 95

abbrev pub dot : ℕ
dot = 46

unfoldable pub is_res_id : Str → Bool
unfolding res_id_char
is_res_id s =
    not (is_nil s)
    && leb (length s) 255
    && all (λ seg. not (is_nil seg) && all res_id_char seg) (split dot s)

abbrev pub res_id_rule : Str
res_id_rule = bytes "resource IDs are dot-separated segments of letters, digits, `-` and `_`"

unfoldable pub res_id_new : Str → Result IdError ResId
unfolding is_res_id
res_id_new s =
    if is_res_id s
    then ok s
    else err (record { kind = bytes "resource ID"; value = s; reason = res_id_rule })

-- `ResId::workload`, `ResId::private` and `ResId::shared`.
unfoldable pub res_id_workload : WorkloadId → ResId
res_id_workload w = bytes "modules." ++ w

unfoldable pub res_id_private : WorkloadId → Str → Result IdError ResId
unfolding res_id_new
res_id_private w key = res_id_new (bytes "modules." ++ w ++ bytes ".externals." ++ key)

unfoldable pub res_id_shared : Str → Result IdError ResId
unfolding res_id_new
res_id_shared id = res_id_new (bytes "shared." ++ id)

abbrev pub is_hex : ℕ → Bool
is_hex c = is_ascii_digit c || (leb 97 c && leb c 102)

unfoldable pub guresid_new : Str → Result IdError Str
guresid_new s =
    if nat_beq (length s) 32 && all is_hex s
    then ok s
    else err (record {
      kind = bytes "GUResID";
      value = s;
      reason = bytes "expected 32 lowercase hexadecimal characters";
    })

-- ===== src/Placeholder/Ref.antt =====
-- References to resources: `ResourceRef` with its text and its resolution.
use openporch.Prelude.{Str, bytes, Bool, true, false, ◌++◌, [], Option, none, some}
use openporch.Prelude.Result.{Result, ok, err, ◌>>=◌}
use openporch.Prelude.Split.{split_once, replace}
use openporch.Ids.Types.{ResourceTypeId, ClassId, ResId, Descriptor, default_class}
use openporch.Ids.Rules.{
  IdError, dot, hyphen, slash, class_new, object_id_new, resource_type_new, res_id_new,
}
use openporch.Ids.Parse.{sharp}

pub record ResourceRef : Type 0 where
  pub ty : ResourceTypeId
  pub class : Option ClassId
  pub id : Option ResId

-- An optional part is read where it is there.
abbrev pub read_part : (Str → Result IdError Str) → Option Str → Result IdError (Option Str)
read_part new none = ok none
read_part new (some s) = new s >>= λ t. ok (some t)

-- `split_once`, with the whole text before a separator that is not there.
abbrev pub head_of : Str → Option (Str × Str) → Str
head_of s none = s
head_of s (some (a, b)) = a

abbrev pub tail_of : Option (Str × Str) → Option Str
tail_of none = none
tail_of (some (a, b)) = some b

unfoldable pub resource_ref_parse : Str → Result IdError ResourceRef
unfolding object_id_new resource_type_new res_id_new
resource_ref_parse s =
    let head = head_of s (split_once sharp s) in
    (do
      id ← read_part res_id_new (tail_of (split_once sharp s))
      class ← read_part class_new (tail_of (split_once dot head))
      ty ← resource_type_new (head_of head (split_once dot head))
      ok (record { ty = ty; class = class; id = id }))

-- `Display` of a reference.
abbrev pub part_text : Str → Option Str → Str
part_text sep none = []
part_text sep (some s) = sep ++ s

unfoldable pub resource_ref_to_string : ResourceRef → Str
resource_ref_to_string r = r.ty ++ part_text (bytes ".") r.class ++ part_text (bytes "#") r.id

abbrev pub or_else {ℓ} : {A : Type ℓ} → Option A → A → A
or_else none b = b
or_else (some a) b = a

abbrev pub or_panic : Option ResId → Result IdError ResId → Option ResId
or_panic (some id) r = some id
or_panic none (ok id) = some id
or_panic none (err e) = none

-- `ResourceRef::resolve`. `none` is the panic of the `expect`.
unfoldable pub resolve_ref : ResourceRef → Descriptor → Bool → Option Descriptor
unfolding res_id_new
resolve_ref r referrer true = elim (or_panic r.id (res_id_new (replace slash hyphen r.ty))) [
  | none ↦ none
  | some id ↦ some (record { ty = r.ty; class = or_else r.class default_class; id = id })
]
resolve_ref r referrer false =
    some
      (record { ty = r.ty; class = or_else r.class referrer.class; id = or_else r.id referrer.id })

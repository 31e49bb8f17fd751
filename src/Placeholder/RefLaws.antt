-- ===== src/Placeholder/RefLaws.antt =====
-- References are read back from their text, and their resolution never panics.
use openporch.Prelude.{
  ℕ, Str, bytes, Bool, true, false, [], ◌∷◌, ◌++◌, Option, none, some, ◌≡◌, refl, sym, ap, ◌∙◌, ◌↔◌,
  subst, inl, inr, Option-cases, append_nil,
}
use openporch.Prelude.Result.{ok, >>=-ok, ok_inj}
use openporch.Prelude.Split.{
  has_char, has_char-append, split_once, split_once-append, split_once-none, append_of_split_once,
}
use openporch.Ids.Rules.{
  dot, class_new, resource_type_new, res_id_new, is_resource_type, is_valid_object_id, is_res_id,
  alnum,
}
use openporch.Ids.Parse.{sharp}
use openporch.Ids.Chars.{object_id-absent, resource_type-absent, id_char, type_char}
use openporch.Ids.RoundTrip.{
  resource_type_new-ok, object_id_new-ok, res_id_new-ok, resource_type_new_of, object_id_new_of,
  res_id_new_of,
}
use openporch.Placeholder.Ref.{
  ResourceRef, read_part, head_of, tail_of, resource_ref_parse, part_text, resource_ref_to_string,
}

-- An optional part that is there is valid.
abbrev pub PartIsValid : (Str → Bool) → Option Str → Type 0
PartIsValid p none = Unit
PartIsValid p (some s) = p s ≡ true

pub record IsValid (r : ResourceRef) : Type 0 where
  pub ty : is_resource_type r.ty ≡ true
  pub class : PartIsValid is_valid_object_id r.class
  pub id : PartIsValid is_res_id r.id

-- The text before the ID.
abbrev head_text : ResourceRef → Str
head_text r = r.ty ++ part_text (bytes ".") r.class

no_dot : (r : ResourceRef) → IsValid r → has_char dot r.ty ≡ false
unfolding type_char id_char alnum
no_dot r v = resource_type-absent dot r.ty refl v.ty

part_no_sharp :
    (o : Option Str)
    → PartIsValid is_valid_object_id o
    → has_char sharp (part_text (bytes ".") o) ≡ false
unfolding id_char alnum
part_no_sharp none v = refl
part_no_sharp (some c) v = object_id-absent sharp c refl v

no_sharp : (r : ResourceRef) → IsValid r → has_char sharp (head_text r) ≡ false
unfolding type_char id_char alnum
no_sharp r v =
    has_char-append sharp r.ty (part_text (bytes ".") r.class)
      (resource_type-absent sharp r.ty refl v.ty) (part_no_sharp r.class v.class)

-- A text and an optional part after a separator are split again.
split-part :
    (c : ℕ) (a : Str) (o : Option Str)
    → has_char c a ≡ false
    → (head_of (a ++ part_text (c ∷ []) o) (split_once c (a ++ part_text (c ∷ []) o)) ≡ a)
      × (tail_of (split_once c (a ++ part_text (c ∷ []) o)) ≡ o)
split-part c a none h = rw (append_nil a, split_once-none c a h) (refl, refl)
split-part c a (some b) h = rw (split_once-append c a b h) (refl, refl)

part_of_split :
    (c : ℕ) (s : Str)
    → s ≡ head_of s (split_once c s) ++ part_text (c ∷ []) (tail_of (split_once c s))
part_of_split c s = elim (Option-cases (split_once c s)) [
  | inl e ↦ rw e (sym (append_nil s))
  | inr ((a, b), e) ↦ rw e (append_of_split_once c s e).0
]

read_part-class : (o : Option Str) → PartIsValid is_valid_object_id o → read_part class_new o ≡ ok o
read_part-class none v = refl
read_part-class (some s) v = rw (object_id_new_of (bytes "class") s v)

read_part-id : (o : Option Str) → PartIsValid is_res_id o → read_part res_id_new o ≡ ok o
read_part-id none v = refl
read_part-id (some s) v = rw (res_id_new_of s v)

read_part-class_ok :
    (o : Option Str) {p : Option Str}
    → read_part class_new o ≡ ok p
    → (o ≡ p) × PartIsValid is_valid_object_id p
read_part-class_ok none h = (ok_inj h, subst (PartIsValid is_valid_object_id) (ok_inj h) tt)
read_part-class_ok (some s) h =
    let (t, e, f) = >>=-ok (class_new s) h in
    let (v, q) = object_id_new-ok (bytes "class") s e in
    let same = ap some q ∙ ok_inj f in (same, subst (PartIsValid is_valid_object_id) same v)

read_part-id_ok :
    (o : Option Str) {p : Option Str}
    → read_part res_id_new o ≡ ok p
    → (o ≡ p) × PartIsValid is_res_id p
read_part-id_ok none h = (ok_inj h, subst (PartIsValid is_res_id) (ok_inj h) tt)
read_part-id_ok (some s) h =
    let (t, e, f) = >>=-ok (res_id_new s) h in
    let (v, q) = res_id_new-ok s e in
    let same = ap some q ∙ ok_inj f in (same, subst (PartIsValid is_res_id) same v)

parse-text : (r : ResourceRef) → IsValid r → resource_ref_parse (resource_ref_to_string r) ≡ ok r
unfolding resource_ref_parse resource_ref_to_string
parse-text r v =
    let (h1, t1) = split-part sharp (head_text r) r.id (no_sharp r v) in
    let (h2, t2) = split-part dot r.ty r.class (no_dot r v) in
    rw (
      h1,
      t1,
      h2,
      t2,
      read_part-id r.id v.id,
      read_part-class r.class v.class,
      resource_type_new_of r.ty v.ty,
    )

text_of_parse :
    (s : Str) (r : ResourceRef)
    → resource_ref_parse s ≡ ok r
    → (s ≡ resource_ref_to_string r) × IsValid r
unfolding resource_ref_parse resource_ref_to_string
text_of_parse s r h =
    let head = head_of s (split_once sharp s) in
    let (id, e1, h1) = >>=-ok (read_part res_id_new (tail_of (split_once sharp s))) h in
    let (class, e2, h2) = >>=-ok (read_part class_new (tail_of (split_once dot head))) h1 in
    let (ty, e3, h3) = >>=-ok (resource_type_new (head_of head (split_once dot head))) h2 in
    let (p1, v1) = read_part-id_ok (tail_of (split_once sharp s)) e1 in
    let (p2, v2) = read_part-class_ok (tail_of (split_once dot head)) e2 in
    let (v3, p3) = resource_type_new-ok (head_of head (split_once dot head)) e3 in
    let read : record { ty = ty; class = class; id = id } ≡ r = ok_inj h3 in
    (
      part_of_split sharp s
          ∙ (λ i. part_of_split dot head i ++ part_text (bytes "#") (p1 i))
          ∙ (λ i. p3 i ++ part_text (bytes ".") (p2 i) ++ part_text (bytes "#") id)
          ∙ ap resource_ref_to_string read,
      subst IsValid read
          (record { ty = subst (λ t. is_resource_type t ≡ true) p3 v3; class = v2; id = v1 }),
    )

-- A text is read as a reference exactly where it is the text of that reference and the parts of
-- the reference that are there are valid.
pub resource_ref_parse_iff :
    (s : Str) (r : ResourceRef)
    → (resource_ref_parse s ≡ ok r) ↔ ((s ≡ resource_ref_to_string r) × IsValid r)
resource_ref_parse_iff s r = (text_of_parse s r, λ (e, v). ap resource_ref_parse e ∙ parse-text r v)

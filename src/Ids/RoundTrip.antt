-- ===== src/Ids/RoundTrip.antt =====
-- Descriptors are read back from their text.
use openporch.Prelude.{
  Str, bytes, Bool, true, false, ◌∷◌, ◌++◌, Option, none, some, if◌then◌else◌, ◌≡◌, refl, sym, ap,
  ◌∙◌, ◌↔◌, subst,
}
use mathlib.Core.List.{append_assoc}
use openporch.Prelude.Result.{ok, err, >>=-ok, ok_inj}
use openporch.Prelude.Split.{
  has_char, has_char-append, split_once, split_once-append, append_of_split_once,
}
use openporch.Ids.Types.{Descriptor, descriptor_to_string}
use openporch.Ids.Rules.{
  IdError, dot, class_new, resource_type_new, res_id_new, object_id_new, is_resource_type,
  is_valid_object_id, is_res_id, alnum,
}
use openporch.Ids.Parse.{sharp, ok_or, descriptor_error, descriptor_parse}
use openporch.Ids.Chars.{object_id-absent, resource_type-absent, id_char, type_char}

pub record IsValid (d : Descriptor) : Type 0 where
  pub ty : is_resource_type d.ty ≡ true
  pub class : is_valid_object_id d.class ≡ true
  pub id : is_res_id d.id ≡ true

-- A check either gives the text back or fails.
checked :
    (b : Bool) (s : Str) (e : IdError) {t : Str}
    → (if b then ok s else err e) ≡ ok t
    → (b ≡ true) × (s ≡ t)
checked true s e h = (refl, ok_inj h)
checked false s e h = absurd (cc)

pub resource_type_new-ok :
    (s : Str) {t : Str} → resource_type_new s ≡ ok t → (is_resource_type s ≡ true) × (s ≡ t)
unfolding resource_type_new
resource_type_new-ok s h = checked (is_resource_type s) s _ h

pub object_id_new-ok :
    (kind s : Str) {t : Str} → object_id_new kind s ≡ ok t → (is_valid_object_id s ≡ true) × (s ≡ t)
unfolding object_id_new
object_id_new-ok kind s h = checked (is_valid_object_id s) s _ h

pub res_id_new-ok : (s : Str) {t : Str} → res_id_new s ≡ ok t → (is_res_id s ≡ true) × (s ≡ t)
unfolding res_id_new
res_id_new-ok s h = checked (is_res_id s) s _ h

pub resource_type_new_of : (s : Str) → is_resource_type s ≡ true → resource_type_new s ≡ ok s
unfolding resource_type_new
resource_type_new_of s h = rw h

pub object_id_new_of : (kind s : Str) → is_valid_object_id s ≡ true → object_id_new kind s ≡ ok s
unfolding object_id_new
object_id_new_of kind s h = rw h

pub res_id_new_of : (s : Str) → is_res_id s ≡ true → res_id_new s ≡ ok s
unfolding res_id_new
res_id_new_of s h = rw h

pub ok_or-eq_ok {ℓ} :
    {A : Type ℓ} (e : IdError) (o : Option A) {a : A} → ok_or e o ≡ ok a → o ≡ some a
ok_or-eq_ok e none h = absurd (cc)
ok_or-eq_ok e (some a) h = ap some (ok_inj h)

-- The text of a descriptor, as it is split.
descriptor_to_string-split :
    (d : Descriptor) → descriptor_to_string d ≡ (d.ty ++ dot ∷ d.class) ++ sharp ∷ d.id
unfolding descriptor_to_string
descriptor_to_string-split d = simp append_assoc

no_dot : (d : Descriptor) → IsValid d → has_char dot d.ty ≡ false
unfolding type_char id_char alnum
no_dot d v = resource_type-absent dot d.ty refl v.ty

no_sharp : (d : Descriptor) → IsValid d → has_char sharp (d.ty ++ dot ∷ d.class) ≡ false
unfolding type_char id_char alnum
no_sharp d v =
    has_char-append sharp d.ty (dot ∷ d.class) (resource_type-absent sharp d.ty refl v.ty)
      (object_id-absent sharp d.class refl v.class)

parse-text : (d : Descriptor) → IsValid d → descriptor_parse (descriptor_to_string d) ≡ ok d
unfolding descriptor_parse
parse-text d v = rw (
  descriptor_to_string-split d,
  split_once-append sharp (d.ty ++ dot ∷ d.class) d.id (no_sharp d v),
  split_once-append dot d.ty d.class (no_dot d v),
  resource_type_new_of d.ty v.ty,
  object_id_new_of (bytes "class") d.class v.class,
  res_id_new_of d.id v.id,
)

text_of_parse :
    (s : Str) (d : Descriptor)
    → descriptor_parse s ≡ ok d
    → (s ≡ descriptor_to_string d) × IsValid d
unfolding descriptor_parse
text_of_parse s d h =
    let ((head, id), e1, h1) = >>=-ok (ok_or (descriptor_error s) (split_once sharp s)) h in
    let ((ty, class), e2, h2) = >>=-ok (ok_or (descriptor_error s) (split_once dot head)) h1 in
    let (ty', e3, h3) = >>=-ok (resource_type_new ty) h2 in
    let (class', e4, h4) = >>=-ok (class_new class) h3 in
    let (id', e5, h5) = >>=-ok (res_id_new id) h4 in
    let (vt, pt) = resource_type_new-ok ty e3 in
    let (vc, pc) = object_id_new-ok (bytes "class") class e4 in
    let (vi, pi) = res_id_new-ok id e5 in
    let read : record { ty = ty'; class = class'; id = id' } ≡ d = ok_inj h5 in
    let same : record { ty = ty; class = class; id = id } ≡ d =
      (λ i. record { ty = pt i; class = pc i; id = pi i }) ∙ read in
    let s1 = (append_of_split_once sharp s (ok_or-eq_ok _ _ e1)).0 in
    let s2 = (append_of_split_once dot head (ok_or-eq_ok _ _ e2)).0 in
    (
      s1
          ∙ ap (λ x. x ++ sharp ∷ id) s2
          ∙ sym (descriptor_to_string-split (record { ty = ty; class = class; id = id }))
          ∙ ap descriptor_to_string same,
      subst IsValid same (record { ty = vt; class = vc; id = vi }),
    )

-- A text is read as a descriptor exactly where it is the text of that descriptor and the
-- descriptor's type, class and ID are valid.
pub descriptor_parse_iff :
    (s : Str) (d : Descriptor)
    → (descriptor_parse s ≡ ok d) ↔ ((s ≡ descriptor_to_string d) × IsValid d)
descriptor_parse_iff s d = (text_of_parse s d, λ (e, v). ap descriptor_parse e ∙ parse-text d v)

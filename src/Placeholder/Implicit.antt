-- ===== src/Placeholder/Implicit.antt =====
-- The ID that a reference to an implicit type has: the name of the type, which is a resource ID.
use openporch.Prelude.{
  ℕ, ◌≤◌, ◌<◌, Str, bytes, Bool, true, false, ◌&&◌, [], ◌∷◌, Option, none, some, nat_beq, leb,
  length, all, ◌≡◌, refl, ap, inl, inr, arith, if◌then◌else◌, Option-cases, and_left, and_right,
  length-append, leb→le,
}
use openporch.Prelude.Result.{ok}
use openporch.Prelude.Split.{
  split_once, replace, append_of_split_once, split_of_absent, length-replace, has_char-eq_false,
}
use openporch.Ids.Types.{Descriptor, default_class}
use openporch.Ids.Rules.{
  dot, hyphen, slash, is_resource_type, is_valid_object_id, is_type_name, is_res_id, res_id_char,
  alnum, max_id_len,
}
use openporch.Ids.ObjectId.{is_valid_object_id_iff}
use openporch.Ids.Chars.{resource_type-chars, id_char, type_char}
use openporch.Ids.RoundTrip.{res_id_new_of, IsValid as IsDescriptor}
use openporch.Placeholder.Ref.{ResourceRef, or_else, or_panic, resolve_ref}
use openporch.Placeholder.RefLaws.{IsValid, PartIsValid}

length_of_type_name : (s : Str) → is_type_name s ≡ true → (0 < length s) × (length s ≤ 50)
unfolding is_type_name
length_of_type_name [] h = absurd (cc)
length_of_type_name (c ∷ s) h =
    let long = and_left _ _ (and_left _ _ (and_left _ _ h)) in
    (omega arith, leb→le (length (c ∷ s)) max_id_len long)

pub length_of_resource_type :
    (s : Str) → is_resource_type s ≡ true → (0 < length s) × (length s ≤ 101)
unfolding is_resource_type
length_of_resource_type s h = elim (Option-cases (split_once slash s)) [
  | inl e ↦ let (a, b) = length_of_type_name s (rw (is_resource_type, e) at h) in (a, omega arith)
  | inr ((org, name), e) ↦
      let parts : (is_valid_object_id org && is_type_name name) ≡ true =
        rw (is_resource_type, e) at h in
      let (m, a, b) = (is_valid_object_id_iff org).0 (and_left _ _ parts) in
      let (c, d) = length_of_type_name name (and_right (is_valid_object_id org) _ parts) in
      let whole = ap length (append_of_split_once slash s e).0 in
      (
        omega (arith, whole, length-append org (slash ∷ name)),
        omega (arith, whole, length-append org (slash ∷ name)),
      )
]

id_char-replace :
    (c : ℕ) → type_char c ≡ true → id_char (if nat_beq c slash then hyphen else c) ≡ true
unfolding type_char id_char alnum
id_char-replace c h = ground arith

all-replace : (s : Str) → all type_char s ≡ true → all id_char (replace slash hyphen s) ≡ true
all-replace [] h = refl
all-replace (c ∷ s) h = ground (
  arith,
  id_char-replace c (and_left (type_char c) _ h),
  all-replace s (and_right (type_char c) _ h),
)

res_id_char-id_char : (c : ℕ) → id_char c ≡ true → res_id_char c ≡ true
unfolding id_char res_id_char alnum
res_id_char-id_char c h = ground arith

pub all-res_id_char : (s : Str) → all id_char s ≡ true → all res_id_char s ≡ true
all-res_id_char [] h = refl
all-res_id_char (c ∷ s) h = ground (
  arith,
  res_id_char-id_char c (and_left (id_char c) _ h),
  all-res_id_char s (and_right (id_char c) _ h),
)

single_segment : (a b : Bool) → a ≡ true → b ≡ true → (a && (b && true)) ≡ true
single_segment a b h k = cc

pub le→leb : (a b : ℕ) → a ≤ b → leb a b ≡ true
le→leb a b h = ground arith

-- A text of letters, digits and hyphens, neither empty nor too long, is a resource ID.
is_res_id_of : (s : Str) → 0 < length s → length s ≤ 255 → all id_char s ≡ true → is_res_id s ≡ true
unfolding is_res_id id_char alnum
is_res_id_of [] a b c = absurd (omega arith)
is_res_id_of (x ∷ s) a b c =
    let single = split_of_absent dot (x ∷ s) (has_char-eq_false id_char dot (x ∷ s) c refl) in
    let chars = all-res_id_char (x ∷ s) c in
    rw single (
      single_segment (leb (length (x ∷ s)) 255) (all res_id_char (x ∷ s))
        (le→leb (length (x ∷ s)) 255 b) chars)

pub implicit_id :
    (ty : Str) → is_resource_type ty ≡ true → is_res_id (replace slash hyphen ty) ≡ true
implicit_id ty h =
    let (a, b) = length_of_resource_type ty h in
    let same = length-replace slash hyphen ty in
    is_res_id_of (replace slash hyphen ty) (omega arith) (omega arith)
      (all-replace ty (resource_type-chars ty h))

or_else-valid :
    (p : Str → Bool) (o : Option Str) (s : Str)
    → PartIsValid p o
    → p s ≡ true
    → p (or_else o s) ≡ true
or_else-valid p none s v w = w
or_else-valid p (some t) s v w = v

or_panic-ok : (o : Option Str) (s : Str) → or_panic o (ok s) ≡ some (or_else o s)
or_panic-ok none s = refl
or_panic-ok (some t) s = refl

default_is_valid : is_valid_object_id default_class ≡ true
unfolding is_valid_object_id
default_is_valid = refl

-- The parts of a resolved reference: those that it names, and for the others the referrer's, or the
-- default class and the name of the type where the type is implicit.
pub record Resolves (r : ResourceRef) (referrer : Descriptor) (implicit : Bool) (d : Descriptor)
    : Type 0 where
  pub ty : d.ty ≡ r.ty
  pub class_named : (c : Str) → r.class ≡ some c → d.class ≡ c
  pub class_implicit : r.class ≡ none → implicit ≡ true → d.class ≡ bytes "default"
  pub class_inherited : r.class ≡ none → implicit ≡ false → d.class ≡ referrer.class
  pub id_named : (i : Str) → r.id ≡ some i → d.id ≡ i
  pub id_implicit : r.id ≡ none → implicit ≡ true → d.id ≡ replace slash hyphen r.ty
  pub id_inherited : r.id ≡ none → implicit ≡ false → d.id ≡ referrer.id

or_else-named : (o : Option Str) (s t : Str) → o ≡ some t → or_else o s ≡ t
or_else-named o s t e = rw e

or_else-none : (o : Option Str) (s : Str) → o ≡ none → or_else o s ≡ s
or_else-none o s e = rw e

-- Resolving a valid reference from a valid descriptor never panics, and gives a valid descriptor
-- of the type that is named. A class or ID that the reference names is taken; one that it leaves
-- out is the descriptor's, or, where the type is implicit, the default class and the name of the
-- type with hyphens for slashes.
pub resolve_ref_valid :
    (r : ResourceRef) (referrer : Descriptor) (implicit : Bool)
    → IsValid r
    → IsDescriptor referrer
    → (d : Descriptor) × (resolve_ref r referrer implicit ≡ some d)
      × IsDescriptor d
      × Resolves r referrer implicit d
unfolding resolve_ref
resolve_ref_valid r referrer false v w = (
  record { ty = r.ty; class = or_else r.class referrer.class; id = or_else r.id referrer.id },
  refl,
  record {
    ty = v.ty;
    class = or_else-valid is_valid_object_id r.class referrer.class v.class w.class;
    id = or_else-valid is_res_id r.id referrer.id v.id w.id;
  },
  record {
    ty = refl;
    class_named = or_else-named r.class referrer.class;
    class_implicit = λ e i. cc;
    class_inherited = λ e i. or_else-none r.class referrer.class e;
    id_named = or_else-named r.id referrer.id;
    id_implicit = λ e i. cc;
    id_inherited = λ e i. or_else-none r.id referrer.id e;
  },
)
resolve_ref_valid r referrer true v w =
    let own = replace slash hyphen r.ty in
    let good = implicit_id r.ty v.ty in
    (
      record { ty = r.ty; class = or_else r.class default_class; id = or_else r.id own },
      rw (resolve_ref, res_id_new_of own good, or_panic-ok r.id own),
      record {
        ty = v.ty;
        class = or_else-valid is_valid_object_id r.class default_class v.class default_is_valid;
        id = or_else-valid is_res_id r.id own v.id good;
      },
      record {
        ty = refl;
        class_named = or_else-named r.class default_class;
        class_implicit = λ e i. or_else-none r.class default_class e;
        class_inherited = λ e i. cc;
        id_named = or_else-named r.id own;
        id_implicit = λ e i. or_else-none r.id own e;
        id_inherited = λ e i. cc;
      },
    )

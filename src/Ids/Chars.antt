-- ===== src/Ids/Chars.antt =====
-- The characters of identifiers: none has a dot or a `#`.
use openporch.Prelude.{
  ℕ, Str, Bool, true, false, ◌&&◌, ◌||◌, [], ◌∷◌, nat_beq, all, ◌≡◌, refl, sym, subst, inl, inr,
  arith, Option-cases, and_left, and_right,
}
use openporch.Prelude.Split.{
  has_char, split_once, append_of_split_once, has_char-eq_false, all-append_of,
}
use openporch.Ids.Rules.{alnum, hyphen, slash, is_valid_object_id, is_type_name, is_resource_type}
use openporch.Ids.ObjectId.{Matches, last, more, word, is_valid_object_id_iff}

-- The characters of an object ID, and of a resource type.
unfoldable pub id_char : ℕ → Bool
unfolding alnum
id_char c = alnum c || nat_beq c hyphen

unfoldable pub type_char : ℕ → Bool
unfolding id_char
type_char c = id_char c || nat_beq c slash

id_char-alnum : (c : ℕ) → alnum c ≡ true → id_char c ≡ true
unfolding id_char
id_char-alnum c a = ground arith

Matches-chars : {s : Str} → Matches s → all id_char s ≡ true
unfolding id_char
Matches-chars (last c a) = ground (arith, id_char-alnum c a)
Matches-chars (more c {s = s} a m) = ground (arith, id_char-alnum c a, Matches-chars m)
Matches-chars (word c {s = s} a m) = ground (arith, id_char-alnum c a, Matches-chars m)

pub object_id-chars : (s : Str) → is_valid_object_id s ≡ true → all id_char s ≡ true
object_id-chars s h = Matches-chars ((is_valid_object_id_iff s).0 h).0

type_char-id_char : (c : ℕ) → id_char c ≡ true → type_char c ≡ true
unfolding type_char
type_char-id_char c h = rw h

all-type_char : (s : Str) → all id_char s ≡ true → all type_char s ≡ true
all-type_char [] h = refl
all-type_char (c ∷ s) h = ground (
  arith,
  type_char-id_char c (and_left (id_char c) _ h),
  all-type_char s (and_right (id_char c) _ h),
)

type_name-chars : (s : Str) → is_type_name s ≡ true → all id_char s ≡ true
unfolding is_type_name id_char
type_name-chars s h = and_right _ _ (and_left _ _ (and_left _ _ h))

type_chars-slash : (s : Str) → all type_char s ≡ true → all type_char (slash ∷ s) ≡ true
unfolding type_char id_char alnum
type_chars-slash s h = h

pub resource_type-chars : (s : Str) → is_resource_type s ≡ true → all type_char s ≡ true
unfolding is_resource_type
resource_type-chars s h = elim (Option-cases (split_once slash s)) [
  | inl e ↦ all-type_char s (type_name-chars s (rw (is_resource_type, e) at h))
  | inr ((org, name), e) ↦
      let parts : (is_valid_object_id org && is_type_name name) ≡ true =
        rw (is_resource_type, e) at h in
      let o = all-type_char org (object_id-chars org (and_left _ _ parts)) in
      let n =
        all-type_char name (type_name-chars name (and_right (is_valid_object_id org) _ parts)) in
      subst (λ t. all type_char t ≡ true) (sym (append_of_split_once slash s e).0)
        (all-append_of type_char org (slash ∷ name) o (type_chars-slash name n))
]

pub object_id-absent :
    (c : ℕ) (s : Str) → id_char c ≡ false → is_valid_object_id s ≡ true → has_char c s ≡ false
object_id-absent c s n h = has_char-eq_false id_char c s (object_id-chars s h) n

pub resource_type-absent :
    (c : ℕ) (s : Str) → type_char c ≡ false → is_resource_type s ≡ true → has_char c s ≡ false
resource_type-absent c s n h = has_char-eq_false type_char c s (resource_type-chars s h) n

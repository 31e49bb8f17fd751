-- ===== src/Ids/Types.antt =====
-- The identifier types of crates/core/src/ids.rs. Each newtype over `String` is the list of its
-- bytes; what a constructor accepts is in the modules beside this one.
use Prim.Native.Nat.{Ordering}
use openporch.Prelude.{Str, bytes, Bool, ◌++◌, ◌≡◌, arith}
use openporch.Prelude.Order.{
  Ord, ◌==◌, then_cmp, str_ord, str_cmp, str_cmp-eq, str_cmp_refl, str_cmp-swap_lt, str_cmp-swap_gt,
  str_cmp-swap_eq, str_cmp_trans,
}

abbrev pub OrgId : Type 0
OrgId = Str

abbrev pub AppId : Type 0
AppId = Str

abbrev pub EnvId : Type 0
EnvId = Str

abbrev pub EnvTypeId : Type 0
EnvTypeId = Str

abbrev pub DefinitionId : Type 0
DefinitionId = Str

abbrev pub CriterionId : Type 0
CriterionId = Str

abbrev pub AccountId : Type 0
AccountId = Str

abbrev pub WorkloadId : Type 0
WorkloadId = Str

abbrev pub ClassId : Type 0
ClassId = Str

abbrev pub ResourceTypeId : Type 0
ResourceTypeId = Str

abbrev pub ResId : Type 0
ResId = Str

-- `ClassId::default_class`.
abbrev pub default_class : ClassId
default_class = bytes "default"

-- `ClassId::is_default`.
abbrev pub is_default : ClassId → Bool
is_default c = c == default_class

pub record Descriptor : Type 0 where
  pub ty : ResourceTypeId
  pub class : ClassId
  pub id : ResId

-- The derived `Ord`: field by field.
abbrev pub descriptor_cmp : Descriptor → Descriptor → Ordering
descriptor_cmp a b =
    then_cmp (str_cmp a.ty b.ty) (then_cmp (str_cmp a.class b.class) (str_cmp a.id b.id))

pub descriptor_cmp-eq : (a b : Descriptor) → descriptor_cmp a b ≡ Ordering.eq → a ≡ b
descriptor_cmp-eq a b h =
    ground (arith, str_cmp-eq a.ty b.ty, str_cmp-eq a.class b.class, str_cmp-eq a.id b.id)

pub descriptor_cmp_refl : (a : Descriptor) → descriptor_cmp a a ≡ Ordering.eq
descriptor_cmp_refl a = ground (arith, str_cmp_refl a.ty, str_cmp_refl a.class, str_cmp_refl a.id)

pub descriptor_cmp-swap_lt :
    (a b : Descriptor) → descriptor_cmp a b ≡ Ordering.lt → descriptor_cmp b a ≡ Ordering.gt
descriptor_cmp-swap_lt a b h = ground (
  arith,
  str_cmp-swap_lt a.ty b.ty,
  str_cmp-swap_lt a.class b.class,
  str_cmp-swap_lt a.id b.id,
  str_cmp-swap_eq a.ty b.ty,
  str_cmp-swap_eq a.class b.class,
  str_cmp-swap_eq a.id b.id,
)

pub descriptor_cmp-swap_gt :
    (a b : Descriptor) → descriptor_cmp a b ≡ Ordering.gt → descriptor_cmp b a ≡ Ordering.lt
descriptor_cmp-swap_gt a b h = ground (
  arith,
  str_cmp-swap_gt a.ty b.ty,
  str_cmp-swap_gt a.class b.class,
  str_cmp-swap_gt a.id b.id,
  str_cmp-swap_eq a.ty b.ty,
  str_cmp-swap_eq a.class b.class,
  str_cmp-swap_eq a.id b.id,
)

pub descriptor_cmp_trans :
    (a b c : Descriptor)
    → descriptor_cmp a b ≡ Ordering.lt
    → descriptor_cmp b c ≡ Ordering.lt
    → descriptor_cmp a c ≡ Ordering.lt
descriptor_cmp_trans a b c h k = ground (
  arith,
  str_cmp_trans a.ty b.ty c.ty,
  str_cmp_trans a.class b.class c.class,
  str_cmp_trans a.id b.id c.id,
  str_cmp-eq a.ty b.ty,
  str_cmp-eq a.class b.class,
  str_cmp-eq a.id b.id,
  str_cmp-eq b.ty c.ty,
  str_cmp-eq b.class c.class,
  str_cmp-eq b.id c.id,
)

instance abbrev pub descriptor_ord : Ord Descriptor
descriptor_ord = record {
  cmp = descriptor_cmp;
  cmp-eq = descriptor_cmp-eq;
  cmp-refl = descriptor_cmp_refl;
  cmp-swap_lt = descriptor_cmp-swap_lt;
  cmp-swap_gt = descriptor_cmp-swap_gt;
  cmp_trans = descriptor_cmp_trans;
}

-- `Display` of a descriptor: `<type>.<class>#<res_id>`.
unfoldable pub descriptor_to_string : Descriptor → Str
descriptor_to_string d = d.ty ++ bytes "." ++ d.class ++ bytes "#" ++ d.id

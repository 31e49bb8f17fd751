-- ===== src/Graph/Builder/Types.antt =====
-- What the graph builder reads and keeps (crates/core/src/graph.rs, crates/core/src/catalog.rs).
use openporch.Prelude.{
  ℕ, Str, Bool, true, false, ◌||◌, List, [], ◌∷◌, Option, none, some, any, ◌≡◌, refl, ap, arith,
  ◌&&◌,
}
use openporch.Prelude.Order.{Ord, ◌==◌, str_ord, nat_ord}
use openporch.Prelude.Result.{Result, ok, err}
use openporch.Prelude.Keyed.{pair_ord, ord_by}
use openporch.BTreeMap.{BTreeMap, BTreeSet}
use openporch.Ids.{
  OrgId, AppId, EnvId, EnvTypeId, DefinitionId, ClassId, ResourceTypeId, Descriptor, is_default,
}
use openporch.Ids.Types.{descriptor_ord}
use openporch.Ids.Rules.{IdError}
use openporch.Model.{ResourceDefinition}
use openporch.Criteria.Select.{MatchError}
use openporch.Sets.Types.{DeploymentSet}
use openporch.Placeholder.Types.{PlaceholderError}
use openporch.Placeholder.Json.{Value}

pub data ResourceUse : Type 0 where
  direct : ResourceUse
  indirect : ResourceUse
  implicit : ResourceUse

-- The fields of a `ResourceType` that the builder reads.
pub record ResourceType : Type 0 where
  pub id : ResourceTypeId
  pub use_ : ResourceUse

pub record ClassRegistry : Type 0 where
  pub classes : List (ResourceTypeId × ClassId)

-- `ClassRegistry::contains`
unfoldable pub has_class : ClassRegistry → ResourceTypeId → ClassId → Bool
has_class r ty class = is_default class || any (λ c. c.0 == ty && c.1 == class) r.classes

pub record GraphInput : Type 0 where
  pub org : OrgId
  pub app : AppId
  pub env : EnvId
  pub env_type : EnvTypeId
  pub set : DeploymentSet Value
  pub definitions : List (ResourceDefinition Value)
  pub types : List ResourceType
  pub classes : ClassRegistry

pub data GraphError : Type 0 where
  unknown_type : (path : Str) (ty : ResourceTypeId) → GraphError
  invalid_id : (path : Str) (source : IdError) → GraphError
  missing_class : (path : Str) (ty : ResourceTypeId) (class : ClassId) → GraphError
  no_match : (path : Str) (source : MatchError) → GraphError
  bad_placeholder : (definition : DefinitionId) (source : PlaceholderError) → GraphError
  conflict : (descriptor : Descriptor) (first second : Str) → GraphError
  cycle : List Descriptor → GraphError

pub record Request : Type 0 where
  pub path : Str
  pub params : Option Str

-- The derived order: by path, then by params, with none before any.
abbrev pub option_key : Option Str → Str
option_key none = []
option_key (some s) = 1 ∷ s

option_key-injective : (a b : Option Str) → option_key a ≡ option_key b → a ≡ b
option_key-injective none none h = refl
option_key-injective none (some t) h = cc
option_key-injective (some s) none h = cc
option_key-injective (some s) (some t) h = ground arith

pub Request-injective :
    (a b : Request)
    → ◌≡◌ {A = Str × Str} (a.path, option_key a.params) (b.path, option_key b.params)
    → a ≡ b
Request-injective a b h =
    let p = ap (λ (x : Str × Str). x.0) h in
    let q = option_key-injective a.params b.params (ap (λ (x : Str × Str). x.1) h) in
    λ i. record { path = p i; params = q i }

instance abbrev pub request_ord : Ord Request
request_ord =
    ord_by (pair_ord str_ord str_ord) (λ r. (r.path, option_key r.params)) Request-injective

pub record Node : Type 0 where
  pub descriptor : Descriptor
  pub definition : DefinitionId
  pub driver_type : Str
  pub params : Option Value
  pub requests : List Request
  pub depends_on : BTreeSet Descriptor

pub record CoProvision : Type 0 where
  pub source : Descriptor
  pub co : Descriptor
  pub match_dependents : Bool

abbrev pub bool_key : Bool → ℕ
bool_key false = 0
bool_key true = 1

bool_key-injective : (a b : Bool) → bool_key a ≡ bool_key b → a ≡ b
bool_key-injective false false h = refl
bool_key-injective false true h = cc
bool_key-injective true false h = cc
bool_key-injective true true h = refl

abbrev pub co_key : CoProvision → (Descriptor × Descriptor) × ℕ
co_key c = ((c.source, c.co), bool_key c.match_dependents)

pub CoProvision-injective : (a b : CoProvision) → co_key a ≡ co_key b → a ≡ b
CoProvision-injective a b h =
    let p = ap (λ (x : (Descriptor × Descriptor) × ℕ). x.0) h in
    let q =
      bool_key-injective a.match_dependents b.match_dependents
        (ap (λ (x : (Descriptor × Descriptor) × ℕ). x.1) h) in
    λ i. record { source = (p i).0; co = (p i).1; match_dependents = q i }

instance abbrev pub co_provision_ord : Ord CoProvision
co_provision_ord =
    ord_by (pair_ord (pair_ord descriptor_ord descriptor_ord) nat_ord) co_key CoProvision-injective

-- `Builder`, but for its input. The queue is in its order.
pub record Builder : Type 0 where
  pub nodes : BTreeMap Descriptor Node
  pub explicit : BTreeMap Descriptor (Str × Str)
  pub queue : List Descriptor
  pub co : BTreeSet CoProvision

abbrev pub no_nodes : Builder
no_nodes = record { nodes = []; explicit = []; queue = []; co = [] }

-- Computations that fail with a `GraphError`. `none` is a panic, or the end of the fuel.
abbrev pub Build : Type 0 → Type 0
Build A = Option (Result GraphError A)

infixl 5 ◌>>=◌
abbrev pub ◌>>=◌ : {A B : Type 0} → Build A → (A → Build B) → Build B
none >>= f = none
some (err e) >>= f = some (err e)
some (ok a) >>= f = f a

-- ===== src/Graph/Builder/Valid.antt =====
-- The invariant of the graph builder.
use Prim.Native.Nat.{Ordering}
use openporch.Prelude.{
  ◌+◌, length, Option, Memᴰ, true, List, [], ◌∷◌, none, some, find, All, ◌≡◌, refl, sym, subst, inl,
  inr, arith, Bool-cases,
}
use openporch.Prelude.Order.{Ord, ◌==◌, eq_iff, str_ord}
use openporch.Prelude.Result.{ok, err}
use openporch.BTreeMap.{BTreeMap, get, insert, set_insert}
use openporch.BTreeMap.Sorted.{IsSorted, insert-IsSorted}
use openporch.BTreeMap.Sets.{IsSortedSet}
use openporch.BTreeMap.Laws.{is_some, get-insert}
use openporch.Ids.{DefinitionId, Descriptor, ResId}
use openporch.Ids.Types.{descriptor_ord}
use openporch.Ids.RoundTrip.{IsValid as IsDescriptor}
use openporch.Model.{ResourceDefinition}
use openporch.Placeholder.Json.{Value}
use openporch.Criteria.Select.{select_definition}
use openporch.Graph.Builder.Types.{
  GraphInput, GraphError, unknown_type, invalid_id, missing_class, no_match, bad_placeholder,
  conflict, cycle, Node, Builder, Build, ◌>>=◌, has_class,
}
use openporch.Graph.Builder.Request.{resource_type, context_of}

-- The graph has a node for `d`.
abbrev pub Has : BTreeMap Descriptor Node → Descriptor → Type 0
Has nodes d = is_some (get d nodes) ≡ true

abbrev pub Grows : BTreeMap Descriptor Node → BTreeMap Descriptor Node → Type 0
Grows old new = (d : Descriptor) → Has old d → Has new d

pub All-map {ℓ κ μ} :
    {A : Type ℓ} {P : A → Type κ} {Q : A → Type μ} (xs : List A)
    → ((x : A) → P x → Q x)
    → All P xs
    → All Q xs
All-map [] f a = tt
All-map (x ∷ xs) f a = (f x a.0, All-map xs f a.1)

pub All-set_insert {ℓ κ} :
    {K : Type ℓ} ⦃o : Ord K⦄ (P : K → Type κ) (k : K) (s : List K)
    → P k
    → All P s
    → All P (set_insert k s)
unfolding set_insert
All-set_insert P k [] p a = (p, tt)
All-set_insert ⦃o⦄ P k (j ∷ s) p a =
    elim (o.cmp k j)
      as (λ c. All P (elim c [
        | Ordering.lt ↦ k ∷ j ∷ s
        | Ordering.eq ↦ j ∷ s
        | Ordering.gt ↦ j ∷ set_insert k s
      ])) [
        | Ordering.lt ↦ (p, a)
        | Ordering.eq ↦ a
        | Ordering.gt ↦ (a.0, All-set_insert P k s p a.1)
      ]

-- The definition that a node was matched with is one of the input's.
abbrev pub IsMatched : GraphInput → DefinitionId → Type 0
IsMatched input id = is_some (find (λ x. x.id == id) input.definitions) ≡ true

-- The definition is the one that `select_definition` gives for the descriptor.
abbrev pub IsSelected : GraphInput → Descriptor → DefinitionId → Type 0
IsSelected input d id =
    (def : ResourceDefinition Value) × (select_definition input.definitions (context_of input d)
      ≡ ok def)
    × (def.id ≡ id)

-- The resource IDs that nodes can have, where that is known.
abbrev pub Ids : Type 0
Ids = Option (List ResId)

abbrev pub IsNamed : Ids → Descriptor → Type 0
IsNamed none d = Unit
IsNamed (some ids) d = Memᴰ d.id ids

-- A node stands under its own, valid descriptor, of a type and a class that the input has, was
-- matched with the definition that is selected for it, and depends only on nodes.
pub record IsNode (input : GraphInput) (ids : Ids) (nodes : BTreeMap Descriptor Node)
    (d : Descriptor) (n : Node) : Type 0 where
  pub own : n.descriptor ≡ d
  pub descriptor : IsDescriptor d
  pub known : is_some (resource_type input d.ty) ≡ true
  pub class : has_class input.classes d.ty d.class ≡ true
  pub named : IsNamed ids d
  pub matched : IsMatched input n.definition
  pub selected : IsSelected input d n.definition
  pub closed : All (Has nodes) n.depends_on
  pub sorted : IsSortedSet n.depends_on

pub record AreNodes (input : GraphInput) (ids : Ids) (nodes : BTreeMap Descriptor Node)
    : Type 0 where
  pub sorted : IsSorted nodes
  pub each : (d : Descriptor) (n : Node) → get d nodes ≡ some n → IsNode input ids nodes d n

pub record IsValid (input : GraphInput) (ids : Ids) (b : Builder) : Type 0 where
  pub nodes : AreNodes input ids b.nodes
  pub queued : All (Has b.nodes) b.queue
  pub co : All (λ c. Has b.nodes c.co) b.co

pub Grows-insert :
    (d : Descriptor) (n : Node) (nodes : BTreeMap Descriptor Node) → Grows nodes (insert d n nodes)
Grows-insert d n nodes a h = ground (arith, get-insert d a n nodes)

pub Has-insert :
    (d : Descriptor) (n : Node) (nodes : BTreeMap Descriptor Node) → Has (insert d n nodes) d
Has-insert d n nodes = ground (arith, get-insert d d n nodes, (eq_iff d d).1 refl)

IsNode-grow :
    {input : GraphInput} {ids : Ids} {old new : BTreeMap Descriptor Node} {d : Descriptor}
    {n : Node}
    → Grows old new
    → IsNode input ids old d n
    → IsNode input ids new d n
IsNode-grow {n} g v = record {
  own = v.own;
  descriptor = v.descriptor;
  known = v.known;
  class = v.class;
  named = v.named;
  matched = v.matched;
  selected = v.selected;
  closed = All-map n.depends_on g v.closed;
  sorted = v.sorted;
}

-- A node that is put where it belongs.
pub AreNodes-insert :
    {input : GraphInput} {ids : Ids} {nodes : BTreeMap Descriptor Node} (d : Descriptor) (n : Node)
    → AreNodes input ids nodes
    → IsNode input ids (insert d n nodes) d n
    → AreNodes input ids (insert d n nodes)
AreNodes-insert {input} {ids} {nodes} d n v w = record {
  sorted = insert-IsSorted d n nodes v.sorted;
  each = λ a m h. elim (Bool-cases (a == d)) [
    | inl e ↦
        let found : some n ≡ some m = rw (get-insert d a n nodes, e) at h in
        let same : n ≡ m = cc in
        subst (IsNode input ids (insert d n nodes) a) same
          (subst (λ x. IsNode input ids (insert d n nodes) x n) (sym ((eq_iff a d).0 e)) w)
    | inr e ↦
        let found : get a nodes ≡ some m = rw (get-insert d a n nodes, e) at h in
        IsNode-grow (Grows-insert d n nodes) (v.each a m found)
  ];
}

-- An error of the input: any but a cycle, which only the layering finds.
abbrev pub IsRefusal : GraphError → Type 0
IsRefusal (cycle c) = ⊥
IsRefusal (unknown_type path ty) = Unit
IsRefusal (invalid_id path e) = Unit
IsRefusal (missing_class path ty class) = Unit
IsRefusal (no_match path e) = Unit
IsRefusal (bad_placeholder def e) = Unit
IsRefusal (conflict d first second) = Unit

-- The new builder has the nodes of the old one, and each further node is in the queue.
abbrev pub Follows : Builder → Builder → Type 0
Follows old new =
    Grows old.nodes new.nodes
    × (length new.queue + length old.nodes ≡ length old.queue + length new.nodes)

pub Follows-refl : (b : Builder) → Follows b b
Follows-refl b = (λ d x. x, refl)

pub Follows-trans : (a b c : Builder) → Follows a b → Follows b c → Follows a c
Follows-trans a b c f g = (λ d x. g.0 d (f.0 d x), omega (arith, f.1, g.1))

-- What an operation does to a valid builder: it does not panic or find a cycle, and where it succeeds
-- the builder is valid and has all of the nodes that it had, and `P` holds of it.
abbrev pub Keeps : GraphInput → Ids → Builder → (Builder → Type 0) → Build Builder → Type 0
Keeps input ids old P none = ⊥
Keeps input ids old P (some (err e)) = IsRefusal e
Keeps input ids old P (some (ok b)) = IsValid input ids b × Follows old b × P b

abbrev pub Anything : Builder → Type 0
Anything b = Unit

pub Keeps-weaken :
    (input : GraphInput) (ids : Ids) (old new : Builder) (P : Builder → Type 0) (m : Build Builder)
    → Follows old new
    → Keeps input ids new P m
    → Keeps input ids old P m
Keeps-weaken input ids old new P none g h = h
Keeps-weaken input ids old new P (some (err e)) g h = h
Keeps-weaken input ids old new P (some (ok b)) g h = (h.0, Follows-trans old new b g h.1, h.2)

pub Keeps-bind :
    (input : GraphInput) (ids : Ids) (old : Builder) (P Q : Builder → Type 0) (m : Build Builder)
    (f : Builder → Build Builder)
    → Keeps input ids old P m
    → ((b : Builder) → IsValid input ids b → Follows old b → P b → Keeps input ids b Q (f b))
    → Keeps input ids old Q (m >>= f)
Keeps-bind input ids old P Q none f h k = absurd h
Keeps-bind input ids old P Q (some (err e)) f h k = h
Keeps-bind input ids old P Q (some (ok b)) f h k =
    Keeps-weaken input ids old b Q (f b) h.1 (k b h.0 h.1 h.2)

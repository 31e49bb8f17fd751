-- ===== src/Graph/Builder/Bound.antt =====
-- No graph has more nodes than `most_nodes`.
use openporch.Prelude.{
  ℕ, suc, ◌*◌, ◌≤◌, Bool, true, ◌&&◌, any, List, [], ◌∷◌, ◌++◌, none, some, map, length, find,
  length-append, ◌≡◌, refl, ap, subst, inl, inr, arith, Memᴰ, Memᴰ-append_left, Memᴰ-append_right,
  Bool-cases, Option-cases, and_right,
}
use openporch.Prelude.Order.{◌==◌, eq_iff, str_ord}
use openporch.Prelude.Distinct.{length-le_of_Distinct}
use openporch.BTreeMap.{BTreeMap, keys}
use openporch.BTreeMap.Laws.{is_some}
use openporch.BTreeMap.Members.{keys-Distinct, mem_of_mem_keys, get_of_mem, mem_of_get}
use openporch.Ids.{ResId, ClassId, ResourceTypeId, Descriptor}
use openporch.Ids.Types.{descriptor_ord, default_class, is_default}
use openporch.Graph.Builder.Types.{GraphInput, Node, Builder, ClassRegistry, has_class}
use openporch.Graph.Builder.Request.{resource_type}
use openporch.Graph.Builder.Universe.{
  Within, reference_ids, implicit_ids, known_ids, most_nodes, find-Memᴰ, Memᴰ-map,
}
use openporch.Graph.Builder.Valid.{AreNodes, IsValid}
use openporch.Graph.Builder.Waits.{length-keys}

length-map {ℓ κ} :
    {A : Type ℓ} {B : Type κ} (f : A → B) (xs : List A) → length (map f xs) ≡ length xs
length-map f [] = refl
length-map f (x ∷ xs) = ap suc (length-map f xs)

-- The items that each of the others gives.
abbrev each {ℓ κ} : {A : Type ℓ} {B : Type κ} → (A → List B) → List A → List B
each f [] = []
each f (x ∷ xs) = f x ++ each f xs

length-each {ℓ κ} :
    {A : Type ℓ} {B : Type κ} (f : A → List B) (k : ℕ) (xs : List A)
    → ((x : A) → length (f x) ≡ k)
    → length (each f xs) ≡ length xs * k
length-each f k [] h = omega arith
length-each f k (x ∷ xs) h =
    grind (arith, length-append (f x) (each f xs), h x, length-each f k xs h)

each-Memᴰ {ℓ κ} :
    {A : Type ℓ} {B : Type κ} (f : A → List B) {x : A} {y : B} {xs : List A}
    → Memᴰ x xs
    → Memᴰ y (f x)
    → Memᴰ y (each f xs)
each-Memᴰ f {y = y} (Memᴰ.head {xs = xs} e) m =
    Memᴰ-append_left (each f xs) (subst (λ z. Memᴰ y (f z)) e m)
each-Memᴰ f (Memᴰ.tail {x = z} n) m = Memᴰ-append_right (f z) (each-Memᴰ f n m)

abbrev descriptors : List ResId → List ClassId → ResourceTypeId → List Descriptor
descriptors ids classes ty =
    each (λ class. map (λ id. record { ty = ty; class = class; id = id }) ids) classes

abbrev universe : List ResId → List ClassId → List ResourceTypeId → List Descriptor
universe ids classes types = each (descriptors ids classes) types

length-universe :
    (ids : List ResId) (classes : List ClassId) (types : List ResourceTypeId)
    → length (universe ids classes types) ≡ length types * (length classes * length ids)
length-universe ids classes types =
    length-each (descriptors ids classes) (length classes * length ids) types
      λ ty. length-each _ (length ids) classes λ class. length-map _ ids

universe-Memᴰ :
    (ids : List ResId) (classes : List ClassId) (types : List ResourceTypeId) (d : Descriptor)
    → Memᴰ d.ty types
    → Memᴰ d.class classes
    → Memᴰ d.id ids
    → Memᴰ d (universe ids classes types)
universe-Memᴰ ids classes types d t c i = each-Memᴰ (descriptors ids classes) t (
    each-Memᴰ (λ class. map (λ id. record { ty = d.ty; class = class; id = id }) ids) c
      (Memᴰ-map (λ id. record { ty = d.ty; class = d.class; id = id }) i))

any-Memᴰ {ℓ} :
    {A : Type ℓ} (p : A → Bool) (xs : List A) → any p xs ≡ true → (x : A) × Memᴰ x xs × (p x ≡ true)
any-Memᴰ p [] h = absurd (cc)
any-Memᴰ p (y ∷ ys) h = elim (Bool-cases (p y)) [
  | inl e ↦ (y, Memᴰ.head refl, e)
  | inr e ↦ let (x, m, q) = any-Memᴰ p ys (ground (arith, h, e)) in (x, Memᴰ.tail m, q)
]

class-Memᴰ :
    (r : ClassRegistry) (ty : ResourceTypeId) (class : ClassId)
    → has_class r ty class ≡ true
    → Memᴰ class (default_class ∷ map (λ c. c.1) r.classes)
unfolding has_class
class-Memᴰ r ty class h = elim (Bool-cases (is_default class)) [
  | inl e ↦ Memᴰ.head ((eq_iff class default_class).0 e)
  | inr e ↦
      let (c, m, q) = any-Memᴰ (λ c. c.0 == ty && c.1 == class) r.classes (ground (arith, h, e)) in
      let same : c.1 ≡ class = (eq_iff c.1 class).0 (and_right (c.0 == ty) _ q) in
      Memᴰ.tail (subst (λ x. Memᴰ x (map (λ c. c.1) r.classes)) same (Memᴰ-map (λ c. c.1) m))
]

type-Memᴰ :
    (input : GraphInput) (ty : ResourceTypeId)
    → is_some (resource_type input ty) ≡ true
    → Memᴰ ty (map (λ t. t.id) input.types)
unfolding resource_type
type-Memᴰ input ty h = elim (Option-cases (find (λ t. t.id == ty) input.types)) [
  | inl n ↦ absurd (let bad = rw n at h in cc)
  | inr (t, n) ↦
      let (m, e) = find-Memᴰ (λ t. t.id == ty) input.types n in
      subst (λ x. Memᴰ x (map (λ t. t.id) input.types)) ((eq_iff t.id ty).0 e)
        (Memᴰ-map (λ t. t.id) m)
]

module _ (input : GraphInput) (start : Builder) where
  abbrev pub ids_from : List ResId
  ids_from = known_ids input start

  pub nodes-le :
      (nodes : BTreeMap Descriptor Node)
      → AreNodes input (some ids_from) nodes
      → length nodes ≤ most_nodes input start
  unfolding most_nodes
  nodes-le nodes v =
      let types = map (λ t. t.id) input.types in
      let classes = default_class ∷ map (λ c. c.1) input.classes.classes in
      let within =
        length-le_of_Distinct (keys nodes) (universe ids_from classes types)
          (keys-Distinct nodes v.sorted)
          (λ d m.
            let (n, e) = mem_of_mem_keys d nodes m in
            let w = v.each d n (get_of_mem d n nodes v.sorted e) in
            universe-Memᴰ ids_from classes types d (type-Memᴰ input d.ty w.known)
              (class-Memᴰ input.classes d.ty d.class w.class) w.named) in
      let size = length-universe ids_from classes types in
      ground (
        arith,
        within,
        size,
        length-keys nodes,
        length-map (λ t. t.id) input.types,
        length-map (λ c. c.1) input.classes.classes,
      )

  pub implicit_known : Within (implicit_ids input.types) ids_from
  unfolding known_ids
  implicit_known a m =
      Memᴰ-append_right (map (λ (e : Descriptor × Node). e.0.id) start.nodes)
        (Memᴰ-append_right (reference_ids input.definitions) m)

  pub reference_known : Within (reference_ids input.definitions) ids_from
  unfolding known_ids
  reference_known a m =
      Memᴰ-append_right (map (λ (e : Descriptor × Node). e.0.id) start.nodes)
        (Memᴰ-append_left (implicit_ids input.types) m)

  -- The nodes that there are have known IDs.
  pub start-IsValid : IsValid input none start → IsValid input (some ids_from) start
  unfolding known_ids
  start-IsValid v = record {
    nodes = record {
      sorted = v.nodes.sorted;
      each = λ d n h.
          let w = v.nodes.each d n h in
          record {
            own = w.own;
            descriptor = w.descriptor;
            known = w.known;
            class = w.class;
            named =
                Memᴰ-append_left _
                  (Memᴰ-map (λ (e : Descriptor × Node). e.0.id) (mem_of_get d n start.nodes h));
            matched = w.matched;
            selected = w.selected;
            closed = w.closed;
            sorted = w.sorted;
          };
    };
    queued = v.queued;
    co = v.co;
  }

-- ===== src/BTreeMap/Sorted.antt =====
-- The order of the entries: every change keeps it, and two maps in order with the same lookups
-- are one.
use Prim.Native.Nat.{Ordering}
use openporch.Prelude.{
  Bool, keep, Option, none, some, [], ◌∷◌, if◌then◌else◌, ◌≡◌, refl, arith, sym, subst, ap, ◌∙◌,
}
use openporch.Prelude.Order.{Ord, ◌==◌, eq_iff, eq_refl}
use openporch.BTreeMap.Defs.{BTreeMap, get, insert, remove}

module _ {ℓ κ} {K : Type ℓ} {V : Type κ} ⦃o : Ord K⦄ where
  -- Every key of the map is above `k`.
  abbrev pub Above : K → BTreeMap K V → Type ℓ
  Above k [] = Unit
  Above k ((j, v) ∷ m) = (o.cmp k j ≡ Ordering.lt) × Above k m

  abbrev pub IsSorted : BTreeMap K V → Type ℓ
  IsSorted [] = Unit
  IsSorted ((k, v) ∷ m) = Above k m × IsSorted m

  Above-trans : (k j : K) (m : BTreeMap K V) → o.cmp k j ≡ Ordering.lt → Above j m → Above k m
  Above-trans k j [] h a = tt
  Above-trans k j ((i, v) ∷ m) h a = (o.cmp_trans k j i h a.0, Above-trans k j m h a.1)

  pub get-Above : (k : K) (m : BTreeMap K V) → Above k m → get k m ≡ none
  unfolding get
  get-Above k [] a = refl
  get-Above k ((j, v) ∷ m) a = ground (arith, get-Above k m)

  Above-insert :
      (i k : K) (v : V) (m : BTreeMap K V)
      → o.cmp i k ≡ Ordering.lt
      → Above i m
      → Above i (insert k v m)
  unfolding insert
  Above-insert i k v [] h a = (h, tt)
  Above-insert i k v ((j, w) ∷ m) h a = ground (arith, Above-insert i k v m)

  pub insert-IsSorted : (k : K) (v : V) (m : BTreeMap K V) → IsSorted m → IsSorted (insert k v m)
  unfolding insert
  insert-IsSorted k v [] s = (tt, tt)
  insert-IsSorted k v ((j, w) ∷ m) s = ground (
    arith,
    Above-trans k j m,
    insert-IsSorted k v m,
    Above-insert j k v m,
    o.cmp-swap_gt k j,
    o.cmp-eq k j,
  )

  Above-remove : (i k : K) (m : BTreeMap K V) → Above i m → Above i (remove k m)
  unfolding remove
  Above-remove i k [] a = tt
  Above-remove i k ((j, w) ∷ m) a = ground (arith, Above-remove i k m)

  pub remove-IsSorted : (k : K) (m : BTreeMap K V) → IsSorted m → IsSorted (remove k m)
  unfolding remove
  remove-IsSorted k [] s = tt
  remove-IsSorted k ((j, w) ∷ m) s = ground (arith, remove-IsSorted k m, Above-remove j k m)

  get-nil : (k : K) → get {V = V} k [] ≡ none
  unfolding get
  get-nil k = refl

  pub get-cons_self : (k : K) (v : V) (m : BTreeMap K V) → get k ((k, v) ∷ m) ≡ some v
  unfolding get
  get-cons_self k v m = rw eq_refl

  get-cons_below :
      (k j : K) (v : V) (m : BTreeMap K V)
      → o.cmp k j ≡ Ordering.lt
      → Above j m
      → get k ((j, v) ∷ m) ≡ none
  get-cons_below k j v m h a = get-Above k ((j, v) ∷ m) (h, Above-trans k j m h a)

  get-tail :
      (k x : K) (v : V) (m : BTreeMap K V)
      → Above k m
      → get x m ≡ (if x == k then none else get x ((k, v) ∷ m))
  unfolding get
  get-tail k x v m a = ground (arith, eq_iff x k, get-Above k m)

  get-eq_of_get-eq :
      (k x : K) (v w : V) (m n : BTreeMap K V)
      → Above k m
      → Above k n
      → get x ((k, v) ∷ m) ≡ get x ((k, w) ∷ n)
      → get x m ≡ get x n
  get-eq_of_get-eq k x v w m n a b e =
      get-tail k x v m a
      ∙ ap (λ (t : Option V). if x == k then none else t) e
      ∙ sym (get-tail k x w n b)

  same_heads :
      (k j : K) (v w : V) (m n : BTreeMap K V)
      → Above k m
      → Above j n
      → get k ((k, v) ∷ m) ≡ get k ((j, w) ∷ n)
      → get j ((k, v) ∷ m) ≡ get j ((j, w) ∷ n)
      → (k ≡ j) × (v ≡ w)
  unfolding get
  same_heads k j v w m n a b e f = ground (
    arith,
    get-cons_below k j w n,
    get-cons_below j k v m,
    get-cons_self k v m,
    get-cons_self j w n,
    o.cmp-eq k j,
    o.cmp-swap_gt k j,
  )

  pub eq_of_get :
      (m n : BTreeMap K V) → IsSorted m → IsSorted n → ((k : K) → get k m ≡ get k n) → m ≡ n
  eq_of_get [] [] s t h = refl
  eq_of_get [] ((j, w) ∷ n) s t h = cc (h j, get-cons_self j w n, get-nil j)
  eq_of_get ((k, v) ∷ m) [] s t h = cc (h k, get-cons_self k v m, get-nil k)
  eq_of_get ((k, v) ∷ m) ((j, w) ∷ n) s t h =
      let (e, f) = same_heads k j v w m n s.0 t.0 (h k) (h j) in
      let below : Above k n = subst (λ i. Above i n) (sym e) t.0 in
      let moved : (x : K) → get x ((j, w) ∷ n) ≡ get x ((k, w) ∷ n) =
        λ x. ap (λ i. get x ((i, w) ∷ n)) (sym e) in
      let tails : m ≡ n =
        eq_of_get m n s.1 t.1 (λ x. get-eq_of_get-eq k x v w m n s.0 below (h x ∙ moved x)) in
      λ i. (e i, f i) ∷ tails i

  pub Above-keep : (k : K) (p : K × V → Bool) (m : BTreeMap K V) → Above k m → Above k (keep p m)
  Above-keep k p [] a = tt
  Above-keep k p ((j, v) ∷ m) a = ground (arith, Above-keep k p m)

  pub keep-IsSorted : (p : K × V → Bool) (m : BTreeMap K V) → IsSorted m → IsSorted (keep p m)
  keep-IsSorted p [] s = tt
  keep-IsSorted p ((j, v) ∷ m) s = ground (arith, keep-IsSorted p m, Above-keep j p m)

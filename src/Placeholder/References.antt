-- ===== src/Placeholder/References.antt =====
-- What `collect_placeholders` finds: it ends without a panic, and every reference is valid.
use openporch.Prelude.{
  ℕ, suc, Str, bytes, decimal, Bool, List, [], ◌∷◌, ◌++◌, none, some, drop, if◌then◌else◌, All,
  All-append, ◌≡◌, ◌≢◌, ap, ◌∙◌, subst, inl, inr, arith, Option-cases,
}
use openporch.Prelude.Result.{Result, ok, err, ◌>>=◌, map_err, >>=-ok, ok_inj, Result-cases}
use openporch.Placeholder.Types.{RawPlaceholder, PlaceholderErrorKind, Segment, placeholders, root}
use openporch.Placeholder.Ref.{ResourceRef, resource_ref_parse}
use openporch.Placeholder.RefLaws.{IsValid, resource_ref_parse_iff}
use openporch.Placeholder.Scan.{template_parse}
use openporch.Placeholder.Expr.{
  Expr, context, resource, ContextKey, ResourceField, Dialect, interpret, interpret_context,
  interpret_resource, interpret_output, interpret_value, interpret_pod, parse_resource_ref,
  ref_text, field_of, names, ok_or, first_key,
}
use openporch.Placeholder.Json.{Value, Items, Fields, null, bool, number, string, array, object}
use openporch.Placeholder.Run.{Run, ◌>>=◌ as ◌>>>=◌}
use openporch.Placeholder.Total.{template_parse_total}
use openporch.Placeholder.Collect.{
  Found, collect_raw, collect_into, collect_items, collect_fields, collect_placeholders,
}

map_err-ok {ℓ κ μ} :
    {E : Type κ} {F : Type μ} {A : Type ℓ} (f : E → F) {a : A} (r : Result E A)
    → map_err f r ≡ ok a
    → r ≡ ok a
map_err-ok f (ok x) h = cc
map_err-ok f (err e) h = absurd (cc)

parse_resource_ref-IsValid :
    (segs : List Segment) (t : ResourceRef) (f : ResourceField)
    → parse_resource_ref segs ≡ ok (t, f)
    → IsValid t
unfolding parse_resource_ref
parse_resource_ref-IsValid segs t f h =
    let ((text, rest), e1, h1) = >>=-ok (ref_text segs) h in
    let (target, e2, h2) = >>=-ok (map_err _ (resource_ref_parse text)) h1 in
    let (field, e3, h3) = >>=-ok (field_of rest) h2 in
    let same : target ≡ t = ap (λ (x : ResourceRef × ResourceField). x.0) (ok_inj h3) in
    subst IsValid same ((resource_ref_parse_iff text target).0 (map_err-ok _ _ e2)).1

interpret_resource-IsValid :
    (dialect : Dialect) (segs : List Segment) (t : ResourceRef) (f : ResourceField)
    → interpret_resource dialect segs ≡ ok (resource t f)
    → IsValid t
unfolding interpret_resource
interpret_resource-IsValid dialect segs t f h =
    let ((target, field), e1, h1) = >>=-ok (parse_resource_ref segs) h in
    let same : target ≡ t = ground arith in
    subst IsValid same (parse_resource_ref-IsValid segs target field e1)

-- A chain that ends in another expression is no reference.
chain-ne {ℓ} :
    {A : Type ℓ} (m : Result PlaceholderErrorKind A) (g : A → Result PlaceholderErrorKind Expr)
    (e : Expr)
    → ((a : A) → g a ≢ ok e)
    → (m >>= g) ≢ ok e
chain-ne (ok a) g e n = n a
chain-ne (err x) g e n = λ h. cc

module _ (segs : List Segment) (t : ResourceRef) (f : ResourceField) where
  constructors_differ :
      (k : ContextKey)
      → ◌≢◌ {A = Result PlaceholderErrorKind Expr} (ok (context k)) (ok (resource t f))
  constructors_differ k h = cc

  context-ne : interpret_context segs ≢ ok (resource t f)
  unfolding interpret_context
  context-ne =
      chain-ne (ok_or _ (names segs)) _ (resource t f)
        λ ns. chain-ne _ _ (resource t f) (λ k. constructors_differ k)

  output-ne : (r : Str) → interpret_output r segs ≢ ok (resource t f)
  unfolding interpret_output
  output-ne r = chain-ne (ok_or _ (first_key segs)) _ (resource t f) (λ k h. ground arith)

  value-ne : interpret_value segs ≢ ok (resource t f)
  unfolding interpret_value
  value-ne = chain-ne (ok_or _ (first_key segs)) _ (resource t f) (λ k h. cc)

  pod-ne : interpret_pod segs ≢ ok (resource t f)
  unfolding interpret_pod
  pod-ne = chain-ne (ok_or _ (names segs)) _ (resource t f) (λ ns h. ground arith)

err-ne {ℓ} :
    {A : Type ℓ} (x : PlaceholderErrorKind) (a : A)
    → ◌≢◌ {A = Result PlaceholderErrorKind A} (err x) (ok a)
err-ne x a h = cc

-- The shape of `interpret`: of its arms only the second one can give `out`.
second_arm {ℓ} :
    {A : Type ℓ} (a b c d e g : Bool) (x x' y z v w w' out : A)
    → (if a
        then (if b then x else x')
        else if c
        then y
        else if d
        then z
        else if e
        then v
        else if g
        then w
        else w')
      ≡ out
    → x ≢ out
    → x' ≢ out
    → z ≢ out
    → v ≢ out
    → w ≢ out
    → w' ≢ out
    → y ≡ out
second_arm a b c d e g x x' y z v w w' out h n1 n2 n3 n4 n5 n6 =
    ground (arith, h, n1, n2, n3, n4, n5, n6)

interpret-resource :
    (raw : RawPlaceholder) (dialect : Dialect) (t : ResourceRef) (f : ResourceField)
    → interpret raw dialect ≡ ok (resource t f)
    → interpret_resource dialect (drop 1 raw.segments) ≡ ok (resource t f)
unfolding interpret
interpret-resource raw dialect t f h =
    let segs = drop 1 raw.segments in
    second_arm _ _ _ _ _ _ _ _ _ _ _ _ _ _ h (context-ne segs t f) (err-ne _ _)
      (output-ne segs t f (root raw)) (value-ne segs t f) (pod-ne segs t f) (err-ne _ _)

-- Every reference to a resource is valid.
abbrev pub ReferenceIsValid : Expr → Type 0
ReferenceIsValid e = (t : ResourceRef) (f : ResourceField) → e ≡ resource t f → IsValid t

abbrev pub Valid : Found → Type 0
Valid x = ReferenceIsValid x.expr

abbrev pub Finds : Run (List Found) → Type 0
Finds none = ⊥
Finds (some (err e)) = Unit
Finds (some (ok fs)) = All Valid fs

Finds-bind :
    (m : Run (List Found)) (f : List Found → Run (List Found))
    → Finds m
    → ((fs : List Found) → All Valid fs → Finds (f fs))
    → Finds (m >>>= f)
Finds-bind none f h k = absurd h
Finds-bind (some (err e)) f h k = tt
Finds-bind (some (ok fs)) f h k = k fs h

module _ (dialect : Dialect) where
  collect_raw-Finds :
      (location : Str) (ps : List RawPlaceholder) (out : List Found)
      → All Valid out
      → Finds (collect_raw dialect location ps out)
  unfolding collect_raw
  collect_raw-Finds location [] out a = a
  collect_raw-Finds location (p ∷ ps) out a = elim (Result-cases (interpret p dialect)) [
    | inl (x, e) ↦ rw e tt
    | inr (x, e) ↦ rw e (
        collect_raw-Finds location ps _ (
          All-append Valid out _ a (
            (λ t f q.
                interpret_resource-IsValid dialect (drop 1 p.segments) t f
                  (interpret-resource p dialect t f (e ∙ ap ok q))),
            tt,
          )))
  ]

  mutual
    unfolding collect_into collect_items collect_fields

    collect_into-Finds :
        (location : Str) (v : Value) (out : List Found)
        → All Valid out
        → Finds (collect_into dialect location v out)
    collect_into-Finds location (string s) out a = elim (Option-cases (template_parse s)) [
      | inl e ↦ absurd (template_parse_total s e)
      | inr (err x, e) ↦ rw e tt
      | inr (ok t, e) ↦ rw e (collect_raw-Finds location (placeholders t) out a)
    ]
    collect_into-Finds location (array vs) out a = collect_items-Finds location 0 vs out a
    collect_into-Finds location (object vs) out a = collect_fields-Finds location vs out a
    collect_into-Finds location null out a = a
    collect_into-Finds location (bool b) out a = a
    collect_into-Finds location (number n) out a = a

    collect_items-Finds :
        (location : Str) (i : ℕ) (vs : Items) (out : List Found)
        → All Valid out
        → Finds (collect_items dialect location i vs out)
    collect_items-Finds location i Items.no_items out a = a
    collect_items-Finds location i (Items.item v vs) out a =
        Finds-bind _ _
          (collect_into-Finds (location ++ bytes "[" ++ decimal i ++ bytes "]") v out a)
          (λ out' a'. collect_items-Finds location (suc i) vs out' a')

    collect_fields-Finds :
        (location : Str) (vs : Fields) (out : List Found)
        → All Valid out
        → Finds (collect_fields dialect location vs out)
    collect_fields-Finds location Fields.no_fields out a = a
    collect_fields-Finds location (Fields.field k v vs) out a =
        Finds-bind _ _ (collect_into-Finds (location ++ bytes "." ++ k) v out a)
          (λ out' a'. collect_fields-Finds location vs out' a')

  pub collect_placeholders-Finds :
      (location : Str) (v : Value) → Finds (collect_placeholders dialect location v)
  unfolding collect_placeholders
  collect_placeholders-Finds location v = collect_into-Finds location v [] tt

-- ===== src/Placeholder/Expr.antt =====
-- `Expr::interpret`: what a placeholder means in a dialect.
use openporch.Prelude.{
  Str, bytes, join, Bool, true, false, not, ◌&&◌, ◌||◌, List, [], ◌∷◌, ◌++◌, Option, none, some,
  if◌then◌else◌, ltb, is_nil, length, any, find, drop,
}
use openporch.Prelude.Order.{str_ord, ◌==◌}
use openporch.Prelude.Result.{Result, ok, err, ◌>>=◌, map_err}
use openporch.Prelude.Split.{has_char}
use openporch.Ids.Rules.{IdError}
use openporch.Ids.Parse.{sharp}
use openporch.Placeholder.Types.{
  PlaceholderErrorKind, syntax, unknown_root, not_allowed, unresolvable, Segment, name, quoted,
  index, key, RawPlaceholder, root,
}
use openporch.Placeholder.Ref.{ResourceRef, resource_ref_parse}

pub data ContextKey : Type 0 where
  org_id : ContextKey
  app_id : ContextKey
  env_id : ContextKey
  env_type : ContextKey
  res_id : ContextKey
  res_class : ContextKey
  res_type : ContextKey
  res_guresid : ContextKey
  deploy_id : ContextKey
  deploy_set_id : ContextKey

-- `ContextKey::ALL`
abbrev pub all_keys : List ContextKey
all_keys =
    org_id ∷ app_id ∷ env_id ∷ env_type ∷ res_id ∷ res_class ∷ res_type ∷ res_guresid ∷ deploy_id
    ∷ deploy_set_id ∷ []

-- `ContextKey::path`
unfoldable pub path : ContextKey → Str
path org_id = bytes "org.id"
path app_id = bytes "app.id"
path env_id = bytes "env.id"
path env_type = bytes "env.type"
path res_id = bytes "res.id"
path res_class = bytes "res.class"
path res_type = bytes "res.type"
path res_guresid = bytes "res.guresid"
path deploy_id = bytes "deploy.id"
path deploy_set_id = bytes "deploy.set.id"

pub data ResourceField : Type 0 where
  outputs : List Segment → ResourceField
  guresid : ResourceField
  account : ResourceField

pub data Expr : Type 0 where
  context : ContextKey → Expr
  resource : (target : ResourceRef) (field : ResourceField) → Expr
  externals : (key : Str) (path : List Segment) → Expr
  shared : (id : Str) (path : List Segment) → Expr
  values : (key : Str) (path : List Segment) → Expr
  pod : List Str → Expr

pub data Dialect : Type 0 where
  definition : Dialect
  driver_account : Dialect
  set : Dialect

-- `names`: the names of segments that are all names.
abbrev pub cons_some : Str → Option (List Str) → Option (List Str)
cons_some n none = none
cons_some n (some ns) = some (n ∷ ns)

unfoldable pub names : List Segment → Option (List Str)
names [] = some []
names (name n ∷ segs) = cons_some n (names segs)
names (quoted q ∷ segs) = none
names (index i ∷ segs) = none

-- `ok_or_else`
abbrev pub ok_or {ℓ} :
    {A : Type ℓ} → PlaceholderErrorKind → Option A → Result PlaceholderErrorKind A
ok_or e none = err e
ok_or e (some a) = ok a

abbrev pub expected : PlaceholderErrorKind
expected = syntax (bytes "expected `resources.<type>[.<class>][#<id>].outputs.<name>`")

unfoldable pub is_field : Segment → Bool
is_field (name n) = n == bytes "outputs" || n == bytes "guresid" || n == bytes "account"
is_field (quoted q) = false
is_field (index i) = false

-- The segments before the first field name, and those from it on.
abbrev pub cons_before :
    Segment → Option (List Segment × List Segment) → Option (List Segment × List Segment)
cons_before s none = none
cons_before s (some (a, b)) = some (s ∷ a, b)

unfoldable pub split_at_field : List Segment → Option (List Segment × List Segment)
unfolding is_field
split_at_field [] = none
split_at_field (s ∷ segs) =
    if is_field s then some ([], s ∷ segs) else cons_before s (split_at_field segs)

-- The text of the reference, and the segments after it.
unfoldable pub ref_text : List Segment → Result PlaceholderErrorKind (Str × List Segment)
unfolding split_at_field names
ref_text [] = err expected
ref_text (index i ∷ segs) = err expected
ref_text (quoted q ∷ segs) = ok (q, segs)
ref_text (name n ∷ segs) = do
  (before, rest) ← ok_or expected (split_at_field (name n ∷ segs))
  parts ← ok_or expected (names before)
  (if is_nil parts || (not (any (has_char sharp) parts) && ltb 2 (length parts))
      then err expected
      else ok (join (bytes ".") parts, rest))

unfoldable pub field_of : List Segment → Result PlaceholderErrorKind ResourceField
field_of (name n ∷ segs) =
    if n == bytes "outputs" && not (is_nil segs)
    then ok (outputs segs)
    else if n == bytes "guresid" && is_nil segs
    then ok guresid
    else if n == bytes "account" && is_nil segs
    then ok account
    else err expected
field_of _ = err expected

-- `Display` of an `IdError`.
abbrev pub id_error_to_string : IdError → Str
id_error_to_string e =
    bytes "invalid " ++ (e.kind ++ (bytes " `" ++ (e.value ++ (bytes "`: " ++ e.reason))))

unfoldable pub parse_resource_ref :
    List Segment → Result PlaceholderErrorKind (ResourceRef × ResourceField)
unfolding ref_text field_of resource_ref_parse
parse_resource_ref segs = do
  (text, rest) ← ref_text segs
  target ← map_err (λ e. syntax (id_error_to_string e)) (resource_ref_parse text)
  field ← field_of rest
  ok (target, field)

abbrev is_definition : Dialect → Bool
is_definition definition = true
is_definition driver_account = true
is_definition set = false

abbrev is_set : Dialect → Bool
is_set set = true
is_set _ = false

abbrev is_account : ResourceField → Bool
is_account account = true
is_account _ = false

abbrev is_driver_account : Dialect → Bool
is_driver_account driver_account = true
is_driver_account _ = false

-- The arms of the match, on the segments after the root.
unfoldable pub interpret_context : List Segment → Result PlaceholderErrorKind Expr
unfolding names path
interpret_context segs = do
  ns ← ok_or (syntax (bytes "context paths are names")) (names segs)
  k ←
      ok_or
        (unresolvable
          (bytes "unknown context value `context." ++ (join (bytes ".") ns ++ bytes "`")))
        (find (λ k. path k == join (bytes ".") ns) all_keys)
  ok (context k)

unfoldable pub interpret_resource : Dialect → List Segment → Result PlaceholderErrorKind Expr
unfolding parse_resource_ref
interpret_resource dialect segs = do
  (target, field) ← parse_resource_ref segs
  (if is_account field && not (is_driver_account dialect)
      then err (not_allowed (bytes "`.account` is only allowed in `driver_account`"))
      else ok (resource target field))

-- `segs.get(1).and_then(Segment::key)`
abbrev pub first_key : List Segment → Option Str
first_key [] = none
first_key (s ∷ segs) = key s

abbrev pub wants_output : Str → PlaceholderErrorKind
wants_output r = syntax (bytes "expected `" ++ (r ++ bytes ".<id>.<output>`"))

unfoldable pub interpret_output : Str → List Segment → Result PlaceholderErrorKind Expr
interpret_output r segs = do
  k ← ok_or (wants_output r) (first_key segs)
  (if is_nil (drop 1 segs)
      then err (wants_output r)
      else ok
          (if r == bytes "externals" then externals k (drop 1 segs) else shared k (drop 1 segs)))

unfoldable pub interpret_value : List Segment → Result PlaceholderErrorKind Expr
interpret_value segs = do
  k ← ok_or (syntax (bytes "expected `values.<key>`")) (first_key segs)
  ok (values k (drop 1 segs))

unfoldable pub interpret_pod : List Segment → Result PlaceholderErrorKind Expr
unfolding names
interpret_pod segs = do
  ns ← ok_or (syntax (bytes "pod paths are names")) (names segs)
  if is_nil ns then err (syntax (bytes "expected `pod.<path>`")) else ok (pod ns)

unfoldable pub interpret : RawPlaceholder → Dialect → Result PlaceholderErrorKind Expr
unfolding interpret_context interpret_resource interpret_output interpret_value interpret_pod
interpret raw dialect =
    let r = root raw in
    let segs = drop 1 raw.segments in
    if r == bytes "context"
    then (if is_definition dialect
        then interpret_context segs
        else err (
            not_allowed (
              bytes
                "workloads cannot use `context` placeholders; use `values` for environment configuration")))
    else if r == bytes "resources" && is_definition dialect
    then interpret_resource dialect segs
    else if (r == bytes "externals" || r == bytes "shared") && is_set dialect
    then interpret_output r segs
    else if r == bytes "values" && is_set dialect
    then interpret_value segs
    else if r == bytes "pod" && is_set dialect
    then interpret_pod segs
    else err (unknown_root r)

-- ===== src/Placeholder/Types.antt =====
-- Placeholder syntax: segments, raw placeholders and templates (crates/core/src/placeholder.rs). A
-- text is the list of its characters, as code points.
use openporch.Prelude.{
  ℕ, Str, bytes, decimal, Bool, true, false, List, [], ◌∷◌, ◌++◌, Option, none, some, all,
}

pub data PlaceholderErrorKind : Type 0 where
  syntax : Str → PlaceholderErrorKind
  unknown_root : Str → PlaceholderErrorKind
  not_allowed : Str → PlaceholderErrorKind
  unresolvable : Str → PlaceholderErrorKind
  secret_in_non_secret : PlaceholderErrorKind

pub record PlaceholderError : Type 0 where
  pub placeholder : Str
  pub location : Str
  pub kind : PlaceholderErrorKind

pub data Segment : Type 0 where
  name : Str → Segment
  quoted : Str → Segment
  index : ℕ → Segment

-- `Segment::key`.
abbrev pub key : Segment → Option Str
key (name s) = some s
key (quoted s) = some s
key (index i) = none

-- `Display` of a segment.
unfoldable pub segment_to_string : Segment → Str
segment_to_string (name s) = bytes "." ++ s
segment_to_string (quoted s) = bytes "['" ++ (s ++ bytes "']")
segment_to_string (index i) = bytes "[" ++ (decimal i ++ bytes "]")

pub record RawPlaceholder : Type 0 where
  pub text : Str
  pub segments : List Segment

abbrev key_or_empty : Option Str → Str
key_or_empty none = []
key_or_empty (some s) = s

-- `RawPlaceholder::root`, of the segments.
abbrev pub root_of : List Segment → Str
root_of [] = []
root_of (s ∷ segs) = key_or_empty (key s)

abbrev pub root : RawPlaceholder → Str
root p = root_of p.segments

pub data Part : Type 0 where
  literal : Str → Part
  placeholder : RawPlaceholder → Part

pub record Template : Type 0 where
  pub parts : List Part

abbrev is_literal_part : Part → Bool
is_literal_part (literal s) = true
is_literal_part (placeholder p) = false

-- `Template::is_literal`.
abbrev pub is_literal : Template → Bool
is_literal t = all is_literal_part t.parts

-- `Template::placeholders`.
abbrev pub placeholders_in : List Part → List RawPlaceholder
placeholders_in [] = []
placeholders_in (literal s ∷ ps) = placeholders_in ps
placeholders_in (placeholder p ∷ ps) = p ∷ placeholders_in ps

abbrev pub placeholders : Template → List RawPlaceholder
placeholders t = placeholders_in t.parts

-- `Template::whole`.
abbrev pub whole_of : List Part → Option RawPlaceholder
whole_of (placeholder p ∷ []) = some p
whole_of _ = none

abbrev pub whole : Template → Option RawPlaceholder
whole t = whole_of t.parts

-- ===== src/Redact/Find.antt =====
-- Occurrences of one text in another: `str::find`, `contains` and `replace` of two characters.
use openporch.Prelude.{
  ℕ, suc, Str, Bool, true, false, ◌&&◌, [], ◌∷◌, ◌++◌, Option, none, some, if◌then◌else◌, nat_beq,
  is_nil, ◌≡◌,
}
use openporch.BTreeMap.Laws.{is_some}

-- `str::starts_with`
unfoldable pub starts_with : Str → Str → Bool
starts_with [] s = true
starts_with (p ∷ ps) [] = false
starts_with (p ∷ ps) (c ∷ s) = nat_beq p c && starts_with ps s

abbrev pub one_on : Option ℕ → Option ℕ
one_on none = none
one_on (some i) = some (suc i)

-- `str::find`: the first position.
unfoldable pub find_text : Str → Str → Option ℕ
unfolding starts_with
find_text p [] = if is_nil p then some 0 else none
find_text p (c ∷ s) =
    let rest = one_on (find_text p s) in if starts_with p (c ∷ s) then some 0 else rest

-- `str::contains`
abbrev pub contains : Str → Str → Bool
contains p s = is_some (find_text p s)

-- `str::replace` of the two characters `a` and `b` that stand together.
unfoldable pub replace_pair : ℕ → ℕ → Str → Str → Str
replace_pair a b new [] = []
replace_pair a b new (c ∷ []) = c ∷ []
replace_pair a b new (c ∷ d ∷ s) =
    let replaced = new ++ replace_pair a b new s in
    let kept = c ∷ replace_pair a b new (d ∷ s) in
    if nat_beq c a && nat_beq d b then replaced else kept

-- `str::replace` of a character by a text.
unfoldable pub replace_char : ℕ → Str → Str → Str
replace_char a new [] = []
replace_char a new (c ∷ s) = (if nat_beq c a then new else c ∷ []) ++ replace_char a new s

pub find_text-nil : (p : Str) → is_nil p ≡ false → find_text p [] ≡ none
unfolding find_text
find_text-nil p h = rw h

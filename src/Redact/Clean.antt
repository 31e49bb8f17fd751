-- ===== src/Redact/Clean.antt =====
-- No known value is left in redacted text.
use openporch.Prelude.{
  ℕ, zero, suc, Str, Bool, true, false, ◌||◌, List, [], ◌∷◌, ◌++◌, none, is_nil, length, any,
  if◌then◌else◌, ◌≡◌, refl, ap, ◌∙◌, subst, inl, inr, arith, Memᴰ, Memᴰ-append_left,
  Memᴰ-append_right, Bool-cases, Option-cases,
}
use openporch.Prelude.Order.{str_ord, ◌==◌, eq_iff}
use openporch.Prelude.Sort.{Memᴰ-sort}
use openporch.Prelude.Distinct.{Memᴰ-cons_cases}
use openporch.BTreeMap.Laws.{is_some}
use openporch.Redact.Find.{find_text, contains, find_text-nil}
use openporch.Redact.Ranges.{range_ord}
use openporch.Redact.Redactor.{
  Redactor, redacted, passes, occurrences, all_ranges, pass, settle, marker_for, redact, dedup,
  dedup_after, push_forms, escaped_forms, add, new,
}

occurrences-nil :
    (n : ℕ) (f : Str) (from : ℕ) (s : Str)
    → occurrences (suc n) f from s ≡ []
    → find_text f s ≡ none
unfolding occurrences
occurrences-nil n f from s h = elim (Option-cases (find_text f s)) [
  | inl e ↦ e
  | inr (i, e) ↦ absurd (let found = rw (occurrences, e) at h in cc)
]

nil_of_append : {A : Type 0} (xs ys : List A) → xs ++ ys ≡ [] → (xs ≡ []) × (ys ≡ [])
nil_of_append [] ys h = (refl, h)
nil_of_append (x ∷ xs) ys h = absurd (cc)

all_ranges-nil :
    {f : Str} (fs : List Str) (s : Str) → all_ranges fs s ≡ [] → Memᴰ f fs → find_text f s ≡ none
unfolding all_ranges
all_ranges-nil [] s h m = elim m [ ]
all_ranges-nil (g ∷ fs) s h (Memᴰ.head e) =
    rw e
      (occurrences-nil (length s) g 0 s (nil_of_append (occurrences (suc (length s)) g 0 s) _ h).0)
all_ranges-nil (g ∷ fs) s h (Memᴰ.tail m) =
    all_ranges-nil fs s (nil_of_append (occurrences (suc (length s)) g 0 s) _ h).1 m

nil_of_is_nil : {A : Type 0} (xs : List A) → is_nil xs ≡ true → xs ≡ []
nil_of_is_nil [] h = refl
nil_of_is_nil (x ∷ xs) h = cc

-- A pass that changes nothing found no form.
pass-none :
    (r : Redactor) (s marker : Str) {f : Str}
    → pass r s marker ≡ none
    → Memᴰ f r.forms
    → contains f s ≡ false
unfolding pass
pass-none r s marker h m = elim (Bool-cases (is_nil (all_ranges r.forms s))) [
  | inl n ↦ rw (all_ranges-nil r.forms s (nil_of_is_nil (all_ranges r.forms s) n) m)
  | inr n ↦ absurd (let changed = rw (pass, n) at h in cc)
]

or_left : (a b : Bool) → (a || b) ≡ false → a ≡ false
or_left a b h = ground arith

or_right : (a b : Bool) → (a || b) ≡ false → b ≡ false
or_right a b h = ground arith

any-false :
    {A : Type 0} (p : A → Bool) {a : A} {xs : List A} → any p xs ≡ false → Memᴰ a xs → p a ≡ false
any-false p h (Memᴰ.head {x = x} {xs = xs} e) = ap p e ∙ or_left (p x) (any p xs) h
any-false p h (Memᴰ.tail {x = x} {xs = xs} m) = any-false p (or_right (p x) (any p xs) h) m

-- The marker holds no form.
marker_for-clean :
    (r : Redactor) {f : Str} → Memᴰ f r.forms → is_nil f ≡ false → contains f (marker_for r) ≡ false
unfolding marker_for
marker_for-clean r {f} m n = elim (Bool-cases (any (λ g. contains g redacted) r.forms)) [
  | inl e ↦ rw (marker_for, e) (ap is_some (find_text-nil f n))
  | inr e ↦ rw (marker_for, e) (any-false (λ g. contains g redacted) e m)
]

settle-clean :
    (n : ℕ) (r : Redactor) (out : Str) {f : Str}
    → Memᴰ f r.forms
    → is_nil f ≡ false
    → contains f (settle n r (marker_for r) out) ≡ false
unfolding settle
settle-clean zero r out m e = marker_for-clean r m e
settle-clean (suc n) r out {f} m e = elim (Option-cases (pass r out (marker_for r))) [
  | inl p ↦ rw (settle, p) (pass-none r out (marker_for r) p m)
  | inr (next, p) ↦ rw (settle, p) (settle-clean n r next m e)
]

-- Redacted text contains no form that the redactor knows.
pub redact-clean :
    (r : Redactor) (s : Str) {f : Str}
    → Memᴰ f r.forms
    → is_nil f ≡ false
    → contains f (redact r s) ≡ false
unfolding redact
redact-clean r s {f} m e = elim (Option-cases (pass r s (marker_for r))) [
  | inl p ↦ rw (redact, p) (pass-none r s (marker_for r) p m)
  | inr (out, p) ↦ rw (redact, p) (settle-clean passes r out m e)
]

-- A value that is added is among the forms.
same_head : {x y a : Str} {ys : List Str} → y ≡ x → Memᴰ a (x ∷ y ∷ ys) → Memᴰ a (x ∷ ys)
same_head e (Memᴰ.head q) = Memᴰ.head q
same_head e (Memᴰ.tail (Memᴰ.head q)) = Memᴰ.head (q ∙ e)
same_head e (Memᴰ.tail (Memᴰ.tail m)) = Memᴰ.tail m

Memᴰ-dedup_after :
    (x : Str) (ys : List Str) {a : Str} → Memᴰ a (x ∷ ys) → Memᴰ a (x ∷ dedup_after x ys)
Memᴰ-dedup_after x [] m = m
Memᴰ-dedup_after x (y ∷ ys) m = elim (Bool-cases (y == x)) [
  | inl e ↦ rw e (Memᴰ-dedup_after x ys (same_head ((eq_iff y x).0 e) m))
  | inr e ↦ rw e (elim (Memᴰ-cons_cases m) [
    | inl q ↦ Memᴰ.head q
    | inr t ↦ Memᴰ.tail (Memᴰ-dedup_after y ys t)
  ])
]

Memᴰ-dedup : (xs : List Str) {a : Str} → Memᴰ a xs → Memᴰ a (dedup xs)
Memᴰ-dedup [] m = m
Memᴰ-dedup (x ∷ xs) m = Memᴰ-dedup_after x xs m

module _ (json : Str → Str) where
  push_forms-kept :
      (vs forms : List Str) {a : Str} → Memᴰ a forms → Memᴰ a (push_forms json forms vs)
  unfolding push_forms
  push_forms-kept [] forms m = m
  push_forms-kept (v ∷ vs) forms m = elim (Bool-cases (is_nil v)) [
    | inl e ↦ rw e (push_forms-kept vs forms m)
    | inr e ↦ rw e (
        push_forms-kept vs (forms ++ escaped_forms json v ++ v ∷ [])
          (Memᴰ-append_left (v ∷ []) (Memᴰ-append_left (escaped_forms json v) m)))
  ]

  push_forms-value :
      (vs forms : List Str) {v : Str}
      → Memᴰ v vs
      → is_nil v ≡ false
      → Memᴰ v (push_forms json forms vs)
  unfolding push_forms
  push_forms-value [] forms m n = elim m [ ]
  push_forms-value (w ∷ vs) forms (Memᴰ.head e) n =
      let n' : is_nil w ≡ false = subst (λ x. is_nil x ≡ false) e n in
      rw n' (
        push_forms-kept vs (forms ++ escaped_forms json w ++ w ∷ [])
          (Memᴰ-append_right (forms ++ escaped_forms json w) (Memᴰ.head e)))
  push_forms-value (w ∷ vs) forms (Memᴰ.tail m) n =
      push_forms-value vs (if is_nil w then forms else forms ++ escaped_forms json w ++ w ∷ []) m n

  -- Text redacted for some values contains none of them that is not empty, whatever the text, the
  -- other values and the ways in which they overlap.
  pub redact-new :
      (values : List Str) (text : Str) {v : Str}
      → Memᴰ v values
      → is_nil v ≡ false
      → contains v (redact (new json values) text) ≡ false
  unfolding new add
  redact-new values text m n =
      redact-clean (new json values) text
        (Memᴰ-dedup _ (Memᴰ-sort (push_forms json [] values) (push_forms-value values [] m n))) n

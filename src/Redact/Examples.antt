-- ===== src/Redact/Examples.antt =====
-- Redaction at concrete texts, with the quotes that serde_json writes.
use openporch.Prelude.{Str, bytes, false, List, [], ◌∷◌, ◌++◌, ◌≡◌, refl, Memᴰ}
use openporch.Redact.Find.{contains}
use openporch.Redact.Redactor.{redact, new}
use openporch.Redact.Clean.{redact-new}

abbrev quote : Str → Str
quote s = 34 ∷ (s ++ 34 ∷ [])

abbrev secrets : List Str
secrets = bytes "hunter2" ∷ bytes "ter2go" ∷ bytes "${x}" ∷ []

abbrev line : Str
line = bytes "pw=hunter2go $${x}!"

-- Overlapping values are one match, and the escaped form of a value is a form too.
redacted_line : redact (new quote secrets) line ≡ bytes "pw=[REDACTED] [REDACTED]!"
unfolding redact new
redacted_line = refl

-- A replacement that joins text into a value again is redacted again.
rejoined : redact (new quote (bytes "[R" ∷ bytes "ab" ∷ [])) (bytes "aabb") ≡ []
unfolding redact new
rejoined = refl

redact-new_example : contains (bytes "ter2go") (redact (new quote secrets) line) ≡ false
redact-new_example = redact-new quote secrets line (Memᴰ.tail (Memᴰ.head refl)) refl

-- ===== src/Ids/Parse.antt =====
-- `Descriptor::parse`.
use openporch.Prelude.{ℕ, Str, bytes, Option, none, some}
use openporch.Prelude.Result.{Result, ok, err, ◌>>=◌}
use openporch.Prelude.Split.{split_once}
use openporch.Ids.Types.{Descriptor}
use openporch.Ids.Rules.{IdError, dot, class_new, resource_type_new, res_id_new, object_id_new}

abbrev pub sharp : ℕ
sharp = 35

-- `ok_or_else`.
abbrev pub ok_or {ℓ} : {A : Type ℓ} → IdError → Option A → Result IdError A
ok_or e none = err e
ok_or e (some a) = ok a

abbrev pub descriptor_error : Str → IdError
descriptor_error s = record {
  kind = bytes "resource descriptor";
  value = s;
  reason = bytes "expected `<type>.<class>#<res_id>`";
}

unfoldable pub descriptor_parse : Str → Result IdError Descriptor
unfolding resource_type_new object_id_new res_id_new
descriptor_parse s = do
  (head, id) ← ok_or (descriptor_error s) (split_once sharp s)
  (ty, class) ← ok_or (descriptor_error s) (split_once dot head)
  ty' ← resource_type_new ty
  class' ← class_new class
  id' ← res_id_new id
  ok (record { ty = ty'; class = class'; id = id' })

-- ===== src/Sets/Serde.antt =====
-- What `apply_delta` and `diff_sets` rely on of serde_json and json_patch.
use openporch.Prelude.{Str, [], ◌≡◌, some}
use openporch.Prelude.Order.{str_ord}
use openporch.Prelude.Result.{ok}
use openporch.BTreeMap.{BTreeMap, get}
use openporch.BTreeMap.Equal.{Decides}
use openporch.Ids.{WorkloadId}
use openporch.Sets.Types.{Module, SharedResource, DeploymentSet, Serde}

-- Values of these types serialize; a patch that is the difference of two values leads from the one
-- to the other, and an empty one changes nothing; values that compare equal are one.
pub record SerdeLaws {ℓ} {V P : Type ℓ} (serde : Serde V P) : Type ℓ where
  pub module_value : Module V → V
  pub module_serializes : (m : Module V) → serde.module_to_value m ≡ ok (module_value m)
  pub shared_value : BTreeMap Str (SharedResource V) → V
  pub shared_serializes :
      (s : BTreeMap Str (SharedResource V)) → serde.shared_to_value s ≡ ok (shared_value s)
  pub patch-diff : (v w : V) → serde.patch v (serde.diff v w) ≡ ok w
  pub patch-nil : (v : V) → serde.patch v [] ≡ ok v
  pub value_eq-Decides : Decides serde.value_eq

module _ {ℓ} {V P : Type ℓ} {serde : Serde V P} (laws : SerdeLaws serde) where
  -- What was written reads back as it was: so it is with all that was read from JSON. (A
  -- parameter `Some(Null)` that was not would read back as `None`.)
  abbrev pub ModuleReadsBack : Module V → Type ℓ
  ModuleReadsBack m = serde.module_from_value (laws.module_value m) ≡ ok m

  abbrev pub SharedReadsBack : BTreeMap Str (SharedResource V) → Type ℓ
  SharedReadsBack s = serde.shared_from_value (laws.shared_value s) ≡ ok s

  pub record ReadsBack (set : DeploymentSet V) : Type ℓ where
    pub modules : (k : WorkloadId) (m : Module V) → get k set.modules ≡ some m → ModuleReadsBack m
    pub shared : SharedReadsBack set.shared

-- ===== src/Graph/Builder/Input.antt =====
-- The identifiers in a deployment set, and the descriptors that are made of them.
use openporch.Prelude.{
  Str, bytes, true, leb, length, all, [], ◌∷◌, ◌++◌, none, some, All, Option, ◌≡◌, ◌≢◌, refl, ap,
  subst, arith,
}
use openporch.Prelude.Order.{str_ord}
use openporch.Prelude.Result.{ok}
use openporch.Prelude.Split.{split, split_of_absent}
use openporch.Ids.{WorkloadId, ResId}
use openporch.Ids.Types.{descriptor_ord}
use openporch.Ids.Rules.{
  dot, is_res_id, res_id_char, alnum, is_valid_object_id, is_resource_type, is_type_name,
  windows_ok, res_id_workload, res_id_private, res_id_shared,
}
use openporch.Ids.ObjectId.{is_valid_object_id_iff}
use openporch.Ids.Chars.{object_id-absent, object_id-chars, id_char}
use openporch.Ids.RoundTrip.{IsValid as IsDescriptor, res_id_new-ok}
use openporch.Sets.Types.{External, Module, SharedResource}
use openporch.Placeholder.Implicit.{all-res_id_char, le→leb}
use openporch.Placeholder.Json.{Value}
use openporch.Graph.Builder.Types.{GraphInput}
use openporch.Graph.Builder.Build.{base_env, workload_descriptor, external_id}

pub workload_test :
    (w : Str)
    → w ≢ []
    → leb (length w) 247 ≡ true
    → all res_id_char w ≡ true
    → split dot w ≡ w ∷ []
    → is_res_id (bytes "modules." ++ w) ≡ true
unfolding is_res_id res_id_char
workload_test [] n l c s = absurd (n refl)
workload_test (x ∷ w) n l c s = rw s (ground (arith, l, c))

pub res_id_workload-valid :
    (w : WorkloadId) → is_valid_object_id w ≡ true → is_res_id (res_id_workload w) ≡ true
unfolding res_id_workload id_char alnum
res_id_workload-valid w h =
    let (m, a, b) = (is_valid_object_id_iff w).0 h in
    workload_test w (λ e. absurd (omega (arith, ap length e))) (le→leb (length w) 247 (omega arith))
      (all-res_id_char w (object_id-chars w h))
      (split_of_absent dot w (object_id-absent dot w refl h))

-- What the types of the source guarantee of the identifiers in a deployment set.
abbrev pub ExternalIsValid : Str × External Value → Type 0
ExternalIsValid e = (is_resource_type e.1.ty ≡ true) × (is_valid_object_id e.1.class ≡ true)

abbrev pub ModuleIsValid : WorkloadId × Module Value → Type 0
ModuleIsValid e =
    (is_valid_object_id e.0 ≡ true)
    × (is_valid_object_id e.1.class ≡ true)
    × All ExternalIsValid e.1.externals

abbrev pub SharedIsValid : Str × SharedResource Value → Type 0
SharedIsValid e = (is_resource_type e.1.ty ≡ true) × (is_valid_object_id e.1.class ≡ true)

pub record InputIsValid (input : GraphInput) : Type 0 where
  pub modules : All ModuleIsValid input.set.modules
  pub shared : All SharedIsValid input.set.shared

pub workload-IsDescriptor :
    (wid : WorkloadId) (m : Module Value)
    → ModuleIsValid (wid, m)
    → IsDescriptor (workload_descriptor wid m)
unfolding is_resource_type is_type_name alnum
workload-IsDescriptor wid m v = record {
  ty = refl;
  class = v.1;
  id = res_id_workload-valid wid v.0;
}

pub base_env-IsDescriptor : IsDescriptor base_env
unfolding is_resource_type is_type_name alnum is_valid_object_id windows_ok is_res_id res_id_char
base_env-IsDescriptor = record { ty = refl; class = refl; id = refl }

pub external_id-valid :
    (wid : WorkloadId) (key : Str) (id : Option Str) {r : ResId}
    → external_id wid key id ≡ ok r
    → is_res_id r ≡ true
unfolding res_id_private res_id_shared
external_id-valid wid key none h =
    let (valid, e) = res_id_new-ok (bytes "modules." ++ wid ++ bytes ".externals." ++ key) h in
    subst (λ s. is_res_id s ≡ true) e valid
external_id-valid wid key (some id) h =
    let (valid, e) = res_id_new-ok (bytes "shared." ++ id) h in
    subst (λ s. is_res_id s ≡ true) e valid

-- ===== src/Sets/Examples.antt =====
-- A small JSON codec, tests, and the theorems at concrete sets.
use openporch.Prelude.{Str, bytes, List, [], ◌∷◌, Option, none, some, ◌≡◌, refl, arith}
use openporch.Prelude.Order.{str_ord, ◌==◌, eq_iff}
use openporch.Prelude.Result.{ok, err}
use openporch.Prelude.Distinct.{not-Memᴰ-nil}
use openporch.BTreeMap.{BTreeMap, get, insert}
use openporch.Ids.{WorkloadId}
use openporch.Sets.Types.{
  Module, SharedResource, DeploymentSet, Delta, default_delta, Serde, remove_missing, add_existing,
  module_eq, shared_resource_eq, external_eq,
}
use openporch.Sets.Apply.{apply_delta, apply_shared}
use openporch.Sets.Diff.{diff_sets, workload_delta, insert_add}
use openporch.Sets.PerWorkload.{workload_after}
use openporch.Sets.Loops.{Succeeds}
use openporch.Sets.Refines.{IsProper, apply_delta-refines, apply_delta-eq_ok_iff}
use openporch.Sets.Serde.{SerdeLaws, ReadsBack}
use openporch.Sets.RoundTrip.{apply_delta-diff_sets}
use openporch.Sets.Workload.{apply_delta-workload_delta}

-- Values are texts: a workload is its class, shared resources the ID of the first. A patch is the
-- new values, and the last one counts.
abbrev plain : Str → Module Str
plain class = record { class = class; spec = []; externals = [] }

abbrev dns : SharedResource Str
dns = record { ty = bytes "dns"; class = bytes "default"; params = none }

abbrev shared_text : BTreeMap Str (SharedResource Str) → Str
shared_text [] = []
shared_text ((k, r) ∷ s) = k

abbrev read_shared : Str → BTreeMap Str (SharedResource Str)
read_shared [] = []
read_shared (c ∷ k) = (c ∷ k, dns) ∷ []

abbrev patched : Str → List Str → Str
patched v [] = v
patched v (w ∷ ops) = patched w ops

abbrev codec : Serde Str Str
codec = record {
  module_to_value = λ m. ok m.class;
  module_from_value = λ v. ok (plain v);
  shared_to_value = λ s. ok (shared_text s);
  shared_from_value = λ v. ok (read_shared v);
  patch = λ v ops. ok (patched v ops);
  diff = λ v w. w ∷ [];
  value_eq = ◌==◌;
}

abbrev codec_laws : SerdeLaws codec
codec_laws = record {
  module_value = λ m. m.class;
  module_serializes = λ m. refl;
  shared_value = shared_text;
  shared_serializes = λ s. refl;
  patch-diff = λ v w. refl;
  patch-nil = λ v. refl;
  value_eq-Decides = eq_iff;
}

abbrev web : WorkloadId
web = bytes "web"

abbrev api : WorkloadId
api = bytes "api"

abbrev job : WorkloadId
job = bytes "job"

abbrev before : DeploymentSet Str
before = record {
  modules = (api, plain (bytes "small")) ∷ (job, plain (bytes "batch")) ∷ [];
  shared = [];
}

abbrev after : DeploymentSet Str
after = record {
  modules = (api, plain (bytes "large")) ∷ (web, plain (bytes "small")) ∷ [];
  shared = (bytes "zone", dns) ∷ [];
}

after_ReadsBack : ReadsBack codec_laws after
unfolding get
after_ReadsBack = record { modules = λ k m h. ground arith; shared = refl }

between : Option (Delta Str Str)
unfolding diff_sets module_eq external_eq shared_resource_eq
between = diff_sets codec before after

between_lem :
    between
    ≡ some (record {
      modules = record {
        add = (web, plain (bytes "small")) ∷ [];
        remove = job ∷ [];
        update = (api, bytes "large" ∷ []) ∷ [];
      };
      shared = bytes "zone" ∷ [];
    })
unfolding between
between_lem = refl

apply_delta-diff_sets_example :
    (d : Delta Str Str) × (diff_sets codec before after ≡ some d)
    × (apply_delta codec before d ≡ ok after)
apply_delta-diff_sets_example =
    apply_delta-diff_sets codec_laws before after ((refl, tt), (tt, tt)) ((refl, tt), (tt, tt)) refl
      after_ReadsBack

apply_delta-workload_delta_example :
    (d : Delta Str Str) × (workload_delta codec before api (plain (bytes "large")) ≡ some d)
    × (apply_delta codec before d
        ≡ ok (record before { modules = insert api (plain (bytes "large")) before.modules }))
apply_delta-workload_delta_example =
    apply_delta-workload_delta codec_laws before api (plain (bytes "large")) refl

-- A delta that removes one workload, adds one and updates one.
abbrev change : Delta Str Str
change = record {
  modules = record {
    add = (web, plain (bytes "small")) ∷ [];
    remove = job ∷ [];
    update = (api, bytes "large" ∷ []) ∷ [];
  };
  shared = [];
}

abbrev changed : DeploymentSet Str
changed = record after { shared = [] }

change-IsProper : IsProper change
change-IsProper = record {
  adds_sorted = (tt, tt);
  updates_sorted = (tt, tt);
  removes_distinct = (not-Memᴰ-nil, tt);
}

apply_change : apply_delta codec before change ≡ ok changed
unfolding apply_delta
apply_change = refl

apply_delta-refines_example :
    workload_after codec change api (some (plain (bytes "small")))
    ≡ ok (some (plain (bytes "large")))
unfolding get
apply_delta-refines_example =
    apply_delta-refines codec before change change-IsProper apply_change api

apply_delta-eq_ok_iff_example :
    Succeeds (workload_after codec change) before.modules
    × (shared : BTreeMap Str (SharedResource Str)) × (apply_shared codec change.shared before.shared
        ≡ ok shared)
apply_delta-eq_ok_iff_example =
    (apply_delta-eq_ok_iff codec before change change-IsProper).0 (changed, apply_change)

remove_absent :
    apply_delta codec before
      (record change { modules = record change.modules { remove = web ∷ [] } })
    ≡ err (remove_missing web)
unfolding apply_delta
remove_absent = refl

add_present :
    apply_delta codec before (insert_add job (plain (bytes "batch")) default_delta)
    ≡ err (add_existing job)
unfolding apply_delta
add_present = refl

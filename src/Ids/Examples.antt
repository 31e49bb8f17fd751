-- ===== src/Ids/Examples.antt =====
-- The examples that the tests of ids.rs give, and the theorems at them.
use openporch.Prelude.{◌≤◌, bytes, true, false, length, ◌≡◌, refl}
use openporch.Prelude.Result.{ok}
use openporch.Ids.Types.{Descriptor, descriptor_to_string}
use openporch.Ids.Rules.{
  max_id_len, is_valid_object_id, is_resource_type, is_res_id, res_id_private, res_id_workload,
  res_id_shared,
}
use openporch.Ids.Parse.{descriptor_parse}
use openporch.Ids.ObjectId.{Matches, is_valid_object_id_iff}
use openporch.Ids.RoundTrip.{IsValid, descriptor_parse_iff}

accepts_my_app : is_valid_object_id (bytes "my-app") ≡ true
unfolding is_valid_object_id
accepts_my_app = refl

rejects_double_hyphen : is_valid_object_id (bytes "my--app") ≡ false
unfolding is_valid_object_id
rejects_double_hyphen = refl

rejects_short : is_valid_object_id (bytes "a") ≡ false
unfolding is_valid_object_id
rejects_short = refl

rejects_last_hyphen : is_valid_object_id (bytes "app-") ≡ false
unfolding is_valid_object_id
rejects_last_hyphen = refl

private_id : res_id_private (bytes "web") (bytes "db") ≡ ok (bytes "modules.web.externals.db")
unfolding res_id_private
private_id = refl

shared_id : res_id_shared (bytes "api-dns") ≡ ok (bytes "shared.api-dns")
unfolding res_id_shared
shared_id = refl

workload_id : res_id_workload (bytes "web") ≡ bytes "modules.web"
unfolding res_id_workload
workload_id = refl

is_valid_object_id_iff_example :
    Matches (bytes "my-app")
    × (2 ≤ length (bytes "my-app"))
    × (length (bytes "my-app") ≤ max_id_len)
is_valid_object_id_iff_example = (is_valid_object_id_iff (bytes "my-app")).0 accepts_my_app

abbrev flags : Descriptor
flags = record { ty = bytes "acme/feature-flags"; class = bytes "large"; id = bytes "shared.flags" }

flags-IsValid : IsValid flags
unfolding is_resource_type is_valid_object_id is_res_id
flags-IsValid = record { ty = refl; class = refl; id = refl }

flags_text : bytes "acme/feature-flags.large#shared.flags" ≡ descriptor_to_string flags
unfolding descriptor_to_string
flags_text = refl

descriptor_parse_iff_example :
    descriptor_parse (bytes "acme/feature-flags.large#shared.flags") ≡ ok flags
descriptor_parse_iff_example =
    (descriptor_parse_iff (bytes "acme/feature-flags.large#shared.flags") flags).1
      (flags_text, flags-IsValid)

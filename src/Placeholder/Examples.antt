-- ===== src/Placeholder/Examples.antt =====
-- Tests of the placeholder syntax and of resolution, and the theorems at concrete values.
use openporch.Prelude.{
  Str, bytes, decimal, true, List, [], ◌∷◌, none, some, ◌≡◌, ◌≢◌, refl, if◌then◌else◌,
}
use openporch.Prelude.Order.{str_ord, ◌==◌}
use openporch.Prelude.Result.{ok, err}
use openporch.Ids.Types.{Descriptor}
use openporch.Ids.Rules.{is_resource_type, is_valid_object_id, is_res_id}
use openporch.Ids.RoundTrip.{IsValid as IsDescriptor}
use openporch.Placeholder.Types.{name, quoted, index, literal, syntax}
use openporch.Placeholder.Path.{parse_path}
use openporch.Placeholder.Scan.{template_parse}
use openporch.Placeholder.Ref.{ResourceRef, resource_ref_parse, resource_ref_to_string, resolve_ref}
use openporch.Placeholder.RefLaws.{IsValid, resource_ref_parse_iff}
use openporch.Placeholder.Implicit.{Resolves, resolve_ref_valid}
use openporch.Placeholder.Expr.{context, values, definition, set}
use openporch.Placeholder.Json.{
  SecretRef, Value, Items, Fields, string, array, object, number, Resolved, plain, secret_text,
  SecretPart, secret, ResolvedItems,
}
use openporch.Placeholder.Run.{done}
use openporch.Placeholder.Resolve.{value, secret_ref, plain_sink, secret_sink, Scope, resolve_value}
use openporch.Placeholder.Secrets.{Secrets}
use openporch.Placeholder.Sinks.{resolve_value-plain, resolve_value-FromScope, FromScope}
use openporch.Placeholder.NoPanic.{resolve_value_total}
use openporch.Placeholder.Collect.{Found, collect_placeholders}
use openporch.Placeholder.Collected.{resolve_value_of_collected}

path_of_outputs :
    parse_path (bytes "resources['dns.public#shared.api-dns'].outputs.hosts[0]")
    ≡ some (
        ok (
          name (bytes "resources")
          ∷ quoted (bytes "dns.public#shared.api-dns")
          ∷ name (bytes "outputs")
          ∷ name (bytes "hosts")
          ∷ index 0
          ∷ []))
unfolding parse_path
path_of_outputs = refl

path_unterminated : parse_path (bytes "a[0") ≡ some (err (syntax (bytes "unterminated `[`")))
unfolding parse_path
path_unterminated = refl

escaped :
    template_parse (bytes "a $\\{b} $5")
    ≡ some (ok (record { parts = literal (bytes "a ${b} $5") ∷ [] }))
unfolding template_parse
escaped = refl

abbrev cluster : ResourceRef
cluster = record { ty = bytes "acme/cluster"; class = none; id = some (bytes "shared.main") }

cluster-IsValid : IsValid cluster
unfolding is_resource_type is_res_id
cluster-IsValid = record { ty = refl; class = tt; id = refl }

cluster_text : bytes "acme/cluster#shared.main" ≡ resource_ref_to_string cluster
unfolding resource_ref_to_string
cluster_text = refl

resource_ref_parse_iff_example : resource_ref_parse (bytes "acme/cluster#shared.main") ≡ ok cluster
resource_ref_parse_iff_example =
    (resource_ref_parse_iff (bytes "acme/cluster#shared.main") cluster).1
      (cluster_text, cluster-IsValid)

abbrev web : Descriptor
web = record { ty = bytes "workload"; class = bytes "default"; id = bytes "modules.web" }

web-IsValid : IsDescriptor web
unfolding is_resource_type is_valid_object_id is_res_id
web-IsValid = record { ty = refl; class = refl; id = refl }

abbrev base : ResourceRef
base = record { ty = bytes "acme/base-env"; class = none; id = none }

base-IsValid : IsValid base
unfolding is_resource_type
base-IsValid = record { ty = refl; class = tt; id = tt }

base_resolved :
    resolve_ref base web true
    ≡ some
        (record { ty = bytes "acme/base-env"; class = bytes "default"; id = bytes "acme-base-env" })
unfolding resolve_ref
base_resolved = refl

resolve_ref_valid_example :
    (d : Descriptor) × (resolve_ref base web true ≡ some d)
    × IsDescriptor d
    × Resolves base web true d
resolve_ref_valid_example = resolve_ref_valid base web true base-IsValid web-IsValid

-- A scope with the type of the environment and one secret.
abbrev password : SecretRef
password = record { store = bytes "openporch"; reference = bytes "shop/db"; version = none }

abbrev scope : Scope
scope (context k) = ok (value (string (bytes "staging")))
scope (values k p) =
    if k == bytes "password" then ok (secret_ref password) else err (bytes "no value")
scope e = err (bytes "not here")

abbrev json_text : Value → Str
json_text (number n) = n
json_text v = bytes "null"

abbrev here : Str
here = bytes "spec"

abbrev labels : Value
labels = object (
    Fields.field (bytes "env") (string (bytes "${context.env.type}"))
      (Fields.field (bytes "n") (number (bytes "3")) Fields.no_fields))

abbrev labels_resolved : Value
labels_resolved = object (
    Fields.field (bytes "env") (string (bytes "staging"))
      (Fields.field (bytes "n") (number (bytes "3")) Fields.no_fields))

resolve_labels :
    resolve_value scope json_text definition plain_sink here labels ≡ done (plain labels_resolved)
unfolding resolve_value
resolve_labels = refl

resolve_value-plain_example : (w : Value) × (plain labels_resolved ≡ plain w)
resolve_value-plain_example =
    resolve_value-plain scope json_text definition here labels resolve_labels

abbrev url : Value
url = array (Items.item (string (bytes "pg://app:${values.password}@db")) Items.no_items)

abbrev url_resolved : Resolved
url_resolved = Resolved.mixed_array (
    ResolvedItems.item
      (secret_text (record {
        parts =
            SecretPart.literal (bytes "pg://app:")
            ∷ secret password
            ∷ SecretPart.literal (bytes "@db")
            ∷ [];
      }))
      ResolvedItems.no_items)

resolve_url : resolve_value scope json_text set secret_sink here url ≡ done url_resolved
unfolding resolve_value
resolve_url = refl

resolve_value-FromScope_example : Secrets (FromScope scope json_text set url) url_resolved
resolve_value-FromScope_example =
    resolve_value-FromScope scope json_text set secret_sink here url resolve_url

resolve_value_total_example : resolve_value scope json_text set plain_sink here url ≢ none
resolve_value_total_example = resolve_value_total json_text scope set plain_sink here url

abbrev url_found : List Found
url_found =
    record {
      location = bytes "spec[0]";
      raw = record {
        text = bytes "${values.password}";
        segments = name (bytes "values") ∷ name (bytes "password") ∷ [];
      };
      expr = values (bytes "password") [];
    }
    ∷ []

collect_url : collect_placeholders set here url ≡ done url_found
unfolding collect_placeholders decimal
collect_url = refl

resolve_value_of_collected_example :
    (r : Resolved) × (resolve_value scope json_text set secret_sink here url ≡ done r)
resolve_value_of_collected_example =
    resolve_value_of_collected json_text scope set here url url_found collect_url
      ((secret_ref password, refl), tt)

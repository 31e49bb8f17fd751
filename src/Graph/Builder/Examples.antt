-- ===== src/Graph/Builder/Examples.antt =====
-- A workload with a database, and a resource that waits on a co-provisioned one.
use openporch.Prelude.{Str, bytes, true, List, [], ◌∷◌, none, some, map, ◌≡◌, refl}
use openporch.Prelude.Result.{ok}
use openporch.BTreeMap.{get, insert, remove, set_insert, set_remove}
use openporch.Ids.{Descriptor}
use openporch.Ids.Types.{default_class, descriptor_ord, descriptor_to_string}
use openporch.Ids.Rules.{
  is_valid_object_id, windows_ok, alnum, is_resource_type, is_type_name, res_id_private,
  res_id_workload,
}
use openporch.Model.{ResourceDefinition, Criterion}
use openporch.Placeholder.Json.{Value, object, Fields}
use openporch.Graph.Builder.Types.{direct, indirect, GraphInput, Node, Builder, Build, has_class}
use openporch.Criteria.Select.{select_definition}
use openporch.Criteria.Weight.{definition_weight, criterion_weight}
use openporch.Placeholder.Collect.{collect_placeholders}
use openporch.Graph.Builder.Request.{request}
use openporch.Graph.Builder.Dependents.{match_dependents}
use openporch.Canonical.Examples.{numbers}
use openporch.Graph.Builder.Build.{ResourceGraph, build_graph}
use openporch.Graph.Builder.Input.{InputIsValid}
use openporch.Graph.Builder.Outcome.{Outcome, build_graph_outcome}

abbrev catch_all : Criterion
catch_all = record {
  id = none;
  env_type = none;
  app_id = none;
  env_id = none;
  res_id = none;
  class = none;
}

abbrev definition_for : Str → ResourceDefinition Value
definition_for ty = record {
  id = ty;
  name = ty;
  ty = ty;
  driver_type = bytes "template";
  driver_account = none;
  driver_inputs = record {
    values = object Fields.no_fields;
    secrets = object Fields.no_fields;
    secret_refs = object Fields.no_fields;
  };
  provision = [];
  criteria = catch_all ∷ [];
}

abbrev all_types : List Str
all_types = bytes "base-env" ∷ bytes "workload" ∷ bytes "dns" ∷ []

abbrev input : GraphInput
input = record {
  org = bytes "acme";
  app = bytes "shop";
  env = bytes "dev";
  env_type = bytes "development";
  set = record {
    modules =
        (
          bytes "web",
          record {
            class = default_class;
            spec = [];
            externals =
                (
                  bytes "name",
                  record { ty = bytes "dns"; class = default_class; id = none; params = none },
                )
                ∷ [];
          },
        )
        ∷ [];
    shared = [];
  };
  definitions =
      definition_for (bytes "base-env")
      ∷ definition_for (bytes "workload")
      ∷ definition_for (bytes "dns")
      ∷ [];
  types =
      record { id = bytes "base-env"; use_ = indirect }
      ∷ record { id = bytes "workload"; use_ = indirect }
      ∷ record { id = bytes "dns"; use_ = direct }
      ∷ [];
  classes = record { classes = [] };
}

input-IsValid : InputIsValid input
unfolding is_valid_object_id windows_ok alnum is_resource_type is_type_name
input-IsValid = record { modules = ((refl, refl, ((refl, refl), tt)), tt); shared = tt }

build_graph_outcome_example : Outcome numbers input (build_graph numbers input)
build_graph_outcome_example = build_graph_outcome numbers input input-IsValid

abbrev named : Str → Descriptor
named id = record { ty = bytes "dns"; class = default_class; id = id }

abbrev node_for : Str → List Descriptor → Node
node_for id deps = record {
  descriptor = named id;
  definition = bytes "dns";
  driver_type = bytes "template";
  params = none;
  requests = [];
  depends_on = deps;
}

abbrev a : Descriptor
a = named (bytes "aa")

abbrev b : Descriptor
b = named (bytes "bb")

abbrev c : Descriptor
c = named (bytes "cc")

-- `aa` waits for `bb`, with which `cc` is provisioned.
abbrev waiting : Builder
waiting = record {
  nodes =
      (a, node_for (bytes "aa") (b ∷ []))
      ∷ (b, node_for (bytes "bb") [])
      ∷ (c, node_for (bytes "cc") [])
      ∷ [];
  explicit = [];
  queue = [];
  co = record { source = b; co = c; match_dependents = true } ∷ [];
}

match_dependents-waiting :
    match_dependents waiting
    ≡ some (record waiting {
      nodes =
          (a, node_for (bytes "aa") (b ∷ c ∷ []))
          ∷ (b, node_for (bytes "bb") [])
          ∷ (c, node_for (bytes "cc") [])
          ∷ [];
    })
unfolding match_dependents get insert set_insert
match_dependents-waiting = refl

-- The workload is behind its external resource.
abbrev layers_in : Build ResourceGraph → List (List Str)
layers_in (some (ok g)) = map (map descriptor_to_string) g.layers
layers_in _ = []

build_graph-input :
    layers_in (build_graph numbers input)
    ≡ (bytes "base-env.default#base-env" ∷ bytes "dns.default#modules.web.externals.name" ∷ [])
      ∷ (bytes "workload.default#modules.web" ∷ [])
      ∷ []
unfolding build_graph descriptor_to_string request has_class get select_definition definition_weight
    criterion_weight insert res_id_private res_id_workload collect_placeholders set_insert remove
    set_remove
build_graph-input = refl

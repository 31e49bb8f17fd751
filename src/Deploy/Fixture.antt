-- ===== src/Deploy/Fixture.antt =====
-- A shop with one environment, a permit for the deletion of its cache, and a request to deploy: the data
-- of the examples.
use openporch.Prelude.{Str, bytes, ◌+◌, true, none, some, [], ◌∷◌}
use openporch.Prelude.Order.{◌==◌, str_ord}
use openporch.Prelude.Result.{ok}
use openporch.Identity.Roles.{administrator}
use openporch.Store.Audit.{AuditEntry, AuditIntent, accepted_intent, insert_entry, entry_of}
use openporch.Store.World.{World}
use openporch.Store.Rows.{Db, EnvRow, PermitRow}
use openporch.Permits.Types.{PermitBinding}
use openporch.Deploy.Types.{DeploymentRequest, deploy, Json}

abbrev pub text_json : Json Str
text_json = record { to_string = λ s. s; from_str = λ s. ok s; value_eq = λ a b. a == b }

abbrev pub world : World
world = record { clock = λ n. 1000 + n; hex = λ n. n ∷ [] }

abbrev pub later : World
later = record { clock = λ n. 2000 + n; hex = λ n. 7 ∷ n ∷ [] }

abbrev pub cache : Str
cache = bytes "redis"

abbrev pub prm : Str
prm = bytes "prm-1"

abbrev pub dev_env : EnvRow
dev_env = record {
  app_id = bytes "shop";
  id = bytes "dev";
  name = bytes "Dev";
  env_type = bytes "test";
  generation = 3;
  desired_set_id = none;
  last_successful_set_id = none;
  last_successful_deploy_id = none;
  state = bytes "active";
}

abbrev pub permit : PermitRow
permit = record {
  app_id = bytes "shop";
  env_id = bytes "dev";
  plan_id = bytes "pln-1";
  descriptor = cache;
  guresid = none;
  action = bytes "delete";
  plan_fingerprint = none;
  base_generation = 3;
  config_digest = bytes "d1";
  issuer_id = bytes "ada";
  created_at = 900;
  expires_at = 3600900;
  bound_to = none;
  bound_at = none;
  used_at = none;
  issued_entry = none;
}

abbrev pub shop_db : Db
shop_db = record {
  org = bytes "acme";
  identity = record {
    principals = (bytes "ada", administrator) ∷ [];
    app_roles = [];
    env_type_roles = [];
  };
  apps = record { id = bytes "shop"; state = bytes "active" } ∷ [];
  envs = dev_env ∷ [];
  env_types = record { id = bytes "test"; protected = true } ∷ [];
  sets = record { app_id = bytes "shop"; id = bytes "s1" } ∷ [];
  deltas = [];
  deployments = [];
  active_resources = [];
  plans = [];
  permits = (prm, permit) ∷ [];
  audit_log = [];
}

abbrev pub binding : PermitBinding
binding = record {
  presented = prm ∷ [];
  digests = (cache, bytes "d1") ∷ [];
  required = (cache, bytes "delete") ∷ [];
}

abbrev pub request : DeploymentRequest Str
request = record {
  org = bytes "acme";
  app = bytes "shop";
  env = bytes "dev";
  actor = bytes "ada";
  expected_generation = 3;
  idempotency_key = some (bytes "k1");
  fingerprint = bytes "f1";
  kind = deploy;
  set_id = some (bytes "s1");
  delta_id = none;
  delta_content = none;
  comment = [];
  snapshot = bytes "{}";
  audit = record {
    org = bytes "acme";
    actor = some (bytes "ada");
    request_id = none;
    method = bytes "POST";
    path = bytes "/deploys";
    action = bytes "deployment.create";
    target = none;
    outcome = openporch.Store.Audit.AuditOutcome.accepted;
    status_code = none;
    reason = none;
  };
  permits = binding;
}

abbrev pub deployment : Str
deployment = bytes "dpl-1"

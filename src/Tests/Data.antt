-- ===== src/Tests/Data.antt =====
-- A server with three replicas, its pods, and an environment in which recovery listeners are off.
use wildfly_operator.Prelude.{
  ℕ, true, false, Option, none, some, List, [], ◌∷◌, String, str_eq, if◌then◌else◌, ◌==◌, length,
}
use wildfly_operator.Prelude.Int.{pos}
use wildfly_operator.Json.{text, Fields, nil, field}
use wildfly_operator.Kube.{not_found, Pod, running, Service}
use wildfly_operator.Api.{
  PodState, active, recovery_investigation, scaling_down_clean, PodStatus, WildFlyServer,
  WildFlyServerSpec,
}
use wildfly_operator.World.{Env, ok, err}
use wildfly_operator.Mgmt.{server_state_read}

abbrev pub spec0 : WildFlyServerSpec
spec0 = record {
  application_image = "quay.io/app:latest";
  bootable_jar = false;
  replicas = pos 1;
  session_affinity = false;
  disable_http_route = false;
  deactivate_transaction_recovery = false;
  standalone_config_map = none;
  storage = none;
  service_account_name = "";
  env_from = [];
  env = [];
  secrets = "my.secret" ∷ [];
  config_maps = "cm" ∷ [];
  resources = none;
  security_context = none;
  liveness_probe = none;
  readiness_probe = none;
  startup_probe = none;
}

abbrev pub pod_named : String → Pod
pod_named name = record {
  name = name;
  labels = [];
  annotations = ("recovery-properties-setup", "true") ∷ [];
  pod_ip = "10.0.0.1";
  phase = running;
}

abbrev pub status_named : String → PodState → PodStatus
status_named name state = record {
  name = name;
  pod_ip = "10.0.0.1";
  state = state;
  recovery_counter = pos 0;
}

abbrev pub three_pods : List Pod
three_pods = pod_named "a-0" ∷ pod_named "a-1" ∷ pod_named "a-2" ∷ []

-- The last pod is clean.
abbrev pub three_statuses : List PodStatus
three_statuses =
    status_named "a-0" active
    ∷ status_named "a-1" recovery_investigation
    ∷ status_named "a-2" scaling_down_clean
    ∷ []

abbrev pub server0 : WildFlyServer
server0 = record {
  name = "a";
  namespace = "ns";
  labels = [];
  generation = pos 7;
  spec = spec0;
  status = record {
    replicas = pos 3;
    pods = three_statuses;
    hosts = none;
    scalingdown_pods = pos 2;
    selector = "";
  };
}

-- The body of a successful operation with a result.
abbrev pub body_with : String → Fields
body_with result = field "outcome" (text "success") (field "result" (text result) nil)

abbrev pub last_of : List String → String
last_of [] = ""
last_of (s ∷ []) = s
last_of (s ∷ t ∷ rest) = last_of (t ∷ rest)

abbrev output_of : List String → String
output_of command = if str_eq (last_of command) server_state_read then "{r}" else "{}"

-- A text of three characters is the state, and any other the listener's switch.
abbrev body_of : List ℕ → Option Fields
body_of s = if length s == 3 then some (body_with "running") else some (body_with "false")

abbrev pub service0 : Service
service0 = record {
  name = "a-loadbalancer";
  namespace = "ns";
  labels = [];
  annotations = ("wildfly.org/wildfly-server-generation", "7") ∷ [];
  spec = record { selector = []; cluster_ip = "10.1.1.1"; session_affinity = "None"; ports = [] };
}

abbrev pub old_service : Service
old_service = record service0 { annotations = ("wildfly.org/wildfly-server-generation", "6") ∷ [] }

abbrev pub env_with : Service → Env
env_with s = record {
  get_server = λ h n. ok server0;
  get_stateful_set = λ h n. err not_found;
  get_service = λ h n. ok s;
  get_route = λ h n. err not_found;
  get_service_monitor = λ h n. err not_found;
  list_pods = λ h namespace labels. ok three_pods;
  set_owner = λ h o. none;
  create = λ h o. none;
  update = λ h o. none;
  patch = λ h o. none;
  delete = λ h o. none;
  update_status = λ h w. none;
  patch_status = λ h w. none;
  execute = λ h p command. (output_of command, none);
  socket_connect = λ h host port command. none;
  log_latest_timestamp = λ h p. ok 0;
  log_contains = λ h p since. ok "";
  has_rest_config = true;
  has_discovery_client = true;
  server_resources = λ version. ok [];
  decode_json = body_of;
  sprint = λ v. "";
  selector_text = λ m. "";
  getenv = λ k. none;
}

abbrev pub env0 : Env
env0 = env_with service0

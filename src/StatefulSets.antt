-- ===== src/StatefulSets.antt =====
-- pkg/resources/statefulsets/statefulset.go: the StatefulSet that a server asks for.
pub mod Probes
pub mod Volumes
pub mod EnvVars
pub mod Total
use Prim.Native.String.{◌++◌ as append}
use wildfly_operator.Prelude.{
  ℕ, Bool, true, false, Option, none, some, List, [], ◌∷◌, ◌++◌, String, StringMap, str_eq, insert,
  codes, if◌then◌else◌,
}
use wildfly_operator.Prelude.Int.{ℤ, pos}
use wildfly_operator.Json.{Value, null, text, Fields, nil, field}
use wildfly_operator.Kube.{
  ResourceRequirements, EnvVar, Container, PodTemplate, StatefulSet, ApiError, not_found,
}
use wildfly_operator.Api.{WildFlyServer}
use wildfly_operator.World.{
  M, Env, Result, ok, err, stateful_set, got_stateful_set, ◌>>=◌, pure, request, environment,
}
use wildfly_operator.Util.Maps.{copy_map, insert_all}
use wildfly_operator.Resources
use wildfly_operator.Resources.Markers.{
  http_application_port, http_management_port, marker_service_active,
  marker_operated_by_loadbalancer, marker_operated_by_headless, marker_image_type,
  image_type_generic, image_type_bootable, template_labels_env_var, env_or_empty,
}
use wildfly_operator.Services.Names.{headless_service_name}
use Probes.{create_liveness_probe, create_readiness_probe, create_startup_probe}
use Volumes.{container_resources, volumes, volume_mounts, claim_templates}
use EnvVars.{env_for_clustering, env_for_ejb_recovery, env_args_for_bootable_jar}

-- encoding/json into a map of texts: any other value fails, but null gives the empty text.
unfoldable pub text_map : Fields → Option StringMap
text_map nil = some []
text_map (field k (text s) m) = elim (text_map m) [ none ↦ none | some r ↦ some ((k, s) ∷ r) ]
text_map (field k null m) = elim (text_map m) [ none ↦ none | some r ↦ some ((k, "") ∷ r) ]
text_map (field k _ m) = none

abbrev or_no_labels : Option StringMap → StringMap
or_no_labels none = []
or_no_labels (some m) = m

abbrev text_map_of : Option Fields → StringMap
text_map_of none = []
text_map_of (some m) = or_no_labels (text_map m)

-- applyLabels: a text that is not set, or that cannot be decoded, adds nothing.
unfoldable pub apply_labels : Env → String → StringMap → StringMap
apply_labels env variable labels =
    let raw = env_or_empty (env.getenv variable) in
    if str_eq raw "" then labels else insert_all labels (text_map_of (env.decode_json (codes raw)))

-- labelsForActiveWildflyPod
unfoldable pub active_pod_labels : Env → StringMap → StringMap
unfolding apply_labels
active_pod_labels env labels = apply_labels env template_labels_env_var (
    insert marker_operated_by_loadbalancer marker_service_active
      (insert marker_operated_by_headless marker_service_active (copy_map labels)))

abbrev image_type : WildFlyServer → String
image_type w = if w.spec.bootable_jar then image_type_bootable else image_type_generic

abbrev pod_annotations : WildFlyServer → Bool → StringMap
pod_annotations w openshift =
    let typed = (marker_image_type, image_type w) ∷ [] in
    if openshift then insert "alpha.image.policy.openshift.io/resolve-names" "*" typed else typed

abbrev bootable_env : Env → WildFlyServer → List EnvVar
bootable_env env w = if w.spec.bootable_jar then env_args_for_bootable_jar env else []

unfoldable pub new_container : Env → WildFlyServer → StringMap → Container
new_container env w labels = record {
  name = w.name;
  image = w.spec.application_image;
  ports = ("http", http_application_port) ∷ ("admin", http_management_port) ∷ [];
  liveness_probe = some (create_liveness_probe env w);
  readiness_probe = some (create_readiness_probe env w);
  startup_probe = some (create_startup_probe env w);
  resources = container_resources w.spec.resources;
  security_context = w.spec.security_context;
  env_from = w.spec.env_from;
  env =
      w.spec.env
      ++ (env_for_clustering (env.selector_text labels)
          ++ (env_for_ejb_recovery w ++ bootable_env env w));
  volume_mounts = volume_mounts env w;
}

abbrev image_trigger : WildFlyServer → String
image_trigger w = append "[{ \"from\": { \"kind\":\"ImageStreamTag\", \"name\":\"" (
    append w.spec.application_image (
      append "\"}, \"fieldPath\": \"spec.template.spec.containers[?(@.name==\\\""
        (append w.name "\\\")].image\"}]")))

unfoldable pub new_stateful_set : Env → WildFlyServer → StringMap → ℤ → Bool → StatefulSet
unfolding new_container active_pod_labels
new_stateful_set env w labels size openshift = record {
  name = w.name;
  namespace = w.namespace;
  labels = labels;
  annotations = ("image.openshift.io/triggers", image_trigger w) ∷ [];
  replicas = some size;
  service_name = headless_service_name w;
  selector = labels;
  template = some (record {
    labels = active_pod_labels env labels;
    annotations = pod_annotations w openshift;
    container = new_container env w labels;
    volumes = volumes w;
    service_account_name = w.spec.service_account_name;
  });
  volume_claim_templates = claim_templates w;
  status_replicas = pos 0;
}

-- `&appsv1.StatefulSet{}`, the object that Get fills.
abbrev pub no_stateful_set : StatefulSet
no_stateful_set = record {
  name = "";
  namespace = "";
  labels = [];
  annotations = [];
  replicas = none;
  service_name = "";
  selector = [];
  template = none;
  volume_claim_templates = [];
  status_replicas = pos 0;
}

abbrev created_set : Option ApiError → Result ApiError (Option StatefulSet)
created_set (some e) = err e
created_set none = ok none

-- An error of Get other than "not found" is passed over, and the empty object is the answer.
after_get :
    WildFlyServer
    → StringMap
    → ℤ
    → Bool
    → Env
    → Result ApiError StatefulSet
    → M (Result ApiError (Option StatefulSet))
after_get w labels size openshift env (ok s) = pure (ok (some s))
after_get w labels size openshift env (err not_found) = do
  e ← Resources.create w (stateful_set (new_stateful_set env w labels size openshift))
  pure (created_set e)
after_get w labels size openshift env (err _) = pure (ok (some no_stateful_set))

-- `ok none` is the answer (nil, nil).
unfoldable pub get_or_create :
    WildFlyServer → StringMap → ℤ → Bool → M (Result ApiError (Option StatefulSet))
unfolding after_get
get_or_create w labels size openshift = do
  env ← environment
  r ← Resources.get (λ env' h. env'.get_stateful_set h w.name) (got_stateful_set w.name)
  after_get w labels size openshift env r

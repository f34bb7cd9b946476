-- ===== src/Api.antt =====
-- The custom resource: api/v1alpha1/wildflyserver_types.go.
use wildfly_operator.Prelude.{String, Bool, true, false, Option, List, StringMap}
use wildfly_operator.Prelude.Int.{ℤ}
use wildfly_operator.Kube.{
  Opaque, ResourceRequirements, EnvVar, HttpGetAction, PersistentVolumeClaim,
}

-- An ExecAction is its command.
pub record ProbeHandler : Type 0 where
  pub exec : Option (List String)
  pub http_get : Option HttpGetAction

pub record ProbeSpec : Type 0 where
  pub handler : ProbeHandler
  pub initial_delay_seconds : Option ℤ
  pub timeout_seconds : ℤ
  pub period_seconds : ℤ
  pub success_threshold : ℤ
  pub failure_threshold : ℤ

pub record StandaloneConfigMapSpec : Type 0 where
  pub name : String
  pub key : String

pub record StorageSpec : Type 0 where
  pub empty_dir : Option Opaque
  pub volume_claim_template : PersistentVolumeClaim

pub record WildFlyServerSpec : Type 0 where
  pub application_image : String
  pub bootable_jar : Bool
  pub replicas : ℤ
  pub session_affinity : Bool
  pub disable_http_route : Bool
  pub deactivate_transaction_recovery : Bool
  pub standalone_config_map : Option StandaloneConfigMapSpec
  pub storage : Option StorageSpec
  pub service_account_name : String
  pub env_from : List Opaque
  pub env : List EnvVar
  pub secrets : List String
  pub config_maps : List String
  pub resources : Option ResourceRequirements
  pub security_context : Option Opaque
  pub liveness_probe : Option ProbeSpec
  pub readiness_probe : Option ProbeSpec
  pub startup_probe : Option ProbeSpec

-- The five values that the API server's validation of PodStatus.State lets through.
pub data PodState : Type 0 where
  active recovery_investigation recovery_processing recovery_heuristic scaling_down_clean : PodState

abbrev pub is_active : PodState → Bool
is_active active = true
is_active _ = false

abbrev pub is_clean : PodState → Bool
is_clean scaling_down_clean = true
is_clean _ = false

pub record PodStatus : Type 0 where
  pub name : String
  pub pod_ip : String
  pub state : PodState
  pub recovery_counter : ℤ

pub record WildFlyServerStatus : Type 0 where
  pub replicas : ℤ
  pub pods : List PodStatus
  pub hosts : Option (List String)
  pub scalingdown_pods : ℤ
  pub selector : String

-- The metadata that the operator reads, the spec and the status. Only for the hosts does a nil slice
-- differ from an empty one in what the operator does; the other lists are nil where they are empty.
pub record WildFlyServer : Type 0 where
  pub name : String
  pub namespace : String
  pub labels : StringMap
  pub generation : ℤ
  pub spec : WildFlyServerSpec
  pub status : WildFlyServerStatus

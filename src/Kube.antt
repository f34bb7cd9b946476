-- ===== src/Kube.antt =====
-- The fields of the Kubernetes and OpenShift objects that the operator reads and writes. The types
-- are those of the vendored client libraries; no operation of them is modelled here.
use wildfly_operator.Prelude.{String, Bool, Option, List, StringMap}
use wildfly_operator.Prelude.Int.{ℤ}

-- A part of an object that the operator passes on unread, such as a security context.
abbrev pub Opaque : Type 0
Opaque = String

pub record ResourceRequirements : Type 0 where
  pub limits : Option StringMap
  pub requests : Option StringMap

pub data EnvSource : Type 0 where
  value : String → EnvSource
  field_ref : String → String → EnvSource

pub record EnvVar : Type 0 where
  pub name : String
  pub source : EnvSource

pub record HttpGetAction : Type 0 where
  pub path : String
  pub port : String
  pub host : String
  pub scheme : String
  pub http_headers : StringMap

pub record ProbeAction : Type 0 where
  pub exec : Option (List String)
  pub http_get : Option HttpGetAction

pub record Probe : Type 0 where
  pub action : ProbeAction
  pub initial_delay_seconds : ℤ
  pub timeout_seconds : ℤ
  pub period_seconds : ℤ
  pub success_threshold : ℤ
  pub failure_threshold : ℤ

pub data VolumeSource : Type 0 where
  empty_dir : Opaque → VolumeSource
  config_map : String → List (String × String) → VolumeSource
  secret : String → VolumeSource

pub record Volume : Type 0 where
  pub name : String
  pub source : VolumeSource

pub record VolumeMount : Type 0 where
  pub name : String
  pub read_only : Bool
  pub mount_path : String
  pub sub_path : String

pub record PersistentVolumeClaim : Type 0 where
  pub name : String
  pub access_modes : List String
  pub resources : ResourceRequirements
  pub selector : Opaque

pub record Container : Type 0 where
  pub name : String
  pub image : String
  pub ports : List (String × ℤ)
  pub liveness_probe : Option Probe
  pub readiness_probe : Option Probe
  pub startup_probe : Option Probe
  pub resources : ResourceRequirements
  pub security_context : Option Opaque
  pub env_from : List Opaque
  pub env : List EnvVar
  pub volume_mounts : List VolumeMount

pub record PodTemplate : Type 0 where
  pub labels : StringMap
  pub annotations : StringMap
  pub container : Container
  pub volumes : List Volume
  pub service_account_name : String

pub data PodPhase : Type 0 where
  pending running succeeded failed unknown : PodPhase

pub record Pod : Type 0 where
  pub name : String
  pub labels : StringMap
  pub annotations : StringMap
  pub pod_ip : String
  pub phase : PodPhase

-- `replicas` is a pointer in the client library; `none` is the nil pointer.
pub record StatefulSet : Type 0 where
  pub name : String
  pub namespace : String
  pub labels : StringMap
  pub annotations : StringMap
  pub replicas : Option ℤ
  pub service_name : String
  pub selector : StringMap
  pub template : Option PodTemplate
  pub volume_claim_templates : List PersistentVolumeClaim
  pub status_replicas : ℤ

pub record ServiceSpec : Type 0 where
  pub selector : StringMap
  pub cluster_ip : String
  pub session_affinity : String
  pub ports : List (String × ℤ)

pub record Service : Type 0 where
  pub name : String
  pub namespace : String
  pub labels : StringMap
  pub annotations : StringMap
  pub spec : ServiceSpec

pub record Route : Type 0 where
  pub name : String
  pub namespace : String
  pub labels : StringMap
  pub annotations : StringMap
  pub service : String
  pub weight : ℤ
  pub target_port : String
  pub ingress_hosts : List String

pub record ServiceMonitor : Type 0 where
  pub name : String
  pub namespace : String
  pub labels : StringMap
  pub annotations : StringMap
  pub port : String
  pub selector : StringMap

-- The answers of the API server that the operator tells apart.
pub data ApiError : Type 0 where
  not_found already_exists invalid other : ApiError

-- ===== src/World.antt =====
-- Everything outside the operator. An environment answers each request by the history of the
-- requests before it, so any cluster, application server or clock is one; an action of the operator
-- is a function of the environment and of the history, which holds each request with its answer.
pub mod Rules
pub mod Within
pub mod Emits
pub mod Quiet
use wildfly_operator.Prelude.{ℕ, String, Bool, Option, List, ◌∷◌, StringMap}
use wildfly_operator.Prelude.Int.{ℤ}
use wildfly_operator.Kube.{ApiError, Pod, StatefulSet, Service, Route, ServiceMonitor}
use wildfly_operator.Api.{WildFlyServer}
use wildfly_operator.Json.{Fields, Value}

-- A Go pair (value, error) of which one part is meaningful.
pub data Result {ℓ} (E A : Type ℓ) : Type ℓ where
  ok : A → Result E A
  err : E → Result E A

pub data Object : Type 0 where
  stateful_set : StatefulSet → Object
  service : Service → Object
  route : Route → Object
  service_monitor : ServiceMonitor → Object
  pod : Pod → Object

-- The errors of RemoteOperationsInterface, which are only passed on and printed.
pub data RemoteError : Type 0 where
  failed : RemoteError

pub data Event : Type 0 where
  got_server : String → Result ApiError WildFlyServer → Event
  got_stateful_set : String → Result ApiError StatefulSet → Event
  got_service : String → Result ApiError Service → Event
  got_route : String → Result ApiError Route → Event
  got_service_monitor : String → Result ApiError ServiceMonitor → Event
  listed_pods : String → StringMap → Result ApiError (List Pod) → Event
  owner_set : Object → Option ApiError → Event
  created : Object → Option ApiError → Event
  updated : Object → Option ApiError → Event
  patched : Object → Option ApiError → Event
  deleted : Object → Option ApiError → Event
  status_updated : WildFlyServer → Option ApiError → Event
  status_patched : WildFlyServer → Option ApiError → Event
  executed : String → List String → String → Option RemoteError → Event
  connected : String → ℤ → String → Option RemoteError → Event
  log_time_read : String → Result RemoteError ℕ → Event
  log_searched : String → ℕ → Result RemoteError String → Event
  recorded : String → Event

abbrev pub History : Type 0
History = List Event

-- `execute` gives the output and the error side by side, as `Execute` does. `decode_json` is the
-- decoder of encoding/json at a text given by its code points; `sprint` is fmt.Sprint
-- at a value that is no text, `selector_text` the text of a
-- label selector of the Kubernetes library, and `getenv` is os.LookupEnv. `server_resources` lists the
-- kinds of a group's version, which the discovery client asks for.
pub record Env : Type 0 where
  pub get_server : History → String → Result ApiError WildFlyServer
  pub get_stateful_set : History → String → Result ApiError StatefulSet
  pub get_service : History → String → Result ApiError Service
  pub get_route : History → String → Result ApiError Route
  pub get_service_monitor : History → String → Result ApiError ServiceMonitor
  pub list_pods : History → String → StringMap → Result ApiError (List Pod)
  pub set_owner : History → Object → Option ApiError
  pub create : History → Object → Option ApiError
  pub update : History → Object → Option ApiError
  pub patch : History → Object → Option ApiError
  pub delete : History → Object → Option ApiError
  pub update_status : History → WildFlyServer → Option ApiError
  pub patch_status : History → WildFlyServer → Option ApiError
  pub execute : History → String → List String → String × Option RemoteError
  pub socket_connect : History → String → ℤ → String → Option RemoteError
  pub log_latest_timestamp : History → String → Result RemoteError ℕ
  pub log_contains : History → String → ℕ → Result RemoteError String
  pub has_rest_config : Bool
  pub has_discovery_client : Bool
  pub server_resources : String → Result ApiError (List String)
  pub decode_json : List ℕ → Option Fields
  pub sprint : Value → String
  pub selector_text : StringMap → String
  pub getenv : String → Option String

-- `panic` is a Go panic: a nil pointer that is read, an index or a map that is not there.
pub data Outcome (A : Type 0) : Type 0 where
  done : A → Outcome A
  panic : Outcome A

abbrev pub M : Type 0 → Type 0
M A = Env → History → Outcome A × History

abbrev pub continue : {A B : Type 0} → Outcome A → (A → M B) → M B
continue (done a) f env h = f a env h
continue panic f env h = (panic, h)

infixl 5 ◌>>=◌ ◌>>◌
abbrev pub ◌>>=◌ : {A B : Type 0} → M A → (A → M B) → M B
◌>>=◌ m f env h = let (r, h') = m env h in continue r f env h'

abbrev pub ◌>>◌ : {A B : Type 0} → M A → M B → M B
m >> k = m >>= λ _. k

abbrev pub pure : {A : Type 0} → A → M A
pure a env h = (done a, h)

abbrev pub crash : {A : Type 0} → M A
crash env h = (panic, h)

-- A request: the environment answers it by the history, which then holds it.
abbrev pub request : {A : Type 0} → (Env → History → A) → (A → Event) → M A
request f e env h = let a = f env h in (done a, e a ∷ h)

abbrev pub environment : M Env
environment env h = (done env, h)

-- r.Recorder.Event
abbrev pub record_event : String → M (Unit {0})
record_event reason env h = (done tt, recorded reason ∷ h)

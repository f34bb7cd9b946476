-- ===== src/Remote.antt =====
-- pkg/util/remote_ops.go: the operations of RemoteOperationsStruct, over what the Kubernetes client,
-- the network and the clock's parser answer. An operation leaves the calls that it made.
pub mod Exec
pub mod Socket
pub mod Replied
pub mod Lines
pub mod Patterns
pub mod Logs
pub mod Over
use wildfly_operator.Prelude.{ℕ, String, Bool, Option, none, some, List, ◌∷◌, StringMap}
use wildfly_operator.Prelude.Int.{ℤ}
use wildfly_operator.Kube.{Opaque}
use wildfly_operator.World.{Result, ok, err}

-- The fields of a pod that the remote operations read.
pub record RemotePod : Type 0 where
  pub name : String
  pub namespace : String
  pub containers : List String

-- PodLogOptions
pub record LogOptions : Type 0 where
  pub tail_lines : Option ℤ
  pub timestamps : Bool
  pub since_time : Option ℕ

-- The request to the subresource "exec" of a pod, with both outputs and no input.
pub record ExecRequest : Type 0 where
  pub namespace : String
  pub pod : String
  pub container : String
  pub command : List String

pub record ExecOutput : Type 0 where
  pub stdout : String
  pub stderr : String
  pub error : Option Opaque

-- A reader: what it gives, and the error that it ends in, where `none` is the end of the file.
pub record Stream : Type 0 where
  pub content : String
  pub failure : Option Opaque

-- The two layouts of time.Parse that are tried.
pub data Layout : Type 0 where
  rfc3339 rfc3339_nano : Layout

-- The libraries' part. `print_format` is fmt.Fprintf at a format and no operands, and a reply is what
-- a connection gives after a text was sent.
pub record Backend : Type 0 where
  pub client_config : Result Opaque Opaque
  pub new_for_config : Opaque → Result Opaque Opaque
  pub new_executor : Opaque → ExecRequest → Option Opaque
  pub stream : ExecRequest → ExecOutput
  pub open_log : Opaque → String → String → LogOptions → Result Opaque Stream
  pub dial : String → ℤ → Option Opaque
  pub reply : String → String → Stream
  pub print_format : String → String
  pub parse_time : Layout → String → Result Opaque ℕ
  pub lookup_env : String → Option String

pub data ScanError : Type 0 where
  token_too_long : ScanError
  read_error : Opaque → ScanError

-- The errors of this file by the message that each has.
pub data Failure : Type 0 where
  no_config no_client no_executor execution_error stream_refused : Opaque → Failure
  not_connected no_response log_not_buffered : Opaque → Failure
  no_containers : Failure
  got_stderr no_timestamp : String → Failure
  bad_timestamp : String → Opaque → Failure
  log_not_read : Failure → Failure
  log_not_finished : ScanError → Failure

pub data Call : Type 0 where
  started : ExecRequest → Call
  opened_log : String → LogOptions → Call
  closed_log : Call
  dialed : String → ℤ → Call
  set_deadline : ℤ → Call
  sent : String → Call

-- A Go function that returns a value or an error.
abbrev pub Remote : Type 0 → Type 0
Remote A = Backend → List Call → Result Failure A × List Call

abbrev pub and_then : {A B : Type 0} → Result Failure A → (A → Remote B) → Remote B
and_then (ok a) f b calls = f a b calls
and_then (err e) f b calls = (err e, calls)

infixl 5 ◌>>=◌ ◌>>◌
abbrev pub ◌>>=◌ : {A B : Type 0} → Remote A → (A → Remote B) → Remote B
◌>>=◌ m f b calls = let (r, calls') = m b calls in and_then r f b calls'

abbrev pub ◌>>◌ : {A B : Type 0} → Remote A → Remote B → Remote B
m >> k = m >>= λ _. k

abbrev pub ask : {A : Type 0} → (Backend → Result Failure A) → Remote A
ask f b calls = (f b, calls)

abbrev pub call : Call → Remote (Unit {0})
call c b calls = (ok tt, c ∷ calls)

abbrev pub answer_of : {A : Type 0} → Result Failure A → Remote A
answer_of r b calls = (r, calls)

-- fmt.Errorf around an error.
abbrev pub wrap : {E A : Type 0} → (E → Failure) → Result E A → Result Failure A
wrap f (ok a) = ok a
wrap f (err e) = err (f e)

abbrev pub wrapping : {A : Type 0} → (Failure → Failure) → Remote A → Remote A
wrapping f m b calls = let (r, calls') = m b calls in (wrap f r, calls')

unfoldable pub get_kube_rest_config : Remote Opaque
get_kube_rest_config = ask (λ b. wrap no_config b.client_config)

unfoldable pub get_kube_core_client : Opaque → Remote Opaque
get_kube_core_client config = ask (λ b. wrap no_client (b.new_for_config config))

-- ===== src/Remote/Over.antt =====
-- The recovery of controllers/transaction_recovery.go over RemoteOperationsStruct of
-- pkg/util/remote_ops.go, which implements RemoteOperationsInterface.
pub mod Clean
pub mod Recovered
use wildfly_operator.Prelude.{
  ℕ, ◌≡◌, refl, sym, ◌∙◌, inl, inr, false, true, Bool, Option, none, some, List, [], ◌∷◌, String,
  codes, All, All-weaken, true_is_false, arith,
}
use wildfly_operator.Prelude.Int.{ℤ}
use wildfly_operator.Kube.{Pod}
use wildfly_operator.Api.{WildFlyServer}
use wildfly_operator.World
use wildfly_operator.World.{
  Env, Event, History, Outcome, done, panic, Result, ok, err, RemoteError, failed, executed,
  log_searched, connected,
}
use wildfly_operator.World.Rules.{Ends, Extends, IsHonest, IsHonest-Extends, IsHonest-Answered}
use wildfly_operator.Remote.{
  RemotePod, Stream, Backend, Failure, Call, and_then, wrap, log_not_read,
}
use wildfly_operator.Remote.Lines.{split_lines, drop_cr, is_too_long, read_string}
use wildfly_operator.Remote.Patterns.{is_recovery_error}
use wildfly_operator.Remote.Patterns.Meaning.{Holds, is_recovery_error_iff}
use wildfly_operator.Remote.Exec
use wildfly_operator.Remote.Socket
use wildfly_operator.Remote.Logs.{
  read_pod_log, search_log, time_limiting_pod_log_options, verify_log_contains_regexp,
  obtain_log_latest_timestamp,
}
use wildfly_operator.Remote.Logs.Search.{Passes, FirstMatch, search_log_iff}

abbrev pub plain : {A : Type 0} → Result Failure A → Result RemoteError A
plain (ok a) = ok a
plain (err e) = err failed

abbrev error_of : Option Failure → Option RemoteError
error_of none = none
error_of (some e) = some failed

abbrev failure_of : Result Failure String → Option RemoteError
failure_of (ok message) = none
failure_of (err e) = some failed

abbrev plain_output : String × Option Failure → String × Option RemoteError
plain_output (out, e) = (out, error_of e)

-- The environment with the fields of RemoteOperationsInterface as RemoteOperationsStruct answers them,
-- given the libraries' answers by the history and the pods by their names.
unfoldable pub over : (History → Backend) → (String → RemotePod) → Env → Env
over backend pods env = record env {
  execute = λ h name command. plain_output (Exec.execute (pods name) command (backend h) []).0;
  socket_connect =
      λ h host port command. failure_of (Socket.socket_connect host port command (backend h) []).0;
  log_latest_timestamp = λ h name. plain (obtain_log_latest_timestamp (pods name) (backend h) []).0;
  log_contains = λ h name since.
      plain
        (verify_log_contains_regexp (pods name) (some since) is_recovery_error (backend h) []).0;
}

-- ===== src/Remote/Exec.antt =====
-- Execute of pkg/util/remote_ops.go.
pub mod Success
use wildfly_operator.Prelude.{String, Option, none, some, List, [], ◌∷◌, str_eq, if◌then◌else◌}
use wildfly_operator.Kube.{Opaque}
use wildfly_operator.World.{Result, ok, err}
use wildfly_operator.Remote.{
  RemotePod, ExecRequest, ExecOutput, Backend, Failure, no_containers, no_executor, execution_error,
  got_stderr, Call, started, Remote, ◌>>=◌, ask, answer_of, get_kube_rest_config,
  get_kube_core_client,
}

abbrev pub first_container : List String → Result Failure String
first_container [] = err no_containers
first_container (c ∷ cs) = ok c

abbrev accepted : ExecRequest → Option Opaque → Result Failure ExecRequest
accepted r none = ok r
accepted r (some e) = err (no_executor e)

abbrev pub exec_request : RemotePod → String → List String → ExecRequest
exec_request p container command = record {
  namespace = p.namespace;
  pod = p.name;
  container = container;
  command = command;
}

-- All that comes before the stream of the command.
unfoldable pub prepare : RemotePod → List String → Remote ExecRequest
unfolding get_kube_rest_config get_kube_core_client
prepare p command = do
  config ← get_kube_rest_config
  client ← get_kube_core_client config
  container ← answer_of (first_container p.containers)
  ask (λ b.
      accepted (exec_request p container command)
        (b.new_executor config (exec_request p container command)))

-- The output comes with the error.
unfoldable pub streamed : ExecOutput → String × Option Failure
streamed o = elim o.error [
  | some e ↦ (o.stdout, some (execution_error e))
  | none ↦ (o.stdout, if str_eq o.stderr "" then none else some (got_stderr o.stderr))
]

unfoldable pub run_prepared :
    Backend → Result Failure ExecRequest × List Call → (String × Option Failure) × List Call
run_prepared b (err e, calls) = (("", some e), calls)
run_prepared b (ok r, calls) = (streamed (b.stream r), started r ∷ calls)

unfoldable pub execute :
    RemotePod → List String → Backend → List Call → (String × Option Failure) × List Call
execute p command b calls = run_prepared b (prepare p command b calls)

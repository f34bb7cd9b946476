-- ===== src/Mgmt.antt =====
-- pkg/util/wildfly_mgmt.go: management operations of the application server in a pod, run by
-- jboss-cli.sh over the interface RemoteOperationsInterface.
pub mod Extract
pub mod Total
pub mod Quiet
pub mod Restart
use wildfly_operator.Prelude.{
  ℕ, zero, suc, ◌≡◌, refl, Bool, true, false, Option, none, some, List, [], ◌∷◌, String, str_eq,
  ◌&&◌, codes, not, is_none, if◌then◌else◌,
}
use wildfly_operator.Prelude.Int.{ℤ, pos, ◌+ℤ◌, int32, pos_part}
use wildfly_operator.Json.{Value, null, text, object, Fields, nil, get_field}
use wildfly_operator.Kube.{Pod}
use wildfly_operator.World.{
  M, Env, Result, ok, err, RemoteError, executed, Event, ◌>>=◌, ◌>>◌, pure, request, environment,
}
use wildfly_operator.Util.Convert.{
  ConvertError, convert_to_int, convert_to_string, convert_to_array_string, string_or_empty,
}
use wildfly_operator.Util.EnvVars.{get_env_as_int}
unfoldable pub use Extract.{extract_json}

-- The messages of this file's errors, told apart by their place.
pub data MgmtError : Type 0 where
  cannot_execute cannot_decode unsuccessful no_result not_a_text bad_offset bad_port : MgmtError
  not_running not_reinitialized : MgmtError
  not_convertible : ConvertError → MgmtError

abbrev pub server_state_read : String
server_state_read = ":read-attribute(name=server-state)"

abbrev pub list_subsystems_op : String
list_subsystems_op = ":read-children-names(child-type=subsystem)"

abbrev pub restart_op : String
restart_op = ":shutdown(restart=true)"

abbrev pub txn_check_jdbc_store : String
txn_check_jdbc_store = "/subsystem=transactions:read-attribute(name=use-jdbc-store)"

abbrev pub txn_check_recovery_listener : String
txn_check_recovery_listener = "/subsystem=transactions:read-attribute(name=recovery-listener)"

abbrev pub txn_probe : String
txn_probe = "/subsystem=transactions/log-store=log-store:probe()"

abbrev pub txn_read : String
txn_read =
    "/subsystem=transactions/log-store=log-store:read-children-resources(child-type=transactions,recursive=true,include-runtime=true)"

abbrev pub txn_recovery_socket_binding_read : String
txn_recovery_socket_binding_read = "/subsystem=transactions:read-attribute(name=socket-binding)"

abbrev pub socket_binding_read : String
socket_binding_read =
    "/socket-binding-group=standard-sockets:read-resource(recursive=true,resolve-expressions=true,include-runtime=true)"

-- RemoteOps.Execute: the output, and the error if there is one.
unfoldable pub execute : Pod → List String → M (String × Option RemoteError)
execute p command =
    request (λ env h. env.execute h p.name command) (λ a. executed p.name command a.0 a.1)

abbrev pub cli_command : String → List String
cli_command op =
    "/bin/sh" ∷ "-c" ∷ "$JBOSS_HOME/bin/jboss-cli.sh --output-json -c \"--commands=$1\"" ∷ "_" ∷ op
    ∷ []

-- ReadJSONDataByIndex at a decoded body, which is a map, and a list of keys.
unfoldable pub read_json : Value → List String → Value
read_json v [] = v
read_json (object m) (k ∷ ks) = read_json (get_field k m) ks
read_json _ (k ∷ ks) = null

unfoldable pub is_outcome_successful : Fields → Bool
is_outcome_successful body =
    str_eq (string_or_empty (convert_to_string (read_json (object body) ("outcome" ∷ []))))
      "success"

abbrev pub decoded : Option Fields → Result MgmtError Fields
decoded none = err cannot_decode
decoded (some body) = ok body

-- An error with an output is passed over, and what the output holds is decoded.
abbrev pub mgmt_body : Env → String × Option RemoteError → Result MgmtError Fields
mgmt_body env (out, e) =
    if not (is_none e) && str_eq out ""
    then err cannot_execute
    else decoded (env.decode_json (extract_json (codes out)))

unfoldable pub execute_mgmt_op : Pod → String → M (Result MgmtError Fields)
unfolding execute extract_json
execute_mgmt_op p op = do
  env ← environment
  answer ← execute p (cli_command op)
  pure (mgmt_body env answer)

-- The body, where the caller goes on without a look at the error: a nil map.
abbrev pub body_or_nil : Result MgmtError Fields → Fields
body_or_nil (ok body) = body
body_or_nil (err e) = nil

abbrev non_null : Value → Result MgmtError Value
non_null null = err no_result
non_null v = ok v

abbrev result_of : Result MgmtError Fields → Result MgmtError Value
result_of (err e) = err cannot_execute
result_of (ok body) =
    if is_outcome_successful body
    then non_null (read_json (object body) ("result" ∷ []))
    else err unsuccessful

unfoldable pub execute_and_get_result : Pod → String → M (Result MgmtError Value)
execute_and_get_result p op = do r ← execute_mgmt_op p op; pure (result_of r)

abbrev is_text : Value → String → Bool
is_text (text s) t = str_eq s t
is_text _ t = false

abbrev running_error : Result MgmtError Fields → Option MgmtError
running_error (err e) = some e
running_error (ok body) =
    if is_text (get_field "result" body) "running"
    then if is_outcome_successful body then none else some unsuccessful
    else some not_running

-- `none` is the answer (true, nil).
unfoldable pub is_app_server_running : Pod → M (Option MgmtError)
is_app_server_running p = do r ← execute_mgmt_op p server_state_read; pure (running_error r)

abbrev subsystems : Env → Result MgmtError Value → Result MgmtError (List String)
subsystems env (err e) = err e
subsystems env (ok v) = elim (convert_to_array_string env.sprint v) [
  | ok names ↦ ok names
  | err e ↦ err (not_convertible e)
]

unfoldable pub list_subsystems : Pod → M (Result MgmtError (List String))
list_subsystems p = do
  env ← environment
  r ← execute_and_get_result p list_subsystems_op
  pure (subsystems env r)

abbrev add_ports : Result ConvertError ℤ → Result ConvertError ℤ → Result MgmtError ℤ
add_ports (err e) port = err bad_offset
add_ports (ok offset) (err e) = err bad_port
add_ports (ok offset) (ok port) = ok (int32 (port +ℤ offset))

abbrev bound_port : String → Result MgmtError Fields → Result MgmtError ℤ
bound_port binding (err e) = err cannot_execute
bound_port binding (ok body) =
    let result = get_field "result" body in
    if is_outcome_successful body
    then add_ports (convert_to_int (read_json result ("port-offset" ∷ [])))
        (convert_to_int (read_json result ("socket-binding" ∷ binding ∷ "bound-port" ∷ [])))
    else err unsuccessful

abbrev binding_name : Result MgmtError Fields → Result MgmtError String
binding_name (err e) = err cannot_execute
binding_name (ok body) =
    if is_outcome_successful body
    then elim (get_field "result" body) [ text s ↦ ok s | _ ↦ err not_a_text ]
    else err unsuccessful

read_port : Pod → Result MgmtError String → M (Result MgmtError ℤ)
read_port p (err e) = pure (err e)
read_port p (ok binding) = do r ← execute_mgmt_op p socket_binding_read; pure (bound_port binding r)

unfoldable pub get_transaction_recovery_port : Pod → M (Result MgmtError ℤ)
unfolding read_port
get_transaction_recovery_port p = do
  r ← execute_mgmt_op p txn_recovery_socket_binding_read
  read_port p (binding_name r)

abbrev or_again : Option MgmtError → (MgmtError → M (Option MgmtError)) → M (Option MgmtError)
or_again none again = pure none
or_again (some e) again = again e

-- The loop that waits for the server: at most `rounds` questions, the last error if none is good.
unfoldable pub wait_running : ℕ → Pod → Option MgmtError → M (Option MgmtError)
wait_running zero p e = pure e
wait_running (suc rounds) p e = do
  r ← is_app_server_running p
  or_again r (λ e'. wait_running rounds p (some e'))

abbrev reinitialized : Option MgmtError → Option MgmtError
reinitialized none = none
reinitialized (some e) = some not_reinitialized

wait_after : ℕ → Pod → Result MgmtError Fields → M (Option MgmtError)
wait_after rounds p (err e) = pure (some cannot_execute)
wait_after rounds p (ok body) =
    if is_outcome_successful body
    then (do e ← wait_running rounds p none; pure (reinitialized e))
    else pure (some unsuccessful)

-- restartRetryCounter
abbrev pub restart_retry_counter : Env → ℕ
restart_retry_counter env =
    pos_part (get_env_as_int env.getenv "SERVER_RESTART_RETRY_COUNTER" (pos 10))

unfoldable pub execute_op_and_wait : String → Pod → M (Option MgmtError)
unfolding wait_after
execute_op_and_wait op p = do
  env ← environment
  r ← execute_mgmt_op p op
  wait_after (restart_retry_counter env) p r

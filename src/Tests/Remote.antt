-- ===== src/Tests/Remote.antt =====
-- The theorems on the remote operations at concrete answers of the libraries.
use wildfly_operator.Prelude.{
  ◌≡◌, refl, ◌⊎◌, ◌↔◌, true, false, none, some, List, [], ◌∷◌, String, str_eq, if◌then◌else◌, Any,
  All, codes, lookup, insert, length, ◌==◌, arith,
}
use wildfly_operator.Prelude.Int.{pos, int32}
use wildfly_operator.Json.{get_field}
use wildfly_operator.Kube.{Pod}
use wildfly_operator.Api.{WildFlyServer, recovery_investigation, scaling_down_clean}
use wildfly_operator.World.{Env, done, ok}
use wildfly_operator.Remote.{RemotePod, Stream, Backend, get_kube_rest_config, get_kube_core_client}
use wildfly_operator.Remote.Exec
use wildfly_operator.Remote.Exec.Success.{RanWell, execute_iff}
use wildfly_operator.Remote.Socket
use wildfly_operator.Remote.Lines
use wildfly_operator.Remote.Patterns
use wildfly_operator.Remote.Patterns.Meaning.{Holds, is_recovery_error_iff}
use wildfly_operator.Remote.Logs
use wildfly_operator.Remote.Logs.Search.{Passes, FirstMatch, search_log_iff}
use wildfly_operator.Remote.Logs.Closed.{open_logs, log_readers_closed}
use wildfly_operator.Remote.Over.{over}
use wildfly_operator.Remote.Over.Clean.{Seen}
use wildfly_operator.Remote.Over.Recovered.{process_recovery-Seen}
use wildfly_operator.Entry.{Platform, main, default_flags}
use wildfly_operator.Entry.Started.{has_started, StartsPrepared, main_started}
use wildfly_operator.Resources
use wildfly_operator.Resources.Generation
use wildfly_operator.Util.Numbers
use wildfly_operator.Util.Convert
use wildfly_operator.Mgmt
use wildfly_operator.Mgmt.{server_state_read, list_subsystems_op}
use wildfly_operator.Recovery.Types.{requeue_off, parse_bool}
use wildfly_operator.Recovery.Setup
use wildfly_operator.Recovery.Check
use wildfly_operator.Recovery.Check.{ls_command}
use wildfly_operator.Recovery.Statuses.{find_status, put_status}
use wildfly_operator.Recovery.Process.{
  recover_pods, process_recovery, contains_in_list, is_jdbc_log_store_in_use, recover_last,
  last_pods, running_pods, start_investigation,
}
use wildfly_operator.Recovery.Process.Skip.{processed}
use wildfly_operator.Recovery.Process.Grounds.{MaySkip}
use wildfly_operator.Recovery.Process.Grounds.Whole.{IsGrounded, process_recovery-clean}
use wildfly_operator.Recovery.Process.OnePod
use wildfly_operator.Recovery.Process.Loops.{AllKnown}
use wildfly_operator.Recovery.Process.CleanOnes.{IsCleanIn}
use wildfly_operator.Tests.Data.{server0, spec0, env0, last_of, pod_named, status_named, body_with}

abbrev remote_pod : String → RemotePod
remote_pod name = record { name = name; namespace = "ns"; containers = "a" ∷ [] }

-- The listing of the data directory is empty; the state of the server has a text of its own.
abbrev output_of : List String → String
output_of command =
    if str_eq (last_of command) (last_of ls_command)
    then ""
    else if str_eq (last_of command) server_state_read
    then "{r}"
    else if str_eq (last_of command) list_subsystems_op
    then "{ts}"
    else "{}"

abbrev quiet_log : Stream
quiet_log = record {
  content = "2024-01-02T03:04:05Z started\nWARN Periodic Recovery\n";
  failure = none;
}

-- A cluster where every operation works, and a log with no error of the recovery.
abbrev backend0 : Backend
backend0 = record {
  client_config = ok "config";
  new_for_config = λ config. ok "client";
  new_executor = λ config r. none;
  stream = λ r. record { stdout = output_of r.command; stderr = ""; error = none };
  open_log = λ client namespace name options. ok quiet_log;
  dial = λ address timeout. none;
  reply = λ address text. record { content = "DONE\n"; failure = none };
  print_format = λ s. s;
  parse_time = λ layout text. ok 17;
  lookup_env = λ key. none;
}

-- The listener of the recovery is on.
abbrev env_on : Env
env_on = record env0 {
  decode_json = λ s.
      if length s == 3
      then some (body_with "running")
      else if length s == 4
      then some (body_with "transactions")
      else some (body_with "true");
}

abbrev pub env_over : Env
env_over = over (λ h. backend0) remote_pod env_on

-- A server with one pod, which is under investigation; its log store is in a database.
abbrev pub server_down : WildFlyServer
server_down = record server0 {
  spec = record spec0 { replicas = pos 0 };
  status = record (server0.status) { pods = status_named "a-2" recovery_investigation ∷ [] };
}

abbrev pub server_clean : WildFlyServer
server_clean = record server_down {
  status = record (server_down.status) {
    pods = status_named "a-2" scaling_down_clean ∷ [];
    scalingdown_pods = pos 1;
  };
}

abbrev pub one_pod : List Pod
one_pod = pod_named "a-2" ∷ []

pub known_before : AllKnown server_down.status.pods one_pod
unfolding find_status
known_before = (refl, tt)

pub recovery_done : process_recovery server_down (pos 1) one_pod env_over [] ≡ (
  done (processed requeue_off none server_clean),
  (process_recovery server_down (pos 1) one_pod env_over []).1,
)
unfolding process_recovery contains_in_list is_jdbc_log_store_in_use recover_last last_pods
    running_pods start_investigation Mgmt.list_subsystems recover_pods find_status put_status
    OnePod.recover_pod Setup.set_up_recovery Mgmt.is_app_server_running OnePod.apply_outcome
    Check.check_recovery Check.set_up_port Mgmt.execute_mgmt_op Mgmt.extract_json
    Mgmt.is_outcome_successful Mgmt.read_json Convert.convert_to_string get_field
    Check.listener_disabled parse_bool lookup insert over Exec.execute Exec.run_prepared
    Exec.prepare Exec.streamed get_kube_rest_config get_kube_core_client Socket.socket_connect
    Socket.message Lines.read_string Logs.obtain_log_latest_timestamp Logs.read_pod_log
    Logs.reader_to_string Logs.line_time Patterns.find_timestamp Logs.verify_log_contains_regexp
    Logs.search_log Logs.first_match Lines.scan_lines Lines.scan Lines.split_lines Lines.drop_cr
    Lines.byte_length Check.run_scan Check.check_log Check.check_transactions Check.check_data_dir
    Mgmt.execute Mgmt.get_transaction_recovery_port Resources.patch Patterns.is_recovery_error
    Patterns.finds Patterns.matches_here Patterns.after_dots Check.has_transactions
    Patterns.has_date Patterns.until_space Patterns.starts_with Generation.mark_server_generation
    Numbers.format_int Convert.convert_to_int Numbers.parse_int Mgmt.execute_and_get_result
    Convert.convert_to_array_string Resources.update_status int32
recovery_done = refl

clean_after : IsCleanIn server_clean.status.pods "a-2"
unfolding find_status
clean_after = (status_named "a-2" scaling_down_clean, refl, refl)

process_recovery-Seen_example :
    IsCleanIn server_down.status.pods "a-2"
    ⊎ Any
        (λ p.
          (p.name ≡ "a-2")
          × Seen
              (λ h. backend0)
              remote_pod
              env_on
              p
              (process_recovery server_down (pos 1) one_pod env_over []).1)
        one_pod
    ⊎ Any (λ p. MaySkip env_over server_down p) one_pod
process_recovery-Seen_example =
    process_recovery-Seen (λ h. backend0) remote_pod env_on server_down (pos 1) "a-2" one_pod []
      (process_recovery server_down (pos 1) one_pod env_over []).1
      (processed requeue_off none server_clean) tt (omega arith) (λ e. known_before) recovery_done
      clean_after

process_recovery-clean_example :
    IsGrounded env_over server_down one_pod "a-2"
      (process_recovery server_down (pos 1) one_pod env_over []).1
process_recovery-clean_example =
    process_recovery-clean env_over server_down (pos 1) "a-2" one_pod []
      (process_recovery server_down (pos 1) one_pod env_over []).1
      (processed requeue_off none server_clean) (omega arith) (λ e. known_before) recovery_done
      clean_after

abbrev error_line : String
error_line = "ERROR in Periodic Recovery of a"

abbrev failing_log : Stream
failing_log = record {
  content = "2024-01-02T03:04:05Z started\nERROR in Periodic Recovery of a\nend";
  failure = some "reset";
}

search_log_iff_example :
    (Logs.search_log Patterns.is_recovery_error failing_log ≡ ok error_line) ↔ (
      FirstMatch Patterns.is_recovery_error (Lines.split_lines failing_log.content) error_line
      ⊎ ((error_line ≡ "")
          × (failing_log.failure ≡ none)
          × All (Passes Patterns.is_recovery_error) (Lines.split_lines failing_log.content)))
search_log_iff_example = search_log_iff Patterns.is_recovery_error failing_log error_line

-- The line is found in spite of the reader's error after it.
failing_log_found : Logs.search_log Patterns.is_recovery_error failing_log ≡ ok error_line
unfolding Logs.search_log Logs.first_match Lines.scan_lines Lines.scan Lines.split_lines
    Lines.drop_cr Lines.byte_length Patterns.is_recovery_error Patterns.finds Patterns.matches_here
    Patterns.after_dots Patterns.starts_with
failing_log_found = refl

is_recovery_error_iff_example :
    (Patterns.is_recovery_error "ERROR in Periodic Recovery" ≡ true)
    ↔ Holds (codes "ERROR") (codes "Periodic Recovery") (codes "ERROR in Periodic Recovery")
is_recovery_error_iff_example = is_recovery_error_iff "ERROR in Periodic Recovery"

execute_iff_example :
    ((Exec.execute (remote_pod "a-2") ls_command backend0 []).0 ≡ ("", none))
    ↔ RanWell (remote_pod "a-2") ls_command backend0 ""
execute_iff_example = execute_iff (remote_pod "a-2") ls_command backend0 [] ""

log_readers_closed_example :
    (open_logs
        (Logs.verify_log_contains_regexp
          (remote_pod "a-2")
          (some 17)
          Patterns.is_recovery_error
          backend0
          []).1
      ≡ open_logs [])
    × (open_logs (Logs.obtain_log_latest_timestamp (remote_pod "a-2") backend0 []).1 ≡ open_logs [])
log_readers_closed_example =
    log_readers_closed (remote_pod "a-2") (some 17) Patterns.is_recovery_error backend0 []

abbrev platform0 : Platform
platform0 = record {
  lookup_env = λ key. some "ns";
  get_config = some "config";
  new_manager = λ config options. none;
  is_openshift = λ config. ok true;
  complete = λ kinds. none;
  add_healthz_check = none;
  add_readyz_check = none;
  start = none;
}

main_started_example :
    (has_started (main platform0 env0 (default_flags false)).1 ≡ true)
    ↔ StartsPrepared platform0 env0 (default_flags false)
main_started_example = main_started platform0 env0 (default_flags false)

-- ===== src/Recovery/Check.antt =====
-- checkRecovery of controllers/transaction_recovery.go, cut at its stages. The message that comes
-- with a result is only logged and is left out; the pod comes back with the annotations it was given.
pub mod Evidence
pub mod Transactions
pub mod Clean
pub mod Contract
pub mod Quiet
use Prim.Native.String.{◌++◌ as append}
use wildfly_operator.Prelude.{
  ℕ, Bool, false, Option, none, some, List, [], ◌∷◌, String, str_eq, codes, lookup, insert, erase,
  not, if◌then◌else◌,
}
use wildfly_operator.Prelude.Int.{ℤ, pos, int32, eqb_ℤ}
use wildfly_operator.Json.{array, object, Fields, get_field, no_fields, no_items}
use wildfly_operator.Kube.{ApiError, Pod}
use wildfly_operator.Api.{WildFlyServer}
use wildfly_operator.World.{
  M, Result, ok, err, RemoteError, connected, log_time_read, log_searched, pod, patched, ◌>>=◌,
  ◌>>◌, pure, request, record_event,
}
use wildfly_operator.Util.Numbers.{parse_int, format_int}
use wildfly_operator.Util.Convert.{convert_to_string, string_or_empty}
use wildfly_operator.Mgmt.{
  MgmtError, execute, execute_mgmt_op, is_outcome_successful, read_json,
  get_transaction_recovery_port, txn_check_recovery_listener, txn_probe, txn_read,
}
use wildfly_operator.Resources
use wildfly_operator.Recovery.Types.{
  CheckResult, clean, recovery, heuristic, generic_error, RecoveryError, log_not_read,
  listener_not_checked, listener_not_verified, port_not_saved, port_not_a_number, scan_failed,
  log_not_searched, probe_failed, transactions_not_read, transactions_refused, heuristics_not_read,
  heuristics_refused, directory_not_listed, default_recovery_port, marker_recovery_port,
  txn_recovery_scan_command, text_or_empty, parse_bool,
}

-- The result, the error and the pod with its annotations.
pub record Checked : Type 0 where
  pub outcome : CheckResult
  pub error : Option RecoveryError
  pub pod_after : Pod

abbrev pub failing : RecoveryError → Pod → Checked
failing e p = record { outcome = generic_error; error = some e; pod_after = p }

abbrev pub result_is : CheckResult → Pod → Checked
result_is c p = record { outcome = c; error = none; pod_after = p }

-- The content of the data directory of the server's transaction client.
abbrev pub ls_command : List String
ls_command =
    "/bin/sh" ∷ "-c" ∷ "ls ${JBOSS_HOME}/standalone/data/ejb-xa-recovery/ 2> /dev/null || true" ∷ []

abbrev listing : Pod → String × Option RemoteError → Checked
listing p (out, some e) = failing directory_not_listed p
listing p (out, none) = if str_eq out "" then result_is clean p else result_is recovery p

unfoldable pub check_data_dir : Pod → M Checked
check_data_dir p = do answer ← execute p ls_command; pure (listing p answer)

abbrev pub heuristic_types : List String
heuristic_types =
    "HEURISTIC" ∷ "HEURISTIC_ROLLBACK" ∷ "HEURISTIC_COMMIT" ∷ "HEURISTIC_MIXED" ∷ "HEURISTIC_HAZARD"
    ∷ []

-- fmt.Sprintf(MgmtOpTxnReadHeuristicPattern, heuristic_type)
abbrev pub heuristic_op : String → String
heuristic_op kind =
    append
      "/subsystem=transactions/log-store=log-store/transactions=*/participants=*:query(where={\"status\"=\""
      (append kind "\"}")

-- `none` where the loop goes on to the next type.
abbrev found_heuristic : Pod → Result MgmtError Fields → Option Checked
found_heuristic p (err e) = some (failing heuristics_not_read p)
found_heuristic p (ok body) =
    if is_outcome_successful body
    then elim (get_field "result" body) [
      | array items ↦ if no_items items then none else some (result_is heuristic p)
      | _ ↦ none
    ]
    else some (failing heuristics_refused p)

abbrev pub or_next : Option Checked → M Checked → M Checked
or_next (some c) next = pure c
or_next none next = next

unfoldable pub check_heuristics : Pod → List String → M Checked
check_heuristics p [] = pure (result_is recovery p)
check_heuristics p (kind ∷ kinds) = do
  r ← execute_mgmt_op p (heuristic_op kind)
  or_next (found_heuristic p r) (check_heuristics p kinds)

-- The in-doubt transactions are there only as a map that is not empty.
unfoldable pub has_transactions : Fields → Bool
has_transactions body = elim (get_field "result" body) [ object m ↦ not (no_fields m) | _ ↦ false ]

in_doubt : Pod → Result MgmtError Fields → M Checked
in_doubt p (err e) = pure (failing transactions_not_read p)
in_doubt p (ok body) =
    if is_outcome_successful body
    then if has_transactions body then check_heuristics p heuristic_types else check_data_dir p
    else pure (failing transactions_refused p)

after_probe : Pod → Result MgmtError Fields → M Checked
after_probe p (err e) = pure (failing probe_failed p)
after_probe p (ok body) = do r ← execute_mgmt_op p txn_read; in_doubt p r

unfoldable pub check_transactions : Pod → M Checked
unfolding after_probe in_doubt
check_transactions p = do r ← execute_mgmt_op p txn_probe; after_probe p r

after_log : Pod → Result RemoteError String → M Checked
after_log p (err e) = pure (failing log_not_searched p)
after_log p (ok line) =
    if str_eq line "" then check_transactions p else pure (result_is generic_error p)

unfoldable pub check_log : Pod → ℕ → M Checked
unfolding after_log
check_log p since = do
  r ← request (λ env h. env.log_contains h p.name since) (log_searched p.name since)
  after_log p r

-- delete(scaleDownPod.Annotations, markerRecoveryPort)
abbrev pub forget_port : Pod → Pod
forget_port p = record p { annotations = erase marker_recovery_port p.annotations }

-- The client's own Patch: it marks no generation.
after_scan : Pod → ℕ → Option RemoteError → M Checked
after_scan p since none = check_log p since
after_scan p since (some e) = do
  request (λ env h. env.patch h (pod (forget_port p))) (patched (pod (forget_port p)))
  pure (failing scan_failed (forget_port p))

unfoldable pub run_scan : Pod → ℕ → ℤ → M Checked
unfolding after_scan
run_scan p since port = do
  r ←
      request (λ env h. env.socket_connect h p.pod_ip port txn_recovery_scan_command)
        (connected p.pod_ip port txn_recovery_scan_command)
  after_scan p since r

-- The pod's annotations with the port, as the client writes it.
abbrev pub with_port : Pod → ℤ → Pod
with_port p port = record p {
  annotations = insert marker_recovery_port (format_int port) p.annotations;
}

-- The queried port, where the query worked and the port is not 0.
abbrev pub port_or_default : Result MgmtError ℤ → ℤ
port_or_default (err e) = default_recovery_port
port_or_default (ok port) = if eqb_ℤ port (pos 0) then default_recovery_port else port

abbrev scan_if_saved : Pod → ℕ → ℤ → Option ApiError → M Checked
scan_if_saved p since port (some e) = pure (failing port_not_saved p)
scan_if_saved p since port none = run_scan p since port

save_port : WildFlyServer → Pod → ℕ → ℤ → M Checked
save_port w p since port = do
  e ← Resources.patch w (pod (with_port p port))
  scan_if_saved (Resources.marked_pod w (with_port p port)) since port e

query_port : WildFlyServer → Pod → ℕ → M Checked
query_port w p since = do
  r ← get_transaction_recovery_port p
  save_port w p since (port_or_default r)

-- A listener that is read as "false" ends the recovery: the pod is terminated.
unfoldable pub listener_disabled : Fields → Bool
listener_disabled body =
    elim (parse_bool
      (string_or_empty (convert_to_string (read_json (object body) ("result" ∷ []))))) [
        | some enabled ↦ not enabled
        | none ↦ false
      ]

after_listener : WildFlyServer → Pod → ℕ → Result MgmtError Fields → M Checked
after_listener w p since (err e) = pure (failing listener_not_checked p)
after_listener w p since (ok body) =
    if is_outcome_successful body
    then if listener_disabled body
      then (do record_event "WildFlyServerTransactionRecovery"; pure (result_is clean p))
      else query_port w p since
    else pure (failing listener_not_verified p)

unfoldable pub set_up_port : WildFlyServer → Pod → ℕ → M Checked
unfolding after_listener query_port save_port
set_up_port w p since = do
  r ← execute_mgmt_op p txn_check_recovery_listener
  after_listener w p since r

-- A port that was saved by an earlier round; Atoi is 64 bits wide and the port 32.
saved_port : WildFlyServer → Pod → ℕ → Option ℤ → M Checked
saved_port w p since (some port) = run_scan p since (int32 port)
saved_port w p since none = do
  Resources.patch w (pod (forget_port p))
  pure (failing port_not_a_number (Resources.marked_pod w (forget_port p)))

abbrev pub port_annotation : Pod → String
port_annotation p = text_or_empty (lookup marker_recovery_port p.annotations)

after_time : WildFlyServer → Pod → Result RemoteError ℕ → M Checked
after_time w p (err e) = pure (failing log_not_read p)
after_time w p (ok since) =
    if str_eq (port_annotation p) ""
    then set_up_port w p since
    else saved_port w p since (parse_int 64 (codes (port_annotation p)))

unfoldable pub check_recovery : WildFlyServer → Pod → M Checked
unfolding after_time saved_port
check_recovery w p = do
  r ← request (λ env h. env.log_latest_timestamp h p.name) (log_time_read p.name)
  after_time w p r

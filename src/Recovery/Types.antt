-- ===== src/Recovery/Types.antt =====
-- The constants, results and errors of controllers/transaction_recovery.go.
use wildfly_operator.Prelude.{
  ℕ, String, Bool, true, false, Option, none, some, str_eq, ◌||◌, if◌then◌else◌,
}
use wildfly_operator.Prelude.Int.{ℤ, pos}
use wildfly_operator.Mgmt.{MgmtError}

-- The levels of requeue, which the code compares as numbers.
abbrev pub requeue_off : ℕ
requeue_off = 0

abbrev pub requeue_later : ℕ
requeue_later = 1

abbrev pub requeue_now : ℕ
requeue_now = 2

pub data CheckResult : Type 0 where
  clean recovery heuristic generic_error : CheckResult

-- The errors, told apart by the message that each has in the source.
pub data RecoveryError : Type 0 where
  log_not_read listener_not_checked listener_not_verified port_not_saved port_not_a_number
        scan_failed :
      RecoveryError
  log_not_searched probe_failed transactions_not_read transactions_refused : RecoveryError
  heuristics_not_read heuristics_refused directory_not_listed : RecoveryError
  setup_failed restart_failed setup_not_saved label_not_saved no_such_pod : RecoveryError
  status_not_saved status_not_saved_after : RecoveryError
  mgmt : MgmtError → RecoveryError
  found_errors : ℕ → RecoveryError
  labels_not_saved : ℕ → RecoveryError

abbrev pub marker_service_disabled : String
marker_service_disabled = "disabled"

abbrev pub default_recovery_port : ℤ
default_recovery_port = pos 4712

abbrev pub marker_recovery_port : String
marker_recovery_port = "recovery-port"

abbrev pub marker_recovery_properties_setup : String
marker_recovery_properties_setup = "recovery-properties-setup"

abbrev pub txn_recovery_scan_command : String
txn_recovery_scan_command = "SCAN"

-- Reading a missing key of a map of texts gives the empty text.
abbrev pub text_or_empty : Option String → String
text_or_empty none = ""
text_or_empty (some s) = s

-- strconv.ParseBool
unfoldable pub parse_bool : String → Option Bool
parse_bool s =
    if str_eq s "1"
      || str_eq s "t"
      || str_eq s "T"
      || str_eq s "TRUE"
      || str_eq s "true"
      || str_eq s "True"
    then some true
    else if str_eq s "0"
        || str_eq s "f"
        || str_eq s "F"
        || str_eq s "FALSE"
        || str_eq s "false"
        || str_eq s "False"
    then some false
    else none

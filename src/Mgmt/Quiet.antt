-- ===== src/Mgmt/Quiet.antt =====
-- The management operations of pkg/util/wildfly_mgmt.go write no StatefulSet.
use wildfly_operator.Prelude.{ℕ, zero, suc, Option, none, some, String, List}
use wildfly_operator.Json.{Fields}
use wildfly_operator.Kube.{Pod}
use wildfly_operator.World.{M, Result, ok, err}
use wildfly_operator.World.Quiet.{Quiet, Quiet-bind, quiet_rules}
use wildfly_operator.Mgmt.{
  MgmtError, execute, execute_mgmt_op, execute_and_get_result, is_app_server_running,
  list_subsystems, read_port, get_transaction_recovery_port, wait_running, wait_after,
  execute_op_and_wait, or_again,
}

pub execute-Quiet : (p : Pod) (command : List String) → Quiet (execute p command)
unfolding execute
execute-Quiet p command = search quiet_rules

pub execute_mgmt_op-Quiet : (p : Pod) (op : String) → Quiet (execute_mgmt_op p op)
unfolding execute_mgmt_op
execute_mgmt_op-Quiet p op = search quiet_rules

pub execute_and_get_result-Quiet : (p : Pod) (op : String) → Quiet (execute_and_get_result p op)
unfolding execute_and_get_result
execute_and_get_result-Quiet p op = search (quiet_rules, execute_mgmt_op-Quiet)

pub is_app_server_running-Quiet : (p : Pod) → Quiet (is_app_server_running p)
unfolding is_app_server_running
is_app_server_running-Quiet p = search (quiet_rules, execute_mgmt_op-Quiet)

pub list_subsystems-Quiet : (p : Pod) → Quiet (list_subsystems p)
unfolding list_subsystems
list_subsystems-Quiet p = search (quiet_rules, execute_and_get_result-Quiet)

read_port-Quiet : (p : Pod) (r : Result MgmtError String) → Quiet (read_port p r)
unfolding read_port
read_port-Quiet p (err e) = search quiet_rules
read_port-Quiet p (ok binding) = search (quiet_rules, execute_mgmt_op-Quiet)

pub get_transaction_recovery_port-Quiet : (p : Pod) → Quiet (get_transaction_recovery_port p)
unfolding get_transaction_recovery_port
get_transaction_recovery_port-Quiet p = search (quiet_rules, execute_mgmt_op-Quiet, read_port-Quiet)

or_again-Quiet :
    (r : Option MgmtError) (again : MgmtError → M (Option MgmtError))
    → ((e : MgmtError) → Quiet (again e))
    → Quiet (or_again r again)
or_again-Quiet none again k = search quiet_rules
or_again-Quiet (some e) again k = k e

pub wait_running-Quiet : (n : ℕ) (p : Pod) (e : Option MgmtError) → Quiet (wait_running n p e)
unfolding wait_running
wait_running-Quiet zero p e = search quiet_rules
wait_running-Quiet (suc n) p e =
    Quiet-bind (is_app_server_running p) _ (is_app_server_running-Quiet p)
      λ r. or_again-Quiet r _ (λ e'. wait_running-Quiet n p (some e'))

wait_after-Quiet : (n : ℕ) (p : Pod) (r : Result MgmtError Fields) → Quiet (wait_after n p r)
unfolding wait_after
wait_after-Quiet n p (err e) = search quiet_rules
wait_after-Quiet n p (ok body) = search (quiet_rules, wait_running-Quiet)

pub execute_op_and_wait-Quiet : (op : String) (p : Pod) → Quiet (execute_op_and_wait op p)
unfolding execute_op_and_wait
execute_op_and_wait-Quiet op p = search (quiet_rules, execute_mgmt_op-Quiet, wait_after-Quiet)

-- The operations on an application server.
pub ruleset mgmt_quiet = (
  quiet_rules, execute-Quiet, execute_mgmt_op-Quiet, execute_and_get_result-Quiet,
  is_app_server_running-Quiet, list_subsystems-Quiet, get_transaction_recovery_port-Quiet,
  execute_op_and_wait-Quiet,
)

-- ===== src/Mgmt/Total.antt =====
-- The management operations of pkg/util/wildfly_mgmt.go always end, with an answer or an error.
use wildfly_operator.Prelude.{ℕ, zero, suc, Option, none, some, String, List}
use wildfly_operator.Json.{Fields}
use wildfly_operator.Kube.{Pod}
use wildfly_operator.World.{M, Result, ok, err}
use wildfly_operator.World.Rules.{
  Runs, Anything, total_rules, total_pure, total_bind, total_request,
}
use wildfly_operator.Mgmt.{
  MgmtError, execute, execute_mgmt_op, execute_and_get_result, is_app_server_running,
  list_subsystems, read_port, get_transaction_recovery_port, wait_running, wait_after,
  execute_op_and_wait, or_again,
}

pub execute-Runs : (p : Pod) (command : List String) → Runs Anything (execute p command)
unfolding execute
execute-Runs p command = search total_rules

pub execute_mgmt_op-Runs : (p : Pod) (op : String) → Runs Anything (execute_mgmt_op p op)
unfolding execute_mgmt_op
execute_mgmt_op-Runs p op = search total_rules

pub execute_and_get_result-Runs :
    (p : Pod) (op : String) → Runs Anything (execute_and_get_result p op)
unfolding execute_and_get_result
execute_and_get_result-Runs p op = search (total_rules, execute_mgmt_op-Runs)

pub is_app_server_running-Runs : (p : Pod) → Runs Anything (is_app_server_running p)
unfolding is_app_server_running
is_app_server_running-Runs p = search (total_rules, execute_mgmt_op-Runs)

pub list_subsystems-Runs : (p : Pod) → Runs Anything (list_subsystems p)
unfolding list_subsystems
list_subsystems-Runs p = search (total_rules, execute_and_get_result-Runs)

read_port-Runs : (p : Pod) (r : Result MgmtError String) → Runs Anything (read_port p r)
unfolding read_port
read_port-Runs p (err e) = search total_rules
read_port-Runs p (ok binding) = search (total_rules, execute_mgmt_op-Runs)

pub get_transaction_recovery_port-Runs : (p : Pod) → Runs Anything (get_transaction_recovery_port p)
unfolding get_transaction_recovery_port
get_transaction_recovery_port-Runs p = search (total_rules, execute_mgmt_op-Runs, read_port-Runs)

or_again-Runs :
    (r : Option MgmtError) (again : MgmtError → M (Option MgmtError))
    → ((e : MgmtError) → Runs Anything (again e))
    → Runs Anything (or_again r again)
or_again-Runs none again k = search total_rules
or_again-Runs (some e) again k = k e

pub wait_running-Runs :
    (n : ℕ) (p : Pod) (e : Option MgmtError) → Runs Anything (wait_running n p e)
unfolding wait_running
wait_running-Runs zero p e = search total_rules
wait_running-Runs (suc n) p e =
    total_bind (is_app_server_running p) _ (is_app_server_running-Runs p)
      λ r. or_again-Runs r _ (λ e'. wait_running-Runs n p (some e'))

wait_after-Runs : (n : ℕ) (p : Pod) (r : Result MgmtError Fields) → Runs Anything (wait_after n p r)
unfolding wait_after
wait_after-Runs n p (err e) = search total_rules
wait_after-Runs n p (ok body) = search (total_rules, wait_running-Runs)

pub execute_op_and_wait-Runs : (op : String) (p : Pod) → Runs Anything (execute_op_and_wait op p)
unfolding execute_op_and_wait
execute_op_and_wait-Runs op p = search (total_rules, execute_mgmt_op-Runs, wait_after-Runs)

-- The operations on an application server.
pub ruleset mgmt_total = (
  total_rules, execute-Runs, execute_mgmt_op-Runs, execute_and_get_result-Runs,
  is_app_server_running-Runs, list_subsystems-Runs, get_transaction_recovery_port-Runs,
  execute_op_and_wait-Runs,
)

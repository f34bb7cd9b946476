-- ===== src/Tests/Rounds.antt =====
-- The theorems on whole rounds at a concrete server.
use wildfly_operator.Prelude.{◌<◌, ◌≡◌, refl, true, false, none, [], ◌∷◌, arith, lookup}
use wildfly_operator.Prelude.Int.{pos}
use wildfly_operator.Api.{active, recovery_investigation, scaling_down_clean, WildFlyServer}
use wildfly_operator.Json.{get_field}
use wildfly_operator.World.{done}
use wildfly_operator.Util.Convert.{convert_to_string}
use wildfly_operator.Util.EnvVars.{get_env_as_int}
use wildfly_operator.Mgmt.{
  execute_mgmt_op, extract_json, is_app_server_running, is_outcome_successful, read_json,
  wait_running, execute_op_and_wait, restart_op, restart_retry_counter,
}
use wildfly_operator.Mgmt.Restart.{SawRunning, execute_op_and_wait-SawRunning}
use wildfly_operator.Recovery.Types.{requeue_off, parse_bool}
use wildfly_operator.Recovery.Setup.{set_up_recovery}
use wildfly_operator.Recovery.Check.{check_recovery, set_up_port, listener_disabled}
use wildfly_operator.Recovery.Statuses.{find_status, put_status}
use wildfly_operator.Recovery.Process.{Round, recover_pods, first_round}
use wildfly_operator.Recovery.Process.OnePod.{recover_pod, apply_outcome}
use wildfly_operator.Controller.PodStatuses.{original_status, get_pod_status, same_statuses}
use wildfly_operator.Controller.Reconcile.Finish as Finish
use wildfly_operator.Controller.Reconcile.Finish.{
  stop, finish_round, reactivate, new_hosts, status_changes,
}
use wildfly_operator.Controller.Reconcile.Finish.Rest.{finish_round-rest}
use wildfly_operator.Controller.Reconcile.Finish.Settled.{IsAtRest}
use mathlib.Core.List.{reverse, List}
use wildfly_operator.Kube.{Pod}
use wildfly_operator.Prelude.{if◌then◌else◌}
use wildfly_operator.Prelude.Int.{pos_part}
use wildfly_operator.Recovery.Process.{contains_in_list}
use wildfly_operator.Recovery.Process.Skip.{skip_recovery}
use wildfly_operator.Recovery.Process.Skip.Marked.{Leaves, names, made_clean, skip_recovery-Leaves}
use wildfly_operator.Tests.Data.{server0, env0, pod_named, status_named}

abbrev before_round : Round
before_round = first_round (status_named "a-2" recovery_investigation ∷ [])

abbrev after_round : Round
after_round = record {
  must_reconcile = requeue_off;
  errors = 0;
  statuses = status_named "a-2" scaling_down_clean ∷ [];
  changed = true;
}

-- A round at a pod whose listener is off.
round_done :
    recover_pods server0 (pod_named "a-2" ∷ []) before_round env0 []
    ≡ (done after_round, (recover_pods server0 (pod_named "a-2" ∷ []) before_round env0 []).1)
unfolding recover_pods find_status put_status recover_pod set_up_recovery is_app_server_running
    apply_outcome check_recovery set_up_port execute_mgmt_op extract_json is_outcome_successful
    read_json convert_to_string get_field listener_disabled parse_bool lookup
round_done = refl

-- One pod, which is active, and no route.
abbrev settled : WildFlyServer
settled = record server0 {
  status = record {
    replicas = pos 1;
    pods = status_named "a-0" active ∷ [];
    hosts = none;
    scalingdown_pods = pos 0;
    selector = "";
  };
}

abbrev settled_round : Finish.Round
settled_round = record {
  server = settled;
  pods = pod_named "a-0" ∷ [];
  openshift = false;
  hosts = [];
  to_scale_down = pos 0;
  set_replicas = pos 1;
  recovery_requeue = requeue_off;
  set_requeue = requeue_off;
}

comes_to_rest : (finish_round settled_round env0 []).0 ≡ done stop
unfolding finish_round reactivate new_hosts status_changes get_pod_status original_status
    same_statuses
comes_to_rest = refl

finish_round-rest_example :
    (finish_round settled_round env0 [] ≡ (done stop, [])) × IsAtRest settled_round
finish_round-rest_example = finish_round-rest env0 settled_round [] comes_to_rest

retries : 0 < restart_retry_counter env0
unfolding get_env_as_int
retries = omega arith

restarts : (execute_op_and_wait restart_op (pod_named "a-2") env0 []).0 ≡ done none
unfolding execute_op_and_wait wait_running is_app_server_running execute_mgmt_op extract_json
    is_outcome_successful read_json convert_to_string get_field get_env_as_int
restarts = refl

execute_op_and_wait-SawRunning_example :
    SawRunning env0 (pod_named "a-2") (execute_op_and_wait restart_op (pod_named "a-2") env0 []).1
execute_op_and_wait-SawRunning_example =
    execute_op_and_wait-SawRunning env0 restart_op (pod_named "a-2") [] retries restarts

abbrev two_pods : List Pod
two_pods = pod_named "a-1" ∷ pod_named "a-2" ∷ []

skip_recovery-Leaves_example :
    Leaves
      (pos 1)
      "a-2"
      (if contains_in_list (names (pos_part (pos 1)) (reverse two_pods)) "a-2"
        then made_clean (find_status "a-2" server0.status.pods)
        else find_status "a-2" server0.status.pods)
      (skip_recovery server0 (pos 1) two_pods env0 [])
skip_recovery-Leaves_example =
    skip_recovery-Leaves env0 server0 (pos 1) two_pods "a-2" [] (omega arith)

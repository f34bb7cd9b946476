-- ===== src/Tests/RecoveryRuns.antt =====
-- The theorems on the transaction recovery at a concrete server.
use wildfly_operator.Prelude.{
  ◌≤◌, ◌<◌, ◌≡◌, refl, ◌⊎◌, ◌↔◌, false, none, [], ◌∷◌, arith, All, Any, length, take, is_none,
  lookup,
}
use mathlib.Core.List.{reverse}
use wildfly_operator.Prelude.Int.{pos, pos_part}
use wildfly_operator.Api.{recovery_investigation}
use wildfly_operator.World.{done}
use wildfly_operator.World.Rules.{Runs}
use wildfly_operator.Mgmt.{
  execute_mgmt_op, extract_json, is_app_server_running, is_outcome_successful, read_json,
}
use wildfly_operator.Util.Convert.{convert_to_string}
use wildfly_operator.Json.{get_field}
use wildfly_operator.Resources.Markers.{marker_operated_by_loadbalancer}
use wildfly_operator.Recovery.Types.{
  requeue_off, requeue_later, requeue_now, parse_bool, marker_service_disabled,
}
use wildfly_operator.Recovery.Setup.{set_up_recovery}
use wildfly_operator.Recovery.Setup.Contract.{IsSetupOf, set_up_recovery-Runs}
use wildfly_operator.Recovery.Check.{check_recovery, set_up_port, listener_disabled}
use wildfly_operator.Recovery.Check.Evidence.{Evidence, SaysClean}
use wildfly_operator.Recovery.Check.Clean.{check_recovery-clean}
use wildfly_operator.Recovery.Check.Contract.{IsCheckOf, check_recovery-Runs}
use wildfly_operator.Recovery.Process.{process_recovery}
use wildfly_operator.Recovery.Process.OnePod.{recover_pod, apply_outcome}
use wildfly_operator.Recovery.Process.OnePod.Contract.{IsDoneOf, recover_pod-Runs}
use wildfly_operator.Recovery.Process.OnePod.Evidence.{LeavesClean, recover_pod-clean}
use wildfly_operator.Recovery.Process.Frame.{IsFramed}
use wildfly_operator.Recovery.Process.Total.{process_recovery-IsFramed}
use wildfly_operator.Recovery.Statuses.{find_status}
use wildfly_operator.Recovery.Race.{
  Shared, Steps, AllPassed, initial, start, more, reads, stores, needs_of, compares, passed,
}
use wildfly_operator.Recovery.Race.Levels.{race_sound, race_loses}
use wildfly_operator.Recovery.Labels.{set_label_as_disabled, with_label}
use wildfly_operator.Recovery.Labels.Disabled.{
  selects, HasLabel, set_label_as_disabled-quiet, cluster_service-excludes,
}
use wildfly_operator.Services.{new_cluster_service}
use wildfly_operator.Tests.Data.{server0, env0, pod_named, status_named, three_pods, three_statuses}

-- The listener of this pod is off.
check0 : SaysClean (check_recovery server0 (pod_named "a-2") env0 [])
unfolding check_recovery set_up_port execute_mgmt_op extract_json is_outcome_successful read_json
    convert_to_string get_field listener_disabled parse_bool lookup
check0 = refl

recover0 :
    LeavesClean
      (recover_pod server0 (pod_named "a-2") (status_named "a-2" recovery_investigation) env0 [])
unfolding recover_pod set_up_recovery is_app_server_running apply_outcome check_recovery set_up_port
    execute_mgmt_op extract_json is_outcome_successful read_json convert_to_string get_field
    listener_disabled parse_bool lookup
recover0 = refl

recover_pod-clean_example :
    Evidence env0
      (pod_named "a-2")
      (recover_pod server0 (pod_named "a-2") (status_named "a-2" recovery_investigation) env0 []).1
recover_pod-clean_example =
    recover_pod-clean env0 (status_named "a-2" recovery_investigation) refl server0
      (pod_named "a-2") [] recover0

check_recovery-clean_example :
    Evidence env0 (pod_named "a-2") (check_recovery server0 (pod_named "a-2") env0 []).1
check_recovery-clean_example = check_recovery-clean env0 server0 (pod_named "a-2") [] check0

recover_pod-Runs_example :
    Runs
      (IsDoneOf (status_named "a-2" recovery_investigation))
      (recover_pod server0 (pod_named "a-2") (status_named "a-2" recovery_investigation))
recover_pod-Runs_example =
    recover_pod-Runs server0 (pod_named "a-2") (status_named "a-2" recovery_investigation)

check_recovery-Runs_example :
    Runs (IsCheckOf (pod_named "a-2")) (check_recovery server0 (pod_named "a-2"))
check_recovery-Runs_example = check_recovery-Runs server0 (pod_named "a-2")

set_up_recovery-Runs_example :
    Runs (IsSetupOf (pod_named "a-2")) (set_up_recovery server0 (pod_named "a-2"))
set_up_recovery-Runs_example = set_up_recovery-Runs server0 (pod_named "a-2")

three_known : All (λ p. is_none (find_status p.name three_statuses) ≡ false) three_pods
unfolding find_status
three_known = (refl, (refl, (refl, tt)))

process_recovery-IsFramed_example :
    Runs (IsFramed server0) (process_recovery server0 (pos 2) three_pods)
process_recovery-IsFramed_example =
    process_recovery-IsFramed server0 (pos 2) three_pods (omega arith) (λ e. three_known)

-- The first goroutine passes with what it needs, and then the second one, which needs less.
both_passed : Steps (initial (2 ∷ 1 ∷ [])) (record { must = 2; places = passed 2 ∷ passed 1 ∷ [] })
both_passed =
    more (more (more start (reads 0 2 [] (compares 1 ∷ []))) (stores 0 2 [] (compares 1 ∷ [])))
      (reads 2 1 (passed 2 ∷ []) [])

race_sound_example :
    ((2 ≡ requeue_off) × All (λ p. needs_of p ≡ requeue_off) (passed 2 ∷ passed 1 ∷ []))
    ⊎ ((requeue_off < 2) × Any (λ p. needs_of p ≡ 2) (passed 2 ∷ passed 1 ∷ []))
race_sound_example =
    race_sound (2 ∷ 1 ∷ []) (record { must = 2; places = passed 2 ∷ passed 1 ∷ [] }) both_passed
      (tt, (tt, tt))

race_loses_example :
    (s : Shared) × Steps (initial (requeue_now ∷ requeue_later ∷ [])) s
    × AllPassed s
    × (s.must ≡ requeue_later)
race_loses_example = race_loses requeue_now requeue_later (omega arith) (omega arith)

set_label_as_disabled-quiet_example :
    ((set_label_as_disabled server0 marker_operated_by_loadbalancer (pos 1) three_pods env0 []).0
      ≡ done (false, none))
    ↔ ((pos_part (pos 1) ≤ length (reverse three_pods))
        × All
            (HasLabel marker_operated_by_loadbalancer marker_service_disabled)
            (take (pos_part (pos 1)) (reverse three_pods))
        × (set_label_as_disabled server0 marker_operated_by_loadbalancer (pos 1) three_pods env0 []
            ≡ (done (false, none), [])))
set_label_as_disabled-quiet_example =
    set_label_as_disabled-quiet env0 server0 marker_operated_by_loadbalancer (pos 1) three_pods []

cluster_service-excludes_example :
    selects
      (new_cluster_service server0 []).spec.selector
      (with_label marker_operated_by_loadbalancer marker_service_disabled (pod_named "a-2"))
    ≡ false
cluster_service-excludes_example = cluster_service-excludes server0 [] (pod_named "a-2")

-- ===== src/Recovery/Process/OnePod.antt =====
-- The goroutine of one pod in processTransactionRecoveryScaleDown of
-- controllers/transaction_recovery.go.
pub mod Contract
pub mod Quiet
pub mod Evidence
use wildfly_operator.Prelude.{ℕ, ◌==◌, Bool, true, false, Option, none, some, not, if◌then◌else◌}
use wildfly_operator.Prelude.Int.{pos, ◌+ℤ◌, int32}
use wildfly_operator.Kube.{Pod}
use wildfly_operator.Api.{
  PodState, recovery_processing, recovery_heuristic, scaling_down_clean, is_clean, PodStatus,
  WildFlyServer,
}
use wildfly_operator.World.{M, ◌>>=◌, ◌>>◌, pure, record_event}
use wildfly_operator.Recovery.Types.{
  CheckResult, clean, recovery, heuristic, generic_error, RecoveryError, requeue_off,
}
use wildfly_operator.Recovery.Setup.{set_up_recovery}
use wildfly_operator.Recovery.Check.{check_recovery}
use wildfly_operator.Recovery.Statuses.{with_state}

-- needsReconcile, the error that is stored, the pod's status, and whether it has to be saved.
pub record PodDone : Type 0 where
  pub must_reconcile : ℕ
  pub error : Option RecoveryError
  pub status : PodStatus
  pub changed : Bool

abbrev pub pod_done : ℕ → Option RecoveryError → PodStatus → Bool → PodDone
pod_done n e s c = record { must_reconcile = n; error = e; status = s; changed = c }

abbrev pub is_heuristic : PodState → Bool
is_heuristic recovery_heuristic = true
is_heuristic _ = false

-- RecoveryCounter++ on an int32, with the state of a pod that recovers.
abbrev pub recovering : PodStatus → PodStatus
recovering s = record s {
  state = recovery_processing;
  recovery_counter = int32 (s.recovery_counter +ℤ pos 1);
}

-- What the second outcome makes of the pod's status; a generic error leaves it.
unfoldable pub apply_outcome : CheckResult → PodStatus → M PodDone
apply_outcome clean s =
    pure (pod_done requeue_off none (with_state s scaling_down_clean) (not (is_clean s.state)))
apply_outcome recovery s = pure (pod_done requeue_off none (recovering s) true)
apply_outcome heuristic s = do
  record_event "Transaction Recovery"
  pure (pod_done requeue_off none (with_state s recovery_heuristic) (not (is_heuristic s.state)))
apply_outcome generic_error s = pure (pod_done requeue_off none s false)

-- The loop of two checks, of which an error of either ends the goroutine.
abbrev second_check : PodStatus → Option RecoveryError → CheckResult → M PodDone
second_check s (some e) outcome = pure (pod_done requeue_off (some e) s false)
second_check s none outcome = apply_outcome outcome s

after_first : WildFlyServer → PodStatus → Option RecoveryError → Pod → M PodDone
after_first w s (some e) p = pure (pod_done requeue_off (some e) s false)
after_first w s none p = do c ← check_recovery w p; second_check s c.error c.outcome

check_twice : WildFlyServer → Pod → PodStatus → M PodDone
unfolding after_first
check_twice w p s = do c ← check_recovery w p; after_first w s c.error c.pod_after

after_setup : WildFlyServer → PodStatus → ℕ → Option RecoveryError → Pod → M PodDone
unfolding check_twice
after_setup w s needs (some e) p = pure (pod_done needs (some e) s false)
after_setup w s needs none p =
    if needs == requeue_off then check_twice w p s else pure (pod_done needs none s false)

unfoldable pub recover_pod : WildFlyServer → Pod → PodStatus → M PodDone
unfolding after_setup
recover_pod w p s =
    if is_clean s.state
    then pure (pod_done requeue_off none s false)
    else do r ← set_up_recovery w p; after_setup w s r.must_reconcile r.error r.pod_after

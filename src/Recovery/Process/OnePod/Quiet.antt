-- ===== src/Recovery/Process/OnePod/Quiet.antt =====
-- The goroutine of one pod in controllers/transaction_recovery.go writes no StatefulSet.
use wildfly_operator.Prelude.{ℕ, Option, none, some}
use wildfly_operator.Kube.{Pod}
use wildfly_operator.Api.{PodStatus, WildFlyServer}
use wildfly_operator.World.Quiet.{Quiet, quiet_rules}
use wildfly_operator.Recovery.Types.{
  CheckResult, clean, recovery, heuristic, generic_error, RecoveryError,
}
use wildfly_operator.Recovery.Setup.Quiet.{set_up_recovery-Quiet}
use wildfly_operator.Recovery.Check.Quiet.{check_recovery-Quiet}
use wildfly_operator.Recovery.Process.OnePod.{
  apply_outcome, second_check, after_first, check_twice, after_setup, recover_pod,
}

apply_outcome-Quiet : (c : CheckResult) (s : PodStatus) → Quiet (apply_outcome c s)
unfolding apply_outcome
apply_outcome-Quiet clean s = search quiet_rules
apply_outcome-Quiet recovery s = search quiet_rules
apply_outcome-Quiet heuristic s = search quiet_rules
apply_outcome-Quiet generic_error s = search quiet_rules

second_check-Quiet :
    (s : PodStatus) (e : Option RecoveryError) (c : CheckResult) → Quiet (second_check s e c)
second_check-Quiet s (some e) c = search quiet_rules
second_check-Quiet s none c = apply_outcome-Quiet c s

module _ (w : WildFlyServer) where
  after_first-Quiet :
      (s : PodStatus) (e : Option RecoveryError) (p : Pod) → Quiet (after_first w s e p)
  unfolding after_first
  after_first-Quiet s (some e) p = search quiet_rules
  after_first-Quiet s none p = search (quiet_rules, check_recovery-Quiet, second_check-Quiet)

  check_twice-Quiet : (p : Pod) (s : PodStatus) → Quiet (check_twice w p s)
  unfolding check_twice
  check_twice-Quiet p s = search (quiet_rules, check_recovery-Quiet, after_first-Quiet)

  after_setup-Quiet :
      (s : PodStatus) (n : ℕ) (e : Option RecoveryError) (p : Pod) → Quiet (after_setup w s n e p)
  unfolding after_setup
  after_setup-Quiet s n (some e) p = search quiet_rules
  after_setup-Quiet s n none p = search (quiet_rules, check_twice-Quiet)

  pub recover_pod-Quiet : (p : Pod) (s : PodStatus) → Quiet (recover_pod w p s)
  unfolding recover_pod
  recover_pod-Quiet p s = search (quiet_rules, set_up_recovery-Quiet, after_setup-Quiet)

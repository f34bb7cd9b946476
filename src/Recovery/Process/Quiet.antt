-- ===== src/Recovery/Process/Quiet.antt =====
-- processTransactionRecoveryScaleDown of controllers/transaction_recovery.go writes no StatefulSet.
use mathlib.Core.List.{reverse}
use wildfly_operator.Prelude.{
  ℕ, zero, suc, Bool, true, false, Option, none, some, List, [], ◌∷◌, String,
}
use wildfly_operator.Prelude.Int.{ℤ, pos_part}
use wildfly_operator.Kube.{ApiError, Pod}
use wildfly_operator.Api.{PodStatus, WildFlyServer}
use wildfly_operator.World.{M, Result, ok, err}
use wildfly_operator.World.Quiet.{
  Quiet, quiet_rules, Quiet-bind, Quiet-pure, Quiet-crash, Quiet-if, Quiet-some,
}
use wildfly_operator.Mgmt.{MgmtError}
use wildfly_operator.Mgmt.Quiet.{mgmt_quiet}
use wildfly_operator.Resources.Quiet.{client_quiet, update_status-Quiet}
use wildfly_operator.Recovery.Statuses.{find_status, with_pods}
use wildfly_operator.Recovery.Process.OnePod.Quiet.{recover_pod-Quiet}
use wildfly_operator.Recovery.Process.Skip.{mark_clean, save_skipped, skip_recovery}
use wildfly_operator.Recovery.Process.{
  Round, with_found, recover_pods, record_errors, finish, run_round, after_first_save, investigate,
  recover_running, last_pods, running_pods, recover_last, after_jdbc, after_subsystems,
  process_pods, process_recovery, is_jdbc_log_store_in_use,
}

module _ (w : WildFlyServer) where
  with_found-Quiet :
      (found : Option PodStatus) (k : PodStatus → M Round)
      → ((s : PodStatus) → Quiet (k s))
      → Quiet (with_found found k)
  with_found-Quiet none k all = Quiet-crash
  with_found-Quiet (some s) k all = all s

  recover_pods-Quiet : (pods : List Pod) (r : Round) → Quiet (recover_pods w pods r)
  unfolding recover_pods
  recover_pods-Quiet [] r = Quiet-pure r
  recover_pods-Quiet (p ∷ pods) r =
      with_found-Quiet (find_status p.name r.statuses) _
        (λ s. Quiet-bind _ _ (recover_pod-Quiet w p s) (λ d. recover_pods-Quiet pods _))

record_errors-Quiet : (n : ℕ) → Quiet (record_errors n)
record_errors-Quiet zero = search quiet_rules
record_errors-Quiet (suc n) = search quiet_rules

module _ (w : WildFlyServer) (n : ℤ) where
  finish-Quiet : (r : Round) → Quiet (finish w n r)
  unfolding finish
  finish-Quiet r = search client_quiet

  run_round-Quiet : (pods : List Pod) → Quiet (run_round w n pods)
  unfolding run_round
  run_round-Quiet pods =
      Quiet-bind _ _ (recover_pods-Quiet w pods _)
        (λ r. Quiet-bind _ _ (record_errors-Quiet _) (λ u. finish-Quiet r))

  after_first_save-Quiet :
      (pods : List Pod) (e : Option ApiError) → Quiet (after_first_save w n pods e)
  unfolding after_first_save
  after_first_save-Quiet pods (some e) = search quiet_rules
  after_first_save-Quiet pods none = run_round-Quiet pods

save_skipped-Quiet : (w : WildFlyServer) → Quiet (save_skipped w)
unfolding save_skipped
save_skipped-Quiet w = search client_quiet

module _ (w : WildFlyServer) (n : ℤ) (pods : List Pod) where
  investigate-Quiet : (r : Option (List PodStatus × Bool)) → Quiet (investigate w n pods r)
  unfolding investigate
  investigate-Quiet none = Quiet-crash
  investigate-Quiet (some (ss, b)) =
      Quiet-if b _ _
        (Quiet-bind _ _ (update_status-Quiet _) (λ e. after_first_save-Quiet _ n pods e))
        (run_round-Quiet (with_pods w ss) n pods)

recover_running-Quiet :
    (w : WildFlyServer) (n : ℤ) (pods : List Pod) → Quiet (recover_running w n pods)
unfolding recover_running
recover_running-Quiet w n [] = search quiet_rules
recover_running-Quiet w n (p ∷ pods) = investigate-Quiet w n (p ∷ pods) _

module _ (w : WildFlyServer) (n : ℤ) (pods : List Pod) where
  skip_recovery-Quiet : Quiet (skip_recovery w n pods)
  unfolding skip_recovery
  skip_recovery-Quiet =
      Quiet-some (mark_clean (pos_part n) (reverse pods) w.status.pods) _
        (λ ss. save_skipped-Quiet _)

  recover_last-Quiet : Quiet (recover_last w n pods)
  unfolding recover_last
  recover_last-Quiet =
      Quiet-some (last_pods (pos_part n) (reverse pods)) _
        (λ chosen. recover_running-Quiet w n (running_pods chosen))

  after_jdbc-Quiet : (b : Option Bool) → Quiet (after_jdbc w n pods b)
  unfolding after_jdbc
  after_jdbc-Quiet none = search quiet_rules
  after_jdbc-Quiet (some true) = recover_last-Quiet
  after_jdbc-Quiet (some false) = skip_recovery-Quiet

  jdbc-Quiet : (p : Pod) → Quiet (is_jdbc_log_store_in_use p)
  unfolding is_jdbc_log_store_in_use
  jdbc-Quiet p = search mgmt_quiet

  after_subsystems-Quiet :
      (p : Pod) (r : Result MgmtError (List String)) → Quiet (after_subsystems w n pods p r)
  unfolding after_subsystems
  after_subsystems-Quiet p (err e) = search quiet_rules
  after_subsystems-Quiet p (ok names) =
      search (quiet_rules, jdbc-Quiet, after_jdbc-Quiet, recover_last-Quiet, skip_recovery-Quiet)

  process_pods-Quiet : (p : Pod) → Quiet (process_pods w n pods p)
  unfolding process_pods
  process_pods-Quiet p = search (mgmt_quiet, skip_recovery-Quiet, after_subsystems-Quiet)

pub process_recovery-Quiet :
    (w : WildFlyServer) (n : ℤ) (pods : List Pod) → Quiet (process_recovery w n pods)
unfolding process_recovery
process_recovery-Quiet w n [] = search quiet_rules
process_recovery-Quiet w n (p ∷ pods) = search (quiet_rules, process_pods-Quiet)

-- ===== src/Recovery/Check/Quiet.antt =====
-- checkRecovery of controllers/transaction_recovery.go writes no StatefulSet.
use wildfly_operator.Prelude.{ℕ, Option, none, some, List, [], ◌∷◌, String}
use wildfly_operator.Prelude.Int.{ℤ}
use wildfly_operator.Json.{Fields}
use wildfly_operator.Kube.{ApiError, Pod}
use wildfly_operator.Api.{WildFlyServer}
use wildfly_operator.World.{M, RemoteError, Result, ok, err}
use wildfly_operator.World.Quiet.{Quiet, quiet_rules, Quiet-bind}
use wildfly_operator.Mgmt.{MgmtError}
use wildfly_operator.Mgmt.Quiet.{mgmt_quiet, execute_mgmt_op-Quiet}
use wildfly_operator.Resources.Quiet.{client_quiet}
use wildfly_operator.Recovery.Check.{
  Checked, check_data_dir, or_next, check_heuristics, heuristic_op, in_doubt, after_probe,
  check_transactions, after_log, check_log, after_scan, run_scan, scan_if_saved, save_port,
  query_port, after_listener, set_up_port, saved_port, after_time, check_recovery,
}

check_data_dir-Quiet : (p : Pod) → Quiet (check_data_dir p)
unfolding check_data_dir
check_data_dir-Quiet p = search mgmt_quiet

or_next-Quiet : (c : Option Checked) (next : M Checked) → Quiet next → Quiet (or_next c next)
or_next-Quiet (some c) next k = search quiet_rules
or_next-Quiet none next k = k

check_heuristics-Quiet : (p : Pod) (kinds : List String) → Quiet (check_heuristics p kinds)
unfolding check_heuristics
check_heuristics-Quiet p [] = search quiet_rules
check_heuristics-Quiet p (kind ∷ kinds) =
    Quiet-bind _ _ (execute_mgmt_op-Quiet p (heuristic_op kind))
      (λ r. or_next-Quiet _ _ (check_heuristics-Quiet p kinds))

in_doubt-Quiet : (p : Pod) (r : Result MgmtError Fields) → Quiet (in_doubt p r)
unfolding in_doubt
in_doubt-Quiet p (err e) = search quiet_rules
in_doubt-Quiet p (ok body) = search (quiet_rules, check_heuristics-Quiet, check_data_dir-Quiet)

after_probe-Quiet : (p : Pod) (r : Result MgmtError Fields) → Quiet (after_probe p r)
unfolding after_probe
after_probe-Quiet p (err e) = search quiet_rules
after_probe-Quiet p (ok body) = search (mgmt_quiet, in_doubt-Quiet)

check_transactions-Quiet : (p : Pod) → Quiet (check_transactions p)
unfolding check_transactions
check_transactions-Quiet p = search (mgmt_quiet, after_probe-Quiet)

after_log-Quiet : (p : Pod) (r : Result RemoteError String) → Quiet (after_log p r)
unfolding after_log
after_log-Quiet p (err e) = search quiet_rules
after_log-Quiet p (ok line) = search (quiet_rules, check_transactions-Quiet)

check_log-Quiet : (p : Pod) (since : ℕ) → Quiet (check_log p since)
unfolding check_log
check_log-Quiet p since = search (quiet_rules, after_log-Quiet)

after_scan-Quiet : (p : Pod) (since : ℕ) (r : Option RemoteError) → Quiet (after_scan p since r)
unfolding after_scan
after_scan-Quiet p since none = check_log-Quiet p since
after_scan-Quiet p since (some e) = search quiet_rules

run_scan-Quiet : (p : Pod) (since : ℕ) (port : ℤ) → Quiet (run_scan p since port)
unfolding run_scan
run_scan-Quiet p since port = search (quiet_rules, after_scan-Quiet)

scan_if_saved-Quiet :
    (p : Pod) (since : ℕ) (port : ℤ) (e : Option ApiError) → Quiet (scan_if_saved p since port e)
scan_if_saved-Quiet p since port (some e) = search quiet_rules
scan_if_saved-Quiet p since port none = run_scan-Quiet p since port

module _ (w : WildFlyServer) (p : Pod) (since : ℕ) where
  save_port-Quiet : (port : ℤ) → Quiet (save_port w p since port)
  unfolding save_port
  save_port-Quiet port = search (client_quiet, scan_if_saved-Quiet)

  query_port-Quiet : Quiet (query_port w p since)
  unfolding query_port
  query_port-Quiet = search (mgmt_quiet, save_port-Quiet)

  after_listener-Quiet : (r : Result MgmtError Fields) → Quiet (after_listener w p since r)
  unfolding after_listener
  after_listener-Quiet (err e) = search quiet_rules
  after_listener-Quiet (ok body) = search (quiet_rules, query_port-Quiet)

  set_up_port-Quiet : Quiet (set_up_port w p since)
  unfolding set_up_port
  set_up_port-Quiet = search (mgmt_quiet, after_listener-Quiet)

  saved_port-Quiet : (port : Option ℤ) → Quiet (saved_port w p since port)
  unfolding saved_port
  saved_port-Quiet (some port) = run_scan-Quiet p since _
  saved_port-Quiet none = search client_quiet

after_time-Quiet :
    (w : WildFlyServer) (p : Pod) (r : Result RemoteError ℕ) → Quiet (after_time w p r)
unfolding after_time
after_time-Quiet w p (err e) = search quiet_rules
after_time-Quiet w p (ok since) = search (quiet_rules, set_up_port-Quiet, saved_port-Quiet)

pub check_recovery-Quiet : (w : WildFlyServer) (p : Pod) → Quiet (check_recovery w p)
unfolding check_recovery
check_recovery-Quiet w p = search (quiet_rules, after_time-Quiet)

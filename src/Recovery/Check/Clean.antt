-- ===== src/Recovery/Check/Clean.antt =====
-- What checkRecovery of controllers/transaction_recovery.go has seen when it calls a pod clean.
use wildfly_operator.Prelude.{
  ℕ, ◌≡◌, refl, inl, inr, Bool-cases, Option, none, some, ◌∷◌, String, str_eq, codes, StringMap,
}
use wildfly_operator.Prelude.Int.{ℤ, int32}
use wildfly_operator.Json.{Fields}
use wildfly_operator.Kube.{ApiError, Pod}
use wildfly_operator.Api.{WildFlyServer}
use wildfly_operator.World.{
  M, Env, History, Outcome, done, panic, Result, ok, err, RemoteError, executed, connected,
  continue,
}
use wildfly_operator.Util.Numbers.{parse_int}
use wildfly_operator.Mgmt.{
  MgmtError, execute_mgmt_op, mgmt_body, cli_command, is_outcome_successful,
  get_transaction_recovery_port, txn_check_recovery_listener,
}
use wildfly_operator.Resources
use wildfly_operator.Recovery.Types.{txn_recovery_scan_command}
use wildfly_operator.Recovery.Check.{
  Checked, after_scan, run_scan, scan_if_saved, save_port, query_port, after_listener, set_up_port,
  saved_port, after_time, check_recovery, listener_disabled, port_or_default, port_annotation,
}
use wildfly_operator.Recovery.Check.Evidence.{SaysClean, Evidence, disabled, recovered}
use wildfly_operator.Recovery.Check.Transactions.{generic-ne-clean, log-clean}

-- The evidence of a chain is that of its last part.
continue-clean :
    {A : Type 0} (env : Env) (p : Pod) (k : A → M Checked)
    → ((a : A) (h : History) → SaysClean (k a env h) → Evidence env p (k a env h).1)
    → (r : Outcome A) (h : History) → SaysClean (continue r k env h)
    → Evidence env p (continue r k env h).1
continue-clean env p k keep (done a) h s = keep a h s
continue-clean env p k keep panic h s = absurd s

-- Annotations do not show in the evidence.
pub Evidence-annotated :
    (env : Env) (p : Pod) (a : StringMap) {h : History}
    → Evidence env (record p { annotations = a }) h
    → Evidence env p h
Evidence-annotated env p a (disabled x y t) = disabled x y t
Evidence-annotated env p a (recovered x y z t) = recovered x y z t

module _ (env : Env) (p : Pod) (since : ℕ) (port : ℤ) (h : History) where
  after_scan-clean :
      (r : Option RemoteError)
      → SaysClean
          (after_scan p since r env (connected p.pod_ip port txn_recovery_scan_command r ∷ h))
      → Evidence env p
          (after_scan p since r env (connected p.pod_ip port txn_recovery_scan_command r ∷ h)).1
  unfolding after_scan
  after_scan-clean (some e) s = absurd (generic-ne-clean s)
  after_scan-clean none s =
      let t =
        log-clean env p since (connected p.pod_ip port txn_recovery_scan_command none ∷ h) s in
      recovered t.probed t.answers t.none_left t.trace

  scan-clean :
      SaysClean (run_scan p since port env h) → Evidence env p (run_scan p since port env h).1
  unfolding run_scan
  scan-clean s = after_scan-clean (env.socket_connect h p.pod_ip port txn_recovery_scan_command) s

module _ (env : Env) (w : WildFlyServer) (p : Pod) (since : ℕ) where
  saved-clean :
      (port : ℤ) (a : StringMap) (e : Option ApiError) (h : History)
      → SaysClean (scan_if_saved (record p { annotations = a }) since port e env h)
      → Evidence env p (scan_if_saved (record p { annotations = a }) since port e env h).1
  saved-clean port a (some e) h s = absurd (generic-ne-clean s)
  saved-clean port a none h s =
      Evidence-annotated env p a (scan-clean env (record p { annotations = a }) since port h s)

  save_port-clean :
      (port : ℤ) (h : History)
      → SaysClean (save_port w p since port env h)
      → Evidence env p (save_port w p since port env h).1
  unfolding save_port Resources.patch
  save_port-clean port h s = saved-clean port _ _ _ s

  query-clean :
      (h : History)
      → SaysClean (query_port w p since env h)
      → Evidence env p (query_port w p since env h).1
  unfolding query_port
  query-clean h s =
      let (r, h') = get_transaction_recovery_port p env h in
      continue-clean env p (λ port. save_port w p since (port_or_default port))
        (λ port. save_port-clean (port_or_default port)) r h' s

  after_listener-clean :
      (out : String) (e : Option RemoteError) (r : Result MgmtError Fields) (h : History)
      → mgmt_body env (out, e) ≡ r
      → let h' = executed p.name (cli_command txn_check_recovery_listener) out e ∷ h in
        SaysClean (after_listener w p since r env h')
        → Evidence env p (after_listener w p since r env h').1
  unfolding after_listener
  after_listener-clean out e (err x) h q s = absurd (generic-ne-clean s)
  after_listener-clean out e (ok body) h q s = elim (Bool-cases (is_outcome_successful body)) [
    | inr bad ↦ absurd (generic-ne-clean (rw bad at s))
    | inl good ↦ elim (Bool-cases (listener_disabled body)) [
      | inl off ↦ rw (good, off) (disabled (record { decodes = q; succeeds = good }) off refl)
      | inr on ↦ rw (good, on) (query-clean _ (rw (good, on) at s))
    ]
  ]

  set_up-clean :
      (h : History)
      → SaysClean (set_up_port w p since env h)
      → Evidence env p (set_up_port w p since env h).1
  unfolding set_up_port execute_mgmt_op
  set_up-clean h s =
      let answer = env.execute h p.name (cli_command txn_check_recovery_listener) in
      after_listener-clean answer.0 answer.1 (mgmt_body env answer) h refl s

  saved_port-clean :
      (port : Option ℤ) (h : History)
      → SaysClean (saved_port w p since port env h)
      → Evidence env p (saved_port w p since port env h).1
  unfolding saved_port Resources.patch
  saved_port-clean (some port) h s = scan-clean env p since (int32 port) h s
  saved_port-clean none h s = absurd (generic-ne-clean s)

module _ (env : Env) (w : WildFlyServer) (p : Pod) where
  after_time-clean :
      (r : Result RemoteError ℕ) (h : History)
      → SaysClean (after_time w p r env h)
      → Evidence env p (after_time w p r env h).1
  unfolding after_time
  after_time-clean (err e) h s = absurd (generic-ne-clean s)
  after_time-clean (ok since) h s = elim (Bool-cases (str_eq (port_annotation p) "")) [
    | inl fresh ↦ rw fresh (set_up-clean env w p since h (rw fresh at s))
    | inr known ↦ rw known (
        saved_port-clean env w p since (parse_int 64 (codes (port_annotation p))) h (rw known at s))
  ]

  -- A pod is called clean only on evidence, whatever the application server answers: its listener
  -- was read as disabled, or the scan was answered, the log searched since some time had no
  -- error, the transactions were probed and then read as none, and the data directory was empty.
  pub check_recovery-clean :
      (h : History)
      → SaysClean (check_recovery w p env h)
      → Evidence env p (check_recovery w p env h).1
  unfolding check_recovery
  check_recovery-clean h s = after_time-clean (env.log_latest_timestamp h p.name) _ s

-- ===== src/Recovery/Check/Evidence.antt =====
-- The requests that checkRecovery of controllers/transaction_recovery.go goes by when it calls a pod
-- clean.
use wildfly_operator.Prelude.{ℕ, ◌≡◌, true, false, Option, none, ◌∷◌, String}
use wildfly_operator.Prelude.Int.{ℤ}
use wildfly_operator.Json.{Fields}
use wildfly_operator.Kube.{Pod}
use wildfly_operator.World.{
  Env, History, Outcome, done, panic, ok, RemoteError, executed, connected, log_searched, recorded,
}
use wildfly_operator.Mgmt.{
  mgmt_body, cli_command, is_outcome_successful, txn_probe, txn_read, txn_check_recovery_listener,
}
use wildfly_operator.Recovery.Types.{clean, txn_recovery_scan_command}
use wildfly_operator.Recovery.Check.{Checked, has_transactions, listener_disabled, ls_command}

-- The check went through and called the pod clean.
abbrev pub SaysClean : Outcome Checked × History → Type 0
SaysClean (done c, h) = c.outcome ≡ clean
SaysClean (panic, h) = ⊥

-- The answer decodes to the body of a successful operation.
pub record Answers (env : Env) (out : String) (e : Option RemoteError) (body : Fields)
    : Type 0 where
  pub decodes : mgmt_body env (out, e) ≡ ok body
  pub succeeds : is_outcome_successful body ≡ true

-- The last requests before a pod is called clean: its listener was read as disabled; or the scan was
-- answered, the log had no error since the given time, the transactions were probed and then read as
-- none, and the client's directory was listed as empty.
pub data Evidence (env : Env) (p : Pod) (h' : History) : Type 0 where
  disabled :
      {out : String} {e : Option RemoteError} {body : Fields} {h : History}
      → Answers env out e body
      → listener_disabled body ≡ true
      → h'
        ≡ recorded "WildFlyServerTransactionRecovery"
          ∷ executed p.name (cli_command txn_check_recovery_listener) out e
          ∷ h
      → Evidence env p h'
  recovered :
      {port : ℤ} {since : ℕ} {out out' : String} {e e' : Option RemoteError} {body body' : Fields}
      {h : History}
      → mgmt_body env (out, e) ≡ ok body
      → Answers env out' e' body'
      → has_transactions body' ≡ false
      → h'
        ≡ executed p.name ls_command "" none
          ∷ executed p.name (cli_command txn_read) out' e'
          ∷ executed p.name (cli_command txn_probe) out e
          ∷ log_searched p.name since (ok "")
          ∷ connected p.pod_ip port txn_recovery_scan_command none
          ∷ h
      → Evidence env p h'

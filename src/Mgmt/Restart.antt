-- ===== src/Mgmt/Restart.antt =====
-- ExecuteOpAndWaitForServerBeingReady of pkg/util/wildfly_mgmt.go: what a restart that is reported as
-- done has seen.
use wildfly_operator.Prelude.{
  ℕ, zero, suc, ◌<◌, ◌≡◌, refl, inl, inr, Option, none, some, ◌∷◌, String, Bool-cases, arith,
}
use wildfly_operator.Json.{Fields}
use wildfly_operator.Kube.{Pod}
use wildfly_operator.World.{
  M, pure, Env, History, executed, Outcome, done, panic, Result, ok, err, RemoteError, continue,
}
use wildfly_operator.Mgmt.{
  MgmtError, cli_command, mgmt_body, running_error, server_state_read, execute, execute_mgmt_op,
  is_app_server_running, or_again, wait_running, reinitialized, wait_after, restart_retry_counter,
  execute_op_and_wait, is_outcome_successful, unsuccessful,
}

-- The last request read the server's state, as running.
pub record SawRunning (env : Env) (p : Pod) (h : History) : Type 0 where
  pub output : String
  pub error : Option RemoteError
  pub before : History
  pub last_request : h ≡ executed p.name (cli_command server_state_read) output error ∷ before
  pub says_running : running_error (mgmt_body env (output, error)) ≡ none

module _ (env : Env) (p : Pod) where
  -- The answer to one question.
  abbrev answer : History → String × Option RemoteError
  answer h = env.execute h p.name (cli_command server_state_read)

  abbrev asked : History → History
  asked h = executed p.name (cli_command server_state_read) (answer h).0 (answer h).1 ∷ h

  seen_now :
      (h : History) → running_error (mgmt_body env (answer h)) ≡ none → SawRunning env p (asked h)
  seen_now h e = record {
    output = (answer h).0;
    error = (answer h).1;
    before = h;
    last_request = refl;
    says_running = e;
  }

  after_answer :
      (r : Option MgmtError) (again : MgmtError → M (Option MgmtError)) (h : History)
      → (r ≡ none → SawRunning env p h)
      → ((e : MgmtError) → (again e env h).0 ≡ done none → SawRunning env p (again e env h).1)
      → (or_again r again env h).0 ≡ done none
      → SawRunning env p (or_again r again env h).1
  after_answer none again h seen more x = seen refl
  after_answer (some e) again h seen more x = more e x

  wait-seen :
      (n : ℕ) (e : MgmtError) (h : History)
      → (wait_running n p (some e) env h).0 ≡ done none
      → SawRunning env p (wait_running n p (some e) env h).1
  unfolding wait_running is_app_server_running execute_mgmt_op execute
  wait-seen zero e h x = absurd cc
  wait-seen (suc n) e h x =
      after_answer (running_error (mgmt_body env (answer h))) (λ e'. wait_running n p (some e'))
        (asked h) (seen_now h) (λ e' y. wait-seen n e' (asked h) y) x

  -- The loop that waits for the server, with at least one question left, ends well only where the
  -- last answer says that the server is running, whatever was answered before.
  pub wait_running-SawRunning :
      (n : ℕ) (e : Option MgmtError) (h : History)
      → (wait_running (suc n) p e env h).0 ≡ done none
      → SawRunning env p (wait_running (suc n) p e env h).1
  unfolding wait_running is_app_server_running execute_mgmt_op execute
  wait_running-SawRunning n e h x =
      after_answer (running_error (mgmt_body env (answer h))) (λ e'. wait_running n p (some e'))
        (asked h) (seen_now h) (λ e' y. wait-seen n e' (asked h) y) x

  abbrev outcome_of : Option MgmtError → Outcome (Option MgmtError)
  outcome_of e = done e

  failed : outcome_of (some unsuccessful) ≡ done none → ⊥
  failed x = absurd cc

  after_wait :
      (o : Outcome (Option MgmtError)) (h : History)
      → (o ≡ done none → SawRunning env p h)
      → (continue o (λ e. pure (reinitialized e)) env h).0 ≡ done none
      → SawRunning env p (continue o (λ e. pure (reinitialized e)) env h).1
  after_wait (done none) h seen x = seen refl
  after_wait (done (some e)) h seen x = absurd cc
  after_wait panic h seen x = absurd cc

  wait_after-seen :
      (n : ℕ) (r : Result MgmtError Fields) (h : History)
      → (wait_after (suc n) p r env h).0 ≡ done none
      → SawRunning env p (wait_after (suc n) p r env h).1
  unfolding wait_after
  wait_after-seen n (err e) h x = absurd cc
  wait_after-seen n (ok body) h x = elim (Bool-cases (is_outcome_successful body)) [
    | inl good ↦ rw good (
        after_wait (wait_running (suc n) p none env h).0 (wait_running (suc n) p none env h).1
          (wait_running-SawRunning n none h) (rw good at x))
    | inr bad ↦ absurd (failed (rw bad at x))
  ]

module _ (env : Env) (op : String) (p : Pod) (h : History) where
  -- A restart that is reported as done has seen the server running: where the counter of retries is
  -- positive, the operation ends without an error only where its last request read the server's state
  -- as running.
  pub execute_op_and_wait-SawRunning :
      0 < restart_retry_counter env
      → (execute_op_and_wait op p env h).0 ≡ done none
      → SawRunning env p (execute_op_and_wait op p env h).1
  unfolding execute_op_and_wait execute_mgmt_op execute
  execute_op_and_wait-SawRunning positive x = counted (restart_retry_counter env) positive x
    where
      counted :
          (n : ℕ)
          → 0 < n
          → (wait_after n p (mgmt_body env (env.execute h p.name (cli_command op))) env (
              executed p.name
                (cli_command op)
                (env.execute h p.name (cli_command op)).0
                (env.execute h p.name (cli_command op)).1
              ∷ h)).0
            ≡ done none
          → SawRunning env p
              (wait_after n p (mgmt_body env (env.execute h p.name (cli_command op))) env (
                executed p.name
                  (cli_command op)
                  (env.execute h p.name (cli_command op)).0
                  (env.execute h p.name (cli_command op)).1
                ∷ h)).1
      counted zero k y = absurd (omega arith)
      counted (suc n) k y = wait_after-seen env p n _ _ y

-- ===== src/Recovery/Process/Grounds/Whole.antt =====
-- On what grounds the whole of processTransactionRecoveryScaleDown in
-- controllers/transaction_recovery.go leaves a pod clean.
use wildfly_operator.Prelude.{
  ◌≤◌, ◌≡◌, subst, ◌⊎◌, inl, inr, Bool, true, false, not, Option, none, some, List, [], ◌∷◌, String,
  Any, length, ◌==◌,
}
use wildfly_operator.Prelude.Int.{ℤ, pos, pos_part, eqb_ℤ}
use wildfly_operator.Kube.{Pod}
use wildfly_operator.Api.{WildFlyServer}
use wildfly_operator.World.{Env, History, done, Result, ok, err}
use wildfly_operator.Mgmt.{MgmtError, list_subsystems}
use wildfly_operator.Recovery.Process.{
  contains_in_list, is_jdbc_log_store_in_use, is_ephemeral, recover_last, after_jdbc,
  after_subsystems, process_pods, process_recovery,
}
use wildfly_operator.Recovery.Process.Skip.{Processed, skip_recovery}
use wildfly_operator.Recovery.Process.Loops.{AllKnown}
use wildfly_operator.Recovery.Process.Total.{KnownIfAsMany, as_many, enough_reversed}
use wildfly_operator.Recovery.Process.CleanOnes.{IsCleanIn, IsProved}
use wildfly_operator.Recovery.Process.Grounds.{
  MaySkip, is_bootable, is_deactivated, has_no_transactions, loses_log, Accounted, Accounted-always,
  Accounted-continue, Accounted-if,
}
use wildfly_operator.Recovery.Process.Grounds.Rounds.{recover_last-Accounted}

-- The grounds on which a status of the name may be clean.
abbrev pub IsGrounded : Env → WildFlyServer → List Pod → String → History → Type 0
IsGrounded env w pods name h =
    IsCleanIn w.status.pods name ⊎ IsProved env pods name h ⊎ Any (λ p. MaySkip env w p) pods

module _ (env : Env) (w : WildFlyServer) (n : ℤ) (name : String) where
  module _ (p : Pod) (ps : List Pod) (enough : pos_part n ≤ length (p ∷ ps))
      (known : AllKnown w.status.pods (p ∷ ps)) where
    abbrev G : History → Type 0
    G = IsGrounded env w (p ∷ ps) name

    skipping-Accounts :
        MaySkip env w p → (h : History) → Accounted name G (skip_recovery w n (p ∷ ps) env h)
    skipping-Accounts may h = Accounted-always name G _ (λ h'. inr (inr (inl may)))

    recovering-Accounts : (h : History) → Accounted name G (recover_last w n (p ∷ ps) env h)
    recovering-Accounts h =
        recover_last-Accounted env name G (p ∷ ps) w n (enough_reversed w n (p ∷ ps) enough)
          (λ c h'. inl c) (λ h' x. inr (inl x)) h known

    after_jdbc-Accounts :
        is_ephemeral w.spec.storage ≡ true
        → (h : History) (b : Option Bool) → (is_jdbc_log_store_in_use p env h).0 ≡ done b
        → (h' : History) → Accounted name G (after_jdbc w n (p ∷ ps) b env h')
    unfolding after_jdbc
    after_jdbc-Accounts e h none g h' = λ c. inl c
    after_jdbc-Accounts e h (some true) g h' = recovering-Accounts h'
    after_jdbc-Accounts e h (some false) g h' = skipping-Accounts (loses_log h e g) h'

    after_subsystems-Accounts :
        (h : History) (r : Result MgmtError (List String))
        → (list_subsystems p env h).0 ≡ done r
        → (h' : History) → Accounted name G (after_subsystems w n (p ∷ ps) p r env h')
    unfolding after_subsystems
    after_subsystems-Accounts h (err e) g h' = λ c. inl c
    after_subsystems-Accounts h (ok names) g h' =
        Accounted-if name G env (contains_in_list names "transactions") _ _ h'
          (λ there.
            Accounted-if name G env (is_ephemeral w.spec.storage) _ _ h'
              (λ lost.
                let (o, h1) = is_jdbc_log_store_in_use p env h' in
                Accounted-continue name G env (after_jdbc w n (p ∷ ps)) o h1
                  (λ b e. after_jdbc-Accounts lost h' b e h1))
              (λ kept. recovering-Accounts h'))
          (λ no_such. skipping-Accounts (has_no_transactions h g no_such) h')

  process_pods-Accounts :
      (p : Pod) (ps : List Pod)
      → pos_part n ≤ length (p ∷ ps)
      → KnownIfAsMany w (p ∷ ps)
      → (h : History)
      → Accounted name (IsGrounded env w (p ∷ ps) name) (process_pods w n (p ∷ ps) p env h)
  unfolding process_pods
  process_pods-Accounts p ps enough known h =
      let G' = IsGrounded env w (p ∷ ps) name in
      Accounted-if name G' env (not (length w.status.pods == length (p ∷ ps))) _ _ h
        (λ differs c. inl c)
        (λ same.
          let all = known (as_many (length w.status.pods == length (p ∷ ps)) same) in
          Accounted-if name G' env w.spec.bootable_jar _ _ h
            (λ jar. skipping-Accounts p ps enough all (is_bootable jar) h)
            (λ no_jar.
              Accounted-if name G' env w.spec.deactivate_transaction_recovery _ _ h
                (λ off. skipping-Accounts p ps enough all (is_deactivated off) h)
                (λ on.
                  let (o, h1) = list_subsystems p env h in
                  Accounted-continue name G' env (after_subsystems w n (p ∷ ps) p) o h1
                    (λ r e. after_subsystems-Accounts p ps enough all h r e h1))))

  process_recovery-Accounts :
      (pods : List Pod) (h : History)
      → pos_part n ≤ length pods
      → KnownIfAsMany w pods
      → Accounted name (IsGrounded env w pods name) (process_recovery w n pods env h)
  unfolding process_recovery
  process_recovery-Accounts [] h enough known = λ c. inl c
  process_recovery-Accounts (p ∷ ps) h enough known =
      Accounted-if name (IsGrounded env w (p ∷ ps) name) env (eqb_ℤ n (pos 0)) _ _ h
        (λ none_to_remove c. inl c) (λ some_to_remove. process_pods-Accounts p ps enough known h)

-- Where no more pods are to be removed than there are, and each pod has a status if the statuses are as
-- many as the pods: whatever the environment answers, the recovery leaves a status clean only where it was clean before; where it is
-- that of one of the pods and at some time there was evidence for the pod; or where the recovery may be
-- skipped, since the server is a bootable JAR, the recovery is deactivated, or one of the pods was seen
-- to have no transactions subsystem or neither storage nor a database for its log.
pub process_recovery-clean :
    (env : Env) (w : WildFlyServer) (n : ℤ) (name : String) (pods : List Pod) (h h' : History)
    (q : Processed)
    → pos_part n ≤ length pods
    → KnownIfAsMany w pods
    → process_recovery w n pods env h ≡ (done q, h')
    → IsCleanIn q.server.status.pods name
    → IsGrounded env w pods name h'
process_recovery-clean env w n name pods h h' q enough known e =
    subst (Accounted name (IsGrounded env w pods name)) e
      (process_recovery-Accounts env w n name pods h enough known)

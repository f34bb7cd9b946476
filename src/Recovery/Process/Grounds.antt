-- ===== src/Recovery/Process/Grounds.antt =====
-- On what grounds processTransactionRecoveryScaleDown of controllers/transaction_recovery.go leaves
-- a pod clean.
pub mod Chosen
pub mod Rounds
pub mod Whole
use wildfly_operator.Prelude.{◌≡◌, refl, Bool, true, false, some, List, String, if◌then◌else◌}
use wildfly_operator.Kube.{Pod}
use wildfly_operator.Api.{PodStatus, WildFlyServer}
use wildfly_operator.World.{Env, History, Outcome, done, panic, Result, ok, M, continue}
use wildfly_operator.Mgmt.{list_subsystems}
use wildfly_operator.Recovery.Process.{contains_in_list, is_jdbc_log_store_in_use, is_ephemeral}
use wildfly_operator.Recovery.Process.Skip.{Processed}
use wildfly_operator.Recovery.Process.CleanOnes.{IsCleanIn, IsProved}

-- An action came to its end with the result.
abbrev pub Gives : {A : Type 0} → A → Outcome A × History → Type 0
Gives a r = r.0 ≡ done a

-- Why the recovery may be skipped, which the code asks of one of the pods: the server is a bootable
-- JAR, the recovery is deactivated, the pod has no transactions subsystem, or neither the storage
-- nor a database keeps its transaction log.
pub data MaySkip (env : Env) (w : WildFlyServer) (p : Pod) : Type 0 where
  is_bootable : w.spec.bootable_jar ≡ true → MaySkip env w p
  is_deactivated : w.spec.deactivate_transaction_recovery ≡ true → MaySkip env w p
  has_no_transactions :
      {names : List String} (h : History)
      → Gives (ok names) (list_subsystems p env h)
      → contains_in_list names "transactions" ≡ false
      → MaySkip env w p
  loses_log :
      (h : History)
      → is_ephemeral w.spec.storage ≡ true
      → Gives (some false) (is_jdbc_log_store_in_use p env h)
      → MaySkip env w p

-- A pod that the run leaves clean has the grounds.
abbrev pub Accounted : String → (History → Type 0) → Outcome Processed × History → Type 0
Accounted name G (done q, h) = IsCleanIn q.server.status.pods name → G h
Accounted name G (panic, h) = Unit

module _ (name : String) (G : History → Type 0) where
  pub Accounted-always :
      (r : Outcome Processed × History) → ((h : History) → G h) → Accounted name G r
  Accounted-always (done q, h) all = λ c. all h
  Accounted-always (panic, h) all = tt

  pub Accounted-continue :
      {A : Type 0} (env : Env) (k : A → M Processed) (o : Outcome A) (h : History)
      → ((a : A) → o ≡ done a → Accounted name G (k a env h))
      → Accounted name G (continue o k env h)
  Accounted-continue env k (done a) h all = all a refl
  Accounted-continue env k panic h all = tt

  pub Accounted-if :
      (env : Env) (b : Bool) (m k : M Processed) (h : History)
      → (b ≡ true → Accounted name G (m env h))
      → (b ≡ false → Accounted name G (k env h))
      → Accounted name G ((if b then m else k) env h)
  Accounted-if env true m k h x y = x refl
  Accounted-if env false m k h x y = y refl

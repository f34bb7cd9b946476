-- ===== src/Recovery/Setup/Contract.antt =====
-- What setupRecoveryPropertiesAndRestart of controllers/transaction_recovery.go promises on every
-- branch.
use wildfly_operator.Prelude.{
  ◌⊎◌, inl, inr, ℕ, ◌≡◌, refl, Bool, true, Option, none, some, StringMap, ◌≤◌, arith, is_none,
  if◌then◌else◌,
}
use wildfly_operator.Json.{Fields}
use wildfly_operator.Kube.{ApiError, Pod}
use wildfly_operator.Api.{WildFlyServer}
use wildfly_operator.World.{M, Result, ◌>>=◌, pure}
use wildfly_operator.World.Rules.{Runs, Anything, Runs-pure, Runs-bind, Runs-if}
use wildfly_operator.Mgmt.{MgmtError}
use wildfly_operator.Mgmt.Total.{mgmt_total}
use wildfly_operator.Resources.Total.{patch-Runs, delete-Runs}
use wildfly_operator.Recovery.Types.{RecoveryError, requeue_off, requeue_later, requeue_now}
use wildfly_operator.Recovery.Setup.{
  Prepared, prepared, saved_setup, after_restart, restart, after_properties, set_properties,
  after_running, set_up_recovery,
}

-- Only the annotations of the pod change, and an error asks for a later round.
pub record IsSetupOf (p : Pod) (r : Prepared) : Type 0 where
  pub annotations : StringMap
  pub same_pod : r.pod_after ≡ record p { annotations = annotations }
  pub error_requeues : (is_none r.error ≡ true) ⊎ (requeue_later ≤ r.must_reconcile)

prepared-IsSetupOf :
    (n : ℕ) (e : Option RecoveryError) (p : Pod) (a : StringMap)
    → (is_none e ≡ true) ⊎ (requeue_later ≤ n)
    → IsSetupOf p (prepared n e (record p { annotations = a }))
prepared-IsSetupOf n e p a h = record { annotations = a; same_pod = refl; error_requeues = h }

module _ (p : Pod) where
  fails-Runs :
      (n : ℕ) (e : Option RecoveryError)
      → requeue_later ≤ n
      → Runs (IsSetupOf p) (pure (prepared n e p))
  fails-Runs n e h = Runs-pure (IsSetupOf p) _ (prepared-IsSetupOf n e p p.annotations (inr h))

  then_setup :
      {A : Type 0} (m : M A) (k : A → M Prepared)
      → Runs Anything m
      → ((a : A) → Runs (IsSetupOf p) (k a))
      → Runs (IsSetupOf p) (m >>= k)
  then_setup m k total all = Runs-bind Anything (IsSetupOf p) k m total (λ a x. all a)

  if_setup :
      (b : Bool) (m n : M Prepared)
      → Runs (IsSetupOf p) m
      → Runs (IsSetupOf p) n
      → Runs (IsSetupOf p) (if b then m else n)
  if_setup b m n km kn = Runs-if (IsSetupOf p) b m n (λ e. km) (λ e. kn)

later-Runs :
    (p : Pod) (e : Option RecoveryError) → Runs (IsSetupOf p) (pure (prepared requeue_later e p))
later-Runs p e = fails-Runs p requeue_later e (omega arith)

now-Runs :
    (p : Pod) (e : Option RecoveryError) → Runs (IsSetupOf p) (pure (prepared requeue_now e p))
now-Runs p e = fails-Runs p requeue_now e (omega arith)

ready-Runs : (p : Pod) → Runs (IsSetupOf p) (pure (prepared requeue_off none p))
ready-Runs p =
    Runs-pure (IsSetupOf p) _ (prepared-IsSetupOf requeue_off none p p.annotations (inl refl))

ruleset setup_rules = (mgmt_total, later-Runs, now-Runs, ready-Runs, then_setup, if_setup)

saved_setup-Runs :
    (p : Pod) (a : StringMap) (e : Option ApiError)
    → Runs (IsSetupOf p) (pure (saved_setup (record p { annotations = a }) e))
saved_setup-Runs p a (some e) =
    Runs-pure (IsSetupOf p) _ (prepared-IsSetupOf requeue_now _ p a (inr (omega arith)))
saved_setup-Runs p a none =
    Runs-pure (IsSetupOf p) _ (prepared-IsSetupOf requeue_off none p a (inl refl))

module _ (w : WildFlyServer) (p : Pod) where
  after_restart-Runs : (e : Option MgmtError) → Runs (IsSetupOf p) (after_restart w p e)
  unfolding after_restart
  after_restart-Runs (some e) = search (setup_rules, delete-Runs)
  after_restart-Runs none = then_setup p _ _ (patch-Runs w _) (saved_setup-Runs p _)

  restart-Runs : Runs (IsSetupOf p) (restart w p)
  unfolding restart
  restart-Runs = search (setup_rules, after_restart-Runs)

  after_properties-Runs :
      (r : Result MgmtError Fields) → Runs (IsSetupOf p) (after_properties w p r)
  unfolding after_properties
  after_properties-Runs r = search (setup_rules, restart-Runs)

  set_properties-Runs : Runs (IsSetupOf p) (set_properties w p)
  unfolding set_properties
  set_properties-Runs = search (setup_rules, after_properties-Runs)

  after_running-Runs : (e : Option MgmtError) → Runs (IsSetupOf p) (after_running w p e)
  unfolding after_running
  after_running-Runs (some e) = search setup_rules
  after_running-Runs none = search (setup_rules, set_properties-Runs)

  -- The set-up always ends, whatever the environment answers: of the pod only the annotations
  -- differ, an error comes with a request for another round, and the history grows.
  pub set_up_recovery-Runs : Runs (IsSetupOf p) (set_up_recovery w p)
  unfolding set_up_recovery
  set_up_recovery-Runs = search (setup_rules, after_running-Runs)

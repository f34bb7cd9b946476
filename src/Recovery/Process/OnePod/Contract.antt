-- ===== src/Recovery/Process/OnePod/Contract.antt =====
-- What the goroutine of one pod in processTransactionRecoveryScaleDown of
-- controllers/transaction_recovery.go does to the pod's status.
use wildfly_operator.Prelude.{
  ℕ, ◌≡◌, refl, ap, sym, ◌⊎◌, inl, inr, true, false, Option, none, some, not, is_none, ◌==◌,
}
use wildfly_operator.Prelude.Int.{pos, ◌+ℤ◌, int32}
use wildfly_operator.Kube.{Pod}
use wildfly_operator.Api.{
  PodState, active, recovery_investigation, recovery_processing, recovery_heuristic,
  scaling_down_clean, is_clean, PodStatus, WildFlyServer,
}
use wildfly_operator.World.{M, ◌>>=◌, pure}
use wildfly_operator.World.Rules.{Runs, Anything, Runs-pure, Runs-bind, Runs-if, Runs-record_event}
use wildfly_operator.Recovery.Types.{
  CheckResult, clean, recovery, heuristic, generic_error, RecoveryError, requeue_off,
}
use wildfly_operator.Recovery.Statuses.{with_state}
use wildfly_operator.Recovery.Setup.Contract.{IsSetupOf, set_up_recovery-Runs}
use wildfly_operator.Recovery.Check.Contract.{IsCheckOf, check_recovery-Runs}
use wildfly_operator.Recovery.Process.OnePod.{
  PodDone, pod_done, apply_outcome, second_check, after_first, check_twice, after_setup,
  recover_pod, is_heuristic,
}

-- The status stays; or its state becomes clean or heuristic, with nothing else changed; or it is one of
-- a pod that recovers, with one more on its counter, which is an int32 that wraps around.
pub data IsStepOf (s : PodStatus) : PodStatus → Type 0 where
  keeps_status : IsStepOf s s
  becomes_clean : is_clean s.state ≡ false → IsStepOf s (record s { state = scaling_down_clean })
  becomes_heuristic :
      is_clean s.state ≡ false → IsStepOf s (record s { state = recovery_heuristic })
  recovers :
      is_clean s.state ≡ false
      → IsStepOf s (record {
        name = s.name;
        pod_ip = s.pod_ip;
        state = recovery_processing;
        recovery_counter = int32 (s.recovery_counter +ℤ pos 1);
      })

-- The step, where the flag is false the status is the old one, and with an error nothing changed.
pub record IsDoneOf (s : PodStatus) (d : PodDone) : Type 0 where
  pub step : IsStepOf s d.status
  pub flag : (d.changed ≡ true) ⊎ (d.status ≡ s)
  pub error_keeps : (is_none d.error ≡ true) ⊎ (d.status ≡ s)

kept-IsDoneOf :
    (n : ℕ) (e : Option RecoveryError) (s : PodStatus) → IsDoneOf s (pod_done n e s false)
kept-IsDoneOf n e s = record { step = keeps_status; flag = inr refl; error_keeps = inr refl }

kept-Runs :
    (n : ℕ) (e : Option RecoveryError) (s : PodStatus)
    → Runs (IsDoneOf s) (pure (pod_done n e s false))
kept-Runs n e s = Runs-pure (IsDoneOf s) _ (kept-IsDoneOf n e s)

then_done :
    {A : Type 0} (s : PodStatus) (m : M A) (k : A → M PodDone)
    → Runs Anything m
    → ((a : A) → Runs (IsDoneOf s) (k a))
    → Runs (IsDoneOf s) (m >>= k)
then_done s m k total all = Runs-bind Anything (IsDoneOf s) k m total (λ a x. all a)

heuristic_flag :
    (s : PodStatus) → (not (is_heuristic s.state) ≡ true) ⊎ (with_state s recovery_heuristic ≡ s)
heuristic_flag s = go s.state refl
  where
    go :
        (t : PodState)
        → s.state ≡ t
        → (not (is_heuristic s.state) ≡ true) ⊎ (with_state s recovery_heuristic ≡ s)
    go recovery_heuristic e = inr (ap (with_state s) (sym e))
    go active e = inl (ap (λ t. not (is_heuristic t)) e)
    go recovery_investigation e = inl (ap (λ t. not (is_heuristic t)) e)
    go recovery_processing e = inl (ap (λ t. not (is_heuristic t)) e)
    go scaling_down_clean e = inl (ap (λ t. not (is_heuristic t)) e)

module _ (s : PodStatus) (dirty : is_clean s.state ≡ false) where
  apply_outcome-Runs : (c : CheckResult) → Runs (IsDoneOf s) (apply_outcome c s)
  unfolding apply_outcome
  apply_outcome-Runs clean =
      Runs-pure (IsDoneOf s) _
        (record { step = becomes_clean dirty; flag = inl (ap not dirty); error_keeps = inl refl })
  apply_outcome-Runs recovery =
      Runs-pure (IsDoneOf s) _
        (record { step = recovers dirty; flag = inl refl; error_keeps = inl refl })
  apply_outcome-Runs heuristic = then_done s _ _ (Runs-record_event _) λ u.
      Runs-pure (IsDoneOf s)
        (pod_done requeue_off none (with_state s recovery_heuristic) (not (is_heuristic s.state)))
        (record { step = becomes_heuristic dirty; flag = heuristic_flag s; error_keeps = inl refl })
  apply_outcome-Runs generic_error = kept-Runs _ _ s

  second_check-Runs :
      (e : Option RecoveryError) (c : CheckResult) → Runs (IsDoneOf s) (second_check s e c)
  second_check-Runs (some e) c = kept-Runs _ _ s
  second_check-Runs none c = apply_outcome-Runs c

  after_first-Runs :
      (w : WildFlyServer) (e : Option RecoveryError) (p : Pod)
      → Runs (IsDoneOf s) (after_first w s e p)
  unfolding after_first
  after_first-Runs w (some e) p = kept-Runs _ _ s
  after_first-Runs w none p =
      Runs-bind (IsCheckOf p) (IsDoneOf s) _ _ (check_recovery-Runs w p)
        (λ c x. second_check-Runs c.error c.outcome)

  check_twice-Runs : (w : WildFlyServer) (p : Pod) → Runs (IsDoneOf s) (check_twice w p s)
  unfolding check_twice
  check_twice-Runs w p =
      Runs-bind (IsCheckOf p) (IsDoneOf s) _ _ (check_recovery-Runs w p)
        (λ c x. after_first-Runs w c.error c.pod_after)

  after_setup-Runs :
      (w : WildFlyServer) (n : ℕ) (e : Option RecoveryError) (p : Pod)
      → Runs (IsDoneOf s) (after_setup w s n e p)
  unfolding after_setup
  after_setup-Runs w n (some e) p = kept-Runs _ _ s
  after_setup-Runs w n none p =
      Runs-if (IsDoneOf s) (n == requeue_off) _ _ (λ x. check_twice-Runs w p) (λ x. kept-Runs _ _ s)

module _ (w : WildFlyServer) (p : Pod) (s : PodStatus) where
  -- The goroutine always ends, whatever the environment answers. It makes at most one step of the
  -- pod's status, none for a pod that is clean or where it ends with an error; where it does not ask
  -- for the status to be saved, the status is the old one; the history grows.
  pub recover_pod-Runs : Runs (IsDoneOf s) (recover_pod w p s)
  unfolding recover_pod
  recover_pod-Runs =
      Runs-if (IsDoneOf s) (is_clean s.state) _ _ (λ x. kept-Runs _ _ s)
        λ dirty.
          Runs-bind (IsSetupOf p) (IsDoneOf s) _ _ (set_up_recovery-Runs w p)
            (λ r x. after_setup-Runs s dirty w r.must_reconcile r.error r.pod_after)

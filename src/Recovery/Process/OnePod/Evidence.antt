-- ===== src/Recovery/Process/OnePod/Evidence.antt =====
-- When processTransactionRecoveryScaleDown of controllers/transaction_recovery.go makes a pod clean.
use wildfly_operator.Prelude.{
  ℕ, ◌≡◌, refl, ◌∙◌, subst, Bool-cases, true, false, Option, none, some, inl, inr, ◌==◌, sym,
  true_is_false,
}
use wildfly_operator.Kube.{Pod}
use wildfly_operator.Api.{PodStatus, WildFlyServer, is_clean}
use wildfly_operator.World.{Env, History, Outcome, done, panic, continue}
use wildfly_operator.World.Rules.{Ends}
use wildfly_operator.Recovery.Types.{
  CheckResult, clean, recovery, heuristic, generic_error, RecoveryError, requeue_off,
}
use wildfly_operator.Recovery.Setup.{Prepared, set_up_recovery}
use wildfly_operator.Recovery.Setup.Contract.{IsSetupOf, set_up_recovery-Runs}
use wildfly_operator.Recovery.Check.{Checked, check_recovery}
use wildfly_operator.Recovery.Check.Evidence.{SaysClean, Evidence}
use wildfly_operator.Recovery.Check.Clean.{Evidence-annotated, check_recovery-clean}
use wildfly_operator.Recovery.Check.Contract.{IsCheckOf, check_recovery-Runs}
use wildfly_operator.Recovery.Process.OnePod.{
  PodDone, apply_outcome, second_check, after_first, check_twice, after_setup, recover_pod,
}

-- The goroutine went through and left the status clean.
abbrev pub LeavesClean : Outcome PodDone × History → Type 0
LeavesClean (done d, h) = is_clean d.status.state ≡ true
LeavesClean (panic, h) = ⊥

module _ (env : Env) (s : PodStatus) (dirty : is_clean s.state ≡ false) where
  -- Of the outcomes only `clean` leaves the status clean, and it writes nothing.
  outcome-clean :
      (c : CheckResult) (e : Option RecoveryError) (h : History)
      → LeavesClean (second_check s e c env h)
      → (c ≡ clean) × ((second_check s e c env h).1 ≡ h)
  unfolding apply_outcome
  outcome-clean c (some e) h x = absurd cc
  outcome-clean clean none h x = (refl, refl)
  outcome-clean recovery none h x = absurd cc
  outcome-clean heuristic none h x = absurd cc
  outcome-clean generic_error none h x = absurd cc

  -- The second check, where the first one had no error.
  second-clean :
      (p : Pod) (r : Outcome Checked) (h : History)
      → (SaysClean (r, h) → Evidence env p h)
      → LeavesClean (continue r (λ c. second_check s c.error c.outcome) env h)
      → Evidence env p (continue r (λ c. second_check s c.error c.outcome) env h).1
  second-clean p (done c) h found x =
      let (e, same) = outcome-clean c.outcome c.error h x in rw same (found e)
  second-clean p panic h found x = absurd x

  after_first-clean :
      (w : WildFlyServer) (p : Pod) (e : Option RecoveryError) (h : History)
      → LeavesClean (after_first w s e p env h)
      → Evidence env p (after_first w s e p env h).1
  unfolding after_first
  after_first-clean w p (some e) h x = absurd cc
  after_first-clean w p none h x =
      let (r, h') = check_recovery w p env h in
      second-clean p r h' (check_recovery-clean env w p h) x

  first-clean :
      (w : WildFlyServer) (p : Pod) (r : Outcome Checked) (h h' : History)
      → Ends env (IsCheckOf p) h (r, h')
      → LeavesClean (continue r (λ c. after_first w s c.error c.pod_after) env h')
      → Evidence env p (continue r (λ c. after_first w s c.error c.pod_after) env h').1
  first-clean w p (done c) h h' (k, more) x =
      let at_pod : Evidence env (record p { annotations = k.annotations })
          (after_first w s c.error c.pod_after env h').1 =
        subst (λ q. Evidence env q (after_first w s c.error c.pod_after env h').1) k.same_pod
          (after_first-clean w c.pod_after c.error h' x) in
      Evidence-annotated env p k.annotations at_pod
  first-clean w p panic h h' k x = absurd x

  check_twice-clean :
      (w : WildFlyServer) (p : Pod) (h : History)
      → LeavesClean (check_twice w p s env h)
      → Evidence env p (check_twice w p s env h).1
  unfolding check_twice
  check_twice-clean w p h x =
      let (r, h') = check_recovery w p env h in
      first-clean w p r h h' ((check_recovery-Runs w p).at env h) x

  after_setup-clean :
      (w : WildFlyServer) (p : Pod) (n : ℕ) (e : Option RecoveryError) (h : History)
      → LeavesClean (after_setup w s n e p env h)
      → Evidence env p (after_setup w s n e p env h).1
  unfolding after_setup
  after_setup-clean w p n (some e) h x = absurd cc
  after_setup-clean w p n none h x = elim (Bool-cases (n == requeue_off)) [
    | inl ready ↦ rw ready (check_twice-clean w p h (rw ready at x))
    | inr waits ↦ true_is_false (sym (rw waits at x) ∙ dirty)
  ]

  set_up-clean :
      (w : WildFlyServer) (p : Pod) (r : Outcome Prepared) (h h' : History)
      → Ends env (IsSetupOf p) h (r, h')
      → LeavesClean (continue r (λ q. after_setup w s q.must_reconcile q.error q.pod_after) env h')
      → Evidence env p
          (continue r (λ q. after_setup w s q.must_reconcile q.error q.pod_after) env h').1
  set_up-clean w p (done q) h h' (k, more) x = Evidence-annotated env p k.annotations (
      subst
        (λ pod. Evidence env pod (after_setup w s q.must_reconcile q.error q.pod_after env h').1)
        k.same_pod (after_setup-clean w q.pod_after q.must_reconcile q.error h' x))
  set_up-clean w p panic h h' k x = absurd x

  -- A pod that is not clean leaves its goroutine clean only where the last requests are the evidence
  -- of a check of that pod, whatever the environment answers.
  pub recover_pod-clean :
      (w : WildFlyServer) (p : Pod) (h : History)
      → LeavesClean (recover_pod w p s env h)
      → Evidence env p (recover_pod w p s env h).1
  unfolding recover_pod
  recover_pod-clean w p h x =
      let (r, h') = set_up_recovery w p env h in
      rw dirty (set_up-clean w p r h h' ((set_up_recovery-Runs w p).at env h) (rw dirty at x))

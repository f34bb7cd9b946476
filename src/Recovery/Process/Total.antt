-- ===== src/Recovery/Process/Total.antt =====
-- processTransactionRecoveryScaleDown of controllers/transaction_recovery.go comes to an end: which
-- pods have to have a status for it.
use mathlib.Core.List.{reverse}
use wildfly_operator.Prelude.{
  ℕ, zero, suc, ◌≤◌, ◌≡◌, refl, not, ◌==◌, true_is_false, sym, subst, ◌∙◌, Bool, true, false,
  Option, none, some, List, [], ◌∷◌, String, length, length-reverse, All-reverse, All-weaken,
}
use wildfly_operator.Prelude.Int.{ℤ, pos, pos_part, int32, eqb_ℤ}
use wildfly_operator.Kube.{Pod, ApiError}
use wildfly_operator.Api.{PodStatus, WildFlyServer}
use wildfly_operator.World.{Result, ok, err}
use wildfly_operator.World.Rules.{
  Runs, Anything, Runs-pure, Runs-bind, Runs-if, Runs-weaken, total_rules,
}
use wildfly_operator.Mgmt.{MgmtError}
use wildfly_operator.Mgmt.Total.{mgmt_total, list_subsystems-Runs}
use wildfly_operator.Resources.Total.{update_status-Runs}
use wildfly_operator.Recovery.Statuses.{with_pods}
use wildfly_operator.Recovery.Statuses.Known.{Known-some, find_status-name, put_status-Known}
use wildfly_operator.Recovery.Process.{
  running_pods, Round, add_done, recover_pods, record_errors, round_error, after_save, finish,
  first_round, run_round, after_first_save, investigate, recover_running, recover_last, after_jdbc,
  after_subsystems, process_pods, process_recovery, is_jdbc_log_store_in_use, contains_in_list,
  is_ephemeral,
}
use wildfly_operator.Recovery.Process.Frame.{
  status_names, put_status-names, start_investigation-names, mark_clean-names, IsFramed,
  pure-IsFramed, IsFramed-states, Runs-states, after_save-IsFramed,
}
use wildfly_operator.Recovery.Types.{requeue_off}
use wildfly_operator.Recovery.Process.Skip.{processed, skip_recovery, save_skipped, scaling_down}
use wildfly_operator.Recovery.Process.OnePod.Contract.{IsDoneOf, recover_pod-Runs}
use wildfly_operator.Recovery.Process.Loops.{
  AllKnown, running-All, last_pods-All, mark_clean-total, start-total, IsStepOf-name,
}

-- The statuses of a round have the names of these.
abbrev HasNames : List PodStatus → Round → Type 0
HasNames ss r = status_names r.statuses ≡ status_names ss

module _ (w : WildFlyServer) where
  -- Where each pod has a status, the goroutines end, and the statuses keep their names.
  recover_pods-HasNames :
      (pods : List Pod) (r : Round)
      → AllKnown r.statuses pods
      → Runs (HasNames r.statuses) (recover_pods w pods r)
  unfolding recover_pods
  recover_pods-HasNames [] r a = Runs-pure (HasNames r.statuses) r refl
  recover_pods-HasNames (p ∷ pods) r (k, a) =
      let (s, e) = Known-some p.name r.statuses k in
      rw (e, recover_pods)
        (Runs-bind (IsDoneOf s) (HasNames r.statuses) _ _ (recover_pod-Runs w p s) λ d x.
          let named = IsStepOf-name x.step ∙ find_status-name p.name r.statuses e in
          let r' = add_done p.name d r in
          Runs-weaken (HasNames r'.statuses) (HasNames r.statuses) (recover_pods w pods r')
            (λ r'' same. same ∙ put_status-names p.name d.status r.statuses named)
            (recover_pods-HasNames pods r'
              (All-weaken (λ q. put_status-Known p.name q.name d.status r.statuses named) pods a)))

  pub recover_pods-Runs :
      (pods : List Pod) (r : Round)
      → AllKnown r.statuses pods
      → Runs Anything (recover_pods w pods r)
  recover_pods-Runs pods r a =
      Runs-weaken (HasNames r.statuses) Anything (recover_pods w pods r) (λ r' same. tt)
        (recover_pods-HasNames pods r a)

pub record_errors-Runs : (n : ℕ) → Runs Anything (record_errors n)
record_errors-Runs zero = search total_rules
record_errors-Runs (suc n) = search total_rules

module _ (w : WildFlyServer) (n : ℤ) where
  finish-Runs : (r : Round) → HasNames w.status.pods r → Runs (IsFramed w) (finish w n r)
  unfolding finish
  finish-Runs r same =
      let w' = scaling_down (with_pods w r.statuses) n in
      Runs-if (IsFramed w) r.changed _ _
        (λ saves. Runs-bind Anything (IsFramed w) _ _ (update_status-Runs w') λ e x.
          Runs-pure (IsFramed w) (after_save r.must_reconcile (round_error r.errors) w' e) (
            IsFramed-states w r.statuses (int32 n)
              (after_save r.must_reconcile (round_error r.errors) w' e) same
              (after_save-IsFramed w' _ _ e)))
        (λ keeps.
          Runs-pure (IsFramed w)
            (processed r.must_reconcile (round_error r.errors) (with_pods w r.statuses))
            (r.statuses, w.status.scalingdown_pods, refl, same))

  save_skipped-Runs : Runs (IsFramed w) (save_skipped w)
  unfolding save_skipped
  save_skipped-Runs =
      Runs-bind Anything (IsFramed w) _ _ (update_status-Runs w)
        (λ e x. pure-IsFramed w requeue_off none)

run_round-Runs :
    (w : WildFlyServer) (n : ℤ) (pods : List Pod)
    → AllKnown w.status.pods pods
    → Runs (IsFramed w) (run_round w n pods)
unfolding run_round
run_round-Runs w n pods a =
    Runs-bind (HasNames w.status.pods) (IsFramed w) _ _
      (recover_pods-HasNames w pods (first_round w.status.pods) a)
      λ r same.
        Runs-bind Anything (IsFramed w) _ _ (record_errors-Runs r.errors)
          (λ u x. finish-Runs w n r same)

after_first_save-Runs :
    (w : WildFlyServer) (n : ℤ) (pods : List Pod) (e : Option ApiError)
    → AllKnown w.status.pods pods
    → Runs (IsFramed w) (after_first_save w n pods e)
unfolding after_first_save
after_first_save-Runs w n pods (some e) a = pure-IsFramed w _ _
after_first_save-Runs w n pods none a = run_round-Runs w n pods a

investigate-Runs :
    (w : WildFlyServer) (n : ℤ) (pods : List Pod) (r : List PodStatus × Bool)
    → AllKnown r.0 pods
    → status_names r.0 ≡ status_names w.status.pods
    → Runs (IsFramed w) (investigate w n pods (some r))
unfolding investigate
investigate-Runs w n pods (ss, b) a same =
    Runs-if (IsFramed w) b _ _
      (λ saves.
        let w' = scaling_down (with_pods w ss) n in
        Runs-bind Anything (IsFramed w) _ _ (update_status-Runs w') (λ e x.
          Runs-states w ss (int32 n) (after_first_save w' n pods e) same
            (after_first_save-Runs w' n pods e a)))
      (λ keeps.
        Runs-states w ss w.status.scalingdown_pods (run_round (with_pods w ss) n pods) same
          (run_round-Runs (with_pods w ss) n pods a))

recover_running-Runs :
    (w : WildFlyServer) (n : ℤ) (pods : List Pod)
    → AllKnown w.status.pods pods
    → Runs (IsFramed w) (recover_running w n pods)
unfolding recover_running
recover_running-Runs w n [] a = pure-IsFramed w _ _
recover_running-Runs w n (p ∷ pods) a =
    let (r, e, keeps) = start-total (p ∷ pods) w.status.pods false a in
    let same = start_investigation-names (p ∷ pods) w.status.pods false r e in
    rw e (investigate-Runs w n (p ∷ pods) r (All-weaken (λ q. keeps q.name) (p ∷ pods) a) same)

module _ (w : WildFlyServer) (n : ℤ) (pods : List Pod) (enough : pos_part n ≤ length pods) where
  pub enough_reversed : pos_part n ≤ length (reverse pods)
  enough_reversed = subst (λ k. pos_part n ≤ k) (sym (length-reverse pods)) enough

  skip_recovery-Runs : Runs (IsFramed w) (skip_recovery w n pods)
  unfolding skip_recovery
  skip_recovery-Runs =
      let (ts, e) = mark_clean-total (pos_part n) (reverse pods) w.status.pods enough_reversed in
      let w' = scaling_down (with_pods w ts) n in
      let same = mark_clean-names (pos_part n) (reverse pods) w.status.pods ts e in
      rw (e, skip_recovery)
        (Runs-states w ts (int32 n) (save_skipped w') same (save_skipped-Runs w' n))

module _ (w : WildFlyServer) (n : ℤ) (pods : List Pod) (enough : pos_part n ≤ length pods)
    (known : AllKnown w.status.pods pods) where
  recover_last-Runs : Runs (IsFramed w) (recover_last w n pods)
  unfolding recover_last
  recover_last-Runs =
      let (chosen, e, all) =
        last_pods-All _ (pos_part n) (reverse pods) (enough_reversed w n pods enough)
          (All-reverse _ pods known) in
      rw (e, recover_last)
        (recover_running-Runs w n (running_pods chosen) (running-All _ chosen all))

  after_jdbc-Runs : (b : Option Bool) → Runs (IsFramed w) (after_jdbc w n pods b)
  unfolding after_jdbc
  after_jdbc-Runs none = pure-IsFramed w _ _
  after_jdbc-Runs (some true) = recover_last-Runs
  after_jdbc-Runs (some false) = skip_recovery-Runs w n pods enough

  jdbc-Runs : (p : Pod) → Runs Anything (is_jdbc_log_store_in_use p)
  unfolding is_jdbc_log_store_in_use
  jdbc-Runs p = search mgmt_total

  after_subsystems-Runs :
      (p : Pod) (r : Result MgmtError (List String))
      → Runs (IsFramed w) (after_subsystems w n pods p r)
  unfolding after_subsystems
  after_subsystems-Runs p (err e) = pure-IsFramed w _ _
  after_subsystems-Runs p (ok names) =
      Runs-if (IsFramed w) (contains_in_list names "transactions") _ _
        (λ there.
          Runs-if (IsFramed w) (is_ephemeral w.spec.storage) _ _
            (λ lost. Runs-bind Anything (IsFramed w) _ _ (jdbc-Runs p) (λ b x. after_jdbc-Runs b))
            (λ kept. recover_last-Runs))
        (λ no_such. skip_recovery-Runs w n pods enough)

-- Unless the recovery waits for the statuses to be as many as the pods, each pod has one.
abbrev pub KnownIfAsMany : WildFlyServer → List Pod → Type 0
KnownIfAsMany w pods = (length w.status.pods == length pods) ≡ true → AllKnown w.status.pods pods

pub as_many : (b : Bool) → not b ≡ false → b ≡ true
as_many true h = refl
as_many false h = true_is_false h

process_pods-Runs :
    (w : WildFlyServer) (n : ℤ) (pods : List Pod) (p : Pod)
    → pos_part n ≤ length pods
    → KnownIfAsMany w pods
    → Runs (IsFramed w) (process_pods w n pods p)
unfolding process_pods
process_pods-Runs w n pods p enough known =
    let skips = skip_recovery-Runs w n pods enough in
    Runs-if (IsFramed w) (not (length w.status.pods == length pods)) _ _
      (λ differs. pure-IsFramed w _ _)
      λ same.
        Runs-if (IsFramed w) w.spec.bootable_jar _ _ (λ jar. skips)
          λ no_jar.
            Runs-if (IsFramed w) w.spec.deactivate_transaction_recovery _ _ (λ off. skips)
              λ on.
                Runs-bind Anything (IsFramed w) _ _ (list_subsystems-Runs p)
                  (λ r x. after_subsystems-Runs w n pods enough (known (as_many _ same)) p r)

-- The recovery always ends, whatever the environment answers, where no more pods are to be removed than
-- there are, and each pod has a status if the statuses are as many as the pods; of the server it changes
-- only the statuses of the pods, of which it keeps the names, and the number of those that scale down.
pub process_recovery-IsFramed :
    (w : WildFlyServer) (n : ℤ) (pods : List Pod)
    → pos_part n ≤ length pods
    → KnownIfAsMany w pods
    → Runs (IsFramed w) (process_recovery w n pods)
unfolding process_recovery
process_recovery-IsFramed w n [] enough known = pure-IsFramed w _ _
process_recovery-IsFramed w n (p ∷ pods) enough known =
    Runs-if (IsFramed w) (eqb_ℤ n (pos 0)) _ _ (λ none_to_remove. pure-IsFramed w _ _)
      (λ some_to_remove. process_pods-Runs w n (p ∷ pods) p enough known)

pub process_recovery-Runs :
    (w : WildFlyServer) (n : ℤ) (pods : List Pod)
    → pos_part n ≤ length pods
    → KnownIfAsMany w pods
    → Runs Anything (process_recovery w n pods)
process_recovery-Runs w n pods enough known =
    Runs-weaken (IsFramed w) Anything (process_recovery w n pods) (λ q framed. tt)
      (process_recovery-IsFramed w n pods enough known)

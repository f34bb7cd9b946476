-- ===== src/Recovery/Process/Grounds/Rounds.antt =====
-- The part of processTransactionRecoveryScaleDown in controllers/transaction_recovery.go that recovers
-- the chosen pods.
use mathlib.Core.List.{reverse}
use wildfly_operator.Prelude.{
  ℕ, ◌≤◌, ◌≡◌, refl, subst, inl, inr, Bool, Option, none, some, List, [], ◌∷◌, String, true, false,
  length, Any-weaken, All-weaken, All-reverse,
}
use wildfly_operator.Prelude.Int.{ℤ, pos_part}
use wildfly_operator.Kube.{ApiError, Pod}
use wildfly_operator.Api.{PodStatus, WildFlyServer}
use wildfly_operator.World.{Env, History, Outcome, done, panic, continue, ◌>>◌}
use wildfly_operator.World.Rules.{
  Extends, Extends-trans, Ends, Runs, Anything, Runs-pure, Runs-bind, Runs-if,
}
use wildfly_operator.Resources
use wildfly_operator.Recovery.Statuses.{with_pods}
use wildfly_operator.Recovery.Process.{
  Round, running_pods, recover_pods, record_errors, finish, first_round, run_round,
  after_first_save, investigate, recover_running, recover_last, after_save, round_error,
}
use wildfly_operator.Recovery.Process.Skip.{Processed, scaling_down}
use wildfly_operator.Recovery.Process.Loops.{AllKnown, running-All, last_pods-All, start-total}
use wildfly_operator.Resources.Total.{update_status-Runs}
use wildfly_operator.Recovery.Process.Total.{record_errors-Runs}
use wildfly_operator.Recovery.Process.CleanOnes.{IsCleanIn, IsProved, recover_pods-clean}
use wildfly_operator.Recovery.Process.Grounds.{Accounted}
use wildfly_operator.Recovery.Process.Grounds.Chosen.{Any-chosen, start_investigation-clean}

-- The server that is handed on has these statuses.
abbrev HasStatuses : List PodStatus → Processed → Type 0
HasStatuses ss q = q.server.status.pods ≡ ss

saved-HasStatuses :
    (n : ℕ) (k : ℕ) (w : WildFlyServer) (a : Option ApiError)
    → HasStatuses w.status.pods (after_save n (round_error k) w a)
saved-HasStatuses n k w none = refl
saved-HasStatuses n k w (some e) = refl

finish-Runs : (w : WildFlyServer) (n : ℤ) (r : Round) → Runs (HasStatuses r.statuses) (finish w n r)
unfolding finish
finish-Runs w n r =
    Runs-if (HasStatuses r.statuses) r.changed _ _
      (λ e. Runs-bind Anything (HasStatuses r.statuses) _ _ (update_status-Runs _) λ a x.
        Runs-pure (HasStatuses r.statuses) _
          (saved-HasStatuses r.must_reconcile r.errors (scaling_down (with_pods w r.statuses) n) a))
      (λ e. Runs-pure (HasStatuses r.statuses) _ refl)

recorded-Runs :
    (w : WildFlyServer) (n : ℤ) (r : Round)
    → Runs (HasStatuses r.statuses) (do record_errors r.errors; finish w n r)
recorded-Runs w n r =
    Runs-bind Anything (HasStatuses r.statuses) _ _ (record_errors-Runs r.errors)
      λ a x. finish-Runs w n r

module _ (env : Env) (name : String) (G : History → Type 0) where
  Ends-Accounted :
      (ss : List PodStatus) (h : History) (x : Outcome Processed × History)
      → Ends env (HasStatuses ss) h x
      → ((h' : History) → Extends env h h' → IsCleanIn ss name → G h')
      → Accounted name G x
  Ends-Accounted ss h (done q, h') (is, grows) all =
      λ c. all h' grows (subst (λ (ts : List PodStatus). IsCleanIn ts name) is c)
  Ends-Accounted ss h (panic, h') e all = absurd e

  -- The grounds of a round on chosen pods: a status that was clean, or evidence for one of them.
  module _ (ps : List Pod) (w : WildFlyServer) (n : ℤ)
      (was : IsCleanIn w.status.pods name → (h : History) → G h)
      (proved : (h : History) → IsProved env ps name h → G h) where
    later : (h h' : History) → Extends env h h' → IsProved env ps name h → IsProved env ps name h'
    later h h' grows =
        Any-weaken
          (λ (p : Pod) x.
            let (h1, evidence, more) = x.1 in (x.0, (h1, evidence, Extends-trans env more grows)))
          ps

    after_pods :
        (o : Outcome Round) (h h1 : History)
        → AllKnown w.status.pods ps
        → recover_pods w ps (first_round w.status.pods) env h ≡ (o, h1)
        → Accounted name G (continue o (λ r. do record_errors r.errors; finish w n r) env h1)
    after_pods panic h h1 known e = tt
    after_pods (done r) h h1 known e =
        Ends-Accounted r.statuses h1 _ ((recorded-Runs w n r).at env h1) λ h' grows c.
          elim (recover_pods-clean env w ps (first_round w.status.pods) r h h1 name known e c) [
            | inl old ↦ was old h'
            | inr new ↦ proved h' (later h1 h' grows new)
          ]

    run_round-Accounted :
        (h : History) → AllKnown w.status.pods ps → Accounted name G (run_round w n ps env h)
    unfolding run_round
    run_round-Accounted h known =
        let (o, h1) = recover_pods w ps (first_round w.status.pods) env h in
        after_pods o h h1 known refl

    after_first_save-Accounted :
        (e : Option ApiError) (h : History)
        → AllKnown w.status.pods ps
        → Accounted name G (after_first_save w n ps e env h)
    unfolding after_first_save
    after_first_save-Accounted (some e) h known = λ c. was c h
    after_first_save-Accounted none h known = run_round-Accounted h known

  module _ (ps : List Pod) (w : WildFlyServer) (n : ℤ)
      (was : IsCleanIn w.status.pods name → (h : History) → G h)
      (proved : (h : History) → IsProved env ps name h → G h) where
    investigate-Accounted :
        (ss : List PodStatus) (changed : Bool) (h : History)
        → AllKnown ss ps
        → (IsCleanIn ss name → IsCleanIn w.status.pods name)
        → Accounted name G (investigate w n ps (some (ss, changed)) env h)
    unfolding investigate Resources.update_status
    investigate-Accounted ss true h known back =
        after_first_save-Accounted ps (scaling_down (with_pods w ss) n) n (λ c. was (back c)) proved
          _ _ known
    investigate-Accounted ss false h known back =
        run_round-Accounted ps (with_pods w ss) n (λ c. was (back c)) proved h known

  recover_running-Accounted :
      (ps : List Pod) (w : WildFlyServer) (n : ℤ)
      → (IsCleanIn w.status.pods name → (h : History) → G h)
      → ((h : History) → IsProved env ps name h → G h)
      → (h : History) → AllKnown w.status.pods ps
      → Accounted name G (recover_running w n ps env h)
  unfolding recover_running
  recover_running-Accounted [] w n was proved h known = λ c. was c h
  recover_running-Accounted (p ∷ ps) w n was proved h known =
      let (r, e, keeps) = start-total (p ∷ ps) w.status.pods false known in
      rw e (
        investigate-Accounted (p ∷ ps) w n was proved r.0 r.1 h
          (All-weaken (λ q. keeps q.name) (p ∷ ps) known)
          (start_investigation-clean name (p ∷ ps) w.status.pods false e))

  pub recover_last-Accounted :
      (pods : List Pod) (w : WildFlyServer) (n : ℤ)
      → pos_part n ≤ length (reverse pods)
      → (IsCleanIn w.status.pods name → (h : History) → G h)
      → ((h : History) → IsProved env pods name h → G h)
      → (h : History) → AllKnown w.status.pods pods
      → Accounted name G (recover_last w n pods env h)
  unfolding recover_last
  recover_last-Accounted pods w n enough was proved h known =
      let (chosen, e, all) =
        last_pods-All _ (pos_part n) (reverse pods) enough (All-reverse _ pods known) in
      rw (e, recover_last)
        (recover_running-Accounted (running_pods chosen) w n was
          (λ h' x. proved h' (Any-chosen _ (pos_part n) pods chosen e x)) h
          (running-All _ chosen all))

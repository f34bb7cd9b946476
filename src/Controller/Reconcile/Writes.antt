-- ===== src/Controller/Reconcile/Writes.antt =====
-- What Reconcile of controllers/wildflyserver_controller.go writes of the StatefulSet once it has listed
-- the pods.
use wildfly_operator.Prelude.{
  ℕ, ◌-◌, ◌^◌, ◌<◌, ◌≤◌, ◌≡◌, refl, sym, subst, ap, Bool, true, false, not, ◌||◌, ◌==◌, Option,
  none, some, List, is_none, length, arith,
}
use wildfly_operator.Prelude.Int.{ℤ, pos, pos_part, int32, ◌-ℤ◌}
use wildfly_operator.Kube.{ApiError, Pod, StatefulSet}
use wildfly_operator.Api.{WildFlyServer}
use wildfly_operator.World.{
  Env, Event, History, M, Result, ok, err, done, ◌>>=◌, pure, crash, request, status_patched,
}
use wildfly_operator.World.Rules.{Anything}
use wildfly_operator.World.Emits.{
  Emits, Emits-pure, Emits-request, Emits-if, Emits-bind, Emits-weaken, Emits-then, Leaves,
  Leaves-weaken, continue-Leaves, if-Leaves, Later, Leaves-Later,
}
use wildfly_operator.World.Quiet.{SetWrites, SetWrites-weaken, IsQuiet, Quiet}
use wildfly_operator.Resources.Generation.{is_current_generation}
use wildfly_operator.Resources.Markers.{marker_operated_by_loadbalancer}
use wildfly_operator.Recovery.Types.{RecoveryError, requeue_now}
use wildfly_operator.Recovery.Labels.{set_label_as_disabled}
use wildfly_operator.Recovery.Labels.Quiet.{set_label-Quiet}
use wildfly_operator.Recovery.Process.{process_recovery}
use wildfly_operator.Recovery.Process.Skip.{Processed}
use wildfly_operator.Recovery.Process.Loops.{AllKnown}
use wildfly_operator.Recovery.Process.Frame.{status_names}
use wildfly_operator.Recovery.Process.Quiet.{process_recovery-Quiet}
use wildfly_operator.Controller.PodStatuses.{
  kept_statuses, cleaned_up, patched_status, clean_up_pod_status,
}
use wildfly_operator.Controller.Scale.{check_stateful_set}
use wildfly_operator.Controller.Scale.Names.{AreDistinct}
use wildfly_operator.Controller.Scale.Grounded.{
  IsGroundedSize, IsGroundedWrite, scale_after_recovery,
}
use wildfly_operator.Controller.Reconcile.{
  must_wait, after_scale, scale_stage, after_recovery, after_labels, after_clean_up, new_round,
  with_pods,
}
use wildfly_operator.Controller.Reconcile.Finish.{
  Round, Reply, reply, again, fails, api, recovery_error,
}
use wildfly_operator.Controller.Reconcile.Quiet.{after_scale-Quiet}
use wildfly_operator.Controller.Reconcile.Total.{
  enough_pods, difference-le, LeavesSame, patched-LeavesSame,
}

-- At some time of the round before, the pods that the size leaves out had their grounds, or it is not
-- lower than `k`.
abbrev pub WasGrounded : Env → WildFlyServer → List Pod → ℕ → History → Option ℤ → Type 0
WasGrounded env w pods k at size =
    (by : History) × Later by at × IsGroundedSize env w pods k by size

-- The set is updated only to such a size, deleted only where it is outdated, and never created or
-- patched.
abbrev pub RoundWrites : Env → WildFlyServer → StatefulSet → List Pod → ℕ → Event → History → Type 0
RoundWrites env w found pods k e at =
    SetWrites (WasGrounded env w pods k at) (is_current_generation w found.annotations ≡ false) e at

module _ (env : Env) (w : WildFlyServer) (openshift : Bool) (found : StatefulSet) (pods : List Pod)
    (k m : ℕ) (sized : found.replicas ≡ some (pos k)) (wanted : w.spec.replicas ≡ pos m)
    (k_small : k < 2 ^ 31) (m_small : m < 2 ^ 31) (small : length pods < 2 ^ 31)
    (known : AllKnown w.status.pods pods)
    (distinct : AreDistinct (status_names w.status.pods)) where
  abbrev Writes : Event → History → Type 0
  Writes = RoundWrites env w found pods k

  Quiet-Emits : {A : Type 0} (a : M A) → Quiet a → Emits env Writes Anything a
  Quiet-Emits a q =
      Emits-weaken env IsQuiet Writes Anything a
        (λ e at. SetWrites-weaken _ _ _ _ (λ n x. absurd x) (λ x. absurd x) e at) (q.at env)

  abbrev c : Round
  c = new_round w openshift found pods (pos k)

  -- The size is checked after the recovery that ran up to here.
  check-Leaves :
      (h h' : History) (q : Processed)
      → pos_part c.to_scale_down ≤ length pods
      → process_recovery w c.to_scale_down pods env h ≡ (done q, h')
      → Leaves Writes Anything h' (check_stateful_set q.server openshift found pods env h')
  check-Leaves h h' q enough ran =
      Leaves-weaken (λ e at. IsGroundedWrite env w found pods k h' e at × Later h' at) Writes
        Anything h'
        (λ e at (x, later). SetWrites-weaken _ _ _ _ (λ size y. (h', later, y)) (λ d. d) e at x)
        (check_stateful_set q.server openshift found pods env h')
        (Leaves-Later (IsGroundedWrite env w found pods k h') Anything h'
          (check_stateful_set q.server openshift found pods env h')
          ((scale_after_recovery env w c.to_scale_down pods h h' q enough known distinct ran found k
              m openshift sized wanted small).at
            h'))

  scale-Leaves :
      (h h' : History) (q : Processed)
      → pos_part c.to_scale_down ≤ length pods
      → process_recovery w c.to_scale_down pods env h ≡ (done q, h')
      → Leaves Writes Anything h' (
          scale_stage
            (record c { server = q.server; recovery_requeue = q.must_reconcile })
            env
            found
            env
            h')
  unfolding scale_stage
  scale-Leaves h h' q enough ran =
      let c' : Round = record c { server = q.server; recovery_requeue = q.must_reconcile } in
      continue-Leaves env Writes Anything Anything (after_scale c' env)
        (check_stateful_set q.server openshift found pods env h').0 h'
        (check_stateful_set q.server openshift found pods env h').1 (check-Leaves h h' q enough ran)
        (λ s at x. (Quiet-Emits (after_scale c' env s) (after_scale-Quiet c' env s)).at at)

  recovered-Leaves :
      (h h' : History) (q : Processed)
      → pos_part c.to_scale_down ≤ length pods
      → process_recovery w c.to_scale_down pods env h ≡ (done q, h')
      → Leaves Writes Anything h' (after_recovery c env found q env h')
  unfolding after_recovery
  recovered-Leaves h h' q enough ran =
      if-Leaves env Writes Anything (q.must_reconcile == requeue_now) _ _ h'
        (λ at_once. (Emits-pure env Writes Anything (reply true (recovery_error q.error)) tt).at h')
        (λ goes_on. scale-Leaves h h' q enough ran)

  labels-Emits :
      (r : Bool × Option RecoveryError)
      → pos_part c.to_scale_down ≤ length pods
      → Emits env Writes Anything (after_labels c env found r)
  unfolding after_labels
  labels-Emits (labelled, e) enough =
      Emits-if env Writes Anything (labelled || not (is_none e)) _ _
        (λ stops. Emits-pure env Writes Anything (reply labelled (recovery_error e)) tt)
        (λ goes.
          Emits-then env Writes Anything Anything (after_recovery c env found)
            (process_recovery w c.to_scale_down pods)
            (Quiet-Emits _ (process_recovery-Quiet w c.to_scale_down pods))
            (λ h h' q ran x. recovered-Leaves h h' q enough ran))

  enough_listed :
      must_wait w.spec.replicas (pos k) (int32 (pos (length pods))) ≡ false
      → pos_part c.to_scale_down ≤ length pods
  enough_listed goes =
      let some_pods = enough_pods w.spec.replicas k (length pods) goes in
      let d = difference-le k m k_small m_small in
      subst (λ z. pos_part (int32 (pos k -ℤ z)) ≤ length pods) (sym wanted) (omega arith)

  after_clean_up-Emits :
      (r : Result ApiError Bool × WildFlyServer)
      → LeavesSame w r
      → Emits env Writes Anything (after_clean_up c env found (pos k) r)
  unfolding after_clean_up
  after_clean_up-Emits (err e, u) same = Emits-pure env Writes Anything (fails (api e)) tt
  after_clean_up-Emits (ok true, u) same = Emits-pure env Writes Anything again tt
  after_clean_up-Emits (ok false, u) same =
      Emits-if env Writes Anything (must_wait u.spec.replicas (pos k) (int32 (pos (length pods)))) _
        _ (λ waits. Emits-pure env Writes Anything again tt)
        (λ goes.
          let enough = enough_listed (
            subst (λ v. must_wait v.spec.replicas (pos k) (int32 (pos (length pods))) ≡ false)
              (sym same) goes) in
          Emits-bind env Writes Anything Anything (after_labels c env found)
            (set_label_as_disabled u marker_operated_by_loadbalancer c.to_scale_down pods)
            (Quiet-Emits _ (set_label-Quiet u marker_operated_by_loadbalancer c.to_scale_down pods))
            (λ r x. labels-Emits r enough))

  save_patch-Emits :
      (u : WildFlyServer)
      → Emits env Writes (LeavesSame w) (do
        e ← request (λ env' h. env'.patch_status h u) (status_patched u)
        pure (patched_status e, u))
  save_patch-Emits u =
      Emits-bind env Writes Anything (LeavesSame w) (λ e. pure (patched_status e, u))
        (request (λ env' h. env'.patch_status h u) (status_patched u))
        (Emits-request env Writes Anything (λ env' h. env'.patch_status h u) (status_patched u)
          (λ h. (tt, tt)))
        (λ e x.
          Emits-pure env Writes (LeavesSame w) (patched_status e, u) (patched-LeavesSame w u e))

  clean_up-Emits : Emits env Writes (LeavesSame w) (clean_up_pod_status w pods)
  unfolding clean_up_pod_status
  clean_up-Emits =
      let kept = kept_statuses pods w.status.pods in
      Emits-if env Writes (LeavesSame w) (length w.status.pods == length kept) (pure (ok false, w))
        _ (λ e. Emits-pure env Writes (LeavesSame w) (ok false, w) refl)
        (λ e. save_patch-Emits (cleaned_up w kept (length w.status.pods - length kept)))

  with_pods-sized :
      with_pods env w openshift found pods
      ≡ (clean_up_pod_status w pods >>= after_clean_up c env found (pos k))
  unfolding with_pods
  with_pods-sized =
      ap
        (λ (r : Option ℤ). (elim r as (λ x. M Reply) [
          | none ↦ crash
          | some current ↦
              clean_up_pod_status w pods
              >>= after_clean_up (new_round w openshift found pods current) env found current
        ]))
        sized

  -- Where the sizes of the StatefulSet and of the server are not negative and below 2 ^ 31, there are
  -- fewer pods than that, each of them has a status, and no name has two: whatever the environment
  -- answers, from the list of the pods to the end of the round, and whether or not it panics,
  -- Reconcile updates the StatefulSet only to a size that is not lower, or that leaves out, at the end
  -- of the list, only pods that were clean before, of which the recovery has had the evidence by
  -- then, or whose recovery may be skipped; it deletes the set only where it is outdated, and never
  -- creates or patches it.
  pub with_pods-safe : Emits env Writes Anything (with_pods env w openshift found pods)
  with_pods-safe = subst (Emits env Writes Anything) (sym with_pods-sized) (
      Emits-bind env Writes (LeavesSame w) Anything (after_clean_up c env found (pos k))
        (clean_up_pod_status w pods) clean_up-Emits after_clean_up-Emits)

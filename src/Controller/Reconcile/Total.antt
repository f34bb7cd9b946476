-- ===== src/Controller/Reconcile/Total.antt =====
-- The middle of Reconcile in controllers/wildflyserver_controller.go, from the list of the pods to the
-- StatefulSet, always ends where the pods are known.
use wildfly_operator.Prelude.{
  ℕ, ◌+◌, ◌-◌, ◌^◌, ◌<◌, ◌≤◌, ◌≡◌, refl, ap, Bool, true, false, not, ◌||◌, ◌==◌, is_none, Option,
  none, some, List, length, arith,
}
use wildfly_operator.Prelude.Int.{ℤ, pos, pos_part, neg_part, int32, ◌-ℤ◌}
use wildfly_operator.Kube.{ApiError, Pod, StatefulSet}
use wildfly_operator.Api.{WildFlyServer}
use wildfly_operator.World.{Env, Result, ok, err, status_patched, request, pure, ◌>>=◌}
use wildfly_operator.World.Rules.{
  Runs, Anything, total_pure, total_bind, total_if, Runs-pure, Runs-bind, Runs-if, total_request,
}
use wildfly_operator.StatefulSets.Total.{IsSized}
use wildfly_operator.Recovery.Types.{RecoveryError, requeue_now}
use wildfly_operator.Recovery.Labels.Total.{set_label-Runs}
use wildfly_operator.Recovery.Process.Skip.{Processed}
use wildfly_operator.Recovery.Process.Total.{KnownIfAsMany, process_recovery-Runs}
use wildfly_operator.Controller.PodStatuses.{
  kept_statuses, cleaned_up, patched_status, clean_up_pod_status,
}
use wildfly_operator.Controller.Reconcile.{
  must_wait, new_round, after_recovery, after_labels, after_clean_up, with_pods, after_list,
}
use wildfly_operator.Controller.Reconcile.Finish.{Round}
use wildfly_operator.Controller.Reconcile.Stages.{scale_stage-Runs}

int32_pos-le : (n : ℕ) → pos_part (int32 (pos n)) ≤ n
unfolding int32
int32_pos-le n = ground arith

pub difference-le : (k m : ℕ) → k < 2 ^ 31 → m < 2 ^ 31 → pos_part (int32 (pos k -ℤ pos m)) ≤ k
unfolding int32
difference-le k m x y = ground arith

-- A round that does not wait has as many pods as the set wants.
pub enough_pods : (wanted : ℤ) (k n : ℕ) → must_wait wanted (pos k) (int32 (pos n)) ≡ false → k ≤ n
unfolding must_wait
enough_pods wanted k n h =
    let below = int32_pos-le n in
    let d = int32 (pos n) in let reached : k + neg_part d ≤ pos_part d = ground arith in omega arith

after_recovery-Runs :
    (c : Round) (env : Env) (s : StatefulSet) (p : Processed)
    → IsSized s
    → Runs Anything (after_recovery c env s p)
unfolding after_recovery
after_recovery-Runs c env s p sized =
    total_if (p.must_reconcile == requeue_now) _ _ (total_pure _) (
      scale_stage-Runs (record c { server = p.server; recovery_requeue = p.must_reconcile }) env s
        sized)

after_labels-Runs :
    (c : Round) (env : Env) (s : StatefulSet) (r : Bool × Option RecoveryError)
    → IsSized s
    → pos_part c.to_scale_down ≤ length c.pods
    → KnownIfAsMany c.server c.pods
    → Runs Anything (after_labels c env s r)
unfolding after_labels
after_labels-Runs c env s (updated, e) sized enough known =
    total_if (updated || not (is_none e)) _ _ (total_pure _) (
      total_bind _ _ (process_recovery-Runs c.server c.to_scale_down c.pods enough known)
        (λ p. after_recovery-Runs c env s p sized))

-- Nothing was dropped from the statuses, so the server is the one that was given.
abbrev pub LeavesSame : WildFlyServer → Result ApiError Bool × WildFlyServer → Type 0
LeavesSame w (ok false, w') = w ≡ w'
LeavesSame w _ = Unit

pub patched-LeavesSame :
    (w w' : WildFlyServer) (e : Option ApiError) → LeavesSame w (patched_status e, w')
patched-LeavesSame w w' (some e) = tt
patched-LeavesSame w w' none = tt

save_patch-Runs :
    (w w' : WildFlyServer)
    → Runs (LeavesSame w) (do
      e ← request (λ env h. env.patch_status h w') (status_patched w')
      pure (patched_status e, w'))
save_patch-Runs w w' =
    Runs-bind Anything (LeavesSame w) _ _
      (total_request (λ env h. env.patch_status h w') (status_patched w') (λ env h. refl))
      (λ e x. Runs-pure (LeavesSame w) (patched_status e, w') (patched-LeavesSame w w' e))

clean_up-Runs :
    (w : WildFlyServer) (pods : List Pod) → Runs (LeavesSame w) (clean_up_pod_status w pods)
unfolding clean_up_pod_status
clean_up-Runs w pods =
    let kept = kept_statuses pods w.status.pods in
    Runs-if (LeavesSame w) (length w.status.pods == length kept) (pure (ok false, w)) _
      (λ e. Runs-pure (LeavesSame w) (ok false, w) refl)
      (λ e. save_patch-Runs w (cleaned_up w kept (length w.status.pods - length kept)))

module _ (env : Env) (s : StatefulSet) (sized : IsSized s) where
  after_clean_up-Runs :
      (c : Round) (k m : ℕ) (r : Result ApiError Bool × WildFlyServer)
      → c.server.spec.replicas ≡ pos m
      → k < 2 ^ 31
      → m < 2 ^ 31
      → c.to_scale_down ≡ int32 (pos k -ℤ pos m)
      → KnownIfAsMany c.server c.pods
      → LeavesSame c.server r
      → Runs Anything (after_clean_up c env s (pos k) r)
  unfolding after_clean_up
  after_clean_up-Runs c k m (err e, w) wanted x y down known same = total_pure _
  after_clean_up-Runs c k m (ok true, w) wanted x y down known same = total_pure _
  after_clean_up-Runs c k m (ok false, w) wanted x y down known same =
      Runs-if Anything (must_wait w.spec.replicas (pos k) (int32 (pos (length c.pods)))) _ _
        (λ waits. total_pure _)
        (λ goes.
          let enough = enough_pods w.spec.replicas k (length c.pods) goes in
          total_bind _ _ (set_label-Runs w _ _ _) (λ r.
            after_labels-Runs c env s r sized
              (rw down (let d = difference-le k m x y in omega arith)) known))

-- The pods, once there are as many statuses, are known.
abbrev pub GivesKnown : WildFlyServer → Result ApiError (List Pod) → Type 0
GivesKnown w (ok pods) = KnownIfAsMany w pods
GivesKnown w (err e) = Unit

module _ (env : Env) (w : WildFlyServer) (openshift : Bool) (m : ℕ)
    (wanted : w.spec.replicas ≡ pos m) (small : m < 2 ^ 31) where
  with_pods-Runs :
      (s : StatefulSet) (pods : List Pod)
      → IsSized s
      → KnownIfAsMany w pods
      → Runs Anything (with_pods env w openshift s pods)
  unfolding with_pods
  with_pods-Runs s pods (k, size, x, marked) known =
      rw (size, with_pods)
        (Runs-bind (LeavesSame w) Anything _ _ (clean_up-Runs w pods) (λ r same.
          after_clean_up-Runs env s (k, size, x, marked) (new_round w openshift s pods (pos k)) k m
            r wanted x small (ap (λ (z : ℤ). int32 (pos k -ℤ z)) wanted) known same))

  pub after_list-Runs :
      (s : StatefulSet) (r : Result ApiError (List Pod))
      → IsSized s
      → GivesKnown w r
      → Runs Anything (after_list env w openshift s r)
  unfolding after_list
  after_list-Runs s (err e) sized known = total_pure _
  after_list-Runs s (ok pods) sized known = with_pods-Runs s pods sized known

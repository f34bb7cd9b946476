-- ===== src/Controller/Scale/Writes.antt =====
-- What checkStatefulSet of controllers/wildflyserver_controller.go writes of the size of the
-- StatefulSet, on every branch.
use mathlib.Core.List.{reverse}
use wildfly_operator.Prelude.{
  ℕ, ◌-◌, ◌^◌, ◌≤◌, ◌<◌, ◌≡◌, refl, sym, ap, ◌⊎◌, inl, inr, Bool, true, false, Option, none, some,
  not, ◌&&◌, subst, List, arith, length, length-reverse, take, All, is_empty,
}
use wildfly_operator.Prelude.Int.{ℤ, pos, ltb_ℤ}
use wildfly_operator.Kube.{ApiError, Pod, StatefulSet}
use wildfly_operator.Api.{PodStatus, WildFlyServer}
use wildfly_operator.World.{Env, History, Event, M, crash, stateful_set, updated, deleted}
use wildfly_operator.World.Rules.{Anything}
use wildfly_operator.World.Emits.{
  Emits, Emits-pure, Emits-crash, Emits-request, Emits-if, Emits-bind, Emits-event,
}
use wildfly_operator.Recovery.Types.{requeue_now}
use wildfly_operator.World.Quiet.{SetWrites}
use wildfly_operator.Resources
use wildfly_operator.Resources.Generation.{is_current_generation, mark_object}
use wildfly_operator.StatefulSets.{new_stateful_set}
use wildfly_operator.Controller.Labels.{labels_for_wildfly}
use wildfly_operator.Controller.Scale.{
  Plan, Scaled, plan_scale, resized, refreshed, delete_set, update_set, renew_set, apply_plan,
  announce, scaled, check_size, check_stateful_set, must_delete,
}
use wildfly_operator.Controller.Scale.Size.{
  HasStatus, IsCleanPod, pods_to_shutdown-clean, pods_to_shutdown-le, plan_scale-count,
  shutdown_count,
}

-- With `k` replicas, the size does not leave out a pod that is not clean.
abbrev pub IsSafeSize : List PodStatus → List Pod → ℕ → Option ℤ → Type 0
IsSafeSize statuses pods k size =
    (n : ℕ) × (size ≡ some (pos n))
    × ((k ≤ n) ⊎ All (IsCleanPod statuses) (take (length pods - n) (reverse pods)))

-- A set is updated only to a safe size, and deleted only where it is outdated.
abbrev pub IsSafeWrite : WildFlyServer → StatefulSet → List Pod → ℕ → Event → History → Type 0
IsSafeWrite w found pods k =
    SetWrites (IsSafeSize w.status.pods pods k) (is_current_generation w found.annotations ≡ false)

plan_scale-not_down :
    (m k : ℕ) (statuses : List PodStatus) (pods : List Pod)
    → k ≤ m
    → (plan_scale (pos m) (pos k) statuses pods).size ≡ pos m
unfolding plan_scale
plan_scale-not_down m k statuses pods x = ground arith

ℕ-cases : (m k : ℕ) → (m < k) ⊎ (k ≤ m)
ℕ-cases m k = ground arith

check_stateful_set-sized :
    (w : WildFlyServer) (openshift : Bool) (found : StatefulSet) (pods : List Pod) {current : ℤ}
    → found.replicas ≡ some current
    → check_stateful_set w openshift found pods ≡ check_size w openshift found pods current
unfolding check_stateful_set
check_stateful_set-sized w openshift found pods sized =
    ap
      (λ (r : Option ℤ). (elim r as (λ x. M Scaled) [
        | none ↦ crash
        | some current ↦ check_size w openshift found pods current
      ]))
      sized

not_current : (b : Bool) → not b ≡ true → b ≡ false
not_current true e = sym e
not_current false e = refl

module _ (statuses : List PodStatus) (pods : List Pod) (small : length pods < 2 ^ 31)
    (known : All (HasStatus statuses) (reverse pods)) where
  left_over :
      length pods - (length pods - shutdown_count statuses pods) ≡ shutdown_count statuses pods
  left_over = omega (arith, pods_to_shutdown-le statuses (reverse pods), length-reverse pods)

  plan_scale-IsSafeSize :
      (m k : ℕ) → IsSafeSize statuses pods k (some (plan_scale (pos m) (pos k) statuses pods).size)
  plan_scale-IsSafeSize m k = elim (ℕ-cases m k) [
    | inl down ↦ (
      length pods - shutdown_count statuses pods,
      ap (λ p. some p.size) (plan_scale-count (pos m) (pos k) statuses pods small (omega arith)),
      inr (rw left_over (pods_to_shutdown-clean statuses (reverse pods) known)),
    )
    | inr up ↦ (m, ap some (plan_scale-not_down m k statuses pods up), inl up)
  ]

update-Emits :
    (env : Env) (P : Event → History → Type 0) (w : WildFlyServer) (s : StatefulSet)
    → ((marked : StatefulSet) (e : Option ApiError) (h : History)
        → marked.replicas ≡ s.replicas
        → P (updated (stateful_set marked) e) h)
    → Emits env P Anything (Resources.update w (stateful_set s))
unfolding Resources.update mark_object
update-Emits env P w s all =
    Emits-request env P Anything (λ env' h. env'.update h (mark_object w (stateful_set s)))
      (updated (mark_object w (stateful_set s))) (λ h. (tt, all _ _ h refl))

delete-Emits :
    (env : Env) (P : Event → History → Type 0) (s : StatefulSet)
    → ((e : Option ApiError) (h : History) → P (deleted (stateful_set s) e) h)
    → Emits env P Anything (Resources.delete (stateful_set s))
unfolding Resources.delete
delete-Emits env P s all =
    Emits-request env P Anything (λ env' h. env'.delete h (stateful_set s))
      (deleted (stateful_set s)) (λ h. (tt, all _ h))

module _ (env : Env) (w : WildFlyServer) (found : StatefulSet) (pods : List Pod) (k : ℕ)
    (sized : found.replicas ≡ some (pos k)) (small : length pods < 2 ^ 31)
    (known : All (HasStatus w.status.pods) (reverse pods)) where
  abbrev Allowed : Event → History → Type 0
  Allowed = IsSafeWrite w found pods k

  update_set-Emits :
      (s : StatefulSet)
      → IsSafeSize w.status.pods pods k s.replicas
      → Emits env Allowed Anything (update_set w s)
  unfolding update_set
  update_set-Emits s x =
      Emits-bind env Allowed Anything Anything _ _
        (update-Emits env Allowed w s
          (λ marked e h same. subst (IsSafeSize w.status.pods pods k) (sym same) x))
        (λ e y. Emits-pure env Allowed Anything (scaled requeue_now e) tt)

  delete_set-Emits :
      (s : StatefulSet)
      → is_current_generation w found.annotations ≡ false
      → Emits env Allowed Anything (delete_set s)
  unfolding delete_set
  delete_set-Emits s x =
      Emits-bind env Allowed Anything Anything _ _ (delete-Emits env Allowed s (λ e h. x))
        (λ e y. Emits-pure env Allowed Anything (scaled requeue_now e) tt)

  renew_set-Emits :
      (p : Plan) (new : StatefulSet)
      → is_current_generation w found.annotations ≡ false
      → IsSafeSize w.status.pods pods k (some p.size)
      → Emits env Allowed Anything (renew_set w found p new)
  unfolding renew_set
  renew_set-Emits p new old x =
      Emits-if env Allowed Anything
        (must_delete found.volume_claim_templates new.volume_claim_templates) _ _
        (λ deletes. delete_set-Emits (resized found p) old)
        (λ keeps.
          Emits-if env Allowed Anything (is_empty found.annotations) _ _
            (λ bare. Emits-crash env Allowed Anything)
            (λ marked. update_set-Emits (refreshed w found new p.size) x))

  resized-IsSafeSize :
      (p : Plan)
      → IsSafeSize w.status.pods pods k (some p.size)
      → p.update ≡ true
      → IsSafeSize w.status.pods pods k (resized found p).replicas
  resized-IsSafeSize p x e = rw e x

  apply_plan-Emits :
      (openshift : Bool) (p : Plan)
      → IsSafeSize w.status.pods pods k (some p.size)
      → Emits env Allowed Anything (apply_plan env w openshift found p)
  unfolding apply_plan
  apply_plan-Emits openshift p x =
      Emits-if env Allowed Anything (not (is_current_generation w found.annotations)) _ _
        (λ old.
          renew_set-Emits p (new_stateful_set env w (labels_for_wildfly env w) p.size openshift)
            (not_current _ old) x)
        (λ current.
          Emits-if env Allowed Anything p.update _ _
            (λ updates. update_set-Emits (resized found p) (resized-IsSafeSize p x updates))
            (λ idle. Emits-pure env Allowed Anything (scaled p.requeue none) tt))

  announce-Emits :
      (wanted current : ℤ) (p : Plan) → Emits env Allowed Anything (announce wanted current p)
  announce-Emits wanted current p =
      Emits-if env Allowed Anything (ltb_ℤ wanted current && ltb_ℤ wanted p.size) _ _
        (λ slow. Emits-event env Allowed "WildFlyServerScaledown" (λ h. tt))
        (λ done. Emits-pure env Allowed Anything tt tt)

  check_size-Emits :
      (m : ℕ) (openshift : Bool)
      → w.spec.replicas ≡ pos m
      → Emits env Allowed Anything (check_size w openshift found pods (pos k))
  unfolding check_size
  check_size-Emits m openshift wanted =
      let p = plan_scale w.spec.replicas (pos k) w.status.pods pods in
      let chosen =
        Emits-bind env Allowed Anything Anything _ _ (announce-Emits w.spec.replicas (pos k) p)
          (λ u y. apply_plan-Emits openshift p (
            subst
              (λ n.
                IsSafeSize w.status.pods pods k
                  (some (plan_scale n (pos k) w.status.pods pods).size))
              (sym wanted) (plan_scale-IsSafeSize w.status.pods pods small known m k))) in
      record { at = λ h. chosen.at h }

  -- Where the StatefulSet has a size, the wanted size is not negative, there are fewer than 2 ^ 31
  -- pods, and each has a status: whatever the plan, an update of the set either does not lower its
  -- size or leaves out only clean pods from the end of the list, also where the set is outdated; the
  -- set is deleted only where it is outdated, and it is never created or patched.
  pub check_stateful_set-safe :
      (m : ℕ) (openshift : Bool)
      → w.spec.replicas ≡ pos m
      → Emits env Allowed Anything (check_stateful_set w openshift found pods)
  check_stateful_set-safe m openshift wanted =
      subst (Emits env Allowed Anything)
        (sym (check_stateful_set-sized w openshift found pods sized))
        (check_size-Emits m openshift wanted)

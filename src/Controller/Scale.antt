-- ===== src/Controller/Scale.antt =====
-- checkStatefulSet of controllers/wildflyserver_controller.go.
pub mod Size
pub mod Limits
pub mod Writes
pub mod Names
pub mod Grounded
pub mod Total
use wildfly_operator.Prelude.{
  ℕ, zero, suc, ◌+◌, ◌-◌, Bool, true, false, not, ◌&&◌, ◌||◌, Option, none, some, List, [], ◌∷◌,
  String, str_eq, length, if◌then◌else◌, insert, is_empty,
}
use mathlib.Core.List.{reverse}
use wildfly_operator.Prelude.Int.{ℤ, pos, ◌-ℤ◌, int32, ltb_ℤ, leb_ℤ}
use wildfly_operator.Kube.{Pod, ApiError, StatefulSet, PersistentVolumeClaim, ResourceRequirements}
use wildfly_operator.Api.{PodState, is_clean, PodStatus, WildFlyServer}
use wildfly_operator.World.{
  M, Env, stateful_set, ◌>>=◌, ◌>>◌, pure, crash, environment, record_event,
}
use wildfly_operator.Util.Numbers.{format_int}
use wildfly_operator.Util.Maps.{same_texts, same_map}
use wildfly_operator.Resources
use wildfly_operator.Resources.Generation.{is_current_generation, mark_server_generation}
use wildfly_operator.Recovery.Types.{requeue_off, requeue_later, requeue_now}
use wildfly_operator.StatefulSets.{new_stateful_set}
use wildfly_operator.Controller.Labels.{labels_for_wildfly}
use wildfly_operator.Controller.PodStatuses.{original_status}

-- The loop from the last pod downwards: clean pods are counted until one is not clean. A pod
-- without a status is passed over.
unfoldable pub pods_to_shutdown : List PodStatus → List Pod → ℕ
pods_to_shutdown statuses [] = 0
pods_to_shutdown statuses (p ∷ ps) =
    let rest = pods_to_shutdown statuses ps in
    elim (original_status p.name statuses) [
      | none ↦ rest
      | some s ↦ if is_clean s.state then suc rest else 0
    ]

-- calculatedStatefulSetReplicaSize
unfoldable pub calculated_size : List PodStatus → List Pod → ℤ
calculated_size statuses pods =
    int32 (pos (length pods) -ℤ pos (pods_to_shutdown statuses (reverse pods)))

-- What the first part decides: the size that is written, whether it is, and the requeue level.
pub record Plan : Type 0 where
  pub size : ℤ
  pub update : Bool
  pub requeue : ℕ

abbrev plan_down : ℤ → ℤ → ℤ → Plan
plan_down wanted current calculated = record {
  size = calculated;
  update = leb_ℤ wanted calculated && ltb_ℤ calculated current;
  requeue = if ltb_ℤ wanted calculated then requeue_later else requeue_off;
}

-- With more replicas wanted the size is raised, and what is read of it after that is the new size.
unfoldable pub plan_scale : ℤ → ℤ → List PodStatus → List Pod → Plan
unfolding calculated_size
plan_scale wanted current statuses pods =
    if ltb_ℤ current wanted
    then record { size = wanted; update = true; requeue = requeue_off }
    else if ltb_ℤ wanted current
    then plan_down wanted current (calculated_size statuses pods)
    else record { size = wanted; update = false; requeue = requeue_off }

abbrev same_quantities : Option (List (String × String)) → Option (List (String × String)) → Bool
same_quantities none none = true
same_quantities (some m) (some n) = same_map m n
same_quantities _ _ = false

abbrev claim_differs : PersistentVolumeClaim → PersistentVolumeClaim → Bool
claim_differs c d =
    not (str_eq c.name d.name)
    || not (same_texts c.access_modes d.access_modes)
    || not (
        same_quantities c.resources.limits d.resources.limits
        && same_quantities c.resources.requests d.resources.requests)

-- Whether the claims, of which the first is looked at, force the set to be deleted.
unfoldable pub must_delete : List PersistentVolumeClaim → List PersistentVolumeClaim → Bool
must_delete found [] = not (is_empty found)
must_delete [] (d ∷ ds) = true
must_delete (c ∷ cs) (d ∷ ds) = claim_differs c d

-- mustReconcile and the error, with the StatefulSet in memory.
pub record Scaled : Type 0 where
  pub must_reconcile : ℕ
  pub error : Option ApiError

abbrev pub scaled : ℕ → Option ApiError → Scaled
scaled n e = record { must_reconcile = n; error = e }

delete_set : StatefulSet → M Scaled
delete_set s = do e ← Resources.delete (stateful_set s); pure (scaled requeue_now e)

update_set : WildFlyServer → StatefulSet → M Scaled
update_set w s = do e ← Resources.update w (stateful_set s); pure (scaled requeue_now e)

-- The found set with the template, the size and the generation of the current spec.
abbrev pub refreshed : WildFlyServer → StatefulSet → StatefulSet → ℤ → StatefulSet
refreshed w found new size = record found {
  template = new.template;
  replicas = some size;
  annotations = mark_server_generation w found.annotations;
}

abbrev resized : StatefulSet → Plan → StatefulSet
resized found p = if p.update then record found { replicas = some p.size } else found

-- A set without annotations has a nil map, and the write of the generation into it panics.
renew_set : WildFlyServer → StatefulSet → Plan → StatefulSet → M Scaled
unfolding delete_set update_set
renew_set w found p new =
    if must_delete found.volume_claim_templates new.volume_claim_templates
    then delete_set (resized found p)
    else if is_empty found.annotations
    then crash
    else update_set w (refreshed w found new p.size)

apply_plan : Env → WildFlyServer → Bool → StatefulSet → Plan → M Scaled
unfolding renew_set update_set
apply_plan env w openshift found p =
    if not (is_current_generation w found.annotations)
    then renew_set w found p (new_stateful_set env w (labels_for_wildfly env w) p.size openshift)
    else if p.update
    then update_set w (resized found p)
    else pure (scaled p.requeue none)

-- The event that the scale down is slowed down.
abbrev announce : ℤ → ℤ → Plan → M (Unit {0})
announce wanted current p =
    if ltb_ℤ wanted current && ltb_ℤ wanted p.size
    then record_event "WildFlyServerScaledown"
    else pure tt

check_size : WildFlyServer → Bool → StatefulSet → List Pod → ℤ → M Scaled
unfolding apply_plan
check_size w openshift found pods current = do
  env ← environment
  announce w.spec.replicas current (plan_scale w.spec.replicas current w.status.pods pods)
  apply_plan env w openshift found (plan_scale w.spec.replicas current w.status.pods pods)

-- A set with no replicas is a nil pointer.
unfoldable pub check_stateful_set : WildFlyServer → Bool → StatefulSet → List Pod → M Scaled
unfolding check_size
check_stateful_set w openshift found pods = elim found.replicas [
  | none ↦ crash
  | some current ↦ check_size w openshift found pods current
]

-- ===== src/Controller/Reconcile/Finish.antt =====
-- The end of Reconcile of controllers/wildflyserver_controller.go: the hosts, the pods' states and
-- the status of the server.
pub mod Same
pub mod Settled
pub mod Stable
pub mod Rest
pub mod Total
pub mod Quiet
use wildfly_operator.Prelude.{
  ℕ, Bool, true, false, not, ◌||◌, Option, none, some, List, [], ◌∷◌, String, str_eq, is_empty, leb,
  if◌then◌else◌,
}
use wildfly_operator.Prelude.Int.{ℤ, pos, leb_ℤ, eqb_ℤ}
use wildfly_operator.Kube.{Pod, ApiError}
use wildfly_operator.Api.{active, is_active, PodStatus, WildFlyServerStatus, WildFlyServer}
use wildfly_operator.World.{M, pod, ◌>>=◌, ◌>>◌, pure}
use wildfly_operator.Resources
use wildfly_operator.Util.Maps.{same_texts}
use wildfly_operator.Recovery.Types.{RecoveryError, requeue_later}
use wildfly_operator.Controller.PodStatuses.{get_pod_status, same_statuses}

pub data ReconcileError : Type 0 where
  api : ApiError → ReconcileError
  recovery_failed : RecoveryError → ReconcileError
  invalid_server : ReconcileError

-- reconcile.Result with the error.
pub record Reply : Type 0 where
  pub requeue : Bool
  pub error : Option ReconcileError

abbrev pub reply : Bool → Option ReconcileError → Reply
reply b e = record { requeue = b; error = e }

abbrev pub again : Reply
again = reply true none

abbrev pub stop : Reply
stop = reply false none

abbrev pub fails : ReconcileError → Reply
fails e = reply false (some e)

abbrev pub api_error : Option ApiError → Option ReconcileError
api_error none = none
api_error (some e) = some (api e)

abbrev pub recovery_error : Option RecoveryError → Option ReconcileError
recovery_error none = none
recovery_error (some e) = some (recovery_failed e)

-- The variables of Reconcile that live to its end.
pub record Round : Type 0 where
  pub server : WildFlyServer
  pub pods : List Pod
  pub openshift : Bool
  pub hosts : List String
  pub to_scale_down : ℤ
  pub set_replicas : ℤ
  pub recovery_requeue : ℕ
  pub set_requeue : ℕ

abbrev same_hosts : List String → Option (List String) → Bool
same_hosts hosts none = false
same_hosts hosts (some old) = same_texts hosts old

abbrev no_hosts : Option (List String) → Bool
no_hosts none = true
no_hosts (some hosts) = is_empty hosts

-- The hosts of the status, and whether they are new.
unfoldable pub new_hosts : Round → Option (List String) → Option (List String) × Bool
new_hosts c old =
    if c.openshift
    then if c.server.spec.disable_http_route
      then if no_hosts old then (old, false) else (none, true)
      else if same_hosts c.hosts old
      then (old, false)
      else (some c.hosts, true)
    else (old, false)

-- Every pod of the name is deleted; an error is dropped.
unfoldable pub delete_named : String → List Pod → M (Unit {0})
delete_named name [] = pure tt
delete_named name (p ∷ ps) =
    if str_eq p.name name
    then (do Resources.delete (pod p); delete_named name ps)
    else delete_named name ps

abbrev reset : PodStatus → PodStatus
reset s = record s { state = active }

-- The loop that makes each status active again, and whether one was not.
unfoldable pub reactivate : List Pod → List PodStatus → M (List PodStatus × Bool)
reactivate pods [] = pure ([], false)
reactivate pods (s ∷ ss) =
    if is_active s.state
    then (do r ← reactivate pods ss; pure (s ∷ r.0, r.1))
    else (do delete_named s.name pods; r ← reactivate pods ss; pure (reset s ∷ r.0, true))

abbrev reactivate_if : Bool → List Pod → List PodStatus → M (List PodStatus × Bool)
reactivate_if true pods statuses = reactivate pods statuses
reactivate_if false pods statuses = pure (statuses, false)

abbrev pub with_status : WildFlyServer → WildFlyServerStatus → WildFlyServer
with_status w s = record w { status = s }

-- The status that is written, given the hosts and the pods' statuses before it.
unfoldable pub final_status : Round → Option (List String) → List PodStatus → WildFlyServerStatus
final_status c hosts statuses = record (c.server.status) {
  replicas = c.set_replicas;
  pods = (get_pod_status c.pods statuses).1;
  hosts = hosts;
  scalingdown_pods = c.to_scale_down;
}

-- updateWildflyServer
unfoldable pub status_changes : Round → Bool → List PodStatus → Bool → Bool
status_changes c hosts_changed statuses reactivated =
    hosts_changed
    || not (eqb_ℤ c.server.status.scalingdown_pods c.to_scale_down)
    || reactivated
    || not (same_statuses (get_pod_status c.pods statuses).1 statuses)
    || not (eqb_ℤ c.server.status.replicas c.set_replicas)

abbrev saved : Option ApiError → Reply
saved (some e) = fails (api e)
saved none = again

-- Whether the recovery or the StatefulSet asked for a later round.
abbrev pub wants_later : Round → Bool
wants_later c = leb requeue_later c.recovery_requeue || leb requeue_later c.set_requeue

write_status : Round → Option (List String) × Bool → List PodStatus × Bool → M Reply
write_status c (hosts, hosts_changed) (statuses, reactivated) =
    if status_changes c hosts_changed statuses reactivated
    then (do
      e ← Resources.update_status (with_status c.server (final_status c hosts statuses))
      pure (saved e))
    else pure (reply ((get_pod_status c.pods statuses).0 || wants_later c) none)

unfoldable pub finish_round : Round → M Reply
unfolding write_status
finish_round c = do
  r ← reactivate_if (leb_ℤ c.to_scale_down (pos 0)) c.pods c.server.status.pods
  write_status c (new_hosts c c.server.status.hosts) r

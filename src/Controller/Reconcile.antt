-- ===== src/Controller/Reconcile.antt =====
-- Reconcile of controllers/wildflyserver_controller.go, cut at its early returns.
pub mod Finish
pub mod Stages
pub mod Total
pub mod Quiet
pub mod Writes
pub mod Ordinary
use Prim.Native.String.{◌++◌ as append}
use wildfly_operator.Prelude.{
  ℕ, Bool, true, false, not, ◌&&◌, ◌||◌, Option, none, some, List, [], ◌∷◌, String, length, ◌==◌,
  is_none, if◌then◌else◌,
}
use wildfly_operator.Prelude.Int.{ℤ, pos, ◌+ℤ◌, ◌-ℤ◌, int32, ltb_ℤ, eqb_ℤ}
use wildfly_operator.Kube.{Pod, StatefulSet, Service, Route, ServiceMonitor, ApiError, not_found}
use wildfly_operator.Api.{WildFlyServer}
use wildfly_operator.World.{
  M, Env, Result, ok, err, got_server, listed_pods, ◌>>=◌, ◌>>◌, pure, crash, request, environment,
  record_event,
}
use wildfly_operator.Controller.Pods.{get_pods_for_wildfly, has_service_monitor}
use wildfly_operator.StatefulSets
use wildfly_operator.Services.{
  create_or_update_cluster_service, create_or_update_headless_service,
  create_or_update_admin_service,
}
use wildfly_operator.Routes.{get_or_create_route, delete_existing_route}
use wildfly_operator.ServiceMonitors.{get_or_create_service_monitor}
use wildfly_operator.Resources.Markers.{marker_operated_by_loadbalancer}
use wildfly_operator.Recovery.Types.{RecoveryError, requeue_off, requeue_later, requeue_now}
use wildfly_operator.Recovery.Labels.{set_label_as_disabled}
use wildfly_operator.Recovery.Process.{process_recovery}
use wildfly_operator.Recovery.Process.Skip.{Processed}
use wildfly_operator.Controller.Labels.{validate, labels_for_wildfly}
use wildfly_operator.Controller.PodStatuses.{clean_up_pod_status}
use wildfly_operator.Controller.Scale.{Scaled, check_stateful_set}
use Finish.{
  ReconcileError, Reply, reply, again, stop, fails, api_error, recovery_error, api, invalid_server,
  Round, finish_round,
}

-- The last stage: hosts, pod states and status.
after_monitor : Round → Result ApiError (Option ServiceMonitor) → M Reply
after_monitor c (err e) = pure (fails (api e))
after_monitor c (ok none) = pure again
after_monitor c (ok (some m)) = finish_round c

monitor_stage : Round → Env → M Reply
unfolding after_monitor
monitor_stage c env =
    if has_service_monitor env
    then (do
      r ← get_or_create_service_monitor c.server (labels_for_wildfly env c.server)
      after_monitor c r)
    else finish_round c

after_route : Round → Env → Result ApiError (Option Route) → M Reply
after_route c env (err e) = pure (fails (api e))
after_route c env (ok none) = pure again
after_route c env (ok (some r)) = monitor_stage (record c { hosts = r.ingress_hosts }) env

after_delete : Round → Env → Bool × Option ApiError → M Reply
after_delete c env (deleted, some e) = pure (fails (api e))
after_delete c env (true, none) = pure stop
after_delete c env (false, none) = monitor_stage c env

route_stage : Round → Env → M Reply
unfolding after_route after_delete monitor_stage
route_stage c env =
    if c.openshift
    then if c.server.spec.disable_http_route
      then (do r ← delete_existing_route c.server; after_delete c env r)
      else (do
        r ← get_or_create_route c.server (labels_for_wildfly env c.server)
        after_route c env r)
    else monitor_stage c env

-- A service that was written ends the round.
after_service : M Reply → Result ApiError (Option Service) → M Reply
after_service next (err e) = pure (fails (api e))
after_service next (ok none) = pure again
after_service next (ok (some s)) = next

service_stage : Round → Env → M Reply
unfolding after_service route_stage
service_stage c env = do
  let labels = labels_for_wildfly env c.server
  r ← create_or_update_cluster_service c.server labels
  after_service
      (do
        r' ← create_or_update_headless_service c.server labels
        after_service
            (do
              r'' ← create_or_update_admin_service c.server labels
              after_service (route_stage c env) r'')
            r')
      r

abbrev unless_error : Option ApiError → M Reply → M Reply
unless_error (some e) next = pure (fails (api e))
unless_error none next = next

pub after_scale : Round → Env → Scaled → M Reply
after_scale c env s =
    if s.must_reconcile == requeue_now
    then pure (reply true (api_error s.error))
    else unless_error s.error (service_stage (record c { set_requeue = s.must_reconcile }) env)

pub scale_stage : Round → Env → StatefulSet → M Reply
unfolding after_scale service_stage
scale_stage c env s = do r ← check_stateful_set c.server c.openshift s c.pods; after_scale c env r

-- The error of the recovery is only logged, unless the round has to be repeated at once.
after_recovery : Round → Env → StatefulSet → Processed → M Reply
unfolding scale_stage
after_recovery c env s p =
    if p.must_reconcile == requeue_now
    then pure (reply true (recovery_error p.error))
    else scale_stage (record c { server = p.server; recovery_requeue = p.must_reconcile }) env s

after_labels : Round → Env → StatefulSet → Bool × Option RecoveryError → M Reply
unfolding after_recovery
after_labels c env s (updated, e) =
    if updated || not (is_none e)
    then pure (reply updated (recovery_error e))
    else (do p ← process_recovery c.server c.to_scale_down c.pods; after_recovery c env s p)

-- Both waits: for the set to follow the spec, and for all of its pods.
unfoldable pub must_wait : ℤ → ℤ → ℤ → Bool
must_wait wanted current deployed =
    (eqb_ℤ current wanted && not (eqb_ℤ deployed wanted)) || ltb_ℤ deployed current

after_clean_up : Round → Env → StatefulSet → ℤ → Result ApiError Bool × WildFlyServer → M Reply
unfolding after_labels must_wait
after_clean_up c env s current (err e, w) = pure (fails (api e))
after_clean_up c env s current (ok true, w) = pure again
after_clean_up c env s current (ok false, w) =
    if must_wait w.spec.replicas current (int32 (pos (length c.pods))) then pure again else (do
      r ← set_label_as_disabled w marker_operated_by_loadbalancer c.to_scale_down c.pods
      after_labels c env s r)

-- The variables once the pods are listed.
abbrev pub new_round : WildFlyServer → Bool → StatefulSet → List Pod → ℤ → Round
new_round w openshift s pods current = record {
  server = w;
  pods = pods;
  openshift = openshift;
  hosts = [];
  to_scale_down = int32 (current -ℤ w.spec.replicas);
  set_replicas = s.status_replicas;
  recovery_requeue = requeue_off;
  set_requeue = requeue_off;
}

-- With the pods in order: the numbers of the round, and a nil pointer where the set has no size.
pub with_pods : Env → WildFlyServer → Bool → StatefulSet → List Pod → M Reply
unfolding after_clean_up
with_pods env w openshift s pods = elim s.replicas [
  | none ↦ crash
  | some current ↦ do
    r ← clean_up_pod_status w pods
    after_clean_up (new_round w openshift s pods current) env s current r
]

pub after_list : Env → WildFlyServer → Bool → StatefulSet → Result ApiError (List Pod) → M Reply
after_list env w openshift s (err e) = pure (fails (api e))
after_list env w openshift s (ok pods) = with_pods env w openshift s pods

after_set : Env → WildFlyServer → Bool → Result ApiError (Option StatefulSet) → M Reply
unfolding with_pods after_list
after_set env w openshift (err e) = pure (fails (api e))
after_set env w openshift (ok none) = pure again
after_set env w openshift (ok (some s)) = do
  r ← get_pods_for_wildfly env w
  after_list env w openshift s r

-- desiredReplicaSizeForNewStatefulSet
abbrev pub desired_size : WildFlyServer → ℤ
desired_size w = int32 (w.spec.replicas +ℤ w.status.scalingdown_pods)

abbrev pub with_selector : WildFlyServer → WildFlyServer
with_selector w = record w {
  status = record (w.status) { selector = append "app.kubernetes.io/name=" w.name };
}

set_stage : Env → WildFlyServer → Bool → M Reply
unfolding after_set
set_stage env w openshift = do
  r ← StatefulSets.get_or_create w (labels_for_wildfly env w) (desired_size w) openshift
  after_set env w openshift r

-- The error is recorded as an event, also a missing one, and ends the round.
unfoldable pub manage_error : Option ReconcileError → M Reply
manage_error e = do record_event "WildFlyProcessingError"; pure (reply false e)

after_server : Env → Bool → Result ApiError WildFlyServer → M Reply
unfolding set_stage manage_error
after_server env openshift (err not_found) = pure stop
after_server env openshift (err e) = pure (fails (api e))
after_server env openshift (ok w) =
    if validate w
    then set_stage env (with_selector w) openshift
    else manage_error (some invalid_server)

unfoldable pub reconcile : Bool → String → M Reply
unfolding after_server
reconcile openshift name = do
  env ← environment
  r ← request (λ env' h. env'.get_server h name) (got_server name)
  after_server env openshift r

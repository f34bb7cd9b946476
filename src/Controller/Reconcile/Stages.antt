-- ===== src/Controller/Reconcile/Stages.antt =====
-- The stages of Reconcile in controllers/wildflyserver_controller.go after the recovery always end.
use wildfly_operator.Prelude.{Bool, true, false, ◌==◌, Option, none, some}
use wildfly_operator.Kube.{ApiError, StatefulSet, Service, Route, ServiceMonitor}
use wildfly_operator.World.{M, Env, Result, ok, err}
use wildfly_operator.World.Rules.{Runs, Anything, total_pure, total_bind, total_if}
use wildfly_operator.Services.Total.{
  cluster_service-Runs, headless_service-Runs, admin_service-Runs,
}
use wildfly_operator.Routes.Total.{route-Runs, delete_route-Runs}
use wildfly_operator.ServiceMonitors.Total.{service_monitor-Runs}
use wildfly_operator.StatefulSets.Total.{IsSized}
use wildfly_operator.Recovery.Types.{requeue_now}
use wildfly_operator.Controller.Scale.{Scaled}
use wildfly_operator.Controller.Scale.Total.{check_stateful_set-Runs}
use wildfly_operator.Controller.Reconcile.{
  after_monitor, monitor_stage, after_route, after_delete, route_stage, after_service,
  service_stage, unless_error, after_scale, scale_stage,
}
use wildfly_operator.Controller.Reconcile.Finish.{Reply, Round}
use wildfly_operator.Controller.Reconcile.Finish.Total.{finish_round-Runs}

after_monitor-Runs :
    (c : Round) (r : Result ApiError (Option ServiceMonitor)) → Runs Anything (after_monitor c r)
unfolding after_monitor
after_monitor-Runs c (err e) = total_pure _
after_monitor-Runs c (ok none) = total_pure _
after_monitor-Runs c (ok (some m)) = finish_round-Runs c

monitor_stage-Runs : (c : Round) (env : Env) → Runs Anything (monitor_stage c env)
unfolding monitor_stage
monitor_stage-Runs c env =
    total_if _ _ _ (total_bind _ _ (service_monitor-Runs _ _) (λ r. after_monitor-Runs c r))
      (finish_round-Runs c)

after_route-Runs :
    (c : Round) (env : Env) (r : Result ApiError (Option Route))
    → Runs Anything (after_route c env r)
unfolding after_route
after_route-Runs c env (err e) = total_pure _
after_route-Runs c env (ok none) = total_pure _
after_route-Runs c env (ok (some r)) = monitor_stage-Runs _ env

after_delete-Runs :
    (c : Round) (env : Env) (r : Bool × Option ApiError) → Runs Anything (after_delete c env r)
unfolding after_delete
after_delete-Runs c env (deleted, some e) = total_pure _
after_delete-Runs c env (true, none) = total_pure _
after_delete-Runs c env (false, none) = monitor_stage-Runs c env

route_stage-Runs : (c : Round) (env : Env) → Runs Anything (route_stage c env)
unfolding route_stage
route_stage-Runs c env =
    total_if _ _ _
      (total_if _ _ _ (total_bind _ _ (delete_route-Runs _) (λ r. after_delete-Runs c env r))
        (total_bind _ _ (route-Runs _ _) (λ r. after_route-Runs c env r)))
      (monitor_stage-Runs c env)

after_service-Runs :
    (next : M Reply) (r : Result ApiError (Option Service))
    → Runs Anything next
    → Runs Anything (after_service next r)
unfolding after_service
after_service-Runs next (err e) k = total_pure _
after_service-Runs next (ok none) k = total_pure _
after_service-Runs next (ok (some s)) k = k

service_stage-Runs : (c : Round) (env : Env) → Runs Anything (service_stage c env)
unfolding service_stage
service_stage-Runs c env = total_bind _ _ (cluster_service-Runs _ _) λ r. after_service-Runs _ r (
    total_bind _ _ (headless_service-Runs _ _) λ r'. after_service-Runs _ r' (
      total_bind _ _ (admin_service-Runs _ _)
        λ r''. after_service-Runs _ r'' (route_stage-Runs c env)))

unless_error-Runs :
    (e : Option ApiError) (next : M Reply)
    → Runs Anything next
    → Runs Anything (unless_error e next)
unless_error-Runs (some e) next k = total_pure _
unless_error-Runs none next k = k

after_scale-Runs : (c : Round) (env : Env) (s : Scaled) → Runs Anything (after_scale c env s)
unfolding after_scale
after_scale-Runs c env s =
    total_if (s.must_reconcile == requeue_now) _ _ (total_pure _)
      (unless_error-Runs s.error _ (service_stage-Runs _ env))

-- With a set that has a size and annotations.
pub scale_stage-Runs :
    (c : Round) (env : Env) (s : StatefulSet) → IsSized s → Runs Anything (scale_stage c env s)
unfolding scale_stage
scale_stage-Runs c env s (k, sized, small, marked) =
    total_bind _ _ (check_stateful_set-Runs c.server c.openshift s c.pods marked sized)
      (λ r. after_scale-Runs c env r)

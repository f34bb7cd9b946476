-- ===== src/Controller/Reconcile/Quiet.antt =====
-- The stages of Reconcile in controllers/wildflyserver_controller.go after checkStatefulSet write no
-- StatefulSet.
use wildfly_operator.Prelude.{Bool, true, false, ◌==◌, Option, none, some}
use wildfly_operator.Kube.{ApiError, Service, Route, ServiceMonitor}
use wildfly_operator.World.{M, Env, Result, ok, err}
use wildfly_operator.World.Quiet.{Quiet, Quiet-pure, Quiet-bind, Quiet-if}
use wildfly_operator.Services.Quiet.{
  cluster_service-Quiet, headless_service-Quiet, admin_service-Quiet,
}
use wildfly_operator.Routes.Quiet.{route-Quiet, delete_route-Quiet}
use wildfly_operator.ServiceMonitors.Quiet.{service_monitor-Quiet}
use wildfly_operator.Recovery.Types.{requeue_now}
use wildfly_operator.Controller.Scale.{Scaled}
use wildfly_operator.Controller.Reconcile.{
  after_monitor, monitor_stage, after_route, after_delete, route_stage, after_service,
  service_stage, unless_error, after_scale,
}
use wildfly_operator.Controller.Reconcile.Finish.{Reply, Round}
use wildfly_operator.Controller.Reconcile.Finish.Quiet.{finish_round-Quiet}

after_monitor-Quiet :
    (c : Round) (r : Result ApiError (Option ServiceMonitor)) → Quiet (after_monitor c r)
unfolding after_monitor
after_monitor-Quiet c (err e) = Quiet-pure _
after_monitor-Quiet c (ok none) = Quiet-pure _
after_monitor-Quiet c (ok (some m)) = finish_round-Quiet c

monitor_stage-Quiet : (c : Round) (env : Env) → Quiet (monitor_stage c env)
unfolding monitor_stage
monitor_stage-Quiet c env =
    Quiet-if _ _ _ (Quiet-bind _ _ (service_monitor-Quiet _ _) (λ r. after_monitor-Quiet c r))
      (finish_round-Quiet c)

after_route-Quiet :
    (c : Round) (env : Env) (r : Result ApiError (Option Route)) → Quiet (after_route c env r)
unfolding after_route
after_route-Quiet c env (err e) = Quiet-pure _
after_route-Quiet c env (ok none) = Quiet-pure _
after_route-Quiet c env (ok (some r)) = monitor_stage-Quiet _ env

after_delete-Quiet :
    (c : Round) (env : Env) (r : Bool × Option ApiError) → Quiet (after_delete c env r)
unfolding after_delete
after_delete-Quiet c env (deleted, some e) = Quiet-pure _
after_delete-Quiet c env (true, none) = Quiet-pure _
after_delete-Quiet c env (false, none) = monitor_stage-Quiet c env

route_stage-Quiet : (c : Round) (env : Env) → Quiet (route_stage c env)
unfolding route_stage
route_stage-Quiet c env =
    Quiet-if _ _ _
      (Quiet-if _ _ _ (Quiet-bind _ _ (delete_route-Quiet _) (λ r. after_delete-Quiet c env r))
        (Quiet-bind _ _ (route-Quiet _ _) (λ r. after_route-Quiet c env r)))
      (monitor_stage-Quiet c env)

after_service-Quiet :
    (next : M Reply) (r : Result ApiError (Option Service))
    → Quiet next
    → Quiet (after_service next r)
unfolding after_service
after_service-Quiet next (err e) k = Quiet-pure _
after_service-Quiet next (ok none) k = Quiet-pure _
after_service-Quiet next (ok (some s)) k = k

service_stage-Quiet : (c : Round) (env : Env) → Quiet (service_stage c env)
unfolding service_stage
service_stage-Quiet c env = Quiet-bind _ _ (cluster_service-Quiet _ _) λ r.
    after_service-Quiet _ r (
      Quiet-bind _ _ (headless_service-Quiet _ _) λ r'. after_service-Quiet _ r' (
        Quiet-bind _ _ (admin_service-Quiet _ _)
          λ r''. after_service-Quiet _ r'' (route_stage-Quiet c env)))

unless_error-Quiet :
    (e : Option ApiError) (next : M Reply) → Quiet next → Quiet (unless_error e next)
unless_error-Quiet (some e) next k = Quiet-pure _
unless_error-Quiet none next k = k

pub after_scale-Quiet : (c : Round) (env : Env) (s : Scaled) → Quiet (after_scale c env s)
unfolding after_scale
after_scale-Quiet c env s =
    Quiet-if (s.must_reconcile == requeue_now) _ _ (Quiet-pure _)
      (unless_error-Quiet s.error _ (service_stage-Quiet _ env))

-- ===== src/Controller/Reconcile/Ordinary.antt =====
-- Reconcile of controllers/wildflyserver_controller.go always ends on a cluster whose objects have the
-- fields that it reads.
use wildfly_operator.Prelude.{ℕ, ◌^◌, ◌<◌, ◌≡◌, List, String, StringMap}
use wildfly_operator.Prelude.Int.{pos}
use wildfly_operator.Kube.{ApiError, Pod}
use wildfly_operator.Api.{WildFlyServer}
use wildfly_operator.World.{Env, History, Result, ok, ◌>>=◌}
use wildfly_operator.Util.Pods.{sort_pods_by_name}
use wildfly_operator.StatefulSets.Total.{IsUsable}
use wildfly_operator.Recovery.Process.Total.{KnownIfAsMany}
use wildfly_operator.Controller.Labels.{labels_for_wildfly}
use wildfly_operator.Controller.Reconcile.{with_selector}

-- A cluster whose objects have what a round of the server reads: each set has a size and annotations, or
-- there is none; the server wants a size that is not negative; and once the statuses are as many as
-- the pods, each pod has one.
pub record IsOrdinary (env : Env) (name : String) : Type 0 where
  pub sized : (h : History) (set : String) → IsUsable (env.get_stateful_set h set)
  pub wanted :
      (h : History) (w : WildFlyServer)
      → env.get_server h name ≡ ok w
      → (m : ℕ) × (w.spec.replicas ≡ pos m) × (m < 2 ^ 31)
  pub known :
      (h h' : History) (w : WildFlyServer) (labels : StringMap) (pods : List Pod)
      → env.get_server h name ≡ ok w
      → env.list_pods h' w.namespace labels ≡ ok pods
      → KnownIfAsMany w (sort_pods_by_name pods)

module _ (env : Env) (name : String) (ordinary : IsOrdinary env name) where
  module _ (asked : History) (u : WildFlyServer) (got : env.get_server asked name ≡ ok u) where
    -- The server with its selector, which the round goes on with.
    abbrev w : WildFlyServer
    w = with_selector u

    -- The list is an answer of the API server.
    abbrev IsListed : Result ApiError (List Pod) → Type 0
    IsListed r = (h : History) × (env.list_pods h w.namespace (labels_for_wildfly env w) ≡ r)

  -- The answer is the API server's.
  abbrev IsGot : Result ApiError WildFlyServer → Type 0
  IsGot r = (h : History) × (env.get_server h name ≡ r)

-- ===== src/Tests/Cluster.antt =====
-- An ordinary cluster, on which a whole round of the server runs.
use wildfly_operator.Prelude.{refl, false, none, some, [], ◌∷◌, List, arith}
use wildfly_operator.Prelude.Int.{pos}
use wildfly_operator.Kube.{ApiError, Pod, StatefulSet}
use wildfly_operator.Api.{WildFlyServer}
use wildfly_operator.World.{Env, Result, ok, err}
use wildfly_operator.World.Rules.{Anything}
use wildfly_operator.Recovery.Statuses.{find_status}
use wildfly_operator.World.Emits.{Emits}
use wildfly_operator.Recovery.Process.Loops.{AllKnown}
use wildfly_operator.Recovery.Process.Frame.{status_names}
use wildfly_operator.Controller.Scale.Names.{AreDistinct}
use wildfly_operator.Controller.Reconcile.{with_pods}
use wildfly_operator.Controller.Reconcile.Writes.{RoundWrites, with_pods-safe}
use wildfly_operator.Tests.Data.{server0, env0, three_pods}

-- The set of the three pods.
abbrev pub set0 : StatefulSet
set0 = record {
  name = "a";
  namespace = "ns";
  labels = [];
  annotations = ("wildfly.org/wildfly-server-generation", "7") ∷ [];
  replicas = some (pos 3);
  service_name = "a-headless";
  selector = [];
  template = none;
  volume_claim_templates = [];
  status_replicas = pos 3;
}

abbrev cluster : Env
cluster = record env0 { get_stateful_set = λ h n. ok set0 }

abbrev server_of : Result ApiError WildFlyServer → WildFlyServer
server_of (ok w) = w
server_of (err e) = server0

abbrev pods_of : Result ApiError (List Pod) → List Pod
pods_of (ok pods) = pods
pods_of (err e) = []

three_known : AllKnown server0.status.pods three_pods
unfolding find_status
three_known = (refl, (refl, (refl, tt)))

distinct_names : AreDistinct (status_names server0.status.pods)
distinct_names = ((refl, (refl, tt)), ((refl, tt), (tt, tt)))

with_pods-safe_example :
    Emits cluster
      (RoundWrites cluster server0 set0 three_pods 3)
      Anything
      (with_pods cluster server0 false set0 three_pods)
with_pods-safe_example =
    with_pods-safe cluster server0 false set0 three_pods 3 1 refl refl (omega arith) (omega arith)
      (omega arith) three_known distinct_names

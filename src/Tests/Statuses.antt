-- ===== src/Tests/Statuses.antt =====
-- The theorems on the pods' statuses and on the size of the StatefulSet at a concrete server.
use mathlib.Core.List.{Perm}
use wildfly_operator.Prelude.{codes, str_eq}
use wildfly_operator.Util.Numbers.{format_int, format_nat}
use wildfly_operator.Prelude.{
  ℕ, ◌≡◌, refl, ◌↔◌, true, false, none, some, List, [], ◌∷◌, arith, All, Any,
}
use mathlib.Core.List.{reverse}
use wildfly_operator.Prelude.Int.{pos}
use wildfly_operator.Kube.{Pod, StatefulSet}
use wildfly_operator.Api.{scaling_down_clean, WildFlyServer}
use wildfly_operator.Recovery.Types.{requeue_off}
use wildfly_operator.Util.Pods.{sort_pods_by_name}
use wildfly_operator.Util.Pods.Order.{HasOrdinal, InOrder, filtered, sort_pods_by_name_lem}
use wildfly_operator.Controller.PodStatuses.{original_status, get_pod_status, kept_statuses}
use wildfly_operator.Controller.PodStatuses.Kept.{
  AreStatusesOf, IsNeeded, get_pod_status_lem, kept_statuses-Any,
}
use wildfly_operator.Controller.Scale.{check_stateful_set}
use wildfly_operator.Controller.Scale.Size.{HasStatus}
use wildfly_operator.Controller.Reconcile.Finish.{Round}
use wildfly_operator.Tests.Cluster.{set0}
use wildfly_operator.Prelude.{Bool}
use wildfly_operator.World.Emits.{Emits}
use wildfly_operator.World.Rules.{Anything}
use wildfly_operator.Controller.Scale.{check_stateful_set}
use wildfly_operator.Controller.Scale.Writes.{IsSafeWrite, check_stateful_set-safe}
use wildfly_operator.Tests.Data.{server0, env0, pod_named, status_named, three_pods, three_statuses}

have_statuses : All (HasStatus three_statuses) (reverse three_pods)
unfolding original_status
have_statuses = ((_, refl), ((_, refl), ((_, refl), tt)))

-- The last pod has no status, and the one before it is clean.
abbrev with_unknown : List Pod
with_unknown = pod_named "a-0" ∷ pod_named "a-2" ∷ pod_named "a-9" ∷ []

-- All pods are clean, of which the server wants one.
abbrev all_clean : WildFlyServer
all_clean = record server0 {
  status = record (server0.status) {
    pods =
        status_named "a-0" scaling_down_clean
        ∷ status_named "a-1" scaling_down_clean
        ∷ status_named "a-2" scaling_down_clean
        ∷ [];
  };
}

abbrev old_set : StatefulSet
old_set = record {
  name = "a";
  namespace = "ns";
  labels = [];
  annotations = ("other", "x") ∷ [];
  replicas = some (pos 3);
  service_name = "a-headless";
  selector = [];
  template = none;
  volume_claim_templates = [];
  status_replicas = pos 3;
}

get_pod_status_lem_example :
    (((get_pod_status three_pods three_statuses).0 ≡ true) ↔ Any (λ p. p.pod_ip ≡ "") three_pods)
    × AreStatusesOf three_statuses three_pods (get_pod_status three_pods three_statuses).1
get_pod_status_lem_example = get_pod_status_lem three_pods three_statuses

kept_statuses-Any_example :
    Any (λ s. s.name ≡ "a-2") (kept_statuses [] three_statuses)
    ↔ Any (λ s. (s.name ≡ "a-2") × IsNeeded [] s) three_statuses
kept_statuses-Any_example = kept_statuses-Any (λ s. s.name ≡ "a-2") [] three_statuses

abbrev mixed_pods : List Pod
mixed_pods = pod_named "a-10" ∷ pod_named "a-2" ∷ []

mixed_ordinals : All (λ p. (n : ℕ) × HasOrdinal p n) mixed_pods
unfolding format_int format_nat
mixed_ordinals = ((10, (codes "a", refl, omega arith)), ((2, (codes "a", refl, omega arith)), tt))

abbrev is_second : Pod → Bool
is_second p = str_eq p.name "a-2"

second_ordinal : All (λ p. is_second p ≡ true → HasOrdinal p 2) mixed_pods
unfolding format_int format_nat
second_ordinal = ((λ e. absurd cc), ((λ e. (codes "a", refl, omega arith)), tt))

sort_pods_by_name_lem_example :
    Perm (sort_pods_by_name mixed_pods) mixed_pods
    × InOrder (sort_pods_by_name mixed_pods)
    × (filtered is_second (sort_pods_by_name mixed_pods) ≡ filtered is_second mixed_pods)
sort_pods_by_name_lem_example =
    sort_pods_by_name_lem mixed_pods is_second 2 mixed_ordinals second_ordinal

abbrev round0 : Round
round0 = record {
  server = server0;
  pods = three_pods;
  openshift = true;
  hosts = "a.example" ∷ [];
  to_scale_down = pos 2;
  set_replicas = pos 3;
  recovery_requeue = requeue_off;
  set_requeue = requeue_off;
}

check_stateful_set-safe_example :
    Emits env0
      (IsSafeWrite server0 set0 three_pods 3)
      Anything
      (check_stateful_set server0 false set0 three_pods)
check_stateful_set-safe_example =
    check_stateful_set-safe env0 server0 set0 three_pods 3 refl (omega arith) have_statuses 1 false
      refl

-- ===== src/Tests/Scaling.antt =====
-- What is written of the StatefulSet after a recovery of its only pod.
use wildfly_operator.Prelude.{false, none, some, [], ◌∷◌, refl, arith}
use wildfly_operator.Prelude.Int.{pos}
use wildfly_operator.Recovery.Types.{requeue_off}
use wildfly_operator.Recovery.Process.{process_recovery}
use wildfly_operator.Recovery.Process.Skip.{processed}
use wildfly_operator.Kube.{StatefulSet}
use wildfly_operator.World.Emits.{Emits}
use wildfly_operator.World.Rules.{Anything}
use wildfly_operator.Controller.Scale.{check_stateful_set}
use wildfly_operator.Controller.Scale.Grounded.{IsGroundedWrite, scale_after_recovery}
use wildfly_operator.Tests.Cluster.{set0}
use wildfly_operator.Tests.Remote.{
  env_over, server_down, server_clean, one_pod, known_before, recovery_done,
}

-- A StatefulSet of an older generation.
abbrev old_set : StatefulSet
old_set = record set0 {
  annotations = ("wildfly.org/wildfly-server-generation", "6") ∷ [];
  replicas = some (pos 1);
}

scale_after_recovery_example :
    Emits env_over
      (IsGroundedWrite env_over server_down old_set one_pod 1
        (process_recovery server_down (pos 1) one_pod env_over []).1)
      Anything
      (check_stateful_set server_clean false old_set one_pod)
scale_after_recovery_example =
    scale_after_recovery env_over server_down (pos 1) one_pod []
      (process_recovery server_down (pos 1) one_pod env_over []).1
      (processed requeue_off none server_clean) (omega arith) known_before (tt, tt) recovery_done
      old_set 1 0 false refl refl (omega arith)

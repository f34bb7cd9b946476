-- ===== src/Controller/Scale/Limits.antt =====
-- Where checkStatefulSet of controllers/wildflyserver_controller.go writes a size that its plan for
-- the pods does not cover.
use wildfly_operator.Prelude.{Option, none, List, [], ◌∷◌}
use wildfly_operator.Prelude.Int.{ℤ}
use wildfly_operator.World.{History, Event, updated, stateful_set}
use wildfly_operator.Resources

-- The size of a StatefulSet that was written.
abbrev pub written_size : Event → Option ℤ
written_size (updated (stateful_set s) e) = s.replicas
written_size _ = none

abbrev pub last_written_size : History → Option ℤ
last_written_size [] = none
last_written_size (e ∷ h) = written_size e

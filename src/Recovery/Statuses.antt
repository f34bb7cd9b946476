-- ===== src/Recovery/Statuses.antt =====
-- Where transaction_recovery.go and wildflyserver_controller.go look up and write the pods' statuses.
pub mod Known
use wildfly_operator.Prelude.{Option, none, some, List, [], ◌∷◌, String, str_eq, if◌then◌else◌}
use wildfly_operator.Api.{PodState, PodStatus, WildFlyServer}

-- getWildflyServerPodStatusByName; `none` is the nil pointer.
unfoldable pub find_status : String → List PodStatus → Option PodStatus
find_status name [] = none
find_status name (s ∷ ss) = if str_eq name s.name then some s else find_status name ss

-- A write through the pointer that getWildflyServerPodStatusByName gives.
unfoldable pub put_status : String → PodStatus → List PodStatus → List PodStatus
put_status name t [] = []
put_status name t (s ∷ ss) = if str_eq name s.name then t ∷ ss else s ∷ put_status name t ss

abbrev pub with_pods : WildFlyServer → List PodStatus → WildFlyServer
with_pods w ps = record w { status = record (w.status) { pods = ps } }

abbrev pub with_state : PodStatus → PodState → PodStatus
with_state s state = record s { state = state }

-- ===== src/Resources/Generation.antt =====
-- pkg/resources/generation.go: which generation of the server an object was made for.
pub mod Marking
use wildfly_operator.Prelude.{
  Bool, false, Option, none, some, String, StringMap, codes, lookup, insert,
}
use wildfly_operator.Prelude.Int.{ℤ, eqb_ℤ}
use wildfly_operator.Api.{WildFlyServer}
use wildfly_operator.World.{Object, stateful_set, service, route, service_monitor, pod}
use wildfly_operator.Util.Numbers.{parse_int, format_int}
use wildfly_operator.Resources.Markers.{marker_server_generation}

abbrev generation_is : ℤ → Option ℤ → Bool
generation_is g none = false
generation_is g (some n) = eqb_ℤ n g

abbrev marked_with : ℤ → Option String → Bool
marked_with g none = false
marked_with g (some s) = generation_is g (parse_int 64 (codes s))

-- IsCurrentGeneration at an object's annotations.
unfoldable pub is_current_generation : WildFlyServer → StringMap → Bool
is_current_generation w annotations =
    marked_with w.generation (lookup marker_server_generation annotations)

-- MarkServerGeneration
unfoldable pub mark_server_generation : WildFlyServer → StringMap → StringMap
mark_server_generation w annotations =
    insert marker_server_generation (format_int w.generation) annotations

unfoldable pub mark_object : WildFlyServer → Object → Object
mark_object w (stateful_set s) =
    stateful_set (record s { annotations = mark_server_generation w s.annotations })
mark_object w (service s) =
    service (record s { annotations = mark_server_generation w s.annotations })
mark_object w (route r) = route (record r { annotations = mark_server_generation w r.annotations })
mark_object w (service_monitor s) =
    service_monitor (record s { annotations = mark_server_generation w s.annotations })
mark_object w (pod p) = pod (record p { annotations = mark_server_generation w p.annotations })

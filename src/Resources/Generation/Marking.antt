-- ===== src/Resources/Generation/Marking.antt =====
-- MarkServerGeneration and IsCurrentGeneration of pkg/resources/generation.go, one after the other.
use wildfly_operator.Prelude.{◌≡◌, ap, ◌∙◌, some, StringMap, lookup, lookup-insert}
use wildfly_operator.Prelude.Int.{eqb_ℤ}
use wildfly_operator.Api.{WildFlyServer}
use wildfly_operator.Util.Numbers.{format_int, Fits, parse_int-format_int}
use wildfly_operator.Resources.Generation.{
  marked_with, generation_is, is_current_generation, mark_server_generation,
}
use wildfly_operator.Resources.Markers.{marker_server_generation}

lookup_marker :
    (w : WildFlyServer) (annotations : StringMap)
    → lookup marker_server_generation (mark_server_generation w annotations)
      ≡ some (format_int w.generation)
unfolding mark_server_generation
lookup_marker w annotations =
    lookup-insert marker_server_generation marker_server_generation (format_int w.generation)
      annotations

-- Annotations that were marked for one server are current for another exactly where the two have the
-- same generation, whatever was in the annotations; generations are of 64 bits.
pub is_current-mark :
    (w v : WildFlyServer) (annotations : StringMap)
    → Fits 64 w.generation
    → is_current_generation v (mark_server_generation w annotations)
      ≡ eqb_ℤ w.generation v.generation
unfolding is_current_generation
is_current-mark w v annotations fits =
    ap (marked_with v.generation) (lookup_marker w annotations)
    ∙ ap (generation_is v.generation) (parse_int-format_int 64 w.generation fits)

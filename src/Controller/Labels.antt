-- ===== src/Controller/Labels.antt =====
-- validate, matches, LabelsForWildFly and errorIsNoMatchesForKind of
-- controllers/wildflyserver_controller.go.
use Prim.Native.String.{◌++◌ as append}
use wildfly_operator.Prelude.{
  String, codes, Bool, true, false, not, ◌&&◌, List, [], ◌∷◌, StringMap, str_eq, insert, is_none,
  if◌then◌else◌,
}
use wildfly_operator.Kube.{EnvSource, value, field_ref, EnvVar}
use wildfly_operator.Api.{WildFlyServer}
use wildfly_operator.World.{Env}
use wildfly_operator.Remote.Patterns.{starts_with}
use wildfly_operator.Util.Maps.{insert_all}
use wildfly_operator.Resources.Markers.{env_or_empty}

-- The first answer of `validate`; the error is there where it is false.
unfoldable pub validate : WildFlyServer → Bool
validate w = not (w.spec.bootable_jar && not (is_none w.spec.standalone_config_map))

-- LabelsForWildFly
unfoldable pub labels_for_wildfly : Env → WildFlyServer → StringMap
labels_for_wildfly env w =
    insert_all
      (insert "app.openshift.io/runtime" (env_or_empty (env.getenv "LABEL_APP_RUNTIME")) (
        insert "app.kubernetes.io/managed-by" (env_or_empty (env.getenv "LABEL_APP_MANAGED_BY"))
          (insert "app.kubernetes.io/name" w.name [])))
      w.labels

abbrev same_source : EnvSource → EnvSource → Bool
same_source (value a) (value b) = str_eq a b
same_source (field_ref a b) (field_ref c d) = str_eq a c && str_eq b d
same_source _ _ = false

-- `matches` at the container's variables: whether the variable is there, and the variables after it.
unfoldable pub matches : List EnvVar → EnvVar → Bool × List EnvVar
matches [] v = (false, v ∷ [])
matches (e ∷ es) v =
    let rest = matches es v in
    if str_eq v.name e.name
    then if same_source v.source e.source then (true, e ∷ es) else (false, v ∷ es)
    else (rest.0, e ∷ rest.1)

-- errorIsNoMatchesForKind at the text of the error.
unfoldable pub error_is_no_matches_for_kind : String → String → String → Bool
unfolding starts_with
error_is_no_matches_for_kind text kind version =
    starts_with
      (codes (
        append "no matches for kind \""
          (append kind (append "\" in version \"" (append version "\"")))))
      (codes text)

-- ===== src/StatefulSets/EnvVars.antt =====
-- The environment variables that pkg/resources/statefulsets/statefulset.go adds to the container.
use Prim.Native.String.{◌++◌ as append}
use wildfly_operator.Prelude.{true, List, [], ◌∷◌, String}
use wildfly_operator.Kube.{EnvVar, value, field_ref}
use wildfly_operator.Api.{WildFlyServer}
use wildfly_operator.World.{Env}
use wildfly_operator.Util.Paths.{path_join}
use wildfly_operator.Resources.Markers.{jboss_home, jboss_home_data_dir, standalone_server_data_dir}
use wildfly_operator.Services.Names.{headless_service_name}

abbrev pub env_for_clustering : String → List EnvVar
env_for_clustering labels =
    record { name = "KUBERNETES_NAMESPACE"; source = field_ref "v1" "metadata.namespace" }
    ∷ record { name = "KUBERNETES_LABELS"; source = value labels }
    ∷ []

abbrev pub env_for_ejb_recovery : WildFlyServer → List EnvVar
env_for_ejb_recovery w =
    record { name = "STATEFULSET_HEADLESS_SERVICE_NAME"; source = value (headless_service_name w) }
    ∷ []

abbrev pub env_args_for_bootable_jar : Env → List EnvVar
env_args_for_bootable_jar env =
    record {
      name = "JAVA_ARGS";
      source = value (
          append "-Djboss.server.data.dir=" (
            append (path_join (jboss_home_data_dir env.getenv true) standalone_server_data_dir)
              (append " --install-dir=" (jboss_home env.getenv true))));
    }
    ∷ record { name = "JBOSS_HOME"; source = value (jboss_home env.getenv true) }
    ∷ []

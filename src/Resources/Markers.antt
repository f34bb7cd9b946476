-- ===== src/Resources/Markers.antt =====
-- The constants of pkg/resources/constants.go and generation.go.
use wildfly_operator.Prelude.{String, Bool, true, false, Option, none, some}
use wildfly_operator.Prelude.Int.{ℤ, pos}

abbrev pub http_application_port : ℤ
http_application_port = pos 8080

abbrev pub http_management_port : ℤ
http_management_port = pos 9990

abbrev pub marker_service_active : String
marker_service_active = "active"

abbrev pub marker_operated_by_loadbalancer : String
marker_operated_by_loadbalancer = "wildfly.org/operated-by-loadbalancer"

abbrev pub marker_operated_by_headless : String
marker_operated_by_headless = "wildfly.org/operated-by-headless"

abbrev pub marker_image_type : String
marker_image_type = "wildfly.org/server-type"

abbrev pub image_type_generic : String
image_type_generic = "generic"

abbrev pub image_type_bootable : String
image_type_bootable = "bootable-jar"

abbrev pub secrets_dir : String
secrets_dir = "/etc/secrets/"

abbrev pub config_maps_dir : String
config_maps_dir = "/etc/configmaps/"

abbrev pub standalone_server_data_dir : String
standalone_server_data_dir = "standalone/data"

abbrev pub template_labels_env_var : String
template_labels_env_var = "STATEFULSET_TEMPLATE_LABELS"

abbrev pub marker_server_generation : String
marker_server_generation = "wildfly.org/wildfly-server-generation"

-- os.Getenv: the empty text where the variable is not set.
abbrev pub env_or_empty : Option String → String
env_or_empty none = ""
env_or_empty (some s) = s

abbrev pub jboss_home : (String → Option String) → Bool → String
jboss_home getenv true = env_or_empty (getenv "JBOSS_BOOTABLE_HOME")
jboss_home getenv false = env_or_empty (getenv "JBOSS_HOME")

abbrev pub jboss_home_data_dir : (String → Option String) → Bool → String
jboss_home_data_dir getenv true = env_or_empty (getenv "JBOSS_BOOTABLE_DATA_DIR")
jboss_home_data_dir getenv false = env_or_empty (getenv "JBOSS_HOME")

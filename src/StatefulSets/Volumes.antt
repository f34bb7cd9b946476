-- ===== src/StatefulSets/Volumes.antt =====
-- The volumes, their mounts and the claims of NewStatefulSet, and createResources
-- (pkg/resources/statefulsets/statefulset.go).
pub mod Mounts
use Prim.Native.String.{◌++◌ as append}
use wildfly_operator.Prelude.{
  Bool, true, false, Option, none, some, List, [], ◌∷◌, ◌++◌, map, String, StringMap, str_eq,
  if◌then◌else◌,
}
use wildfly_operator.Kube.{
  Opaque, ResourceRequirements, Volume, VolumeMount, empty_dir, config_map, secret,
  PersistentVolumeClaim,
}
use wildfly_operator.Api.{StandaloneConfigMapSpec, StorageSpec, WildFlyServer}
use wildfly_operator.World.{Env}
use wildfly_operator.Util.Paths.{path_join}
use wildfly_operator.Util.VolumeNames.{sanitize_volume_name}
use wildfly_operator.Resources.Markers.{
  secrets_dir, config_maps_dir, standalone_server_data_dir, jboss_home, jboss_home_data_dir,
}

abbrev non_empty : Option StringMap → Option StringMap
non_empty none = none
non_empty (some []) = none
non_empty (some (kv ∷ m)) = some (kv ∷ m)

abbrev pub no_resources : ResourceRequirements
no_resources = record { limits = none; requests = none }

unfoldable pub create_resources : Option ResourceRequirements → ResourceRequirements
create_resources none = no_resources
create_resources (some r) = record { limits = non_empty r.limits; requests = non_empty r.requests }

-- The container's requirements: those of the spec overwrite what createResources made.
unfoldable pub container_resources : Option ResourceRequirements → ResourceRequirements
unfolding create_resources
container_resources none = create_resources none
container_resources (some r) = r

abbrev pub data_volume_name : WildFlyServer → String
data_volume_name w = append w.name "-volume"

abbrev pub empty_volume : String → Opaque → Volume
empty_volume name source = record { name = name; source = empty_dir source }

-- With a claim there is no volume in the template.
abbrev storage_volume : String → Option StorageSpec → List Volume
storage_volume name none = empty_volume name "{}" ∷ []
storage_volume name (some s) = elim s.empty_dir [ some d ↦ empty_volume name d ∷ [] | none ↦ [] ]

-- The claim keeps its own name if it has one.
abbrev claim : String → PersistentVolumeClaim → PersistentVolumeClaim
claim name c = record c {
  name = if str_eq c.name "" then name else c.name;
  access_modes = "ReadWriteOnce" ∷ [];
  resources = create_resources (some c.resources);
}

abbrev storage_claim : String → Option StorageSpec → List PersistentVolumeClaim
storage_claim name none = []
storage_claim name (some s) = elim s.empty_dir [
  | some d ↦ []
  | none ↦ claim name s.volume_claim_template ∷ []
]

unfoldable pub claim_templates : WildFlyServer → List PersistentVolumeClaim
unfolding create_resources
claim_templates w = storage_claim (data_volume_name w) w.spec.storage

abbrev config_volumes : Option StandaloneConfigMapSpec → List Volume
config_volumes none = []
config_volumes (some c) =
    record {
      name = "standalone-config-volume";
      source =
          config_map c.name
            ((if str_eq c.key "" then "standalone.xml" else c.key, "standalone.xml") ∷ []);
    }
    ∷ []

abbrev secret_volume_name : String → String
secret_volume_name s = sanitize_volume_name (append "secret-" s)

abbrev config_map_volume_name : String → String
config_map_volume_name cm = sanitize_volume_name (append "configmap-" cm)

abbrev secret_volume : String → Volume
secret_volume s = record { name = secret_volume_name s; source = secret s }

abbrev config_map_volume : String → Volume
config_map_volume cm = record { name = config_map_volume_name cm; source = config_map cm [] }

unfoldable pub volumes : WildFlyServer → List Volume
volumes w =
    storage_volume (data_volume_name w) w.spec.storage
    ++ (config_volumes w.spec.standalone_config_map
        ++ (map secret_volume w.spec.secrets ++ map config_map_volume w.spec.config_maps))

abbrev mount : String → Bool → String → String → VolumeMount
mount name read_only path sub = record {
  name = name;
  read_only = read_only;
  mount_path = path;
  sub_path = sub;
}

abbrev config_mounts : Env → WildFlyServer → Option StandaloneConfigMapSpec → List VolumeMount
config_mounts env w none = []
config_mounts env w (some c) =
    mount "standalone-config-volume" false
      (path_join (jboss_home env.getenv w.spec.bootable_jar)
        "standalone/configuration/standalone.xml")
      "standalone.xml"
    ∷ []

unfoldable pub volume_mounts : Env → WildFlyServer → List VolumeMount
volume_mounts env w =
    mount (data_volume_name w) false
      (path_join (jboss_home_data_dir env.getenv w.spec.bootable_jar) standalone_server_data_dir) ""
    ∷ (config_mounts env w w.spec.standalone_config_map
        ++ (map (λ s. mount (secret_volume_name s) true (path_join secrets_dir s) "") w.spec.secrets
            ++ map (λ cm. mount (config_map_volume_name cm) true (path_join config_maps_dir cm) "")
                w.spec.config_maps))

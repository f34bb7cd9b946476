-- ===== src/StatefulSets/Volumes/Mounts.antt =====
-- The mounts of NewStatefulSet (pkg/resources/statefulsets/statefulset.go) against its volumes and
-- claims.
use wildfly_operator.Prelude.{
  ◌≡◌, refl, ◌⊎◌, inl, inr, true, Option, none, some, List, [], ◌∷◌, ◌++◌, map, String, str_eq, All,
  All-append, Any, Bool-cases,
}
use wildfly_operator.Kube.{Volume, VolumeMount, PersistentVolumeClaim}
use wildfly_operator.Api.{StandaloneConfigMapSpec, StorageSpec, WildFlyServer}
use wildfly_operator.World.{Env}
use wildfly_operator.Util.Paths.{path_join}
use wildfly_operator.Resources.Markers.{secrets_dir}
use wildfly_operator.StatefulSets.Volumes.{
  data_volume_name, storage_volume, storage_claim, claim, claim_templates, config_volumes,
  secret_volume, config_map_volume, secret_volume_name, config_map_volume_name, volumes, mount,
  config_mounts, volume_mounts,
}

-- A volume of the template, or a claim of the set, has the name.
abbrev pub IsProvided : WildFlyServer → String → Type 0
IsProvided w name =
    Any (λ v. v.name ≡ name) (volumes w) ⊎ Any (λ c. c.name ≡ name) (claim_templates w)

-- A claim for the data has no name of its own, or the one that the mount uses.
abbrev pub IsNamedForMount : String → Option StorageSpec → Type 0
IsNamedForMount name none = Unit
IsNamedForMount name (some s) = elim s.empty_dir [
  | some d ↦ Unit
  | none ↦ (s.volume_claim_template.name ≡ "") ⊎ (s.volume_claim_template.name ≡ name)
]

module _ (P : Volume → Type 0) where
  Any-left : (vs us : List Volume) → Any P vs → Any P (vs ++ us)
  Any-left [] us a = absurd a
  Any-left (v ∷ vs) us (inl x) = inl x
  Any-left (v ∷ vs) us (inr a) = inr (Any-left vs us a)

  Any-right : (vs us : List Volume) → Any P us → Any P (vs ++ us)
  Any-right [] us a = a
  Any-right (v ∷ vs) us a = inr (Any-right vs us a)

-- Each item's mount has the item's volume.
mapped-All :
    (name : String → String) (f : String → VolumeMount) (g : String → Volume)
    → ((s : String) → (g s).name ≡ (f s).name)
    → (items : List String) → All (λ m. Any (λ v. v.name ≡ m.name) (map g items)) (map f items)
mapped-All name f g same [] = tt
mapped-All name f g same (s ∷ items) =
    (inl (same s), later (map f items) (mapped-All name f g same items))
  where
    later :
        (ms : List VolumeMount)
        → All (λ m. Any (λ v. v.name ≡ m.name) (map g items)) ms
        → All (λ m. Any (λ v. v.name ≡ m.name) (g s ∷ map g items)) ms
    later [] a = tt
    later (m ∷ ms) (x, a) = (inr x, later ms a)

claim_name :
    (name : String) (c : PersistentVolumeClaim)
    → (c.name ≡ "") ⊎ (c.name ≡ name)
    → (claim name c).name ≡ name
claim_name name c (inl e) = rw e refl
claim_name name c (inr e) = elim (Bool-cases (str_eq c.name "")) [
  | inl f ↦ rw f refl
  | inr f ↦ rw f e
]

data_provided :
    (name : String) (s : Option StorageSpec)
    → IsNamedForMount name s
    → Any (λ v. v.name ≡ name) (storage_volume name s)
      ⊎ Any (λ c. c.name ≡ name) (storage_claim name s)
data_provided name none h = inl (inl refl)
data_provided name (some s) h = go s.empty_dir refl h
  where
    go :
        (d : Option String)
        → s.empty_dir ≡ d
        → IsNamedForMount name (some s)
        → Any (λ v. v.name ≡ name) (storage_volume name (some s))
          ⊎ Any (λ c. c.name ≡ name) (storage_claim name (some s))
    go (some d) e h = rw e (inl (inl refl))
    go none e h = rw e (inr (inl (claim_name name s.volume_claim_template (rw e at h))))

module _ (w : WildFlyServer) where
  abbrev rest_of : List Volume
  rest_of = map secret_volume w.spec.secrets ++ map config_map_volume w.spec.config_maps

  in_rest : (name : String) → Any (λ v. v.name ≡ name) rest_of → IsProvided w name
  unfolding volumes
  in_rest name a = inl (
      Any-right _ (storage_volume (data_volume_name w) w.spec.storage) _
        (Any-right _ (config_volumes w.spec.standalone_config_map) _ a))

  in_config :
      (name : String)
      → Any (λ v. v.name ≡ name) (config_volumes w.spec.standalone_config_map)
      → IsProvided w name
  unfolding volumes
  in_config name a = inl (
      Any-right _ (storage_volume (data_volume_name w) w.spec.storage) _
        (Any-left _ (config_volumes w.spec.standalone_config_map) rest_of a))

  in_storage :
      IsNamedForMount (data_volume_name w) w.spec.storage → IsProvided w (data_volume_name w)
  unfolding volumes claim_templates
  in_storage h = elim (data_provided (data_volume_name w) w.spec.storage h) [
    | inl a ↦ inl (Any-left _ (storage_volume (data_volume_name w) w.spec.storage) _ a)
    | inr a ↦ inr a
  ]

weaken_mounts :
    (w : WildFlyServer) (us : List Volume)
    → ((name : String) → Any (λ v. v.name ≡ name) us → IsProvided w name)
    → (ms : List VolumeMount) → All (λ m. Any (λ v. v.name ≡ m.name) us) ms
    → All (λ m. IsProvided w m.name) ms
weaken_mounts w us k [] a = tt
weaken_mounts w us k (m ∷ ms) (x, a) = (k m.name x, weaken_mounts w us k ms a)

config_mounts-All :
    (env : Env) (w : WildFlyServer) (c : Option StandaloneConfigMapSpec)
    → All (λ m. Any (λ v. v.name ≡ m.name) (config_volumes c)) (config_mounts env w c)
config_mounts-All env w none = tt
config_mounts-All env w (some c) = (inl refl, tt)

-- Each mount of the container names a volume of the template or a claim of the set, where a claim for
-- the data has no name of its own or the one that the mount uses.
pub volume_mounts-IsProvided :
    (env : Env) (w : WildFlyServer)
    → IsNamedForMount (data_volume_name w) w.spec.storage
    → All (λ m. IsProvided w m.name) (volume_mounts env w)
unfolding volume_mounts
volume_mounts-IsProvided env w h = (
  in_storage w h,
  All-append _ (config_mounts env w w.spec.standalone_config_map) _
      (weaken_mounts w _ (in_config w) _ (config_mounts-All env w w.spec.standalone_config_map))
      (All-append _
        (map (λ s. mount (secret_volume_name s) true (path_join secrets_dir s) "") w.spec.secrets) _
        (weaken_mounts w _
          (λ name a. in_rest w name (Any-left _ (map secret_volume w.spec.secrets) _ a)) _
          (mapped-All secret_volume_name _ secret_volume (λ s. refl) w.spec.secrets))
        (weaken_mounts w _
          (λ name a. in_rest w name (Any-right _ (map secret_volume w.spec.secrets) _ a)) _
          (mapped-All config_map_volume_name _ config_map_volume (λ s. refl) w.spec.config_maps))),
)

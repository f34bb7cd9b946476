-- ===== src/Tests/Objects.antt =====
-- The theorems on services, volumes, probes and texts at concrete inputs.
use wildfly_operator.Prelude.{
  ◌≡◌, refl, true, false, none, some, [], ◌∷◌, ◌++◌, codes, arith, All, lookup,
}
use wildfly_operator.Prelude.Int.{negsuc, eqb_ℤ}
use wildfly_operator.Json.{text}
use wildfly_operator.World.{ok, done, got_service, updated, service}
use wildfly_operator.Resources.Generation.{is_current_generation, mark_server_generation}
use wildfly_operator.Resources.Generation.Marking.{is_current-mark}
use wildfly_operator.Services.{create_or_update_service, new_cluster_service, headless_labels}
use wildfly_operator.Services.Update.{
  Answers, rewritten, create_or_update_service-some, create_or_update_service-renew,
}
use wildfly_operator.Util.Numbers.{parse_int, format_int, parse_int-format_int}
use wildfly_operator.Util.Convert.{convert_to_int, convert_to_string}
use wildfly_operator.Util.Convert.Bounds.{convert_to_int-text}
use wildfly_operator.Util.VolumeNames.{sanitize_volume_name}
use wildfly_operator.Util.VolumeNames.Labels.{IsLabelOrEmpty, sanitize_volume_name-label}
use wildfly_operator.StatefulSets.Volumes.{volume_mounts}
use wildfly_operator.StatefulSets.Volumes.Mounts.{IsProvided, volume_mounts-IsProvided}
use wildfly_operator.StatefulSets.Probes.{liveness, no_probe_spec, create_probe}
use wildfly_operator.StatefulSets.Probes.Actions.{IsOneAction, Obeys, IsAccepted, create_probe_lem}
use wildfly_operator.Mgmt.{extract_json}
use wildfly_operator.Mgmt.Extract.Noise.{braced, extract_json-noise}
use wildfly_operator.Tests.Data.{server0, env0, env_with, service0, old_service}

answers0 :
    Answers service0
      (create_or_update_service server0 [] "a-loadbalancer" new_cluster_service env0 [])
unfolding create_or_update_service is_current_generation lookup parse_int
answers0 = refl

create_or_update_service-some_example :
    (env0.get_service [] "a-loadbalancer" ≡ ok service0)
    × (is_current_generation server0 service0.annotations ≡ true)
    × ((create_or_update_service server0 [] "a-loadbalancer" new_cluster_service env0 []).1
        ≡ got_service "a-loadbalancer" (ok service0) ∷ [])
create_or_update_service-some_example =
    create_or_update_service-some env0 server0 [] "a-loadbalancer" new_cluster_service service0 []
      answers0

old_generation : is_current_generation server0 old_service.annotations ≡ false
unfolding is_current_generation lookup parse_int
old_generation = refl

create_or_update_service-renew_example :
    create_or_update_service server0 [] "a-loadbalancer" new_cluster_service
      (env_with old_service)
      []
    ≡ (
      done (ok none),
      updated
            (service
              (rewritten server0 old_service (new_cluster_service server0 (headless_labels []))))
            none
          ∷ got_service "a-loadbalancer" (ok old_service)
          ∷ [],
    )
create_or_update_service-renew_example =
    create_or_update_service-renew (env_with old_service) server0 [] "a-loadbalancer"
      new_cluster_service old_service [] refl old_generation

is_current-mark_example :
    is_current_generation server0 (mark_server_generation server0 [])
    ≡ eqb_ℤ server0.generation server0.generation
is_current-mark_example = is_current-mark server0 server0 [] (omega arith)

parse_int-format_int_example : parse_int 32 (codes (format_int (negsuc 41))) ≡ some (negsuc 41)
parse_int-format_int_example = parse_int-format_int 32 (negsuc 41) (omega arith)

convert_to_int-text_example : convert_to_int (text (format_int (negsuc 41))) ≡ ok (negsuc 41)
convert_to_int-text_example =
    convert_to_int-text (negsuc 41) (format_int (negsuc 41)) (omega arith, omega arith)
      (unfold convert_to_string in refl)

sanitize_volume_name-label_example :
    IsLabelOrEmpty (codes (sanitize_volume_name "secret-My.Secret-"))
sanitize_volume_name-label_example = sanitize_volume_name-label "secret-My.Secret-"

volume_mounts-IsProvided_example : All (λ m. IsProvided server0 m.name) (volume_mounts env0 server0)
volume_mounts-IsProvided_example = volume_mounts-IsProvided env0 server0 tt

create_probe_lem_example :
    IsOneAction (create_probe env0 false liveness no_probe_spec).action
    × Obeys no_probe_spec.handler (create_probe env0 false liveness no_probe_spec).action
    × IsAccepted (create_probe env0 false liveness no_probe_spec)
create_probe_lem_example =
    create_probe_lem env0 false liveness no_probe_spec (omega arith) (omega arith) (record {
      delay = λ d e. absurd cc;
      timeout = omega arith;
      period = omega arith;
      success = omega arith;
      failure = omega arith;
    })

extract_json-noise_example :
    extract_json (codes "pick up: " ++ (braced (codes "\"a\":{}") ++ codes " end"))
    ≡ braced (codes "\"a\":{}")
extract_json-noise_example =
    extract_json-noise (codes "pick up: ") (codes "\"a\":{}") (codes " end")
      (refl, (refl, (refl, (refl, (refl, (refl, (refl, (refl, (refl, tt)))))))))
      (refl, (refl, (refl, (refl, tt))))

-- ===== src/Resources.antt =====
-- pkg/resources: the marker of the server's generation, and the calls of the client that every kind
-- of object goes through (actions.go, generation.go).
pub mod Markers
pub mod Generation
pub mod Total
pub mod Quiet
use wildfly_operator.Prelude.{
  String, Bool, true, false, ◌&&◌, Option, none, some, List, [], ◌∷◌, str_eq, if◌then◌else◌,
}
use wildfly_operator.Kube.{ApiError, Pod}
use wildfly_operator.Api.{WildFlyServer}
use wildfly_operator.World.{
  M, Env, History, Event, Result, ok, err, Object, owner_set, created, updated, patched, deleted,
  status_updated, ◌>>=◌, pure, ◌>>◌, request,
}
use Generation.{mark_object, mark_server_generation}

abbrev pub create_owned : Object → Option ApiError → M (Option ApiError)
create_owned o (some e) = pure (some e)
create_owned o none = request (λ env h. env.create h o) (created o)

-- Create marks the object, sets its owner and creates it.
unfoldable pub create : WildFlyServer → Object → M (Option ApiError)
create w o = do
  e ← request (λ env h. env.set_owner h (mark_object w o)) (owner_set (mark_object w o))
  create_owned (mark_object w o) e

unfoldable pub update : WildFlyServer → Object → M (Option ApiError)
update w o = request (λ env h. env.update h (mark_object w o)) (updated (mark_object w o))

unfoldable pub patch : WildFlyServer → Object → M (Option ApiError)
unfolding mark_object
patch w o = request (λ env h. env.patch h (mark_object w o)) (patched (mark_object w o))

-- The pod as `patch` leaves it in memory.
abbrev pub marked_pod : WildFlyServer → Pod → Pod
marked_pod w p = record p { annotations = mark_server_generation w p.annotations }

unfoldable pub delete : Object → M (Option ApiError)
delete o = request (λ env h. env.delete h o) (deleted o)

-- Get passes the client's answer on.
abbrev pub get :
    {A : Type 0}
    → (Env → History → Result ApiError A)
    → (Result ApiError A → Event)
    → M (Result ApiError A)
get ask noted = request ask noted

-- UpdateWildFlyServerStatus
unfoldable pub update_status : WildFlyServer → M (Option ApiError)
update_status w = request (λ env h. env.update_status h w) (status_updated w)

-- The loop over the resources of a group's version.
unfoldable pub has_kind : String → List String → Bool
has_kind kind [] = false
has_kind kind (k ∷ kinds) = let rest = has_kind kind kinds in if str_eq k kind then true else rest

abbrev kind_among : String → Result ApiError (List String) → Bool
kind_among kind (err e) = false
kind_among kind (ok kinds) = has_kind kind kinds

-- With the kind of a group and the text of its group and version; an error counts as its absence.
unfoldable pub custom_resource_definition_exists : Env → String → String → Bool
custom_resource_definition_exists env version kind =
    env.has_rest_config
    && env.has_discovery_client
    && kind_among kind (env.server_resources version)

-- ===== src/StatefulSets/Total.antt =====
-- GetOrCreateNewStatefulSet of pkg/resources/statefulsets/statefulset.go always ends, and what it
-- gives is usable where the API server's answers are.
use wildfly_operator.Prelude.{
  ℕ, ◌^◌, ◌<◌, ◌≡◌, refl, Bool, false, Option, none, some, StringMap, is_empty,
}
use wildfly_operator.Prelude.Int.{ℤ, pos}
use wildfly_operator.Kube.{ApiError, not_found, already_exists, invalid, other, StatefulSet}
use wildfly_operator.Api.{WildFlyServer}
use wildfly_operator.World.{Env, History, Result, ok, err, got_stateful_set, request, ◌>>=◌}
use wildfly_operator.World.Rules.{Runs, Anything, Runs-pure, Runs-bind}
use wildfly_operator.World.Within.{RunsIn, RunsIn-everywhere, RunsIn-bind, RunsIn-request}
use wildfly_operator.Resources.Total.{create-Runs}
use wildfly_operator.StatefulSets.{after_get, created_set, get_or_create}

-- A size of 31 bits, and annotations.
abbrev pub IsSized : StatefulSet → Type 0
IsSized s = (k : ℕ) × (s.replicas ≡ some (pos k)) × (k < 2 ^ 31) × (is_empty s.annotations ≡ false)

-- There is a set with a size, or none.
abbrev pub IsUsable : Result ApiError StatefulSet → Type 0
IsUsable (ok s) = IsSized s
IsUsable (err not_found) = Unit
IsUsable (err _) = ⊥

abbrev pub GivesUsable : Result ApiError (Option StatefulSet) → Type 0
GivesUsable (ok (some s)) = IsSized s
GivesUsable _ = Unit

created-GivesUsable : (e : Option ApiError) → GivesUsable (created_set e)
created-GivesUsable none = tt
created-GivesUsable (some not_found) = tt
created-GivesUsable (some already_exists) = tt
created-GivesUsable (some invalid) = tt
created-GivesUsable (some other) = tt

module _ (w : WildFlyServer) (labels : StringMap) (size : ℤ) (openshift : Bool) where
  after_get-Runs :
      (env : Env) (r : Result ApiError StatefulSet)
      → IsUsable r
      → Runs GivesUsable (after_get w labels size openshift env r)
  unfolding after_get
  after_get-Runs env (ok s) x = Runs-pure GivesUsable (ok (some s)) x
  after_get-Runs env (err not_found) x =
      Runs-bind Anything GivesUsable _ _ (create-Runs w _)
        (λ e y. Runs-pure GivesUsable _ (created-GivesUsable e))
  after_get-Runs env (err already_exists) x = absurd x
  after_get-Runs env (err invalid) x = absurd x
  after_get-Runs env (err other) x = absurd x

  found-RunsIn :
      (env : Env)
      → ((h : History) → IsUsable (env.get_stateful_set h w.name))
      → RunsIn env GivesUsable (do
        r ← request (λ env' h. env'.get_stateful_set h w.name) (got_stateful_set w.name)
        after_get w labels size openshift env r)
  found-RunsIn env usable =
      RunsIn-bind env IsUsable GivesUsable _ _
        (RunsIn-request env IsUsable (λ env' h. env'.get_stateful_set h w.name)
          (got_stateful_set w.name) (λ h. (usable h, refl)))
        (λ r x. RunsIn-everywhere env GivesUsable _ (after_get-Runs env r x))

  pub get_or_create-RunsIn :
      (env : Env)
      → ((h : History) → IsUsable (env.get_stateful_set h w.name))
      → RunsIn env GivesUsable (get_or_create w labels size openshift)
  unfolding get_or_create
  get_or_create-RunsIn env usable = record { at = λ h. (found-RunsIn env usable).at h }

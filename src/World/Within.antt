-- ===== src/World/Within.antt =====
-- Total correctness of actions in one environment of which something is assumed.
use wildfly_operator.Prelude.{◌≡◌, refl, Bool, true, false, [], ◌∷◌, if◌then◌else◌}
use wildfly_operator.World.{Env, Event, History, M, ◌>>=◌, pure, request, environment}
use wildfly_operator.World.Rules.{Answered, Ends, Ends-bind, Runs}

-- From every history the action ends in this environment, and its result has the property.
pub record RunsIn {A : Type 0} (env : Env) (P : A → Type 0) (m : M A) : Type 0 where
  pub at : (h : History) → Ends env P h (m env h)

module _ {A : Type 0} (env : Env) (P : A → Type 0) where
  pub RunsIn-everywhere : (m : M A) → Runs P m → RunsIn env P m
  RunsIn-everywhere m r = record { at = λ h. r.at env h }

  pub RunsIn-pure : (a : A) → P a → RunsIn env P (pure a)
  RunsIn-pure a p = record { at = λ h. (p, ([], refl, tt)) }

  pub RunsIn-if :
      (b : Bool) (m n : M A)
      → (b ≡ true → RunsIn env P m)
      → (b ≡ false → RunsIn env P n)
      → RunsIn env P (if b then m else n)
  RunsIn-if true m n km kn = km refl
  RunsIn-if false m n km kn = kn refl

  -- A request, with what is known of the answer.
  pub RunsIn-request :
      (f : Env → History → A) (e : A → Event)
      → ((h : History) → P (f env h) × Answered env (e (f env h)) h)
      → RunsIn env P (request f e)
  RunsIn-request f e all = record {
    at = λ h. let (x, y) = all h in (x, (e (f env h) ∷ [], refl, (y, tt)));
  }

module _ {A B : Type 0} (env : Env) (Q : A → Type 0) (P : B → Type 0) where
  pub RunsIn-bind :
      (m : M A) (k : A → M B)
      → RunsIn env Q m
      → ((a : A) → Q a → RunsIn env P (k a))
      → RunsIn env P (m >>= k)
  RunsIn-bind m k q keep = record {
    at = λ h. Ends-bind Q P k env m h (q.at h) (λ a h' x. (keep a x).at h');
  }

-- The action that hands the environment on.
pub RunsIn-environment :
    {B : Type 0} (env : Env) (P : B → Type 0) (k : Env → M B)
    → RunsIn env P (k env)
    → RunsIn env P (environment >>= k)
RunsIn-environment env P k r = record { at = λ h. r.at h }

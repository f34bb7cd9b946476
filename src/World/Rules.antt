-- ===== src/World/Rules.antt =====
-- Total correctness of actions: no panic, a property of the result, and a history that only grows.
use mathlib.Core.List.{append_assoc, append-nil}
use wildfly_operator.Prelude.{
  ◌≡◌, refl, sym, ap, subst, ◌∙◌, Bool, true, false, List, [], ◌∷◌, ◌++◌, String, if◌then◌else◌,
}
use wildfly_operator.World.{
  Env, Event, History, Outcome, done, panic, M, continue, ◌>>=◌, pure, request, environment,
  record_event, recorded, got_server, got_stateful_set, got_service, got_route, got_service_monitor,
  listed_pods, owner_set, created, updated, patched, deleted, status_updated, status_patched,
  executed, connected, log_time_read, log_searched,
}

-- The event holds the answer that the environment gives after the earlier history.
abbrev pub Answered : Env → Event → History → Type 0
Answered env (got_server n r) h = env.get_server h n ≡ r
Answered env (got_stateful_set n r) h = env.get_stateful_set h n ≡ r
Answered env (got_service n r) h = env.get_service h n ≡ r
Answered env (got_route n r) h = env.get_route h n ≡ r
Answered env (got_service_monitor n r) h = env.get_service_monitor h n ≡ r
Answered env (listed_pods namespace labels r) h = env.list_pods h namespace labels ≡ r
Answered env (owner_set o r) h = env.set_owner h o ≡ r
Answered env (created o r) h = env.create h o ≡ r
Answered env (updated o r) h = env.update h o ≡ r
Answered env (patched o r) h = env.patch h o ≡ r
Answered env (deleted o r) h = env.delete h o ≡ r
Answered env (status_updated w r) h = env.update_status h w ≡ r
Answered env (status_patched w r) h = env.patch_status h w ≡ r
Answered env (executed p command out e) h = env.execute h p command ≡ (out, e)
Answered env (connected host port command r) h = env.socket_connect h host port command ≡ r
Answered env (log_time_read p r) h = env.log_latest_timestamp h p ≡ r
Answered env (log_searched p since r) h = env.log_contains h p since ≡ r
Answered env (recorded reason) h = Unit

-- Every new event is answered.
abbrev pub AllAnswered : Env → List Event → History → Type 0
AllAnswered env [] h = Unit
AllAnswered env (e ∷ new) h = Answered env e (new ++ h) × AllAnswered env new h

-- The later history holds the earlier one, with the requests that came after it in front.
abbrev pub Extends : Env → History → History → Type 0
Extends env h h' = (new : List Event) × (h' ≡ new ++ h) × AllAnswered env new h

AllAnswered-append :
    (env : Env) (b a : List Event) (h : History)
    → AllAnswered env b (a ++ h)
    → AllAnswered env a h
    → AllAnswered env (b ++ a) h
AllAnswered-append env [] a h x y = y
AllAnswered-append env (e ∷ b) a h (x, more) y =
    (rw (append_assoc b a h) x, AllAnswered-append env b a h more y)

pub Extends-trans :
    (env : Env) {h h' h'' : History} → Extends env h h' → Extends env h' h'' → Extends env h h''
Extends-trans env {h} (a, e, x) (b, f, y) = (
  b ++ a,
  f ∙ ap (λ (t : List Event). b ++ t) e ∙ sym (append_assoc b a h),
  AllAnswered-append env b a h (subst (AllAnswered env b) e y) x,
)

-- A history that an empty one has been extended to.
abbrev pub IsHonest : Env → History → Type 0
IsHonest env h = AllAnswered env h []

pub IsHonest-Extends :
    (env : Env) {h h' : History} → IsHonest env h → Extends env h h' → IsHonest env h'
IsHonest-Extends env {h} x (new, e, y) =
    rw e (AllAnswered-append env new h [] (rw (append-nil h) y) x)

pub IsHonest-append :
    (env : Env) (new : List Event) (h : History) → IsHonest env (new ++ h) → IsHonest env h
IsHonest-append env [] h x = x
IsHonest-append env (e ∷ new) h (x, y) = IsHonest-append env new h y

-- Each event of an honest history is answered after those before it.
pub IsHonest-Answered :
    (env : Env) (later : List Event) (e : Event) (h : History)
    → IsHonest env (later ++ (e ∷ h))
    → Answered env e h
IsHonest-Answered env [] e h (x, y) = rw (append-nil h) at x
IsHonest-Answered env (l ∷ later) e h (x, y) = IsHonest-Answered env later e h y

-- What a run from `h` has to end in.
abbrev pub Ends : {A : Type 0} → Env → (A → Type 0) → History → Outcome A × History → Type 0
Ends env P h (done a, h') = P a × Extends env h h'
Ends env P h (panic, h') = ⊥

-- Whatever the environment, the action does not panic, its result has the property, and the history
-- grows by requests that the environment answered.
pub record Runs {A : Type 0} (P : A → Type 0) (m : M A) : Type 0 where
  pub at : (env : Env) (h : History) → Ends env P h (m env h)

-- The property that says nothing.
abbrev pub Anything : {A : Type 0} → A → Type 0
Anything a = Unit

module _ {A : Type 0} where
  pub Runs-pure : (P : A → Type 0) (a : A) → P a → Runs P (pure a)
  Runs-pure P a p = record { at = λ env h. (p, ([], refl, tt)) }

  pub Runs-request :
      (P : A → Type 0) (f : Env → History → A) (e : A → Event)
      → ((env : Env) (h : History) → P (f env h) × Answered env (e (f env h)) h)
      → Runs P (request f e)
  Runs-request P f e all = record {
    at = λ env h. let (x, y) = all env h in (x, ((e (f env h) ∷ [], refl, (y, tt))));
  }

  pub Runs-if :
      (P : A → Type 0) (b : Bool) (m n : M A)
      → (b ≡ true → Runs P m)
      → (b ≡ false → Runs P n)
      → Runs P (if b then m else n)
  Runs-if P true m n km kn = km refl
  Runs-if P false m n km kn = kn refl

pub Runs-environment : Runs Anything environment
Runs-environment = record { at = λ env h. (tt, ([], refl, tt)) }

pub Runs-record_event : (reason : String) → Runs Anything (record_event reason)
Runs-record_event reason = record { at = λ env h. (tt, (recorded reason ∷ [], refl, (tt, tt))) }

module _ {A B : Type 0} (Q : A → Type 0) (P : B → Type 0) (k : A → M B) where
  continue-Ends :
      (env : Env) (r : Outcome A) (h h' : History)
      → Ends env Q h (r, h')
      → ((a : A) (h'' : History) → Q a → Ends env P h'' (k a env h''))
      → Ends env P h (continue r k env h')
  continue-Ends env (done a) h h' (q, e) keep = then_ends (k a env h') (keep a h' q)
    where
      then_ends : (r : Outcome B × History) → Ends env P h' r → Ends env P h r
      then_ends (done b, h'') (p, f) = (p, Extends-trans env e f)
      then_ends (panic, h'') f = f
  continue-Ends env panic h h' q keep = absurd q

  -- The rule of bind in one environment.
  pub Ends-bind :
      (env : Env) (m : M A) (h : History)
      → Ends env Q h (m env h)
      → ((a : A) (h' : History) → Q a → Ends env P h' (k a env h'))
      → Ends env P h ((m >>= k) env h)
  Ends-bind env m h q keep = let (r, h') = m env h in continue-Ends env r h h' q keep

  pub Runs-bind : (m : M A) → Runs Q m → ((a : A) → Q a → Runs P (k a)) → Runs P (m >>= k)
  Runs-bind m q keep = record {
    at = λ env h. Ends-bind env m h (q.at env h) (λ a h' x. (keep a x).at env h');
  }

-- A property may be weakened.
pub Runs-weaken :
    {A : Type 0} (Q P : A → Type 0) (m : M A) → ((a : A) → Q a → P a) → Runs Q m → Runs P m
Runs-weaken {A} Q P m weaken q = record { at = λ env h. go env h (m env h) (q.at env h) }
  where
    go : (env : Env) (h : History) (r : Outcome A × History) → Ends env Q h r → Ends env P h r
    go env h (done a, h') (x, e) = (weaken a x, e)
    go env h (panic, h') x = x

module _ {A : Type 0} where
  pub total_pure : (a : A) → Runs Anything (pure a)
  total_pure a = Runs-pure Anything a tt

  pub total_request :
      (f : Env → History → A) (e : A → Event)
      → ((env : Env) (h : History) → Answered env (e (f env h)) h)
      → Runs Anything (request f e)
  total_request f e all = Runs-request Anything f e (λ env h. (tt, all env h))

  pub total_if :
      (b : Bool) (m n : M A)
      → Runs Anything m
      → Runs Anything n
      → Runs Anything (if b then m else n)
  total_if b m n km kn = Runs-if Anything b m n (λ e. km) (λ e. kn)

pub total_bind :
    {A B : Type 0} (m : M A) (k : A → M B)
    → Runs Anything m
    → ((a : A) → Runs Anything (k a))
    → Runs Anything (m >>= k)
total_bind m k keep all = Runs-bind Anything Anything k m keep (λ a x. all a)

-- The rules for the property that says nothing.
pub ruleset total_rules =
    (total_pure, total_request, total_if, total_bind, Runs-environment, Runs-record_event, refl)

-- ===== src/World/Quiet.antt =====
-- Actions that write no StatefulSet.
use wildfly_operator.Prelude.{refl, Bool, Option, none, some, [], String, if◌then◌else◌}
use wildfly_operator.Prelude.Int.{ℤ}
use wildfly_operator.World.{
  Env, Event, History, M, ◌>>=◌, pure, crash, request, environment, record_event, stateful_set,
  created, updated, patched, deleted,
}
use wildfly_operator.World.Rules.{Anything}
use wildfly_operator.World.Emits.{
  Emits, Emits-pure, Emits-crash, Emits-request, Emits-if, Emits-bind, Emits-event,
}

-- A set is updated only to a size of the first kind, deleted only under the condition, and never
-- created or patched.
abbrev pub SetWrites : (Option ℤ → Type 0) → Type 0 → Event → History → Type 0
SetWrites Size Deletes (updated (stateful_set s) e) h = Size s.replicas
SetWrites Size Deletes (deleted (stateful_set s) e) h = Deletes
SetWrites Size Deletes (created (stateful_set s) e) h = ⊥
SetWrites Size Deletes (patched (stateful_set s) e) h = ⊥
SetWrites Size Deletes e h = Unit

pub SetWrites-weaken :
    (Size Size' : Option ℤ → Type 0) (Deletes Deletes' : Type 0)
    → ((n : Option ℤ) → Size n → Size' n)
    → (Deletes → Deletes')
    → (e : Event) (h : History) → SetWrites Size Deletes e h
    → SetWrites Size' Deletes' e h
SetWrites-weaken Size Size' Deletes Deletes' f g (updated (stateful_set s) e) h x = f s.replicas x
SetWrites-weaken Size Size' Deletes Deletes' f g (deleted (stateful_set s) e) h x = g x
SetWrites-weaken Size Size' Deletes Deletes' f g (created (stateful_set s) e) h x = absurd x
SetWrites-weaken Size Size' Deletes Deletes' f g (patched (stateful_set s) e) h x = absurd x
SetWrites-weaken Size Size' Deletes Deletes' f g e h x = tt

-- The event writes no set.
abbrev pub IsQuiet : Event → History → Type 0
IsQuiet = SetWrites (λ n. ⊥) ⊥

-- Whatever the environment, the action writes no set.
pub record Quiet {A : Type 0} (m : M A) : Type 0 where
  pub at : (env : Env) → Emits env IsQuiet Anything m

module _ {A : Type 0} where
  pub Quiet-pure : (a : A) → Quiet (pure a)
  Quiet-pure a = record { at = λ env. Emits-pure env IsQuiet Anything a tt }

  pub Quiet-crash : Quiet (crash {A = A})
  Quiet-crash = record { at = λ env. Emits-crash env IsQuiet Anything }

  pub Quiet-request :
      (f : Env → History → A) (e : A → Event)
      → ((a : A) (h : History) → IsQuiet (e a) h)
      → Quiet (request f e)
  Quiet-request f e quiet = record {
    at = λ env. Emits-request env IsQuiet Anything f e (λ h. (tt, quiet (f env h) h));
  }

  pub Quiet-if : (b : Bool) (m n : M A) → Quiet m → Quiet n → Quiet (if b then m else n)
  Quiet-if b m n km kn = record {
    at = λ env. Emits-if env IsQuiet Anything b m n (λ e. km.at env) (λ e. kn.at env);
  }

-- Where a nil pointer is a panic.
pub Quiet-some :
    {A B : Type 0} (o : Option A) (k : A → M B)
    → ((a : A) → Quiet (k a))
    → Quiet (elim o as (λ x. M B) [ none ↦ crash | some a ↦ k a ])
Quiet-some none k all = Quiet-crash
Quiet-some (some a) k all = all a

pub Quiet-bind :
    {A B : Type 0} (m : M A) (k : A → M B) → Quiet m → ((a : A) → Quiet (k a)) → Quiet (m >>= k)
Quiet-bind m k km all = record {
  at = λ env. Emits-bind env IsQuiet Anything Anything k m (km.at env) (λ a x. (all a).at env);
}

pub Quiet-environment : Quiet environment
Quiet-environment = record { at = λ env. record { at = λ h. (tt, ([], refl, tt)) } }

pub Quiet-event : (reason : String) → Quiet (record_event reason)
Quiet-event reason = record { at = λ env. Emits-event env IsQuiet reason (λ h. tt) }

pub nothing_written : Unit {0}
nothing_written = tt

-- The rules of actions that write no set.
pub ruleset quiet_rules = (
  Quiet-pure, Quiet-crash, Quiet-request, Quiet-if, Quiet-bind, Quiet-environment, Quiet-event,
  nothing_written,
)

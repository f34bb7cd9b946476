-- ===== src/StatefulSets/Probes/Actions.antt =====
-- createCommonProbe of pkg/resources/statefulsets/statefulset.go: the action and the numbers.
use wildfly_operator.Prelude.{
  ◌≡◌, refl, ◌⊎◌, inl, inr, Bool, true, false, Option, none, some, List, String, arith, Bool-cases,
  is_none, not,
}
use wildfly_operator.Prelude.Int.{ℤ, pos, ◌≤ℤ◌}
use wildfly_operator.Kube.{ProbeAction, Probe, HttpGetAction}
use wildfly_operator.Api.{ProbeSpec, ProbeHandler}
use wildfly_operator.World.{Env}
use wildfly_operator.StatefulSets.Probes.{
  ProbeDefaults, delay_or, set_or, default_action, probe_action, create_probe,
}

-- The action has exactly one of the two forms.
abbrev pub IsOneAction : ProbeAction → Type 0
IsOneAction a = is_none a.exec ≡ not (is_none a.http_get)

-- The action that the user asks for is taken, a command before an HTTP request.
abbrev pub Obeys : ProbeHandler → ProbeAction → Type 0
Obeys handler a =
    ((is_none handler.exec ≡ true) ⊎ (a.exec ≡ handler.exec))
    × ((is_none handler.exec ≡ false)
        ⊎ (is_none handler.http_get ≡ true)
        ⊎ (a.http_get ≡ handler.http_get))

module _ (env : Env) (bootable : Bool) (end_point fallback : String) where
  default-IsOneAction :
      (script : Option String) → IsOneAction (default_action env bootable script end_point fallback)
  default-IsOneAction none = refl
  default-IsOneAction (some s) = elim (Bool-cases bootable) [
    | inl e ↦ rw e refl
    | inr e ↦ rw e refl
  ]

  probe_action_lem :
      (script : Option String) (command : Option (List String)) (http : Option HttpGetAction)
      → IsOneAction (probe_action env bootable script command http end_point fallback)
        × Obeys
            (record { exec = command; http_get = http })
            (probe_action env bootable script command http end_point fallback)
  unfolding probe_action
  probe_action_lem script (some c) http = (refl, (inr refl, inl refl))
  probe_action_lem script none (some a) = (refl, (inl refl, inr (inr refl)))
  probe_action_lem script none none = (default-IsOneAction script, (inl refl, inr (inl refl)))

-- A number that is not set is the default, and else it is what the user has set.
set_or-positive : (n v : ℤ) → pos 1 ≤ℤ n → pos 0 ≤ℤ v → pos 1 ≤ℤ set_or n v
set_or-positive n v h k = ground arith

delay_or-IsDelay :
    (n : ℤ) (v : Option ℤ)
    → pos 0 ≤ℤ n
    → ((d : ℤ) → v ≡ some d → pos 0 ≤ℤ d)
    → pos 0 ≤ℤ delay_or n v
delay_or-IsDelay n none h k = h
delay_or-IsDelay n (some d) h k = k d refl

-- The numbers of the spec are not negative.
pub record IsNotNegative (s : ProbeSpec) : Type 0 where
  pub delay : (d : ℤ) → s.initial_delay_seconds ≡ some d → pos 0 ≤ℤ d
  pub timeout : pos 0 ≤ℤ s.timeout_seconds
  pub period : pos 0 ≤ℤ s.period_seconds
  pub success : pos 0 ≤ℤ s.success_threshold
  pub failure : pos 0 ≤ℤ s.failure_threshold

-- The numbers of a probe that Kubernetes takes.
pub record IsAccepted (p : Probe) : Type 0 where
  pub delay : pos 0 ≤ℤ p.initial_delay_seconds
  pub timeout : pos 1 ≤ℤ p.timeout_seconds
  pub period : pos 1 ≤ℤ p.period_seconds
  pub success : pos 1 ≤ℤ p.success_threshold
  pub failure : pos 1 ≤ℤ p.failure_threshold

-- Where the numbers of the spec and the default delay are not negative, and the default for the failures
-- is positive: the probe has one action, a command or an HTTP request, which is the user's where one is
-- given, a command before a request; its initial delay is not negative, and its timeout, period and
-- thresholds are positive.
pub create_probe_lem :
    (env : Env) (bootable : Bool) (d : ProbeDefaults) (s : ProbeSpec)
    → pos 0 ≤ℤ d.delay
    → pos 1 ≤ℤ d.failures
    → IsNotNegative s
    → IsOneAction (create_probe env bootable d s).action
      × Obeys s.handler (create_probe env bootable d s).action
      × IsAccepted (create_probe env bootable d s)
unfolding create_probe
create_probe_lem env bootable d s g h n =
    let (one, obeys) =
      probe_action_lem env bootable d.end_point d.fallback_variable (env.getenv d.script_variable)
        s.handler.exec s.handler.http_get in
    (
      one,
      obeys,
      record {
        delay = delay_or-IsDelay d.delay s.initial_delay_seconds g n.delay;
        timeout = set_or-positive (pos 1) s.timeout_seconds (omega arith) n.timeout;
        period = set_or-positive (pos 10) s.period_seconds (omega arith) n.period;
        success = set_or-positive (pos 1) s.success_threshold (omega arith) n.success;
        failure = set_or-positive d.failures s.failure_threshold h n.failure;
      },
    )

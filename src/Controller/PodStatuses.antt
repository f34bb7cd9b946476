-- ===== src/Controller/PodStatuses.antt =====
-- getPodStatus, cleanUpPodStatus and Max of controllers/wildflyserver_controller.go.
pub mod Kept
use wildfly_operator.Prelude.{
  ℕ, ◌-◌, Bool, true, false, not, ◌&&◌, ◌||◌, Option, none, some, List, [], ◌∷◌, String, str_eq,
  length, ◌==◌, if◌then◌else◌,
}
use wildfly_operator.Prelude.Int.{ℤ, pos, ◌-ℤ◌, int32, ltb_ℤ, eqb_ℤ}
use wildfly_operator.Kube.{Pod, ApiError}
use wildfly_operator.Api.{
  PodState, active, recovery_investigation, recovery_processing, recovery_heuristic,
  scaling_down_clean, is_clean, PodStatus, WildFlyServer,
}
use wildfly_operator.World.{M, Result, ok, err, status_patched, ◌>>=◌, pure, request}

-- The map that getPodStatus builds: the last status of a name wins.
unfoldable pub original_status : String → List PodStatus → Option PodStatus
original_status name [] = none
original_status name (s ∷ ss) = elim (original_status name ss) [
  | some t ↦ some t
  | none ↦ if str_eq s.name name then some s else none
]

abbrev pub state_or_active : Option PodStatus → PodState
state_or_active none = active
state_or_active (some s) = s.state

abbrev pub counter_or_zero : Option PodStatus → ℤ
counter_or_zero none = pos 0
counter_or_zero (some s) = s.recovery_counter

abbrev pub status_of : List PodStatus → Pod → PodStatus
status_of original p = record {
  name = p.name;
  pod_ip = p.pod_ip;
  state = state_or_active (original_status p.name original);
  recovery_counter = counter_or_zero (original_status p.name original);
}

-- Whether a pod has no address yet, and the statuses in the pods' order.
unfoldable pub get_pod_status : List Pod → List PodStatus → Bool × List PodStatus
get_pod_status [] original = (false, [])
get_pod_status (p ∷ ps) original =
    let (requeue, statuses) = get_pod_status ps original in
    (str_eq p.pod_ip "" || requeue, status_of original p ∷ statuses)

unfoldable pub is_listed : String → List Pod → Bool
is_listed name [] = false
is_listed name (p ∷ ps) = str_eq p.name name || is_listed name ps

-- A status stays unless it is clean and its pod is gone.
abbrev pub stays : List Pod → PodStatus → Bool
stays pods s = not (is_clean s.state) || is_listed s.name pods

unfoldable pub kept_statuses : List Pod → List PodStatus → List PodStatus
kept_statuses pods [] = []
kept_statuses pods (s ∷ ss) =
    let rest = kept_statuses pods ss in if stays pods s then s ∷ rest else rest

-- Max
abbrev pub max_int : ℤ → ℤ → ℤ
max_int x y = if ltb_ℤ x y then y else x

abbrev pub lowered : ℤ → ℕ → ℤ
lowered n delta = max_int (int32 (n -ℤ pos delta)) (pos 0)

-- The server after `delta` statuses were dropped.
abbrev pub cleaned_up : WildFlyServer → List PodStatus → ℕ → WildFlyServer
cleaned_up w kept delta = record w {
  status = record (w.status) {
    pods = kept;
    replicas = lowered w.status.replicas delta;
    scalingdown_pods = lowered w.status.scalingdown_pods delta;
  };
}

abbrev pub patched_status : Option ApiError → Result ApiError Bool
patched_status (some e) = err e
patched_status none = ok true

-- The flag or the error, and the server.
unfoldable pub clean_up_pod_status :
    WildFlyServer → List Pod → M (Result ApiError Bool × WildFlyServer)
clean_up_pod_status w pods =
    let kept = kept_statuses pods w.status.pods in
    let w' = cleaned_up w kept (length w.status.pods - length kept) in
    if length w.status.pods == length kept then pure (ok false, w) else (do
      e ← request (λ env h. env.patch_status h w') (status_patched w')
      pure (patched_status e, w'))

abbrev pub same_state : PodState → PodState → Bool
same_state active active = true
same_state recovery_investigation recovery_investigation = true
same_state recovery_processing recovery_processing = true
same_state recovery_heuristic recovery_heuristic = true
same_state scaling_down_clean scaling_down_clean = true
same_state _ _ = false

abbrev same_status : PodStatus → PodStatus → Bool
same_status s t =
    str_eq s.name t.name
    && str_eq s.pod_ip t.pod_ip
    && same_state s.state t.state
    && eqb_ℤ s.recovery_counter t.recovery_counter

-- reflect.DeepEqual at lists of statuses.
unfoldable pub same_statuses : List PodStatus → List PodStatus → Bool
same_statuses [] [] = true
same_statuses [] (t ∷ ts) = false
same_statuses (s ∷ ss) [] = false
same_statuses (s ∷ ss) (t ∷ ts) = same_status s t && same_statuses ss ts

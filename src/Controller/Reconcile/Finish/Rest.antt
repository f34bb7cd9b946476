-- ===== src/Controller/Reconcile/Finish/Rest.antt =====
-- When Reconcile of controllers/wildflyserver_controller.go asks for no further round.
use wildfly_operator.Prelude.{
  ◌≡◌, refl, sym, ap, ◌∙◌, ◌⊎◌, inl, inr, true_is_false, Bool, true, false, ◌||◌, Option, none,
  some, List, [], ◌∷◌, String, Bool-cases, arith,
}
use wildfly_operator.Prelude.Int.{pos, leb_ℤ}
use wildfly_operator.Kube.{Pod, ApiError}
use wildfly_operator.Api.{PodStatus, active, is_active}
use wildfly_operator.World.{Env, History, Outcome, done, panic, continue, pure}
use wildfly_operator.World.Rules.{Runs, Anything, total_pure, total_bind, total_if, Ends}
use wildfly_operator.Resources
use wildfly_operator.Resources.Total.{delete-Runs}
use wildfly_operator.Controller.PodStatuses.{get_pod_status}
use wildfly_operator.Controller.Reconcile.Finish.Same.{AllActive, is_active-state}
use wildfly_operator.Controller.Reconcile.Finish.Settled.{
  IsAtRest, neither, unchanged-IsWritten, rest-IsAtRest,
}
use wildfly_operator.Controller.Reconcile.Finish.{
  Reply, reply, stop, Round, new_hosts, delete_named, reactivate, reactivate_if, reset,
  status_changes, saved, wants_later, write_status, finish_round,
}

-- The loop did nothing, which the condition explains, or its flag is set.
abbrev IsIdleOrFlagged :
    Type 0 → List PodStatus → History → Outcome (List PodStatus × Bool) × History → Type 0
IsIdleOrFlagged C ss h (done (ts, b), h') = ((ts ≡ ss) × (b ≡ false) × (h' ≡ h) × C) ⊎ (b ≡ true)
IsIdleOrFlagged C ss h (panic, h') = ⊥

pub delete_named-Runs : (name : String) (ps : List Pod) → Runs Anything (delete_named name ps)
unfolding delete_named
delete_named-Runs name [] = total_pure tt
delete_named-Runs name (p ∷ ps) =
    total_if _ _ _ (total_bind _ _ (delete-Runs _) (λ e. delete_named-Runs name ps))
      (delete_named-Runs name ps)

module _ (env : Env) (pods : List Pod) where
  kept_active :
      (s : PodStatus) (ss : List PodStatus) (h : History)
      (r : Outcome (List PodStatus × Bool) × History)
      → s.state ≡ active
      → IsIdleOrFlagged (AllActive ss) ss h r
      → IsIdleOrFlagged
          (AllActive (s ∷ ss))
          (s ∷ ss)
          h
          (continue r.0 (λ q. pure (s ∷ q.0, q.1)) env r.1)
  kept_active s ss h (done (ts, b), h') k (inl (e, f, g, a)) = inl (ap (λ x. s ∷ x) e, f, g, (k, a))
  kept_active s ss h (done (ts, b), h') k (inr e) = inr e
  kept_active s ss h (panic, h') k x = x

  flagged :
      (s : PodStatus) (ss : List PodStatus) (h h1 : History)
      (r : Outcome (List PodStatus × Bool) × History)
      → IsIdleOrFlagged (AllActive ss) ss h1 r
      → IsIdleOrFlagged
          (AllActive (s ∷ ss))
          (s ∷ ss)
          h
          (continue r.0 (λ q. pure (reset s ∷ q.0, true)) env r.1)
  flagged s ss h h1 (done (ts, b), h') x = inr refl
  flagged s ss h h1 (panic, h') x = x

  after_delete :
      (s : PodStatus) (ss : List PodStatus) (h h1 : History) (o : Outcome (Unit {0}))
      → Ends env Anything h (o, h1)
      → ((h2 : History) → IsIdleOrFlagged (AllActive ss) ss h2 (reactivate pods ss env h2))
      → IsIdleOrFlagged (AllActive (s ∷ ss)) (s ∷ ss) h (
          continue o
            (λ u e2 h2.
              continue
                (reactivate pods ss e2 h2).0
                (λ q. pure (reset s ∷ q.0, true))
                e2
                (reactivate pods ss e2 h2).1)
            env
            h1)
  after_delete s ss h h1 (done u) x all = flagged s ss h h1 (reactivate pods ss env h1) (all h1)
  after_delete s ss h h1 panic x all = x

  reactivate-idle :
      (ss : List PodStatus) (h : History)
      → IsIdleOrFlagged (AllActive ss) ss h (reactivate pods ss env h)
  unfolding reactivate
  reactivate-idle [] h = inl (refl, refl, refl, tt)
  reactivate-idle (s ∷ ss) h = elim (Bool-cases (is_active s.state)) [
    | inl e ↦ rw e (
        kept_active s ss h (reactivate pods ss env h) (is_active-state s.state e)
          (reactivate-idle ss h))
    | inr e ↦ rw e (
        after_delete s ss h (delete_named s.name pods env h).1 (delete_named s.name pods env h).0
          ((delete_named-Runs s.name pods).at env h) (λ h2. reactivate-idle ss h2))
  ]

  always_active :
      (ss : List PodStatus) (h : History) (r : Outcome (List PodStatus × Bool) × History)
      → IsIdleOrFlagged (AllActive ss) ss h r
      → IsIdleOrFlagged (true ≡ true → AllActive ss) ss h r
  always_active ss h (done (ts, b), h') (inl (e, f, g, a)) = inl (e, f, g, λ x. a)
  always_active ss h (done (ts, b), h') (inr e) = inr e
  always_active ss h (panic, h') x = x

  if-idle :
      (b : Bool) (ss : List PodStatus) (h : History)
      → IsIdleOrFlagged (b ≡ true → AllActive ss) ss h (reactivate_if b pods ss env h)
  if-idle true ss h = always_active ss h (reactivate pods ss env h) (reactivate-idle ss h)
  if-idle false ss h = inl (refl, refl, refl, λ e. true_is_false (sym e))

saved-awake : (e : Option ApiError) → saved e ≡ stop → ⊥
saved-awake none e = true_is_false (ap (λ (r : Reply). r.requeue) e)
saved-awake (some a) e = absurd cc

outcome-awake : (e : Option ApiError) → done (saved e) ≡ done stop → ⊥
outcome-awake e f = let g : saved e ≡ stop = cc in saved-awake e g

module _ (env : Env) (c : Round) (hosts : Option (List String) × Bool) where
  -- With a status that is not changed only the later rounds are left.
  write-stop :
      (ss : List PodStatus) (b : Bool) (h : History)
      → (write_status c hosts (ss, b) env h).0 ≡ done stop
      → (status_changes c hosts.1 ss b ≡ false)
        × ((get_pod_status c.pods ss).0 || wants_later c ≡ false)
        × (write_status c hosts (ss, b) env h ≡ (done stop, h))
  unfolding write_status Resources.update_status
  write-stop ss b h e = elim (Bool-cases (status_changes c hosts.1 ss b)) [
    | inl changed ↦ absurd (outcome-awake _ (rw changed at e))
    | inr same ↦
        let f : done (reply ((get_pod_status c.pods ss).0 || wants_later c) none) ≡ done stop =
          rw same at e in
        let g : reply ((get_pod_status c.pods ss).0 || wants_later c) none ≡ stop = cc in
        (same, ap (λ (r : Reply). r.requeue) g, rw same (ap (λ (r : Reply). (done r, h)) g))
  ]

reactivated-changes :
    (c : Round) (b : Bool) (ss : List PodStatus) → status_changes c b ss true ≡ false → ⊥
unfolding status_changes
reactivated-changes c b ss e = ground arith

module _ (env : Env) (c : Round) (h : History) where
  rest_after :
      (r : Outcome (List PodStatus × Bool) × History)
      → IsIdleOrFlagged
          (leb_ℤ c.to_scale_down (pos 0) ≡ true → AllActive c.server.status.pods)
          c.server.status.pods
          h
          r
      → (continue r.0 (λ q. write_status c (new_hosts c c.server.status.hosts) q) env r.1).0
        ≡ done stop
      → (continue r.0 (λ q. write_status c (new_hosts c c.server.status.hosts) q) env r.1
          ≡ (done stop, h))
        × IsAtRest c
  rest_after (panic, h') x e = absurd x
  rest_after (done (ts, b), h') (inr flag) e =
      let (same, later, result) = write-stop env c (new_hosts c c.server.status.hosts) ts b h' e in
      absurd (
        reactivated-changes c (new_hosts c c.server.status.hosts).1 ts
          (ap (λ f. status_changes c (new_hosts c c.server.status.hosts).1 ts f) (sym flag) ∙ same))
  rest_after (done (ts, b), h') (inl (kept, off, quiet, all_active)) e =
      let (same, later, result) = write-stop env c (new_hosts c c.server.status.hosts) ts b h' e in
      let (ip, wait) = neither _ _ later in
      let unchanged =
        ap (λ us. status_changes c (new_hosts c c.server.status.hosts).1 us false) (sym kept)
        ∙ ap (λ f. status_changes c (new_hosts c c.server.status.hosts).1 ts f) (sym off)
        ∙ same in
      (
        result ∙ ap (λ g. (done stop, g)) quiet,
        rest-IsAtRest c (unchanged-IsWritten c _ c.server.status.pods unchanged) all_active
            (ap (λ us. (get_pod_status c.pods us).0) (sym kept) ∙ ip) wait,
      )

  -- The last stage asks for no further round, without an error, only where it made no request at all
  -- and found everything settled: the status has the number of pods to remove, the size and the hosts
  -- that were found; its pods' statuses are those of the pods, which keep their states and counters, and
  -- are all active unless pods are to be removed; each pod has an address; and neither the recovery
  -- nor the StatefulSet has asked for a later round.
  pub finish_round-rest :
      (finish_round c env h).0 ≡ done stop → (finish_round c env h ≡ (done stop, h)) × IsAtRest c
  unfolding finish_round
  finish_round-rest e =
      rest_after (reactivate_if (leb_ℤ c.to_scale_down (pos 0)) c.pods c.server.status.pods env h)
        (if-idle env c.pods (leb_ℤ c.to_scale_down (pos 0)) c.server.status.pods h) e

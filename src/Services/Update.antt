-- ===== src/Services/Update.antt =====
-- What createOrUpdateService of pkg/resources/services/service.go does on each branch.
use wildfly_operator.Prelude.{
  ◌≡◌, refl, ap, sym, ◌∙◌, true, false, Option, none, some, ◌∷◌, String, StringMap, Bool-cases, inl,
  inr,
}
use wildfly_operator.Kube.{Service, ApiError, not_found, already_exists, invalid, other}
use wildfly_operator.Api.{WildFlyServer}
use wildfly_operator.World.{
  Env, History, Outcome, done, panic, Result, ok, err, service, got_service, updated, deleted,
}
use wildfly_operator.World.{pure}
use wildfly_operator.World.Rules.{Runs, Ends, Anything, Runs-pure, Runs-bind}
use wildfly_operator.Resources
use wildfly_operator.Resources.Total.{create-Runs, update-Runs, delete-Runs}
use wildfly_operator.Resources.{create_owned}
use wildfly_operator.Resources.Generation.{
  is_current_generation, mark_object, mark_server_generation,
}
use wildfly_operator.Services.{
  Creator, create_or_update_service, after_get, after_update, created_service, deleted_service,
  headless_labels,
}

-- The answer is this service.
abbrev pub Answers : Service → Outcome (Result ApiError (Option Service)) × History → Type 0
Answers s (done r, h) = r ≡ ok (some s)
Answers s (panic, h) = ⊥

abbrev NoService : Result ApiError (Option Service) → Type 0
NoService (ok (some s)) = ⊥
NoService _ = Unit

-- A run that ends in no service does not answer with one.
no_answer :
    (env : Env) (t : Service) (r : Outcome (Result ApiError (Option Service)) × History)
    (h : History)
    → Ends env NoService h r
    → Answers t r
    → ⊥
no_answer env t (done (ok (some s)), h') h (none_there, more) x = none_there
no_answer env t (done (ok none), h') h e x = absurd cc
no_answer env t (done (err e), h') h e' x = absurd cc
no_answer env t (panic, h') h e x = x

created_service-NoService : (e : Option ApiError) → NoService (created_service e)
created_service-NoService none = tt
created_service-NoService (some not_found) = tt
created_service-NoService (some already_exists) = tt
created_service-NoService (some invalid) = tt
created_service-NoService (some other) = tt

deleted_service-NoService : (e : Option ApiError) → NoService (deleted_service e)
deleted_service-NoService none = tt
deleted_service-NoService (some e) = tt

pure-Runs : (r : Result ApiError (Option Service)) → NoService r → Runs NoService (pure r)
pure-Runs r x = Runs-pure NoService r x

after_update-Runs : (s : Service) (e : Option ApiError) → Runs NoService (after_update s e)
unfolding after_update
after_update-Runs s none = pure-Runs _ tt
after_update-Runs s (some invalid) =
    Runs-bind Anything NoService _ _ (delete-Runs _)
      (λ e x. pure-Runs _ (deleted_service-NoService e))
after_update-Runs s (some not_found) = pure-Runs _ tt
after_update-Runs s (some already_exists) = pure-Runs _ tt
after_update-Runs s (some other) = pure-Runs _ tt

module _ (w : WildFlyServer) (labels : StringMap) (new : Creator) where
  creating-Runs : Runs NoService (after_get w labels new (err not_found))
  unfolding after_get
  creating-Runs =
      Runs-bind Anything NoService _ _ (create-Runs w _)
        (λ e x. pure-Runs _ (created_service-NoService e))

  renewing-Runs :
      (s : Service)
      → is_current_generation w s.annotations ≡ false
      → Runs NoService (after_get w labels new (ok s))
  unfolding after_get
  renewing-Runs s e =
      rw e (Runs-bind Anything NoService _ _ (update-Runs w _) (λ r x. after_update-Runs _ r))

  after_get-some :
      (env : Env) (r : Result ApiError Service) (t : Service) (h : History)
      → Answers t (after_get w labels new r env h)
      → (r ≡ ok t)
        × (is_current_generation w t.annotations ≡ true)
        × ((after_get w labels new r env h).1 ≡ h)
  unfolding after_get
  after_get-some env (ok s) t h x = elim (Bool-cases (is_current_generation w s.annotations)) [
    | inl e ↦
        let found : ok (some s) ≡ ok (some t) = rw e at x in
        let same : s ≡ t = cc in
        (
          ap ok same,
          ap (λ (u : Service). is_current_generation w u.annotations) (sym same) ∙ e,
          rw e refl,
        )
    | inr e ↦ absurd (no_answer env t _ h ((renewing-Runs s e).at env h) x)
  ]
  after_get-some env (err not_found) t h x = absurd (no_answer env t _ h (creating-Runs.at env h) x)
  after_get-some env (err already_exists) t h x = absurd cc
  after_get-some env (err invalid) t h x = absurd cc
  after_get-some env (err other) t h x = absurd cc

-- A service is the answer only where the API server has it, made for the current generation of the
-- server; it is then the only request, so nothing was written.
pub create_or_update_service-some :
    (env : Env) (w : WildFlyServer) (labels : StringMap) (name : String) (new : Creator)
    (t : Service) (h : History)
    → Answers t (create_or_update_service w labels name new env h)
    → (env.get_service h name ≡ ok t)
      × (is_current_generation w t.annotations ≡ true)
      × ((create_or_update_service w labels name new env h).1 ≡ got_service name (ok t) ∷ h)
unfolding create_or_update_service
create_or_update_service-some env w labels name new t h x =
    let (e, g, same) =
      after_get-some w (headless_labels labels) new env (env.get_service h name) t
        (got_service name (env.get_service h name) ∷ h) x in
    (e, g, same ∙ ap (λ r. got_service name r ∷ h) e)

-- The outdated service with the labels and the spec of the new one, its own name, namespace and cluster
-- IP, and the mark of the server's generation.
abbrev pub rewritten : WildFlyServer → Service → Service → Service
rewritten w old new = record {
  name = old.name;
  namespace = old.namespace;
  labels = new.labels;
  annotations = mark_server_generation w old.annotations;
  spec = record {
    selector = new.spec.selector;
    cluster_ip = old.spec.cluster_ip;
    session_affinity = new.spec.session_affinity;
    ports = new.spec.ports;
  };
}

-- What the API server's answer to the update leads to: success repeats the round; a service that is
-- refused as invalid is deleted, and the round is repeated where that succeeds; and any other error
-- ends the round.
abbrev pub Rewrites :
    Env
    → Service
    → History
    → Option ApiError
    → Outcome (Result ApiError (Option Service)) × History
    → Type 0
Rewrites env t h none r = r ≡ (done (ok none), updated (service t) none ∷ h)
Rewrites env t h (some invalid) r =
    let h1 : History = updated (service t) (some invalid) ∷ h in
    ((env.delete h1 (service t) ≡ none) → r ≡ (done (ok none), deleted (service t) none ∷ h1))
    × ((e : ApiError)
        → env.delete h1 (service t) ≡ some e
        → r ≡ (done (err e), deleted (service t) (some e) ∷ h1))
Rewrites env t h (some e) r = r ≡ (done (err e), updated (service t) (some e) ∷ h)

after_update-Rewrites :
    (env : Env) (t : Service) (h : History) (a : Option ApiError)
    → Rewrites env t h a (after_update t a env (updated (service t) a ∷ h))
unfolding after_update Resources.delete
after_update-Rewrites env t h none = refl
after_update-Rewrites env t h (some invalid) = ((λ e. rw e refl), (λ x e. rw e refl))
after_update-Rewrites env t h (some not_found) = refl
after_update-Rewrites env t h (some already_exists) = refl
after_update-Rewrites env t h (some other) = refl

-- An outdated service is updated, right after it was read, to the labels and the spec of a new one, but
-- with its own cluster IP and the mark of the current generation. Whatever the API server answers: where
-- the update succeeds the round is repeated; a service that is refused as invalid is deleted, and
-- the round is repeated, or ends with the error of that; and any other error ends the round.
pub create_or_update_service-renew :
    (env : Env) (w : WildFlyServer) (labels : StringMap) (name : String) (new : Creator)
    (s : Service) (h : History)
    → env.get_service h name ≡ ok s
    → is_current_generation w s.annotations ≡ false
    → Rewrites env
        (rewritten w s (new w (headless_labels labels)))
        (got_service name (ok s) ∷ h)
        (env.update
          (got_service name (ok s) ∷ h)
          (service (rewritten w s (new w (headless_labels labels)))))
        (create_or_update_service w labels name new env h)
unfolding create_or_update_service after_get Resources.update mark_object
create_or_update_service-renew env w labels name new s h e g =
    rw (e, create_or_update_service)
      (rw g (
        after_update-Rewrites env (rewritten w s (new w (headless_labels labels)))
          (got_service name (ok s) ∷ h) _))

-- ===== src/World/Emits.antt =====
-- Partial correctness of actions in one environment: which events a run adds to the history, whether or
-- not it comes to an end.
use mathlib.Core.List.{append_assoc}
use wildfly_operator.Prelude.{
  ◌≡◌, refl, sym, ap, subst, ◌∙◌, Bool, true, false, List, [], ◌∷◌, ◌++◌, String, if◌then◌else◌,
}
use wildfly_operator.World.{
  Env, Event, History, Outcome, done, panic, M, continue, ◌>>=◌, pure, crash, request, environment,
  record_event, recorded,
}

-- Every new event has the property, at the history that it was made in.
abbrev pub AllSince : (Event → History → Type 0) → List Event → History → Type 0
AllSince P [] h = Unit
AllSince P (e ∷ new) h = P e (new ++ h) × AllSince P new h

-- The later history is the earlier one with events that have the property in front.
abbrev pub Since : (Event → History → Type 0) → History → History → Type 0
Since P h h' = (new : List Event) × (h' ≡ new ++ h) × AllSince P new h

AllSince-append :
    (P : Event → History → Type 0) (b a : List Event) (h : History)
    → AllSince P b (a ++ h)
    → AllSince P a h
    → AllSince P (b ++ a) h
AllSince-append P [] a h x y = y
AllSince-append P (e ∷ b) a h (x, more) y =
    (rw (append_assoc b a h) x, AllSince-append P b a h more y)

Since-trans :
    (P : Event → History → Type 0) {h h' h'' : History}
    → Since P h h'
    → Since P h' h''
    → Since P h h''
Since-trans P {h} (a, e, x) (b, f, y) = (
  b ++ a,
  f ∙ ap (λ (t : List Event). b ++ t) e ∙ sym (append_assoc b a h),
  AllSince-append P b a h (subst (AllSince P b) e y) x,
)

-- What a run from `h` has to end in, where it ends; a panic adds such events as well.
abbrev pub Leaves :
    {A : Type 0}
    → (Event → History → Type 0)
    → (A → Type 0)
    → History
    → Outcome A × History
    → Type 0
Leaves P Q h (done a, h') = Q a × Since P h h'
Leaves P Q h (panic, h') = Since P h h'

Leaves-trans :
    {A : Type 0} (P : Event → History → Type 0) (Q : A → Type 0) {h h' : History}
    → Since P h h'
    → (o : Outcome A × History) → Leaves P Q h' o
    → Leaves P Q h o
Leaves-trans P Q e (done a, h'') (q, f) = (q, Since-trans P e f)
Leaves-trans P Q e (panic, h'') f = Since-trans P e f

-- From every history, the run adds only events with the property, and a result that it gives has its own.
pub record Emits {A : Type 0} (env : Env) (P : Event → History → Type 0) (Q : A → Type 0) (m : M A)
    : Type 0 where
  pub at : (h : History) → Leaves P Q h (m env h)

module _ {A : Type 0} (env : Env) (P : Event → History → Type 0) (Q : A → Type 0) where
  pub Emits-pure : (a : A) → Q a → Emits env P Q (pure a)
  Emits-pure a q = record { at = λ h. (q, ([], refl, tt)) }

  pub Emits-crash : Emits env P Q crash
  Emits-crash = record { at = λ h. ([], refl, tt) }

  pub Emits-request :
      (f : Env → History → A) (e : A → Event)
      → ((h : History) → Q (f env h) × P (e (f env h)) h)
      → Emits env P Q (request f e)
  Emits-request f e all = record {
    at = λ h. let (x, y) = all h in (x, (e (f env h) ∷ [], refl, (y, tt)));
  }

  pub Emits-if :
      (b : Bool) (m n : M A)
      → (b ≡ true → Emits env P Q m)
      → (b ≡ false → Emits env P Q n)
      → Emits env P Q (if b then m else n)
  Emits-if true m n km kn = km refl
  Emits-if false m n km kn = kn refl

module _ {A B : Type 0} (env : Env) (P : Event → History → Type 0) (R : A → Type 0) (Q : B → Type 0)
    (k : A → M B) where
  pub continue-Leaves :
      (r : Outcome A) (h h' : History)
      → Leaves P R h (r, h')
      → ((a : A) (h'' : History) → R a → Leaves P Q h'' (k a env h''))
      → Leaves P Q h (continue r k env h')
  continue-Leaves (done a) h h' (q, e) keep = Leaves-trans P Q e (k a env h') (keep a h' q)
  continue-Leaves panic h h' q keep = q

  pub Emits-bind :
      (m : M A) → Emits env P R m → ((a : A) → R a → Emits env P Q (k a)) → Emits env P Q (m >>= k)
  Emits-bind m q keep = record {
    at = λ h.
        let (r, h') = m env h in continue-Leaves r h h' (q.at h) (λ a h'' x. (keep a x).at h'');
  }

-- The action that hands the environment on.
pub Emits-environment :
    {B : Type 0} (env : Env) (P : Event → History → Type 0) (Q : B → Type 0) (k : Env → M B)
    → Emits env P Q (k env)
    → Emits env P Q (environment >>= k)
Emits-environment env P Q k r = record { at = λ h. r.at h }

pub Emits-event :
    (env : Env) (P : Event → History → Type 0) (reason : String)
    → ((h : History) → P (recorded reason) h)
    → Emits env P (λ u. Unit) (record_event reason)
Emits-event env P reason all = record { at = λ h. (tt, (recorded reason ∷ [], refl, (all h, tt))) }

-- The property of the events may be weakened.
pub Leaves-weaken :
    {A : Type 0} (P P' : Event → History → Type 0) (Q : A → Type 0) (h : History)
    → ((e : Event) (at : History) → P e at → P' e at)
    → (o : Outcome A × History) → Leaves P Q h o
    → Leaves P' Q h o
Leaves-weaken {A} P P' Q h weaken = go
  where
    all : (new : List Event) → AllSince P new h → AllSince P' new h
    all [] x = tt
    all (e ∷ new) (x, more) = (weaken e (new ++ h) x, all new more)

    go : (o : Outcome A × History) → Leaves P Q h o → Leaves P' Q h o
    go (done a, h') (q, (new, e, x)) = (q, (new, e, all new x))
    go (panic, h') (new, e, x) = (new, e, all new x)

pub Emits-weaken :
    {A : Type 0} (env : Env) (P P' : Event → History → Type 0) (Q : A → Type 0) (m : M A)
    → ((e : Event) (h : History) → P e h → P' e h)
    → Emits env P Q m
    → Emits env P' Q m
Emits-weaken env P P' Q m weaken r = record {
  at = λ h. Leaves-weaken P P' Q h weaken (m env h) (r.at h);
}

-- The earlier history is a part of the later one.
abbrev pub Later : History → History → Type 0
Later h h' = (new : List Event) × (h' ≡ new ++ h)

pub Later-trans : {h h' h'' : History} → Later h h' → Later h' h'' → Later h h''
Later-trans {h} (a, e) (b, f) =
    (b ++ a, f ∙ ap (λ (t : List Event). b ++ t) e ∙ sym (append_assoc b a h))

-- Every event of a run comes after its start.
pub Leaves-Later :
    {A : Type 0} (P : Event → History → Type 0) (Q : A → Type 0) (h : History)
    (o : Outcome A × History)
    → Leaves P Q h o
    → Leaves (λ e at. P e at × Later h at) Q h o
Leaves-Later {A} P Q h = go
  where
    all : (new : List Event) → AllSince P new h → AllSince (λ e at. P e at × Later h at) new h
    all [] x = tt
    all (e ∷ new) (x, more) = ((x, (new, refl)), all new more)

    go : (o : Outcome A × History) → Leaves P Q h o → Leaves (λ e at. P e at × Later h at) Q h o
    go (done a, h') (q, (new, e, x)) = (q, (new, e, all new x))
    go (panic, h') (new, e, x) = (new, e, all new x)

-- The rule of bind where the second action depends on how the first one has run.
pub Emits-then :
    {A B : Type 0} (env : Env) (P : Event → History → Type 0) (R : A → Type 0) (Q : B → Type 0)
    (k : A → M B) (m : M A)
    → Emits env P R m
    → ((h h' : History) (a : A) → m env h ≡ (done a, h') → R a → Leaves P Q h' (k a env h'))
    → Emits env P Q (m >>= k)
Emits-then {A} {B} env P R Q k m q keep = record { at = λ h. go h (m env h) refl (q.at h) }
  where
    go :
        (h : History) (o : Outcome A × History)
        → m env h ≡ o
        → Leaves P R h o
        → Leaves P Q h (continue o.0 k env o.1)
    go h (done a, h') e (r, s) = Leaves-trans P Q s (k a env h') (keep h h' a e r)
    go h (panic, h') e s = s

pub if-Leaves :
    {A : Type 0} (env : Env) (P : Event → History → Type 0) (Q : A → Type 0) (b : Bool) (m n : M A)
    (h : History)
    → (b ≡ true → Leaves P Q h (m env h))
    → (b ≡ false → Leaves P Q h (n env h))
    → Leaves P Q h ((if b then m else n) env h)
if-Leaves env P Q true m n h km kn = km refl
if-Leaves env P Q false m n h km kn = kn refl

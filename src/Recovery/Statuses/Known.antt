-- ===== src/Recovery/Statuses/Known.antt =====
-- Which pods have a status after a write through a status's pointer (getWildflyServerPodStatusByName
-- of controllers/wildflyserver_controller.go).
use wildfly_operator.Prelude.{
  if◌then◌else◌, str_eq, ◌≡◌, refl, false, Option, none, some, List, [], ◌∷◌, String, is_none,
  arith, eq_iff,
}
use wildfly_operator.Api.{PodStatus}
use wildfly_operator.Recovery.Statuses.{find_status, put_status}

-- The name has a status in the list.
abbrev pub Known : List PodStatus → String → Type 0
Known statuses name = is_none (find_status name statuses) ≡ false

-- The status that is found has the name.
pub find_status-name :
    (name : String) (ss : List PodStatus) {s : PodStatus}
    → find_status name ss ≡ some s
    → s.name ≡ name
unfolding find_status
find_status-name name [] h = absurd cc
find_status-name name (t ∷ ss) {s} h =
    ground (arith, eq_iff name t.name, find_status-name name ss {s = s})

pub Known-some :
    (name : String) (ss : List PodStatus)
    → Known ss name
    → (s : PodStatus) × (find_status name ss ≡ some s)
Known-some name ss h = go (find_status name ss) h
  where
    go : (o : Option PodStatus) → is_none o ≡ false → (s : PodStatus) × (o ≡ some s)
    go none h = absurd cc
    go (some s) h = (s, refl)

-- A write of a status under its own name forgets no name.
pub put_status-Known :
    (k j : String) (t : PodStatus) (ss : List PodStatus)
    → t.name ≡ k
    → Known ss j
    → Known (put_status k t ss) j
unfolding find_status put_status
put_status-Known k j t [] e h = h
put_status-Known k j t (s ∷ ss) e h =
    ground (arith, eq_iff k s.name, eq_iff j s.name, eq_iff j t.name, put_status-Known k j t ss)

-- What is found after a write: the written status under its own name.
pub find_status-put_status :
    (k j : String) (t : PodStatus) (ss : List PodStatus)
    → t.name ≡ k
    → Known ss k
    → find_status j (put_status k t ss) ≡ (if str_eq j k then some t else find_status j ss)
unfolding find_status put_status
find_status-put_status k j t [] e h = absurd cc
find_status-put_status k j t (s ∷ ss) e h = ground (
  arith,
  eq_iff k s.name,
  eq_iff j s.name,
  eq_iff j t.name,
  eq_iff j k,
  find_status-put_status k j t ss e,
)

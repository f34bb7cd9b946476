-- ===== src/Prelude/Texts.antt =====
-- Text: the code points of a native string, and string maps as association lists.
use Prim.Native.Nat.{ℕ}
use Prim.Native.Char.{code}
use Prim.Native.String.{String}
use mathlib.Core.Path.{◌≡◌, refl}
use mathlib.Core.Bool.{Bool}
use mathlib.Core.List.{List, [], ◌∷◌}
use mathlib.Core.Option.{Option, none, some}
use native.Mathlib.Omega.{arith}
use text.Mathlib.Text.{◌==◌}
use text.Mathlib.TextEquality.{eq_iff}
use wildfly_operator.Prelude.Tests.{if◌then◌else◌}

-- The code points of a text.
abbrev pub codes : String → List ℕ
codes String.[] = []
codes (String.◌∷◌ c s) = code c ∷ codes s

abbrev pub str_eq : String → String → Bool
str_eq s t = s == t

-- A Go map from strings to strings.
abbrev pub StringMap : Type 0
StringMap = List (String × String)

unfoldable pub lookup : String → StringMap → Option String
lookup wanted [] = none
lookup wanted ((key, text) ∷ more) = if str_eq key wanted then some text else lookup wanted more

-- A key that is there keeps its place.
unfoldable pub insert : String → String → StringMap → StringMap
insert key text [] = (key, text) ∷ []
insert key text ((first, old) ∷ more) =
    let rest = insert key text more in
    if str_eq first key then (key, text) ∷ more else (first, old) ∷ rest

-- The delete of Go's maps.
unfoldable pub erase : String → StringMap → StringMap
erase key [] = []
erase key ((first, old) ∷ more) =
    let rest = erase key more in if str_eq first key then rest else (first, old) ∷ rest

pub lookup-insert :
    (key wanted text : String) (map : StringMap)
    → lookup wanted (insert key text map)
      ≡ (if str_eq key wanted then some text else lookup wanted map)
unfolding lookup insert
lookup-insert key wanted text [] = refl
lookup-insert key wanted text ((first, old) ∷ more) =
    let rest = lookup-insert key wanted text more in
    ground (arith, rest, eq_iff first key, eq_iff first wanted, eq_iff key wanted)

pub lookup-erase :
    (key wanted : String) (map : StringMap)
    → lookup wanted (erase key map) ≡ (if str_eq key wanted then none else lookup wanted map)
unfolding lookup erase
lookup-erase key wanted [] = ground arith
lookup-erase key wanted ((first, old) ∷ more) =
    let rest = lookup-erase key wanted more in
    ground (arith, rest, eq_iff first key, eq_iff first wanted, eq_iff key wanted)

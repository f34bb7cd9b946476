-- ===== src/Util/Maps/Merge.antt =====
-- MapMerge and CopyMap of pkg/util/go_utilities.go by their lookups.
use wildfly_operator.Prelude.{
  ◌≡◌, refl, ap, ◌∙◌, Bool, true, false, Option, none, some, [], ◌∷◌, String, StringMap, str_eq,
  lookup, insert, lookup-insert, if◌then◌else◌,
}
use wildfly_operator.Util.Maps.{insert_all, map_merge}

abbrev pub or_else : Option String → Option String → Option String
or_else none o = o
or_else (some v) o = some v

-- The value of the key's last pair.
unfoldable pub last_value : String → StringMap → Option String
last_value k [] = none
last_value k ((j, v) ∷ m) =
    let rest = last_value k m in or_else rest (if str_eq j k then some v else none)

or_else_assoc : (a b c : Option String) → or_else a (or_else b c) ≡ or_else (or_else a b) c
or_else_assoc none b c = refl
or_else_assoc (some v) b c = refl

one_pair :
    (b : Bool) (v : String) (o : Option String)
    → (if b then some v else o) ≡ or_else (if b then some v else none) o
one_pair true v o = refl
one_pair false v o = refl

lookup-insert_all :
    (k : String) (m more : StringMap)
    → lookup k (insert_all m more) ≡ or_else (last_value k more) (lookup k m)
unfolding insert_all last_value
lookup-insert_all k m [] = refl
lookup-insert_all k m ((j, v) ∷ more) =
    lookup-insert_all k (insert j v m) more
    ∙ ap (or_else (last_value k more))
        (lookup-insert j k v m ∙ one_pair (str_eq j k) v (lookup k m))
    ∙ or_else_assoc (last_value k more) (if str_eq j k then some v else none) (lookup k m)

or_else-none : (a : Option String) → or_else a none ≡ a
or_else-none none = refl
or_else-none (some v) = refl

lookup-nothing : (k : String) → lookup k [] ≡ none
unfolding lookup
lookup-nothing k = refl

-- In the merged map a key has its value of the second map, and its value of the first map where the
-- second has none.
pub lookup-map_merge :
    (k : String) (first second : StringMap)
    → lookup k (map_merge first second) ≡ or_else (last_value k second) (last_value k first)
unfolding map_merge
lookup-map_merge k first second =
    lookup-insert_all k (insert_all [] first) second
    ∙ ap (or_else (last_value k second)) (
        lookup-insert_all k [] first
        ∙ ap (or_else (last_value k first)) (lookup-nothing k)
        ∙ or_else-none (last_value k first))

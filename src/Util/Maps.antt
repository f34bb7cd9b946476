-- ===== src/Util/Maps.antt =====
-- The maps and lists of pkg/util/go_utilities.go, and reflect.DeepEqual at maps and lists of texts.
pub mod Merge
use wildfly_operator.Prelude.{
  Bool, true, false, ◌&&◌, ◌||◌, Option, none, some, List, [], ◌∷◌, String, StringMap, str_eq,
  lookup, insert,
}

-- The loop that writes each pair of the second map into the first.
unfoldable pub insert_all : StringMap → StringMap → StringMap
insert_all m [] = m
insert_all m ((k, v) ∷ more) = insert_all (insert k v m) more

-- MapMerge; a nil map is an empty one.
unfoldable pub map_merge : StringMap → StringMap → StringMap
unfolding insert_all
map_merge first second = insert_all (insert_all [] first) second

-- CopyMap
unfoldable pub copy_map : StringMap → StringMap
unfolding map_merge
copy_map m = map_merge m []

abbrev is_same : Option String → Option String → Bool
is_same none none = true
is_same (some u) (some v) = str_eq u v
is_same _ _ = false

-- Every pair of the first map is in the second.
sub_map : StringMap → StringMap → StringMap → Bool
sub_map whole [] n = true
sub_map whole ((k, v) ∷ m) n = is_same (lookup k whole) (lookup k n) && sub_map whole m n

-- reflect.DeepEqual of two maps that are not nil: the same keys with the same values.
unfoldable pub same_map : StringMap → StringMap → Bool
unfolding sub_map
same_map m n = sub_map m m n && sub_map n n m

unfoldable pub same_texts : List String → List String → Bool
same_texts [] [] = true
same_texts [] (t ∷ ts) = false
same_texts (s ∷ ss) [] = false
same_texts (s ∷ ss) (t ∷ ts) = str_eq s t && same_texts ss ts

abbrev value_in : String → List String → Bool
value_in x [] = false
value_in x (v ∷ vs) = str_eq x v || value_in x vs

-- ContainsInMap: one of the values is in the list.
unfoldable pub contains_in_map : StringMap → List String → Bool
contains_in_map [] vals = false
contains_in_map ((k, x) ∷ m) vals = value_in x vals || contains_in_map m vals

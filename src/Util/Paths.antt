-- ===== src/Util/Paths.antt =====
-- path.Join of two elements, as pkg/resources/statefulsets builds the paths of its mounts.
use Prim.Native.Char.{Char, code}
use Prim.Native.String.{◌++◌ as append}
use wildfly_operator.Prelude.{
  ◌≡◌, refl, Bool, true, false, ◌||◌, List, [], ◌∷◌, String, str_eq, ◌==◌, if◌then◌else◌,
}
use mathlib.Core.List.{reverse}

-- A slash begins a new element; any other character joins the first one.
abbrev put_char : Bool → Char → List String → List String
put_char true c parts = "" ∷ parts
put_char false c [] = String.◌∷◌ c "" ∷ []
put_char false c (p ∷ ps) = String.◌∷◌ c p ∷ ps

abbrev drop_last : Bool → List String → List String
drop_last true [] = []
drop_last false [] = ".." ∷ []
drop_last rooted (p ∷ ps) = if str_eq p ".." then ".." ∷ p ∷ ps else ps

abbrev push_part : Bool → String → List String → List String
push_part rooted p parts =
    if str_eq p "" || str_eq p "."
    then parts
    else if str_eq p ".."
    then drop_last rooted parts
    else p ∷ parts

-- The elements between slashes.
split : String → List String
split String.[] = "" ∷ []
split (String.◌∷◌ c s) = put_char (code c == b'/') c (split s)

abbrev is_rooted : String → Bool
is_rooted String.[] = false
is_rooted (String.◌∷◌ c s) = code c == b'/'

-- path.Clean on the elements, the last one first: empty elements and dots go, and two dots take
-- away the element before them.
clean_parts : Bool → List String → List String → List String
clean_parts rooted done [] = reverse done
clean_parts rooted done (p ∷ ps) = clean_parts rooted (push_part rooted p done) ps

join_parts : List String → String
join_parts [] = ""
join_parts (p ∷ []) = p
join_parts (p ∷ q ∷ ps) = append p (append "/" (join_parts (q ∷ ps)))

unfoldable pub clean_path : String → String
unfolding split clean_parts join_parts
clean_path s =
    let parts = join_parts (clean_parts (is_rooted s) [] (split s)) in
    if is_rooted s then append "/" parts else if str_eq parts "" then "." else parts

unfoldable pub path_join : String → String → String
unfolding clean_path
path_join a b =
    if str_eq a ""
    then if str_eq b "" then "" else clean_path b
    else if str_eq b ""
    then clean_path a
    else clean_path (append a (append "/" b))

join_data_dir : path_join "/opt/jboss/" "standalone/data" ≡ "/opt/jboss/standalone/data"
unfolding path_join
join_data_dir = refl

join_dots : path_join "/etc/secrets/" "../a//b/." ≡ "/etc/a/b"
unfolding path_join
join_dots = refl

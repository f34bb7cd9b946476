-- ===== src/Remote/Patterns.antt =====
-- The regular expressions of the recovery's log search, `ERROR.*Periodic Recovery` in
-- controllers/transaction_recovery.go, and of the time stamp in pkg/util/remote_ops.go.
pub mod Meaning
use Prim.Native.Char.{code}
use wildfly_operator.Prelude.{
  ℕ, String, Bool, true, false, not, List, [], ◌∷◌, codes, ◌&&◌, ◌||◌, leb, ◌==◌, if◌then◌else◌,
}

-- The text starts with the first one.
unfoldable pub starts_with : List ℕ → List ℕ → Bool
starts_with [] s = true
starts_with (a ∷ more) [] = false
starts_with (a ∷ more) (c ∷ s) = a == c && starts_with more s

-- `.*` and then the text: the dot matches anything but a newline.
unfoldable pub after_dots : List ℕ → List ℕ → Bool
unfolding starts_with
after_dots wanted [] = starts_with wanted []
after_dots wanted (c ∷ s) = starts_with wanted (c ∷ s) || (not (c == 10) && after_dots wanted s)

-- One text, `.*`, and another one, from here on.
unfoldable pub matches_here : List ℕ → List ℕ → List ℕ → Bool
matches_here [] second s = after_dots second s
matches_here (a ∷ more) second [] = false
matches_here (a ∷ more) second (c ∷ s) = a == c && matches_here more second s

unfoldable pub finds : List ℕ → List ℕ → List ℕ → Bool
finds first second [] = matches_here first second []
finds first second (c ∷ s) = matches_here first second (c ∷ s) || finds first second s

-- recoveryErrorRegExp
unfoldable pub is_recovery_error : String → Bool
is_recovery_error line = finds (codes "ERROR") (codes "Periodic Recovery") (codes line)

abbrev is_digit : ℕ → Bool
is_digit c = leb b'0' c && leb c b'9'

-- `[0-9]{4}-[0-9]{2}-[0-9]{2}`, with true for a digit.
abbrev pub date_shape : List Bool
date_shape = true ∷ true ∷ true ∷ true ∷ false ∷ true ∷ true ∷ false ∷ true ∷ true ∷ []

abbrev fits : Bool → ℕ → Bool
fits true c = is_digit c
fits false c = c == b'-'

-- `[^ ]*`, as far as it goes.
unfoldable pub until_space : String → String
until_space String.[] = ""
until_space (String.◌∷◌ c s) =
    let rest = until_space s in if code c == 32 then "" else String.◌∷◌ c rest

abbrev at_least_one : String → Bool
at_least_one String.[] = false
at_least_one (String.◌∷◌ c s) = not (code c == 32)

unfoldable pub has_date : List Bool → String → Bool
has_date [] s = at_least_one s
has_date (d ∷ ds) String.[] = false
has_date (d ∷ ds) (String.◌∷◌ c s) = fits d (code c) && has_date ds s

-- FindString of timestampFromLogLine: the empty text where there is no match. The date holds no space.
unfoldable pub find_timestamp : String → String
find_timestamp line = if has_date date_shape line then until_space line else ""

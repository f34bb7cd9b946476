-- ===== src/Util/VolumeNames.antt =====
-- SanitizeVolumeName of pkg/util/go_utilities.go, over the code points of the name.
pub mod Labels
use Prim.Native.Nat.{compare, Ordering}
use Prim.Native.Char.{Char, char, code, nul, IsScalar}
use mathlib.Core.Logic.{dite}
use mathlib.Core.List.{reverse}
use native.Mathlib.Decide.{dec_lt}
use wildfly_operator.Prelude.{
  ℕ, zero, suc, ◌+◌, ◌-◌, ◌≤◌, ◌<◌, ◌≡◌, refl, Bool, true, false, not, ◌&&◌, ◌||◌, List, [], ◌∷◌,
  map, String, arith, leb, ltb, ◌==◌, if◌then◌else◌, codes, take,
}

pub lt-compare : (a b : ℕ) → a < b → compare a b ≡ Ordering.lt
lt-compare a b h = ground arith

-- Surrogates begin at 0xd800.
pub IsScalar-below : (n : ℕ) → n < 0xd800 → IsScalar n
IsScalar-below n h = rw (lt-compare n 0xd800 h) tt

-- The character of a code point below the surrogates.
unfoldable pub char_of : ℕ → Char
unfolding dec_lt
char_of n = dite (dec_lt n 0xd800) (λ h. char n (IsScalar-below n h)) (λ _. nul)

unfoldable pub text_of : List ℕ → String
unfolding char_of
text_of [] = ""
text_of (c ∷ s) = String.◌∷◌ (char_of c) (text_of s)

-- strings.ToLower as far as its result is in ASCII: besides A to Z these are U+0130 and the Kelvin
-- sign. Any other letter stays outside ASCII.
unfoldable pub to_lower : ℕ → ℕ
to_lower c =
    if leb b'A' c && leb c b'Z'
    then c + 32
    else if c == 0x130
    then b'i'
    else if c == 0x212a
    then b'k'
    else c

-- A character that [^-a-z0-9] does not match.
abbrev pub is_label_char : ℕ → Bool
is_label_char c = c == b'-' || (leb b'a' c && leb c b'z') || (leb b'0' c && leb c b'9')

-- Each run of other characters becomes one dash; the flag says that a run has begun.
unfoldable pub replace_invalid : Bool → List ℕ → List ℕ
replace_invalid in_run [] = []
replace_invalid in_run (c ∷ s) =
    let rest = replace_invalid (not (is_label_char c)) s in
    if is_label_char c then c ∷ rest else if in_run then rest else b'-' ∷ rest

-- strings.Trim(_, "-")
unfoldable pub trim_left : List ℕ → List ℕ
trim_left [] = []
trim_left (c ∷ s) = let rest = trim_left s in if c == b'-' then rest else c ∷ s

unfoldable pub trim : List ℕ → List ℕ
unfolding trim_left
trim s = reverse (trim_left (reverse (trim_left s)))

abbrev pub label_max_length : ℕ
label_max_length = 63

-- Cutting a text that is short enough leaves it.
unfoldable pub sanitize_codes : List ℕ → List ℕ
unfolding to_lower replace_invalid trim
sanitize_codes name = trim (take label_max_length (replace_invalid false (map to_lower name)))

unfoldable pub sanitize_volume_name : String → String
unfolding sanitize_codes text_of
sanitize_volume_name name = text_of (sanitize_codes (codes name))

-- ===== src/Util/VolumeNames/Labels.antt =====
-- SanitizeVolumeName of pkg/util/go_utilities.go: what of a name it gives is a DNS label.
use Prim.Native.Char.{code, char, nul}
use native.Mathlib.Decide.{dec_lt}
use mathlib.Core.Logic.{dite}
use mathlib.Core.List.{reverse, reverse-append, reverse-reverse}
use wildfly_operator.Prelude.{
  ℕ, zero, suc, ◌≤◌, ◌<◌, ◌≡◌, refl, sym, ap, subst, ◌∙◌, Bool, true, false, List, [], ◌∷◌, ◌++◌,
  map, String, arith, ◌==◌, length, length-append, take, codes, All, Bool-cases, inl, inr,
}
use wildfly_operator.Util.VolumeNames.{
  IsScalar-below, char_of, text_of, to_lower, is_label_char, replace_invalid, trim_left, trim,
  label_max_length, sanitize_codes, sanitize_volume_name,
}

abbrev pub IsLabelChar : ℕ → Type 0
IsLabelChar c = is_label_char c ≡ true

abbrev pub NoDashAtHead : List ℕ → Type 0
NoDashAtHead [] = Unit
NoDashAtHead (c ∷ s) = (c == b'-') ≡ false

-- The requirements on a DNS label, but for that it may be empty.
pub record IsLabelOrEmpty (s : List ℕ) : Type 0 where
  pub chars : All IsLabelChar s
  pub short : length s ≤ label_max_length
  pub no_dash_first : NoDashAtHead s
  pub no_dash_last : NoDashAtHead (reverse s)

replace_invalid-All : (in_run : Bool) (s : List ℕ) → All IsLabelChar (replace_invalid in_run s)
unfolding replace_invalid
replace_invalid-All b [] = tt
replace_invalid-All true (c ∷ s) = elim (Bool-cases (is_label_char c)) [
  | inl e ↦ rw e (e, replace_invalid-All false s)
  | inr e ↦ rw e (replace_invalid-All true s)
]
replace_invalid-All false (c ∷ s) = elim (Bool-cases (is_label_char c)) [
  | inl e ↦ rw e (e, replace_invalid-All false s)
  | inr e ↦ rw e (refl, replace_invalid-All true s)
]

take-All : (P : ℕ → Type 0) (n : ℕ) (s : List ℕ) → All P s → All P (take n s)
take-All P zero s a = tt
take-All P (suc n) [] a = tt
take-All P (suc n) (c ∷ s) (x, a) = (x, take-All P n s a)

length-take_le : (n : ℕ) (s : List ℕ) → length (take n s) ≤ n
length-take_le zero s = omega arith
length-take_le (suc n) [] = omega arith
length-take_le (suc n) (c ∷ s) = omega (arith, length-take_le n s)

-- Trimming drops a prefix.
trim_left-suffix : (s : List ℕ) → (d : List ℕ) × (s ≡ d ++ trim_left s)
unfolding trim_left
trim_left-suffix [] = ([], refl)
trim_left-suffix (c ∷ s) = elim (Bool-cases (c == b'-')) [
  | inl e ↦ let (d, f) = trim_left-suffix s in rw e (c ∷ d, ap (λ t. c ∷ t) f)
  | inr e ↦ rw e ([], refl)
]

trim_left-head : (s : List ℕ) → NoDashAtHead (trim_left s)
unfolding trim_left
trim_left-head [] = tt
trim_left-head (c ∷ s) = elim (Bool-cases (c == b'-')) [
  | inl e ↦ rw e (trim_left-head s)
  | inr e ↦ rw e e
]

head-append : (s t : List ℕ) → NoDashAtHead (s ++ t) → NoDashAtHead s
head-append [] t h = tt
head-append (c ∷ s) t h = h

module _ (s : List ℕ) where
  -- What is trimmed at the end leaves a prefix.
  trim-prefix : (d : List ℕ) × (trim_left s ≡ trim s ++ d)
  unfolding trim
  trim-prefix =
      let (d, e) = trim_left-suffix (reverse (trim_left s)) in
      (
        reverse d,
        sym (reverse-reverse (trim_left s))
            ∙ ap reverse e
            ∙ reverse-append d (trim_left (reverse (trim_left s))),
      )

  trim-first : NoDashAtHead (trim s)
  trim-first =
      let (d, e) = trim-prefix in head-append (trim s) d (subst NoDashAtHead e (trim_left-head s))

  trim-last : NoDashAtHead (reverse (trim s))
  unfolding trim
  trim-last =
      subst NoDashAtHead (sym (reverse-reverse (trim_left (reverse (trim_left s)))))
        (trim_left-head (reverse (trim_left s)))

  -- A part of the text, between two others.
  trim-infix : (d e : List ℕ) × (s ≡ d ++ (trim s ++ e))
  trim-infix =
      let (d, x) = trim_left-suffix s in let (e, y) = trim-prefix in (d, e, x ∙ ap (λ t. d ++ t) y)

All-middle : (P : ℕ → Type 0) (d s e : List ℕ) → All P (d ++ (s ++ e)) → All P s
All-middle P [] s e a = front s a
  where
    front : (s : List ℕ) → All P (s ++ e) → All P s
    front [] a = tt
    front (c ∷ s) (x, a) = (x, front s a)
All-middle P (c ∷ d) s e (x, a) = All-middle P d s e a

trim-All : (P : ℕ → Type 0) (s : List ℕ) → All P s → All P (trim s)
trim-All P s a = let (d, e, x) = trim-infix s in All-middle P d (trim s) e (subst (All P) x a)

length-trim : (s : List ℕ) → length (trim s) ≤ length s
length-trim s =
    let (d, e, x) = trim-infix s in
    let whole = ap length x in
    omega (arith, whole, length-append d (trim s ++ e), length-append (trim s) e)

sanitize_codes-label : (name : List ℕ) → IsLabelOrEmpty (sanitize_codes name)
unfolding sanitize_codes
sanitize_codes-label name =
    let s = take label_max_length (replace_invalid false (map to_lower name)) in
    record {
      chars =
          trim-All IsLabelChar s (
            take-All IsLabelChar label_max_length _
              (replace_invalid-All false (map to_lower name)));
      short = omega (
        arith,
        length-trim s,
        length-take_le label_max_length (replace_invalid false (map to_lower name)),
      );
      no_dash_first = trim-first s;
      no_dash_last = trim-last s;
    }

char_of-code : (c : ℕ) → c < 0xd800 → code (char_of c) ≡ c
unfolding char_of
char_of-code c h = decided (dec_lt c 0xd800)
  where
    decided :
        (d : Dec (c < 0xd800)) → code (dite d (λ k. char c (IsScalar-below c k)) (λ _. nul)) ≡ c
    decided (yes k) = refl
    decided (no n) = absurd (n h)

codes-text_of : (s : List ℕ) → All IsLabelChar s → codes (text_of s) ≡ s
unfolding text_of
codes-text_of [] a = refl
codes-text_of (c ∷ s) (x, a) = rw (char_of-code c (ground arith), codes-text_of s a) refl

-- Whatever the name, the result has only lower case letters, digits and dashes, no dash at either
-- end, and at most 63 characters.
pub sanitize_volume_name-label :
    (name : String) → IsLabelOrEmpty (codes (sanitize_volume_name name))
unfolding sanitize_volume_name
sanitize_volume_name-label name =
    let valid = sanitize_codes-label (codes name) in
    subst IsLabelOrEmpty (sym (codes-text_of (sanitize_codes (codes name)) valid.chars)) valid

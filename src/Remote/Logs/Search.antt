-- ===== src/Remote/Logs/Search.antt =====
-- What VerifyLogContainsRegexp of pkg/util/remote_ops.go answers of a log.
use wildfly_operator.Prelude.{
  ◌≡◌, refl, sym, ap, ◌∙◌, ◌↔◌, ◌⊎◌, inl, inr, Bool, true, false, Option, none, List, [], ◌∷◌,
  String, All, Bool-cases, Option-cases, ◌++◌, ◌≢◌,
}
use wildfly_operator.Kube.{Opaque}
use wildfly_operator.World.{Result, ok, err}
use wildfly_operator.Remote.{Stream, Failure}
use wildfly_operator.Remote.Lines.{split_lines, drop_cr, is_too_long, scan, scan_lines}
use wildfly_operator.Remote.Logs.{first_match, found_or, search_log}

-- A line that the scanner gives whole and that does not match.
abbrev pub Passes : (String → Bool) → String → Type 0
Passes test line = (is_too_long line ≡ false) × (test (drop_cr line) ≡ false)

-- The first line that matches, where no line before it is too long.
abbrev pub FirstMatch : (String → Bool) → List String → String → Type 0
FirstMatch test lines found =
    (before : List String) × (line : String) × (after : List String) × (lines
      ≡ before ++ (line ∷ after))
    × All (Passes test) before
    × (is_too_long line ≡ false)
    × (test (drop_cr line) ≡ true)
    × (found ≡ drop_cr line)

abbrev found_in : (String → Bool) → List String → Option Opaque → Result Failure String
found_in test lines e = found_or (scan lines e).1 (first_match test (scan lines e).0)

ok_is : {x y : String} → ◌≡◌ {A = Result Failure String} (ok x) (ok y) → x ≡ y
ok_is h = cc

err_is_ok : {f : Failure} {x : String} → ◌≡◌ {A = Result Failure String} (err f) (ok x) → ⊥
err_is_ok h = cc

module _ (test : String → Bool) (e : Option Opaque) where
  -- One line on: the scanner stops at it, or it is found, or it is passed.
  found_in-cons :
      (line : String) (lines : List String)
      → ((is_too_long line ≡ true) × ((x : String) → found_in test (line ∷ lines) e ≢ ok x))
        ⊎ ((is_too_long line ≡ false)
            × (test (drop_cr line) ≡ true)
            × (found_in test (line ∷ lines) e ≡ ok (drop_cr line)))
        ⊎ (Passes test line × (found_in test (line ∷ lines) e ≡ found_in test lines e))
  unfolding scan first_match
  found_in-cons line lines = elim (Bool-cases (is_too_long line)) [
    | inl long ↦ inl (long, λ x h. err_is_ok (rw long at h))
    | inr short ↦ elim (Bool-cases (test (drop_cr line))) [
      | inl found ↦ inr (inl (short, found, rw (short, found) refl))
      | inr other ↦ inr (inr ((short, other), rw (short, other) refl))
    ]
  ]

  found_in-nil : {x : String} → found_in test [] e ≡ ok x → (x ≡ "") × (e ≡ none)
  unfolding scan first_match
  found_in-nil h = elim (Option-cases e) [
    | inl n ↦ (sym (ok_is (rw n at h)), n)
    | inr (y, some_y) ↦ absurd (err_is_ok (rw some_y at h))
  ]

  -- An answer is the first match, or the empty text of a log that was read to its end.
  found_in-splits :
      (lines : List String) {x : String}
      → found_in test lines e ≡ ok x
      → FirstMatch test lines x ⊎ ((x ≡ "") × (e ≡ none) × All (Passes test) lines)
  found_in-splits [] h = let (a, b) = found_in-nil h in inr (a, b, tt)
  found_in-splits (line ∷ lines) {x} h = elim (found_in-cons line lines) [
    | inl (long, no_text) ↦ absurd (no_text x h)
    | inr (inl (short, found, same)) ↦
        let is : x ≡ drop_cr line = cc in inl ([], line, lines, refl, tt, short, found, is)
    | inr (inr (passes, same)) ↦ elim (found_in-splits lines (sym same ∙ h)) [
      | inl (before, l, after, split, all, short, found, is) ↦ inl (
        line ∷ before,
        l,
        after,
        ap (λ (t : List String). line ∷ t) split,
        (passes, all),
        short,
        found,
        is,
      )
      | inr (a, b, all) ↦ inr (a, b, (passes, all))
    ]
  ]

  found_in-quiet :
      (lines : List String) → e ≡ none → All (Passes test) lines → found_in test lines e ≡ ok ""
  unfolding scan first_match
  found_in-quiet [] n all = rw n refl
  found_in-quiet (line ∷ lines) n ((short, other), all) =
      rw (short, other) (found_in-quiet lines n all)

  found_in-append :
      (before after : List String) (line : String)
      → All (Passes test) before
      → is_too_long line ≡ false
      → test (drop_cr line) ≡ true
      → found_in test (before ++ (line ∷ after)) e ≡ ok (drop_cr line)
  unfolding scan first_match
  found_in-append [] after line all short found = rw (short, found) refl
  found_in-append (l ∷ before) after line ((s, o), all) short found =
      rw (s, o) (found_in-append before after line all short found)

-- The search of a log answers with a text exactly when the text is the first line that matches and no
-- line up to it is too long, or when it is empty, the log was read to its end, and no line was too
-- long or matched.
pub search_log_iff :
    (test : String → Bool) (s : Stream) (x : String)
    → (search_log test s ≡ ok x) ↔ (
        FirstMatch test (split_lines s.content) x
        ⊎ ((x ≡ "") × (s.failure ≡ none) × All (Passes test) (split_lines s.content)))
unfolding search_log scan_lines
search_log_iff test s x = (
  found_in-splits test s.failure (split_lines s.content),
  λ h. elim h [
    | inl (before, line, after, split, all, short, found, is) ↦
        rw (split, is) (found_in-append test s.failure before after line all short found)
    | inr (a, b, all) ↦ rw a (found_in-quiet test s.failure (split_lines s.content) b all)
  ],
)

-- ===== src/Mgmt/Extract/Noise.antt =====
-- The noise around the JSON in the output of jboss-cli.sh, which ExecuteMgmtOp of
-- pkg/util/wildfly_mgmt.go cuts off.
use wildfly_operator.Prelude.{
  ℕ, suc, ◌+◌, ◌-◌, ◌≡◌, refl, sym, ap, ◌∙◌, false, none, some, List, [], ◌∷◌, ◌++◌, arith, ◌==◌,
  length, length-append, take, drop, All,
}
use wildfly_operator.Mgmt.Extract.{index, last_index, end_index, extract_json}

-- The text has no such byte.
abbrev pub Without : ℕ → List ℕ → Type 0
Without b s = All (λ c. (c == b) ≡ false) s

index-skip : (b : ℕ) (s t : List ℕ) → Without b s → index b (s ++ (b ∷ t)) ≡ some (length s)
unfolding index
index-skip b [] t a = ground arith
index-skip b (c ∷ s) t (x, a) = rw (x, index-skip b s t a) refl

last_index-none : (b : ℕ) (s : List ℕ) → Without b s → last_index b s ≡ none
unfolding last_index
last_index-none b [] a = refl
last_index-none b (c ∷ s) (x, a) = rw (last_index-none b s a, x) refl

last_index-skip :
    (b : ℕ) (s t : List ℕ) → Without b t → last_index b (s ++ (b ∷ t)) ≡ some (length s)
unfolding last_index
last_index-skip b [] t a = rw (last_index-none b t a) (ground arith)
last_index-skip b (c ∷ s) t a = rw (last_index-skip b s t a) refl

drop-append : (s t : List ℕ) → drop (length s) (s ++ t) ≡ t
drop-append [] t = refl
drop-append (c ∷ s) t = drop-append s t

take-append : (s t : List ℕ) → take (length s) (s ++ t) ≡ s
take-append [] t = refl
take-append (c ∷ s) t = ap (λ r. c ∷ r) (take-append s t)

-- The text from a `{` to a `}`.
abbrev pub braced : List ℕ → List ℕ
braced body = b'{' ∷ (body ++ (b'}' ∷ []))

append_three : (s t u : List ℕ) → (s ++ t) ++ u ≡ s ++ (t ++ u)
append_three [] t u = refl
append_three (c ∷ s) t u = ap (λ r. c ∷ r) (append_three s t u)

-- The position of the last `}` in the whole output.
last_of_noisy :
    (front body back : List ℕ)
    → Without b'}' back
    → last_index b'}' (front ++ (braced body ++ back)) ≡ some (length front + suc (length body))
last_of_noisy front body back a =
    ap (last_index b'}') shape
    ∙ last_index-skip b'}' (front ++ (b'{' ∷ body)) back a
    ∙ ap some (length-append front (b'{' ∷ body))
  where
    shape : front ++ (braced body ++ back) ≡ (front ++ (b'{' ∷ body)) ++ (b'}' ∷ back)
    shape =
        ap (λ t. front ++ (b'{' ∷ t)) (append_three body (b'}' ∷ []) back)
        ∙ sym (append_three front (b'{' ∷ body) (b'}' ∷ back))

end_of : (len a n : ℕ) → end_index a len (some (a + suc n)) - a ≡ suc (suc n)
end_of len a n = ground arith

-- A text in braces comes out of the noise around it, whatever it is, where there is no `{` in front
-- of it and no `}` behind it.
pub extract_json-noise :
    (front body back : List ℕ)
    → Without b'{' front
    → Without b'}' back
    → extract_json (front ++ (braced body ++ back)) ≡ braced body
unfolding extract_json
extract_json-noise front body back f b =
    let s = front ++ (braced body ++ back) in
    let first = index-skip b'{' front ((body ++ (b'}' ∷ [])) ++ back) f in
    let last = last_of_noisy front body back b in
    rw
      (
        first,
        last,
        drop-append front (braced body ++ back),
        end_of (length s) (length front) (length body),
      )
      (ap (λ n. take n (braced body ++ back)) (braced_length body) ∙ take-append (braced body) back)
  where
    braced_length : (body : List ℕ) → suc (suc (length body)) ≡ length (braced body)
    braced_length body = omega (arith, length-append body (b'}' ∷ []))

-- ===== src/Mgmt/Extract.antt =====
-- The part of the output of jboss-cli.sh that ExecuteMgmtOp of pkg/util/wildfly_mgmt.go decodes:
-- from the first `{` to the last `}`.
pub mod Noise
use wildfly_operator.Prelude.{
  ℕ, suc, ◌-◌, Option, none, some, List, [], ◌∷◌, ltb, ◌==◌, if◌then◌else◌, length, take, drop,
}

-- strings.Index of one byte.
index : ℕ → List ℕ → Option ℕ
index b [] = none
index b (c ∷ s) =
    if c == b then some 0 else elim (index b s) [ none ↦ none | some i ↦ some (suc i) ]

-- strings.LastIndex of one byte.
last_index : ℕ → List ℕ → Option ℕ
last_index b [] = none
last_index b (c ∷ s) = elim (last_index b s) [
  | none ↦ if c == b then some 0 else none
  | some i ↦ some (suc i)
]

-- startIndex: 0 where there is no `{`.
abbrev start_index : Option ℕ → ℕ
start_index none = 0
start_index (some i) = i

-- lastIndex: the text's length where there is no `}` from the start on, else one behind it.
abbrev end_index : ℕ → ℕ → Option ℕ → ℕ
end_index start len none = len
end_index start len (some i) = if ltb i start then len else suc i

unfoldable pub extract_json : List ℕ → List ℕ
unfolding index last_index
extract_json s =
    let start = start_index (index b'{' s) in
    let end = end_index start (length s) (last_index b'}' s) in take (end - start) (drop start s)

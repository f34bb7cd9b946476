-- ===== src/Util/EnvVars/Durations.antt =====
-- GetEnvAsDuration of pkg/util/go_utilities.go at a number of seconds.
use wildfly_operator.Prelude.{ℕ, ◌*◌, ◌≤◌, ◌<◌, ◌≡◌, ◌∙◌, refl, ap, Option, some, String, arith}
use wildfly_operator.Prelude.Int.{ℤ, pos, int64, int64_of_IsInt64, ◌*ℤ◌}
use wildfly_operator.Util.Numbers.{format_int, parse_int-format_int}
use wildfly_operator.Util.EnvVars.{get_env_as_int, second, get_env_as_duration}

-- The most seconds that a Duration holds.
abbrev pub most_seconds : ℕ
most_seconds = 9223372036

get_env_as_int-set :
    (lookup_env : String → Option String) (key : String) (fallback : ℤ) (n : ℕ)
    → n < 9223372036854775808
    → lookup_env key ≡ some (format_int (pos n))
    → get_env_as_int lookup_env key fallback ≡ pos n
unfolding get_env_as_int
get_env_as_int-set lookup_env key fallback n small set =
    rw (set, parse_int-format_int 64 (pos n) small) refl

seconds_exact : (n : ℕ) → pos n *ℤ second ≡ pos (n * 1000000000)
seconds_exact n = ground arith

-- A variable that holds a number of seconds up to the most that a Duration holds, as FormatInt
-- writes it, gives a billion nanoseconds for each of the seconds, whatever the default.
pub get_env_as_duration-seconds :
    (lookup_env : String → Option String) (key : String) (fallback : ℤ) (n : ℕ)
    → n ≤ most_seconds
    → lookup_env key ≡ some (format_int (pos n))
    → get_env_as_duration lookup_env key fallback second ≡ pos (n * 1000000000)
unfolding get_env_as_duration
get_env_as_duration-seconds lookup_env key fallback n small set =
    ap (λ (z : ℤ). int64 (z *ℤ second))
      (get_env_as_int-set lookup_env key fallback n (omega arith) set)
    ∙ (ap int64 (seconds_exact n) ∙ int64_of_IsInt64 (pos (n * 1000000000)) (omega arith))

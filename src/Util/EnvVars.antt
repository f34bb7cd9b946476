-- ===== src/Util/EnvVars.antt =====
-- GetEnvAsInt and GetEnvAsDuration of pkg/util/go_utilities.go.
pub mod Durations
use wildfly_operator.Prelude.{String, Option, none, some, codes}
use wildfly_operator.Prelude.Int.{ℤ, pos, ◌*ℤ◌, int64}
use wildfly_operator.Util.Numbers.{parse_int}

abbrev number_or : ℤ → Option ℤ → ℤ
number_or fallback none = fallback
number_or fallback (some n) = n

abbrev int_or : ℤ → Option String → ℤ
int_or fallback none = fallback
int_or fallback (some s) = number_or fallback (parse_int 64 (codes s))

-- `lookup_env` is os.LookupEnv.
unfoldable pub get_env_as_int : (String → Option String) → String → ℤ → ℤ
get_env_as_int lookup_env key fallback = int_or fallback (lookup_env key)

-- time.Second, in nanoseconds.
abbrev pub second : ℤ
second = pos 1000000000

-- A Duration is an int64 of nanoseconds, and so is the product.
unfoldable pub get_env_as_duration : (String → Option String) → String → ℤ → ℤ → ℤ
get_env_as_duration lookup_env key fallback duration_type =
    int64 (get_env_as_int lookup_env key fallback *ℤ duration_type)

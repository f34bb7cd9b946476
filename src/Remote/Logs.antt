-- ===== src/Remote/Logs.antt =====
-- The operations of pkg/util/remote_ops.go on the log of a pod: ObtainLogLatestTimestamp and
-- VerifyLogContainsRegexp.
pub mod Search
pub mod Closed
use wildfly_operator.Prelude.{
  ℕ, String, Bool, true, false, Option, none, some, List, [], ◌∷◌, str_eq, if◌then◌else◌,
}
use wildfly_operator.Prelude.Int.{pos}
use wildfly_operator.Kube.{Opaque}
use wildfly_operator.World.{Result, ok, err}
use wildfly_operator.Remote.{
  RemotePod, LogOptions, Stream, Layout, rfc3339, rfc3339_nano, Backend, ScanError, Failure,
  stream_refused, log_not_buffered, no_timestamp, bad_timestamp, log_not_read, log_not_finished,
  Call, opened_log, closed_log, Remote, ◌>>=◌, ◌>>◌, ask, call, answer_of, wrap, wrapping,
  get_kube_rest_config, get_kube_core_client,
}
use wildfly_operator.Remote.Lines.{scan_lines}
use wildfly_operator.Remote.Patterns.{find_timestamp}

-- A log that is not given opens no reader.
abbrev open_log : RemotePod → LogOptions → Opaque → Remote Stream
open_log p options client b calls = elim (b.open_log client p.namespace p.name options) [
  | ok s ↦ (ok s, opened_log p.name options ∷ calls)
  | err e ↦ (err (stream_refused e), calls)
]

unfoldable pub read_pod_log : RemotePod → LogOptions → Remote Stream
unfolding get_kube_rest_config get_kube_core_client
read_pod_log p options = do
  config ← get_kube_rest_config
  client ← get_kube_core_client config
  open_log p options client

-- tailOneLineLogOptions
abbrev pub tail_one_line_log_options : LogOptions
tail_one_line_log_options = record {
  tail_lines = some (pos 1);
  timestamps = true;
  since_time = none;
}

abbrev whole_text : Stream → Option Opaque → Result Failure String
whole_text s none = ok s.content
whole_text s (some e) = err (log_not_buffered e)

-- readerToString: the reader is closed whether or not it could be read.
unfoldable pub reader_to_string : Stream → Remote String
reader_to_string s = do call closed_log; answer_of (whole_text s s.failure)

-- time.Unix(0, 0)
abbrev pub start_of_the_time_timestamp : ℕ
start_of_the_time_timestamp = 0

-- The second layout is tried where the first one fails.
abbrev nano_time : String → Result Opaque ℕ → Result Failure ℕ
nano_time text r = wrap (bad_timestamp text) r

abbrev either_time : Backend → String → Result Opaque ℕ → Result Failure ℕ
either_time b text (ok t) = ok t
either_time b text (err e) = nano_time text (b.parse_time rfc3339_nano text)

abbrev time_of : Backend → String → String → Result Failure ℕ
time_of b line text =
    if str_eq text ""
    then err (no_timestamp line)
    else either_time b text (b.parse_time rfc3339 text)

unfoldable pub line_time : Backend → String → Result Failure ℕ
line_time b line =
    if str_eq line "" then ok start_of_the_time_timestamp else time_of b line (find_timestamp line)

unfoldable pub obtain_log_latest_timestamp : RemotePod → Remote ℕ
unfolding read_pod_log reader_to_string
obtain_log_latest_timestamp p = do
  s ← wrapping log_not_read (read_pod_log p tail_one_line_log_options)
  line ← reader_to_string s
  ask (λ b. line_time b line)

abbrev pub time_limiting_pod_log_options : Option ℕ → LogOptions
time_limiting_pod_log_options log_from_time = record {
  tail_lines = none;
  timestamps = false;
  since_time = log_from_time;
}

unfoldable pub first_match : (String → Bool) → List String → Option String
first_match test [] = none
first_match test (line ∷ lines) =
    let rest = first_match test lines in if test line then some line else rest

abbrev no_match : Option ScanError → Result Failure String
no_match none = ok ""
no_match (some e) = err (log_not_finished e)

abbrev found_or : Option ScanError → Option String → Result Failure String
found_or e (some line) = ok line
found_or e none = no_match e

-- The scanner's error shows only where no line before it matched.
unfoldable pub search_log : (String → Bool) → Stream → Result Failure String
search_log test s = let (lines, e) = scan_lines s in found_or e (first_match test lines)

unfoldable pub verify_log_contains_regexp : RemotePod → Option ℕ → (String → Bool) → Remote String
unfolding read_pod_log
verify_log_contains_regexp p log_from_time test = do
  s ← wrapping log_not_read (read_pod_log p (time_limiting_pod_log_options log_from_time))
  call closed_log
  answer_of (search_log test s)

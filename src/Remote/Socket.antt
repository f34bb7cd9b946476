-- ===== src/Remote/Socket.antt =====
-- SocketConnect of pkg/util/remote_ops.go.
use Prim.Native.String.{◌++◌ as append}
use wildfly_operator.Prelude.{String, Option, none, some, ◌∷◌}
use wildfly_operator.Prelude.Int.{ℤ, pos}
use wildfly_operator.Kube.{Opaque}
use wildfly_operator.World.{Result, ok, err}
use wildfly_operator.Util.Numbers.{format_int}
use wildfly_operator.Util.EnvVars.{get_env_as_duration, second}
use wildfly_operator.Remote.{
  Stream, Backend, Failure, not_connected, no_response, dialed, set_deadline, sent, Remote, ◌>>◌,
  ask, call,
}
use wildfly_operator.Remote.Lines.{read_string}

-- The variables of the package, which are set once.
unfoldable pub socket_dial_timeout : Backend → ℤ
socket_dial_timeout b = get_env_as_duration b.lookup_env "SOCKET_DIAL_TIMEOUT" (pos 30) second

unfoldable pub socket_dead_timeout : Backend → ℤ
socket_dead_timeout b = get_env_as_duration b.lookup_env "SOCKET_DEAD_TIMEOUT" (pos 600) second

-- fmt.Sprintf("%v:%v", hostname, port)
abbrev pub socket_address : String → ℤ → String
socket_address hostname port = append hostname (append ":" (format_int port))

abbrev connection : Option Opaque → Result Failure (Unit {0})
connection none = ok tt
connection (some e) = err (not_connected e)

abbrev pub reason_of : Option Opaque → Opaque
reason_of none = "EOF"
reason_of (some e) = e

-- A reply that ends before its newline is an error.
abbrev pub message_of : Option Opaque → Option String → Result Failure String
message_of failure none = err (no_response (reason_of failure))
message_of failure (some message) = ok message

unfoldable pub message : Stream → Result Failure String
message s = message_of s.failure (read_string s.content)

-- Fprintf takes the command for its format.
abbrev pub text_sent : Backend → String → String
text_sent b command = b.print_format (append command "\n")

-- A failed dial, of which this is the answer, opens no connection.
abbrev pub dial : Option Opaque → String → ℤ → Remote (Unit {0})
dial none address timeout b calls = (ok tt, dialed address timeout ∷ calls)
dial (some e) address timeout b calls = (err (not_connected e), calls)

-- The connection is not closed.
abbrev pub converse : String → String → Option Opaque → Remote String
converse address command answer b calls =
    (do
      dial answer address (socket_dial_timeout b)
      call (set_deadline (socket_dead_timeout b))
      call (sent (text_sent b command))
      ask (λ b'. message (b'.reply address (text_sent b command))))
      b calls

unfoldable pub socket_connect : String → ℤ → String → Remote String
unfolding socket_dial_timeout socket_dead_timeout
socket_connect hostname port command b calls =
    let address = socket_address hostname port in
    converse address command (b.dial address (socket_dial_timeout b)) b calls

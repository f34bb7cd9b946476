-- ===== src/Remote/Replied.antt =====
-- When SocketConnect of pkg/util/remote_ops.go has no error.
use Prim.Native.String.{◌++◌ as append}
use Prim.Native.Char.{Char, code}
use wildfly_operator.Prelude.{
  ℕ, ◌≡◌, refl, ap, true, Bool-cases, ◌==◌, inl, inr, Option, none, some, List, [], ◌∷◌, ◌++◌,
  String, codes, arith,
}
use wildfly_operator.Prelude.Int.{ℤ}
use wildfly_operator.Kube.{Opaque}
use wildfly_operator.World.{ok}
use wildfly_operator.Remote.{Stream, Backend, Call, dialed, set_deadline, sent}
use wildfly_operator.Remote.Lines.{read_string, more_of}
use wildfly_operator.Remote.Socket.{
  socket_address, socket_dial_timeout, socket_dead_timeout, converse, socket_connect, message,
  message_of,
}

-- The content has a line that ends in a newline.
abbrev pub HasLine : String → Type 0
HasLine s = (line : List ℕ) × (rest : List ℕ) × (codes s ≡ line ++ (b'\n' ∷ rest))

-- The address could be dialled; nothing was done but to set the deadline and to send the command and a
-- newline, in this order; and the reply has a whole line.
pub record IsReplied (b : Backend) (host : String) (port : ℤ) (command : String) (calls : List Call)
    : Type 0 where
  pub reached : b.dial (socket_address host port) (socket_dial_timeout b) ≡ none
  pub spoken :
      calls
      ≡ sent (b.print_format (append command "\n"))
        ∷ set_deadline (socket_dead_timeout b)
        ∷ dialed (socket_address host port) (socket_dial_timeout b)
        ∷ []
  pub answered :
      HasLine (b.reply (socket_address host port) (b.print_format (append command "\n"))).content

of_eqb : (a b : ℕ) → a == b ≡ true → a ≡ b
of_eqb a b h = ground arith

more_line :
    (c : Char) (s : String) (o : Option String) {line : String}
    → ((rest : String) → o ≡ some rest → HasLine s)
    → more_of c o ≡ some line
    → HasLine (String.◌∷◌ c s)
more_line c s none all g = absurd cc
more_line c s (some rest) all g =
    let (first, after, e) = all rest refl in (code c ∷ first, after, ap (λ cs. code c ∷ cs) e)

read_string-HasLine : (s : String) {line : String} → read_string s ≡ some line → HasLine s
unfolding read_string
read_string-HasLine String.[] e = absurd cc
read_string-HasLine (String.◌∷◌ c s) {line} e = elim (Bool-cases (code c == 10)) [
  | inl here ↦ ([], codes s, ap (λ n. n ∷ codes s) (of_eqb (code c) 10 here))
  | inr other ↦
      more_line c s (read_string s) (λ rest f. read_string-HasLine s {line = rest} f)
        (rw other at e)
]

message-HasLine : (s : Stream) {m : String} → message s ≡ ok m → HasLine s.content
unfolding message
message-HasLine s {m} e = go (read_string s.content) refl e
  where
    go :
        (o : Option String)
        → read_string s.content ≡ o
        → message_of s.failure o ≡ ok m
        → HasLine s.content
    go none f g = absurd cc
    go (some line) f g = read_string-HasLine s.content f

pub socket_connect-IsReplied :
    (b : Backend) (host : String) (port : ℤ) (command : String) {m : String}
    → (socket_connect host port command b []).0 ≡ ok m
    → IsReplied b host port command (socket_connect host port command b []).1
unfolding socket_connect
socket_connect-IsReplied b host port command {m} e =
    go (b.dial (socket_address host port) (socket_dial_timeout b)) refl e
  where
    go :
        (o : Option Opaque)
        → b.dial (socket_address host port) (socket_dial_timeout b) ≡ o
        → (converse (socket_address host port) command o b []).0 ≡ ok m
        → IsReplied b host port command (converse (socket_address host port) command o b []).1
    go none f g = record { reached = f; spoken = refl; answered = message-HasLine _ g }
    go (some x) f g = absurd cc

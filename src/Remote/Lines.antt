-- ===== src/Remote/Lines.antt =====
-- bufio.Scanner and ReadString of Go's standard library, as pkg/util/remote_ops.go uses them. A text
-- is valid UTF-8 and is given by its code points.
use Prim.Native.Char.{Char, code}
use wildfly_operator.Prelude.{
  ℕ, ◌+◌, String, Bool, Option, none, some, List, [], ◌∷◌, ◌&&◌, ltb, leb, ◌==◌, str_eq,
  if◌then◌else◌,
}
use wildfly_operator.Kube.{Opaque}
use wildfly_operator.Remote.{Stream, ScanError, token_too_long, read_error}

abbrev push : Char → List String → List String
push c [] = String.◌∷◌ c "" ∷ []
push c (line ∷ lines) = String.◌∷◌ c line ∷ lines

-- The lines without their newlines; the last one may lack it.
unfoldable pub split_lines : String → List String
split_lines String.[] = []
split_lines (String.◌∷◌ c s) =
    let rest = split_lines s in if code c == 10 then "" ∷ rest else push c rest

-- A carriage return at the end of a line is dropped.
unfoldable pub drop_cr : String → String
drop_cr String.[] = ""
drop_cr (String.◌∷◌ c s) =
    let rest = drop_cr s in if code c == 13 && str_eq s "" then "" else String.◌∷◌ c rest

abbrev utf8_width : ℕ → ℕ
utf8_width c = if ltb c 128 then 1 else if ltb c 2048 then 2 else if ltb c 65536 then 3 else 4

unfoldable pub byte_length : String → ℕ
byte_length String.[] = 0
byte_length (String.◌∷◌ c s) = utf8_width (code c) + byte_length s

-- bufio.MaxScanTokenSize: the buffer is full before the line has ended.
abbrev pub max_scan_token_size : ℕ
max_scan_token_size = 65536

abbrev pub is_too_long : String → Bool
is_too_long line = leb max_scan_token_size (byte_length line)

abbrev pub end_of : Option Opaque → Option ScanError
end_of none = none
end_of (some e) = some (read_error e)

-- The tokens that Scan gives one after another, and Err after the last one.
unfoldable pub scan : List String → Option Opaque → List String × Option ScanError
scan [] e = ([], end_of e)
scan (line ∷ lines) e =
    let rest = scan lines e in
    if is_too_long line then ([], some token_too_long) else (drop_cr line ∷ rest.0, rest.1)

unfoldable pub scan_lines : Stream → List String × Option ScanError
scan_lines s = scan (split_lines s.content) s.failure

abbrev pub more_of : Char → Option String → Option String
more_of c none = none
more_of c (some line) = some (String.◌∷◌ c line)

-- ReadString('\n'): the text up to the first newline, with it.
unfoldable pub read_string : String → Option String
read_string String.[] = none
read_string (String.◌∷◌ c s) =
    let rest = read_string s in if code c == 10 then some (String.◌∷◌ c "") else more_of c rest

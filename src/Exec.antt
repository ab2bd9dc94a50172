-- ===== src/Exec.antt =====
-- agent/internal/exec/bridge.go: the terminal bridge. The connection to the daemon is the bytes that
-- it sends until it ends, and whether it was closed here. `strings.TrimSpace` on bytes is a parameter.
pub mod Request
pub mod Answer
pub mod Copy
mod Tests
use docker_mobile.Base.{
  ℕ, zero, suc, ◌+◌, ◌-◌, ◌*◌, ◌/◌, ◌^◌, Bool, true, false, ◌&&◌, ◌||◌, not, Option, none, some,
  List, [], ◌∷◌, ◌++◌, ltb, leb, if◌then◌else◌, nat_beq, Text, codes, length, take, all, ◌==◌,
  text_eq, Result, ok, err, cut,
}

abbrev pub max_exec_id_len : ℕ
max_exec_id_len = 64

between : ℕ → ℕ → ℕ → Bool
between low high c = leb low c && leb c high

unfoldable pub is_hex_digit : ℕ → Bool
unfolding between
is_hex_digit c = between b'0' b'9' c || (between b'a' b'f' c || between b'A' b'F' c)

-- `validExecID`.
unfoldable pub valid_exec_id : Text → Bool
valid_exec_id id =
    if nat_beq (length id) 0 || ltb max_exec_id_len (length id) then false else all is_hex_digit id

abbrev pub crlf : Text
crlf = 13 ∷ 10 ∷ []

-- The JSON body of the request, and what follows its request line.
abbrev pub exec_body : Text
exec_body = codes "{\"Detach\":false,\"Tty\":true}"

unfoldable pub exec_headers : Text
exec_headers =
    codes "Host: docker"
    ++ (crlf
        ++ (codes "Content-Type: application/json"
            ++ (crlf
                ++ (codes "Connection: Upgrade"
                    ++ (crlf
                        ++ (codes "Upgrade: tcp"
                            ++ (crlf
                                ++ (codes "Content-Length: 27"
                                    ++ (crlf ++ (crlf ++ exec_body))))))))))

-- The request that `startExecHijack` writes.
unfoldable pub exec_request : Text → Text
exec_request id = codes "POST /exec/" ++ (id ++ (codes "/start HTTP/1.1" ++ (crlf ++ exec_headers)))

pub data ExecError : Type 0 where
  dial_failed write_failed no_status_line malformed_status bad_status headers_cut : ExecError
  unexpected_status : ExecError

-- `ReadString('\n')`: the line with its line feed, and what follows.
abbrev pub with_line_feed : Option (Text × Text) → Option (Text × Text)
with_line_feed none = none
with_line_feed (some (line, rest)) = some (line ++ 10 ∷ [], rest)

unfoldable pub read_line : Text → Option (Text × Text)
read_line s = with_line_feed (cut 10 s)

-- The second of the fields of `strings.SplitN(line, " ", 3)`.
abbrev pub second_field : Option (Text × Text) → Option Text
second_field none = none
second_field (some (_, rest)) = elim (cut 32 rest) [ none ↦ some rest | some (f, _) ↦ some f ]

unfoldable pub digits_of : ℕ → Text → Option ℕ
unfolding between
digits_of acc [] = some acc
digits_of acc (c ∷ s) =
    let rest = digits_of (acc * 10 + (c - b'0')) s in if between b'0' b'9' c then rest else none

up_to : ℕ → Option ℕ → Option ℕ
up_to limit none = none
up_to limit (some n) = if leb n limit then some n else none

negative : Option ℕ → Option (Bool × ℕ)
negative none = none
negative (some n) = some (true, n)

positive : Option ℕ → Option (Bool × ℕ)
positive none = none
positive (some n) = some (false, n)

digits_given : Text → Option ℕ
unfolding digits_of between
digits_given [] = none
digits_given (c ∷ s) = digits_of 0 (c ∷ s)

-- `strconv.Atoi` on 64 bits: whether there is a minus sign, and the number behind the sign.
unfoldable pub atoi : Text → Option (Bool × ℕ)
unfolding up_to negative positive digits_given
atoi [] = none
atoi (c ∷ s) =
    if nat_beq c b'-'
    then negative (up_to (2 ^ 63) (digits_given s))
    else if nat_beq c b'+'
    then positive (up_to (2 ^ 63 - 1) (digits_given s))
    else positive (up_to (2 ^ 63 - 1) (digits_given (c ∷ s)))

-- Whether the status says that the terminal is open, or its error.
unfoldable pub check_status : Option Text → Option ExecError
check_status none = some malformed_status
check_status (some field) = elim (atoi field) [
  | none ↦ some bad_status
  | some (minus, code) ↦
      if not minus && (nat_beq code 101 || nat_beq code 200) then none else some unexpected_status
]

-- An empty line, by what stands before its line feed.
abbrev pub is_blank : Text → Bool
is_blank line = line == 13 ∷ [] || line == []

-- The loop over the headers: what follows the empty line, or none if the text ends before it. `line` is
-- what was read of the line so far.
unfoldable pub skip_headers : Text → Text → Option Text
skip_headers line [] = none
skip_headers line (c ∷ s) =
    let next = skip_headers [] s in
    let longer = skip_headers (line ++ c ∷ []) s in
    if nat_beq c 10 then (if is_blank line then some s else next) else longer

abbrev headers_or_cut : Option Text → Result ExecError Text
headers_or_cut none = err headers_cut
headers_or_cut (some rest) = ok rest

-- The answer of the daemon: what a terminal then reads, or an error.
unfoldable pub read_answer : (Text → Text) → Text → Result ExecError Text
read_answer trim incoming = elim (read_line incoming) [
  | none ↦ err no_status_line
  | some (line, rest) ↦ elim (check_status (second_field (cut 32 (trim line)))) [
    | some e ↦ err e
    | none ↦ headers_or_cut (skip_headers [] rest)
  ]
]

-- A connection: what was written to it, and whether it was closed.
pub record Conn : Type 0 where
  pub written : Text
  pub closed : Bool

unfoldable pub close_on_error : Conn → Result ExecError Text → Conn × Result ExecError Text
close_on_error c (ok rest) = (c, ok rest)
close_on_error c (err e) = (record c { closed = true }, err e)

-- `startExecHijack` on the connection that the dialer gives, if it gives one.
unfoldable pub start_exec :
    (Text → Text) → Option Conn → Bool → Text → Text → Option Conn × Result ExecError Text
start_exec trim none writes incoming id = (none, err dial_failed)
start_exec trim (some c) writes incoming id =
    if writes
    then (let (c', r) =
          close_on_error (record c { written = c.written ++ exec_request id })
            (read_answer trim incoming) in
        (some c', r))
    else (some (record c { closed = true }), err write_failed)

-- What one read of the daemon's side gives: bytes, and whether the read failed.
pub record Chunk : Type 0 where
  pub data_read : Text
  pub failed : Bool

-- The goroutine of `bridge`: the messages that it sends, one for each read that gives bytes, until a
-- read fails or a message cannot be sent. `room` is how many can be.
unfoldable pub copy_out : ℕ → List Chunk → List Text
copy_out room [] = []
copy_out zero (c ∷ cs) =
    let more = copy_out zero cs in if c.data_read == [] && not c.failed then more else []
copy_out (suc room) (c ∷ cs) =
    let skipped = copy_out (suc room) cs in
    let more = copy_out room cs in
    if c.data_read == []
    then (if c.failed then [] else skipped)
    else c.data_read ∷ (if c.failed then [] else more)

-- The loop of `bridge`: the messages of the phone that are written, until one cannot be.
unfoldable pub copy_in : ℕ → List Text → List Text
copy_in room messages = take room messages

-- ===== src/Admin/Client.antt =====
-- agent/internal/admin/client.go: the command line's side of the admin socket. What arrives on it is given.
use docker_mobile.Base.{
  ℕ, Bool, ◌||◌, not, Option, none, some, List, [], ◌∷◌, ltb, leb, if◌then◌else◌, Text, length,
  ◌==◌, text_eq, Result, ok, err,
}
use docker_mobile.Admin.{Event, event_started}

-- `maxSocketPath`.
abbrev pub max_socket_path : ℕ
max_socket_path = 103

-- The errors of a call. `own` is an error of the request itself.
pub data ClientError : Type 0 where
  path_too_long no_access not_running stopped unreadable cancelled : ClientError
  cannot_reach said own : Text → ClientError
  answered_status : ℕ → ClientError

-- `checkSocketPath`.
unfoldable pub check_socket_path : Text → Option ClientError
check_socket_path path = if ltb max_socket_path (length path) then some path_too_long else none

-- What an error says of itself: no permission, no such file, or a connection refused.
pub record Failure : Type 0 where
  pub permission : Bool
  pub not_exist : Bool
  pub conn_refused : Bool
  pub text : Text

-- `dialFailure`: what the connection failed with, and what looking at the socket failed with.
unfoldable pub dial_failure : Failure → Failure → ClientError
dial_failure e stat =
    if e.permission || stat.permission
    then no_access
    else if e.not_exist || (stat.not_exist || e.conn_refused)
    then not_running
    else cannot_reach e.text

-- How an exchange over the socket ends. `message` is that of an error's body, if there is one.
pub data Exchange (A : Type 0) : Type 0 where
  dial_failed : Failure → Failure → Exchange A
  broke : Text → Exchange A
  responded : ℕ → Option Text → A → Exchange A

refuse : ℕ → Option Text → ClientError
refuse status none = answered_status status
refuse status (some []) = answered_status status
refuse status (some (c ∷ message)) = said (c ∷ message)

exchanged : {A : Type 0} → Exchange A → Result ClientError A
unfolding refuse
exchanged (dial_failed e stat) = err (dial_failure e stat)
exchanged (broke e) = err (own e)
exchanged (responded status message body) =
    if leb 400 status then err (refuse status message) else ok body

refuse_path : {A : Type 0} → Result ClientError A → Option ClientError → Result ClientError A
refuse_path x none = x
refuse_path x (some e) = err e

-- `do`.
unfoldable pub exchange : {A : Type 0} → Text → Exchange A → Result ClientError A
unfolding exchanged refuse_path
exchange path x = refuse_path (exchanged x) (check_socket_path path)

-- `Devices` and `Revoke`: an answer that does not read as one is an error too.
readable : {A : Type 0} → Result ClientError (Option A) → Result ClientError A
readable (err e) = err e
readable (ok none) = err unreadable
readable (ok (some a)) = ok a

unfoldable pub ask : {A : Type 0} → Text → Exchange (Option A) → Result ClientError A
unfolding readable
ask path x = readable (exchange path x)

-- The end of the stream without an ending event. The context of a command has no deadline: it is over
-- when it was cancelled.
unfoldable pub broken_off : Bool → ClientError
broken_off ctx_over = if ctx_over then cancelled else stopped

-- `bufio.MaxScanTokenSize`: a line of that length does not fit the scanner, which then stops.
abbrev pub max_line : ℕ
max_line = 65536

-- The loop of `Pair` over the lines that arrive, without their line feeds: what the caller is handed,
-- and how it ends. `decode` is `json.Unmarshal` into an event, none for a line that it refuses.
unfoldable pub read_events :
    (Text → Option Event) → Bool → List Text → List Event × Option ClientError
read_events decode ctx_over [] = ([], some (broken_off ctx_over))
read_events decode ctx_over (line ∷ lines) =
    let rest = read_events decode ctx_over lines in
    if leb max_line (length line) then ([], some (broken_off ctx_over)) else elim (decode line) [
      | none ↦ ([], some unreadable)
      | some e ↦ if not (e.event == event_started) then (e ∷ [], none) else (e ∷ rest.0, rest.1)
    ]

paired_over :
    (Text → Option Event) → Bool → Result ClientError (List Text) → List Event × Option ClientError
paired_over decode ctx_over (err e) = ([], some e)
paired_over decode ctx_over (ok lines) = read_events decode ctx_over lines

-- `Pair`.
unfoldable pub pair :
    (Text → Option Event) → Bool → Text → Exchange (List Text) → List Event × Option ClientError
unfolding paired_over
pair decode ctx_over path x = paired_over decode ctx_over (exchange path x)

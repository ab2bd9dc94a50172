-- ===== src/Server.antt =====
-- agent/internal/server/middleware.go: what stands in front of the handlers.
pub mod Tokens
pub mod Gates
pub mod Failures
pub mod Pair
mod Tests
use docker_mobile.Base.{
  ℕ, ◌+◌, ◌-◌, Bool, true, false, ◌&&◌, not, Option, none, some, List, [], ◌∷◌, ◌++◌, map, ltb, leb,
  if◌then◌else◌, nat_beq, Text, codes, length, ◌==◌, text_eq, lookup, insert, delete, Result, ok,
  err, split,
}
use docker_mobile.State.Names.{trim_space}
use docker_mobile.State.Devices.{role_full}
use docker_mobile.Policy.{allowed_read_only}

-- The headers of a request, by their canonical names.
abbrev pub Headers : Type 0
Headers = List (Text × List Text)

values_in : Option (List Text) → List Text
values_in none = []
values_in (some vs) = vs

-- `Header.Values`.
abbrev pub header_values : Text → Headers → List Text
unfolding values_in
header_values name h = values_in (lookup name h)

abbrev pub upgrade : Text
upgrade = codes "Upgrade"

abbrev pub connection : Text
connection = codes "Connection"

lower : ℕ → ℕ
lower c = if leb b'A' c && leb c b'Z' then c + 32 else c

-- `strings.EqualFold` with "upgrade", to whose letters no others fold.
unfoldable pub is_upgrade : Text → Bool
unfolding lower
is_upgrade t = map lower t == codes "upgrade"

-- The tokens of one value that are kept, before those of the values behind it.
pub keep_tokens : (ℕ → Bool) → List Text → List Text → List Text
keep_tokens space [] kept = kept
keep_tokens space (t ∷ ts) kept =
    let token = trim_space space t in
    let further = keep_tokens space ts kept in
    if not (token == []) && not (is_upgrade token) then token ∷ further else further

pub kept_tokens : (ℕ → Bool) → List Text → List Text
unfolding keep_tokens
kept_tokens space [] = []
kept_tokens space (v ∷ vs) = keep_tokens space (split b',' v) (kept_tokens space vs)

-- `strings.Join` with a comma and a space.
unfoldable pub join : List Text → Text
join [] = []
join (t ∷ []) = t
join (t ∷ u ∷ ts) = t ++ (codes ", " ++ join (u ∷ ts))

unfoldable pub set_connection : List Text → Headers → Headers
set_connection [] h = delete connection h
set_connection (t ∷ ts) h = insert connection (join (t ∷ ts) ∷ []) h

-- `dropUpgrade`.
unfoldable pub drop_upgrade : (ℕ → Bool) → Headers → Headers
drop_upgrade space h =
    let h' = delete upgrade h in set_connection (kept_tokens space (header_values connection h')) h'

-- What the gates look at: the role is that of the caller, and empty without one.
pub record Request : Type 0 where
  pub role : Text
  pub method : Text
  pub path : Text
  pub headers : Headers

pub data Refusal : Type 0 where
  from_web_page read_only_access : Refusal

-- `rejectBrowsers`: `Header.Get` is the first value.
first_or_empty : List Text → Text
first_or_empty [] = []
first_or_empty (v ∷ vs) = v

unfoldable pub reject_browsers : Request → Result Refusal Request
unfolding first_or_empty
reject_browsers r =
    if not (first_or_empty (header_values (codes "Origin") r.headers) == [])
    then err from_web_page
    else ok r

-- `roleGate`.
unfoldable pub role_gate : (ℕ → Bool) → Request → Result Refusal Request
role_gate space r =
    if r.role == role_full
    then ok r
    else if allowed_read_only r.method r.path
    then ok (record r { headers = drop_upgrade space r.headers })
    else err read_only_access

-- `fullOnly`.
unfoldable pub full_only : Request → Result Refusal Request
full_only r = if r.role == role_full then ok r else err read_only_access

-- `maxFailureAddrs`.
abbrev pub max_failure_addrs : ℕ
max_failure_addrs = 1000

abbrev pub second : ℕ
second = 1000000000

-- `failureLog`: when an address was last named, and the lines that were written.
pub record FailureLog : Type 0 where
  pub last : List (Text × ℕ)
  pub lines : List (Text × ℕ)

noted_lately : Option ℕ → ℕ → Bool
noted_lately none now = false
noted_lately (some at) now = ltb (now - at) second

-- `failureLog.note`: `key` is the key of the throttle. The line is given with the key and the time.
unfoldable pub note : Text → ℕ → FailureLog → FailureLog
unfolding noted_lately
note key now f = if noted_lately (lookup key f.last) now then f else record {
  last = insert key now (if leb max_failure_addrs (length f.last) then [] else f.last);
  lines = (key, now) ∷ f.lines;
}

-- `statusWriter`.
pub record StatusWriter : Type 0 where
  pub status : ℕ
  pub bytes : ℕ
  pub hijacked : Bool

abbrev pub new_writer : StatusWriter
new_writer = record { status = 0; bytes = 0; hijacked = false }

-- `WriteHeader`.
unfoldable pub write_header : ℕ → StatusWriter → StatusWriter
write_header status w = if nat_beq w.status 0 then record w { status = status } else w

-- `Write`, where the writer behind it takes `n` bytes.
unfoldable pub write : ℕ → StatusWriter → StatusWriter
write n w =
    let w' = if nat_beq w.status 0 then record w { status = 200 } else w in
    record w' { bytes = w'.bytes + n }

-- `Hijack`, and whether the writer behind it gave the connection away.
unfoldable pub hijack : Bool → StatusWriter → StatusWriter
hijack given w = if given then record w { hijacked = true } else w

-- `code`.
unfoldable pub code : StatusWriter → ℕ
code w = if w.hijacked then 101 else if nat_beq w.status 0 then 200 else w.status

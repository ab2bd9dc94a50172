-- ===== src/State/Devices.antt =====
-- agent/internal/state/devices.go: the paired devices, in memory and on disk.
-- A time is a number of nanoseconds, read from the clock by the caller; the random source is the
-- list of the bytes that it will give, and reading beyond them is its error. SHA-256 (`hash_token`)
-- and the JSON form of the list are parameters: `encode` may fail, and `decode` reads a file back.
pub mod Store
pub mod Access
pub mod Restart
pub mod Valid
pub mod Book
pub mod Writes
pub mod Durable
mod Tests
use docker_mobile.Base.{
  ℕ, ◌+◌, ◌-◌, Bool, true, ◌&&◌, ◌||◌, not, Option, none, some, List, [], ◌∷◌, ◌++◌, map, ltb, leb,
  if◌then◌else◌, nat_beq, Text, codes, length, take, ◌==◌, text_eq, lookup, insert, delete, Result,
  ok, err, hex,
}
use docker_mobile.State.Dir.{Folder, Faults, write_file}
use docker_mobile.State.Names.{clean_name}
use docker_mobile.State.Sort.{text_lt, sort_by}
use docker_mobile.State.Tokens.{make_token, token_id}

abbrev pub role_full : Text
role_full = codes "full"

abbrev pub role_read_only : Text
role_read_only = codes "readonly"

-- `Role.Valid`.
unfoldable pub valid_role : Text → Bool
valid_role r = r == role_full || r == role_read_only

pub record Device : Type 0 where
  pub id : Text
  pub name : Text
  pub role : Text
  pub token_hash : Text
  pub created_at : ℕ
  pub last_seen_at : ℕ

-- What the package takes from the standard library.
pub record Library : Type 0 where
  pub hash_token : Text → Text
  pub encode : List Device → Option Text
  pub decode : Text → Option (List Device)
  -- `unicode.IsSpace` and `unicode.IsPrint`.
  pub is_space : ℕ → Bool
  pub is_print : ℕ → Bool

pub record Devices : Type 0 where
  pub folder : Folder
  pub by_id : List (Text × Device)
  pub persisted : List (Text × ℕ)

abbrev pub devices_file : Text
devices_file = codes "devices.json"

-- `lastSeenEvery`, one minute.
abbrev pub last_seen_every : ℕ
last_seen_every = 60000000000

-- The values of a map, in its order.
abbrev pub values : List (Text × Device) → List Device
values = map (λ e. e.1)

abbrev pub id_less : Device → Device → Bool
id_less d e = text_lt d.id e.id

-- `List`'s order: oldest first, then by id.
abbrev pub older : Device → Device → Bool
older d e =
    if nat_beq d.created_at e.created_at then text_lt d.id e.id else ltb d.created_at e.created_at

-- `List`.
pub list_devices : Devices → List Device
list_devices s = sort_by older (values s.by_id)

record_saved : List Device → List (Text × ℕ) → List (Text × ℕ)
record_saved [] m = m
record_saved (d ∷ ds) m = record_saved ds (insert d.id d.last_seen_at m)

-- The end of `saveLocked`: the saved times are noted only after a write without error.
saved : List Device → Devices → Folder × Option Text → Devices × Option Text
saved list s (d, none) = (record s { folder = d; persisted = record_saved list s.persisted }, none)
saved list s (d, some e) = (record s { folder = d }, some e)

encode_error : Text
encode_error = codes "encode devices.json"

-- `saveLocked`: the error, if there is one. The file ends in a line feed.
unfoldable pub save : Library → Faults → Devices → Devices × Option Text
unfolding saved record_saved encode_error
save lib os s =
    let list = sort_by id_less (values s.by_id) in
    elim (lib.encode list) [
      | none ↦ (s, some encode_error)
      | some text ↦ saved list s (write_file os devices_file (text ++ 10 ∷ []) s.folder)
    ]

-- The loop of `Add` that draws an id that is not taken, and the bytes that are left after it.
pub draw_id : List ℕ → List (Text × Device) → Option (Text × List ℕ)
draw_id (a ∷ b ∷ c ∷ d ∷ rest) m =
    let id = hex (a ∷ b ∷ c ∷ d ∷ []) in
    let again = draw_id rest m in elim (lookup id m) [ none ↦ some (id, rest) | some _ ↦ again ]
draw_id short m = none

-- What `Add` hands back, beside the list of devices: the device with its token, or an error.
abbrev pub Added : Type 0
Added = Result Text (Device × Text)

-- `Add` once the random bytes are there: the new device is taken back when it cannot be stored.
pub store_device : Library → Faults → Device → Text → Devices → Devices × Added
store_device lib os d token s =
    let (s', failure) = save lib os (record s { by_id = insert d.id d s.by_id }) in
    elim failure [
      | none ↦ (s', ok (d, token))
      | some e ↦ (record s' { by_id = delete d.id s'.by_id }, err e)
    ]

pub make_device : Library → Text → Text → Text → Text → ℕ → Device
make_device lib id name role token now = record {
  id = id;
  name = clean_name lib.is_space lib.is_print name;
  role = role;
  token_hash = lib.hash_token token;
  created_at = now;
  last_seen_at = now;
}

pub with_id :
    Library → Faults → ℕ → Text → Text → Devices → Option (Text × List ℕ) → Devices × Added
with_id lib os now name role s none = (s, err (codes "random id"))
with_id lib os now name role s (some (id, rest)) =
    if ltb (length rest) 32
    then (s, err (codes "random token"))
    else let token = make_token id (take 32 rest) in
      store_device lib os (make_device lib id name role token now) token s

-- `Add`.
unfoldable pub add : Library → Faults → List ℕ → ℕ → Text → Text → Devices → Devices × Added
add lib os random now name role s =
    if valid_role role
    then with_id lib os now name role s (draw_id random s.by_id)
    else (s, err (codes "unknown role"))

-- Whether the last-seen time is to reach the disk. A device that has no saved time counts as saved
-- long ago.
unfoldable pub save_due : Option ℕ → ℕ → Bool
save_due none now = true
save_due (some at) now = leb last_seen_every (now - at)

-- A failed write is ignored.
unfoldable pub touch : Library → Faults → ℕ → Text → Device → Devices → Devices × Option Device
touch lib os now id d s =
    let seen = record d { last_seen_at = now } in
    let s' = record s { by_id = insert id seen s.by_id } in
    (if save_due (lookup id s.persisted) now then (save lib os s').0 else s', some seen)

unfoldable pub check_token :
    Library → Faults → ℕ → Text → Text → Option Device → Devices → Devices × Option Device
check_token lib os now token id none s = (s, none)
check_token lib os now token id (some d) s =
    if lib.hash_token token == d.token_hash then touch lib os now id d s else (s, none)

-- `Authenticate`.
unfoldable pub authenticate : Library → Faults → ℕ → Text → Devices → Devices × Option Device
authenticate lib os now token s = elim (token_id token) [
  | none ↦ (s, none)
  | some id ↦ check_token lib os now token id (lookup id s.by_id) s
]

-- What `Remove` hands back: the device if it had one, or an error.
unfoldable pub remove_device :
    Library → Faults → Text → Device → Devices → Devices × Result Text (Option Device)
remove_device lib os id d s =
    let (s', failure) = save lib os (record s { by_id = delete id s.by_id }) in
    elim failure [
      | none ↦ (record s' { persisted = delete id s'.persisted }, ok (some d))
      | some e ↦ (record s' { by_id = insert id d s'.by_id }, err e)
    ]

-- `Remove`.
unfoldable pub remove : Library → Faults → Text → Devices → Devices × Result Text (Option Device)
remove lib os id s = elim (lookup id s.by_id) [
  | none ↦ (s, ok none)
  | some d ↦ remove_device lib os id d s
]

-- An entry of the file that `LoadDevices` takes: a SHA-256 digest has 64 hexadecimal digits.
pub complete : Device → Bool
complete d = not (d.id == []) && (valid_role d.role && nat_beq (length d.token_hash) 64)

damaged : Text
damaged = codes "devices.json is damaged"

load_entries : List Device → Devices → Result Text Devices
load_entries [] s = ok s
load_entries (d ∷ ds) s =
    let rest = load_entries ds (record s {
      by_id = insert d.id d s.by_id;
      persisted = insert d.id d.last_seen_at s.persisted;
    }) in
    if complete d then rest else err damaged

-- `LoadDevices` on what `ReadFile` answers: none for a missing file.
unfoldable pub load_devices : Library → Folder → Result Text (Option Text) → Result Text Devices
unfolding load_entries complete damaged
load_devices lib folder (err e) = err e
load_devices lib folder (ok none) = ok (record { folder = folder; by_id = []; persisted = [] })
load_devices lib folder (ok (some file)) = elim (lib.decode file) [
  | none ↦ err damaged
  | some list ↦ load_entries list (record { folder = folder; by_id = []; persisted = [] })
]

-- ===== src/Admin.antt =====
-- agent/internal/admin/admin.go: the API that the command line talks to. JSON is a parameter; what the
-- manager, the devices and the registry do is theirs.
pub mod Client
pub mod Ending
pub mod Socket
pub mod Revoked
pub mod Race
mod Tests
use docker_mobile.Base.{
  ℕ, ◌+◌, ◌-◌, ◌/◌, not, Option, none, some, List, [], ◌∷◌, ◌++◌, map, if◌then◌else◌, nat_beq, Text,
  codes, ◌==◌, text_eq, Result, ok, err,
}
use docker_mobile.Pairing.Code.{format}
use docker_mobile.Pairing.Proof.{link}
use docker_mobile.Pairing.Manager.{
  Outcome, paired, expired, replaced, voided, cancelled, failed, Pending, Manager, StartError,
  start, cancel, expire,
}
use docker_mobile.State.Dir.{Faults}
use docker_mobile.State.Devices.{
  Device, Library, Devices, role_full, valid_role, list_devices, remove,
}
use docker_mobile.Conns.{Registry, close_device}
use docker_mobile.Config.Address
use docker_mobile.Config.Address.{join_host_port}
use docker_mobile.Config.Advertised.{Advertise, AdvertiseError, with_host}

-- `PairRequest`.
pub record PairRequest : Type 0 where
  pub role : Text
  pub name : Text
  pub host : Text

-- `DeviceInfo`.
pub record DeviceInfo : Type 0 where
  pub id : Text
  pub name : Text
  pub role : Text
  pub created_at : ℕ
  pub last_seen_at : ℕ

abbrev pub info_of : Device → DeviceInfo
info_of d = record {
  id = d.id;
  name = d.name;
  role = d.role;
  created_at = d.created_at;
  last_seen_at = d.last_seen_at;
}

-- `Event`.
pub record Event : Type 0 where
  pub event : Text
  pub code : Text
  pub link : Text
  pub fingerprint : Text
  pub address : Text
  pub role : Text
  pub expires_in : ℕ
  pub device : Option DeviceInfo
  pub error : Text

abbrev pub event_started : Text
event_started = codes "started"

-- `Server`, without what has a module of its own.
pub record Server : Type 0 where
  pub advertise : Advertise
  pub fingerprint : Text
  pub fingerprint_display : Text
  pub agent_name : Text

-- What the package takes from elsewhere: the parser of a request, and `state.CleanName` for names.
pub record Setup : Type 0 where
  pub decode : Text → Option PairRequest
  pub clean : Text → Text
  pub address : Address.Library

-- What is answered in place of a stream.
pub data Refusal : Type 0 where
  malformed_request : Refusal
  unknown_role_asked : Text → Refusal
  bad_host : AdvertiseError → Refusal
  not_started : StartError → Refusal

-- The status of each.
abbrev pub refusal_status : Refusal → ℕ
refusal_status malformed_request = 400
refusal_status (unknown_role_asked role) = 400
refusal_status (bad_host e) = 400
refusal_status (not_started e) = 500

-- The request of a body that was read, none if it was too long. An empty one asks for nothing special.
unfoldable pub read_request : Setup → Option Text → Option PairRequest
read_request setup none = none
read_request setup (some []) = some (record { role = []; name = []; host = [] })
read_request setup (some (c ∷ body)) = setup.decode (c ∷ body)

abbrev pub role_or_full : Text → Text
role_or_full [] = role_full
role_or_full (c ∷ role) = c ∷ role

-- `portFor`.
unfoldable pub port_for : Advertise → Text
port_for a = if a.host == [] then [] else a.port

-- `addressOf`.
unfoldable pub address_of : Advertise → Text
address_of a =
    if a.host == []
    then []
    else if not (a.scheme == [])
    then a.scheme ++ (codes "://" ++ join_host_port a.host a.port)
    else join_host_port a.host a.port

-- The first event. `now` is before the end of the pairing, which has just begun.
unfoldable pub started_event : Server → ℕ → Pending → Advertise → Event
started_event s now p adv = record {
  event = event_started;
  code = format p.code;
  link = link (record {
    host = adv.host;
    port = port_for adv;
    fingerprint = s.fingerprint;
    scheme = adv.scheme;
    code = p.code;
    name = s.agent_name;
  });
  fingerprint = s.fingerprint_display;
  address = address_of adv;
  role = p.role;
  expires_in = (p.expires_at - now) / 1000000000;
  device = none;
  error = [];
}

-- What a pairing that was asked for begins as.
abbrev pub Begun : Type 0
Begun = Result Refusal (Pending × Advertise)

begun : {D : Type 0} → Advertise → Manager D × Result StartError Pending → Manager D × Begun
begun adv (m, err e) = (m, err (not_started e))
begun adv (m, ok p) = (m, ok (p, adv))

start_at :
    {D : Type 0}
    → Setup
    → ℕ
    → List ℕ
    → PairRequest
    → Manager D
    → Result AdvertiseError Advertise
    → Manager D × Begun
unfolding begun
start_at setup now random req m (err e) = (m, err (bad_host e))
start_at setup now random req m (ok adv) =
    begun adv (start valid_role setup.clean now random (role_or_full req.role) req.name m)

-- `handlePair` up to the stream.
unfoldable pub begin_pairing :
    {D : Type 0} → Setup → Server → ℕ → List ℕ → Manager D → Option PairRequest → Manager D × Begun
unfolding start_at
begin_pairing setup s now random m none = (m, err malformed_request)
begin_pairing setup s now random m (some req) =
    if valid_role (role_or_full req.role)
    then start_at setup now random req m (with_host setup.address req.host s.advertise)
    else (m, err (unknown_role_asked req.role))

-- The cases of the `select`.
pub data Woke : Type 0 where
  told timed_out gone : Woke

-- What each does to the pairing before the result is read.
unfoldable pub settle : {D : Type 0} → Woke → Text → Manager D → Manager D
settle told id m = m
settle timed_out id m = expire id m
settle gone id m = cancel id m

-- `<-done`: none while nothing was sent.
unfoldable pub receive : {D : Type 0} → ℕ → List (ℕ × Outcome D) → Option (Outcome D)
receive n [] = none
receive n ((k, r) ∷ log) = let rest = receive n log in if nat_beq n k then some r else rest

blank_event : Text → Event
blank_event e = record {
  event = e;
  code = [];
  link = [];
  fingerprint = [];
  address = [];
  role = [];
  expires_in = 0;
  device = none;
  error = [];
}

-- The event of a result.
unfoldable pub ending_event : Outcome Device → Event
unfolding blank_event
ending_event (paired d) = record (blank_event (codes "paired")) { device = some (info_of d) }
ending_event expired = blank_event (codes "expired")
ending_event replaced = blank_event (codes "replaced")
ending_event voided = blank_event (codes "voided")
ending_event cancelled = blank_event (codes "cancelled")
ending_event (failed e) = record (blank_event (codes "failed")) { error = e }

-- The end of `handlePair`: a request that is over is told of a phone only.
unfoldable pub report : Woke → Outcome Device → List Event
report gone (paired d) = ending_event (paired d) ∷ []
report gone expired = []
report gone replaced = []
report gone voided = []
report gone cancelled = []
report gone (failed e) = []
report told r = ending_event r ∷ []
report timed_out r = ending_event r ∷ []

-- What a request to pair is answered; `blocked` waits for a result for ever.
pub data PairAnswer : Type 0 where
  refused : Refusal → PairAnswer
  streamed : List Event → PairAnswer
  blocked : PairAnswer

end_stream : Event → Woke → Option (Outcome Device) → PairAnswer
end_stream first woke none = blocked
end_stream first woke (some r) = streamed (first ∷ report woke r)

-- `handlePair` once the pairing began: `during` is what others do until the request wakes.
unfoldable pub stream :
    Server
    → ℕ
    → (Manager Device → Manager Device)
    → Woke
    → Manager Device × Begun
    → Manager Device × PairAnswer
unfolding end_stream
stream s later during woke (m, err e) = (m, refused e)
stream s later during woke (m, ok (p, adv)) =
    let m' = settle woke p.id (during m) in
    (m', end_stream (started_event s later p adv) woke (receive p.done m'.delivered))

-- `handlePair`.
unfoldable pub handle_pair :
    Setup
    → Server
    → ℕ
    → ℕ
    → List ℕ
    → Option Text
    → (Manager Device → Manager Device)
    → Woke
    → Manager Device
    → Manager Device × PairAnswer
handle_pair setup s now later random body during woke m =
    stream s later during woke (begin_pairing setup s now random m (read_request setup body))

-- `handleDevices`.
unfoldable pub handle_devices : Devices → List DeviceInfo
handle_devices s = map info_of (list_devices s)

-- What a revocation is answered: the device, with the number of requests that it had open.
pub data RevokeAnswer : Type 0 where
  revoked : DeviceInfo → ℕ → RevokeAnswer
  no_device : RevokeAnswer
  not_stored : Text → RevokeAnswer

-- `handleRevoke` after the removal.
unfoldable pub close_revoked :
    Text → Registry → Devices × Result Text (Option Device) → Devices × Registry × RevokeAnswer
close_revoked id c (s, err e) = (s, c, not_stored e)
close_revoked id c (s, ok none) = (s, c, no_device)
close_revoked id c (s, ok (some d)) =
    let (c', n) = close_device c id in (s, c', revoked (info_of d) n)

-- `handleRevoke`.
unfoldable pub handle_revoke :
    Library → Faults → Text → Devices → Registry → Devices × Registry × RevokeAnswer
handle_revoke lib os id s c = close_revoked id c (remove lib os id s)

-- ===== src/Auth.antt =====
-- agent/internal/auth/authenticator.go: who sent a request. `require` works on the limiter, the list
-- of devices and the registry together. Other goroutines may run between its steps: they are
-- functions on the shared state, one for each place where no lock is held.
pub mod Callers
mod Tests
use docker_mobile.Base.{
  ℕ, ◌-◌, Bool, false, ◌&&◌, ◌||◌, not, Option, none, some, List, [], ◌∷◌, if◌then◌else◌, nat_beq,
  Text, codes, ◌==◌, text_eq, cut_prefix,
}
use docker_mobile.Throttle.{Limiter, blocked, fail}
use docker_mobile.Conns.{Registry, track, release}
use docker_mobile.State.Dir.{Faults}
use docker_mobile.State.Tokens.{is_device_token}
use docker_mobile.State.Devices.{Device, Library, Devices, role_full, authenticate}

-- The state that requests share. The limiter and the registry are optional.
pub record Agent : Type 0 where
  pub limiter : Option Limiter
  pub devices : Devices
  pub conns : Option Registry

-- What the authenticator takes from elsewhere: SHA-256, and the shared token, empty if there is none.
pub record Setup : Type 0 where
  pub lib : Library
  pub sha256 : Text → Text
  pub legacy : Text

-- A request: its Authorization header, the key of its address, its context, and whether the client
-- has gone away when the request is tracked.
pub record Request : Type 0 where
  pub authorization : Text
  pub key : Text
  pub ctx : ℕ
  pub gone : Bool

-- What happens outside: the time and the disk, at first and at the second lookup, and what others do before the request is tracked, before
-- its context is looked at, and before its device is looked up again.
pub record Outside : Type 0 where
  pub now : ℕ
  pub os : Faults
  pub later : ℕ
  pub os_later : Faults
  pub before_track : Agent → Agent
  pub before_look : Agent → Agent
  pub before_lookup : Agent → Agent

-- What a request is answered; one that is handed on has the number that releases it.
pub data Answer : Type 0 where
  handed_on : Device → Option ℕ → Answer
  shutting_down : Answer
  too_many : ℕ → Answer
  unauthorized : Answer

abbrev pub bearer_prefix : Text
bearer_prefix = codes "Bearer "

some_text : Option Text → Option Text
some_text none = none
some_text (some []) = none
some_text (some (c ∷ t)) = some (c ∷ t)

-- `bearerToken`.
unfoldable pub bearer_token : Request → Option Text
unfolding some_text
bearer_token r = some_text (cut_prefix bearer_prefix r.authorization)

-- `sameToken`.
unfoldable pub same_token : Setup → Text → Text → Bool
same_token setup got want = setup.sha256 got == setup.sha256 want

-- The device of whoever presents the shared token.
abbrev pub env_device : Device
env_device = record {
  id = codes "env";
  name = codes "env-token";
  role = role_full;
  token_hash = [];
  created_at = 0;
  last_seen_at = 0;
}

-- The request is tracked, if there is a registry.
unfoldable pub track_request : Request → Device → Agent → Option Registry → Agent × Option ℕ
track_request r d a none = (a, none)
track_request r d a (some c) = let (c', n) = track c d.id r.ctx in (record a { conns = some c' }, n)

-- The release that `Track` returned.
unfoldable pub release_request : Request → Device → Option ℕ → Agent → Option Registry → Agent
release_request r d n a none = a
release_request r d n a (some c) = record a { conns = some (release c d.id n r.ctx) }

unfoldable pub has_ended : ℕ → List ℕ → Bool
has_ended ctx [] = false
has_ended ctx (c ∷ cs) = nat_beq c ctx || has_ended ctx cs

-- Whether the registry ended the request, and not its client.
unfoldable pub ended_by_registry : Request → Option Registry → Bool
ended_by_registry r none = false
ended_by_registry r (some c) = has_ended r.ctx c.ended && not r.gone

-- The second lookup of the device, for a request that came with its token.
unfoldable pub look_up_again :
    Setup → Outside → Option Text → Device → Agent → Agent × Option Device
look_up_again setup o none d a = (a, some d)
look_up_again setup o (some token) d a =
    let (s, found) = authenticate setup.lib o.os_later o.later token a.devices in
    (record a { devices = s }, found)

-- The end of `serve`: the caller goes on without the hash of its token.
unfoldable pub hand_on :
    Request → Device → Option ℕ → Bool → Agent × Option Device → Agent × Option Answer
hand_on r d n ended (a, none) = (release_request r d n a a.conns, none)
hand_on r d n ended (a, some found) =
    if ended
    then (release_request r d n a a.conns, some shutting_down)
    else (a, some (handed_on (record found { token_hash = [] }) n))

-- `serve`: no answer if the device is no longer paired.
unfoldable pub serve :
    Setup → Outside → Request → Device → Option Text → Agent → Agent × Option Answer
serve setup o r d token a =
    let a₁ = o.before_track a in
    let (a₂, n) = track_request r d a₁ a₁.conns in
    let a₃ = o.before_look a₂ in
    let ended = ended_by_registry r a₃.conns in
    hand_on r d n ended (look_up_again setup o token d (o.before_lookup a₃))

unfoldable pub is_blocked : Option Limiter → Text → ℕ → Option ℕ
is_blocked none key now = none
is_blocked (some l) key now = blocked l key now

-- A wrong guess is counted.
unfoldable pub count_failure : Option Text → Text → ℕ → Agent → Option Limiter → Agent
count_failure none key now a l = a
count_failure (some bearer) key now a none = a
count_failure (some bearer) key now a (some l) = record a { limiter = some (fail l key now) }

-- The test of the shared token.
unfoldable pub is_legacy : Setup → Option Text → Bool
is_legacy setup none = false
is_legacy setup (some bearer) =
    not (setup.legacy == [])
    && (not (is_device_token bearer) && same_token setup bearer setup.legacy)

-- The answer of a `serve` for the shared token, which always has one.
unfoldable pub served : Agent × Option Answer → Agent × Answer
served (a, none) = (a, unauthorized)
served (a, some answer) = (a, answer)

-- What is left when no paired device sent the request.
unfoldable pub require_other : Setup → Outside → Request → Option Text → Agent → Agent × Answer
require_other setup o r bearer a = elim (is_blocked a.limiter r.key o.now) [
  | some left ↦ (a, too_many left)
  | none ↦
      if is_legacy setup bearer
      then served (serve setup o r env_device none a)
      else (count_failure bearer r.key o.now a a.limiter, unauthorized)
]

unfoldable pub or_other :
    Setup → Outside → Request → Option Text → Agent × Option Answer → Agent × Answer
or_other setup o r bearer (a, some answer) = (a, answer)
or_other setup o r bearer (a, none) = require_other setup o r bearer a

-- A request with a device token, after its first lookup.
unfoldable pub try_device :
    Setup → Outside → Request → Text → Devices × Option Device → Agent → Agent × Option Answer
try_device setup o r token (s, none) a = (record a { devices = s }, none)
try_device setup o r token (s, some d) a = serve setup o r d (some token) (record a { devices = s })

unfoldable pub require_device :
    Setup → Outside → Request → Option Text → Agent → Agent × Option Answer
require_device setup o r none a = (a, none)
require_device setup o r (some bearer) a =
    if is_device_token bearer
    then try_device setup o r bearer (authenticate setup.lib o.os o.now bearer a.devices) a
    else (a, none)

-- `Require`.
unfoldable pub require : Setup → Outside → Request → Agent → Agent × Answer
require setup o r a =
    let bearer = bearer_token r in or_other setup o r bearer (require_device setup o r bearer a)

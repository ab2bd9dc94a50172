-- ===== src/Auth/Tests.antt =====
-- Runs of the authenticator.
use docker_mobile.Base.{
  ◌≡◌, refl, true, false, none, some, [], ◌∷◌, codes, nat_eq, text_eq, lookup, insert, cut_prefix,
  has_prefix, cut,
}
use docker_mobile.Throttle
use docker_mobile.Throttle.{Limiter, blocked}
use docker_mobile.Conns
use docker_mobile.Conns.{Registry, track, close_device}
use docker_mobile.State.Dir.{no_faults}
use docker_mobile.State.Tokens.{token_id, is_device_token}
use docker_mobile.State.Devices.{Device, role_full, authenticate, check_token, touch, save_due}
use docker_mobile.Auth.{
  Agent, Setup, Request, Outside, handed_on, unauthorized, bearer_token, same_token, env_device,
  track_request, release_request, has_ended, ended_by_registry, look_up_again, hand_on, serve,
  is_blocked, count_failure, is_legacy, served, require_other, or_other, try_device, require_device,
  require,
}
use docker_mobile.Auth.Callers
use docker_mobile.Auth.Callers.{IsCaller}

abbrev setup : Setup
setup = record {
  lib = record {
    hash_token = λ t. t;
    encode = λ ds. none;
    decode = λ t. none;
    is_space = λ r. false;
    is_print = λ r. true;
  };
  sha256 = λ t. t;
  legacy = codes "shared";
}

abbrev phone : Device
phone = record {
  id = codes "a1";
  name = codes "Pixel";
  role = role_full;
  token_hash = codes "dm1.a1.x";
  created_at = 1;
  last_seen_at = 1;
}

abbrev agent : Agent
agent = record {
  limiter = some Throttle.new;
  devices = record { folder = []; by_id = (phone.id, phone) ∷ []; persisted = (phone.id, 1) ∷ [] };
  conns = some Conns.new;
}

abbrev quiet : Outside
quiet = record {
  now = 5;
  os = no_faults [];
  later = 6;
  os_later = no_faults [];
  before_track = λ a. a;
  before_look = λ a. a;
  before_lookup = λ a. a;
}

-- The device is taken off the list after the request was tracked.
abbrev unpaired : Outside
unpaired = record quiet {
  before_lookup = λ a. record a { devices = record { folder = []; by_id = []; persisted = [] } };
}

abbrev request : Request
request = record {
  authorization = codes "Bearer dm1.a1.x";
  key = codes "192.0.2.7";
  ctx = 40;
  gone = false;
}

abbrev shared : Request
shared = record request { authorization = codes "Bearer shared" }

abbrev seen : Device
seen = record phone { last_seen_at = 6; token_hash = [] }

runs : Unit {0}
unfolding require bearer_token require_device try_device or_other require_other serve served
    track_request look_up_again hand_on release_request ended_by_registry has_ended is_legacy
    same_token is_blocked count_failure authenticate check_token touch save_due is_device_token
    token_id track blocked lookup insert cut_prefix has_prefix cut
runs = tt

handed : (require setup quiet request agent).1 ≡ handed_on seen (some 1)
unfolding runs
handed = refl

handed_shared : (require setup quiet shared agent).1 ≡ handed_on env_device (some 1)
unfolding runs
handed_shared = refl

refused_in_between : (require setup unpaired request agent).1 ≡ unauthorized
unfolding runs
refused_in_between = refl

require-IsCaller_example : IsCaller setup quiet request agent seen
require-IsCaller_example = Callers.require-IsCaller setup quiet request agent seen (some 1) handed

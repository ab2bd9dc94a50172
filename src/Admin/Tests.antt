-- ===== src/Admin/Tests.antt =====
-- A phone that is paired from the command line, and revoked.
use docker_mobile.Base.{
  ℕ, zero, suc, ◌≡◌, refl, false, none, some, List, [], ◌∷◌, arith, ltb, leb, nat_beq, Text, codes,
  nat_eq, text_eq, lookup, insert, delete, ok, cut_prefix, cut, hex,
}
use docker_mobile.Pairing.Manager.{
  paired, cancelled, Pending, new_manager, Create, start, end_pairing, install, cancel, expire,
  end_if,
}
use docker_mobile.Pairing.Manager.Channels.{Call, starts, Setting, waits, run, step}
use docker_mobile.State.Tokens.{token_id}
use docker_mobile.Pairing.Code.{normalize, new_code}
use docker_mobile.Pairing.Manager
use docker_mobile.State.Names.{trim_left, trim_right}
use docker_mobile.Config.Advertised.{with_host}
use docker_mobile.State.Dir.{no_faults, write_file}
use docker_mobile.State.Devices.{
  Device, Devices, Library, role_full, valid_role, remove, remove_device, save, authenticate,
  check_token, touch, save_due,
}
use docker_mobile.Conns
use docker_mobile.Conns.History
use docker_mobile.Conns.History.{In, tracks}
use docker_mobile.Auth
use docker_mobile.Auth.{
  Request, Outside, handed_on, has_ended, hand_on, look_up_again, ended_by_registry,
}
use docker_mobile.Conns.{track, close_device}
use docker_mobile.Admin.{
  Server, Setup, begin_pairing, read_request, handle_pair, stream, settle, receive, report,
  handle_revoke, told, timed_out,
}
use docker_mobile.Admin.Ending
use docker_mobile.Admin.Ending.{Ends}
use docker_mobile.Admin.Revoked
use docker_mobile.Admin.Revoked.{Revokes}
use docker_mobile.Admin.Client.{check_socket_path}
use docker_mobile.Admin.Socket
use docker_mobile.Admin.Socket.{
  Phase, serving, Hitches, Move, listens, dies, with_lock, listening, listen_locked,
}
use docker_mobile.Admin.Socket.Alone
use docker_mobile.Admin.Socket.Alone.{unserved}
use docker_mobile.Admin.Race
use docker_mobile.Admin.Race.{
  Race, Turn, asks, revokes, registers, Stage, waiting, answered, not_begun, closed_off,
}
use docker_mobile.Admin.Race.Safe

abbrev setup : Setup
setup = record {
  decode = λ t. none;
  clean = λ t. t;
  address = record { is_space = λ c. nat_beq c 32; is_control = λ c. ltb c 32; is_ip = λ t. false };
}

abbrev server : Server
server = record {
  advertise = record { scheme = []; host = codes "agent.example"; port = codes "8377" };
  fingerprint = [];
  fingerprint_display = [];
  agent_name = codes "home";
}

abbrev set : Setting
set = record {
  crypto = record { pbkdf2 = λ p s n. p; hmac = λ k m. m };
  valid = valid_role;
  clean = λ t. t;
}

times : ℕ → ℕ → List ℕ
times zero x = []
times (suc n) x = x ∷ times n x

abbrev random : List ℕ
random = times 40 9

runs : Unit {0}
unfolding times begin_pairing read_request start end_pairing install normalize new_code with_host
    trim_left trim_right handle_pair stream settle receive report end_if waits run step
runs = tt

-- The pairing before is replaced by this one.
abbrev before : List (Call (Unit {0}) Device)
before = starts 1 (times 40 3) role_full (codes "old") ∷ []

abbrev pending : Pending
pending = record {
  id = codes "0909090909090909";
  code = codes "999999999999";
  role = role_full;
  name = [];
  expires_at = 300000000005;
  tries = 0;
  done = 1;
}

begins :
    (begin_pairing setup server 5 random
      (run set (new_manager, tt) before).0
      (read_request setup (some []))).1
    ≡ ok (pending, server.advertise)
unfolding runs valid_role hex
begins = refl

told_over :
    timed_out ≡ told
    → waits 1
        (run {W = Unit {0}} set
          (
            (begin_pairing setup server 5 random
                (run set (new_manager, tt) before).0
                (read_request setup (some []))).0,
            tt,
          )
          before).0.cur
      ≡ 0
told_over h = absurd (ground (h, arith))

handle_pair-Ends_example : Ends server 6 pending server.advertise timed_out (
    handle_pair setup server 5 6 random
      (some [])
      (λ (k : Manager.Manager Device). (run {W = Unit {0}} set (k, tt) before).0)
      timed_out
      (run set (new_manager, tt) before).0)
handle_pair-Ends_example =
    Ending.handle_pair-Ends {W = Unit {0}} setup server set tt tt before before 5 6 random (some [])
      timed_out pending server.advertise begins told_over

abbrev lib : Library
lib = record {
  hash_token = λ t. t;
  encode = λ ds. some [];
  decode = λ t. none;
  is_space = λ c. nat_beq c 32;
  is_print = λ c. leb 32 c;
}

abbrev phone : Device
phone = record {
  id = codes "a1";
  name = codes "Pixel";
  role = role_full;
  token_hash = codes "dm1.a1.x";
  created_at = 1;
  last_seen_at = 1;
}

abbrev paired_one : Devices
paired_one = record { folder = []; by_id = (phone.id, phone) ∷ []; persisted = (phone.id, 1) ∷ [] }

handle_revoke-Revokes_example :
    Revokes phone.id paired_one Conns.new
      (handle_revoke lib (no_faults []) phone.id paired_one Conns.new)
handle_revoke-Revokes_example =
    Revoked.handle_revoke-Revokes lib (no_faults []) phone.id paired_one Conns.new

abbrev auth : Auth.Setup
auth = record { lib = lib; sha256 = λ t. t; legacy = [] }

abbrev quiet : Outside
quiet = record {
  now = 5;
  os = no_faults [];
  later = 6;
  os_later = no_faults [];
  before_track = λ a. a;
  before_look = λ a. a;
  before_lookup = λ a. a;
}

abbrev request : Request
request = record {
  authorization = codes "Bearer dm1.a1.x";
  key = codes "192.0.2.7";
  ctx = 40;
  gone = false;
}

abbrev turns : List Turn
turns =
    asks
    ∷ asks
    ∷ registers (tracks phone.id 41)
    ∷ asks
    ∷ revokes (no_faults [])
    ∷ revokes (no_faults [])
    ∷ []

abbrev raced : Race
raced =
    Race.run auth quiet request phone (codes "dm1.a1.x")
      (record {
        limiter = none;
        devices = paired_one;
        system = History.run History.start [];
        stage = waiting;
        revoking = not_begun;
      })
      turns

passes : Unit {0}
unfolding Race.run Race.step remove remove_device save has_ended hand_on look_up_again authenticate
    check_token touch ended_by_registry token_id cut_prefix cut lookup delete track close_device
    History.step write_file
passes = tt

let_through :
    raced.stage
    ≡ answered (some (handed_on (record phone { last_seen_at = 6; token_hash = [] }) (some 1)))
unfolding passes History.run save_due insert
let_through = refl

done_with : raced.revoking ≡ closed_off
unfolding passes History.run save_due insert
done_with = refl

named : token_id (codes "dm1.a1.x") ≡ some phone.id
unfolding passes token_id cut_prefix cut
named = refl

revoke_beats_request_example : In 40 raced.system.registry.ended
revoke_beats_request_example =
    Safe.revoke_beats_request auth quiet request phone (codes "dm1.a1.x") none paired_one [] turns
      (record phone { last_seen_at = 6; token_hash = [] }) (some 1) named (omega arith) let_through
      done_with

-- The second agent is refused, the first one dies, and the third takes over its socket.
abbrev smooth : Hitches
smooth = record { lock = none; remove = none; listen = none; chmod = none }

abbrev path : Text
path = codes "/data/admin.sock"

abbrev moves : List Move
moves = listens 1 path smooth ∷ listens 2 path smooth ∷ dies 1 ∷ listens 3 path smooth ∷ []

sockets : Unit {0}
unfolding Socket.run Socket.step Socket.listen with_lock listening listen_locked check_socket_path
sockets = tt

third : (Socket.run (unserved none) moves).phase 3 ≡ serving
unfolding sockets
third = refl

serves_alone_example :
    ((Socket.run (unserved none) moves).holder ≡ some 3)
    × ((Socket.run (unserved none) moves).socket ≡ some 3)
    × ((Socket.run (unserved none) moves).phase 2 ≡ serving → ◌≡◌ {A = ℕ} 2 3)
serves_alone_example = Alone.serves_alone none moves 3 2 third

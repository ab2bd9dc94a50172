-- ===== src/Command/Tests.antt =====
-- The pair command on a stream, and the other commands on their arguments.
use docker_mobile.Base.{
  ◌≡◌, refl, true, false, none, some, [], ◌∷◌, map, arith, codes, ◌==◌, nat_eq, text_eq, err,
  contains_byte, ◌<◌, ◌⊎◌, Option, Text, All, take, length, ◌++◌, if◌then◌else◌,
}
use docker_mobile.Pairing.Manager.{paired, Pending}
use docker_mobile.State.Devices.{Device, role_full}
use docker_mobile.Admin.{Event, event_started, ending_event, Server, started_event, report, gone}
use docker_mobile.Admin.Client.{stopped, responded}
use docker_mobile.Config.Address.{join_host_port}
use docker_mobile.Command.{
  CommandError, one_id_wanted, access_label, no_ending, stopped_after_code, cmd_pair, cmd_revoke,
  health_address,
}
use docker_mobile.Command.Told
use docker_mobile.Command.Told.{Tells, IsReadable}

abbrev server : Server
server = record {
  advertise = record { scheme = []; host = codes "agent.example"; port = codes "8377" };
  fingerprint = [];
  fingerprint_display = [];
  agent_name = codes "home";
}

abbrev pending : Pending
pending = record {
  id = codes "aa";
  code = codes "0AB1CDEFGHJK";
  role = role_full;
  name = [];
  expires_at = 1000;
  tries = 0;
  done = 0;
}

abbrev phone : Device
phone = record {
  id = codes "a1";
  name = codes "Pixel";
  role = role_full;
  token_hash = [];
  created_at = 1;
  last_seen_at = 1;
}

label_read_only : access_label (codes "readonly") ≡ codes "read-only"
unfolding access_label
label_read_only = refl

stopped_late : no_ending (some stopped) true ≡ stopped_after_code
unfolding no_ending
stopped_late = refl

two_ids :
    cmd_revoke [] (λ id. responded 200 none none) (codes "a" ∷ codes "b" ∷ []) ≡ err one_id_wanted
unfolding cmd_revoke
two_ids = refl

asks_loopback :
    health_address (λ h. h == codes "::") false ([], codes "8377")
    ≡ codes "https://127.0.0.1:8377/healthz"
unfolding health_address join_host_port contains_byte
asks_loopback = refl

-- A coding of two events.
started_line : Event
started_line = started_event server 6 pending server.advertise

encode : Event → Text
encode e = e.event

decode : Text → Option Event
decode t =
    if t == event_started
    then some started_line
    else if t == codes "paired"
    then some (ending_event (paired phone))
    else none

readable : All (IsReadable decode encode) (started_line ∷ report gone (paired phone))
unfolding decode encode started_line report started_event ending_event
readable = ((refl, omega arith), ((refl, omega arith), tt))

broken_line : decode (codes "{") ≡ none
unfolding decode
broken_line = refl

cmd_pair-Tells_example :
    Tells (paired phone) (
      cmd_pair decode true (codes "/data/admin.sock") (
        responded 200 none (
          take 1 (
            map encode
              (started_event server 6 pending server.advertise ∷ report gone (paired phone)))
          ++ (codes "{" ∷ []))))
    ⊎ ((1 < length (started_event server 6 pending server.advertise ∷ report gone (paired phone)))
        × ((e : CommandError) × (cmd_pair decode true (codes "/data/admin.sock") (
                responded 200 none (
                  take 1 (
                    map encode (
                      started_event server 6 pending server.advertise ∷ report gone (paired phone)))
                  ++ (codes "{" ∷ [])))
              ≡ err e)))
unfolding started_event started_line
cmd_pair-Tells_example =
    Told.cmd_pair-Tells decode encode true (codes "/data/admin.sock") server 6 pending
      server.advertise gone (paired phone) 1 (codes "{" ∷ []) (omega arith) readable
      (broken_line, tt)

-- ===== src/Config/Tests.antt =====
-- Addresses and an environment.
use docker_mobile.Base.{
  ◌≡◌, refl, ◌⊎◌, Bool, false, Option, none, [], ltb, leb, if◌then◌else◌, nat_beq, Text, codes,
  ◌==◌, nat_eq, text_eq, ok, err, cut_prefix, has_prefix, cut, contains_byte,
}
use docker_mobile.State.Names.{trim_left, trim_right, trim_space}
use docker_mobile.State.Tokens.{is_device_token}
use docker_mobile.Config.Address.{
  Library, no_port, check_host, check_port, first_of, count_byte, split_plain, split_parts,
  check_given_port, check_parts, split_address, join_host_port, in_port_range, digits_value,
  is_digit, has_any,
}
use docker_mobile.Config.Address.Split
use docker_mobile.Config.Address.Split.{IsAddress}
use docker_mobile.Config.Advertised.{
  Advertise, Url, has_scheme_mark, reach, with_host, parse_own, read_url, parse_proxy,
  parse_advertise,
}
use docker_mobile.Config.Advertised.Reach
use docker_mobile.Config.Advertised.Reach.{Named}
use docker_mobile.Config.Load.{
  Config, byte_length, one_of, last_cut, with_port, check_token, load_with, check_given_token,
  check_legacy_token, on_off, split_host_port, data_dir, load, bad_token, TokenError,
}
use docker_mobile.Config.Load.Accepted
use docker_mobile.Config.Load.Accepted.{IsLoaded}

-- An IP address is a text with two colons or more, here.
is_ip : Text → Bool
is_ip t = leb 2 (count_byte b':' t)

abbrev lib : Library
lib = record { is_space = λ c. nat_beq c 32; is_control = λ c. ltb c 32; is_ip = is_ip }

one_colon : (t : Text) → count_byte b':' t ≡ 1 → lib.is_ip t ≡ false
unfolding is_ip
one_colon t h = rw h refl

runs : Unit {0}
unfolding check_host check_port first_of count_byte has_any has_scheme_mark reach byte_length one_of
    last_cut with_port check_token load_with split_plain split_parts check_given_port check_parts
    split_address join_host_port in_port_range digits_value is_digit contains_byte cut is_ip
    with_host parse_own read_url parse_proxy parse_advertise check_given_token check_legacy_token
    on_off split_host_port data_dir load trim_left trim_right is_device_token has_prefix cut_prefix
runs = tt

host_passes : check_host lib (codes "fd00::1") ≡ none
unfolding runs
host_passes = refl

port_passes : check_port (codes "8443") ≡ none
unfolding runs
port_passes = refl

no_port_given : split_address lib (codes "docker.example.com:") ≡ err no_port
unfolding runs
no_port_given = refl

split_address-join_host_port_example :
    split_address lib (join_host_port (codes "fd00::1") (codes "8443"))
    ≡ ok (codes "fd00::1", codes "8443")
split_address-join_host_port_example =
    Split.split_address-join_host_port lib (codes "fd00::1") (codes "8443") one_colon host_passes
      port_passes

abbrev own : Advertise
own = record { scheme = []; host = []; port = codes "8443" }

abbrev named : Advertise
named = record { scheme = []; host = codes "nas"; port = codes "8443" }

named_by_hand : with_host lib (codes " nas") own ≡ ok named
unfolding runs
named_by_hand = refl

with_host-Named_example :
    ((trim_space lib.is_space (codes " nas") ≡ []) × (named ≡ own))
    ⊎ Named lib own.scheme own.port (trim_space lib.is_space (codes " nas")) named
with_host-Named_example = Reach.with_host-Named lib (codes " nas") own named named_by_hand

-- `AGENT_TOKEN` alone, or `AGENT_ADVERTISE` alone.
token_set : Text → Text → Text
token_set token name = if name == codes "AGENT_TOKEN" then token else []

advertise_set : Text → Text
advertise_set name = if name == codes "AGENT_ADVERTISE" then codes "nas:9000" else []

no_url : Text → Option Url
no_url t = none

loaded : Config
loaded = record {
  listen_addr = codes ":8443";
  docker_host = codes "unix:///var/run/docker.sock";
  data_dir = codes "/var/lib/docker-mobile-agent";
  advertise = record { scheme = []; host = codes "nas"; port = codes "9000" };
  insecure_http = false;
  legacy_token = [];
  name = [];
}

loads : load lib no_url advertise_set false ≡ ok loaded
unfolding runs advertise_set loaded
loads = refl

short_token :
    load lib no_url (token_set (codes "hunter2")) false ≡ err (bad_token TokenError.too_short)
unfolding runs token_set
short_token = refl

load-IsLoaded_example : IsLoaded lib advertise_set false loaded
load-IsLoaded_example = Accepted.load-IsLoaded lib no_url advertise_set false loaded loads

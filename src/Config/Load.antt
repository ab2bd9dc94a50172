-- ===== src/Config/Load.antt =====
-- agent/internal/config/config.go: the configuration, read from the environment.
pub mod Accepted
use docker_mobile.Base.{
  ℕ, ◌+◌, ◌-◌, ◌/◌, Bool, true, false, ◌&&◌, ◌||◌, not, Option, none, some, List, [], ◌∷◌, map, ltb,
  leb, if◌then◌else◌, nat_beq, Text, codes, ◌==◌, text_eq, Result, ok, err, cut, contains_byte,
}
use docker_mobile.State.Names.{trim_left, trim_right, trim_space}
use docker_mobile.State.Tokens.{is_device_token}
use docker_mobile.Config.Address.{Library, has_any}
use docker_mobile.Config.Advertised.{Advertise, AdvertiseError, Url, parse_advertise}

abbrev pub min_legacy_token : ℕ
min_legacy_token = 16

abbrev pub default_tls_listen : Text
default_tls_listen = codes ":8443"

abbrev pub default_plain_listen : Text
default_plain_listen = codes ":8080"

abbrev pub default_docker_host : Text
default_docker_host = codes "unix:///var/run/docker.sock"

abbrev pub default_data_dir : Text
default_data_dir = codes "/var/lib/docker-mobile-agent"

pub record Config : Type 0 where
  pub listen_addr : Text
  pub docker_host : Text
  pub data_dir : Text
  pub advertise : Advertise
  pub insecure_http : Bool
  pub legacy_token : Text
  pub name : Text

pub data TokenError : Type 0 where
  starts_with_space ends_with_space has_control too_short looks_paired : TokenError

pub data LoadError : Type 0 where
  neither_on_nor_off not_host_port : LoadError
  bad_token : TokenError → LoadError
  bad_advertise : AdvertiseError → LoadError

-- `len` of a string: the bytes of its code points in UTF-8.
utf8_length : ℕ → ℕ
utf8_length c = if ltb c 128 then 1 else if ltb c 2048 then 2 else if ltb c 65536 then 3 else 4

unfoldable pub byte_length : Text → ℕ
unfolding utf8_length
byte_length [] = 0
byte_length (c ∷ s) = utf8_length c + byte_length s

-- The switch of `checkLegacyToken` and what follows it, for a token that is not empty.
unfoldable pub check_given_token : Library → Text → Option TokenError
check_given_token lib token =
    if not (trim_left lib.is_space token == token)
    then some starts_with_space
    else if not (trim_right lib.is_space token == token)
    then some ends_with_space
    else if has_any lib.is_control token
    then some has_control
    else if ltb (byte_length token) min_legacy_token
    then some too_short
    else if is_device_token token
    then some looks_paired
    else none

-- `checkLegacyToken`.
unfoldable pub check_legacy_token : Library → Text → Option TokenError
check_legacy_token lib [] = none
check_legacy_token lib (c ∷ s) = check_given_token lib (c ∷ s)

-- `strings.ToLower`, as far as the words below tell it from others.
lower : ℕ → ℕ
lower c = if leb b'A' c && leb c b'Z' then c + 32 else c

unfoldable pub one_of : List Text → Text → Bool
one_of [] s = false
one_of (t ∷ ts) s = s == t || one_of ts s

abbrev pub off_words : List Text
off_words = [] ∷ codes "0" ∷ codes "false" ∷ codes "no" ∷ codes "off" ∷ []

abbrev pub on_words : List Text
on_words = codes "1" ∷ codes "true" ∷ codes "yes" ∷ codes "on" ∷ []

-- `onOff`.
unfoldable pub on_off : Library → Text → Option Bool
unfolding lower one_of
on_off lib value =
    let word = map lower (trim_space lib.is_space value) in
    if one_of off_words word then some false else if one_of on_words word then some true else none

-- `strings.LastIndexByte`: what stands before the last such byte, and what follows it.
before_or : Option (Text × Text) → ℕ → Bool → Text → Option (Text × Text)
before_or (some (before, after)) c found s = some (c ∷ before, after)
before_or none c true s = some ([], s)
before_or none c false s = none

unfoldable pub last_cut : ℕ → Text → Option (Text × Text)
unfolding before_or
last_cut b [] = none
last_cut b (c ∷ s) = before_or (last_cut b s) c (nat_beq c b) s

in_brackets : Text → Option (Text × Text) → Option (Text × Text)
in_brackets port none = none
in_brackets port (some (host, rest)) =
    if rest == b':' ∷ port
      && not (contains_byte b'[' host || (contains_byte b'[' rest || contains_byte b']' rest))
    then some (host, port)
    else none

split_at_last : Text → Option (Text × Text) → Option (Text × Text)
unfolding in_brackets
split_at_last s none = none
split_at_last [] (some (host, port)) = none
split_at_last (c ∷ s) (some (host, port)) =
    if nat_beq c b'['
    then in_brackets port (cut b']' s)
    else if contains_byte b':' host || (contains_byte b'[' (c ∷ s) || contains_byte b']' (c ∷ s))
    then none
    else some (host, port)

-- `net.SplitHostPort`.
unfoldable pub split_host_port : Text → Option (Text × Text)
unfolding split_at_last last_cut
split_host_port s = split_at_last s (last_cut b':' s)

abbrev pub or_default : Text → Text → Text
or_default default [] = default
or_default default (c ∷ s) = c ∷ s

-- `DataDir`.
unfoldable pub data_dir : (Text → Text) → Text
data_dir getenv = or_default default_data_dir (getenv (codes "AGENT_DATA"))

abbrev pub listen_default : Bool → Text
listen_default true = default_plain_listen
listen_default false = default_tls_listen

advertised : Config → Result AdvertiseError Advertise → Result LoadError Config
advertised cfg (err e) = err (bad_advertise e)
advertised cfg (ok a) = ok (record cfg { advertise = a })

-- From the port of the listen address to the end of `Load`.
unfoldable pub with_port :
    Library
    → (Text → Option Url)
    → (Text → Text)
    → Config
    → Option (Text × Text)
    → Result LoadError Config
unfolding advertised
with_port lib parse_url getenv cfg none = err not_host_port
with_port lib parse_url getenv cfg (some (host, port)) =
    advertised cfg
      (parse_advertise lib parse_url (getenv (codes "AGENT_ADVERTISE")) cfg.insecure_http port)

-- What `Load` has before it checks the token.
abbrev pub settings : Library → (Text → Text) → Bool → Config
settings lib getenv insecure = record {
  listen_addr = or_default (listen_default insecure) (getenv (codes "AGENT_LISTEN"));
  docker_host = or_default default_docker_host (getenv (codes "DOCKER_HOST"));
  data_dir = data_dir getenv;
  advertise = record { scheme = []; host = []; port = [] };
  insecure_http = insecure;
  legacy_token = getenv (codes "AGENT_TOKEN");
  name = trim_space lib.is_space (getenv (codes "AGENT_NAME"));
}

unfoldable pub check_token :
    Library
    → (Text → Option Url)
    → (Text → Text)
    → Config
    → Option TokenError
    → Result LoadError Config
check_token lib parse_url getenv cfg (some e) = err (bad_token e)
check_token lib parse_url getenv cfg none =
    with_port lib parse_url getenv cfg (split_host_port cfg.listen_addr)

unfoldable pub load_with :
    Library → (Text → Option Url) → (Text → Text) → Bool → Option Bool → Result LoadError Config
load_with lib parse_url getenv flag none = err neither_on_nor_off
load_with lib parse_url getenv flag (some on) =
    let cfg = settings lib getenv (flag || on) in
    check_token lib parse_url getenv cfg (check_legacy_token lib cfg.legacy_token)

-- `Load`.
unfoldable pub load : Library → (Text → Option Url) → (Text → Text) → Bool → Result LoadError Config
load lib parse_url getenv flag =
    load_with lib parse_url getenv flag (on_off lib (getenv (codes "AGENT_INSECURE_HTTP")))

-- ===== src/Config/Advertised.antt =====
-- agent/internal/config/advertise.go: where phones reach the agent.
pub mod Reach
use docker_mobile.Base.{
  ◌/◌, Bool, false, ◌&&◌, ◌||◌, not, Option, none, some, [], ◌∷◌, if◌then◌else◌, Text, codes, ◌==◌,
  text_eq, Result, ok, err, has_prefix, contains_byte,
}
use docker_mobile.State.Names.{trim_space}
use docker_mobile.Config.Address.{Library, AddressError, has_any, split_address}

pub record Advertise : Type 0 where
  pub scheme : Text
  pub host : Text
  pub port : Text

-- What `url.Parse` gives.
pub record Url : Type 0 where
  pub scheme : Text
  pub host : Text
  pub has_user : Bool
  pub raw_query : Text
  pub force_query : Bool
  pub fragment : Text
  pub path : Text

pub data AdvertiseError : Type 0 where
  has_scheme white_space not_a_proxy_url bad_url carries_user carries_query carries_fragment
        carries_path :
      AdvertiseError
  refused : AddressError → AdvertiseError

-- `strings.Contains(value, "://")`.
unfoldable pub has_scheme_mark : Text → Bool
has_scheme_mark [] = false
has_scheme_mark (c ∷ s) = has_prefix (codes "://") (c ∷ s) || has_scheme_mark s

port_or : Text → Text → Text
port_or default [] = default
port_or default (c ∷ s) = c ∷ s

-- A split address with its default port.
unfoldable pub reach :
    Text → Text → Result AddressError (Text × Text) → Result AdvertiseError Advertise
unfolding port_or
reach scheme default (err e) = err (refused e)
reach scheme default (ok (host, port)) =
    ok (record { scheme = scheme; host = host; port = port_or default port })

-- `WithHost`.
unfoldable pub with_host : Library → Text → Advertise → Result AdvertiseError Advertise
with_host lib host_port a =
    let value = trim_space lib.is_space host_port in
    if value == []
    then ok a
    else if has_scheme_mark value
    then err has_scheme
    else reach a.scheme a.port (split_address lib value)

-- `ParseAdvertise` where the agent serves TLS.
unfoldable pub parse_own : Library → Text → Text → Result AdvertiseError Advertise
parse_own lib value listen_port =
    if value == []
    then ok (record { scheme = []; host = []; port = listen_port })
    else if has_scheme_mark value
    then err has_scheme
    else reach [] listen_port (split_address lib value)

-- What is wrong with the URL of a proxy.
pub wrong_with : Text → Url → Option AdvertiseError
wrong_with value u =
    if u.has_user
    then some carries_user
    else if not (u.raw_query == []) || u.force_query
    then some carries_query
    else if not (u.fragment == []) || contains_byte b'#' value
    then some carries_fragment
    else if not (u.path == []) && not (u.path == codes "/")
    then some carries_path
    else none

-- The port of a URL that names none.
abbrev pub default_port : Text → Text
default_port scheme = if scheme == codes "http" then codes "80" else codes "443"

unfoldable pub read_url : Library → Text → Option Url → Result AdvertiseError Advertise
read_url lib value none = err bad_url
read_url lib value (some u) =
    if (not (u.scheme == codes "https") && not (u.scheme == codes "http")) || u.host == []
    then err not_a_proxy_url
    else elim (wrong_with value u) [
      | some e ↦ err e
      | none ↦ reach u.scheme (default_port u.scheme) (split_address lib u.host)
    ]

-- `ParseAdvertise` behind a proxy.
unfoldable pub parse_proxy :
    Library → (Text → Option Url) → Text → Text → Result AdvertiseError Advertise
parse_proxy lib parse_url value listen_port =
    if value == []
    then ok (record { scheme = codes "http"; host = []; port = listen_port })
    else if has_any lib.is_space value
    then err white_space
    else if not (has_scheme_mark value)
    then err not_a_proxy_url
    else read_url lib value (parse_url value)

-- `ParseAdvertise`.
unfoldable pub parse_advertise :
    Library → (Text → Option Url) → Text → Bool → Text → Result AdvertiseError Advertise
parse_advertise lib parse_url text insecure listen_port =
    let value = trim_space lib.is_space text in
    if insecure
    then parse_proxy lib parse_url value listen_port
    else parse_own lib value listen_port

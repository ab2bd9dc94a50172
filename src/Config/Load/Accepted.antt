-- ===== src/Config/Load/Accepted.antt =====
-- What a configuration that is loaded is like.
use docker_mobile.Base.{
  ◌≤◌, ◌≡◌, refl, sym, subst, ◌⊎◌, inl, inr, Bool, true, false, ◌||◌, not, Option, none, some, [],
  ◌∷◌, arith, ltb, if◌then◌else◌, Text, codes, ◌==◌, nat_eq, text_eq, Result, ok, err, split,
  none≢some, err≢ok, ok-inv,
}
use docker_mobile.State.Names.{trim_space}
use docker_mobile.State.Tokens.{is_device_token}
use docker_mobile.Config.Address.{Library, has_any}
use docker_mobile.Config.Advertised.{Advertise, AdvertiseError, Url}
use docker_mobile.Config.Advertised.Reach.{IsAdvertised, parse_advertise-IsAdvertised}
use docker_mobile.Config.Load.{
  Config, TokenError, min_legacy_token, byte_length, check_given_token, check_legacy_token, on_off,
  split_host_port, advertised, with_port, settings, check_token, load_with, load,
}

-- A shared token that a phone can send, that is long enough, and that is not taken for the token of a
-- paired device.
pub record IsToken (lib : Library) (token : Text) : Type 0 where
  pub long : min_legacy_token ≤ byte_length token
  pub plain : has_any lib.is_control token ≡ false
  pub not_paired : is_device_token token ≡ false

pub record IsLoaded (lib : Library) (getenv : Text → Text) (flag : Bool) (cfg : Config)
    : Type 0 where
  pub insecure :
      (on : Bool) × (on_off lib (getenv (codes "AGENT_INSECURE_HTTP")) ≡ some on)
      × (cfg.insecure_http ≡ (flag || on))
  pub token : (cfg.legacy_token ≡ []) ⊎ IsToken lib cfg.legacy_token
  pub reach :
      (host : Text) × (port : Text) × (split_host_port cfg.listen_addr ≡ some (host, port))
      × IsAdvertised lib cfg.insecure_http port
          (trim_space lib.is_space (getenv (codes "AGENT_ADVERTISE")))
          cfg.advertise

check_given_token-none : (lib : Library) (t : Text) → check_given_token lib t ≡ none → IsToken lib t
unfolding check_given_token
check_given_token-none lib t =
    go (not (_ == t)) (not (_ == t)) (has_any lib.is_control t)
      (ltb (byte_length t) min_legacy_token) (is_device_token t) refl refl refl
  where
    go :
        (a b c d e : Bool)
        → c ≡ has_any lib.is_control t
        → d ≡ ltb (byte_length t) min_legacy_token
        → e ≡ is_device_token t
        → Path
            (Option TokenError)
            (if a
              then some TokenError.starts_with_space
              else if b
              then some TokenError.ends_with_space
              else if c
              then some TokenError.has_control
              else if d
              then some TokenError.too_short
              else if e
              then some TokenError.looks_paired
              else none)
            none
        → IsToken lib t
    go true b c d e p q r h = absurd (none≢some _ (sym h))
    go false true c d e p q r h = absurd (none≢some _ (sym h))
    go false false true d e p q r h = absurd (none≢some _ (sym h))
    go false false false true e p q r h = absurd (none≢some _ (sym h))
    go false false false false true p q r h = absurd (none≢some _ (sym h))
    go false false false false false p q r h = record {
      long = ground (q, arith);
      plain = sym p;
      not_paired = sym r;
    }

check_legacy_token-none :
    (lib : Library) (t : Text) → check_legacy_token lib t ≡ none → (t ≡ []) ⊎ IsToken lib t
unfolding check_legacy_token
check_legacy_token-none lib [] h = inl refl
check_legacy_token-none lib (c ∷ s) h = inr (check_given_token-none lib (c ∷ s) h)

advertised-ok :
    (cfg : Config) (r : Result AdvertiseError Advertise) (c : Config)
    → advertised cfg r ≡ ok c
    → (a : Advertise) × (r ≡ ok a) × (record cfg { advertise = a } ≡ c)
unfolding advertised
advertised-ok cfg (err e) c h = absurd (err≢ok _ c h)
advertised-ok cfg (ok a) c h = (a, refl, ok-inv _ c h)

with_port-ok :
    (lib : Library) (parse_url : Text → Option Url) (getenv : Text → Text) (cfg : Config)
    (x : Option (Text × Text)) (c : Config)
    → with_port lib parse_url getenv cfg x ≡ ok c
    → (host : Text) × (port : Text) × (a : Advertise) × (x ≡ some (host, port))
      × (record cfg { advertise = a } ≡ c)
      × IsAdvertised lib cfg.insecure_http port
          (trim_space lib.is_space (getenv (codes "AGENT_ADVERTISE")))
          a
unfolding with_port
with_port-ok lib parse_url getenv cfg none c h = absurd (err≢ok _ c h)
with_port-ok lib parse_url getenv cfg (some (host, port)) c h =
    let (a, parsed, same) = advertised-ok cfg _ c h in
    let reach =
      parse_advertise-IsAdvertised lib parse_url (getenv (codes "AGENT_ADVERTISE"))
        cfg.insecure_http port a parsed in
    (host, port, a, refl, same, reach)

check_token-ok :
    (lib : Library) (parse_url : Text → Option Url) (getenv : Text → Text) (cfg : Config)
    (e : Option TokenError) (c : Config)
    → check_token lib parse_url getenv cfg e ≡ ok c
    → (e ≡ none) × (with_port lib parse_url getenv cfg (split_host_port cfg.listen_addr) ≡ ok c)
unfolding check_token
check_token-ok lib parse_url getenv cfg (some e) c h = absurd (err≢ok _ c h)
check_token-ok lib parse_url getenv cfg none c h = (refl, h)

load_with-IsLoaded :
    (lib : Library) (parse_url : Text → Option Url) (getenv : Text → Text) (flag : Bool)
    (x : Option Bool) (c : Config)
    → on_off lib (getenv (codes "AGENT_INSECURE_HTTP")) ≡ x
    → load_with lib parse_url getenv flag x ≡ ok c
    → IsLoaded lib getenv flag c
unfolding load_with
load_with-IsLoaded lib parse_url getenv flag none c q h = absurd (err≢ok _ c h)
load_with-IsLoaded lib parse_url getenv flag (some on) c q h =
    let cfg = settings lib getenv (flag || on) in
    let (fine, rest) = check_token-ok lib parse_url getenv cfg _ c h in
    let (host, port, a, split, same, reach) = with_port-ok lib parse_url getenv cfg _ c rest in
    subst (IsLoaded lib getenv flag) same (record {
      insecure = (on, q, refl);
      token = check_legacy_token-none lib cfg.legacy_token fine;
      reach = (host, port, split, reach);
    })

-- A configuration that `Load` takes serves plain HTTP exactly if the flag or the environment says so;
-- its shared token is empty, or a token of at least 16 bytes without control characters that does
-- not look like that of a paired device; its listen address is host:port. Where AGENT_ADVERTISE is empty,
-- but for white space, phones are sent to no host in particular and to that port; otherwise to a host
-- that is not empty, has no white space, none of `/?#@[]` and a colon only in an IP address, and to a port
-- from 1 to 65535, or where the agent serves TLS itself perhaps to the port that it listens on.
pub load-IsLoaded :
    (lib : Library) (parse_url : Text → Option Url) (getenv : Text → Text) (flag : Bool)
    (c : Config)
    → load lib parse_url getenv flag ≡ ok c
    → IsLoaded lib getenv flag c
unfolding load
load-IsLoaded lib parse_url getenv flag c h =
    load_with-IsLoaded lib parse_url getenv flag _ c refl h

-- ===== src/Config/Advertised/Reach.antt =====
-- What an address that the agent takes is like.
use docker_mobile.Base.{
  ◌≡◌, refl, subst, ◌⊎◌, inl, inr, Bool, true, false, ◌&&◌, ◌||◌, not, Option, none, some, [], ◌∷◌,
  arith, Text, codes, ◌==◌, nat_eq, text_eq, ==_iff, Result, ok, err, Result-cases, err≢ok, ◌≢◌,
  sym, ne_of_==, ok-inv, split_if,
}
use docker_mobile.State.Names.{trim_space}
use docker_mobile.Config.Address.{
  Library, check_port, split_address, has_any, in_port_range, is_digit, digits_value,
}
use docker_mobile.Config.Address.Split.{split_address-IsAddress}
use docker_mobile.Config.Address.Hosts.{IsHost, IsPort, check_host-IsHost, check_port-IsPort}
use docker_mobile.Config.Advertised.{
  Advertise, Url, AdvertiseError, port_or, reach, with_host, parse_own, wrong_with, default_port,
  read_url, parse_proxy, parse_advertise, has_scheme_mark,
}

-- A result with an address has one of a kind.
abbrev Gives : (Advertise → Type 0) → Result AdvertiseError Advertise → Type 0
Gives P r = (a : Advertise) → r ≡ ok a → P a

refusal-Gives : (P : Advertise → Type 0) (e : AdvertiseError) → Gives P (err e)
refusal-Gives P e a h = absurd (err≢ok e a h)

-- What is made of a text with a scheme and a port: the text splits into the host and perhaps a port,
-- and the other port stands for a missing one.
pub record Named (lib : Library) (scheme default value : Text) (a : Advertise) : Type 0 where
  pub scheme_kept : a.scheme ≡ scheme
  pub port_given : Text
  pub split : split_address lib value ≡ ok (a.host, port_given)
  pub host : IsHost lib a.host
  pub port : ((port_given ≡ []) × (a.port ≡ default)) ⊎ ((port_given ≡ a.port) × IsPort a.port)

port_or-given :
    (d p : Text)
    → (p ≡ []) ⊎ (check_port p ≡ none)
    → ((p ≡ []) × (port_or d p ≡ d)) ⊎ ((p ≡ port_or d p) × IsPort (port_or d p))
unfolding port_or
port_or-given d [] h = inl (refl, refl)
port_or-given d (c ∷ s) (inl e) = absurd (ground (e, arith))
port_or-given d (c ∷ s) (inr v) = inr (refl, check_port-IsPort (c ∷ s) v)

reach-Gives :
    (lib : Library) (scheme default value : Text)
    → Gives (Named lib scheme default value) (reach scheme default (split_address lib value))
unfolding reach
reach-Gives lib scheme default value a h = elim (Result-cases (split_address lib value)) [
  | inl (e, q) ↦ absurd (err≢ok _ a (rw q at h))
  | inr ((host, port), q) ↦
      let v = split_address-IsAddress lib value (host, port) q in
      subst (Named lib scheme default value) (ok-inv _ a (rw q at h)) (record {
        scheme_kept = refl;
        port_given = port;
        split = q;
        host = check_host-IsHost lib host v.host;
        port = port_or-given default port v.port;
      })
]

-- Behind a proxy the scheme is one of HTTP's; the agent's own TLS has none.
abbrev pub SchemeFor : Bool → Text → Type 0
SchemeFor true s = (s ≡ codes "https") ⊎ (s ≡ codes "http")
SchemeFor false s = s ≡ []

-- Behind a proxy the port is a number; otherwise the port that is listened on may stand for it.
abbrev pub PortFor : Bool → Text → Text → Type 0
PortFor true listen_port p = IsPort p
PortFor false listen_port p = (p ≡ listen_port) ⊎ IsPort p

-- Where phones are sent: without a value, to no host in particular and the port that is listened on;
-- otherwise to a host that can stand in a URL.
pub record IsAdvertised (lib : Library) (insecure : Bool) (listen_port value : Text) (a : Advertise)
    : Type 0 where
  pub scheme : SchemeFor insecure a.scheme
  pub place :
      ((value ≡ []) × ((a.host ≡ []) × (a.port ≡ listen_port)))
      ⊎ ((value ≢ []) × (IsHost lib a.host × PortFor insecure listen_port a.port))

not-false : (b : Bool) → not b ≡ false → b ≡ true
not-false b h = ground (h, arith)

||-none : (a b : Bool) → (a || b) ≡ false → (a ≡ false) × (b ≡ false)
||-none a b h = ground (h, arith)

&&-none : (a b : Bool) → (a && b) ≡ false → (a ≡ false) ⊎ (b ≡ false)
&&-none a b h = ground (h, arith)

url_scheme :
    (s : Text) → (not (s == codes "https") && not (s == codes "http")) ≡ false → SchemeFor true s
url_scheme s h = elim (&&-none (not (s == codes "https")) _ h) [
  | inl y ↦ inl ((==_iff s (codes "https")).0 (not-false _ y))
  | inr y ↦ inr ((==_iff s (codes "http")).0 (not-false _ y))
]

default_port-IsPort : (s : Text) → IsPort (default_port s)
unfolding check_port in_port_range digits_value is_digit
default_port-IsPort s =
    split_if IsPort (s == codes "http") (codes "80") (codes "443")
      (λ _. check_port-IsPort (codes "80") refl) (λ _. check_port-IsPort (codes "443") refl)

-- The port of a name, where a number stands for a missing one.
Named-IsPort :
    (lib : Library) (scheme default value : Text) (a : Advertise)
    → IsPort default
    → Named lib scheme default value a
    → IsPort a.port
Named-IsPort lib scheme default value a d n = elim n.port [
  | inl e ↦ subst IsPort (sym e.1) d
  | inr e ↦ e.1
]

-- A refusal, or the address of a proxy.
read_url-Gives :
    (lib : Library) (p value : Text) (u : Option Url)
    → value ≢ []
    → Gives (IsAdvertised lib true p value) (read_url lib value u)
unfolding read_url
read_url-Gives lib p value none ne = refusal-Gives (IsAdvertised lib true p value) _
read_url-Gives lib p value (some u) ne =
    split_if (Gives (IsAdvertised lib true p value))
      ((not (u.scheme == codes "https") && not (u.scheme == codes "http")) || u.host == []) _ _
      (λ _. refusal-Gives (IsAdvertised lib true p value) _)
      (λ y. unless (wrong_with value u) (
        url_scheme u.scheme
          ((||-none (not (u.scheme == codes "https") && not (u.scheme == codes "http")) _ y).0)))
  where
    unless :
        (w : Option AdvertiseError)
        → SchemeFor true u.scheme
        → Gives (IsAdvertised lib true p value) (elim w [
          | some e ↦ err e
          | none ↦ reach u.scheme (default_port u.scheme) (split_address lib u.host)
        ])
    unless (some e) s a h = refusal-Gives (IsAdvertised lib true p value) e a h
    unless none s a h =
        let n = reach-Gives lib u.scheme (default_port u.scheme) u.host a h in
        record {
          scheme = subst (SchemeFor true) (sym n.scheme_kept) s;
          place = inr (
            ne,
            (
              n.host,
              Named-IsPort lib u.scheme (default_port u.scheme) u.host a
                  (default_port-IsPort u.scheme) n,
            ),
          );
        }

plain-IsAdvertised :
    (lib : Library) (insecure : Bool) (p value scheme : Text)
    → value ≡ []
    → SchemeFor insecure scheme
    → Gives
        (IsAdvertised lib insecure p value)
        (ok (record { scheme = scheme; host = []; port = p }))
plain-IsAdvertised lib insecure p value scheme e s a h =
    subst (IsAdvertised lib insecure p value) (ok-inv _ a h)
      (record { scheme = s; place = inl (e, (refl, refl)) })

parse_proxy-Gives :
    (lib : Library) (parse_url : Text → Option Url) (value p : Text)
    → Gives (IsAdvertised lib true p value) (parse_proxy lib parse_url value p)
unfolding parse_proxy
parse_proxy-Gives lib parse_url value p =
    let Fine = Gives (IsAdvertised lib true p value) in
    split_if Fine (value == []) _ _
      (λ e. plain-IsAdvertised lib true p value (codes "http") ((==_iff value []).0 e) (inr refl))
      (λ e.
        split_if Fine (has_any lib.is_space value) _ _
          (λ _. refusal-Gives (IsAdvertised lib true p value) _)
          (λ _.
            split_if Fine (not (has_scheme_mark value)) _ _
              (λ _. refusal-Gives (IsAdvertised lib true p value) _)
              (λ _. read_url-Gives lib p value (parse_url value) (ne_of_== value [] e))))

parse_own-Gives :
    (lib : Library) (value p : Text)
    → Gives (IsAdvertised lib false p value) (parse_own lib value p)
unfolding parse_own
parse_own-Gives lib value p =
    let Fine = Gives (IsAdvertised lib false p value) in
    split_if Fine (value == []) _ _
      (λ e. plain-IsAdvertised lib false p value [] ((==_iff value []).0 e) refl)
      (λ e.
        split_if Fine (has_scheme_mark value) _ _
          (λ _. refusal-Gives (IsAdvertised lib false p value) _) (λ _. own (ne_of_== value [] e)))
  where
    own : value ≢ [] → Gives (IsAdvertised lib false p value) (reach [] p (split_address lib value))
    own ne a h =
        let n = reach-Gives lib [] p value a h in
        record {
          scheme = n.scheme_kept;
          place = inr (ne, (n.host, elim n.port [ inl e ↦ inl e.1 | inr e ↦ inr e.1 ]));
        }

-- What `ParseAdvertise` takes of a text, without the white space around it: of the empty text, an
-- address without a host and with the port that is listened on; of any other, a host that is not empty,
-- has no white space, none of `/?#@[]` and a colon only in an IP address, and a port from 1 to 65535, or
-- where the agent serves TLS itself perhaps the one that is listened on. The scheme is http or https
-- behind a proxy, and empty where the agent serves TLS itself.
pub parse_advertise-IsAdvertised :
    (lib : Library) (parse_url : Text → Option Url) (text : Text) (insecure : Bool)
    (listen_port : Text) (a : Advertise)
    → parse_advertise lib parse_url text insecure listen_port ≡ ok a
    → IsAdvertised lib insecure listen_port (trim_space lib.is_space text) a
unfolding parse_advertise
parse_advertise-IsAdvertised lib parse_url text true p a h =
    parse_proxy-Gives lib parse_url (trim_space lib.is_space text) p a h
parse_advertise-IsAdvertised lib parse_url text false p a h =
    parse_own-Gives lib (trim_space lib.is_space text) p a h

-- An address that `WithHost` takes from the command line, without the white space around it: the
-- advertised one, unchanged, for the empty text; otherwise the text splits into the new host, which is
-- not empty, has no white space, none of `/?#@[]` and a colon only in an IP address, and a port, which is
-- from 1 to 65535, or the advertised one where the text has none; and the scheme stays.
pub with_host-Named :
    (lib : Library) (text : Text) (a b : Advertise)
    → with_host lib text a ≡ ok b
    → ((trim_space lib.is_space text ≡ []) × (b ≡ a))
      ⊎ Named lib a.scheme a.port (trim_space lib.is_space text) b
unfolding with_host
with_host-Named lib text a b =
    let value = trim_space lib.is_space text in
    let Fine = λ (x : Result AdvertiseError Advertise).
      x ≡ ok b → ((value ≡ []) × (b ≡ a)) ⊎ Named lib a.scheme a.port value b in
    split_if Fine (value == []) _ _ (λ e h. inl ((==_iff value []).0 e, sym (ok-inv a b h)))
      (λ _.
        split_if Fine (has_scheme_mark value) _ _ (λ _ h. absurd (err≢ok _ b h))
          (λ _ h. inr (reach-Gives lib a.scheme a.port value b h)))

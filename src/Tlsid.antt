-- ===== src/Tlsid.antt =====
-- agent/internal/tlsid/tlsid.go: the agent's key and certificate in the state folder. crypto/x509,
-- encoding/pem and crypto/tls are parameters, and so is what the random source gives.
pub mod Pinned
mod Tests
use docker_mobile.Base.{
  ℕ, ◌+◌, ◌-◌, ◌*◌, Bool, Option, none, some, ltb, if◌then◌else◌, Text, codes, ◌==◌, text_eq,
  lookup, Result, ok, err,
}
use docker_mobile.State.Dir.{Folder, Faults, write_file}

abbrev pub key_file : Text
key_file = codes "tls.key"

abbrev pub cert_file : Text
cert_file = codes "tls.crt"

abbrev pub second : ℕ
second = 1000000000

abbrev pub day : ℕ
day = 24 * 60 * 60 * second

-- `validity` and `renewBefore`.
abbrev pub validity : ℕ
validity = 10 * 365 * day

abbrev pub renew_before : ℕ
renew_before = 30 * day

abbrev pub key_type : Text
key_type = codes "EC PRIVATE KEY"

abbrev pub cert_type : Text
cert_type = codes "CERTIFICATE"

-- What is read of a certificate: the end of its validity and its public key, encoded.
pub record Leaf : Type 0 where
  pub not_after : ℕ
  pub public_key : Text

pub record Library (Key : Type 0) : Type 0 where
  pub marshal_key : Key → Option Text
  pub parse_ec_key : Text → Option Key
  -- The type and the bytes of a block, encoded and decoded.
  pub encode_pem : Text → Text → Text
  pub decode_pem : Text → Option (Text × Text)
  -- A certificate for the key from an hour before to the end of its validity.
  pub create_cert : Key → ℕ → ℕ → Option Text
  pub parse_cert : Text → Option Leaf
  -- `tls.X509KeyPair`: the encoded certificate, where it belongs to the key.
  pub key_pair : Text → Text → Option Text
  pub public_key : Key → Text
  pub sha256 : Text → Text

pub data TlsError : Type 0 where
  generate_key encode_key read_key read_cert not_a_key create_failed parse_new_failed : TlsError
  cert_of_other_key bad_cert : TlsError
  write_failed : Text → TlsError

pub record Certificate (Key : Type 0) : Type 0 where
  pub der : Text
  pub key : Key
  pub leaf : Leaf

-- How a file is read: it is not there, it cannot be read, or it has contents.
pub data Read : Type 0 where
  missing unreadable : Read
  contents : Text → Read

-- `Dir.ReadFile`, which fails otherwise where `fault` says so.
unfoldable pub read_file : Bool → Text → Folder → Read
read_file fault name d =
    if fault then unreadable else elim (lookup name d) [ none ↦ missing | some t ↦ contents t ]

-- The type of a decoded block decides.
of_type : {A : Type 0} → Text → (Text → Option A) → Option (Text × Text) → Option A
of_type kind parse none = none
of_type kind parse (some (k, bytes)) = if k == kind then parse bytes else none

-- `parseKey`.
unfoldable pub parse_key : {Key : Type 0} → Library Key → Text → Option Key
unfolding of_type
parse_key lib pem = of_type key_type lib.parse_ec_key (lib.decode_pem pem)

-- What happens outside one `LoadOrCreate`: the time, the key that would be generated, and how
-- reading and writing the two files goes.
pub record Outside (Key : Type 0) : Type 0 where
  pub now : ℕ
  pub generated : Option Key
  pub key_fault : Bool
  pub cert_fault : Bool
  pub os_key : Faults
  pub os_cert : Faults

-- What `LoadOrCreate` leaves in the folder and returns.
abbrev pub Loaded : Type 0 → Type 0
Loaded Key = Folder × Result TlsError (Certificate Key)

certificate :
    {Key : Type 0} → Text → Key → TlsError → Option Leaf → Result TlsError (Certificate Key)
certificate der key e none = err e
certificate der key e (some leaf) = ok (record { der = der; key = key; leaf = leaf })

-- After the write of the certificate.
stored_cert : {Key : Type 0} → Library Key → Key → Text → Folder × Option Text → Loaded Key
unfolding certificate
stored_cert lib key der (d, some e) = (d, err (write_failed e))
stored_cert lib key der (d, none) = (d, certificate der key parse_new_failed (lib.parse_cert der))

-- A certificate that was created is stored.
unfoldable pub store_cert :
    {Key : Type 0} → Library Key → Outside Key → Key → Folder → Option Text → Loaded Key
unfolding stored_cert
store_cert lib o key d none = (d, err create_failed)
store_cert lib o key d (some der) =
    stored_cert lib key der (write_file o.os_cert cert_file (lib.encode_pem cert_type der) d)

-- `issue`.
unfoldable pub issue : {Key : Type 0} → Library Key → Outside Key → Key → Folder → Loaded Key
issue lib o key d = store_cert lib o key d (lib.create_cert key o.now (o.now + validity))

-- After the write of a new key.
stored_key : {Key : Type 0} → Library Key → Outside Key → Key → Folder × Option Text → Loaded Key
stored_key lib o key (d, some e) = (d, err (write_failed e))
stored_key lib o key (d, none) = issue lib o key d

store_key : {Key : Type 0} → Library Key → Outside Key → Key → Folder → Option Text → Loaded Key
unfolding stored_key
store_key lib o key d none = (d, err encode_key)
store_key lib o key d (some der) =
    stored_key lib o key (write_file o.os_key key_file (lib.encode_pem key_type der) d)

-- Where neither file is there.
unfoldable pub create :
    {Key : Type 0} → Library Key → Outside Key → Folder → Option Key → Loaded Key
unfolding store_key
create lib o d none = (d, err generate_key)
create lib o d (some key) = store_key lib o key d (lib.marshal_key key)

-- The certificate that is there is used, or a new one issued when it ends soon.
unfoldable pub use_or_renew :
    {Key : Type 0} → Library Key → Outside Key → Key → Text → Folder → Option Leaf → Loaded Key
use_or_renew lib o key der d none = (d, err bad_cert)
use_or_renew lib o key der d (some leaf) =
    if ltb leaf.not_after (o.now + renew_before)
    then issue lib o key d
    else (d, ok (record { der = der; key = key; leaf = leaf }))

paired_cert : {Key : Type 0} → Library Key → Outside Key → Key → Folder → Option Text → Loaded Key
paired_cert lib o key d none = (d, err cert_of_other_key)
paired_cert lib o key d (some der) = use_or_renew lib o key der d (lib.parse_cert der)

-- From the key that was read.
unfoldable pub with_key :
    {Key : Type 0} → Library Key → Outside Key → Text → Read → Folder → Option Key → Loaded Key
unfolding paired_cert
with_key lib o pem cert d none = (d, err not_a_key)
with_key lib o pem missing d (some key) = issue lib o key d
with_key lib o pem unreadable d (some key) = (d, err read_cert)
with_key lib o pem (contents c) d (some key) = paired_cert lib o key d (lib.key_pair c pem)

unfoldable pub load_from :
    {Key : Type 0} → Library Key → Outside Key → Folder → Read → Read → Loaded Key
load_from lib o d missing missing = create lib o d o.generated
load_from lib o d missing unreadable = (d, err read_key)
load_from lib o d missing (contents c) = (d, err read_key)
load_from lib o d unreadable cert = (d, err read_key)
load_from lib o d (contents pem) cert = with_key lib o pem cert d (parse_key lib pem)

-- `LoadOrCreate`.
unfoldable pub load_or_create : {Key : Type 0} → Library Key → Outside Key → Folder → Loaded Key
load_or_create lib o d =
    load_from lib o d (read_file o.key_fault key_file d) (read_file o.cert_fault cert_file d)

hashed : (Text → Text) → Option Leaf → Option Text
hashed sha256 none = none
hashed sha256 (some leaf) = some (sha256 leaf.public_key)

-- `FingerprintOfDER`: the pin that phones keep.
unfoldable pub fingerprint_of_der : {Key : Type 0} → Library Key → Text → Option Text
unfolding hashed
fingerprint_of_der lib der = hashed lib.sha256 (lib.parse_cert der)

-- `FingerprintOf`, of a certificate that is there.
unfoldable pub fingerprint_of : {Key : Type 0} → Library Key → Certificate Key → Option Text
fingerprint_of lib c = fingerprint_of_der lib c.der

-- `ReadFingerprint`.
unfoldable pub read_fingerprint : {Key : Type 0} → Library Key → Read → Option Text
unfolding of_type
read_fingerprint lib missing = none
read_fingerprint lib unreadable = none
read_fingerprint lib (contents pem) =
    of_type cert_type (fingerprint_of_der lib) (lib.decode_pem pem)

-- ===== src/Pairing/Proof.antt =====
-- agent/internal/pairing/code.go: the proofs of the two sides, and the pairing link. PBKDF2 and
-- HMAC-SHA256 are parameters.
pub mod Message
use docker_mobile.Base.{
  ℕ, ◌+◌, ◌-◌, ◌/◌, ◌%◌, Bool, ◌&&◌, ◌||◌, List, [], ◌∷◌, ◌++◌, ltb, leb, if◌then◌else◌, nat_beq,
  Text, codes, length,
}

pub record Crypto : Type 0 where
  -- `pbkdf2.Key`: the password, the salt, the rounds.
  pub pbkdf2 : Text → Text → ℕ → Text
  -- HMAC-SHA256: the key and the message.
  pub hmac : Text → Text → Text

abbrev pub proof_context : Text
proof_context = codes "docker-mobile pair v1"

abbrev pub stretch_rounds : ℕ
stretch_rounds = 100000

abbrev pub nonce_len : ℕ
nonce_len = 32

pub data Side : Type 0 where
  phone agent : Side

abbrev pub label : Side → Text
label phone = codes "phone"
label agent = codes "agent"

-- The salt of `proofKey`.
abbrev pub salt : Text → Text
salt phone_nonce = proof_context ++ 0 ∷ phone_nonce

unfoldable pub proof_key : Crypto → Text → Text → Text
proof_key c code phone_nonce = c.pbkdf2 code (salt phone_nonce) stretch_rounds

abbrev pub concat : List Text → Text
concat [] = []
concat (t ∷ ts) = t ++ concat ts

-- What the MAC is written, piece by piece. `byte(len(fingerprint))` keeps eight bits.
unfoldable pub message : Side → Text → List Text → Text
message who fingerprint nonces =
    proof_context
    ++ (0 ∷ (label who ++ (0 ∷ (length fingerprint % 256) ∷ (fingerprint ++ concat nonces))))

-- `proof`: the first nonce is the phone's.
unfoldable pub proof : Crypto → Text → Side → Text → Text → List Text → Text
proof c code who fingerprint first more =
    c.hmac (proof_key c code first) (message who fingerprint (first ∷ more))

unfoldable pub phone_proof : Crypto → Text → Text → Text → Text
phone_proof c code fingerprint phone_nonce = proof c code phone fingerprint phone_nonce []

unfoldable pub agent_proof : Crypto → Text → Text → Text → Text → Text
agent_proof c code fingerprint phone_nonce agent_nonce =
    proof c code agent fingerprint phone_nonce (agent_nonce ∷ [])

pub record LinkParams : Type 0 where
  pub host : Text
  pub port : Text
  pub fingerprint : Text
  pub scheme : Text
  pub code : Text
  pub name : Text

-- `url.QueryEscape`.
unreserved : ℕ → Bool
unreserved c =
    (leb b'a' c && leb c b'z')
    || ((leb b'A' c && leb c b'Z')
        || ((leb b'0' c && leb c b'9')
            || (nat_beq c b'-' || (nat_beq c b'_' || (nat_beq c b'.' || nat_beq c b'~')))))

abbrev upper_hex : ℕ → ℕ
upper_hex d = if ltb d 10 then b'0' + d else b'A' + (d - 10)

escape_byte : ℕ → Text
escape_byte c =
    if unreserved c
    then c ∷ []
    else if nat_beq c b' '
    then b'+' ∷ []
    else b'%' ∷ upper_hex (c / 16) ∷ upper_hex (c % 16) ∷ []

pub query_escape : Text → Text
unfolding escape_byte unreserved
query_escape [] = []
query_escape (c ∷ s) = escape_byte c ++ query_escape s

-- `q.Set` where the value is not empty.
set_param : Text → Text → List (Text × Text) → List (Text × Text)
set_param key [] q = q
set_param key (c ∷ v) q = (key, c ∷ v) ∷ q

pub encode_param : Text × Text → Text
encode_param (key, value) = query_escape key ++ b'=' ∷ query_escape value

-- `q.Encode`, of parameters in the order of their keys.
pub encode_params : List (Text × Text) → Text
unfolding encode_param
encode_params [] = []
encode_params (p ∷ []) = encode_param p
encode_params (p ∷ r ∷ q) = encode_param p ++ b'&' ∷ encode_params (r ∷ q)

-- The parameters of a link, in the order of their keys.
pub link_params : LinkParams → List (Text × Text)
unfolding set_param
link_params p =
    (codes "c", p.code)
    ∷ set_param (codes "f") p.fingerprint (
        set_param (codes "h") p.host (
          set_param (codes "n") p.name (
            set_param (codes "p") p.port
              (set_param (codes "s") p.scheme ((codes "v", codes "1") ∷ [])))))

unfoldable pub link : LinkParams → Text
unfolding encode_params link_params query_escape
link p = codes "dockermobile://pair?" ++ encode_params (link_params p)

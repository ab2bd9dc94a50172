-- ===== src/Server/Pair.antt =====
-- agent/internal/server/pair.go: the endpoint that a stranger may call. The decoding of the body and
-- of base64 are parameters.
pub mod Granting
mod Tests
use docker_mobile.Base.{
  ℕ, ◌-◌, ◌&&◌, Option, none, some, List, if◌then◌else◌, nat_beq, Text, length, Result, ok, err,
}
use docker_mobile.Throttle.{Limiter, blocked, fail}
use docker_mobile.Pairing.Proof.{Crypto, nonce_len}
use docker_mobile.Pairing.Manager.{
  Manager, Create, Redeemed, RedeemError, no_pairing, wrong_proof, random_nonce, store_failed,
  redeem,
}
use docker_mobile.Server.{FailureLog, note}

abbrev pub proof_len : ℕ
proof_len = 32

-- `pairRequest`.
pub record PairRequest : Type 0 where
  pub v : ℕ
  pub nonce : Text
  pub proof : Text
  pub name : Text

-- The state that the endpoint works on; `W` is what `create` stores devices in.
pub record Desk (W D : Type 0) : Type 0 where
  pub limiter : Limiter
  pub failures : FailureLog
  pub pairing : Manager D
  pub world : W

pub record Options (W D : Type 0) : Type 0 where
  pub crypto : Crypto
  pub create : Create W D
  pub fingerprint : Text
  -- `base64.RawURLEncoding.DecodeString`.
  pub decode64 : Text → Option Text

-- What a request is answered.
pub data PairAnswer (D : Type 0) : Type 0 where
  too_many : ℕ → PairAnswer D
  malformed not_in_progress wrong_code not_stored : PairAnswer D
  paired_with : Redeemed D → PairAnswer D

-- A failure counts against the address, and is logged.
unfoldable pub count_guess : {W D : Type 0} → Text → ℕ → Desk W D → Desk W D
count_guess key now s = record s {
  limiter = fail s.limiter key now;
  failures = note key now s.failures;
}

unfoldable pub answer_redeem :
    {W D : Type 0}
    → Text
    → ℕ
    → Desk W D
    → Manager D × W × Result RedeemError (Redeemed D)
    → Desk W D × PairAnswer D
answer_redeem key now s (m, w, ok out) = (record s { pairing = m; world = w }, paired_with out)
answer_redeem key now s (m, w, err no_pairing) =
    (count_guess key now (record s { pairing = m; world = w }), not_in_progress)
answer_redeem key now s (m, w, err wrong_proof) =
    (count_guess key now (record s { pairing = m; world = w }), wrong_code)
answer_redeem key now s (m, w, err random_nonce) = (record s { pairing = m; world = w }, not_stored)
answer_redeem key now s (m, w, err (store_failed e)) =
    (record s { pairing = m; world = w }, not_stored)

-- A body that is understood, once nonce and proof are decoded.
unfoldable pub redeem_decoded :
    {W D : Type 0}
    → Options W D
    → Text
    → ℕ
    → List ℕ
    → Text
    → Desk W D
    → Option Text
    → Option Text
    → Desk W D × PairAnswer D
redeem_decoded o key now random name s (some nonce) (some proof) =
    if nat_beq (length nonce) nonce_len && nat_beq (length proof) proof_len
    then answer_redeem key now s (
        redeem o.crypto o.create
          (record {
            now = now;
            random = random;
            fingerprint = o.fingerprint;
            phone_nonce = nonce;
            proof = proof;
            phone_name = name;
          })
          s.pairing s.world)
    else (s, malformed)
redeem_decoded o key now random name s (some nonce) none = (s, malformed)
redeem_decoded o key now random name s none proof = (s, malformed)

-- The body: none if it cannot be read or is no JSON of a request.
unfoldable pub handle_body :
    {W D : Type 0}
    → Options W D
    → Text
    → ℕ
    → List ℕ
    → Desk W D
    → Option PairRequest
    → Desk W D × PairAnswer D
handle_body o key now random s none = (s, malformed)
handle_body o key now random s (some r) =
    if nat_beq r.v 1
    then redeem_decoded o key now random r.name s (o.decode64 r.nonce) (o.decode64 r.proof)
    else (s, malformed)

-- `handlePair`.
unfoldable pub handle_pair :
    {W D : Type 0}
    → Options W D
    → Text
    → ℕ
    → List ℕ
    → Option PairRequest
    → Desk W D
    → Desk W D × PairAnswer D
handle_pair o key now random body s = elim (blocked s.limiter key now) [
  | some left ↦ (s, too_many left)
  | none ↦ handle_body o key now random s body
]

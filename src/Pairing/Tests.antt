-- ===== src/Pairing/Tests.antt =====
-- Runs of pairing codes, proofs and the manager, with a stand-in for the cryptography.
use docker_mobile.Base.{
  ℕ, zero, suc, ◌≡◌, refl, true, false, none, some, List, [], ◌∷◌, ◌++◌, arith, Text, codes, nat_eq,
  text_eq, ok, err, contains_byte,
}
use docker_mobile.Pairing.Code.{normalize, format}
use docker_mobile.Pairing.Code.Canonical
use docker_mobile.Pairing.Code.Canonical.{IsCanonical}
use docker_mobile.Pairing.Proof.{
  Crypto, agent, message, concat, phone_proof, agent_proof, proof, proof_key,
}
use docker_mobile.Pairing.Proof.Message
use docker_mobile.Pairing.Manager.{
  Pending, Manager, new_manager, start, redeem, redeem_pending, drop_expired, accept, deliver,
  end_pairing, chosen_name, Attempt, Create, proves, Redeemed, no_pairing,
}
use docker_mobile.Pairing.Manager.Channels
use docker_mobile.Pairing.Manager.Channels.{
  Balanced, Call, starts, cancels, expires, redeems, Setting, run,
}
use docker_mobile.Pairing.Manager.Redeem
use docker_mobile.Pairing.Manager.Redeem.{Granted}
use docker_mobile.Pairing.Manager.Guesses
use docker_mobile.Pairing.Manager.Guesses.{redeem_all}

abbrev times : ℕ → ℕ → List ℕ
times zero b = []
times (suc n) b = b ∷ times n b

abbrev typed : List ℕ
typed = codes "0ab1-cdef ghjk"

abbrev code : Text
code = codes "0AB1CDEFGHJK"

typed_code : normalize typed ≡ some code
unfolding normalize contains_byte
typed_code = refl

normalize-format_example : normalize (format code) ≡ some code
normalize-format_example =
    Canonical.normalize-format code (Canonical.normalize-IsCanonical typed code typed_code)

message_injective_example :
    (agent ≡ agent)
    × (times 32 7 ≡ times 32 7)
    × (concat (times 32 1 ∷ times 32 2 ∷ []) ≡ concat (times 32 1 ∷ times 32 2 ∷ []))
message_injective_example =
    Message.message_injective agent agent (times 32 7) (times 32 7) (times 32 1 ∷ times 32 2 ∷ [])
      (times 32 1 ∷ times 32 2 ∷ []) (omega arith) (omega arith) refl

-- The key is the password and the salt, and the MAC is the key and the message.
abbrev toy : Crypto
toy = record {
  pbkdf2 = λ password salt rounds. password ++ salt;
  hmac = λ key message. key ++ message;
}

-- The world counts the devices.
abbrev create : Create ℕ ℕ
create name role n = (suc n, ok (n, codes "token"))

abbrev pending : Pending
pending = record {
  id = codes "aa";
  code = code;
  role = codes "full";
  name = [];
  expires_at = 1000;
  tries = 0;
  done = 0;
}

abbrev m : Manager ℕ
m = record { cur = some pending; delivered = []; started = 1 }

abbrev right : Attempt
right = record {
  now = 999;
  random = times 32 9;
  fingerprint = times 32 7;
  phone_nonce = times 32 1;
  proof = phone_proof toy code (times 32 7) (times 32 1);
  phone_name = codes "Pixel";
}

abbrev wrong : Attempt
wrong = record right { proof = [] }

abbrev guesses : List Attempt
guesses = wrong ∷ wrong ∷ wrong ∷ wrong ∷ wrong ∷ []

abbrev out : Redeemed ℕ
out = record {
  device = 4;
  token = codes "token";
  agent_nonce = times 32 9;
  agent_proof = agent_proof toy code (times 32 7) (times 32 1) (times 32 9);
}

runs : Unit {0}
unfolding redeem proves phone_proof agent_proof start redeem_pending drop_expired proof proof_key
    message accept deliver end_pairing chosen_name
runs = tt

redeemed : (redeem toy create right m 4).2 ≡ ok out
unfolding runs
redeemed = refl

redeem-Granted_example : Granted toy create right m 4 out
redeem-Granted_example = Redeem.redeem-Granted toy create right m 4 out redeemed

too_late : (redeem toy create (record right { now = 1000 }) m 4).2 ≡ err no_pairing
unfolding runs
too_late = refl

wrong_guess : proves toy wrong pending ≡ false
unfolding runs
wrong_guess = refl

redeem_all-wrong_example :
    ((redeem_all toy create (m, 4) guesses).0.cur ≡ none)
    × ((redeem_all toy create (m, 4) guesses).1 ≡ 4)
redeem_all-wrong_example =
    Guesses.redeem_all-wrong toy create pending m 4 guesses refl refl
      (wrong_guess, (wrong_guess, (wrong_guess, (wrong_guess, (wrong_guess, tt))))) (omega arith)

abbrev setting : Setting
setting = record { crypto = toy; valid = λ role. true; clean = λ name. name }

abbrev calls : List (Call ℕ ℕ)
calls =
    starts 0 (times 20 3) (codes "full") []
    ∷ starts 5 (times 20 4) (codes "full") []
    ∷ redeems create wrong
    ∷ expires (codes "0404040404040404")
    ∷ []

one_result_each_example : Balanced (run setting (new_manager, 0) calls).0
one_result_each_example = Channels.one_result_each setting 0 calls

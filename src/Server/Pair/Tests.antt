-- ===== src/Server/Pair/Tests.antt =====
-- A request to pair that is answered with a token, with a stand-in for the cryptography.
use docker_mobile.Base.{
  ℕ, zero, suc, ◌≡◌, refl, none, some, List, [], ◌∷◌, codes, nat_eq, text_eq, lookup, ok,
}
use docker_mobile.Throttle
use docker_mobile.Throttle.{Limiter, blocked}
use docker_mobile.Pairing.Proof.{Crypto, phone_proof, agent_proof, proof, proof_key, message}
use docker_mobile.Pairing.Manager.{
  redeem, redeem_pending, drop_expired, accept, deliver, end_pairing, chosen_name, proves, Redeemed,
  Create,
}
use docker_mobile.Server.Pair.{
  PairRequest, Desk, Options, paired_with, answer_redeem, redeem_decoded, handle_body, handle_pair,
  malformed,
}
use docker_mobile.Server.Pair.Granting
use docker_mobile.Server.Pair.Granting.{PairedBy}

abbrev times : ℕ → ℕ → List ℕ
times zero b = []
times (suc n) b = b ∷ times n b

-- Every key and every MAC is the same here.
abbrev toy : Crypto
toy = record { pbkdf2 = λ password salt rounds. []; hmac = λ key message. times 32 5 }

abbrev create : Create ℕ ℕ
create name role n = (suc n, ok (n, codes "token"))

abbrev options : Options ℕ ℕ
options = record { crypto = toy; create = create; fingerprint = times 32 7; decode64 = λ t. some t }

abbrev desk : Desk ℕ ℕ
desk = record {
  limiter = Throttle.new;
  failures = record { last = []; lines = [] };
  pairing = record {
    cur = some (record {
      id = codes "aa";
      code = codes "0AB1CDEFGHJK";
      role = codes "full";
      name = [];
      expires_at = 1000;
      tries = 0;
      done = 0;
    });
    delivered = [];
    started = 1;
  };
  world = 4;
}

abbrev body : PairRequest
body = record { v = 1; nonce = times 32 1; proof = times 32 5; name = codes "Pixel" }

abbrev out : Redeemed ℕ
out = record {
  device = 4;
  token = codes "token";
  agent_nonce = times 32 9;
  agent_proof = times 32 5;
}

runs : Unit {0}
unfolding handle_pair handle_body redeem_decoded answer_redeem redeem redeem_pending drop_expired
    accept deliver end_pairing chosen_name proves phone_proof agent_proof proof proof_key message
    blocked lookup
runs = tt

answered : (handle_pair options (codes "a") 999 (times 32 9) (some body) desk).1 ≡ paired_with out
unfolding runs
answered = refl

short_nonce :
    (handle_pair options (codes "a") 999 (times 32 9) (some (record body { nonce = [] })) desk).1
    ≡ malformed
unfolding runs
short_nonce = refl

handle_pair-PairedBy_example :
    (blocked desk.limiter (codes "a") 999 ≡ none)
    × PairedBy options desk 999
        (some body)
        (handle_pair options (codes "a") 999 (times 32 9) (some body) desk)
        out
handle_pair-PairedBy_example =
    Granting.handle_pair-PairedBy options (codes "a") 999 (times 32 9) (some body) desk out answered

-- ===== src/Pairing/Manager.antt =====
-- agent/internal/pairing/manager.go: the manager of the one pending pairing. Every method holds the
-- lock, so a history is a list of calls. A channel is a number, and `delivered` is the log of what
-- was sent on all of them. The clock, the random bytes and `create`, which works on a world of its
-- own, are arguments.
pub mod Channels
pub mod Redeem
pub mod Guesses
use docker_mobile.Base.{
  ℕ, suc, ◌+◌, Bool, false, ◌&&◌, not, Option, none, some, List, [], ◌∷◌, ltb, leb, if◌then◌else◌,
  nat_beq, Text, codes, length, take, drop, ◌==◌, text_eq, Result, ok, err, hex,
}
use docker_mobile.Pairing.Code.{code_len, new_code}
use docker_mobile.Pairing.Proof.{Crypto, nonce_len, phone_proof, agent_proof}

-- `Lifetime`, five minutes.
abbrev pub lifetime : ℕ
lifetime = 300000000000

abbrev pub max_tries : ℕ
max_tries = 5

-- `Result`, with the outcome as the constructor.
pub data Outcome (D : Type 0) : Type 0 where
  paired : D → Outcome D
  expired replaced voided cancelled : Outcome D
  failed : Text → Outcome D

pub record Pending : Type 0 where
  pub id : Text
  pub code : Text
  pub role : Text
  pub name : Text
  pub expires_at : ℕ
  pub tries : ℕ
  pub done : ℕ

pub record Manager (D : Type 0) : Type 0 where
  pub cur : Option Pending
  pub delivered : List (ℕ × Outcome D)
  pub started : ℕ

abbrev pub new_manager : {D : Type 0} → Manager D
new_manager = record { cur = none; delivered = []; started = 0 }

end_current : {D : Type 0} → Outcome D → Manager D → Option Pending → Manager D
end_current r m none = m
end_current r m (some p) = record m { cur = none; delivered = (p.done, r) ∷ m.delivered }

-- `endLocked`.
unfoldable pub end_pairing : {D : Type 0} → Outcome D → Manager D → Manager D
unfolding end_current
end_pairing r m = end_current r m m.cur

has_id : Text → Option Pending → Bool
has_id id none = false
has_id id (some p) = p.id == id

-- `endIf`.
unfoldable pub end_if : {D : Type 0} → Text → Outcome D → Manager D → Manager D
unfolding has_id
end_if id r m = if has_id id m.cur then end_pairing r m else m

abbrev pub cancel : {D : Type 0} → Text → Manager D → Manager D
cancel id = end_if id cancelled

abbrev pub expire : {D : Type 0} → Text → Manager D → Manager D
expire id = end_if id expired

pub data StartError : Type 0 where
  unknown_role : Text → StartError
  random_code random_id : StartError

-- A name that is given is cleaned by `state.CleanName`.
clean_given : (Text → Text) → Text → Text
clean_given clean [] = []
clean_given clean (r ∷ rs) = clean (r ∷ rs)

make_pending : (Text → Text) → ℕ → List ℕ → Text → Text → Text → ℕ → Pending
make_pending clean now id_raw code role name done = record {
  id = hex id_raw;
  code = code;
  role = role;
  name = clean_given clean name;
  expires_at = now + lifetime;
  tries = 0;
  done = done;
}

-- The locked end of `Start`: the new pairing replaces the pending one.
unfoldable pub install : {D : Type 0} → Pending → Manager D → Manager D
install p m = record (end_pairing replaced m) { cur = some p; started = suc m.started }

start_with :
    {D : Type 0}
    → (Text → Text)
    → ℕ
    → List ℕ
    → Text
    → Text
    → Manager D
    → Option Text
    → Manager D × Result StartError Pending
start_with clean now random role name m none = (m, err random_code)
start_with clean now random role name m (some code) =
    if ltb (length (drop code_len random)) 8
    then (m, err random_id)
    else (let p = make_pending clean now (take 8 (drop code_len random)) code role name m.started in
        (install p m, ok p))

-- `Start`: `random` is what the random source gives, first for the code and then for the id.
unfoldable pub start :
    {D : Type 0}
    → (Text → Bool)
    → (Text → Text)
    → ℕ
    → List ℕ
    → Text
    → Text
    → Manager D
    → Manager D × Result StartError Pending
unfolding start_with make_pending clean_given
start valid clean now random role name m =
    if valid role
    then start_with clean now random role name m (new_code random)
    else (m, err (unknown_role role))

pub data RedeemError : Type 0 where
  no_pairing wrong_proof random_nonce : RedeemError
  store_failed : Text → RedeemError

pub record Redeemed (D : Type 0) : Type 0 where
  pub device : D
  pub token : Text
  pub agent_nonce : Text
  pub agent_proof : Text

-- What a phone sends, with the agent's fingerprint and the random bytes of the answer.
pub record Attempt : Type 0 where
  pub now : ℕ
  pub random : List ℕ
  pub fingerprint : Text
  pub phone_nonce : Text
  pub proof : Text
  pub phone_name : Text

-- `CreateDevice`, on the world `W`.
abbrev pub Create : Type 0 → Type 0 → Type 0
Create W D = Text → Text → W → W × Result Text (D × Text)

-- The test of the proof, nonce length included.
unfoldable pub proves : Crypto → Attempt → Pending → Bool
proves c a p =
    nat_beq (length a.phone_nonce) nonce_len
    && (a.proof == phone_proof c p.code a.fingerprint a.phone_nonce)

is_over : ℕ → Option Pending → Bool
is_over now none = false
is_over now (some p) = not (ltb now p.expires_at)

-- The first step of `Redeem`: a pairing that ran out of time ends.
unfoldable pub drop_expired : {D : Type 0} → ℕ → Manager D → Manager D
unfolding is_over
drop_expired now m = if is_over now m.cur then end_pairing expired m else m

-- A wrong proof is counted, and the last one voids the pairing.
unfoldable pub count_try : {D : Type 0} → Pending → Manager D → Manager D
count_try p m =
    let m' = record m { cur = some (record p { tries = suc p.tries }) } in
    if leb max_tries (suc p.tries) then end_pairing voided m' else m'

unfoldable pub chosen_name : Text → Text → Text
chosen_name [] phone_name = phone_name
chosen_name (r ∷ rs) phone_name = r ∷ rs

-- The end of `Redeem`, from what `create` returned.
unfoldable pub deliver :
    {W D : Type 0}
    → Crypto
    → Attempt
    → Pending
    → Manager D
    → W × Result Text (D × Text)
    → Manager D × W × Result RedeemError (Redeemed D)
deliver c a p m (w, err e) = (end_pairing (failed e) m, w, err (store_failed e))
deliver c a p m (w, ok (dev, token)) =
    let nonce = take nonce_len a.random in
    (
      end_pairing (paired dev) m,
      w,
      ok (record {
        device = dev;
        token = token;
        agent_nonce = nonce;
        agent_proof = agent_proof c p.code a.fingerprint a.phone_nonce nonce;
      }),
    )

-- A correct proof: the agent's nonce is drawn, and the device is created.
unfoldable pub accept :
    {W D : Type 0}
    → Crypto
    → Create W D
    → Attempt
    → Pending
    → Manager D
    → W
    → Manager D × W × Result RedeemError (Redeemed D)
accept c create a p m w =
    if ltb (length a.random) nonce_len
    then (end_pairing (failed (codes "random nonce")) m, w, err random_nonce)
    else deliver c a p m (create (chosen_name p.name a.phone_name) p.role w)

unfoldable pub redeem_pending :
    {W D : Type 0}
    → Crypto
    → Create W D
    → Attempt
    → Manager D
    → W
    → Option Pending
    → Manager D × W × Result RedeemError (Redeemed D)
redeem_pending c create a m w none = (m, w, err no_pairing)
redeem_pending c create a m w (some p) =
    if proves c a p then accept c create a p m w else (count_try p m, w, err wrong_proof)

-- `Redeem`.
unfoldable pub redeem :
    {W D : Type 0}
    → Crypto
    → Create W D
    → Attempt
    → Manager D
    → W
    → Manager D × W × Result RedeemError (Redeemed D)
redeem c create a m w = let m' = drop_expired a.now m in redeem_pending c create a m' w m'.cur

-- ===== src/Server/Pair/Granting.antt =====
-- What a stranger's request to pair can do.
use docker_mobile.Base.{
  nat_beq_iff, ℕ, ◌≡◌, refl, ◌≢◌, inl, inr, ◌&&◌, Option, none, some, List, arith, nat_beq,
  Bool-cases, Option-cases, Text, length, nat_eq, text_eq, Result, ok, err,
}
use docker_mobile.Throttle.{blocked}
use docker_mobile.Pairing.Proof.{nonce_len}
use docker_mobile.Pairing.Manager.{
  Manager, Attempt, Redeemed, RedeemError, no_pairing, wrong_proof, random_nonce, store_failed,
}
use docker_mobile.Pairing.Manager.Redeem.{Granted, redeem-Granted}
use docker_mobile.Server.Pair.{
  PairRequest, Desk, Options, PairAnswer, too_many, malformed, paired_with, answer_redeem,
  redeem_decoded, handle_body, handle_pair, proof_len,
}

-- What the answer with a token takes: the attempt with the decoded nonce and proof is granted, now
-- and for the fingerprint of this agent, on the manager and the world as they were; and the limiter
-- is as it was.
abbrev pub Paired :
    {W D : Type 0}
    → Options W D
    → Desk W D
    → ℕ
    → Option Text
    → Option Text
    → Desk W D × PairAnswer D
    → Redeemed D
    → Type 0
Paired o s now nonce proof x out =
    (a : Attempt) × Granted o.crypto o.create a s.pairing s.world out
    × (x.0.limiter ≡ s.limiter)
    × (a.now ≡ now)
    × (a.fingerprint ≡ o.fingerprint)
    × (nonce ≡ some a.phone_nonce)
    × (proof ≡ some a.proof)

answer_redeem-ok :
    {W D : Type 0} (key : Text) (now : ℕ) (s : Desk W D)
    (x : Manager D × W × Result RedeemError (Redeemed D)) (out : Redeemed D)
    → (answer_redeem key now s x).1 ≡ paired_with out
    → (x.2 ≡ ok out) × ((answer_redeem key now s x).0.limiter ≡ s.limiter)
unfolding answer_redeem
answer_redeem-ok key now s (m, w, ok o) out h = (ground (h, arith), refl)
answer_redeem-ok key now s (m, w, err no_pairing) out h = absurd (ground (h, arith))
answer_redeem-ok key now s (m, w, err wrong_proof) out h = absurd (ground (h, arith))
answer_redeem-ok key now s (m, w, err random_nonce) out h = absurd (ground (h, arith))
answer_redeem-ok key now s (m, w, err (store_failed e)) out h = absurd (ground (h, arith))

malformed-apart : {D : Type 0} (out : Redeemed D) → malformed ≢ paired_with out
malformed-apart out h = ground (h, arith)

redeem_decoded-Paired :
    {W D : Type 0} (o : Options W D) (key : Text) (now : ℕ) (random : List ℕ) (name : Text)
    (s : Desk W D) (nonce proof : Option Text) (out : Redeemed D)
    → (redeem_decoded o key now random name s nonce proof).1 ≡ paired_with out
    → Paired o s now nonce proof (redeem_decoded o key now random name s nonce proof) out
unfolding redeem_decoded
redeem_decoded-Paired o key now random name s (some nonce) (some proof) out h =
    elim (Bool-cases (nat_beq (length nonce) nonce_len && nat_beq (length proof) proof_len)) [
      | inr e ↦ absurd (malformed-apart out (rw e at h))
      | inl e ↦
          let (r, l) = answer_redeem-ok key now s _ out (rw e at h) in
          rw e (
            _,
            redeem-Granted o.crypto o.create _ s.pairing s.world out r,
            l,
            refl,
            refl,
            refl,
            refl,
          )
    ]
redeem_decoded-Paired o key now random name s (some nonce) none out h =
    absurd (malformed-apart out h)
redeem_decoded-Paired o key now random name s none proof out h = absurd (malformed-apart out h)

-- The body is a request of version 1 whose nonce and proof make the attempt.
abbrev pub PairedBy :
    {W D : Type 0}
    → Options W D
    → Desk W D
    → ℕ
    → Option PairRequest
    → Desk W D × PairAnswer D
    → Redeemed D
    → Type 0
PairedBy o s now body x out =
    (r : PairRequest) × (body ≡ some r)
    × (r.v ≡ 1)
    × Paired o s now (o.decode64 r.nonce) (o.decode64 r.proof) x out

handle_body-PairedBy :
    {W D : Type 0} (o : Options W D) (key : Text) (now : ℕ) (random : List ℕ) (s : Desk W D)
    (body : Option PairRequest) (out : Redeemed D)
    → (handle_body o key now random s body).1 ≡ paired_with out
    → PairedBy o s now body (handle_body o key now random s body) out
unfolding handle_body
handle_body-PairedBy o key now random s none out h = absurd (malformed-apart out h)
handle_body-PairedBy o key now random s (some r) out h = elim (Bool-cases (nat_beq r.v 1)) [
  | inr e ↦ absurd (malformed-apart out (rw e at h))
  | inl e ↦
      let p = redeem_decoded-Paired o key now random r.name s _ _ out (rw e at h) in
      rw e (r, refl, (nat_beq_iff r.v 1).0 e, p)
]

too_many-apart : {D : Type 0} (k : ℕ) (out : Redeemed D) → too_many k ≢ paired_with out
too_many-apart k out h = ground (h, arith)

-- A stranger is answered with a token only from an address that is not blocked, for a request of
-- version 1 whose decoded nonce and proof make an attempt that the pending pairing grants for the
-- agent's own fingerprint; that answer does not count against the address.
pub handle_pair-PairedBy :
    {W D : Type 0} (o : Options W D) (key : Text) (now : ℕ) (random : List ℕ)
    (body : Option PairRequest) (s : Desk W D) (out : Redeemed D)
    → (handle_pair o key now random body s).1 ≡ paired_with out
    → (blocked s.limiter key now ≡ none)
      × PairedBy o s now body (handle_pair o key now random body s) out
unfolding handle_pair
handle_pair-PairedBy o key now random body s out h =
    elim (Option-cases (blocked s.limiter key now)) [
      | inr (left, e) ↦ absurd (too_many-apart left out (rw (e, handle_pair) at h))
      | inl e ↦
          rw (e, handle_pair)
            (refl, handle_body-PairedBy o key now random s body out (rw (e, handle_pair) at h))
    ]

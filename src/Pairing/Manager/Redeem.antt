-- ===== src/Pairing/Manager/Redeem.antt =====
-- Who can redeem a pairing, and how many guesses a code allows.
use docker_mobile.Base.{
  none≢some, err≢ok, ok-inv, ℕ, ◌<◌, ◌≡◌, refl, sym, ap, ◌∙◌, subst, inl, inr, true, false, Option,
  none, some, ◌∷◌, arith, ltb, if◌then◌else◌, lt→ltb, nat_beq_iff, Bool-cases, &&-eq-true, Text,
  codes, length, nat_eq, text_eq, ==_iff, Result, ok, err,
}
use docker_mobile.Pairing.Proof.{Crypto, nonce_len, phone_proof, agent_proof}
use docker_mobile.Pairing.Manager.{
  Outcome, paired, expired, failed, Pending, Manager, end_pairing, no_pairing, wrong_proof,
  random_nonce, Redeemed, redeem, redeem_pending, accept, deliver, count_try, drop_expired, Attempt,
  Create, proves, chosen_name, is_over,
}
use docker_mobile.Pairing.Manager.Channels.{cur-end_pairing}

-- What it takes to be given a token: the pairing `p` is pending and in time, the nonce has its
-- length and the proof is the phone's for the pairing's code, and `create` stored the device.
pub record Granted {W D : Type 0} (c : Crypto) (create : Create W D) (a : Attempt) (m : Manager D)
    (w : W) (out : Redeemed D) : Type 0 where
  pub pending : Pending
  pub was_pending : m.cur ≡ some pending
  pub in_time : a.now < pending.expires_at
  pub nonce : length a.phone_nonce ≡ 32
  pub proved : a.proof ≡ phone_proof c pending.code a.fingerprint a.phone_nonce
  pub created :
      (create (chosen_name pending.name a.phone_name) pending.role w).1 ≡ ok (out.device, out.token)
  pub answered :
      out.agent_proof ≡ agent_proof c pending.code a.fingerprint a.phone_nonce out.agent_nonce
  pub world :
      (redeem c create a m w).1 ≡ (create (chosen_name pending.name a.phone_name) pending.role w).0
  pub used_up : (redeem c create a m w).0.cur ≡ none
  pub told : (redeem c create a m w).0.delivered ≡ (pending.done, paired out.device) ∷ m.delivered

-- A manager that a call leaves as it is, for a pairing in time.
drop_expired-fresh :
    {D : Type 0} (now : ℕ) (m : Manager D) (p : Pending)
    → m.cur ≡ some p
    → now < p.expires_at
    → drop_expired now m ≡ m
unfolding drop_expired is_over
drop_expired-fresh now m p e t = rw (e, lt→ltb now p.expires_at t)

is_over-fresh :
    (now : ℕ) (cur : Option Pending) (p : Pending)
    → cur ≡ some p
    → is_over now cur ≡ false
    → now < p.expires_at
unfolding is_over
is_over-fresh now none p e o = absurd (ground (e, arith))
is_over-fresh now (some q) p e o = ground (e, o, arith)

-- What a call finds pending is what was pending, and it is in time.
drop_expired-some :
    {D : Type 0} (now : ℕ) (m : Manager D) (p : Pending)
    → (drop_expired now m).cur ≡ some p
    → (drop_expired now m ≡ m) × (m.cur ≡ some p) × (now < p.expires_at)
unfolding drop_expired
drop_expired-some now m p e = elim (Bool-cases (is_over now m.cur)) [
  | inl o ↦ absurd (
      none≢some p (
        sym (cur-end_pairing expired m)
        ∙ ap (λ b. (if b then end_pairing expired m else m).cur) (sym o)
        ∙ e))
  | inr o ↦
      let same : drop_expired now m ≡ m = rw o in
      let found : m.cur ≡ some p = sym (ap (λ x. x.cur) same) ∙ e in
      (same, found, is_over-fresh now m.cur p found o)
]

delivered-end_pairing :
    {D : Type 0} (r : Outcome D) (m : Manager D) (p : Pending)
    → m.cur ≡ some p
    → (end_pairing r m).delivered ≡ (p.done, r) ∷ m.delivered
unfolding end_pairing
delivered-end_pairing r m p e = rw e

deliver-ok :
    {W D : Type 0} (c : Crypto) (a : Attempt) (p : Pending) (m : Manager D)
    (x : W × Result Text (D × Text)) (out : Redeemed D)
    → (deliver c a p m x).2 ≡ ok out
    → (x.1 ≡ ok (out.device, out.token))
      × (out.agent_proof ≡ agent_proof c p.code a.fingerprint a.phone_nonce out.agent_nonce)
      × ((deliver c a p m x).0 ≡ end_pairing (paired out.device) m)
      × ((deliver c a p m x).1 ≡ x.0)
unfolding deliver
deliver-ok c a p m (w, err f) out e = absurd (err≢ok _ out e)
deliver-ok c a p m (w, ok (dev, token)) out e =
    let same = ok-inv _ out e in
    (
      ap (λ o. ok (o.device, o.token)) same,
      subst (λ o. o.agent_proof ≡ agent_proof c p.code a.fingerprint a.phone_nonce o.agent_nonce)
          same refl,
      ap (λ o. end_pairing (paired o.device) m) same,
      refl,
    )

accept-ok :
    {W D : Type 0} (c : Crypto) (create : Create W D) (a : Attempt) (p : Pending) (m : Manager D)
    (w : W) (out : Redeemed D)
    → (accept c create a p m w).2 ≡ ok out
    → accept c create a p m w ≡ deliver c a p m (create (chosen_name p.name a.phone_name) p.role w)
unfolding accept
accept-ok c create a p m w out e = elim (Bool-cases (ltb (length a.random) nonce_len)) [
  | inl o ↦ absurd (
      err≢ok random_nonce out (
        ap
          (λ b.
            (if b
              then (end_pairing (failed (codes "random nonce")) m, w, err random_nonce)
              else deliver c a p m (create (chosen_name p.name a.phone_name) p.role w)).2)
          (sym o)
        ∙ e))
  | inr o ↦ rw o
]

redeem_pending-ok :
    {W D : Type 0} (c : Crypto) (create : Create W D) (a : Attempt) (m : Manager D) (w : W)
    (cur : Option Pending) (out : Redeemed D)
    → (redeem_pending c create a m w cur).2 ≡ ok out
    → (p : Pending) × (cur ≡ some p)
      × (proves c a p ≡ true)
      × (redeem_pending c create a m w cur ≡ accept c create a p m w)
unfolding redeem_pending
redeem_pending-ok c create a m w none out e = absurd (err≢ok no_pairing out e)
redeem_pending-ok c create a m w (some p) out e = elim (Bool-cases (proves c a p)) [
  | inl t ↦ (p, refl, t, rw t)
  | inr t ↦ absurd (
      err≢ok wrong_proof out (
        ap (λ b. (if b then accept c create a p m w else (count_try p m, w, err wrong_proof)).2)
          (sym t)
        ∙ e))
]

-- Whoever is given a token proved the code of the pairing that was pending, in time and with a
-- nonce of the right length; the device is the one that was created under the pairing's role, the
-- agent's proof is for the same code, the pairing is used up, and its starter is told of the device.
pub redeem-Granted :
    {W D : Type 0} (c : Crypto) (create : Create W D) (a : Attempt) (m : Manager D) (w : W)
    (out : Redeemed D)
    → (redeem c create a m w).2 ≡ ok out
    → Granted c create a m w out
unfolding redeem proves end_pairing
redeem-Granted c create a m w out e =
    let m' = drop_expired a.now m in
    let (p, found, proved, r) = redeem_pending-ok c create a m' w m'.cur out e in
    let (same, was, time) = drop_expired-some a.now m p found in
    let e' = ap (λ x. x.2) (sym r) ∙ e in
    let r' = accept-ok c create a p m' w out e' in
    let (created, answered, ends, world) =
      deliver-ok c a p m' _ out (ap (λ x. x.2) (sym r') ∙ e') in
    let (n, q) = &&-eq-true _ _ proved in
    record {
      pending = p;
      was_pending = was;
      in_time = time;
      nonce = (nat_beq_iff _ _).0 n;
      proved = (==_iff _ _).0 q;
      created = created;
      answered = answered;
      world = ap (λ x. x.1) (r ∙ r') ∙ world;
      used_up = ap (λ x. x.0.cur) (r ∙ r') ∙ ap (λ x. x.cur) ends ∙ cur-end_pairing _ m';
      told =
          ap (λ x. x.0.delivered) (r ∙ r')
          ∙ ap (λ x. x.delivered) ends
          ∙ delivered-end_pairing _ m' p found
          ∙ ap (λ x. (p.done, paired out.device) ∷ x.delivered) same;
    }

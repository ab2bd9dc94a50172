-- ===== src/Pairing/Manager/Channels/Started.antt =====
-- A pairing that was started, until it ends: it is told by its id, and by its channel.
use docker_mobile.Base.{
  ℕ, suc, ◌<◌, ◌≡◌, refl, sym, ap, ◌∙◌, subst, inl, inr, Bool, true, false, Option, none, some,
  List, [], ◌∷◌, arith, ltb, if◌then◌else◌, lt→ltb, nat_beq, nat_beq_iff, Bool-cases, Text, length,
  take, drop, nat_eq, text_eq, ==_iff, Result, ok, err, false≢true, split_if,
}
use docker_mobile.Pairing.Code.{code_len, new_code}
use docker_mobile.Pairing.Proof.{Crypto, nonce_len}
use docker_mobile.Pairing.Manager.{
  Outcome, expired, voided, cancelled, failed, paired, Pending, Manager, StartError, unknown_role,
  random_code, random_id, Create, Attempt, RedeemError, Redeemed, end_pairing, end_if, has_id,
  install, start, start_with, make_pending, drop_expired, count_try, redeem, redeem_pending, accept,
  deliver, proves,
}
use docker_mobile.Pairing.Manager.Channels.{
  sent, waits, one, Balanced, Call, starts, cancels, expires, redeems, Setting, step, run,
  cur-end_pairing, started-end_pairing,
}

-- A pending pairing on the channel of `p` is `p` itself, by its id.
Ours : Pending → Option Pending → Type 0
Ours p none = Unit
Ours p (some q) = q.done ≡ p.done → q.id ≡ p.id

-- `p` was started, and its channel is its own.
unfoldable pub Known : {D : Type 0} → Pending → Manager D → Type 0
unfolding Ours
Known p m = (p.done < m.started) × Ours p m.cur

end_pairing-Known :
    {D : Type 0} (p : Pending) (r : Outcome D) (m : Manager D)
    → Known p m
    → Known p (end_pairing r m)
unfolding Known Ours
end_pairing-Known p r m (l, o) = (
  subst (λ k. p.done < k) (sym (started-end_pairing r m)) l,
  subst (Ours p) (sym (cur-end_pairing r m)) tt,
)

if-Known :
    {D : Type 0} (p : Pending) (b : Bool) (m m' : Manager D)
    → Known p m
    → Known p m'
    → Known p (if b then m else m')
if-Known p true m m' h h' = h
if-Known p false m m' h h' = h'

pub end_if-Known :
    {D : Type 0} (p : Pending) (id : Text) (r : Outcome D) (m : Manager D)
    → Known p m
    → Known p (end_if id r m)
unfolding end_if
end_if-Known p id r m h = if-Known p _ _ m (end_pairing-Known p r m h) h

install-Known :
    {D : Type 0} (p q : Pending) (m : Manager D)
    → q.done ≡ m.started
    → p.done < m.started
    → Known p (install q m)
unfolding Known Ours install
install-Known p q m e l = (omega (l, arith), λ same. absurd (omega (e, same, l, arith)))

count_try-Known :
    {D : Type 0} (p q : Pending) (m : Manager D)
    → m.cur ≡ some q
    → Known p m
    → Known p (count_try q m)
unfolding count_try
count_try-Known p q m e h =
    let m' = record m { cur = some (record q { tries = suc q.tries }) } in
    let h' : Known p m' = unfold Known Ours in (h.0, subst (Ours p) e h.1) in
    if-Known p _ _ m' (end_pairing-Known p voided m' h') h'

-- A start installs a pairing with a channel of its own, or changes nothing.
pub data Begins {D : Type 0} (m : Manager D) (x : Manager D × Result StartError Pending)
    : Type 0 where
  not_begun : (e : StartError) → x ≡ (m, err e) → Begins m x
  has_begun : (q : Pending) → q.done ≡ m.started → x ≡ (install q m, ok q) → Begins m x

start_with-Begins :
    {D : Type 0} (clean : Text → Text) (now : ℕ) (random : List ℕ) (role name : Text)
    (m : Manager D) (c : Option Text)
    → Begins m (start_with clean now random role name m c)
unfolding start_with make_pending
start_with-Begins clean now random role name m none = not_begun random_code refl
start_with-Begins clean now random role name m (some c) =
    split_if (Begins m) (ltb (length (drop code_len random)) 8) _ _ (λ e. not_begun random_id refl)
      (λ e.
        has_begun (make_pending clean now (take 8 (drop code_len random)) c role name m.started)
          refl refl)

pub start-Begins :
    {D : Type 0} (valid : Text → Bool) (clean : Text → Text) (now : ℕ) (random : List ℕ)
    (role name : Text) (m : Manager D)
    → Begins m (start valid clean now random role name m)
unfolding start
start-Begins valid clean now random role name m =
    split_if (Begins m) (valid role) _ _
      (λ e. start_with-Begins clean now random role name m (new_code random))
      (λ e. not_begun (unknown_role role) refl)

Begins-Known :
    {D : Type 0} (p : Pending) (m : Manager D) (x : Manager D × Result StartError Pending)
    → Begins m x
    → Known p m
    → Known p x.0
Begins-Known p m x (not_begun e q) h = subst (λ y. Known p y.0) (sym q) h
Begins-Known p m x (has_begun r n q) h =
    subst (λ y. Known p y.0) (sym q) (install-Known p r m n (unfold Known in h.0))

deliver-Known :
    {W D : Type 0} (c : Crypto) (a : Attempt) (p q : Pending) (m : Manager D)
    (x : W × Result Text (D × Text))
    → Known p m
    → Known p (deliver c a q m x).0
unfolding deliver
deliver-Known c a p q m (w, err e) h = end_pairing-Known p (failed e) m h
deliver-Known c a p q m (w, ok (dev, token)) h = end_pairing-Known p (paired dev) m h

redeem_pending-Known :
    {W D : Type 0} (c : Crypto) (create : Create W D) (a : Attempt) (p : Pending) (m : Manager D)
    (w : W) (cur : Option Pending)
    → m.cur ≡ cur
    → Known p m
    → Known p (redeem_pending c create a m w cur).0
unfolding redeem_pending accept
redeem_pending-Known {W = W} {D = D} c create a p m w none e h = h
redeem_pending-Known {W = W} {D = D} c create a p m w (some q) e h =
    split_if (λ (x : Manager D × W × Result RedeemError (Redeemed D)). Known p x.0) (proves c a q) _
      _
      (λ t.
        split_if (λ (x : Manager D × W × Result RedeemError (Redeemed D)). Known p x.0)
          (ltb (length a.random) nonce_len) _ _ (λ s. end_pairing-Known p _ m h)
          (λ s. deliver-Known c a p q m _ h))
      (λ t. count_try-Known p q m e h)

redeem-Known :
    {W D : Type 0} (c : Crypto) (create : Create W D) (a : Attempt) (p : Pending) (m : Manager D)
    (w : W)
    → Known p m
    → Known p (redeem c create a m w).0
unfolding redeem drop_expired
redeem-Known c create a p m w h =
    redeem_pending-Known c create a p (drop_expired a.now m) w _ refl
      (if-Known p _ _ m (end_pairing-Known p expired m h) h)

step-Known :
    {W D : Type 0} (s : Setting) (p : Pending) (x : Manager D × W) (call : Call W D)
    → Known p x.0
    → Known p (step s x call).0
unfolding step
step-Known s p (m, w) (starts now random role name) h =
    Begins-Known p m _ (start-Begins s.valid s.clean now random role name m) h
step-Known s p (m, w) (cancels id) h = end_if-Known p id cancelled m h
step-Known s p (m, w) (expires id) h = end_if-Known p id expired m h
step-Known s p (m, w) (redeems create a) h = redeem-Known s.crypto create a p m w h

pub run-Known :
    {W D : Type 0} (s : Setting) (p : Pending) (x : Manager D × W) (calls : List (Call W D))
    → Known p x.0
    → Known p (run s x calls).0
unfolding run
run-Known s p x [] h = h
run-Known s p x (call ∷ calls) h = run-Known s p (step s x call) calls (step-Known s p x call h)

pub install-own :
    {D : Type 0} (p : Pending) (m : Manager D) → p.done ≡ m.started → Known p (install p m)
unfolding Known Ours install
install-own p m e = (omega (e, arith), λ q. refl)

waits-apart :
    (p : Pending) (cur : Option Pending)
    → Ours p cur
    → has_id p.id cur ≡ false
    → waits p.done cur ≡ 0
unfolding Ours has_id waits
waits-apart p none o h = refl
waits-apart p (some q) o h = elim (Bool-cases (nat_beq p.done q.done)) [
  | inl e ↦
      absurd (false≢true (sym h ∙ (==_iff q.id p.id).1 (o (sym ((nat_beq_iff p.done q.done).0 e)))))
  | inr e ↦ ap one e
]

-- `endIf` with the id of the pairing leaves nobody waiting on its channel.
pub end_if-waits :
    {D : Type 0} (p : Pending) (r : Outcome D) (m : Manager D)
    → Known p m
    → waits p.done (end_if p.id r m).cur ≡ 0
unfolding end_if Known
end_if-waits p r m h =
    split_if (λ x. waits p.done x.cur ≡ 0) (has_id p.id m.cur) (end_pairing r m) m
      (λ e. unfold waits in ap (waits p.done) (cur-end_pairing r m))
      (λ e. waits-apart p m.cur h.1 e)

-- A started pairing that nobody waits for was sent one result.
pub sent-over :
    {D : Type 0} (p : Pending) (m : Manager D)
    → Balanced m
    → Known p m
    → waits p.done m.cur ≡ 0
    → sent p.done m.delivered ≡ 1
unfolding Known
sent-over p m b h w = omega (b p.done, w, ap one (lt→ltb p.done m.started h.0), arith)

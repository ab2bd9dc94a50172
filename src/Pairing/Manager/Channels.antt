-- ===== src/Pairing/Manager/Channels.antt =====
-- Whoever starts a pairing is sent exactly one result, whatever calls follow.
pub mod Started
use docker_mobile.Base.{
  ℕ, suc, ◌+◌, ◌≡◌, refl, sym, ap, ◌∙◌, inl, inr, Bool, true, false, Option, none, some, List, [],
  ◌∷◌, arith, ltb, if◌then◌else◌, nat_beq, Bool-cases, Option-cases, Text, length, take, drop,
  nat_eq, text_eq, Result, ok, err,
}
use docker_mobile.Pairing.Code.{code_len, new_code}
use docker_mobile.Pairing.Proof.{Crypto, nonce_len}
use docker_mobile.Pairing.Manager.{
  Outcome, paired, expired, replaced, voided, cancelled, failed, Pending, Manager, new_manager,
  end_pairing, end_if, cancel, expire, install, start, start_with, redeem, redeem_pending, accept,
  deliver, count_try, drop_expired, Attempt, make_pending, proves, Create,
}

abbrev pub one : Bool → ℕ
one true = 1
one false = 0

-- How many results were sent on the channel `n`.
unfoldable pub sent : {D : Type 0} → ℕ → List (ℕ × Outcome D) → ℕ
sent n [] = 0
sent n ((k, r) ∷ log) = one (nat_beq n k) + sent n log

-- Whether the channel `n` belongs to the pending pairing, as a number.
unfoldable pub waits : ℕ → Option Pending → ℕ
waits n none = 0
waits n (some p) = one (nat_beq n p.done)

-- The results that were sent on the channel `n`, or are still to come.
abbrev pub owed : {D : Type 0} → ℕ → Manager D → ℕ
owed n m = sent n m.delivered + waits n m.cur

-- Each channel that was made either belongs to the pending pairing or was sent one result.
abbrev pub Balanced : {D : Type 0} → Manager D → Type 0
Balanced m = (n : ℕ) → owed n m ≡ one (ltb n m.started)

pub owed-end_pairing :
    {D : Type 0} (n : ℕ) (r : Outcome D) (m : Manager D) → owed n (end_pairing r m) ≡ owed n m
unfolding end_pairing sent waits
owed-end_pairing n r m = elim (Option-cases m.cur) [
  | inl e ↦ rw (e, end_pairing)
  | inr (p, e) ↦ ground (e, arith)
]

pub started-end_pairing :
    {D : Type 0} (r : Outcome D) (m : Manager D) → (end_pairing r m).started ≡ m.started
unfolding end_pairing
started-end_pairing r m = elim (Option-cases m.cur) [ inl e ↦ rw e | inr (p, e) ↦ rw e ]

pub cur-end_pairing : {D : Type 0} (r : Outcome D) (m : Manager D) → (end_pairing r m).cur ≡ none
unfolding end_pairing
cur-end_pairing r m = elim (Option-cases m.cur) [ inl e ↦ rw e | inr (p, e) ↦ rw e ]

end_pairing-Balanced :
    {D : Type 0} (r : Outcome D) (m : Manager D) → Balanced m → Balanced (end_pairing r m)
end_pairing-Balanced r m h n =
    owed-end_pairing n r m ∙ h n ∙ ap (λ k. one (ltb n k)) (sym (started-end_pairing r m))

one-suc : (n k : ℕ) → one (ltb n k) + one (nat_beq n k) ≡ one (ltb n (suc k))
one-suc n k = ground arith

sent-end_pairing :
    {D : Type 0} (n : ℕ) (r : Outcome D) (m : Manager D)
    → sent n (end_pairing r m).delivered ≡ owed n m
unfolding end_pairing sent waits
sent-end_pairing n r m = elim (Option-cases m.cur) [
  | inl e ↦ ground (e, arith)
  | inr (p, e) ↦ ground (e, arith)
]

install-Balanced :
    {D : Type 0} (p : Pending) (m : Manager D)
    → p.done ≡ m.started
    → Balanced m
    → Balanced (install p m)
unfolding install waits
install-Balanced p m q h n =
    let o = sent-end_pairing n replaced m in
    let w : waits n (some p) ≡ one (nat_beq n m.started) = rw q in
    ap (λ k. k + waits n (some p)) o
    ∙ ap (λ k. owed n m + k) w
    ∙ ap (λ k. k + one (nat_beq n m.started)) (h n)
    ∙ one-suc n m.started

keep-if :
    {D : Type 0} (b : Bool) (m m' : Manager D)
    → Balanced m
    → Balanced m'
    → Balanced (if b then m else m')
keep-if true m m' h h' = h
keep-if false m m' h h' = h'

pub end_if-Balanced :
    {D : Type 0} (id : Text) (r : Outcome D) (m : Manager D) → Balanced m → Balanced (end_if id r m)
unfolding end_if
end_if-Balanced id r m h = keep-if _ _ m (end_pairing-Balanced r m h) h

drop_expired-Balanced :
    {D : Type 0} (now : ℕ) (m : Manager D) → Balanced m → Balanced (drop_expired now m)
unfolding drop_expired
drop_expired-Balanced now m h = keep-if _ _ m (end_pairing-Balanced expired m h) h

start_with-Balanced :
    {D : Type 0} (clean : Text → Text) (now : ℕ) (random : List ℕ) (role name : Text)
    (m : Manager D) (code : Option Text)
    → Balanced m
    → Balanced (start_with clean now random role name m code).0
unfolding start_with make_pending
start_with-Balanced clean now random role name m none h = h
start_with-Balanced clean now random role name m (some code) h =
    elim (Bool-cases (ltb (length (drop code_len random)) 8)) [
      | inl e ↦ rw e h
      | inr e ↦ rw e (
          install-Balanced
            (make_pending clean now (take 8 (drop code_len random)) code role name m.started) m refl
            h)
    ]

pub start-Balanced :
    {D : Type 0} (valid : Text → Bool) (clean : Text → Text) (now : ℕ) (random : List ℕ)
    (role name : Text) (m : Manager D)
    → Balanced m
    → Balanced (start valid clean now random role name m).0
unfolding start
start-Balanced valid clean now random role name m h = elim (Bool-cases (valid role)) [
  | inl e ↦ rw e (start_with-Balanced clean now random role name m (new_code random) h)
  | inr e ↦ rw e h
]

deliver-Balanced :
    {W D : Type 0} (c : Crypto) (a : Attempt) (p : Pending) (m : Manager D)
    (x : W × Result Text (D × Text))
    → Balanced m
    → Balanced (deliver c a p m x).0
unfolding deliver
deliver-Balanced c a p m (w, err e) h = end_pairing-Balanced (failed e) m h
deliver-Balanced c a p m (w, ok (dev, token)) h = end_pairing-Balanced (paired dev) m h

accept-Balanced :
    {W D : Type 0} (c : Crypto) (create : Create W D) (a : Attempt) (p : Pending) (m : Manager D)
    (w : W)
    → Balanced m
    → Balanced (accept c create a p m w).0
unfolding accept
accept-Balanced c create a p m w h = elim (Bool-cases (ltb (length a.random) nonce_len)) [
  | inl e ↦ rw e (end_pairing-Balanced _ m h)
  | inr e ↦ rw e (deliver-Balanced c a p m _ h)
]

count_try-Balanced :
    {D : Type 0} (p : Pending) (m : Manager D)
    → m.cur ≡ some p
    → Balanced m
    → Balanced (count_try p m)
unfolding count_try waits
count_try-Balanced p m e h =
    let m' = record m { cur = some (record p { tries = suc p.tries }) } in
    let h' : Balanced m' = λ n. ap (λ o. sent n m.delivered + waits n o) (sym e) ∙ h n in
    keep-if _ _ m' (end_pairing-Balanced voided m' h') h'

redeem_pending-Balanced :
    {W D : Type 0} (c : Crypto) (create : Create W D) (a : Attempt) (m : Manager D) (w : W)
    (cur : Option Pending)
    → m.cur ≡ cur
    → Balanced m
    → Balanced (redeem_pending c create a m w cur).0
unfolding redeem_pending
redeem_pending-Balanced c create a m w none e h = h
redeem_pending-Balanced c create a m w (some p) e h = elim (Bool-cases (proves c a p)) [
  | inl t ↦ rw t (accept-Balanced c create a p m w h)
  | inr t ↦ rw t (count_try-Balanced p m e h)
]

redeem-Balanced :
    {W D : Type 0} (c : Crypto) (create : Create W D) (a : Attempt) (m : Manager D) (w : W)
    → Balanced m
    → Balanced (redeem c create a m w).0
unfolding redeem
redeem-Balanced c create a m w h =
    redeem_pending-Balanced c create a (drop_expired a.now m) w _ refl
      (drop_expired-Balanced a.now m h)

-- A call of the manager.
pub data Call (W D : Type 0) : Type 0 where
  starts : ℕ → List ℕ → Text → Text → Call W D
  cancels : Text → Call W D
  expires : Text → Call W D
  redeems : Create W D → Attempt → Call W D

pub record Setting : Type 0 where
  pub crypto : Crypto
  pub valid : Text → Bool
  pub clean : Text → Text

unfoldable pub step : {W D : Type 0} → Setting → Manager D × W → Call W D → Manager D × W
step s (m, w) (starts now random role name) = ((start s.valid s.clean now random role name m).0, w)
step s (m, w) (cancels id) = (cancel id m, w)
step s (m, w) (expires id) = (expire id m, w)
step s (m, w) (redeems create a) = let (m', w', answer) = redeem s.crypto create a m w in (m', w')

unfoldable pub run : {W D : Type 0} → Setting → Manager D × W → List (Call W D) → Manager D × W
unfolding step
run s x [] = x
run s x (c ∷ cs) = run s (step s x c) cs

step-Balanced :
    {W D : Type 0} (s : Setting) (x : Manager D × W) (call : Call W D)
    → Balanced x.0
    → Balanced (step s x call).0
unfolding step
step-Balanced s (m, w) (starts now random role name) h = start-Balanced _ _ now random role name m h
step-Balanced s (m, w) (cancels id) h = end_if-Balanced id cancelled m h
step-Balanced s (m, w) (expires id) h = end_if-Balanced id expired m h
step-Balanced s (m, w) (redeems create a) h = redeem-Balanced s.crypto create a m w h

pub run-Balanced :
    {W D : Type 0} (s : Setting) (x : Manager D × W) (calls : List (Call W D))
    → Balanced x.0
    → Balanced (run s x calls).0
unfolding run
run-Balanced s x [] h = h
run-Balanced s x (call ∷ calls) h = run-Balanced s (step s x call) calls (step-Balanced s x call h)

-- After any calls of a new manager, each channel that a start made was sent exactly one result,
-- unless it is that of the pending pairing, which was sent none. Nothing is sent on other channels.
pub one_result_each :
    {W D : Type 0} (s : Setting) (w : W) (calls : List (Call W D))
    → Balanced (run s (new_manager, w) calls).0
unfolding sent waits
one_result_each s w calls = run-Balanced s (new_manager, w) calls (λ n. ground arith)

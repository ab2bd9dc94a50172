-- ===== src/Admin/Ending.antt =====
-- A pairing that the command line starts comes to an end.
use docker_mobile.Base.{
  ℕ, ◌≡◌, refl, sym, ap, ◌∙◌, subst, inl, inr, Option, none, some, List, [], ◌∷◌, arith, nat_beq,
  Bool-cases, Option-cases, Text, nat_eq, text_eq, Result, ok, err, none≢some, err≢ok, ok-inv,
  split_if,
}
use docker_mobile.Pairing.Manager.{
  Outcome, expired, cancelled, Pending, Manager, new_manager, StartError, install,
}
use docker_mobile.Pairing.Manager.Channels.{
  sent, waits, Balanced, Call, Setting, run, run-Balanced, one_result_each, start-Balanced,
  end_if-Balanced,
}
use docker_mobile.Pairing.Manager.Channels.Started.{
  Known, Begins, not_begun, has_begun, start-Begins, install-own, run-Known, end_if-Known,
  end_if-waits, sent-over,
}
use docker_mobile.State.Devices.{Device, valid_role}
use docker_mobile.Config.Advertised.{Advertise, AdvertiseError, with_host}
use docker_mobile.Admin
use docker_mobile.Admin.{
  Server, PairRequest, Refusal, Begun, begun, start_at, begin_pairing, read_request, role_or_full,
  Woke, told, timed_out, gone, settle, receive, report, PairAnswer, streamed, started_event, stream,
  end_stream, handle_pair, bad_host, not_started, unknown_role_asked, malformed_request,
}

-- A pairing that began is known to the manager, which still sends one result each.
abbrev Fresh : {D : Type 0} → Manager D × Begun → Pending → Type 0
Fresh x p = Balanced x.0 × Known p x.0

begun-Fresh :
    {D : Type 0} (adv a : Advertise) (m : Manager D) (p : Pending)
    (x : Manager D × Result StartError Pending)
    → Begins m x
    → Balanced x.0
    → (begun adv x).1 ≡ ok (p, a)
    → Fresh (begun adv x) p
unfolding begun
begun-Fresh adv a m p x (not_begun e q) b h =
    absurd (err≢ok _ _ (sym (ap (λ y. (begun adv y).1) q) ∙ h))
begun-Fresh adv a m p x (has_begun r n q) b h =
    let b' = subst (λ y. Balanced y.0) q b in
    subst (λ y. (begun adv y).1 ≡ ok (p, a) → Fresh (begun adv y) p) (sym q)
      (λ k.
        (b', subst (λ z. Known z (install r m)) (ap (λ y. y.0) (ok-inv _ _ k)) (install-own r m n)))
      h

begin_pairing-Fresh :
    {D : Type 0} (setup : Admin.Setup) (s : Server) (now : ℕ) (random : List ℕ) (m : Manager D)
    (req : Option PairRequest) (p : Pending) (a : Advertise)
    → Balanced m
    → (begin_pairing setup s now random m req).1 ≡ ok (p, a)
    → Fresh (begin_pairing setup s now random m req) p
unfolding begin_pairing
begin_pairing-Fresh setup s now random m none p a b h = absurd (err≢ok _ _ h)
begin_pairing-Fresh {D = D} setup s now random m (some req) p a b h =
    split_if (λ (x : Manager D × Begun). x.1 ≡ ok (p, a) → Fresh x p)
      (valid_role (role_or_full req.role)) _ _
      (λ e. at_host (with_host setup.address req.host s.advertise)) (λ e k. absurd (err≢ok _ _ k)) h
  where
    at_host :
        (adv : Result AdvertiseError Advertise)
        → (start_at setup now random req m adv).1 ≡ ok (p, a)
        → Fresh (start_at setup now random req m adv) p
    at_host (err e) k = absurd (err≢ok _ _ k)
    at_host (ok adv) k =
        begun-Fresh adv a m p _ (start-Begins _ _ now random _ req.name m)
          (start-Balanced _ _ now random _ req.name m b) k

receive-sent :
    {D : Type 0} (n : ℕ) (log : List (ℕ × Outcome D)) → receive n log ≡ none → sent n log ≡ 0
unfolding receive sent
receive-sent n [] h = refl
receive-sent n ((k, r) ∷ log) h = elim (Bool-cases (nat_beq n k)) [
  | inl e ↦ absurd (none≢some r (sym (rw e at h)))
  | inr e ↦ rw e (omega (receive-sent n log (rw e at h), arith))
]

settle-Fresh :
    (woke : Woke) (p : Pending) (m : Manager Device)
    → Balanced m
    → Known p m
    → (woke ≡ told → waits p.done m.cur ≡ 0)
    → Balanced (settle woke p.id m)
      × Known p (settle woke p.id m)
      × (waits p.done (settle woke p.id m).cur ≡ 0)
unfolding settle
settle-Fresh told p m b k h = (b, k, h refl)
settle-Fresh timed_out p m b k h =
    (end_if-Balanced p.id expired m b, end_if-Known p p.id expired m k, end_if-waits p expired m k)
settle-Fresh gone p m b k h = (
  end_if-Balanced p.id cancelled m b,
  end_if-Known p p.id cancelled m k,
  end_if-waits p cancelled m k,
)

received :
    (p : Pending) (m : Manager Device)
    → Balanced m
    → Known p m
    → waits p.done m.cur ≡ 0
    → (r : Outcome Device) × (receive p.done m.delivered ≡ some r)
received p m b k w = elim (Option-cases (receive p.done m.delivered)) [
  | inr x ↦ x
  | inl e ↦ absurd (omega (receive-sent p.done m.delivered e, sent-over p m b k w, arith))
]

-- How the answer to a request to pair ends: nobody waits for the pairing any more, its result was
-- received, and the stream is the started event with the report of that result.
abbrev pub Ends : Server → ℕ → Pending → Advertise → Woke → Manager Device × PairAnswer → Type 0
Ends s later p a woke x =
    (waits p.done x.0.cur ≡ 0)
    × (r : Outcome Device) × (receive p.done x.0.delivered ≡ some r)
    × (x.1 ≡ streamed (started_event s later p a ∷ report woke r))

stream-Ends :
    (s : Server) (later : ℕ) (during : Manager Device → Manager Device) (woke : Woke) (p : Pending)
    (a : Advertise) (x : Manager Device × Begun)
    → x.1 ≡ ok (p, a)
    → Balanced (during x.0)
    → Known p (during x.0)
    → (woke ≡ told → waits p.done (during x.0).cur ≡ 0)
    → Ends s later p a woke (stream s later during woke x)
unfolding stream end_stream
stream-Ends s later during woke p a (m, err e) h b k w = absurd (err≢ok _ _ h)
stream-Ends s later during woke p a (m, ok (p', a')) h b k w =
    let e : (p, a) ≡ (p', a') = sym (ok-inv _ _ h) in
    subst (λ q. Ends s later p a woke (stream s later during woke (m, ok q))) e
      (let (b', k', w') = settle-Fresh woke p (during m) b k w in
        let (r, q) = received p (settle woke p.id (during m)) b' k' w' in
        (w', r, q, ap (end_stream (started_event s later p a) woke) q))

-- `handlePair` in any history of the manager: a request whose pairing began is never left waiting for
-- a result. Whatever calls others make before and meanwhile, when it wakes, because it was told of the
-- end, which it is only once the pairing is over, because the time ran out, or because it is over
-- itself, the pairing is no longer pending, one result of it is there, and the stream is the started
-- event with what is reported of that result.
pub handle_pair-Ends :
    {W : Type 0} (setup : Admin.Setup) (s : Server) (set : Setting) (w w' : W)
    (before meanwhile : List (Call W Device)) (now later : ℕ) (random : List ℕ) (body : Option Text)
    (woke : Woke) (p : Pending) (a : Advertise)
    → let m = (run set (new_manager, w) before).0 in
      let during = λ (k : Manager Device). (run set (k, w') meanwhile).0 in
      let first = begin_pairing setup s now random m (read_request setup body) in
      first.1 ≡ ok (p, a)
      → (woke ≡ told → waits p.done (during first.0).cur ≡ 0)
      → Ends s later p a woke (handle_pair setup s now later random body during woke m)
unfolding handle_pair
handle_pair-Ends setup s set w w' before meanwhile now later random body woke p a h told_over =
    let m = (run set (new_manager, w) before).0 in
    let first = begin_pairing setup s now random m (read_request setup body) in
    let (b, k) =
      begin_pairing-Fresh setup s now random m (read_request setup body) p a
        (one_result_each set w before) h in
    stream-Ends s later (λ m. (run set (m, w') meanwhile).0) woke p a first h
      (run-Balanced set (first.0, w') meanwhile b) (run-Known set p (first.0, w') meanwhile k)
      told_over

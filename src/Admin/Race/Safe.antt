-- ===== src/Admin/Race/Safe.antt =====
-- No turn order lets a request survive the revocation of its device.
use docker_mobile.Base.{
  ℕ, suc, ◌+◌, ◌^◌, ◌<◌, ◌≡◌, refl, sym, ap, ◌∙◌, subst, ◌⊎◌, inl, inr, Bool, true, false, Option,
  none, some, List, [], ◌∷◌, arith, if◌then◌else◌, Text, length, nat_eq, text_eq, ==_refl, lookup,
  Result, ok, err, none≢some,
}
use docker_mobile.Throttle.{Limiter}
use docker_mobile.Conns.History
use docker_mobile.Conns.History.{
  Handle, System, Call, tracks, releases, closes_device, closes_all, note_handle, In,
  In-append_left, In-append_right, Held, Accounts,
}
use docker_mobile.State.Dir.{Faults}
use docker_mobile.State.Tokens.{token_id}
use docker_mobile.State.Devices.{Device, Devices, Library, authenticate, remove}
use docker_mobile.State.Devices.Access.{Answers, authenticate-Answers, lookup-remove}
use docker_mobile.Auth
use docker_mobile.Auth.{
  Agent, Request, Outside, Answer, handed_on, shutting_down, too_many, unauthorized,
  ended_by_registry, has_ended, look_up_again, hand_on, serve, track_request, release_request,
}
use docker_mobile.Admin.Race.{
  Stage, waiting, tracked, looked, answered, Revoking, not_begun, taken_out, closed_off, Race, Turn,
  asks, revokes, registers, authenticates, agent_of, answer_request, ask, take_out, revoke, step,
  run,
}
use docker_mobile.Admin.Race.Kept.{
  track-Kept, Absent, Answers-Absent, Answers-refused, Room, step-Room,
}
use docker_mobile.Admin.Race.Stages.{
  Live, less-Live, Ended, AtAnswer, AtStage, stage-step, stage-less, stage-closed,
}

module _ (setup : Auth.Setup) (o : Outside) (r : Request) (d : Device) (token : Text) where
  -- Once the device is taken out, it stays out.
  Out : Race → Type 0
  Out s = (s.revoking ≡ not_begun) ⊎ Absent d.id s.devices

  unfoldable Holds : ℕ → Race → Type 0
  Holds k s = AtStage r d k s.system s.revoking s.stage × Out s

  Out-Answers :
      (s : Race) (x : Devices × Option Device) {lib : Library} {now : ℕ} {other : Text}
      → Answers lib now other s.devices x
      → Out s
      → (s.revoking ≡ not_begun) ⊎ Absent d.id x.0
  unfolding Out
  Out-Answers s x a (inl e) = inl e
  Out-Answers s x a (inr h) = inr (Answers-Absent d.id a h)

  Out-closed :
      (s : Race) (f : Device) (x : Devices × Option Device) {lib : Library} {now : ℕ}
      → Answers lib now token s.devices x
      → token_id token ≡ some d.id
      → Out s
      → x.1 ≡ some f
      → s.revoking ≡ closed_off
      → ⊥
  unfolding Out
  Out-closed s f x a t (inl e) q c = absurd (ground (sym e ∙ c, arith))
  Out-closed s f x a t (inr h) q c = absurd (none≢some f (sym (Answers-refused d.id a t h) ∙ q))

  looked-Holds :
      (k : ℕ) (s : Race) (n : Option ℕ) (ended : Bool) (x : Devices × Option Device)
      → token_id token ≡ some d.id
      → Answers setup.lib o.later token s.devices x
      → Live r d (suc k) s.system
      → Out s
      → Holds k (
          answer_request setup o r d token s
            (hand_on r d n ended (record (agent_of s) { devices = x.0 }, x.1)))
  unfolding Holds AtStage AtAnswer hand_on answer_request Out release_request Ended
  looked-Holds k s n ended (devices, none) t a l out = (tt, Out-Answers s (devices, none) a out)
  looked-Holds k s n true (devices, some f) t a l out = (tt, Out-Answers s (devices, some f) a out)
  looked-Holds k s n false (devices, some f) t a l out = (
    (less-Live r d k s.system l, λ c. absurd (Out-closed s f (devices, some f) a t out refl c)),
    Out-Answers s (devices, some f) a out,
  )

  ask-Holds :
      (k : ℕ) (s : Race) (st : Stage)
      → token_id token ≡ some d.id
      → AtStage r d (suc k) s.system s.revoking st
      → Out s
      → st ≡ s.stage
      → Holds k (ask setup o r d token st s)
  unfolding Holds AtStage ask look_up_again Out Live
  ask-Holds k s waiting t h out e =
      ((step-Room k s.system (tracks d.id r.ctx) h, track-Kept d.id r.ctx s.system), out)
  ask-Holds k s (tracked n) t h out e = (less-Live r d k s.system h, out)
  ask-Holds k s (looked n ended) t h out e =
      looked-Holds k s n ended (authenticate setup.lib o.os_later o.later token s.devices) t
        (authenticate-Answers setup.lib o.os_later o.later token s.devices) h out
  ask-Holds k s (answered x) t h out e = (
    subst (AtStage r d k s.system s.revoking) e
        (stage-less r d k s.system s.revoking s.revoking (answered x) (λ y. y) h),
    out,
  )

  take_out-Holds :
      (k : ℕ) (s : Race) (os : Faults) (x : Devices × Result Text (Option Device))
      → remove setup.lib os d.id s.devices ≡ x
      → s.revoking ≡ not_begun
      → AtStage r d (suc k) s.system s.revoking s.stage
      → Holds k (take_out setup o r d token s x)
  unfolding Holds take_out Out Absent Ended
  take_out-Holds k s os (devices, err e) q b h =
      (stage-less r d k s.system s.revoking s.revoking s.stage (λ y. y) h, inl b)
  take_out-Holds k s os (devices, ok none) q b h =
      (stage-less r d k s.system s.revoking s.revoking s.stage (λ y. y) h, inl b)
  take_out-Holds k s os (devices, ok (some gone)) q b h = (
    stage-less r d k s.system s.revoking taken_out s.stage (λ y c. absurd (ground (c, arith))) h,
    inr (
        ap (λ y. lookup d.id y.0.by_id) (sym q)
        ∙ (lookup-remove setup.lib os d.id d.id (some gone) s.devices (ap (λ y. y.1) q)).1
        ∙ ap (λ b. if b then none else lookup d.id s.devices.by_id) (==_refl d.id)),
  )

  revoke-Holds :
      (k : ℕ) (s : Race) (os : Faults) (v : Revoking)
      → s.revoking ≡ v
      → AtStage r d (suc k) s.system s.revoking s.stage
      → Out s
      → Holds k (revoke setup o r d token os v s)
  unfolding Holds revoke Out
  revoke-Holds k s os not_begun e h out = take_out-Holds k s os _ refl e h
  revoke-Holds k s os taken_out e h out = (
    stage-closed r d k s.system s.revoking s.stage h,
    elim out [ inl b ↦ absurd (ground (sym e ∙ b, arith)) | inr a ↦ inr a ],
  )
  revoke-Holds k s os closed_off e h out =
      (stage-less r d k s.system s.revoking s.revoking s.stage (λ y. y) h, out)

  step-Holds :
      (k : ℕ) (s : Race) (t : Turn)
      → token_id token ≡ some d.id
      → Holds (suc k) s
      → Holds k (step setup o r d token s t)
  unfolding Holds step
  step-Holds k s asks n (h, out) = ask-Holds k s s.stage n h out refl
  step-Holds k s (revokes os) n (h, out) = revoke-Holds k s os s.revoking refl h out
  step-Holds k s (registers c) n (h, out) =
      (stage-step r d k s.system s.revoking s.stage c h, unfold Out in out)
  step-Holds k s (authenticates os now other) n (h, out) = (
    stage-less r d k s.system s.revoking s.revoking s.stage (λ y. y) h,
    unfold Out in Out-Answers s _ (authenticate-Answers setup.lib os now other s.devices) out,
  )

  run-Holds :
      (s : Race) (ts : List Turn)
      → token_id token ≡ some d.id
      → Holds (length ts) s
      → Holds 0 (run setup o r d token s ts)
  unfolding run
  run-Holds s [] n h = h
  run-Holds s (t ∷ ts) n h =
      run-Holds (step setup o r d token s t) ts n (step-Holds (length ts) s t n h)

  handed_on-Ended :
      (s : Race) (dev : Device) (n : Option ℕ)
      → Holds 0 s
      → s.stage ≡ answered (some (handed_on dev n))
      → s.revoking ≡ closed_off
      → In r.ctx s.system.registry.ended
  unfolding Holds AtStage AtAnswer Ended
  handed_on-Ended s dev n h e c = (subst (AtStage r d 0 s.system s.revoking) e h.0).1 c

history-Room :
    (k : ℕ) (y : System) (cs : List Call) → Room (length cs + k) y → Room k (History.run y cs)
unfolding History.run
history-Room k y [] h = subst (λ j. Room j y) (omega arith) h
history-Room k y (c ∷ cs) h =
    let e : length (c ∷ cs) + k ≡ suc (length cs + k) = omega arith in
    history-Room k (History.step y c) cs (step-Room (length cs + k) y c (subst (λ j. Room j y) e h))

-- Revoking a device beats its requests, in every order of their steps. A request whose token names the
-- device waits to be tracked, and nothing is revoked yet; then the request, the revocation, other calls
-- of the registry and other authentications take turns, fewer than 2^64 with the calls before. If the
-- request has been handed on, and the revocation has closed the requests of the device, then the
-- context of the request has ended.
pub revoke_beats_request :
    (setup : Auth.Setup) (o : Outside) (r : Request) (d : Device) (token : Text)
    (l : Option Limiter) (devices : Devices) (calls : List Call) (turns : List Turn) (dev : Device)
    (n : Option ℕ)
    → token_id token ≡ some d.id
    → length calls + length turns < 2 ^ 64
    → let s =
        run setup o r d token
          (record {
            limiter = l;
            devices = devices;
            system = History.run History.start calls;
            stage = waiting;
            revoking = not_begun;
          })
          turns in
      s.stage ≡ answered (some (handed_on dev n))
      → s.revoking ≡ closed_off
      → In r.ctx s.system.registry.ended
revoke_beats_request setup o r d token l devices calls turns dev n t room e c =
    let s : Race = record {
      limiter = l;
      devices = devices;
      system = History.run History.start calls;
      stage = waiting;
      revoking = not_begun;
    } in
    let first : Room (length calls + length turns) History.start =
      unfold Room in (record { held = tt; numbers = tt }, omega (room, arith)) in
    let begin : Holds setup o r d token (length turns) s =
      unfold Holds AtStage Out in
      (history-Room (length turns) History.start calls first, inl refl) in
    handed_on-Ended setup o r d token _ dev n (run-Holds setup o r d token s turns t begin) e c

-- With nobody in between, the three steps of the request are those of `serve`, and they answer the same.
pub serve_in_turns :
    (setup : Auth.Setup) (o : Outside) (r : Request) (d : Device) (token : Text) (s : Race)
    → (run setup o r d token (record s { stage = waiting }) (asks ∷ asks ∷ asks ∷ [])).stage
      ≡ answered
          (serve setup
            (record o { before_track = λ a. a; before_look = λ a. a; before_lookup = λ a. a })
            r
            d
            (some token)
            (agent_of s)).1
unfolding run step ask serve answer_request track_request History.step look_up_again
serve_in_turns setup o r d token s = refl

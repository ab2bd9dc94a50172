-- ===== src/Auth/Callers.antt =====
-- Who a request that is handed on belongs to.
use docker_mobile.Base.{
  some-inv, none≢some, ℕ, ◌≡◌, refl, sym, ap, ◌∙◌, subst, ◌≢◌, inl, inr, Bool, true, false, not,
  Option, none, some, [], arith, Bool-cases, Option-cases, &&-eq-true, Text, ◌==◌, nat_eq, text_eq,
  ==_iff,
}
use docker_mobile.State.Dir.{Faults}
use docker_mobile.State.Tokens.{is_device_token}
use docker_mobile.State.Devices.{Device, Library, Devices, authenticate}
use docker_mobile.State.Devices.Access.{Owns, Answers, let_in, kept_out, authenticate-Answers}
use docker_mobile.Auth.{
  Agent, Setup, Request, Outside, Answer, handed_on, too_many, unauthorized, bearer_token,
  same_token, env_device, track_request, look_up_again, hand_on, serve, is_blocked, is_legacy,
  served, require_other, or_other, try_device, require_device, require,
}

-- The shared state when the device of a tracked request is looked up again.
abbrev pub at_lookup : Outside → Request → Device → Agent → Agent
at_lookup o r d a =
    o.before_lookup
      (o.before_look (track_request r d (o.before_track a) (o.before_track a).conns).0)

-- How a request comes to be handed on for the device `dev`.
pub data IsCaller (setup : Setup) (o : Outside) (r : Request) (a : Agent) (dev : Device)
    : Type 0 where
  -- It has a token that owns a device at first, and also once the request is tracked; that device,
  -- without the hash of its token, is the caller.
  by_device :
      (token id id' : Text) (d d' : Device)
      → bearer_token r ≡ some token
      → is_device_token token ≡ true
      → Owns setup.lib a.devices token id d
      → Owns setup.lib
          (at_lookup o r
            (record d { last_seen_at = o.now })
            (record a { devices = (authenticate setup.lib o.os o.now token a.devices).0 })).devices
          token
          id'
          d'
      → dev ≡ record d' { last_seen_at = o.later; token_hash = [] }
      → IsCaller setup o r a dev
  -- It has the shared token, which is set.
  by_shared_token :
      (token : Text)
      → bearer_token r ≡ some token
      → setup.legacy ≢ []
      → setup.sha256 token ≡ setup.sha256 setup.legacy
      → dev ≡ env_device
      → IsCaller setup o r a dev

Answers-Owns :
    {lib : Library} {now : ℕ} {token : Text} {s : Devices} {f : Device}
    {x : Devices × Option Device}
    → Answers lib now token s x
    → x.1 ≡ some f
    → (id : Text) × (d : Device) × Owns lib s token id d × (f ≡ record d { last_seen_at = now })
Answers-Owns (let_in id d owns e b) h = (id, d, owns, some-inv _ _ (sym h ∙ e))
Answers-Owns (kept_out k e) h = absurd (none≢some _ (sym (ap (λ y. y.1) e) ∙ h))

authenticate-Owns :
    (lib : Library) (os : Faults) (now : ℕ) (token : Text) (s : Devices) (f : Device)
    → (authenticate lib os now token s).1 ≡ some f
    → (id : Text) × (d : Device) × Owns lib s token id d × (f ≡ record d { last_seen_at = now })
authenticate-Owns lib os now token s f h = Answers-Owns (authenticate-Answers lib os now token s) h

handed-inv :
    (d dev : Device) (n m : Option ℕ) → some (handed_on d n) ≡ some (handed_on dev m) → dev ≡ d
handed-inv d dev n m h = ground (h, arith)

none≢answer : (x : Answer) → none ≢ some x
none≢answer x h = ground (h, arith)

hand_on-inv :
    (r : Request) (d : Device) (n m : Option ℕ) (ended : Bool) (x : Agent × Option Device)
    (dev : Device)
    → (hand_on r d n ended x).1 ≡ some (handed_on dev m)
    → (f : Device) × (x.1 ≡ some f) × (dev ≡ record f { token_hash = [] })
unfolding hand_on
hand_on-inv r d n m ended (a, none) dev h = absurd (ground (h, arith))
hand_on-inv r d n m true (a, some f) dev h = absurd (ground (h, arith))
hand_on-inv r d n m false (a, some f) dev h = (f, refl, handed-inv _ _ _ _ h)

-- What a `serve` for a device token hands on is the device that owns the token after tracking.
serve-device :
    (setup : Setup) (o : Outside) (r : Request) (d dev : Device) (token : Text) (n : Option ℕ)
    (a : Agent)
    → (serve setup o r d (some token) a).1 ≡ some (handed_on dev n)
    → (id : Text) × (d' : Device) × Owns setup.lib (at_lookup o r d a).devices token id d'
      × (dev ≡ record d' { last_seen_at = o.later; token_hash = [] })
unfolding serve look_up_again
serve-device setup o r d dev token n a h =
    let (f, e, q) = hand_on-inv _ _ _ _ _ _ _ h in
    let (id, d', owns, p) =
      authenticate-Owns setup.lib o.os_later o.later token (at_lookup o r d a).devices f e in
    (id, d', owns, q ∙ ap {A = Device} (λ x. record x { token_hash = [] }) p)

serve-shared :
    (setup : Setup) (o : Outside) (r : Request) (d dev : Device) (n : Option ℕ) (a : Agent)
    → (serve setup o r d none a).1 ≡ some (handed_on dev n)
    → dev ≡ record d { token_hash = [] }
unfolding serve look_up_again
serve-shared setup o r d dev n a h =
    let (f, e, q) = hand_on-inv _ _ _ _ _ _ _ h in
    q ∙ ap {A = Device} (λ x. record x { token_hash = [] }) (sym (some-inv _ _ e))

served-inv :
    (x : Agent × Option Answer) (dev : Device) (n : Option ℕ)
    → (served x).1 ≡ handed_on dev n
    → x.1 ≡ some (handed_on dev n)
unfolding served
served-inv (a, none) dev n h = absurd (ground (h, arith))
served-inv (a, some answer) dev n h = ap some h

is_legacy-inv :
    (setup : Setup) (bearer : Option Text)
    → is_legacy setup bearer ≡ true
    → (token : Text) × (bearer ≡ some token)
      × (setup.legacy ≢ [])
      × (setup.sha256 token ≡ setup.sha256 setup.legacy)
unfolding is_legacy same_token
is_legacy-inv setup none h = absurd (ground (h, arith))
is_legacy-inv setup (some token) h =
    let (set, rest) = &&-eq-true (not (setup.legacy == [])) _ h in
    let (_, same) = &&-eq-true (not (is_device_token token)) _ rest in
    (token, refl, (λ e. ground (arith, set, (==_iff setup.legacy []).1 e)), (==_iff _ _).0 same)

too_many-apart : (k : ℕ) (dev : Device) (n : Option ℕ) → too_many k ≢ handed_on dev n
too_many-apart k dev n h = ground (h, arith)

unauthorized-apart : (dev : Device) (n : Option ℕ) → unauthorized ≢ handed_on dev n
unauthorized-apart dev n h = ground (h, arith)

require_other-handed_on :
    (setup : Setup) (o : Outside) (r : Request) (bearer : Option Text) (a : Agent) (dev : Device)
    (n : Option ℕ)
    → (require_other setup o r bearer a).1 ≡ handed_on dev n
    → (is_legacy setup bearer ≡ true)
      × (dev ≡ env_device)
      × (is_blocked a.limiter r.key o.now ≡ none)
unfolding require_other
require_other-handed_on setup o r bearer a dev n h =
    elim (Option-cases (is_blocked a.limiter r.key o.now)) [
      | inr (left, e) ↦ absurd (too_many-apart left dev n (rw (e, require_other) at h))
      | inl e ↦
          let h' = rw (e, require_other) at h in
          elim (Bool-cases (is_legacy setup bearer)) [
            | inl l ↦
                (l, serve-shared setup o r env_device dev n a (served-inv _ dev n (rw l at h')), e)
            | inr l ↦ absurd (unauthorized-apart dev n (rw l at h'))
          ]
    ]

-- How `try_device` hands a request on.
try_device-handed_on :
    (setup : Setup) (o : Outside) (r : Request) (token : Text) (x : Devices × Option Device)
    (a : Agent) (dev : Device) (n : Option ℕ)
    → (try_device setup o r token x a).1 ≡ some (handed_on dev n)
    → (f : Device) × (x.1 ≡ some f)
      × (id : Text) × (d' : Device) × Owns setup.lib
          (at_lookup o r f (record a { devices = x.0 })).devices
          token
          id
          d'
      × (dev ≡ record d' { last_seen_at = o.later; token_hash = [] })
unfolding try_device
try_device-handed_on setup o r token (s, none) a dev n h = absurd (ground (h, arith))
try_device-handed_on setup o r token (s, some f) a dev n h =
    let (id, d', owns, q) = serve-device setup o r f dev token n (record a { devices = s }) h in
    (f, refl, id, d', owns, q)

require_device-handed_on :
    (setup : Setup) (o : Outside) (r : Request) (bearer : Option Text) (a : Agent) (dev : Device)
    (n : Option ℕ)
    → bearer_token r ≡ bearer
    → (require_device setup o r bearer a).1 ≡ some (handed_on dev n)
    → IsCaller setup o r a dev
unfolding require_device
require_device-handed_on setup o r none a dev n b h = absurd (ground (h, arith))
require_device-handed_on setup o r (some token) a dev n b h =
    elim (Bool-cases (is_device_token token)) [
      | inr t ↦ absurd (none≢answer _ (rw t at h))
      | inl t ↦
          let (f, e, id', d', owns', q) =
            try_device-handed_on setup o r token _ a dev n (rw t at h) in
          let (id, d, owns, p) = authenticate-Owns setup.lib o.os o.now token a.devices f e in
          by_device token id id' d d' b t owns
            (subst
              (λ g.
                Owns setup.lib
                  (at_lookup o r g (record a {
                    devices = (authenticate setup.lib o.os o.now token a.devices).0;
                  })).devices
                  token id' d')
              p owns')
            q
    ]

or_other-handed_on :
    (setup : Setup) (o : Outside) (r : Request) (a : Agent) (x : Agent × Option Answer)
    (dev : Device) (n : Option ℕ)
    → (x.1 ≡ some (handed_on dev n) → IsCaller setup o r a dev)
    → (or_other setup o r (bearer_token r) x).1 ≡ handed_on dev n
    → IsCaller setup o r a dev
unfolding or_other
or_other-handed_on setup o r a (a', some answer) dev n k h = k (ap some h)
or_other-handed_on setup o r a (a', none) dev n k h =
    let (l, e, free) = require_other-handed_on setup o r (bearer_token r) a' dev n h in
    let (token, b, set, same) = is_legacy-inv setup (bearer_token r) l in
    by_shared_token token b set same e

-- `Require` hands a request on only for a device whose token it has, and which still had it after
-- the request was tracked, whatever other goroutines did in between; or for the shared token. The
-- caller that is passed on never carries the hash of a token.
pub require-IsCaller :
    (setup : Setup) (o : Outside) (r : Request) (a : Agent) (dev : Device) (n : Option ℕ)
    → (require setup o r a).1 ≡ handed_on dev n
    → IsCaller setup o r a dev
unfolding require
require-IsCaller setup o r a dev n h =
    or_other-handed_on setup o r a _ dev n
      (require_device-handed_on setup o r (bearer_token r) a dev n refl) h

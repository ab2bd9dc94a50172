-- ===== src/Conns/Close.antt =====
-- What `CloseDevice` and `CloseAll` promise, after any history of calls.
use docker_mobile.Base.{
  ℕ, ◌^◌, ◌<◌, ◌≡◌, refl, ◌≢◌, ◌⊎◌, inl, inr, true, none, some, List, [], ◌∷◌, arith, Bool-cases,
  Option-cases, Text, length, get_elem?, All, ◌==◌, nat_eq, text_eq, ==_iff, ==_refl, lookup,
  lookup-delete,
}
use docker_mobile.Conns.{
  Registry, open_of, contexts, track, release, close_device, close_all, all_contexts, open_count,
}
use docker_mobile.Conns.History.{
  Handle, System, start, Call, tracks, releases, closes_device, closes_all, step, run,
  release_handle, In, In-append_left, In-append_right, Held,
}
use docker_mobile.Conns.Held.{lookup-contexts, close_all-Held}
use docker_mobile.Conns.Accounts.{history-Accounts, track-closed, All-map}

pub closed-handle :
    (r : Registry) (d : Text) (h : Handle)
    → Held r h
    → In h.ctx (close_device r d).0.ended ⊎ (h.device ≢ d)
unfolding close_device
closed-handle r d h (inl p) = inl (In-append_right h.ctx (contexts (open_of r d)) r.ended p)
closed-handle r d h (inr p) = elim (Bool-cases (h.device == d)) [
  | inl e ↦ inl (
      In-append_left h.ctx (contexts (open_of r d)) r.ended
        (lookup-contexts h.number h.ctx (open_of r d) (rw ((==_iff h.device d).0 e) at p)))
  | inr e ↦ inr (λ same. cc (e, (==_iff h.device d).1 same))
]

closed-handles :
    (r : Registry) (d : Text) (hs : List Handle)
    → All (Held r) hs
    → All (λ h. In h.ctx (close_device r d).0.ended ⊎ (h.device ≢ d)) hs
closed-handles r d [] a = tt
closed-handles r d (h ∷ hs) a = (closed-handle r d h a.0, closed-handles r d hs a.1)

-- `CloseDevice` after any history of fewer than 2^64 calls: every request that was tracked has its
-- context ended or belongs to another device, no request of the device is open any more, the answer
-- is how many were, and every other device keeps the requests that it has open.
pub close_device_ends :
    (cs : List Call) (d j : Text)
    → length cs < 2 ^ 64
    → d ≢ j
    → let s = run start cs in
      let r = close_device s.registry d in
      All (λ h. In h.ctx r.0.ended ⊎ (h.device ≢ d)) s.handles
      × (open_count r.0 d ≡ 0)
      × (r.1 ≡ open_count s.registry d)
      × (open_of r.0 j ≡ open_of s.registry j)
unfolding close_device open_count
close_device_ends cs d j room ne =
    let s = run start cs in
    (
      closed-handles s.registry d s.handles (history-Accounts cs room).held,
      ground (arith, lookup-delete d d s.registry.open_requests, ==_refl d),
      refl,
      ground (arith, lookup-delete d j s.registry.open_requests, ==_iff d j),
    )

-- Later calls forget neither that a context has ended nor that the registry is closed.
pub record Lasts (r t : Registry) : Type 0 where
  pub closed : r.closed ≡ true → t.closed ≡ true
  pub ended : (x : ℕ) → In x r.ended → In x t.ended

track-Lasts : (r : Registry) (d : Text) (ctx : ℕ) → Lasts r (track r d ctx).0
unfolding track
track-Lasts r d ctx = record { closed = ground arith; ended = ground arith }

release-Lasts : (r : Registry) (k : Handle) → Lasts r (release r k.device (some k.number) k.ctx)
unfolding release
release-Lasts r k = elim (Option-cases (lookup k.device r.open_requests)) [
  | inl e ↦ rw (e, release) (record { closed = λ h. h; ended = λ x h. inr h })
  | inr (set, e) ↦ rw (e, release) (record { closed = λ h. h; ended = λ x h. inr h })
]

pub step-Lasts : (s : System) (c : Call) → Lasts s.registry (step s c).registry
unfolding step
step-Lasts s (tracks d ctx) = track-Lasts s.registry d ctx
step-Lasts s (releases i) = elim (Option-cases (get_elem? s.handles i)) [
  | inl e ↦ rw (e, release_handle) (record { closed = λ h. h; ended = λ x h. h })
  | inr (k, e) ↦ rw (e, release_handle) (release-Lasts s.registry k)
]
step-Lasts s (closes_device d) =
    unfold close_device in
    record {
      closed = λ h. h;
      ended = λ x h. In-append_right x (contexts (open_of s.registry d)) s.registry.ended h;
    }
step-Lasts s closes_all =
    unfold close_all in
    record {
      closed = λ h. refl;
      ended = λ x h. In-append_right x (all_contexts s.registry.open_requests) s.registry.ended h;
    }

run-Lasts : (s : System) (cs : List Call) → Lasts s.registry (run s cs).registry
unfolding run
run-Lasts s [] = record { closed = λ h. h; ended = λ x h. h }
run-Lasts s (c ∷ cs) =
    let one = step-Lasts s c in
    let more = run-Lasts (step s c) cs in
    record { closed = λ h. more.closed (one.closed h); ended = λ x h. more.ended x (one.ended x h) }

closed_now : (s : System) → (step s closes_all).registry.closed ≡ true
unfolding step close_all
closed_now s = refl

ended_now :
    (s : System) (h : Handle) → Held s.registry h → In h.ctx (step s closes_all).registry.ended
unfolding step
ended_now s h p = close_all-Held s.registry h p

-- `CloseAll` after any history of fewer than 2^64 calls, and whatever calls follow: the context of
-- every request that was tracked before has ended, and a request that is tracked afterwards has its
-- context ended at once and gets no number.
pub shutdown_ends :
    (cs later : List Call) (d : Text) (ctx : ℕ)
    → length cs < 2 ^ 64
    → let s = run start cs in
      let t = run (step s closes_all) later in
      All (λ h. In h.ctx t.registry.ended) s.handles
      × In ctx (track t.registry d ctx).0.ended
      × ((track t.registry d ctx).1 ≡ none)
shutdown_ends cs later d ctx room =
    let s = run start cs in
    let more = run-Lasts (step s closes_all) later in
    let t =
      track-closed (run (step s closes_all) later).registry d ctx (more.closed (closed_now s)) in
    (
      All-map (Held s.registry) (λ h. In h.ctx (run (step s closes_all) later).registry.ended)
          s.handles (λ h p. more.ended h.ctx (ended_now s h p)) (history-Accounts cs room).held,
      rw t (inl refl),
      rw t refl,
    )

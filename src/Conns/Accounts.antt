-- ===== src/Conns/Accounts.antt =====
-- No open request is forgotten, over any history of calls.
use docker_mobile.Base.{
  ℕ, ◌+◌, ◌-◌, ◌^◌, ◌≤◌, ◌<◌, ◌≡◌, refl, ap, inl, inr, true, false, none, some, List, [], ◌∷◌,
  arith, Bool-cases, Option-cases, Text, length, get_elem?, All, nat_eq, text_eq, ==_refl, lookup,
  insert, lookup-insert,
}
use docker_mobile.Conns.{Registry, open_of, track, release, close_device, close_all, next_number}
use docker_mobile.Conns.History.{
  Handle, System, start, Call, tracks, releases, closes_device, closes_all, step, run, note_handle,
  release_handle, Held, Below, Accounts,
}
use docker_mobile.Conns.Held.{
  open-insert, Below-le, SameContext, get-SameContext, track-Held, release-Held, close_device-Held,
  close_all-Held,
}

-- The same for all handles at once.
pub All-map {κ κ'} :
    (P : Handle → Type κ) (Q : Handle → Type κ') (hs : List Handle)
    → ((h : Handle) → P h → Q h)
    → All P hs
    → All Q hs
All-map P Q [] f a = tt
All-map P Q (h ∷ hs) f a = (f h a.0, All-map P Q hs f a.1)

All-map₂ {κ κ' κ''} :
    (P : Handle → Type κ) (P' : Handle → Type κ') (Q : Handle → Type κ'') (hs : List Handle)
    → ((h : Handle) → P h → P' h → Q h)
    → All P hs
    → All P' hs
    → All Q hs
All-map₂ P P' Q [] f a b = tt
All-map₂ P P' Q (h ∷ hs) f a b = (f h a.0 b.0, All-map₂ P P' Q hs f a.1 b.1)

Below-mono : (n k : ℕ) (hs : List Handle) → k ≤ n → Below k hs → Below n hs
Below-mono n k [] le b = tt
Below-mono n k (h ∷ hs) le b = (omega arith, b.1, b.2)

release-next :
    (r : Registry) (k : Handle) → (release r k.device (some k.number) k.ctx).next ≡ r.next
unfolding release
release-next r k = ground arith

close_device-next : (r : Registry) (d : Text) → (close_device r d).0.next ≡ r.next
unfolding close_device
close_device-next r d = refl

close_all-next : (r : Registry) → (close_all r).next ≡ r.next
unfolding close_all
close_all-next r = refl

pub step-next :
    (s : System) (c : Call)
    → s.registry.next + 1 < 2 ^ 64
    → (step s c).registry.next ≤ s.registry.next + 1
unfolding step
step-next s (tracks d ctx) room = unfold track in ground arith
step-next s (releases i) room = elim (Option-cases (get_elem? s.handles i)) [
  | inl e ↦ rw (e, release_handle) (omega arith)
  | inr (k, e) ↦ rw (e, release_handle) (omega (arith, release-next s.registry k))
]
step-next s (closes_device d) room = omega (arith, close_device-next s.registry d)
step-next s closes_all room = omega (arith, close_all-next s.registry)

pub track-closed :
    (r : Registry) (d : Text) (ctx : ℕ)
    → r.closed ≡ true
    → track r d ctx ≡ (record r { ended = ctx ∷ r.ended }, none)
unfolding track
track-closed r d ctx e = rw e

track-open :
    (r : Registry) (d : Text) (ctx : ℕ)
    → r.closed ≡ false
    → r.next + 1 < 2 ^ 64
    → ((track r d ctx).1 ≡ some (r.next + 1))
      × ((track r d ctx).0.next ≡ r.next + 1)
      × (lookup (r.next + 1) (open_of (track r d ctx).0 d) ≡ some ctx)
unfolding track
track-open r d ctx e room =
    let n : next_number r ≡ r.next + 1 = omega arith in
    rw (e, n)
      (
        refl,
        refl,
        ground (
          arith,
          open-insert d d (r.next + 1) (insert (r.next + 1) ctx (open_of r d)) r.open_requests,
          lookup-insert (r.next + 1) (r.next + 1) ctx (open_of r d),
          ==_refl d,
        ),
      )

track-Accounts :
    (s : System) (d : Text) (ctx : ℕ)
    → s.registry.next + 1 < 2 ^ 64
    → Accounts s
    → Accounts (step s (tracks d ctx))
unfolding step
track-Accounts s d ctx room a =
    let r' = (track s.registry d ctx).0 in
    let old =
      All-map₂ (λ h. h.number ≤ s.registry.next) (Held s.registry) (Held r') s.handles
        (λ h le p. track-Held s.registry d ctx h le room p)
        (Below-le s.registry.next s.registry.next s.handles (omega arith) a.numbers) a.held in
    elim (Bool-cases s.registry.closed) [
      | inl e ↦
          let t = track-closed s.registry d ctx e in
          rw (ap (λ x. x.1) t, note_handle)
            (record { held = old; numbers = rw (ap (λ x. x.0.next) t) a.numbers })
      | inr e ↦
          let t = track-open s.registry d ctx e room in
          rw (t.0, note_handle)
            (record {
              held = (inr t.2, old);
              numbers = (
                omega (arith, t.1),
                omega arith,
                Below-mono (s.registry.next + 1 - 1) s.registry.next s.handles (omega arith)
                    a.numbers,
              );
            })
    ]

pub step-Accounts :
    (s : System) (c : Call) → s.registry.next + 1 < 2 ^ 64 → Accounts s → Accounts (step s c)
unfolding step
step-Accounts s (tracks d ctx) room a = track-Accounts s d ctx room a
step-Accounts s (releases i) room a = elim (Option-cases (get_elem? s.handles i)) [
  | inl e ↦ rw (e, release_handle) a
  | inr (k, e) ↦
      rw (e, release_handle)
        (record {
          held =
              All-map₂ (SameContext k) (Held s.registry)
                (Held (release s.registry k.device (some k.number) k.ctx)) s.handles
                (release-Held s.registry k)
                (get-SameContext s.registry.next i k s.handles e a.numbers) a.held;
          numbers = rw (release-next s.registry k) a.numbers;
        })
]
step-Accounts s (closes_device d) room a = record {
  held =
      All-map (Held s.registry) (Held (close_device s.registry d).0) s.handles
        (close_device-Held s.registry d) a.held;
  numbers = rw (close_device-next s.registry d) a.numbers;
}
step-Accounts s closes_all room a = record {
  held =
      All-map (Held s.registry) (Held (close_all s.registry)) s.handles
        (λ h p. inl (close_all-Held s.registry h p)) a.held;
  numbers = rw (close_all-next s.registry) a.numbers;
}

pub run-Accounts :
    (s : System) (cs : List Call)
    → s.registry.next + length cs < 2 ^ 64
    → Accounts s
    → Accounts (run s cs)
unfolding run
run-Accounts s [] room a = a
run-Accounts s (c ∷ cs) room a =
    run-Accounts (step s c) cs (omega (arith, step-next s c (omega arith), room))
      (step-Accounts s c (omega arith) a)

-- After fewer than 2^64 calls, in any order, each request that was ever tracked is accounted for:
-- its context has ended, or the registry still holds it open under its device and number.
pub history-Accounts : (cs : List Call) → length cs < 2 ^ 64 → Accounts (run start cs)
history-Accounts cs room =
    run-Accounts start cs (omega (arith, room)) (record { held = tt; numbers = tt })

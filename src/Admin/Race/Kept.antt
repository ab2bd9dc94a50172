-- ===== src/Admin/Race/Kept.antt =====
-- What a tracked request, and the removal of its device, leave behind.
use docker_mobile.Base.{
  ℕ, suc, ◌+◌, ◌^◌, ◌<◌, ◌≡◌, refl, sym, ap, ◌∙◌, subst, ◌⊎◌, inl, inr, Option, none, some, List,
  [], ◌∷◌, arith, Text, All, ◌==◌, nat_eq, text_eq, ==_iff, lookup, lookup-insert, none≢some,
  some-inv, split_if,
}
use docker_mobile.Conns.{Registry, track}
use docker_mobile.Conns.History
use docker_mobile.Conns.History.{
  Handle, System, Call, tracks, releases, closes_device, closes_all, note_handle, In,
  In-append_left, In-append_right, Held, Accounts,
}
use docker_mobile.Conns.Accounts.{step-next, step-Accounts}
use docker_mobile.Conns.Close.{closed-handle, step-Lasts}
use docker_mobile.State.Tokens.{token_id}
use docker_mobile.State.Devices.{Device, Devices, Library}
use docker_mobile.State.Devices.Access.{Answers, let_in, kept_out}

-- The handle is in the list.
Member : Handle → List Handle → Type 0
Member h [] = ⊥
Member h (k ∷ hs) = (h ≡ k) ⊎ Member h hs

Member-Held :
    (c : Registry) (h : Handle) (hs : List Handle) → Member h hs → All (Held c) hs → Held c h
unfolding Member
Member-Held c h [] m a = elim m [ ]
Member-Held c h (k ∷ hs) (inl e) a = subst (Held c) (sym e) a.0
Member-Held c h (k ∷ hs) (inr m) a = Member-Held c h hs m a.1

note_handle-Member :
    (h : Handle) (hs : List Handle) (device : Text) (ctx : ℕ) (n : Option ℕ)
    → Member h hs
    → Member h (note_handle hs device ctx n)
unfolding Member note_handle
note_handle-Member h hs device ctx none m = m
note_handle-Member h hs device ctx (some n) m = inr m

step-Member :
    (h : Handle) (y : System) (c : Call) → Member h y.handles → Member h (History.step y c).handles
step-Member h y (tracks device ctx) m =
    unfold History.step in note_handle-Member h y.handles device ctx _ m
step-Member h y (releases i) m = unfold History.step in m
step-Member h y (closes_device device) m = unfold History.step in m
step-Member h y closes_all m = unfold History.step in m

-- The context `ctx` of a request of `device` has ended, or the registry knows the request.
pub Kept : Text → ℕ → System → Type 0
Kept device ctx y =
    In ctx y.registry.ended
    ⊎ ((n : ℕ) × Member (record { device = device; number = n; ctx = ctx }) y.handles)

pub step-Kept :
    (device : Text) (ctx : ℕ) (y : System) (c : Call)
    → Kept device ctx y
    → Kept device ctx (History.step y c)
unfolding Kept
step-Kept device ctx y c (inl p) = inl ((step-Lasts y c).ended ctx p)
step-Kept device ctx y c (inr (n, m)) = inr (n, step-Member _ y c m)

pub track-Kept :
    (device : Text) (ctx : ℕ) (y : System) → Kept device ctx (History.step y (tracks device ctx))
unfolding Kept
track-Kept device ctx y =
    unfold track note_handle Member History.step in
    split_if
      (λ (x : Registry × Option ℕ).
        Kept device ctx (record { registry = x.0; handles = note_handle y.handles device ctx x.1 }))
      y.registry.closed _ _ (λ e. inl (inl refl)) (λ e. inr (_, inl refl))

-- Closing the device ends the request.
pub close-ends :
    (device : Text) (ctx : ℕ) (y : System)
    → Accounts y
    → Kept device ctx y
    → In ctx (History.step y (closes_device device)).registry.ended
unfolding Kept
close-ends device ctx y a (inl p) = (step-Lasts y (closes_device device)).ended ctx p
close-ends device ctx y a (inr (n, m)) =
    let h : Handle = record { device = device; number = n; ctx = ctx } in
    elim (closed-handle y.registry device h (Member-Held y.registry h y.handles m a.held)) [
      | inl p ↦ unfold History.step in p
      | inr other ↦ absurd (other refl)
    ]

unfoldable pub Absent : Text → Devices → Type 0
Absent id s = lookup id s.by_id ≡ none

pub Answers-Absent :
    {lib : Library} {now : ℕ} {other : Text} {s : Devices} {x : Devices × Option Device} (id : Text)
    → Answers lib now other s x
    → Absent id s
    → Absent id x.0
unfolding Absent
Answers-Absent {s = s} {x = x} id (let_in j e owns q b) h =
    ap (lookup id) b
    ∙ lookup-insert j id _ s.by_id
    ∙ split_if (λ y. y ≡ none) (j == id) (some _) (lookup id s.by_id)
        (λ t. absurd (
          none≢some e (sym h ∙ ap (λ k. lookup k s.by_id) (sym ((==_iff j id).0 t)) ∙ owns.stored)))
        (λ t. h)
Answers-Absent id (kept_out k e) h = ap (λ x. lookup id x.0.by_id) e ∙ h

pub Answers-refused :
    {lib : Library} {now : ℕ} {token : Text} {s : Devices} {x : Devices × Option Device} (id : Text)
    → Answers lib now token s x
    → token_id token ≡ some id
    → Absent id s
    → x.1 ≡ none
unfolding Absent
Answers-refused {s = s} id (let_in j e owns q b) t h = absurd (
    none≢some e
      (sym h ∙ ap (λ k. lookup k s.by_id) (some-inv _ _ (sym t ∙ owns.named)) ∙ owns.stored))
Answers-refused id (kept_out k e) t h = ap (λ x. x.1) e

-- The accounts of the registry, with room for `k` more requests.
unfoldable pub Room : ℕ → System → Type 0
Room k y = Accounts y × (y.registry.next + k < 2 ^ 64)

pub step-Room : (k : ℕ) (y : System) (c : Call) → Room (suc k) y → Room k (History.step y c)
unfolding Room
step-Room k y c (a, h) =
    (step-Accounts y c (omega (h, arith)) a, omega (step-next y c (omega (h, arith)), h, arith))

pub less-Room : (k : ℕ) (y : System) → Room (suc k) y → Room k y
unfolding Room
less-Room k y (a, h) = (a, omega (h, arith))

-- ===== src/Conns/Held.antt =====
-- What each operation does for one handle: it stays accounted for, or its context ends.
use docker_mobile.Base.{
  ℕ, zero, suc, ◌+◌, ◌-◌, ◌^◌, ◌≤◌, ◌<◌, ◌≡◌, refl, ◌∙◌, subst, ◌⊎◌, inl, inr, none, some, List, [],
  ◌∷◌, arith, if◌then◌else◌, Bool-cases, Option-cases, Text, get_elem?, All, ◌==◌, nat_eq, text_eq,
  ==_iff, lookup, insert, delete, lookup-insert, lookup-delete,
}
use docker_mobile.Conns.{
  Registry, Requests, requests_of, open_of, contexts, track, release, store_requests, close_device,
  close_all, all_contexts, next_number,
}
use docker_mobile.Conns.History.{Handle, In, In-append_left, In-append_right, Held, Below}

abbrev Open : Type 0
Open = List (Text × Requests)

pub open-insert :
    (d j : Text) (n : ℕ) (set : Requests) (m : Open)
    → lookup n (requests_of (lookup j (insert d set m)))
      ≡ (if d == j then lookup n set else lookup n (requests_of (lookup j m)))
open-insert d j n set m = ground (arith, lookup-insert d j set m)

pub open-delete :
    (d j : Text) (n : ℕ) (m : Open)
    → lookup n (requests_of (lookup j (delete d m)))
      ≡ (if d == j then none else lookup n (requests_of (lookup j m)))
unfolding lookup
open-delete d j n m = ground (arith, lookup-delete d j m)

open-store_requests :
    (d j : Text) (n : ℕ) (set : Requests) (m : Open)
    → lookup n (requests_of (lookup j (store_requests d set m)))
      ≡ (if d == j then lookup n set else lookup n (requests_of (lookup j m)))
unfolding store_requests lookup
open-store_requests d j n [] m = open-delete d j n m
open-store_requests d j n (e ∷ set) m = open-insert d j n (e ∷ set) m

pub lookup-contexts : (n ctx : ℕ) (set : Requests) → lookup n set ≡ some ctx → In ctx (contexts set)
unfolding lookup
lookup-contexts n ctx [] h = cc
lookup-contexts n ctx ((k, c) ∷ set) h = elim (Bool-cases (k == n)) [
  | inl e ↦ inl (ground arith)
  | inr e ↦ inr (lookup-contexts n ctx set (rw e at h))
]

pub lookup-all_contexts :
    (d : Text) (n ctx : ℕ) (m : Open)
    → lookup n (requests_of (lookup d m)) ≡ some ctx
    → In ctx (all_contexts m)
unfolding lookup all_contexts
lookup-all_contexts d n ctx [] h = cc
lookup-all_contexts d n ctx ((j, set) ∷ m) h = elim (Bool-cases (j == d)) [
  | inl e ↦ In-append_left ctx (contexts set) _ (lookup-contexts n ctx set (rw e at h))
  | inr e ↦ In-append_right ctx (contexts set) _ (lookup-all_contexts d n ctx m (rw e at h))
]

pub Below-le : (n k : ℕ) (hs : List Handle) → k ≤ n → Below k hs → All (λ h. h.number ≤ n) hs
Below-le n k [] le b = tt
Below-le n k (h ∷ hs) le b = (omega arith, Below-le n (h.number - 1) hs (omega arith) b.2)

abbrev pub SameContext : Handle → Handle → Type 0
SameContext k h = h.number ≡ k.number → h.ctx ≡ k.ctx

-- No two handles have the same number.
pub SameContext-above :
    (k : Handle) (hs : List Handle)
    → 0 < k.number
    → All (λ h. h.number ≤ k.number - 1) hs
    → All (SameContext k) hs
SameContext-above k [] p a = tt
SameContext-above k (h ∷ hs) p a = (λ e. absurd (omega arith), SameContext-above k hs p a.1)

pub get-le :
    (n i : ℕ) (k : Handle) (hs : List Handle)
    → get_elem? hs i ≡ some k
    → All (λ h. h.number ≤ n) hs
    → k.number ≤ n
get-le n i k [] e a = cc
get-le n zero k (h ∷ hs) e a = ground arith
get-le n (suc i) k (h ∷ hs) e a = get-le n i k hs e a.1

pub get-SameContext :
    (n i : ℕ) (k : Handle) (hs : List Handle)
    → get_elem? hs i ≡ some k
    → Below n hs
    → All (SameContext k) hs
get-SameContext n i k [] e b = tt
get-SameContext n zero k (h ∷ hs) e b =
    let a = Below-le (h.number - 1) (h.number - 1) hs (omega arith) b.2 in
    let same : h ≡ k = cc in
    subst (λ x. All (SameContext x) (h ∷ hs)) same (λ _. refl, SameContext-above h hs b.1 a)
get-SameContext n (suc i) k (h ∷ hs) e b =
    let a =
      get-le (h.number - 1) i k hs e
        (Below-le (h.number - 1) (h.number - 1) hs (omega arith) b.2) in
    (λ same. absurd (omega (arith, a, same, b.1)), get-SameContext (h.number - 1) i k hs e b.2)

-- Each operation, for one handle that was there before it.
pub track-Held :
    (r : Registry) (d : Text) (ctx : ℕ) (h : Handle)
    → h.number ≤ r.next
    → r.next + 1 < 2 ^ 64
    → Held r h
    → Held (track r d ctx).0 h
unfolding track
track-Held r d ctx h le room held = ground (
  arith,
  held,
  open-insert d h.device h.number (insert (next_number r) ctx (open_of r d)) r.open_requests,
  lookup-insert (next_number r) h.number ctx (open_of r d),
  ==_iff d h.device,
)

pub release-Held :
    (r : Registry) (k h : Handle)
    → SameContext k h
    → Held r h
    → Held (release r k.device (some k.number) k.ctx) h
unfolding release
release-Held r k h same (inl p) = elim (Option-cases (lookup k.device r.open_requests)) [
  | inl e ↦ rw (e, release) (inl (inr p))
  | inr (set, e) ↦ rw (e, release) (inl (inr p))
]
release-Held r k h same (inr p) = elim (Option-cases (lookup k.device r.open_requests)) [
  | inl e ↦ rw (e, release) (inr p)
  | inr (set, e) ↦ rw (e, release) (go set e)
]
  where
    go :
        (set : Requests)
        → lookup k.device r.open_requests ≡ some set
        → In h.ctx (k.ctx ∷ r.ended)
          ⊎ (lookup h.number (
                requests_of
                  (lookup h.device (store_requests k.device (delete k.number set) r.open_requests)))
              ≡ some h.ctx)
    go set e = ground (
      arith,
      p,
      same,
      open-store_requests k.device h.device h.number (delete k.number set) r.open_requests,
      lookup-delete k.number h.number set,
      ==_iff k.device h.device,
    )

pub close_device-Held :
    (r : Registry) (d : Text) (h : Handle) → Held r h → Held (close_device r d).0 h
unfolding close_device
close_device-Held r d h (inl p) = inl (In-append_right h.ctx (contexts (open_of r d)) r.ended p)
close_device-Held r d h (inr p) = elim (Bool-cases (d == h.device)) [
  | inl e ↦ inl (
      In-append_left h.ctx (contexts (open_of r d)) r.ended
        (lookup-contexts h.number h.ctx (open_of r d) (rw ((==_iff d h.device).0 e) p)))
  | inr e ↦ inr (open-delete d h.device h.number r.open_requests ∙ rw e p)
]

pub close_all-Held : (r : Registry) (h : Handle) → Held r h → In h.ctx (close_all r).ended
unfolding close_all
close_all-Held r h (inl e) = In-append_right h.ctx (all_contexts r.open_requests) r.ended e
close_all-Held r h (inr e) =
    In-append_left h.ctx (all_contexts r.open_requests) r.ended
      (lookup-all_contexts h.device h.number h.ctx r.open_requests e)

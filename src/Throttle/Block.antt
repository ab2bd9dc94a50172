-- ===== src/Throttle/Block.antt =====
-- What one `Fail` does to the block of its own address and to the other addresses.
use docker_mobile.Base.{
  ℕ, ◌+◌, ◌-◌, ◌<◌, min, max, ◌≡◌, ap, ◌∙◌, ◌≢◌, inl, inr, Option, none, some, List, [], ◌∷◌, ◌++◌,
  arith, ltb, leb, if◌then◌else◌, Option-cases, Text, length, length-append, ◌*◌, ◌^◌, ◌≤◌, refl,
  sym, Bool-cases, leb→le, All, length-drop, nat_eq, text_eq, ==_iff, ==_refl, lookup,
  lookup-insert,
}
use docker_mobile.Throttle.Penalty.{penalty_closed}
use docker_mobile.Throttle.{
  Entry, new_entry, Limiter, blocked, recent, cap_failures, penalise, fail_entry, fail_in, fail,
  make_room, penalty, window, base_penalty, max_penalty, threshold, max_failures, max_addresses,
}

-- The failure times and the block's end of an address, also of one that is not in the table.
abbrev pub failures_of : Option Entry → List ℕ
failures_of none = []
failures_of (some e) = e.failures

abbrev pub until_of : Option Entry → ℕ
until_of none = 0
until_of (some e) = e.blocked_until

-- The failures that count at `now`, the one that is being recorded included.
abbrev counted : Option Entry → ℕ → ℕ
counted o now = min max_failures (length (recent (failures_of o) now) + 1)

-- The block's end that so many failures are worth at `now`, by the code.
abbrev pub granted : ℕ → ℕ → ℕ
granted n now = if leb threshold n then now + penalty n else 0

-- The same, written out: doubled for each failure beyond the threshold, up to the longest block.
abbrev pub earned : ℕ → ℕ → ℕ
earned n now =
    if leb threshold n then now + min max_penalty (base_penalty * 2 ^ (n - threshold)) else 0

granted-earned : (n now : ℕ) → granted n now ≡ earned n now
granted-earned n now = elim (Bool-cases (leb threshold n)) [
  | inr e ↦ rw e refl
  | inl e ↦
      let split : threshold + (n - threshold) ≡ n = omega (leb→le threshold n e, arith) in
      let same : penalty n ≡ min max_penalty (base_penalty * 2 ^ (n - threshold)) =
        ap penalty (sym split) ∙ penalty_closed (n - threshold) in
      rw e (ap (λ p. now + p) same)
]

-- What `Blocked` answers at `t` for a block that ends at `until`.
abbrev pub remaining : ℕ → ℕ → Option ℕ
remaining until t = if ltb t until then some (until - t) else none

pub length-cap_failures : (fs : List ℕ) → length (cap_failures fs) ≡ min max_failures (length fs)
unfolding cap_failures
length-cap_failures fs = omega (arith, length-drop {0} (length fs - max_failures) fs)

pub penalise-until :
    (e : Entry) (now : ℕ)
    → (penalise e now).blocked_until ≡ max e.blocked_until (granted (length e.failures) now)
unfolding penalise
penalise-until e now = ground arith

fail_entry-until :
    (e : Entry) (now : ℕ)
    → (fail_entry e now).blocked_until ≡ max e.blocked_until (granted (counted (some e) now) now)
unfolding fail_entry
fail_entry-until e now =
    let fs = recent e.failures now ++ now ∷ [] in
    penalise-until (record e { failures = cap_failures fs }) now
    ∙ ap (λ n. max e.blocked_until (granted n now))
        (length-cap_failures fs
          ∙ ap (min max_failures) (length-append (recent e.failures now) (now ∷ [])))

lookup-fail_self :
    (l : Limiter) (key : Text) (now : ℕ)
    → until_of (lookup key (fail l key now).addrs)
      ≡ max (until_of (lookup key l.addrs)) (granted (counted (lookup key l.addrs) now) now)
unfolding fail fail_in
lookup-fail_self l key now = elim (Option-cases (lookup key l.addrs)) [
  | inl e ↦
      rw (e, fail_in, lookup-insert key key (fail_entry new_entry now), ==_refl key)
        (fail_entry-until new_entry now)
  | inr (x, e) ↦
      rw (e, fail_in, lookup-insert key key (fail_entry x now), ==_refl key)
        (fail_entry-until x now)
]

blocked-remaining :
    (l : Limiter) (key : Text) (t : ℕ)
    → blocked l key t ≡ remaining (until_of (lookup key l.addrs)) t
unfolding blocked
blocked-remaining l key t = ground arith

blocked-granted :
    (l : Limiter) (key : Text) (now t : ℕ)
    → blocked (fail l key now) key t
      ≡ remaining
          (max (until_of (lookup key l.addrs)) (granted (counted (lookup key l.addrs) now) now))
          t
blocked-granted l key now t =
    blocked-remaining (fail l key now) key t
    ∙ ap (λ until. remaining until t) (lookup-fail_self l key now)

-- A failure that has left the window, and one that is in it.
abbrev pub Outdated : ℕ → ℕ → Type 0
Outdated now f = f + window ≤ now

abbrev pub InWindow : ℕ → ℕ → Type 0
InWindow now f = now < f + window

recent-fresh : (fresh : List ℕ) (now : ℕ) → All (InWindow now) fresh → recent fresh now ≡ fresh
unfolding recent
recent-fresh [] now h = refl
recent-fresh (f ∷ fs) now h = ground (arith, h.0)

recent-split :
    (old fresh : List ℕ) (now : ℕ)
    → All (Outdated now) old
    → All (InWindow now) fresh
    → recent (old ++ fresh) now ≡ fresh
unfolding recent
recent-split [] fresh now o h = recent-fresh fresh now h
recent-split (f ∷ fs) fresh now o h = ground (arith, o.0, recent-split fs fresh now o.1 h)

-- After a failure at `now` the address is blocked, at any time `t`, until the later of the end of
-- its old block and the end of the block that its failures in the window, this one included and 14
-- at most, are worth: none below the threshold, and from it on the shortest block, doubled for each
-- further failure up to the longest. The failures of the address are those that have left the window
-- by `now`, and behind them those that are in it. So a failure never cuts a block short.
pub fail-blocked :
    (l : Limiter) (key : Text) (now t : ℕ) (old fresh : List ℕ)
    → failures_of (lookup key l.addrs) ≡ old ++ fresh
    → All (Outdated now) old
    → All (InWindow now) fresh
    → blocked (fail l key now) key t
      ≡ remaining
          (max (until_of (lookup key l.addrs)) (earned (min max_failures (length fresh + 1)) now))
          t
fail-blocked l key now t old fresh e o h =
    let split = ap (λ fs. recent fs now) e ∙ recent-split old fresh now o h in
    let u = until_of (lookup key l.addrs) in
    blocked-granted l key now t
    ∙ ap (λ fs. remaining (max u (granted (min max_failures (length fs + 1)) now)) t) split
    ∙ ap (λ g. remaining (max u g) t) (granted-earned (min max_failures (length fresh + 1)) now)

-- While the table has room, a failure leaves every other address as it was.
pub fail_other :
    (l : Limiter) (key other : Text) (now : ℕ)
    → length l.addrs < max_addresses
    → key ≢ other
    → lookup other (fail l key now).addrs ≡ lookup other l.addrs
unfolding fail fail_in make_room
fail_other l key other now room ne = elim (Option-cases (lookup key l.addrs)) [
  | inl e ↦
      rw (e, fail_in)
        (ground
          (arith, lookup-insert key other (fail_entry new_entry now) l.addrs, ==_iff key other))
  | inr (x, e) ↦
      rw (e, fail_in)
        (ground (arith, lookup-insert key other (fail_entry x now) l.addrs, ==_iff key other))
]

-- ===== src/Throttle/Uncapped.antt =====
-- Keeping only the newest `max_failures` times changes no block: the entry of an address against
-- one that forgets nothing but what has left the window.
use docker_mobile.Base.{
  ℕ, suc, ◌-◌, ◌≤◌, ◌<◌, min, max, ◌≡◌, refl, sym, ap, ◌∙◌, inl, inr, false, List, [], ◌∷◌, ◌++◌,
  arith, leb, leb→le, Bool-cases, length, drop, length-append, nat_eq, text_eq,
}
use docker_mobile.Throttle.{
  Entry, new_entry, recent, cap_failures, penalise, fail_entry, window, max_failures,
}
use docker_mobile.Throttle.Penalty.{penalty_capped}
use docker_mobile.Throttle.Block.{granted, penalise-until, length-cap_failures}
use mathlib.Core.Path.{ap₂}

-- `Fail` without the cap.
abbrev pub fail_uncapped : Entry → ℕ → Entry
fail_uncapped e now = penalise (record e { failures = recent e.failures now ++ now ∷ [] }) now

abbrev pub run_capped : Entry → List ℕ → Entry
run_capped e [] = e
run_capped e (t ∷ ts) = run_capped (fail_entry e t) ts

abbrev pub run_uncapped : Entry → List ℕ → Entry
run_uncapped e [] = e
run_uncapped e (t ∷ ts) = run_uncapped (fail_uncapped e t) ts

-- The times do not fall, and none is before `t`.
abbrev pub From : ℕ → List ℕ → Type 0
From t [] = Unit
From t (u ∷ us) = (t ≤ u) × From u us

-- The newest `n` of a list.
abbrev newest : ℕ → List ℕ → List ℕ
newest n xs = drop (length xs - n) xs

newest_all : (n : ℕ) (xs : List ℕ) → length xs ≤ n → newest n xs ≡ xs
newest_all n xs h = rw (none_over (length xs) n h)
  where
    none_over : (a b : ℕ) → a ≤ b → a - b ≡ 0
    none_over a b k = omega arith

newest_cons : (n x : ℕ) (xs : List ℕ) → n ≤ length xs → newest n (x ∷ xs) ≡ newest n xs
newest_cons n x xs h = rw (one_over (length xs) n h)
  where
    one_over : (a b : ℕ) → b ≤ a → suc a - b ≡ suc (a - b)
    one_over a b k = omega arith

recent_all : (x now : ℕ) (xs : List ℕ) → now - x < window → From x xs → recent xs now ≡ xs
unfolding recent
recent_all x now [] h f = refl
recent_all x now (y ∷ ys) h f = ground arith

length-recent-le : (now : ℕ) (xs : List ℕ) → length (recent xs now) ≤ length xs
unfolding recent
length-recent-le now [] = omega arith
length-recent-le now (x ∷ xs) = ground (arith, length-recent-le now xs)

-- Ascending, and none after `t`.
abbrev Ascending : List ℕ → ℕ → Type 0
Ascending [] t = Unit
Ascending (x ∷ xs) t = From x xs × (x ≤ t) × Ascending xs t

recent-newest :
    (n now t : ℕ) (xs : List ℕ)
    → Ascending xs t
    → recent (newest n xs) now ≡ newest n (recent xs now)
unfolding recent
recent-newest n now t [] a = rw (newest_all n [] (omega arith))
recent-newest n now t (x ∷ xs) a = elim (Bool-cases (leb (suc (length xs)) n)) [
  | inl e ↦ rw (newest_all n (x ∷ xs) (leb→le _ _ e)) (
      sym (
        newest_all n (recent (x ∷ xs) now)
          (omega (arith, length-recent-le now (x ∷ xs), leb→le _ _ e))))
  | inr e ↦ rw (newest_cons n x xs (over e)) (elim (Bool-cases (leb window (now - x))) [
    | inl old ↦ rw old (recent-newest n now t xs a.2)
    | inr young ↦
        rw (young, newest_cons n x xs (over e), recent-newest n now t xs a.2)
          (ap (newest n) (recent_all x now xs (inside young) a.0))
  ])
]
  where
    over : leb (suc (length xs)) n ≡ false → n ≤ length xs
    over e = ground arith

    inside : leb window (now - x) ≡ false → now - x < window
    inside e = ground arith

newest-append : (n : ℕ) (xs ys : List ℕ) → newest n (newest n xs ++ ys) ≡ newest n (xs ++ ys)
newest-append n [] ys = rw (newest_all n [] (omega arith))
newest-append n (x ∷ xs) ys = elim (Bool-cases (leb (suc (length xs)) n)) [
  | inl e ↦ rw (newest_all n (x ∷ xs) (leb→le _ _ e))
  | inr e ↦
      rw (newest_cons n x xs (over e), newest_cons n x (xs ++ ys) (over_both e))
        (newest-append n xs ys)
]
  where
    over : leb (suc (length xs)) n ≡ false → n ≤ length xs
    over e = ground arith

    over_both : leb (suc (length xs)) n ≡ false → n ≤ length (xs ++ ys)
    over_both e = omega (arith, over e, length-append xs ys)

From-append :
    (t now : ℕ) (xs : List ℕ) → From t xs → t ≤ now → Ascending xs now → From t (xs ++ now ∷ [])
From-append t now [] f h a = (h, tt)
From-append t now (x ∷ xs) f h a = (f.0, From-append x now xs f.1 a.1 a.2)

Ascending-append : (now : ℕ) (xs : List ℕ) → Ascending xs now → Ascending (xs ++ now ∷ []) now
Ascending-append now [] a = (tt, omega arith, tt)
Ascending-append now (x ∷ xs) a =
    (From-append x now xs a.0 a.1 a.2, a.1, Ascending-append now xs a.2)

Ascending-later : (t u : ℕ) (xs : List ℕ) → t ≤ u → Ascending xs t → Ascending xs u
Ascending-later t u [] h a = tt
Ascending-later t u (x ∷ xs) h a = (a.0, omega arith, Ascending-later t u xs h a.2)

Ascending-recent : (t now : ℕ) (xs : List ℕ) → Ascending xs t → Ascending (recent xs now) t
unfolding recent
Ascending-recent t now [] a = tt
Ascending-recent t now (x ∷ xs) a = ground (arith, Ascending-recent t now xs)

-- The capped entry holds the newest times of the uncapped one, and the same block.
record Agrees (full capped : Entry) (t : ℕ) : Type 0 where
  newest_times : capped.failures ≡ newest max_failures full.failures
  same_block : capped.blocked_until ≡ full.blocked_until
  ascending : Ascending full.failures t

earned_capped : (n now : ℕ) → granted (min max_failures n) now ≡ granted n now
earned_capped n now = elim (Bool-cases (leb n max_failures)) [
  | inl e ↦ ap (λ k. granted k now) (few (leb→le _ _ e))
  | inr e ↦ many (over e)
]
  where
    few : n ≤ max_failures → min max_failures n ≡ n
    few h = omega arith

    over : leb n max_failures ≡ false → max_failures ≤ n
    over e = ground arith

    many : max_failures ≤ n → granted (min max_failures n) now ≡ granted n now
    many h = ground (arith, penalty_capped n h, penalty_capped (min max_failures n) (omega arith))

penalise-failures : (e : Entry) (now : ℕ) → (penalise e now).failures ≡ e.failures
unfolding penalise
penalise-failures e now = ground arith

fail-Agrees :
    (full capped : Entry) (t now : ℕ)
    → t ≤ now
    → Agrees full capped t
    → Agrees (fail_uncapped full now) (fail_entry capped now) now
unfolding fail_entry cap_failures
fail-Agrees full capped t now h a = record {
  newest_times =
      penalise-failures _ now ∙ times ∙ sym (ap (newest max_failures) (penalise-failures _ now));
  same_block =
      penalise-until _ now
      ∙ ap₂ (λ b n. max b (granted n now)) a.same_block counts
      ∙ ap (max full.blocked_until) (earned_capped (length all) now)
      ∙ sym (penalise-until _ now);
  ascending = rw (penalise-failures (record full { failures = all }) now) (
      Ascending-append now (recent full.failures now) (
        Ascending-recent now now full.failures
          (Ascending-later t now full.failures h a.ascending)));
}
  where
    all : List ℕ
    all = recent full.failures now ++ now ∷ []

    times : newest max_failures (recent capped.failures now ++ now ∷ []) ≡ newest max_failures all
    times =
        ap (λ fs. newest max_failures (recent fs now ++ now ∷ [])) a.newest_times
        ∙ ap (λ fs. newest max_failures (fs ++ now ∷ []))
            (recent-newest max_failures now t full.failures a.ascending)
        ∙ newest-append max_failures (recent full.failures now) (now ∷ [])

    counts :
        length (newest max_failures (recent capped.failures now ++ now ∷ []))
        ≡ min max_failures (length all)
    counts = ap length times ∙ length-cap_failures all

run-Agrees :
    (t : ℕ) (full capped : Entry) (ts : List ℕ)
    → From t ts
    → Agrees full capped t
    → (run_capped capped ts).blocked_until ≡ (run_uncapped full ts).blocked_until
run-Agrees t full capped [] f a = a.same_block
run-Agrees t full capped (u ∷ us) f a =
    run-Agrees u (fail_uncapped full u) (fail_entry capped u) us f.1
      (fail-Agrees full capped t u f.0 a)

-- For failures at times that do not fall, an entry that keeps only the newest `max_failures` times
-- is blocked until the same moment as one that keeps every time inside the window.
pub run-blocked_until :
    (ts : List ℕ)
    → From 0 ts
    → (run_capped new_entry ts).blocked_until ≡ (run_uncapped new_entry ts).blocked_until
run-blocked_until ts f =
    run-Agrees 0 new_entry new_entry ts f
      (record { newest_times = refl; same_block = refl; ascending = tt })

-- ===== src/Throttle/Tests.antt =====
-- Runs of the limiter, and each theorem at an input that meets its hypotheses.
use docker_mobile.Base.{
  ℕ, zero, suc, ◌+◌, ◌*◌, ◌^◌, ◌≤◌, min, max, ◌≡◌, refl, ap, ◌⊎◌, none, some, List, [], ◌∷◌, ◌++◌,
  arith, Text, codes, length, nat_eq, text_eq, lookup, insert, delete, inl, inr, IsMap, Bool-cases,
  ◌==◌, ◌+◌, ◌<◌,
}
use docker_mobile.Throttle.{
  max_failures, Entry, new_entry, Limiter, new, blocked, recent, penalty, fail, evict, evict_batch,
  forget, victims, minute, threshold, base_penalty, max_penalty, max_addresses, sort, delete_all,
  make_room, fail_in, fail_entry, cap_failures, penalise,
}
use docker_mobile.Throttle.Penalty
use docker_mobile.Throttle.Block
use docker_mobile.Throttle.Block.{until_of, remaining, earned}
use docker_mobile.Throttle.Table
use docker_mobile.Throttle.Table.{IsValid}
use docker_mobile.Throttle.Evict
use docker_mobile.Throttle.Evict.{Sooner}
use docker_mobile.Throttle.Uncapped
use docker_mobile.Throttle.Uncapped.{run_capped, run_uncapped}

program : Unit {0}
unfolding blocked fail fail_in fail_entry make_room evict victims delete_all sort forget recent
    cap_failures penalise penalty lookup insert delete
program = tt

fails : Limiter → Text → List ℕ → Limiter
fails l key [] = l
fails l key (t ∷ ts) = fails (fail l key t) key ts

abbrev guesser : Text
guesser = codes "192.0.2.7"

abbrev nine : List ℕ
nine = 1 ∷ 2 ∷ 3 ∷ 4 ∷ 5 ∷ 6 ∷ 7 ∷ 8 ∷ 9 ∷ []

ninth_is_free : blocked (fails new guesser nine) guesser 9 ≡ none
unfolding program fails
ninth_is_free = refl

tenth_blocks : blocked (fails new guesser (nine ++ 10 ∷ [])) guesser 10 ≡ some minute
unfolding program fails
tenth_blocks = refl

doubled : blocked (fails new guesser (nine ++ 10 ∷ 11 ∷ [])) guesser 11 ≡ some (2 * minute)
unfolding program fails
doubled = refl

penalty_closed_example : penalty (threshold + 2) ≡ min max_penalty (base_penalty * 2 ^ 2)
penalty_closed_example = Penalty.penalty_closed 2

abbrev busy : Limiter
busy = record { addrs = (guesser, record { failures = nine; blocked_until = 0 }) ∷ [] }

-- At eleven minutes the first of the nine failures has left the window, and eight are in it.
fail-blocked_example :
    blocked (fail busy guesser (10 * minute + 1)) guesser (10 * minute + 2)
    ≡ remaining (max 0 (earned (min max_failures (8 + 1)) (10 * minute + 1))) (10 * minute + 2)
unfolding lookup
fail-blocked_example =
    Block.fail-blocked busy guesser (10 * minute + 1) (10 * minute + 2) (1 ∷ [])
      (2 ∷ 3 ∷ 4 ∷ 5 ∷ 6 ∷ 7 ∷ 8 ∷ 9 ∷ []) refl (omega arith, tt)
      (
        omega arith,
        (
          omega arith,
          (
            omega arith,
            (omega arith, (omega arith, (omega arith, (omega arith, (omega arith, tt))))),
          ),
        ),
      )

fail-IsValid_example : IsValid (fail busy guesser 10)
unfolding lookup
fail-IsValid_example =
    Table.fail-IsValid busy guesser 10
      (record { distinct = (refl, tt); bounded = omega arith; few = (omega arith, tt) })

-- A table of `n` addresses, each with one failure at the time of its number.
crowd : ℕ → List (Text × Entry)
crowd zero = []
crowd (suc n) = (n ∷ [], record { failures = n ∷ []; blocked_until = 0 }) ∷ crowd n

lookup-crowd : (n k : ℕ) → n ≤ k → lookup (k ∷ []) (crowd n) ≡ none
unfolding crowd lookup
lookup-crowd zero k h = refl
lookup-crowd (suc n) k h = ground (arith, lookup-crowd n k)

crowd-IsMap : (n : ℕ) → IsMap (crowd n)
unfolding crowd
crowd-IsMap zero = tt
crowd-IsMap (suc n) = (lookup-crowd n n (omega arith), crowd-IsMap n)

forget-crowd : (n : ℕ) → n ≤ minute → forget (crowd n) minute ≡ crowd n
unfolding crowd forget recent
forget-crowd zero h = refl
forget-crowd (suc n) h = ground (arith, forget-crowd n)

length-crowd : (n : ℕ) → length (crowd n) ≡ n
unfolding crowd
length-crowd zero = refl
length-crowd (suc n) = ap suc (length-crowd n)

full : max_addresses ≤ length (forget (crowd max_addresses) minute)
full = rw (forget-crowd max_addresses (omega arith), length-crowd) (omega arith)

one_at : ℕ → Entry
one_at t = record { failures = t ∷ []; blocked_until = 0 }

lookup-crowd-some : (n k : ℕ) → k < n → lookup (k ∷ []) (crowd n) ≡ some (one_at k)
unfolding crowd lookup one_at
lookup-crowd-some zero k h = absurd (omega (h, arith))
lookup-crowd-some (suc n) k h = elim (Bool-cases ((n ∷ []) == (k ∷ []))) [
  | inl e ↦ rw e (ground (e, arith))
  | inr e ↦ rw e (lookup-crowd-some n k (ground (e, h, arith)))
]

stands :
    (k : ℕ)
    → k < max_addresses
    → lookup (k ∷ []) (forget (crowd max_addresses) minute) ≡ some (one_at k)
stands k h = rw (forget-crowd max_addresses (omega arith)) (lookup-crowd-some max_addresses k h)

evict_order_example :
    (length (evict (crowd max_addresses) minute) + evict_batch
      ≡ length (forget (crowd max_addresses) minute))
    × ((lookup (7 ∷ []) (evict (crowd max_addresses) minute) ≡ some (one_at 7))
        ⊎ ((lookup (2 ∷ []) (evict (crowd max_addresses) minute) ≡ none)
            ⊎ Sooner minute (one_at 7) (one_at 2)))
evict_order_example =
    Evict.evict_order (crowd max_addresses) minute (7 ∷ []) (2 ∷ []) (one_at 7) (one_at 2)
      (crowd-IsMap max_addresses) full (stands 7 (omega arith)) (stands 2 (omega arith))

abbrev fifteen : List ℕ
fifteen = nine ++ 10 ∷ 11 ∷ 12 ∷ 13 ∷ 14 ∷ 15 ∷ []

run-blocked_until_example :
    (run_capped new_entry fifteen).blocked_until ≡ (run_uncapped new_entry fifteen).blocked_until
run-blocked_until_example = Uncapped.run-blocked_until fifteen (omega arith)

-- ===== src/Throttle/Penalty.antt =====
-- The length of a block, as a number of the failures in the window.
use docker_mobile.Base.{
  ℕ, zero, suc, ◌+◌, ◌-◌, ◌*◌, ◌^◌, ◌≤◌, min, ◌≡◌, ap, ◌∙◌, inl, inr, arith, ltb, Bool-cases,
  nat_eq, text_eq,
}
use native.Mathlib.Nat.{pow-suc, pow-le-pow_right}
use docker_mobile.Throttle.{
  double_penalty, penalty, base_penalty, max_penalty, threshold, max_failures,
}

pow-pos : (k : ℕ) → 1 ≤ 2 ^ k
pow-pos zero = omega arith
pow-pos (suc k) = omega (arith, pow-suc 2 k, pow-pos k)

-- Doubling stops at the first value that is not below the cap.
double_penalty_lem : (k p : ℕ) → min max_penalty (double_penalty k p) ≡ min max_penalty (p * 2 ^ k)
unfolding double_penalty
double_penalty_lem zero p = omega arith
double_penalty_lem (suc k) p = elim (Bool-cases (ltb p max_penalty)) [
  | inl less ↦
      rw less (double_penalty_lem k (p * 2) ∙ ap (min max_penalty) (grind (arith, pow-suc 2 k)))
  | inr more ↦ rw more (grind (arith, pow-pos (suc k)))
]

add-sub : (k : ℕ) → threshold + k - threshold ≡ k
add-sub k = omega arith

threshold_split : (n : ℕ) → threshold ≤ n → n ≡ threshold + (n - threshold)
threshold_split n h = omega arith

-- The block of an address with `threshold + k` failures in the window: `BasePenalty` doubled for
-- each failure beyond the threshold, and `MaxPenalty` at most.
pub penalty_closed : (k : ℕ) → penalty (threshold + k) ≡ min max_penalty (base_penalty * 2 ^ k)
unfolding penalty
penalty_closed k = rw (add-sub k) (ground (arith, double_penalty_lem k base_penalty))

pub penalty_capped : (n : ℕ) → max_failures ≤ n → penalty n ≡ max_penalty
penalty_capped n h = rw (threshold_split n (omega arith)) (
    omega (
      arith,
      penalty_closed (n - threshold),
      pow-le-pow_right {n = 2} (omega arith) {i = 4} {j = n - threshold} (omega arith),
    ))

-- From `threshold` failures on, a block lasts from `BasePenalty` to `MaxPenalty`.
pub penalty_bounds :
    (n : ℕ) → threshold ≤ n → (base_penalty ≤ penalty n) × (penalty n ≤ max_penalty)
penalty_bounds n h =
    let e = penalty_closed (n - threshold) in
    let p = pow-pos (n - threshold) in
    rw (threshold_split n h) (omega (arith, e, p), omega (arith, e, p))

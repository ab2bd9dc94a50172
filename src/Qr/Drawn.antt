-- ===== src/Qr/Drawn.antt =====
-- What a scanner sees of the characters.
use docker_mobile.Base.{
  ℕ, ◌/◌, ◌%◌, Bool, ◌||◌, Option, none, some, List, if◌then◌else◌, nat_beq, get_elem?, nat_eq,
  text_eq,
}
use docker_mobile.Qr.{full, upper, lower}

-- Whether a character draws its upper half, or its lower half.
abbrev pub draws_upper : ℕ → Bool
draws_upper ch = nat_beq ch full || nat_beq ch upper

abbrev pub draws_lower : ℕ → Bool
draws_lower ch = nat_beq ch full || nat_beq ch lower

half : ℕ → Option ℕ → Option Bool
half y none = none
half y (some ch) = if nat_beq (y % 2) 0 then some (draws_upper ch) else some (draws_lower ch)

row_half : ℕ → ℕ → Option (List ℕ) → Option Bool
unfolding half
row_half x y none = none
row_half x y (some row) = half y (get_elem? row x)

-- The picture that the characters make: whether the half at column `x` and line `y` is drawn.
pub seen : List (List ℕ) → ℕ → ℕ → Option Bool
unfolding row_half
seen rows x y = row_half x y (get_elem? rows (y / 2))

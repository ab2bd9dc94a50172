-- ===== src/Qr.antt =====
-- agent/internal/qr/qr.go: a QR code drawn with half blocks. The encoder is a parameter: it gives the
-- size of the code and which of its modules are black.
pub mod Drawn
mod Tests
use docker_mobile.Base.{
  ℕ, zero, suc, ◌+◌, ◌-◌, ◌*◌, ◌/◌, Bool, true, false, ◌&&◌, not, Option, none, some, List, [], ◌∷◌,
  ◌++◌, ltb, leb, if◌then◌else◌, Text,
}

abbrev pub quiet : ℕ
quiet = 4

-- The block elements of the source, and the blank.
abbrev pub full : ℕ
full = 9608

abbrev pub upper : ℕ
upper = 9600

abbrev pub lower : ℕ
lower = 9604

abbrev pub blank : ℕ
blank = 32

pub record Code : Type 0 where
  pub size : ℕ
  pub black : ℕ → ℕ → Bool

-- The size with the border.
abbrev pub whole : Code → ℕ
whole c = c.size + 2 * quiet

unfoldable pub same : Bool → Bool → Bool
same true b = b
same false b = not b

-- The module with the border around the code.
unfoldable pub dark : Code → ℕ → ℕ → Bool
dark c x y =
    leb quiet x
    && (leb quiet y
        && (ltb x (whole c - quiet)
            && (ltb y (whole c - quiet) && c.black (x - quiet) (y - quiet))))

-- `lit`.
unfoldable pub lit : Code → Bool → ℕ → ℕ → Bool
unfolding same
lit c invert x y = if leb (whole c) y then false else same (dark c x y) invert

-- The character for two halves.
unfoldable pub block : Bool → Bool → ℕ
block true true = full
block true false = upper
block false true = lower
block false false = blank

-- The inner loop of `Render`, `n` columns from `x` on.
unfoldable pub render_row : Code → Bool → ℕ → ℕ → ℕ → List ℕ
render_row c invert y zero x = []
render_row c invert y (suc n) x =
    block (lit c invert x y) (lit c invert x (y + 1)) ∷ render_row c invert y n (x + 1)

-- The outer loop, `n` rows of characters from the modules at `y` on.
unfoldable pub render_rows : Code → Bool → ℕ → ℕ → List (List ℕ)
render_rows c invert zero y = []
render_rows c invert (suc n) y = render_row c invert y (whole c) 0 ∷ render_rows c invert n (y + 2)

-- The rounds of `for y := 0; y < size; y += 2`.
abbrev pub rounds : Code → ℕ
rounds c = (whole c + 1) / 2

lines : List (List ℕ) → Text
lines [] = []
lines (row ∷ rows) = row ++ (10 ∷ lines rows)

-- `Render`: what is written, or none if the text cannot be encoded.
unfoldable pub render : (Text → Option Code) → Text → Bool → Option Text
unfolding lines
render encode text invert = elim (encode text) [
  | none ↦ none
  | some c ↦ some (lines (render_rows c invert (rounds c) 0))
]

-- ===== src/Qr/Tests.antt =====
-- A code of one black module, drawn.
use docker_mobile.Base.{◌≡◌, refl, true, false, none, [], ◌∷◌, codes, nat_eq, text_eq}
use docker_mobile.Qr.{Code, dark, lit, block, render_row, render_rows, render, same}
use docker_mobile.Qr.Drawn

-- The one module at the middle of the border is black.
abbrev dot : Code
dot = record { size = 1; black = λ x y. true }

runs : Unit {0}
unfolding same dark lit block render_row render_rows render
runs = tt

row_through :
    render_row dot false 4 9 0 ≡ 9608 ∷ 9608 ∷ 9608 ∷ 9608 ∷ 9604 ∷ 9608 ∷ 9608 ∷ 9608 ∷ 9608 ∷ []
unfolding runs
row_through = refl

not_encoded : render (λ t. none) (codes "x") false ≡ none
unfolding runs
not_encoded = refl

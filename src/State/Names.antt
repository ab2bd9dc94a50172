-- ===== src/State/Names.antt =====
-- agent/internal/state/devices.go, `CleanName`: device names, as the runes of a text. What counts as
-- white space and as printable is a parameter (package unicode).
use docker_mobile.Base.{ℕ, zero, suc, Bool, true, false, List, [], ◌∷◌, if◌then◌else◌, codes}

abbrev pub max_name_runes : ℕ
max_name_runes = 40

-- `strings.TrimSpace` on runes.
unfoldable pub trim_left : (ℕ → Bool) → List ℕ → List ℕ
trim_left space [] = []
trim_left space (r ∷ rs) = let rest = trim_left space rs in if space r then rest else r ∷ rs

unfoldable pub drop_empty : ℕ → List ℕ → Bool → List ℕ
drop_empty r [] true = []
drop_empty r [] false = r ∷ []
drop_empty r (x ∷ xs) b = r ∷ x ∷ xs

unfoldable pub trim_right : (ℕ → Bool) → List ℕ → List ℕ
unfolding drop_empty
trim_right space [] = []
trim_right space (r ∷ rs) = drop_empty r (trim_right space rs) (space r)

abbrev pub trim_space : (ℕ → Bool) → List ℕ → List ℕ
trim_space space rs = trim_right space (trim_left space rs)

-- The loop of `CleanName`: `room` is how many more runes it keeps.
pub printable : (ℕ → Bool) → ℕ → List ℕ → List ℕ
printable print room [] = []
printable print zero (r ∷ rs) = if print r then [] else printable print zero rs
printable print (suc room) (r ∷ rs) =
    let skipped = printable print (suc room) rs in
    let taken = r ∷ printable print room rs in if print r then taken else skipped

or_device : List ℕ → List ℕ
or_device [] = codes "device"
or_device (r ∷ rs) = r ∷ rs

-- `CleanName`, on the runes of the name.
unfoldable pub clean_name : (ℕ → Bool) → (ℕ → Bool) → List ℕ → List ℕ
unfolding or_device printable trim_left trim_right
clean_name space print name =
    or_device (trim_space space (printable print max_name_runes (trim_space space name)))

-- ===== src/State/Sort.antt =====
-- `sort.Slice`, as package state uses it, and the order of Go's strings.
pub mod Laws
use docker_mobile.Base.{Bool, true, false, List, [], ◌∷◌, ltb, if◌then◌else◌, nat_beq, Text}

-- The byte-wise `<` of Go's strings.
unfoldable pub text_lt : Text → Text → Bool
text_lt s [] = false
text_lt [] (d ∷ t) = true
text_lt (c ∷ s) (d ∷ t) = if nat_beq c d then text_lt s t else ltb c d

-- `sort.Slice` by a strict order `less`; equal entries stay in their order.
module _ {A : Type 0} (less : A → A → Bool) where
  insert_by : A → List A → List A
  insert_by d [] = d ∷ []
  insert_by d (e ∷ es) = if less e d then e ∷ insert_by d es else d ∷ e ∷ es

  unfoldable pub sort_by : List A → List A
  unfolding insert_by
  sort_by [] = []
  sort_by (d ∷ ds) = insert_by d (sort_by ds)

-- ===== src/Base/Cases.antt =====
-- Constructors of the shared types told apart and taken off, and Boolean "or" split.
use mathlib.Core.Path.{◌≡◌, refl}
use mathlib.Core.Logic.{◌≢◌, ◌⊎◌, inl, inr}
use mathlib.Core.Bool.{Bool, true, false, ◌||◌}
use mathlib.Core.Option.{Option, none, some}
use native.Mathlib.Omega.{arith}
use docker_mobile.Base.Booleans.{if◌then◌else◌}
use docker_mobile.Base.Texts.{Result, ok, err}

pub false≢true : false ≢ true
false≢true h = ground (h, arith)

pub ||-inv : (a b : Bool) → (a || b) ≡ true → (a ≡ true) ⊎ (b ≡ true)
||-inv true b h = inl refl
||-inv false b h = inr h

module _ {ℓ} {A : Type ℓ} where
  pub none≢some : (a : A) → none ≢ some a
  none≢some a h = ground (h, arith)

  pub some-inv : (a b : A) → some a ≡ some b → a ≡ b
  some-inv a b h = ground (h, arith)

module _ {ℓ κ} {E : Type ℓ} {A : Type κ} where
  pub err≢ok : (e : E) (a : A) → err e ≡ ok a → ⊥
  err≢ok e a h = ground (h, arith)

  pub ok-inv : (a b : A) → Path (Result E A) (ok a) (ok b) → a ≡ b
  ok-inv a b h = ground (h, arith)

  pub err-inv : (a b : E) → Path (Result E A) (err a) (err b) → a ≡ b
  err-inv a b h = ground (h, arith)

-- What holds of both branches holds of the conditional. The terms in the branches stay as they are,
-- which `rw` does not grant when the test is a field of a record.
pub split_if {ℓ κ} :
    {A : Type ℓ} (P : A → Type κ) (b : Bool) (x y : A)
    → (b ≡ true → P x)
    → (b ≡ false → P y)
    → P (if b then x else y)
split_if P true x y h k = h refl
split_if P false x y h k = k refl

-- The same for a case distinction on an option.
pub split_option {ℓ κ} :
    {A : Type ℓ} {B : Type ℓ} (P : B → Type κ) (o : Option A) (n : B) (s : A → B)
    → (o ≡ none → P n)
    → ((a : A) → o ≡ some a → P (s a))
    → P (elim o [ none ↦ n | some a ↦ s a ])
split_option P none n s h k = h refl
split_option P (some a) n s h k = k a refl

-- ===== src/Policy/Version.antt =====
-- What the version of a path is like: `apiVersion` of agent/internal/policy/policy.go.
use docker_mobile.Base.{
  ◌≤◌, ◌≡◌, ◌≢◌, refl, sym, ap, ◌∙◌, ◌⊎◌, inl, inr, ◌&&◌, Option, none, some, [], ◌∷◌, ◌++◌, arith,
  Bool-cases, append_assoc, nat_beq, none≢some, leb, Text, codes, All, cut_prefix_inv,
}
use docker_mobile.Policy.{
  between, drop_digits, has_digit, after_number, after_dot, ends_number, after_version, unversioned,
}

-- One digit or more.
abbrev IsNumber : Text → Type 0
IsNumber s = (s ≢ []) × All (λ c. (48 ≤ c) × (c ≤ 57)) s

-- `/v`, a number, a dot and a number.
abbrev pub IsVersion : Text → Type 0
IsVersion v =
    (a : Text) × (b : Text) × (v ≡ codes "/v" ++ (a ++ (b'.' ∷ b))) × IsNumber a × IsNumber b

drop_digits-splits :
    (s : Text) → (a : Text) × (s ≡ a ++ drop_digits s) × All (λ c. (48 ≤ c) × (c ≤ 57)) a
unfolding drop_digits between
drop_digits-splits [] = ([], refl, tt)
drop_digits-splits (c ∷ s) = elim (Bool-cases (leb 48 c && leb c 57)) [
  | inl e ↦
      let (a, q, h) = drop_digits-splits s in
      rw e (c ∷ a, ap (λ t. c ∷ t) q, (ground (e, arith), h))
  | inr e ↦ rw e ([], refl, tt)
]

some_inv : (s t : Text) → Path (Option Text) (some s) (some t) → s ≡ t
some_inv s t h = ground (h, arith)

-- What a step of the match leaves, and what it took.
abbrev Took : (Text → Type 0) → Option Text → Text → Type 0
Took P o r = (s : Text) × (a : Text) × (o ≡ some s) × (s ≡ a ++ r) × P a

after_number-Took : (o : Option Text) (r : Text) → after_number o ≡ some r → Took IsNumber o r
unfolding after_number has_digit drop_digits between
after_number-Took none r h = absurd (none≢some r h)
after_number-Took (some []) r h = absurd (none≢some r h)
after_number-Took (some (c ∷ s)) r h = elim (Bool-cases (leb 48 c && leb c 57)) [
  | inr e ↦ absurd (none≢some r (rw e at h))
  | inl e ↦
      let (a, q, d) = drop_digits-splits s in
      let left : drop_digits s ≡ r = some_inv _ r (rw e at h) in
      (
        c ∷ s,
        c ∷ a,
        refl,
        ap (λ t. c ∷ t) q ∙ ap (λ t. c ∷ (a ++ t)) left,
        ((λ p. ground (p, arith)), (ground (e, arith), d)),
      )
]

after_dot-Took : (o : Option Text) (r : Text) → after_dot o ≡ some r → Took (λ a. a ≡ b'.' ∷ []) o r
unfolding after_dot
after_dot-Took none r h = absurd (none≢some r h)
after_dot-Took (some s) r h = (s, b'.' ∷ [], refl, cut_prefix_inv (codes ".") s r h, refl)

ends_number-same : (o : Option Text) (p : Text) → ends_number o ≡ some p → o ≡ some p
unfolding ends_number
ends_number-same none p h = h
ends_number-same (some []) p h = h
ends_number-same (some (c ∷ s)) p h = elim (Bool-cases (nat_beq c b'/')) [
  | inl e ↦ rw e at h
  | inr e ↦ absurd (none≢some p (rw e at h))
]

glue :
    (path s₁ a s₂ dot s₃ b p : Text)
    → path ≡ codes "/v" ++ s₁
    → s₁ ≡ a ++ s₂
    → s₂ ≡ dot ++ s₃
    → dot ≡ b'.' ∷ []
    → s₃ ≡ b ++ p
    → path ≡ (codes "/v" ++ (a ++ (b'.' ∷ b))) ++ p
glue path s₁ a s₂ dot s₃ b p q₀ q₁ q₂ d q₃ =
    let later = q₂ ∙ ap (λ t. t ++ s₃) d ∙ ap (λ t. b'.' ∷ t) q₃ in
    let whole = q₁ ∙ ap (λ t. a ++ t) later ∙ sym (append_assoc a (b'.' ∷ b) p) in
    q₀ ∙ ap (λ t. codes "/v" ++ t) whole

-- What stands behind the version, and the version.
after_version-IsVersion :
    (path p : Text) → after_version path ≡ some p → (v : Text) × (path ≡ v ++ p) × IsVersion v
unfolding after_version
after_version-IsVersion path p h =
    let (s₃, b, e₃, q₃, number_b) = after_number-Took _ p (ends_number-same _ p h) in
    let (s₂, dot, e₂, q₂, is_dot) = after_dot-Took _ s₃ e₃ in
    let (s₁, a, e₁, q₁, number_a) = after_number-Took _ s₂ e₂ in
    (
      codes "/v" ++ (a ++ (b'.' ∷ b)),
      glue path s₁ a s₂ dot s₃ b p (cut_prefix_inv (codes "/v") path s₁ e₁) q₁ q₂ is_dot q₃,
      (a, b, refl, number_a, number_b),
    )

-- The path of a request is that without its version, or a version stands before it.
pub unversioned-IsVersion :
    (path p : Text)
    → unversioned path (after_version path) ≡ some p
    → (v : Text) × (path ≡ v ++ p) × ((v ≡ []) ⊎ IsVersion v)
unfolding unversioned
unversioned-IsVersion path p h = read (after_version path) refl h
  where
    read :
        (o : Option Text)
        → after_version path ≡ o
        → unversioned path o ≡ some p
        → (v : Text) × (path ≡ v ++ p) × ((v ≡ []) ⊎ IsVersion v)
    read none e q = ([], some_inv path p q, inl refl)
    read (some []) e q = absurd (none≢some p q)
    read (some (c ∷ s)) e q =
        let (v, q', k) = after_version-IsVersion path p (e ∙ q) in (v, q', inr k)

-- ===== src/Server/Tokens.antt =====
-- What a server further down reads in the Connection header that is passed on: `dropUpgrade` of
-- agent/internal/server/middleware.go.
use docker_mobile.Base.{
  ℕ, ◌≡◌, refl, sym, ap, ◌∙◌, inl, inr, Bool, true, false, ◌&&◌, not, List, [], ◌∷◌, ◌++◌, arith,
  Bool-cases, &&-eq-true, nat_beq, Text, All, ◌==◌, nat_eq, text_eq, cons_first, split,
  contains_byte,
}
use docker_mobile.State.Names.{drop_empty, trim_left, trim_right, trim_space}
use docker_mobile.Server.{is_upgrade, keep_tokens, kept_tokens, join}

abbrev NoComma : Text → Type 0
NoComma t = contains_byte b',' t ≡ false

cons_first-NoComma :
    (c : ℕ) (ts : List Text)
    → nat_beq c b',' ≡ false
    → All NoComma ts
    → All NoComma (cons_first c ts)
unfolding contains_byte
cons_first-NoComma c [] e h = (ground arith, tt)
cons_first-NoComma c (t ∷ ts) e h = (rw e h.0, h.1)

split-NoComma : (v : Text) → All NoComma (split b',' v)
unfolding split contains_byte
split-NoComma [] = (refl, tt)
split-NoComma (c ∷ v) = elim (Bool-cases (nat_beq c b',')) [
  | inl e ↦ rw e (refl, split-NoComma v)
  | inr e ↦ rw e (cons_first-NoComma c _ e (split-NoComma v))
]

-- A text without a comma is one piece, also before a comma.
split-one : (t : Text) → NoComma t → split b',' t ≡ t ∷ []
unfolding split contains_byte
split-one [] h = refl
split-one (c ∷ t) h = ground (arith, split-one t)

split-first : (t s : Text) → NoComma t → split b',' (t ++ b',' ∷ s) ≡ t ∷ split b',' s
unfolding split contains_byte
split-first [] s h = refl
split-first (c ∷ t) s h = ground (arith, split-first t s)

module _ (space : ℕ → Bool) where
  trim_left-NoComma : (t : Text) → NoComma t → NoComma (trim_left space t)
  unfolding trim_left contains_byte
  trim_left-NoComma [] h = h
  trim_left-NoComma (c ∷ t) h = ground (arith, trim_left-NoComma t)

  trim_right-NoComma : (t : Text) → NoComma t → NoComma (trim_right space t)
  unfolding trim_right drop_empty contains_byte
  trim_right-NoComma [] h = h
  trim_right-NoComma (c ∷ t) h = ground (arith, trim_right-NoComma t)

  -- A text that is empty or starts with no space.
  abbrev IsSolid : Text → Type 0
  IsSolid [] = Unit
  IsSolid (c ∷ t) = space c ≡ false

  trim_left-IsSolid : (t : Text) → IsSolid (trim_left space t)
  unfolding trim_left
  trim_left-IsSolid [] = tt
  trim_left-IsSolid (c ∷ t) = elim (Bool-cases (space c)) [
    | inl e ↦ rw e (trim_left-IsSolid t)
    | inr e ↦ rw e e
  ]

  trim_left_solid : (t : Text) → IsSolid t → trim_left space t ≡ t
  unfolding trim_left
  trim_left_solid [] h = refl
  trim_left_solid (c ∷ t) h = rw h refl

  drop_empty-IsSolid : (c : ℕ) (t : Text) → space c ≡ false → IsSolid (drop_empty c t (space c))
  unfolding drop_empty
  drop_empty-IsSolid c [] h = rw h h
  drop_empty-IsSolid c (x ∷ t) h = h

  trim_right-IsSolid : (t : Text) → IsSolid t → IsSolid (trim_right space t)
  unfolding trim_right
  trim_right-IsSolid [] h = tt
  trim_right-IsSolid (c ∷ t) h = drop_empty-IsSolid c (trim_right space t) h

  trim_right-drop_empty :
      (c : ℕ) (t : Text)
      → trim_right space t ≡ t
      → trim_right space (drop_empty c t (space c)) ≡ drop_empty c t (space c)
  unfolding trim_right drop_empty
  trim_right-drop_empty c [] h = elim (Bool-cases (space c)) [
    | inl e ↦ rw e refl
    | inr e ↦ rw e (rw e refl)
  ]
  trim_right-drop_empty c (x ∷ t) h = ap (λ u. drop_empty c u (space c)) h

  trim_right_twice : (t : Text) → trim_right space (trim_right space t) ≡ trim_right space t
  unfolding trim_right
  trim_right_twice [] = refl
  trim_right_twice (c ∷ t) = trim_right-drop_empty c (trim_right space t) (trim_right_twice t)

  trim_space_twice : (t : Text) → trim_space space (trim_space space t) ≡ trim_space space t
  trim_space_twice t =
      ap (trim_right space)
        (trim_left_solid _ (trim_right-IsSolid (trim_left space t) (trim_left-IsSolid t)))
      ∙ trim_right_twice (trim_left space t)

  -- A piece of a header that does not ask for an upgrade, with the white space around it.
  abbrev pub Plain : Text → Type 0
  Plain t = is_upgrade (trim_space space t) ≡ false

  -- What is kept.
  abbrev pub Kept : Text → Type 0
  Kept t = NoComma t × Plain t

  trim_space-Kept :
      (t : Text)
      → NoComma t
      → (not (trim_space space t == []) && not (is_upgrade (trim_space space t))) ≡ true
      → Kept (trim_space space t)
  trim_space-Kept t n e = (
    trim_right-NoComma _ (trim_left-NoComma t n),
    ap is_upgrade (trim_space_twice t)
        ∙ turned (is_upgrade (trim_space space t))
            ((&&-eq-true (not (trim_space space t == [])) _ e).1),
  )
    where
      turned : (b : Bool) → not b ≡ true → b ≡ false
      turned true h = sym h
      turned false h = refl

  keep_tokens-Kept :
      (ts kept : List Text) → All NoComma ts → All Kept kept → All Kept (keep_tokens space ts kept)
  unfolding keep_tokens
  keep_tokens-Kept [] kept n h = h
  keep_tokens-Kept (t ∷ ts) kept n h =
      let token = trim_space space t in
      elim (Bool-cases (not (token == []) && not (is_upgrade token))) [
        | inl e ↦ rw e (trim_space-Kept t n.0 e, keep_tokens-Kept ts kept n.1 h)
        | inr e ↦ rw e (keep_tokens-Kept ts kept n.1 h)
      ]

  pub kept_tokens-Kept : (vs : List Text) → All Kept (kept_tokens space vs)
  unfolding kept_tokens
  kept_tokens-Kept [] = tt
  kept_tokens-Kept (v ∷ vs) =
      keep_tokens-Kept (split b',' v) _ (split-NoComma v) (kept_tokens-Kept vs)

  -- A space before a piece changes nothing.
  Plain-space : (t : Text) → space 32 ≡ true → Plain t → Plain (32 ∷ t)
  unfolding trim_left
  Plain-space t sp h = rw sp h

  cons_first-Plain :
      (ts : List Text) → space 32 ≡ true → All Plain ts → All Plain (cons_first 32 ts)
  unfolding trim_left trim_right is_upgrade
  cons_first-Plain [] sp h = (rw sp refl, tt)
  cons_first-Plain (t ∷ ts) sp h = (Plain-space t sp h.0, h.1)

  split-space :
      (v : Text) → space 32 ≡ true → All Plain (split b',' v) → All Plain (split b',' (32 ∷ v))
  unfolding split
  split-space v sp h = cons_first-Plain (split b',' v) sp h

  -- The pieces between the commas of the joined tokens.
  pub join-Plain :
      (t : Text) (ts : List Text)
      → space 32 ≡ true
      → All Kept (t ∷ ts)
      → All Plain (split b',' (join (t ∷ ts)))
  unfolding join
  join-Plain t [] sp h = rw (split-one t h.0.0) (h.0.1, tt)
  join-Plain t (u ∷ ts) sp h =
      rw (split-first t (32 ∷ join (u ∷ ts)) h.0.0)
        (h.0.1, split-space (join (u ∷ ts)) sp (join-Plain u ts sp h.1))

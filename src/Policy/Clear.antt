-- ===== src/Policy/Clear.antt =====
-- What the paths are like that no server reads in two ways: `isAmbiguous` of
-- agent/internal/policy/policy.go.
use docker_mobile.Base.{
  ℕ, ◌≡◌, ◌≢◌, refl, sym, ap, ◌∙◌, ◌⊎◌, inl, inr, true, false, List, [], ◌∷◌, ◌++◌, arith,
  Bool-cases, nat_beq, false≢true, Text, codes, nat_eq, text_eq, cons_first, cut_prefix, has_prefix,
  split, contains_byte, contains_byte-append,
}
use docker_mobile.Policy.{has_double_slash, has_dot_segment, is_ambiguous}

-- A text that stands nowhere in a path.
abbrev pub Lacks : Text → Text → Type 0
Lacks t path = (a b : Text) → path ≢ a ++ (t ++ b)

-- A text that no part of a path behind a slash is, up to the next slash or the end.
abbrev pub NoSegment : Text → Text → Type 0
NoSegment t path =
    (a b : Text) → (b ≡ []) ⊎ ((r : Text) × (b ≡ b'/' ∷ r)) → path ≢ a ++ (b'/' ∷ (t ++ b))

byte-Lacks : (c : ℕ) (path : Text) → contains_byte c path ≡ false → Lacks (c ∷ []) path
unfolding contains_byte
byte-Lacks c path h a b e =
    ground (h, ap (contains_byte c) e, contains_byte-append c a (c ∷ b), arith)

has_double_slash-append : (a b : Text) → has_double_slash (a ++ (codes "//" ++ b)) ≡ true
unfolding has_double_slash has_prefix cut_prefix
has_double_slash-append [] b = refl
has_double_slash-append (c ∷ a) b = ground (arith, has_double_slash-append a b)

slashes-Lacks : (path : Text) → has_double_slash path ≡ false → Lacks (codes "//") path
slashes-Lacks path h a b e =
    false≢true (sym h ∙ ap has_double_slash e ∙ has_double_slash-append a b)

abbrev EndsWith : List Text → List Text → Type 0
EndsWith ts us = (t : Text) × (ss : List Text) × (ts ≡ t ∷ (ss ++ us))

cons_first-EndsWith : (c : ℕ) (ts us : List Text) → EndsWith ts us → EndsWith (cons_first c ts) us
cons_first-EndsWith c ts us (t, ss, e) = rw e (c ∷ t, ss, refl)

split-append : (a s : Text) → EndsWith (split b'/' (a ++ b'/' ∷ s)) (split b'/' s)
unfolding split
split-append [] s = ([], [], refl)
split-append (c ∷ a) s = elim (Bool-cases (nat_beq c b'/')) [
  | inl e ↦ let (t, ss, q) = split-append a s in rw e ([], t ∷ ss, ap (λ ts. [] ∷ ts) q)
  | inr e ↦ rw e (cons_first-EndsWith c _ _ (split-append a s))
]

has_dot_segment-append :
    (ts us : List Text) → has_dot_segment us ≡ true → has_dot_segment (ts ++ us) ≡ true
unfolding has_dot_segment
has_dot_segment-append [] us h = h
has_dot_segment-append (t ∷ ts) us h = ground (arith, has_dot_segment-append ts us h)

NoSegment-of :
    (t path : Text)
    → ((b : Text)
        → (b ≡ []) ⊎ ((r : Text) × (b ≡ b'/' ∷ r))
        → has_dot_segment (split b'/' (t ++ b)) ≡ true)
    → has_dot_segment (split b'/' path) ≡ false
    → NoSegment t path
NoSegment-of t path found h a b end e =
    let (first, between, q) = split-append a (t ++ b) in
    false≢true (
      sym h
      ∙ ap (λ p. has_dot_segment (split b'/' p)) e
      ∙ ap has_dot_segment q
      ∙ has_dot_segment-append (first ∷ between) (split b'/' (t ++ b)) (found b end))

dot_found :
    (b : Text)
    → (b ≡ []) ⊎ ((r : Text) × (b ≡ b'/' ∷ r))
    → has_dot_segment (split b'/' (codes "." ++ b)) ≡ true
unfolding has_dot_segment split
dot_found b (inl e) = rw e refl
dot_found b (inr (r, e)) = rw e refl

dots_found :
    (b : Text)
    → (b ≡ []) ⊎ ((r : Text) × (b ≡ b'/' ∷ r))
    → has_dot_segment (split b'/' (codes ".." ++ b)) ≡ true
unfolding has_dot_segment split
dots_found b (inl e) = rw e refl
dots_found b (inr (r, e)) = rw e refl

-- A path without an escape, a backslash, a double slash or a segment of dots.
pub record IsClear (path : Text) : Type 0 where
  pub no_escape : Lacks (codes "%") path
  pub no_backslash : Lacks (92 ∷ []) path
  pub no_double_slash : Lacks (codes "//") path
  pub no_dot : NoSegment (codes ".") path
  pub no_dots : NoSegment (codes "..") path

pub is_ambiguous-IsClear : (path : Text) → is_ambiguous path ≡ false → IsClear path
unfolding is_ambiguous
is_ambiguous-IsClear path h = record {
  no_escape = byte-Lacks b'%' path (ground (h, arith));
  no_backslash = byte-Lacks 92 path (ground (h, arith));
  no_double_slash = slashes-Lacks path (ground (h, arith));
  no_dot = NoSegment-of (codes ".") path dot_found (ground (h, arith));
  no_dots = NoSegment-of (codes "..") path dots_found (ground (h, arith));
}

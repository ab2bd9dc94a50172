-- ===== src/Policy/Allowed.antt =====
-- What the requests that pass are like.
use docker_mobile.Base.{
  ||-inv, false≢true, ℕ, ◌≡◌, refl, ap, ◌⊎◌, inl, inr, Bool, true, ◌||◌, not, Option, none, some,
  List, [], ◌∷◌, ◌++◌, arith, Option-cases, &&-eq-true, Text, codes, all, All, ◌==◌, nat_eq,
  text_eq, ==_iff, cut_prefix, cut_prefix_inv,
}
use docker_mobile.Policy.{
  Piece, exactly, word, one_of, read_only, matches, listed, run_then, word_then, any_then,
  after_prefix, after_version, unversioned, is_ambiguous, is_listed, allowed_read_only,
}
use docker_mobile.Policy.Clear.{IsClear, is_ambiguous-IsClear}
use docker_mobile.Policy.Version.{IsVersion, unversioned-IsVersion}

abbrev pub OneOf : List Text → Text → Type 0
OneOf [] s = ⊥
OneOf (t ∷ ts) s = (s ≡ t) ⊎ OneOf ts s

-- The texts that a part of a pattern stands for.
abbrev pub Fits : Piece → Text → Type 0
Fits (exactly t) s = s ≡ t
Fits (word first next) s =
    (c : ℕ) × (r : Text) × (s ≡ c ∷ r) × (first c ≡ true) × All (λ d. next d ≡ true) r
Fits (one_of ts) s = OneOf ts s

-- The texts that a pattern stands for.
abbrev pub Describes : List Piece → Text → Type 0
Describes [] s = s ≡ []
Describes (p ∷ ps) s = (a : Text) × (b : Text) × (s ≡ a ++ b) × Fits p a × Describes ps b

run_then-splits :
    (next : ℕ → Bool) (rest : Text → Bool) (s : Text)
    → run_then next rest s ≡ true
    → (a : Text) × (b : Text) × (s ≡ a ++ b) × All (λ d. next d ≡ true) a × (rest b ≡ true)
unfolding run_then
run_then-splits next rest [] h = ([], [], refl, tt, h)
run_then-splits next rest (c ∷ s) h = elim (||-inv (rest (c ∷ s)) _ h) [
  | inl e ↦ ([], c ∷ s, refl, tt, e)
  | inr e ↦
      let (n, further) = &&-eq-true (next c) _ e in
      let (a, b, q, all, r) = run_then-splits next rest s further in
      (c ∷ a, b, ap (λ t. c ∷ t) q, (n, all), r)
]

word_then-splits :
    (first next : ℕ → Bool) (rest : Text → Bool) (s : Text)
    → word_then first next rest s ≡ true
    → (a : Text) × (b : Text) × (s ≡ a ++ b) × Fits (word first next) a × (rest b ≡ true)
unfolding word_then
word_then-splits first next rest [] h = absurd (false≢true h)
word_then-splits first next rest (c ∷ s) h =
    let (f, more) = &&-eq-true (first c) _ h in
    let (a, b, q, all, r) = run_then-splits next rest s more in
    (c ∷ a, b, ap (λ t. c ∷ t) q, (c, a, refl, f, all), r)

after_prefix-splits :
    (t : Text) (rest : Text → Bool) (s : Text)
    → after_prefix rest (cut_prefix t s) ≡ true
    → (b : Text) × (s ≡ t ++ b) × (rest b ≡ true)
unfolding after_prefix
after_prefix-splits t rest s h = elim (Option-cases (cut_prefix t s)) [
  | inl e ↦ absurd (false≢true (rw (e, after_prefix) at h))
  | inr (b, e) ↦ (b, cut_prefix_inv t s b e, rw (e, after_prefix) at h)
]

any_then-splits :
    (ts : List Text) (rest : Text → Bool) (s : Text)
    → any_then ts rest s ≡ true
    → (a : Text) × (b : Text) × (s ≡ a ++ b) × OneOf ts a × (rest b ≡ true)
unfolding any_then
any_then-splits [] rest s h = absurd (false≢true h)
any_then-splits (t ∷ ts) rest s h = elim (||-inv (after_prefix rest (cut_prefix t s)) _ h) [
  | inl e ↦ let (b, q, r) = after_prefix-splits t rest s e in (t, b, q, inl refl, r)
  | inr e ↦ let (a, b, q, o, r) = any_then-splits ts rest s e in (a, b, q, inr o, r)
]

-- A pattern that matches describes the text.
pub matches-Describes : (ps : List Piece) (s : Text) → matches ps s ≡ true → Describes ps s
unfolding matches
matches-Describes [] s h = (==_iff s []).0 h
matches-Describes (exactly t ∷ ps) s h =
    let (b, q, r) = after_prefix-splits t (matches ps) s h in
    (t, b, q, refl, matches-Describes ps b r)
matches-Describes (word first next ∷ ps) s h =
    let (a, b, q, f, r) = word_then-splits first next (matches ps) s h in
    (a, b, q, f, matches-Describes ps b r)
matches-Describes (one_of ts ∷ ps) s h =
    let (a, b, q, o, r) = any_then-splits ts (matches ps) s h in
    (a, b, q, o, matches-Describes ps b r)

-- One pattern of a list describes the text.
abbrev pub AnyDescribes : List (List Piece) → Text → Type 0
AnyDescribes [] s = ⊥
AnyDescribes (p ∷ ps) s = Describes p s ⊎ AnyDescribes ps s

listed-Describes : (ps : List (List Piece)) (s : Text) → listed ps s ≡ true → AnyDescribes ps s
unfolding listed
listed-Describes [] s h = absurd (false≢true h)
listed-Describes (p ∷ ps) s h = elim (||-inv (matches p s) _ h) [
  | inl e ↦ inl (matches-Describes p s e)
  | inr e ↦ inr (listed-Describes ps s e)
]

is_listed-Describes :
    (path : Option Text)
    → is_listed path ≡ true
    → (p : Text) × (path ≡ some p) × AnyDescribes read_only p
unfolding is_listed
is_listed-Describes none h = absurd (false≢true h)
is_listed-Describes (some p) h = (p, refl, listed-Describes read_only p h)

split_off :
    (path : Text)
    → ((p : Text) × (unversioned path (after_version path) ≡ some p) × AnyDescribes read_only p)
    → (v : Text) × (p : Text) × (path ≡ v ++ p)
      × ((v ≡ []) ⊎ IsVersion v)
      × AnyDescribes read_only p
split_off path (p, e, d) = let (v, q, k) = unversioned-IsVersion path p e in (v, p, q, k, d)

-- A request of a read-only device that is let through is a GET or a HEAD; its path has no per cent
-- sign, no backslash, no double slash, and behind no slash a segment that is one dot or two; and it is
-- described by one of the patterns of the list, or consists of a version, `/v` with two numbers and a
-- dot between them, and such a path.
pub allowed_read_only-Describes :
    (method path : Text)
    → allowed_read_only method path ≡ true
    → ((method ≡ codes "GET") ⊎ (method ≡ codes "HEAD"))
      × IsClear path
      × ((v : Text) × (p : Text) × (path ≡ v ++ p)
          × ((v ≡ []) ⊎ IsVersion v)
          × AnyDescribes read_only p)
unfolding allowed_read_only
allowed_read_only-Describes method path h =
    let (m, rest) = &&-eq-true (method == codes "GET" || method == codes "HEAD") _ h in
    let (clear, list) = &&-eq-true (not (is_ambiguous path)) _ rest in
    (
      read_method m,
      is_ambiguous-IsClear path (ground (arith, clear)),
      split_off path (is_listed-Describes _ list),
    )
  where
    read_method :
        (method == codes "GET" || method == codes "HEAD") ≡ true
        → (method ≡ codes "GET") ⊎ (method ≡ codes "HEAD")
    read_method m = elim (||-inv (method == codes "GET") _ m) [
      | inl e ↦ inl ((==_iff method (codes "GET")).0 e)
      | inr e ↦ inr ((==_iff method (codes "HEAD")).0 e)
    ]

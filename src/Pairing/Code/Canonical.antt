-- ===== src/Pairing/Code/Canonical.antt =====
-- What a person types, what is shown and what is drawn are the same codes.
use docker_mobile.Base.{
  ℕ, zero, suc, ◌%◌, ◌≤◌, ◌<◌, ◌≡◌, refl, sym, ap, ◌∙◌, subst, ◌⊎◌, inl, inr, Bool, true, ◌&&◌, not,
  Option, none, some, List, [], ◌∷◌, ◌++◌, map, append-nil, arith, ltb, nat_beq, nat_beq_iff,
  Bool-cases, Option-cases, &&-eq-true, Text, length, take, drop, all, All, length-drop,
  length-take, All-drop, nat_eq, text_eq, contains_byte,
}
use docker_mobile.Pairing.Code.{
  code_len, alphabet, nth, symbol, new_code, upper, skipped, look_alike, keep, normalize_runes,
  check_length, normalize, format,
}

-- A canonical code: `code_len` symbols of the alphabet.
abbrev pub IsSymbol : ℕ → Type 0
IsSymbol c = contains_byte c alphabet ≡ true

pub record IsCanonical (code : Text) : Type 0 where
  pub length_is : length code ≡ code_len
  pub symbols : All IsSymbol code

normalize_runes-symbols : (rs : List ℕ) (s : Text) → normalize_runes rs ≡ some s → All IsSymbol s
unfolding normalize_runes
normalize_runes-symbols [] s h = let e : [] ≡ s = cc h in subst (All IsSymbol) e tt
normalize_runes-symbols (r ∷ rs) s h = elim (Option-cases (normalize_runes rs)) [
  | inl e ↦ absurd (none_left e)
  | inr (t, e) ↦ one_more t e (normalize_runes-symbols rs t e)
]
  where
    none_left : normalize_runes rs ≡ none → ⊥
    none_left e = ground arith

    one_more : (t : Text) → normalize_runes rs ≡ some t → All IsSymbol t → All IsSymbol s
    one_more t e a = elim (Bool-cases (contains_byte (look_alike (upper r)) alphabet)) [
      | inl y ↦ grown y (ground (arith, e, y))
      | inr n ↦ same (ground (arith, e, n))
    ]
      where
        grown :
            IsSymbol (look_alike (upper r))
            → (s ≡ t) ⊎ (s ≡ look_alike (upper r) ∷ t)
            → All IsSymbol s
        grown y (inl p) = rw p a
        grown y (inr p) = subst (All IsSymbol) (sym p) (y, a)

        same : s ≡ t → All IsSymbol s
        same p = rw p a

-- A rune that stands for itself: it is kept as it is.
plain : ℕ → Bool
plain c =
    not (ltb 127 c)
    && (not (skipped (upper c))
        && (nat_beq (look_alike (upper c)) c && contains_byte (look_alike (upper c)) alphabet))

all-contains :
    (p : ℕ → Bool) (c : ℕ) (s : Text) → all p s ≡ true → contains_byte c s ≡ true → p c ≡ true
unfolding contains_byte
all-contains p c [] a h = absurd (cc h)
all-contains p c (d ∷ s) a h = elim (Bool-cases (nat_beq d c)) [
  | inl e ↦
      let same : d ≡ c = (nat_beq_iff d c).0 e in
      subst (λ x. p x ≡ true) same (&&-eq-true (p d) (all p s) a).0
  | inr e ↦ all-contains p c s (&&-eq-true (p d) (all p s) a).1 (rw e at h)
]

alphabet-plain : all plain alphabet ≡ true
unfolding plain skipped upper look_alike contains_byte
alphabet-plain = refl

normalize_runes-symbol :
    (c : ℕ) (rs : List ℕ) → IsSymbol c → normalize_runes (c ∷ rs) ≡ keep c (normalize_runes rs)
unfolding normalize_runes plain
normalize_runes-symbol c rs h = ground (arith, all-contains plain c alphabet alphabet-plain h)

normalize_runes-dash : (rs : List ℕ) → normalize_runes (b'-' ∷ rs) ≡ normalize_runes rs
unfolding normalize_runes
normalize_runes-dash rs = refl

abbrev prepend : Text → Option Text → Option Text
prepend [] o = o
prepend (c ∷ s) o = keep c (prepend s o)

normalize_runes-append :
    (s : Text) (rs : List ℕ)
    → All IsSymbol s
    → normalize_runes (s ++ rs) ≡ prepend s (normalize_runes rs)
normalize_runes-append [] rs a = refl
normalize_runes-append (c ∷ s) rs a =
    normalize_runes-symbol c (s ++ rs) a.0 ∙ ap (keep c) (normalize_runes-append s rs a.1)

prepend-append : (s t : Text) → prepend s (some t) ≡ some (s ++ t)
prepend-append [] t = refl
prepend-append (c ∷ s) t = rw (prepend-append s t)

-- Whatever is accepted is a canonical code.
pub normalize-IsCanonical :
    (input : List ℕ) (code : Text) → normalize input ≡ some code → IsCanonical code
unfolding normalize
normalize-IsCanonical input code h = elim (Option-cases (normalize_runes input)) [
  | inl e ↦ absurd (nothing e)
  | inr (s, e) ↦
      let p = whole s e in
      record {
        length_is = subst (λ t. length t ≡ code_len) p.0 p.1;
        symbols = subst (All IsSymbol) p.0 (normalize_runes-symbols input s e);
      }
]
  where
    nothing : normalize_runes input ≡ none → ⊥
    nothing e = ground arith

    whole : (s : Text) → normalize_runes input ≡ some s → (s ≡ code) × (length s ≡ code_len)
    whole s e = ground arith

take-append-drop : (n : ℕ) (xs : Text) → take n xs ++ drop n xs ≡ xs
take-append-drop zero xs = refl
take-append-drop (suc n) [] = refl
take-append-drop (suc n) (x ∷ xs) = ap (◌∷◌ x) (take-append-drop n xs)

take-all : (n : ℕ) (xs : Text) → length xs ≤ n → take n xs ≡ xs
take-all zero [] h = refl
take-all zero (x ∷ xs) h = absurd (omega arith)
take-all (suc n) [] h = refl
take-all (suc n) (x ∷ xs) h = ap (◌∷◌ x) (take-all n xs (omega arith))

drop-8 : (xs : Text) → drop 8 xs ≡ drop 4 (drop 4 xs)
drop-8 [] = refl
drop-8 (a ∷ []) = refl
drop-8 (a ∷ b ∷ []) = refl
drop-8 (a ∷ b ∷ c ∷ []) = refl
drop-8 (a ∷ b ∷ c ∷ d ∷ xs) = refl

All-take : (n : ℕ) (xs : Text) → All IsSymbol xs → All IsSymbol (take n xs)
All-take zero xs a = tt
All-take (suc n) [] a = tt
All-take (suc n) (x ∷ xs) a = (a.0, All-take n xs a.1)

normalize_runes-symbols-All : (s : Text) → All IsSymbol s → normalize_runes s ≡ some s
unfolding normalize_runes
normalize_runes-symbols-All s a =
    ap normalize_runes (sym (append-nil s))
    ∙ normalize_runes-append s [] a
    ∙ prepend-append s []
    ∙ ap some (append-nil s)

-- Three groups with dashes between them are read as the groups without the dashes.
normalize_runes-groups :
    (a b c : Text)
    → All IsSymbol a
    → All IsSymbol b
    → All IsSymbol c
    → normalize_runes (a ++ (b'-' ∷ (b ++ (b'-' ∷ c)))) ≡ some (a ++ (b ++ c))
normalize_runes-groups a b c sa sb sc =
    normalize_runes-append a (b'-' ∷ (b ++ (b'-' ∷ c))) sa
    ∙ ap (prepend a) (
        normalize_runes-dash (b ++ (b'-' ∷ c))
        ∙ normalize_runes-append b (b'-' ∷ c) sb
        ∙ ap (prepend b) (normalize_runes-dash c ∙ normalize_runes-symbols-All c sc)
        ∙ prepend-append b c)
    ∙ prepend-append a (b ++ c)

groups :
    (code : Text)
    → length code ≡ code_len
    → take 4 code ++ (take 4 (drop 4 code) ++ take 4 (drop 8 code)) ≡ code
groups code h =
    ap (λ t. take 4 code ++ (take 4 (drop 4 code) ++ t))
      (ap (take 4) (drop-8 code)
        ∙ take-all 4 (drop 4 (drop 4 code))
            (omega (arith, length-drop {0} 4 (drop 4 code), length-drop {0} 4 code)))
    ∙ ap (◌++◌ (take 4 code)) (take-append-drop 4 (drop 4 code))
    ∙ take-append-drop 4 code

-- The groups of a canonical code, as it is shown, are read back as that code.
pub normalize-format : (code : Text) → IsCanonical code → normalize (format code) ≡ some code
unfolding normalize format
normalize-format code c =
    let sa = All-take 4 code c.symbols in
    let sb = All-take 4 (drop 4 code) (All-drop IsSymbol 4 code c.symbols) in
    let sc = All-take 4 (drop 8 code) (All-drop IsSymbol 8 code c.symbols) in
    let e =
      normalize_runes-groups (take 4 code) (take 4 (drop 4 code)) (take 4 (drop 8 code)) sa sb sc
      ∙ ap some (groups code c.length_is) in
    rw (
      (nat_beq_iff (length code) 12).1 c.length_is,
      e,
      check_length,
      (nat_beq_iff (length code) 12).1 c.length_is,
    )

nth-symbol : (s : Text) (i : ℕ) → i < length s → contains_byte (nth s i) s ≡ true
unfolding nth contains_byte
nth-symbol [] i h = absurd (omega arith)
nth-symbol (c ∷ s) zero h = ground arith
nth-symbol (c ∷ s) (suc i) h = ground (arith, nth-symbol s i)

symbols-map : (bs : List ℕ) → All IsSymbol (map symbol bs)
unfolding symbol
symbols-map [] = tt
symbols-map (b ∷ bs) = (nth-symbol alphabet (b % 32) (omega arith), symbols-map bs)

length-map : (bs : List ℕ) → length (map symbol bs) ≡ length bs
length-map [] = refl
length-map (b ∷ bs) = ap suc (length-map bs)

-- What is drawn is a canonical code, and there is one if the random source gives enough bytes.
pub new_code-IsCanonical :
    (random : List ℕ)
    → code_len ≤ length random
    → (code : Text) × (new_code random ≡ some code) × IsCanonical code
unfolding new_code
new_code-IsCanonical random h = (
  map symbol (take code_len random),
  ground arith,
  record {
    length_is = omega (arith, length-map (take code_len random), length-take {0} code_len random);
    symbols = symbols-map (take code_len random);
  },
)

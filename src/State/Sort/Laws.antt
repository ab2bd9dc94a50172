-- ===== src/State/Sort/Laws.antt =====
-- Sorting keeps the entries, and puts them in order where the comparison is one.
use docker_mobile.Base.{
  ◌≡◌, refl, ap, ◌∙◌, inl, inr, Bool, true, false, none, some, List, [], ◌∷◌, map, arith,
  if◌then◌else◌, Bool-cases, Text, All, ◌==◌, nat_eq, text_eq, ==_iff, lookup, IsMap,
}
use docker_mobile.State.Sort.{text_lt, insert_by, sort_by}

pub text_lt-asym : (s t : Text) → text_lt s t ≡ true → text_lt t s ≡ false
unfolding text_lt
text_lt-asym s [] h = ground arith
text_lt-asym [] (d ∷ t) h = ground arith
text_lt-asym (c ∷ s) (d ∷ t) h = ground (arith, text_lt-asym s t)

-- Texts that are not ordered either way are equal.
pub text_lt-eq : (s t : Text) → text_lt s t ≡ false → text_lt t s ≡ false → s ≡ t
unfolding text_lt
text_lt-eq [] [] h k = refl
text_lt-eq [] (d ∷ t) h k = ground arith
text_lt-eq (c ∷ s) [] h k = ground arith
text_lt-eq (c ∷ s) (d ∷ t) h k = ground (arith, text_lt-eq s t)

pub text_lt_trans : (s t u : Text) → text_lt s t ≡ true → text_lt t u ≡ true → text_lt s u ≡ true
unfolding text_lt
text_lt_trans s t [] h k = ground arith
text_lt_trans [] t (x ∷ u) h k = refl
text_lt_trans (c ∷ s) [] (x ∷ u) h k = ground arith
text_lt_trans (c ∷ s) (d ∷ t) (x ∷ u) h k = ground (arith, text_lt_trans s t u)

-- No entry comes before one that is less.
module _ {A : Type 0} (less : A → A → Bool) where
  abbrev pub NotLess : A → A → Type 0
  NotLess d e = less e d ≡ false

  abbrev pub IsSorted : List A → Type 0
  IsSorted [] = Unit
  IsSorted (d ∷ ds) = All (NotLess d) ds × IsSorted ds

  module _ (asym : (a b : A) → less a b ≡ true → less b a ≡ false)
      (negtrans : (a b c : A) → less b a ≡ false → less c b ≡ false → less c a ≡ false) where
    All-insert_by :
        (c d : A) (es : List A)
        → NotLess c d
        → All (NotLess c) es
        → All (NotLess c) (insert_by less d es)
    unfolding insert_by
    All-insert_by c d [] h a = (h, tt)
    All-insert_by c d (e ∷ es) h a = ground (arith, All-insert_by c d es)

    All-trans : (c d : A) (es : List A) → NotLess c d → All (NotLess d) es → All (NotLess c) es
    All-trans c d [] h a = tt
    All-trans c d (e ∷ es) h a = (negtrans c d e h a.0, All-trans c d es h a.1)

    insert_by-IsSorted : (d : A) (es : List A) → IsSorted es → IsSorted (insert_by less d es)
    unfolding insert_by
    insert_by-IsSorted d [] s = (tt, tt)
    insert_by-IsSorted d (e ∷ es) s = elim (Bool-cases (less e d)) [
      | inl h ↦ rw h (All-insert_by e d es (asym e d h) s.0, insert_by-IsSorted d es s.1)
      | inr h ↦ rw h ((h, All-trans d e es h s.0), s)
    ]

    pub sort_by-IsSorted : (ds : List A) → IsSorted (sort_by less ds)
    unfolding sort_by
    sort_by-IsSorted [] = tt
    sort_by-IsSorted (d ∷ ds) = insert_by-IsSorted d (sort_by less ds) (sort_by-IsSorted ds)

  -- Sorting changes no lookup in a map that is read from the list.
  module _ (key : A → Text) where
    abbrev pub index : List A → List (Text × A)
    index = map (λ d. (key d, d))

    lookup-insert_by :
        (j : Text) (d : A) (es : List A)
        → lookup (key d) (index es) ≡ none
        → lookup j (index (insert_by less d es)) ≡ lookup j (index (d ∷ es))
    unfolding insert_by lookup
    lookup-insert_by j d [] h = refl
    lookup-insert_by j d (e ∷ es) h =
        ground (
          arith,
          lookup-insert_by j d es,
          ==_iff (key e) (key d),
          ==_iff (key d) j,
          ==_iff (key e) j,
        )

    insert_by-IsMap :
        (d : A) (es : List A) → IsMap (index (d ∷ es)) → IsMap (index (insert_by less d es))
    unfolding insert_by lookup
    insert_by-IsMap d [] m = m
    insert_by-IsMap d (e ∷ es) m = ground (
      arith,
      insert_by-IsMap d es,
      lookup-insert_by (key e) d es,
      ==_iff (key e) (key d),
      ==_iff (key d) (key e),
    )

    pub lookup-sort_by :
        (j : Text) (ds : List A)
        → IsMap (index ds)
        → lookup j (index (sort_by less ds)) ≡ lookup j (index ds)
    unfolding sort_by lookup
    lookup-sort_by j [] m = refl
    lookup-sort_by j (d ∷ ds) m =
        lookup-insert_by j d (sort_by less ds) (lookup-sort_by (key d) ds m.1 ∙ m.0)
        ∙ ap (λ o. if key d == j then some d else o) (lookup-sort_by j ds m.1)

    pub sort_by-IsMap : (ds : List A) → IsMap (index ds) → IsMap (index (sort_by less ds))
    unfolding sort_by
    sort_by-IsMap [] m = tt
    sort_by-IsMap (d ∷ ds) m =
        insert_by-IsMap d (sort_by less ds)
          (lookup-sort_by (key d) ds m.1 ∙ m.0, sort_by-IsMap ds m.1)

  All-insert_by_any {κ} :
      (P : A → Type κ) (d : A) (es : List A) → P d → All P es → All P (insert_by less d es)
  unfolding insert_by
  All-insert_by_any P d [] h a = (h, tt)
  All-insert_by_any P d (e ∷ es) h a = elim (Bool-cases (less e d)) [
    | inl p ↦ rw p (a.0, All-insert_by_any P d es h a.1)
    | inr p ↦ rw p (h, a)
  ]

  pub All-sort_by {κ} : (P : A → Type κ) (ds : List A) → All P ds → All P (sort_by less ds)
  unfolding sort_by
  All-sort_by P [] a = tt
  All-sort_by P (d ∷ ds) a = All-insert_by_any P d (sort_by less ds) a.0 (All-sort_by P ds a.1)

-- ===== src/Throttle/Evict.antt =====
-- Which addresses a full table gives up.
use docker_mobile.Base.{
  ℕ, zero, suc, ◌≤◌, ◌≡◌, refl, subst, ◌⊎◌, inl, inr, true, false, none, some, List, [], ◌∷◌, map,
  arith, ltb, Bool-cases, Text, length, take, All, ◌==◌, nat_eq, text_eq, ==_iff, lookup, delete,
  lookup-delete, IsMap, ◌∙◌, ◌<◌, ==_refl, sym, Option, last_or, ◌+◌,
}
use docker_mobile.Throttle.{
  Entry, Candidate, candidate, goes_before, insert_sorted, sort, delete_all, victims, evict, forget,
  evict_batch, max_addresses,
}
use docker_mobile.Throttle.Table.{forget-IsMap, length-evict}

abbrev Table : Type 0
Table = List (Text × Entry)

goes_before-total : (a b : Candidate) → goes_before a b ≡ false → goes_before b a ≡ true
unfolding goes_before
goes_before-total a b h = ground arith

goes_before_trans :
    (a b c : Candidate) → goes_before a b ≡ true → goes_before b c ≡ true → goes_before a c ≡ true
unfolding goes_before
goes_before_trans a b c h k = ground arith

abbrev Before : Candidate → Candidate → Type 0
Before a b = goes_before a b ≡ true

abbrev IsSorted : List Candidate → Type 0
IsSorted [] = Unit
IsSorted (c ∷ cs) = All (Before c) cs × IsSorted cs

Before-All :
    (c d : Candidate) (cs : List Candidate) → Before c d → All (Before d) cs → All (Before c) cs
Before-All c d [] h k = tt
Before-All c d (x ∷ xs) h k = (goes_before_trans c d x h k.0, Before-All c d xs h k.1)

-- Membership, by recursion.
abbrev In : Candidate → List Candidate → Type 0
In c [] = ⊥
In c (d ∷ ds) = (c ≡ d) ⊎ In c ds

All-insert_sorted :
    (b c : Candidate) (cs : List Candidate)
    → Before b c
    → All (Before b) cs
    → All (Before b) (insert_sorted c cs)
unfolding insert_sorted
All-insert_sorted b c [] h k = (h, tt)
All-insert_sorted b c (d ∷ ds) h k = ground (arith, All-insert_sorted b c ds)

insert_sorted-IsSorted :
    (c : Candidate) (cs : List Candidate) → IsSorted cs → IsSorted (insert_sorted c cs)
unfolding insert_sorted
insert_sorted-IsSorted c [] s = (tt, tt)
insert_sorted-IsSorted c (d ∷ ds) s = elim (Bool-cases (goes_before c d)) [
  | inl e ↦ rw e ((e, Before-All c d ds e s.0), s)
  | inr e ↦
      rw e (All-insert_sorted d c ds (goes_before-total c d e) s.0, insert_sorted-IsSorted c ds s.1)
]

sort-IsSorted : (cs : List Candidate) → IsSorted (sort cs)
unfolding sort
sort-IsSorted [] = tt
sort-IsSorted (c ∷ cs) = insert_sorted-IsSorted c (sort cs) (sort-IsSorted cs)

In-insert_sorted :
    (x c : Candidate) (cs : List Candidate) → In x (c ∷ cs) → In x (insert_sorted c cs)
unfolding insert_sorted
In-insert_sorted x c [] h = h
In-insert_sorted x c (d ∷ ds) h = elim (Bool-cases (goes_before c d)) [
  | inl e ↦ rw e h
  | inr e ↦ rw e (later (In-insert_sorted x c ds) h)
]
  where
    later :
        (In x (c ∷ ds) → In x (insert_sorted c ds))
        → In x (c ∷ d ∷ ds)
        → In x (d ∷ insert_sorted c ds)
    later ih (inl p) = inr (ih (inl p))
    later ih (inr (inl p)) = inl p
    later ih (inr (inr p)) = inr (ih (inr p))

In-sort : (x : Candidate) (cs : List Candidate) → In x cs → In x (sort cs)
unfolding sort
In-sort x [] h = h
In-sort x (c ∷ cs) (inl p) = In-insert_sorted x c (sort cs) (inl p)
In-sort x (c ∷ cs) (inr p) = In-insert_sorted x c (sort cs) (inr (In-sort x cs p))

In-candidates :
    (now : ℕ) (k : Text) (e : Entry) (m : Table)
    → lookup k m ≡ some e
    → In (candidate now (k, e)) (map (candidate now) m)
unfolding lookup
In-candidates now k e [] h = cc
In-candidates now k e ((j, x) ∷ m) h = elim (Bool-cases (j == k)) [
  | inl p ↦ inl (same p)
  | inr p ↦ inr (In-candidates now k e m (rw p at h))
]
  where
    same : (j == k) ≡ true → candidate now (k, e) ≡ candidate now (j, x)
    same p = ground (arith, ==_iff j k)

All-In : (c x : Candidate) (cs : List Candidate) → All (Before c) cs → In x cs → Before c x
All-In c x (d ∷ ds) a (inl p) = rw p a.0
All-In c x (d ∷ ds) a (inr p) = All-In c x ds a.1 p
All-In c x [] a h = elim h [ ]

All-In-Before :
    (c x : Candidate) (cs : List Candidate) → All (λ d. Before d x) cs → In c cs → Before c x
All-In-Before c x [] a h = absurd h
All-In-Before c x (d ∷ ds) a (inl p) = rw p a.0
All-In-Before c x (d ∷ ds) a (inr p) = All-In-Before c x ds a.1 p

-- An entry of a sorted list is among the first `n`, or comes after all of them.
take-first :
    (n : ℕ) (x : Candidate) (cs : List Candidate)
    → IsSorted cs
    → In x cs
    → In x (take n cs) ⊎ All (λ c. Before c x) (take n cs)
take-first zero x cs s h = inr tt
take-first (suc n) x [] s h = inr tt
take-first (suc n) x (c ∷ cs) s (inl p) = inl (inl p)
take-first (suc n) x (c ∷ cs) s (inr p) =
    ground (arith, take-first n x cs s.1 p, All-In c x cs s.0 p)

delete_all-none :
    (k : Text) (cs : List Candidate) (m : Table)
    → lookup k m ≡ none
    → lookup k (delete_all cs m) ≡ none
unfolding delete_all
delete_all-none k [] m h = h
delete_all-none k (c ∷ cs) m h =
    delete_all-none k cs (delete c.key m) (ground (arith, lookup-delete c.key k m))

delete_all-In :
    (x : Candidate) (cs : List Candidate) (m : Table)
    → In x cs
    → lookup x.key (delete_all cs m) ≡ none
unfolding delete_all
delete_all-In x [] m h = absurd h
delete_all-In x (c ∷ cs) m (inl p) =
    delete_all-none x.key cs (delete c.key m)
      (ground (arith, lookup-delete c.key x.key m, ==_iff c.key x.key))
delete_all-In x (c ∷ cs) m (inr p) = delete_all-In x cs (delete c.key m) p

below_false : (n : ℕ) → max_addresses ≤ n → ltb n max_addresses ≡ false
below_false n h = ground arith

second_pass :
    (m : Table) (now : ℕ)
    → max_addresses ≤ length (forget m now)
    → evict m now ≡ delete_all (victims (forget m now) now) (forget m now)
unfolding evict
second_pass m now h = rw (below_false (length (forget m now)) h)

In-take : (n : ℕ) (x : Candidate) (cs : List Candidate) → In x (take n cs) → In x cs
In-take zero x cs h = absurd h
In-take (suc n) x [] h = h
In-take (suc n) x (c ∷ cs) (inl p) = inl p
In-take (suc n) x (c ∷ cs) (inr p) = inr (In-take n x cs p)

insert_sorted-In :
    (x c : Candidate) (cs : List Candidate) → In x (insert_sorted c cs) → In x (c ∷ cs)
unfolding insert_sorted
insert_sorted-In x c [] h = h
insert_sorted-In x c (d ∷ ds) h = elim (Bool-cases (goes_before c d)) [
  | inl e ↦ rw e at h
  | inr e ↦ later (insert_sorted-In x c ds) (rw e at h)
]
  where
    later :
        (In x (insert_sorted c ds) → In x (c ∷ ds))
        → In x (d ∷ insert_sorted c ds)
        → In x (c ∷ d ∷ ds)
    later ih (inl p) = inr (inl p)
    later ih (inr p) = elim (ih p) [ inl q ↦ inl q | inr q ↦ inr (inr q) ]

sort-In : (x : Candidate) (cs : List Candidate) → In x (sort cs) → In x cs
unfolding sort
sort-In x [] h = h
sort-In x (c ∷ cs) h = elim (insert_sorted-In x c (sort cs) h) [
  | inl p ↦ inl p
  | inr p ↦ inr (sort-In x cs p)
]

-- A candidate is made from the entry of its address.
abbrev FromTable : ℕ → Table → Candidate → Type 0
FromTable now m x = (e : Entry) × (lookup x.key m ≡ some e) × (x ≡ candidate now (x.key, e))

candidates-FromTable :
    (now : ℕ) (x : Candidate) (m : Table)
    → IsMap m
    → In x (map (candidate now) m)
    → FromTable now m x
unfolding lookup candidate
candidates-FromTable now x [] d h = absurd h
candidates-FromTable now x ((j, f) ∷ m) d (inl p) =
    subst (FromTable now ((j, f) ∷ m)) (sym p) (f, rw (==_refl j) refl, refl)
candidates-FromTable now x ((j, f) ∷ m) d (inr p) =
    let (e, l, q) = candidates-FromTable now x m d.1 p in
    (e, ground (arith, l, d.0, ==_iff j x.key), q)

-- An address stands as before, or is one of those that are deleted.
delete_all-cases :
    (k : Text) (cs : List Candidate) (m : Table)
    → (lookup k (delete_all cs m) ≡ lookup k m) ⊎ ((c : Candidate) × In c cs × (c.key ≡ k))
unfolding delete_all
delete_all-cases k [] m = inl refl
delete_all-cases k (c ∷ cs) m = elim (Bool-cases (c.key == k)) [
  | inl e ↦ inr (c, inl refl, (==_iff c.key k).0 e)
  | inr e ↦ elim (delete_all-cases k cs (delete c.key m)) [
    | inl p ↦ inl (p ∙ lookup-delete c.key k m ∙ rw e refl)
    | inr (x, i, q) ↦ inr (x, inr i, q)
  ]
]

-- Whether an entry goes no later than another: one that is not blocked before a blocked one, of two
-- that are not blocked the one whose last failure is no later, of two blocked ones the one whose block
-- ends no later.
abbrev pub Sooner : ℕ → Entry → Entry → Type 0
Sooner now e f =
    ((e.blocked_until ≤ now) × (now < f.blocked_until))
    ⊎ (((e.blocked_until ≤ now)
          × (f.blocked_until ≤ now)
          × (last_or 0 e.failures ≤ last_or 0 f.failures))
        ⊎ ((now < e.blocked_until) × (now < f.blocked_until) × (e.blocked_until ≤ f.blocked_until)))

Before-Sooner :
    (now : ℕ) (k j : Text) (e f : Entry)
    → Before (candidate now (k, e)) (candidate now (j, f))
    → Sooner now e f
unfolding goes_before candidate
Before-Sooner now k j e f h = ground (h, arith)

some_inv : (e f : Entry) → Path (Option Entry) (some e) (some f) → e ≡ f
some_inv e f h = ground (h, arith)

victim-Sooner :
    (n now : ℕ) (m : Table) (c : Candidate) (k j : Text) (e f : Entry)
    → IsMap m
    → In c (take n (sort (map (candidate now) m)))
    → c.key ≡ k
    → lookup k m ≡ some e
    → Before c (candidate now (j, f))
    → Sooner now e f
victim-Sooner n now m c k j e f d i q l b =
    let here = sort-In c _ (In-take n c (sort (map (candidate now) m)) i) in
    let (g, l', p) = candidates-FromTable now c m d here in
    let same = some_inv e g (sym l ∙ subst (λ t. lookup t m ≡ some g) q l') in
    subst (λ x. Sooner now x f) (sym same)
      (Before-Sooner now c.key j g f (subst (λ x. Before x (candidate now (j, f))) p b))

module _ (n now : ℕ) (m : Table) (distinct : IsMap m) where
  first : List Candidate
  first = take n (sort (map (candidate now) m))

  first_go_first :
      (k j : Text) (e f : Entry)
      → lookup k m ≡ some e
      → lookup j m ≡ some f
      → (lookup k (delete_all first m) ≡ some e)
        ⊎ ((lookup j (delete_all first m) ≡ none) ⊎ Sooner now e f)
  unfolding first candidate
  first_go_first k j e f l l' =
      let here = In-sort (candidate now (j, f)) _ (In-candidates now j f m l') in
      elim (take-first n (candidate now (j, f)) _ (sort-IsSorted (map (candidate now) m)) here) [
        | inl gone ↦ inr (inl (delete_all-In (candidate now (j, f)) first m gone))
        | inr before ↦ elim (delete_all-cases k first m) [
          | inl stays ↦ inl (stays ∙ l)
          | inr (c, i, q) ↦ inr (
              inr (
                victim-Sooner n now m c k j e f distinct i q l
                  (All-In-Before c (candidate now (j, f)) first before i)))
        ]
      ]

-- When the second pass runs, exactly `evict_batch` addresses go, and they are the ones to go first: of
-- two addresses that the first pass left, the one stays, or the other goes as well, or the one is not
-- blocked and the other is, or neither is blocked and the one's last failure is no later, or both are
-- blocked and the one's block ends no later.
pub evict_order :
    (m : Table) (now : ℕ) (k j : Text) (e f : Entry)
    → IsMap m
    → max_addresses ≤ length (forget m now)
    → lookup k (forget m now) ≡ some e
    → lookup j (forget m now) ≡ some f
    → (length (evict m now) + evict_batch ≡ length (forget m now))
      × ((lookup k (evict m now) ≡ some e) ⊎ ((lookup j (evict m now) ≡ none) ⊎ Sooner now e f))
unfolding victims first
evict_order m now k j e f d h l l' = (
  length-evict m now d h,
  rw (second_pass m now h)
      (first_go_first evict_batch now (forget m now) (forget-IsMap now m d) k j e f l l'),
)

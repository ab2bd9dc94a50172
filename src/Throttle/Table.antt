-- ===== src/Throttle/Table.antt =====
-- The table: distinct addresses, never more than `max_addresses`, and few failures for each.
use docker_mobile.Base.{
  ℕ, zero, suc, ◌+◌, ◌-◌, ◌≤◌, ◌<◌, ◌≡◌, refl, subst, inl, inr, false, none, some, List, [], ◌∷◌,
  ◌++◌, map, arith, ltb, leb, ltb→lt, Bool-cases, Option-cases, Text, length, take, All,
  length-drop, length-take, nat_eq, text_eq, ==_iff, ==_refl, lookup, insert, delete, IsMap,
  lookup-delete, length-insert, length-insert_old, insert-IsMap, delete-IsMap, delete_absent,
  delete_comm, length-delete_present,
}
use docker_mobile.Throttle.{
  Entry, new_entry, Limiter, recent, cap_failures, penalise, fail_entry, fail_in, fail, make_room,
  evict, forget, Candidate, candidate, goes_before, insert_sorted, sort, delete_all, victims,
  evict_batch, max_failures, max_addresses,
}

abbrev Table : Type 0
Table = List (Text × Entry)

abbrev pub FewFailures : Text × Entry → Type 0
FewFailures (_, e) = length e.failures ≤ max_failures

pub record IsValid (l : Limiter) : Type 0 where
  pub distinct : IsMap l.addrs
  pub bounded : length l.addrs ≤ max_addresses
  pub few : All FewFailures l.addrs

-- The first pass.
module _ (now : ℕ) where
  lookup-forget-none : (k : Text) (m : Table) → lookup k m ≡ none → lookup k (forget m now) ≡ none
  unfolding lookup forget
  lookup-forget-none k [] h = refl
  lookup-forget-none k ((j, e) ∷ m) h = ground (arith, lookup-forget-none k m)

  pub forget-IsMap : (m : Table) → IsMap m → IsMap (forget m now)
  unfolding forget
  forget-IsMap [] h = tt
  forget-IsMap ((j, e) ∷ m) h = ground (arith, forget-IsMap m, lookup-forget-none j m)

  length-forget-le : (m : Table) → length (forget m now) ≤ length m
  unfolding forget
  length-forget-le [] = omega arith
  length-forget-le ((j, e) ∷ m) = ground (arith, length-forget-le m)

  length-recent-le : (fs : List ℕ) → length (recent fs now) ≤ length fs
  unfolding recent
  length-recent-le [] = omega arith
  length-recent-le (f ∷ fs) = ground (arith, length-recent-le fs)

  forget-FewFailures : (m : Table) → All FewFailures m → All FewFailures (forget m now)
  unfolding forget
  forget-FewFailures [] h = tt
  forget-FewFailures ((j, e) ∷ m) h =
      ground (arith, forget-FewFailures m, length-recent-le e.failures)

-- The candidates' keys are distinct and stand in the table.
abbrev Stand : List Candidate → Table → Type 0
Stand [] m = Unit
Stand (c ∷ cs) m = ((e : Entry) × (lookup c.key m ≡ some e)) × Stand cs (delete c.key m)

length-delete_all :
    (cs : List Candidate) (m : Table)
    → IsMap m
    → Stand cs m
    → length (delete_all cs m) + length cs ≡ length m
unfolding delete_all
length-delete_all [] m d h = omega arith
length-delete_all (c ∷ cs) m d ((e, p), h) = omega (
  arith,
  length-delete_all cs (delete c.key m) (delete-IsMap c.key m d) h,
  length-delete_present c.key e m d p,
)

Stand-candidates : (now : ℕ) (m : Table) → IsMap m → Stand (map (candidate now) m) m
unfolding candidate lookup delete
Stand-candidates now [] d = tt
Stand-candidates now ((k, e) ∷ m) d =
    rw (==_refl k, delete_absent k m d.0) ((e, refl), Stand-candidates now m d.1)

Stand-swap :
    (c d : Candidate) (cs : List Candidate) (m : Table)
    → Stand (c ∷ d ∷ cs) m
    → Stand (d ∷ c ∷ cs) m
Stand-swap c d cs m ((e, p), ((f, q), h)) = (
  (f, ground (arith, lookup-delete c.key d.key m)),
  (
    (
      e,
      ground (
        arith,
        lookup-delete c.key d.key m,
        lookup-delete d.key c.key m,
        ==_iff c.key d.key,
        ==_iff d.key c.key,
      ),
    ),
    subst (Stand cs) (delete_comm d.key c.key m) h,
  ),
)

Stand-insert_sorted :
    (c : Candidate) (cs : List Candidate) (m : Table)
    → Stand (c ∷ cs) m
    → Stand (insert_sorted c cs) m
unfolding insert_sorted
Stand-insert_sorted c [] m h = h
Stand-insert_sorted c (d ∷ ds) m h = elim (Bool-cases (goes_before c d)) [
  | inl e ↦ rw e h
  | inr e ↦
      rw e (let s = Stand-swap c d ds m h in (s.0, Stand-insert_sorted c ds (delete d.key m) s.1))
]

Stand-sort : (cs : List Candidate) (m : Table) → Stand cs m → Stand (sort cs) m
unfolding sort
Stand-sort [] m h = tt
Stand-sort (c ∷ cs) m h =
    Stand-insert_sorted c (sort cs) m (h.0, Stand-sort cs (delete c.key m) h.1)

Stand-take : (n : ℕ) (cs : List Candidate) (m : Table) → Stand cs m → Stand (take n cs) m
Stand-take zero cs m h = tt
Stand-take (suc n) [] m h = tt
Stand-take (suc n) (c ∷ cs) m h = (h.0, Stand-take n cs (delete c.key m) h.1)

length-insert_sorted :
    (c : Candidate) (cs : List Candidate) → length (insert_sorted c cs) ≡ length cs + 1
unfolding insert_sorted
length-insert_sorted c [] = omega arith
length-insert_sorted c (d ∷ ds) = ground (arith, length-insert_sorted c ds)

length-sort : (cs : List Candidate) → length (sort cs) ≡ length cs
unfolding sort
length-sort [] = refl
length-sort (c ∷ cs) = omega (arith, length-insert_sorted c (sort cs), length-sort cs)

length-map-candidate : (now : ℕ) (m : Table) → length (map (candidate now) m) ≡ length m
length-map-candidate now [] = refl
length-map-candidate now (x ∷ m) = omega (arith, length-map-candidate now m)

length-victims :
    (m : Table) (now : ℕ) → max_addresses ≤ length m → length (victims m now) ≡ evict_batch
unfolding victims
length-victims m now h = omega (
  arith,
  length-take {0} evict_batch (sort (map (candidate now) m)),
  length-sort (map (candidate now) m),
  length-map-candidate now m,
)

Stand-victims : (m : Table) (now : ℕ) → IsMap m → Stand (victims m now) m
unfolding victims
Stand-victims m now d =
    Stand-take evict_batch (sort (map (candidate now) m)) m
      (Stand-sort (map (candidate now) m) m (Stand-candidates now m d))

below_false : (n : ℕ) → max_addresses ≤ n → ltb n max_addresses ≡ false
below_false n h = ground arith

-- When forgetting does not make room in a table that has each address once, one pass frees exactly `evict_batch` places: no address
-- is given up twice, and none that is not in the table.
pub length-evict :
    (m : Table) (now : ℕ)
    → IsMap m
    → max_addresses ≤ length (forget m now)
    → length (evict m now) + evict_batch ≡ length (forget m now)
unfolding evict
length-evict m now d h =
    let k = forget m now in
    let e =
      length-delete_all (victims k now) k (forget-IsMap now m d)
        (Stand-victims k now (forget-IsMap now m d)) in
    let n = length-victims k now h in rw (below_false (length k) h) (omega (arith, e, n))

delete_all-IsMap : (cs : List Candidate) (m : Table) → IsMap m → IsMap (delete_all cs m)
unfolding delete_all
delete_all-IsMap [] m d = d
delete_all-IsMap (c ∷ cs) m d = delete_all-IsMap cs (delete c.key m) (delete-IsMap c.key m d)

delete-FewFailures : (k : Text) (m : Table) → All FewFailures m → All FewFailures (delete k m)
unfolding delete
delete-FewFailures k [] h = tt
delete-FewFailures k ((j, e) ∷ m) h = ground (arith, delete-FewFailures k m)

delete_all-FewFailures :
    (cs : List Candidate) (m : Table) → All FewFailures m → All FewFailures (delete_all cs m)
unfolding delete_all
delete_all-FewFailures [] m h = h
delete_all-FewFailures (c ∷ cs) m h =
    delete_all-FewFailures cs (delete c.key m) (delete-FewFailures c.key m h)

insert-FewFailures :
    (k : Text) (e : Entry) (m : Table)
    → length e.failures ≤ max_failures
    → All FewFailures m
    → All FewFailures (insert k e m)
unfolding insert
insert-FewFailures k e [] few h = (few, tt)
insert-FewFailures k e ((j, x) ∷ m) few h = ground (arith, insert-FewFailures k e m)

fail_entry-few : (e : Entry) (now : ℕ) → length (fail_entry e now).failures ≤ max_failures
unfolding fail_entry penalise cap_failures
fail_entry-few e now = ground (
  arith,
  length-drop {0} (length (recent e.failures now ++ now ∷ []) - max_failures)
      (recent e.failures now ++ now ∷ []),
)

-- What the rest of `Fail` relies on: there is a free place.
record HasRoom (m : Table) : Type 0 where
  distinct : IsMap m
  room : length m < max_addresses
  few : All FewFailures m

evict-HasRoom :
    (m : Table) (now : ℕ)
    → IsMap m
    → length m ≤ max_addresses
    → All FewFailures m
    → HasRoom (evict m now)
unfolding evict
evict-HasRoom m now d b f = elim (Bool-cases (ltb (length (forget m now)) max_addresses)) [
  | inl e ↦ rw e (record {
    distinct = forget-IsMap now m d;
    room = ltb→lt _ _ e;
    few = forget-FewFailures now m f;
  })
  | inr e ↦
      let k = forget m now in
      rw e (record {
        distinct = delete_all-IsMap (victims k now) k (forget-IsMap now m d);
        room = omega (
          arith,
          length-delete_all (victims k now) k (forget-IsMap now m d)
              (Stand-victims k now (forget-IsMap now m d)),
          length-victims k now (full e),
          length-forget-le now m,
        );
        few = delete_all-FewFailures (victims k now) k (forget-FewFailures now m f);
      })
]
  where
    full : ltb (length (forget m now)) max_addresses ≡ false → max_addresses ≤ length (forget m now)
    full e = ground arith

make_room-HasRoom :
    (m : Table) (now : ℕ)
    → IsMap m
    → length m ≤ max_addresses
    → All FewFailures m
    → HasRoom (make_room m now)
unfolding make_room
make_room-HasRoom m now d b f = elim (Bool-cases (leb max_addresses (length m))) [
  | inl e ↦ rw e (evict-HasRoom m now d b f)
  | inr e ↦ rw e (record { distinct = d; room = ground arith; few = f })
]

-- A failure keeps every address in the table once, the table within `max_addresses` entries and
-- each entry within `max_failures` times.
pub fail-IsValid : (l : Limiter) (key : Text) (now : ℕ) → IsValid l → IsValid (fail l key now)
unfolding fail fail_in
fail-IsValid l key now v = elim (Option-cases (lookup key l.addrs)) [
  | inl e ↦
      let r = make_room-HasRoom l.addrs now v.distinct v.bounded v.few in
      rw (e, fail_in) (insert_new-IsValid (make_room l.addrs now) r)
  | inr (x, e) ↦
      rw (e, fail_in)
        (record {
          distinct = insert-IsMap key (fail_entry x now) l.addrs v.distinct;
          bounded = omega (arith, v.bounded, length-insert_old key (fail_entry x now) x l.addrs e);
          few = insert-FewFailures key (fail_entry x now) l.addrs (fail_entry-few x now) v.few;
        })
]
  where
    insert_new-IsValid :
        (m : Table)
        → HasRoom m
        → IsValid (record { addrs = insert key (fail_entry new_entry now) m })
    insert_new-IsValid m r = record {
      distinct = insert-IsMap key (fail_entry new_entry now) m r.distinct;
      bounded = omega (arith, r.room, length-insert key (fail_entry new_entry now) m);
      few =
          insert-FewFailures key (fail_entry new_entry now) m (fail_entry-few new_entry now) r.few;
    }

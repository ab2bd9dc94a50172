-- ===== src/State/Devices/Valid.antt =====
-- The invariant of the list, which `LoadDevices` checks entry by entry, under every operation.
use docker_mobile.Base.{
  ℕ, ◌+◌, ◌<◌, ◌≡◌, refl, inl, inr, true, none, some, List, [], ◌∷◌, arith, if◌then◌else◌,
  Bool-cases, Option-cases, Text, length, All, ◌==◌, nat_eq, text_eq, ==_iff, lookup, insert,
  delete, IsMap, insert-IsMap, delete-IsMap, Result-cases,
}
use docker_mobile.State.Dir.{Faults}
use docker_mobile.State.Devices.{
  Device, Devices, Library, save_due, complete, touch, check_token, authenticate, add, remove,
  remove_device, last_seen_every, Library,
}
use docker_mobile.State.Devices.Store.{touch-by_id, add_failed, add-Stored, Stored}
use docker_mobile.State.Tokens.{token_id}
use docker_mobile.State.Devices.Access.{remove_device-ok, remove_device-err, remove-cases}
use docker_mobile.State.Devices.Restart.{Keyed, IsValid}

-- The parts of the invariant that concern the map in memory.
abbrev Sound : List (Text × Device) → Type 0
Sound m = IsMap m × All Keyed m

insert-Keyed :
    (k : Text) (d : Device) (m : List (Text × Device))
    → Keyed (k, d)
    → All Keyed m
    → All Keyed (insert k d m)
unfolding insert
insert-Keyed k d [] h a = (h, tt)
insert-Keyed k d ((j, x) ∷ m) h a = ground (arith, insert-Keyed k d m)

delete-Keyed : (k : Text) (m : List (Text × Device)) → All Keyed m → All Keyed (delete k m)
unfolding delete
delete-Keyed k [] a = tt
delete-Keyed k ((j, x) ∷ m) a = ground (arith, delete-Keyed k m)

insert-Sound :
    (k : Text) (d : Device) (m : List (Text × Device))
    → Keyed (k, d)
    → Sound m
    → Sound (insert k d m)
insert-Sound k d m h v = (insert-IsMap k d m v.0, insert-Keyed k d m h v.1)

delete-Sound : (k : Text) (m : List (Text × Device)) → Sound m → Sound (delete k m)
delete-Sound k m v = (delete-IsMap k m v.0, delete-Keyed k m v.1)

lookup-Keyed :
    (k : Text) (d : Device) (m : List (Text × Device))
    → All Keyed m
    → lookup k m ≡ some d
    → Keyed (k, d)
unfolding lookup
lookup-Keyed k d [] a h = absurd (cc h)
lookup-Keyed k d ((j, x) ∷ m) a h = ground (arith, lookup-Keyed k d m a.1, ==_iff j k)

IsValid-of : (s : Devices) (m : List (Text × Device)) → s.by_id ≡ m → Sound m → IsValid s
IsValid-of s m e v = record { distinct = rw e v.0; keyed = rw e v.1 }

-- `Add` keeps the list one that `LoadDevices` accepts, whatever fails on the way, if a digest has
-- 64 hexadecimal digits.
pub add-IsValid :
    (lib : Library) (os : Faults) (random : List ℕ) (now : ℕ) (name role : Text) (s : Devices)
    → ((t : Text) → length (lib.hash_token t) ≡ 64)
    → IsValid s
    → IsValid (add lib os random now name role s).0
add-IsValid lib os random now name role s digest v =
    elim (Result-cases (add lib os random now name role s).1) [
      | inl (e, h) ↦
          IsValid-of _ s.by_id (add_failed lib os random now name role e s h) (v.distinct, v.keyed)
      | inr ((d, token), h) ↦
          let st = add-Stored lib os random now name role s d token h in
          IsValid-of _ (insert d.id d s.by_id) st.inserted (
            insert-Sound d.id d s.by_id (refl, complete_of d token st (digest token))
              (v.distinct, v.keyed))
    ]
  where
    complete_of :
        (d : Device) (token : Text)
        → Stored lib d token s (add lib os random now name role s).0
        → length (lib.hash_token token) ≡ 64
        → complete d ≡ true
    complete_of d token st n = unfold complete in rw (st.some_id, st.valid, st.hashed, n) refl

-- `Authenticate` keeps the list one that `LoadDevices` accepts.
pub authenticate-IsValid :
    (lib : Library) (os : Faults) (now : ℕ) (token : Text) (s : Devices)
    → IsValid s
    → IsValid (authenticate lib os now token s).0
unfolding authenticate check_token
authenticate-IsValid lib os now token s v = elim (Option-cases (token_id token)) [
  | inl e ↦ rw (e, authenticate) v
  | inr (id, e) ↦
      rw (e, authenticate)
        (elim (Option-cases (lookup id s.by_id)) [
          | inl l ↦ rw (l, check_token) v
          | inr (d, l) ↦ rw (l, check_token) (checked id d l)
        ])
]
  where
    checked :
        (id : Text) (d : Device)
        → lookup id s.by_id ≡ some d
        → IsValid
            (if lib.hash_token token == d.token_hash then touch lib os now id d s else (s, none)).0
    checked id d l = elim (Bool-cases (lib.hash_token token == d.token_hash)) [
      | inl h ↦ rw h (
          IsValid-of _ _ (touch-by_id lib os now id d s) (
            insert-Sound id (record d { last_seen_at = now }) s.by_id (seen id d l)
              (v.distinct, v.keyed)))
      | inr h ↦ rw h v
    ]
      where
        seen :
            (i : Text) (x : Device)
            → lookup i s.by_id ≡ some x
            → Keyed (i, record x { last_seen_at = now })
        seen i x h = unfold complete in lookup-Keyed i x s.by_id v.keyed h

-- `Remove` keeps the list one that `LoadDevices` accepts, whether it fails or not.
pub remove-IsValid :
    (lib : Library) (os : Faults) (id : Text) (s : Devices)
    → IsValid s
    → IsValid (remove lib os id s).0
remove-IsValid lib os id s v =
    remove-cases (λ r. IsValid r.0) lib os id s (λ _. v) (λ d l. removed d l)
  where
    removed : (d : Device) → lookup id s.by_id ≡ some d → IsValid (remove_device lib os id d s).0
    removed d l = elim (Result-cases (remove_device lib os id d s).1) [
      | inl (e, h) ↦ IsValid-of _ _ (remove_device-err lib os id e d s h) (
          insert-Sound id d (delete id s.by_id) (lookup-Keyed id d s.by_id v.keyed l)
            (delete-Sound id s.by_id (v.distinct, v.keyed)))
      | inr (o, h) ↦
          IsValid-of _ _ (remove_device-ok lib os id d o s h).1
            (delete-Sound id s.by_id (v.distinct, v.keyed))
    ]

-- Between two writes of the last-seen time of a device there is a minute at least: while less has
-- passed since the saved one, `Authenticate` writes nothing.
pub authenticate_quiet :
    (lib : Library) (os : Faults) (now at : ℕ) (token id : Text) (s : Devices)
    → token_id token ≡ some id
    → lookup id s.persisted ≡ some at
    → now < at + last_seen_every
    → ((authenticate lib os now token s).0.folder ≡ s.folder)
      × ((authenticate lib os now token s).0.persisted ≡ s.persisted)
unfolding authenticate check_token touch save_due
authenticate_quiet lib os now at token id s n p h =
    rw (n, authenticate)
      (elim (Option-cases (lookup id s.by_id)) [
        | inl l ↦ rw (l, check_token) (refl, refl)
        | inr (d, l) ↦ rw (l, check_token) (ground (arith, p))
      ])

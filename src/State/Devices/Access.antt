-- ===== src/State/Devices/Access.antt =====
-- Who is let in: `Authenticate` against the devices in memory, and after a `Remove`.
use docker_mobile.Base.{
  ℕ, ◌≡◌, refl, sym, ap, ◌∙◌, subst, inl, inr, Option, none, some, arith, if◌then◌else◌, Bool-cases,
  Option-cases, Text, ◌==◌, nat_eq, text_eq, ==_iff, ==_refl, lookup, insert, delete, lookup-insert,
  lookup-delete, ne_of_==, Result, ok, err,
}
use docker_mobile.State.Dir.{Faults}
use docker_mobile.State.Tokens.{token_id}
use docker_mobile.State.Devices.{
  Device, Devices, Library, touch, check_token, authenticate, remove_device, remove,
}
use docker_mobile.State.Devices.Store.{save-by_id, touch-by_id}

-- The token is that of the device: its id stands in the token and its hash is the token's.
pub record Owns (lib : Library) (s : Devices) (token : Text) (id : Text) (d : Device) : Type 0 where
  pub named : token_id token ≡ some id
  pub stored : lookup id s.by_id ≡ some d
  pub hashed : lib.hash_token token ≡ d.token_hash

-- How an `Authenticate` ends: the owner is let in, with its last-seen time set and nothing else
-- changed in memory; or nobody is, and nothing has changed at all.
pub data Answers (lib : Library) (now : ℕ) (token : Text) (s : Devices)
    : Devices × Option Device → Type 0 where
  let_in :
      {r : Devices × Option Device} (id : Text) (d : Device)
      → Owns lib s token id d
      → r.1 ≡ some (record d { last_seen_at = now })
      → r.0.by_id ≡ insert id (record d { last_seen_at = now }) s.by_id
      → Answers lib now token s r
  kept_out :
      {r : Devices × Option Device}
      → ((id : Text) (d : Device) → ¬ Owns lib s token id d)
      → r ≡ (s, none)
      → Answers lib now token s r

check_token-Answers :
    (lib : Library) (os : Faults) (now : ℕ) (token id : Text) (s : Devices)
    → token_id token ≡ some id
    → Answers lib now token s (check_token lib os now token id (lookup id s.by_id) s)
unfolding check_token touch
check_token-Answers lib os now token id s n = elim (Option-cases (lookup id s.by_id)) [
  | inl e ↦ rw e (kept_out (λ j d o. cc (n, o.named, o.stored, e)) refl)
  | inr (d, e) ↦ rw e (found d e)
]
  where
    same : (j : Text) (x d : Device) → Owns lib s token j x → lookup id s.by_id ≡ some d → x ≡ d
    same j x d o e =
        let p : some id ≡ some j = sym n ∙ o.named in
        let q : id ≡ j = cc p in
        let r : some d ≡ some x = sym e ∙ subst (λ k. lookup k s.by_id ≡ some x) (sym q) o.stored in
        cc r

    found :
        (d : Device)
        → lookup id s.by_id ≡ some d
        → Answers lib now token s (check_token lib os now token id (some d) s)
    found d e = elim (Bool-cases (lib.hash_token token == d.token_hash)) [
      | inl h ↦
          rw (h, check_token)
            (let_in id d
              (record {
                named = n;
                stored = e;
                hashed = (==_iff (lib.hash_token token) d.token_hash).0 h;
              })
              refl (touch-by_id lib os now id d s))
      | inr h ↦
          rw (h, check_token)
            (kept_out
              (λ j x o.
                ne_of_== (lib.hash_token token) d.token_hash h
                  (o.hashed ∙ ap (λ y. y.token_hash) (same j x d o e)))
              refl)
    ]

-- `Authenticate` lets a token in exactly if the device with the token's id is paired and keeps the
-- token's hash; the device that it answers is that one, and no other device changes.
pub authenticate-Answers :
    (lib : Library) (os : Faults) (now : ℕ) (token : Text) (s : Devices)
    → Answers lib now token s (authenticate lib os now token s)
unfolding authenticate
authenticate-Answers lib os now token s = elim (Option-cases (token_id token)) [
  | inl e ↦ rw (e, authenticate) (kept_out (λ id d o. cc (e, o.named)) refl)
  | inr (id, e) ↦ rw (e, authenticate) (check_token-Answers lib os now token id s e)
]

-- What `Remove` does when the device is there.
pub remove_device-ok :
    (lib : Library) (os : Faults) (id : Text) (d : Device) (o : Option Device) (s : Devices)
    → (remove_device lib os id d s).1 ≡ ok o
    → (o ≡ some d) × ((remove_device lib os id d s).0.by_id ≡ delete id s.by_id)
unfolding remove_device
remove_device-ok lib os id d o s h =
    let s' = record s { by_id = delete id s.by_id } in ground (arith, save-by_id lib os s')

pub remove-cases :
    (P : Devices × Result Text (Option Device) → Type 0) (lib : Library) (os : Faults) (id : Text)
    (s : Devices)
    → (lookup id s.by_id ≡ none → P (s, ok none))
    → ((d : Device) → lookup id s.by_id ≡ some d → P (remove_device lib os id d s))
    → P (remove lib os id s)
unfolding remove
remove-cases P lib os id s missing found = elim (Option-cases (lookup id s.by_id)) [
  | inl e ↦ rw (e, remove) (missing e)
  | inr (d, e) ↦ rw (e, remove) (found d e)
]

pub remove_device-err :
    (lib : Library) (os : Faults) (id e : Text) (d : Device) (s : Devices)
    → (remove_device lib os id d s).1 ≡ err e
    → (remove_device lib os id d s).0.by_id ≡ insert id d (delete id s.by_id)
unfolding remove_device
remove_device-err lib os id e d s h =
    let s' = record s { by_id = delete id s.by_id } in ground (arith, save-by_id lib os s')

-- A `Remove` without error returns the device that was paired under the id, if there was one, and
-- afterwards the id is not paired while every other id is as it was.
pub lookup-remove :
    (lib : Library) (os : Faults) (id j : Text) (o : Option Device) (s : Devices)
    → (remove lib os id s).1 ≡ ok o
    → (o ≡ lookup id s.by_id)
      × (lookup j (remove lib os id s).0.by_id ≡ (if id == j then none else lookup j s.by_id))
lookup-remove lib os id j o s =
    remove-cases
      (λ r.
        r.1 ≡ ok o
        → (o ≡ lookup id s.by_id)
          × (lookup j r.0.by_id ≡ (if id == j then none else lookup j s.by_id)))
      lib os id s (λ e h. (missing e h, ground (arith, e, ==_iff id j)))
      λ d e h.
        let k = remove_device-ok lib os id d o s h in
        (k.0 ∙ sym e, rw k.1 (lookup-delete id j s.by_id))
  where
    missing :
        lookup id s.by_id ≡ none
        → ◌≡◌ {A = Result Text (Option Device)} (ok none) (ok o)
        → o ≡ lookup id s.by_id
    missing e h = cc

-- A `Remove` with an error leaves every device paired as it was.
pub remove_failed :
    (lib : Library) (os : Faults) (id e j : Text) (s : Devices)
    → (remove lib os id s).1 ≡ err e
    → lookup j (remove lib os id s).0.by_id ≡ lookup j s.by_id
remove_failed lib os id e j s =
    remove-cases (λ r. r.1 ≡ err e → lookup j r.0.by_id ≡ lookup j s.by_id) lib os id s
      (λ _ h. refl)
      λ d p h. rw (remove_device-err lib os id e d s h) (
        ground (
          arith,
          p,
          lookup-insert id j d (delete id s.by_id),
          lookup-delete id j s.by_id,
          ==_iff id j,
        ))

-- Once a device is removed, no token with its id is let in any more.
pub authenticate-remove :
    (lib : Library) (os later : Faults) (id token : Text) (o : Option Device) (now : ℕ)
    (s : Devices)
    → (remove lib os id s).1 ≡ ok o
    → token_id token ≡ some id
    → (authenticate lib later now token (remove lib os id s).0).1 ≡ none
unfolding authenticate check_token
authenticate-remove lib os later id token o now s h n =
    rw (n, authenticate, (lookup-remove lib os id id o s h).1, ==_refl id)

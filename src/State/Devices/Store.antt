-- ===== src/State/Devices/Store.antt =====
-- What an operation leaves in memory: the devices after `Add`, `Remove` and `Authenticate`.
use docker_mobile.Base.{
  ℕ, ◌≡◌, refl, sym, ◌∙◌, inl, inr, true, false, Option, none, some, List, [], ◌∷◌, ◌++◌, arith,
  ltb, Bool-cases, Option-cases, Text, codes, length, take, ◌==◌, nat_eq, text_eq, ==_refl, lookup,
  insert, lookup-insert, insert_new, ok, err, contains_byte, hex, hex-no-dot,
}
use docker_mobile.State.Dir.{Folder, Faults, write_file}
use docker_mobile.State.Sort.{sort_by}
use docker_mobile.State.Tokens.{make_token, token_id}
use docker_mobile.State.Tokens.Parse.{token_id-make_token}
use docker_mobile.State.Devices.{
  Device, Devices, Library, valid_role, save, saved, values, id_less, draw_id, store_device,
  make_device, with_id, add, Added, devices_file, touch, check_token, authenticate,
}

-- A save changes no device.
saved-by_id :
    (ds : List Device) (s : Devices) (r : Folder × Option Text) → (saved ds s r).0.by_id ≡ s.by_id
unfolding saved
saved-by_id ds s (d, none) = refl
saved-by_id ds s (d, some e) = refl

pub save-by_id : (lib : Library) (os : Faults) (s : Devices) → (save lib os s).0.by_id ≡ s.by_id
unfolding save
save-by_id lib os s =
    let list = sort_by id_less (values s.by_id) in
    elim (Option-cases (lib.encode list)) [
      | inl e ↦ rw (e, save)
      | inr (text, e) ↦
          rw (e, save) (saved-by_id list s (write_file os devices_file (text ++ 10 ∷ []) s.folder))
    ]

draw_id-fresh :
    (random : List ℕ) (m : List (Text × Device)) (id : Text) (rest : List ℕ)
    → draw_id random m ≡ some (id, rest)
    → (lookup id m ≡ none) × (contains_byte b'.' id ≡ false) × ((id == []) ≡ false)
unfolding draw_id hex
draw_id-fresh (a ∷ b ∷ c ∷ d ∷ rest) m id left h =
    ground (arith, draw_id-fresh rest m id left, hex-no-dot (a ∷ b ∷ c ∷ d ∷ []))
draw_id-fresh (a ∷ b ∷ c ∷ []) m id left h = ground arith
draw_id-fresh (a ∷ b ∷ []) m id left h = ground arith
draw_id-fresh (a ∷ []) m id left h = ground arith
draw_id-fresh [] m id left h = ground arith

-- An `Add` that fails leaves the devices exactly as they were.
store_device-err :
    (lib : Library) (os : Faults) (d : Device) (token e : Text) (s : Devices)
    → lookup d.id s.by_id ≡ none
    → (store_device lib os d token s).1 ≡ err e
    → (store_device lib os d token s).0.by_id ≡ s.by_id
unfolding store_device
store_device-err lib os d token e s fresh h =
    let s' = record s { by_id = insert d.id d s.by_id } in
    ground (arith, save-by_id lib os s', insert_new d.id d s.by_id fresh)

pub add-cases :
    (P : Devices × Added → Type 0) (lib : Library) (os : Faults) (random : List ℕ) (now : ℕ)
    (name role : Text) (s : Devices)
    → ((e : Text) → P (s, err e))
    → ((id secret : Text)
        → lookup id s.by_id ≡ none
        → contains_byte b'.' id ≡ false
        → (id == []) ≡ false
        → valid_role role ≡ true
        → let token = make_token id secret in
          P (store_device lib os (make_device lib id name role token now) token s))
    → P (add lib os random now name role s)
unfolding add with_id
add-cases P lib os random now name role s refused stored = elim (Bool-cases (valid_role role)) [
  | inr e ↦ rw e (refused (codes "unknown role"))
  | inl e ↦ rw e (elim (Option-cases (draw_id random s.by_id)) [
    | inl n ↦ rw (n, with_id) (refused (codes "random id"))
    | inr ((id, rest), d) ↦
        rw (d, with_id) (drawn id rest e (draw_id-fresh random s.by_id id rest d))
  ])
]
  where
    drawn :
        (id rest : Text)
        → valid_role role ≡ true
        → (lookup id s.by_id ≡ none) × (contains_byte b'.' id ≡ false) × ((id == []) ≡ false)
        → P (with_id lib os now name role s (some (id, rest)))
    drawn id rest v (fresh, dot, some_id) =
        unfold with_id in
        elim (Bool-cases (ltb (length rest) 32)) [
          | inl short ↦ rw short (refused (codes "random token"))
          | inr long ↦ rw long (stored id (take 32 rest) fresh dot some_id v)
        ]

-- An `Add` that fails, wherever it fails, leaves the devices in memory exactly as they were.
pub add_failed :
    (lib : Library) (os : Faults) (random : List ℕ) (now : ℕ) (name role e : Text) (s : Devices)
    → (add lib os random now name role s).1 ≡ err e
    → (add lib os random now name role s).0.by_id ≡ s.by_id
unfolding make_device
add_failed lib os random now name role e s =
    add-cases (λ r. r.1 ≡ err e → r.0.by_id ≡ s.by_id) lib os random now name role s (λ _ _. refl)
      λ id secret fresh _ _ _.
        store_device-err lib os (make_device lib id name role (make_token id secret) now)
          (make_token id secret) e s fresh

store_device-ok :
    (lib : Library) (os : Faults) (x d : Device) (t token : Text) (s : Devices)
    → (store_device lib os x t s).1 ≡ ok (d, token)
    → (x ≡ d) × (t ≡ token) × ((store_device lib os x t s).0.by_id ≡ insert x.id x s.by_id)
unfolding store_device
store_device-ok lib os x d t token s h =
    let s' = record s { by_id = insert x.id x s.by_id } in ground (arith, save-by_id lib os s')

-- What `Add` returns is what it stored: the token names the device, and the device keeps its hash.
pub record Stored (lib : Library) (d : Device) (token : Text) (s s' : Devices) : Type 0 where
  pub named : token_id token ≡ some d.id
  pub hashed : d.token_hash ≡ lib.hash_token token
  pub fresh : lookup d.id s.by_id ≡ none
  pub some_id : (d.id == []) ≡ false
  pub valid : valid_role d.role ≡ true
  pub inserted : s'.by_id ≡ insert d.id d s.by_id

-- What an `Add` without error returns is what it stored: the token names the device and the device
-- keeps the token's hash, its id was free and is not empty, its role is valid, and the devices in
-- memory are the old ones with this one added.
pub add-Stored :
    (lib : Library) (os : Faults) (random : List ℕ) (now : ℕ) (name role : Text) (s : Devices)
    (d : Device) (token : Text)
    → (add lib os random now name role s).1 ≡ ok (d, token)
    → Stored lib d token s (add lib os random now name role s).0
unfolding make_device
add-Stored lib os random now name role s d token =
    add-cases (λ r. r.1 ≡ ok (d, token) → Stored lib d token s r.0) lib os random now name role s
      (λ e h. absurd (cc h))
      λ id secret fresh dot some_id v h. stored id secret fresh dot some_id v (
        store_device-ok lib os (make_device lib id name role (make_token id secret) now) d
          (make_token id secret) token s h)
  where
    stored :
        (id secret : Text)
        → lookup id s.by_id ≡ none
        → contains_byte b'.' id ≡ false
        → (id == []) ≡ false
        → valid_role role ≡ true
        → let t = make_token id secret in
          let x = make_device lib id name role t now in
          (x ≡ d) × (t ≡ token) × ((store_device lib os x t s).0.by_id ≡ insert x.id x s.by_id)
          → Stored lib d token s
              (store_device lib os
                (make_device lib id name role (make_token id secret) now)
                (make_token id secret)
                s).0
    stored id secret fresh dot some_id v (xd, tt', ins) =
        let named' = token_id-make_token id secret dot in
        record {
          named = rw (← tt', ← xd) named';
          hashed = rw (← tt', ← xd) refl;
          fresh = rw (← xd) fresh;
          some_id = rw (← xd) some_id;
          valid = rw (← xd) v;
          inserted = rw (← xd) ins;
        }

pub touch-by_id :
    (lib : Library) (os : Faults) (now : ℕ) (id : Text) (d : Device) (s : Devices)
    → (touch lib os now id d s).0.by_id ≡ insert id (record d { last_seen_at = now }) s.by_id
unfolding touch
touch-by_id lib os now id d s =
    let s' = record s { by_id = insert id (record d { last_seen_at = now }) s.by_id } in
    ground (arith, save-by_id lib os s')

authenticate-some :
    (lib : Library) (os : Faults) (now : ℕ) (token id : Text) (d : Device) (s : Devices)
    → token_id token ≡ some id
    → lookup id s.by_id ≡ some d
    → lib.hash_token token ≡ d.token_hash
    → (authenticate lib os now token s).1 ≡ some (record d { last_seen_at = now })
unfolding authenticate check_token touch
authenticate-some lib os now token id d s i l h =
    rw (i, authenticate, l, check_token, h, ==_refl d.token_hash)

-- Whoever gets a token from a successful `Add` is let in with it, as the device that `Add`
-- returned, at any later time and whatever becomes of the write of the last-seen time.
pub authenticate-add :
    (lib : Library) (os later : Faults) (random : List ℕ) (now at : ℕ) (name role : Text)
    (s : Devices) (d : Device) (token : Text)
    → (add lib os random now name role s).1 ≡ ok (d, token)
    → (authenticate lib later at token (add lib os random now name role s).0).1
      ≡ some (record d { last_seen_at = at })
authenticate-add lib os later random now at name role s d token h =
    let st = add-Stored lib os random now name role s d token h in
    authenticate-some lib later at token d.id d (add lib os random now name role s).0 st.named
      (rw st.inserted (lookup-insert d.id d.id d s.by_id ∙ rw (==_refl d.id))) (sym st.hashed)

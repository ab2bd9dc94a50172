-- ===== src/State/Devices/Book.antt =====
-- What the list of devices promises, without its map, its file and its writes: a book of who is paired.
use docker_mobile.Base.{
  ℕ, ◌≡◌, refl, sym, ap, ◌∙◌, subst, ◌≢◌, true, Option, none, some, List, [], ◌∷◌, if◌then◌else◌,
  Text, length, ◌==◌, nat_eq, text_eq, lookup, lookup-insert, Result, ok, err,
}
use docker_mobile.State.Dir.{Faults}
use docker_mobile.State.Tokens.{token_id}
use docker_mobile.State.Devices.{
  Device, Devices, Library, Added, valid_role, add, authenticate, remove,
}
use docker_mobile.State.Devices.Store.{add_failed, add-Stored}
use docker_mobile.State.Devices.Access.{
  Answers, let_in, kept_out, authenticate-Answers, lookup-remove, remove_failed,
}
use docker_mobile.State.Devices.Restart.{IsValid}
use docker_mobile.State.Devices.Valid.{add-IsValid, authenticate-IsValid, remove-IsValid}

-- Who is paired under an id.
abbrev pub Book : Type 0
Book = Text → Option Device

abbrev pub Same : Book → Book → Type 0
Same b b' = (j : Text) → b' j ≡ b j

-- The book with another entry at one id.
abbrev pub Changed : Text → Option Device → Book → Book → Type 0
Changed id o b b' = (j : Text) → b' j ≡ (if id == j then o else b j)

-- A call of the list, with the random bytes, the time and the disk that it meets.
pub data Call : Type 0 where
  adds : Faults → List ℕ → ℕ → Text → Text → Call
  authenticates : Faults → ℕ → Text → Call
  removes : Faults → Text → Call

-- What a call returned.
pub data Reply : Type 0 where
  added : Added → Reply
  found : Option Device → Reply
  removed : Result Text (Option Device) → Reply

-- What a call may do to the book, and return.
pub data Allowed (lib : Library) (b : Book) : Call → Reply → Book → Type 0 where
  -- A new device, under an id that is free, gets a token whose hash is kept.
  may_add :
      (os : Faults) (random : List ℕ) (now : ℕ) (name role token : Text) (d : Device) (b' : Book)
      → token_id token ≡ some d.id
      → d.token_hash ≡ lib.hash_token token
      → b d.id ≡ none
      → valid_role d.role ≡ true
      → Changed d.id (some d) b b'
      → Allowed lib b (adds os random now name role) (added (ok (d, token))) b'
  may_fail_to_add :
      (os : Faults) (random : List ℕ) (now : ℕ) (name role e : Text) (b' : Book)
      → Same b b'
      → Allowed lib b (adds os random now name role) (added (err e)) b'
  -- The owner of a token is let in, and noted as seen.
  may_let_in :
      (os : Faults) (now : ℕ) (token id : Text) (d : Device) (b' : Book)
      → token_id token ≡ some id
      → b id ≡ some d
      → lib.hash_token token ≡ d.token_hash
      → Changed id (some (record d { last_seen_at = now })) b b'
      → Allowed lib b
          (authenticates os now token)
          (found (some (record d { last_seen_at = now })))
          b'
  -- Only a token that nobody owns is kept out.
  may_keep_out :
      (os : Faults) (now : ℕ) (token : Text) (b' : Book)
      → ((id : Text) (d : Device)
          → token_id token ≡ some id
          → b id ≡ some d
          → lib.hash_token token ≢ d.token_hash)
      → Same b b'
      → Allowed lib b (authenticates os now token) (found none) b'
  may_remove :
      (os : Faults) (id : Text) (b' : Book)
      → Changed id none b b'
      → Allowed lib b (removes os id) (removed (ok (b id))) b'
  may_fail_to_remove :
      (os : Faults) (id e : Text) (b' : Book)
      → Same b b'
      → Allowed lib b (removes os id) (removed (err e)) b'

-- A history of calls and their replies from one book to another.
pub data Follows (lib : Library) : Book → List (Call × Reply) → Book → Type 0 where
  at_rest : (b b' : Book) → Same b b' → Follows lib b [] b'
  goes_on :
      (b b' b'' : Book) (call : Call) (reply : Reply) (rest : List (Call × Reply))
      → Allowed lib b call reply b'
      → Follows lib b' rest b''
      → Follows lib b ((call, reply) ∷ rest) b''

-- The calls on the list itself.
unfoldable pub step : Library → Devices → Call → Devices × Reply
step lib s (adds os random now name role) =
    let (s', r) = add lib os random now name role s in (s', added r)
step lib s (authenticates os now token) =
    let (s', r) = authenticate lib os now token s in (s', found r)
step lib s (removes os id) = let (s', r) = remove lib os id s in (s', removed r)

unfoldable pub run : Library → Devices → List Call → Devices × List (Call × Reply)
run lib s [] = (s, [])
run lib s (c ∷ cs) =
    let (s', reply) = step lib s c in let (t, log) = run lib s' cs in (t, (c, reply) ∷ log)

-- The book of a list.
abbrev pub book : Devices → Book
book s id = lookup id s.by_id

add-Allowed :
    (lib : Library) (os : Faults) (random : List ℕ) (now : ℕ) (name role : Text) (s : Devices)
    (x : Devices × Added)
    → add lib os random now name role s ≡ x
    → Allowed lib (book s) (adds os random now name role) (added x.1) (book x.0)
add-Allowed lib os random now name role s (s', err e) h =
    may_fail_to_add os random now name role e (book s') (λ j.
      ap (λ m. lookup j m)
        (ap (λ y. y.0.by_id) (sym h)
          ∙ add_failed lib os random now name role e s (ap (λ y. y.1) h)))
add-Allowed lib os random now name role s (s', ok (d, token)) h =
    let st = add-Stored lib os random now name role s d token (ap (λ y. y.1) h) in
    may_add os random now name role token d (book s') st.named st.hashed st.fresh st.valid (λ j.
      ap (λ m. lookup j m) (ap (λ y. y.0.by_id) (sym h) ∙ st.inserted)
      ∙ lookup-insert d.id j d s.by_id)

Answers-Allowed :
    (lib : Library) (os : Faults) (now : ℕ) (token : Text) (s : Devices)
    (x : Devices × Option Device)
    → Answers lib now token s x
    → Allowed lib (book s) (authenticates os now token) (found x.1) (book x.0)
Answers-Allowed lib os now token s x (let_in id d owns e b) =
    subst (λ r. Allowed lib (book s) (authenticates os now token) (found r) (book x.0)) (sym e)
      (may_let_in os now token id d (book x.0) owns.named owns.stored owns.hashed (λ j.
        ap (λ m. lookup j m) b ∙ lookup-insert id j (record d { last_seen_at = now }) s.by_id))
Answers-Allowed lib os now token s x (kept_out k e) =
    subst
      (λ (y : Devices × Option Device).
        Allowed lib (book s) (authenticates os now token) (found y.1) (book y.0))
      (sym e)
      (may_keep_out os now token (book s)
        (λ id d n q h. k id d (record { named = n; stored = q; hashed = h })) (λ j. refl))

remove-Allowed :
    (lib : Library) (os : Faults) (id : Text) (s : Devices)
    (x : Devices × Result Text (Option Device))
    → remove lib os id s ≡ x
    → Allowed lib (book s) (removes os id) (removed x.1) (book x.0)
remove-Allowed lib os id s (s', err e) h =
    may_fail_to_remove os id e (book s')
      (λ j. ap (λ y. lookup j y.0.by_id) (sym h) ∙ remove_failed lib os id e j s (ap (λ y. y.1) h))
remove-Allowed lib os id s (s', ok o) h =
    let k : (j : Text)
        → (o ≡ lookup id s.by_id)
          × (lookup j (remove lib os id s).0.by_id ≡ (if id == j then none else lookup j s.by_id)) =
      λ j. lookup-remove lib os id j o s (ap (λ y. y.1) h) in
    subst (λ r. Allowed lib (book s) (removes os id) (removed (ok r)) (book s')) (sym (k id).0)
      (may_remove os id (book s') (λ j. ap (λ y. lookup j y.0.by_id) (sym h) ∙ (k j).1))

step-Allowed :
    (lib : Library) (s : Devices) (c : Call)
    → Allowed lib (book s) c (step lib s c).1 (book (step lib s c).0)
unfolding step
step-Allowed lib s (adds os random now name role) = add-Allowed lib os random now name role s _ refl
step-Allowed lib s (authenticates os now token) =
    Answers-Allowed lib os now token s _ (authenticate-Answers lib os now token s)
step-Allowed lib s (removes os id) = remove-Allowed lib os id s _ refl

-- The list refines the book: in any history of calls, whatever the disk and the random source do, each
-- call returns what the book allows and does to the list what it does to the book.
pub run-Follows :
    (lib : Library) (s : Devices) (calls : List Call)
    → Follows lib (book s) (run lib s calls).1 (book (run lib s calls).0)
unfolding run
run-Follows lib s [] = at_rest _ _ (λ j. refl)
run-Follows lib s (c ∷ cs) =
    goes_on _ _ _ c _ _ (step-Allowed lib s c) (run-Follows lib (step lib s c).0 cs)

pub step-IsValid :
    (lib : Library) (s : Devices) (c : Call)
    → ((t : Text) → length (lib.hash_token t) ≡ 64)
    → IsValid s
    → IsValid (step lib s c).0
unfolding step
step-IsValid lib s (adds os random now name role) digest v =
    add-IsValid lib os random now name role s digest v
step-IsValid lib s (authenticates os now token) digest v = authenticate-IsValid lib os now token s v
step-IsValid lib s (removes os id) digest v = remove-IsValid lib os id s v

-- Every history of calls keeps the list one that `LoadDevices` accepts, each id once and each entry
-- complete, whatever fails on the way, if a digest has 64 hexadecimal digits.
pub run-IsValid :
    (lib : Library) (s : Devices) (calls : List Call)
    → ((t : Text) → length (lib.hash_token t) ≡ 64)
    → IsValid s
    → IsValid (run lib s calls).0
unfolding run
run-IsValid lib s [] digest v = v
run-IsValid lib s (c ∷ cs) digest v =
    run-IsValid lib (step lib s c).0 cs digest (step-IsValid lib s c digest v)

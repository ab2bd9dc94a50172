-- ===== src/State/Devices/Tests.antt =====
-- Runs of the list of devices, on a small stand-in for the standard library.
use docker_mobile.Base.{
  take-front, drop-front, some-inv, ℕ, zero, suc, ◌≡◌, refl, ap, subst, ◌≢◌, Option, none, some,
  List, [], ◌∷◌, ◌++◌, append_assoc, arith, leb, nat_beq, Text, codes, length, take, drop, nat_eq,
  text_eq, lookup, insert, delete, ok, err, cut_prefix, has_prefix, cut, hex,
}
use docker_mobile.State.Dir.{Faults, no_faults, write_file, write_error}
use docker_mobile.State.Dir.Write
use docker_mobile.State.Dir.Write.{Ends}
use docker_mobile.State.Names.{clean_name}
use docker_mobile.State.Sort.{sort_by}
use docker_mobile.State.Tokens.{make_token, token_id, base64_url}
use docker_mobile.State.Devices.{
  role_full, role_read_only, valid_role, Device, Library, Devices, devices_file, add, authenticate,
  remove, load_devices, save, complete, check_token, touch, save_due, remove_device, store_device,
  with_id, make_device, draw_id,
}
use docker_mobile.State.Devices.Store
use docker_mobile.State.Devices.Store.{Stored}
use docker_mobile.State.Devices.Access
use docker_mobile.State.Devices.Access.{Answers}
use docker_mobile.State.Devices.Restart
use docker_mobile.State.Devices.Restart.{ReadsBack, IsValid}
use docker_mobile.State.Devices.Valid
use docker_mobile.State.Devices.Book
use docker_mobile.State.Devices.Durable
use docker_mobile.State.Devices.Durable.{Restarts}

-- Sixty-four bytes for any text.
pad : ℕ → Text → Text
pad zero t = []
pad (suc n) [] = 0 ∷ pad n []
pad (suc n) (c ∷ t) = c ∷ pad n t

length-pad : (n : ℕ) (t : Text) → length (pad n t) ≡ n
unfolding pad
length-pad zero t = refl
length-pad (suc n) [] = omega (length-pad n [], arith)
length-pad (suc n) (c ∷ t) = omega (length-pad n t, arith)

-- A codec for at most one device.
encode_one : List Device → Option Text
encode_one [] = some []
encode_one (d ∷ []) = some (
    length d.id
    ∷ length d.name
    ∷ length d.role
    ∷ d.created_at
    ∷ d.last_seen_at
    ∷ (d.id ++ (d.name ++ (d.role ++ d.token_hash))))
encode_one (d ∷ e ∷ ds) = none

-- The text without its last byte.
chop : Text → Text
chop [] = []
chop (c ∷ []) = []
chop (c ∷ d ∷ t) = c ∷ chop (d ∷ t)

decode_one : Text → Option (List Device)
unfolding chop
decode_one (i ∷ n ∷ r ∷ created ∷ seen ∷ t) = some (
    record {
      id = take i t;
      name = take n (drop i t);
      role = take r (drop n (drop i t));
      token_hash = chop (drop r (drop n (drop i t)));
      created_at = created;
      last_seen_at = seen;
    }
    ∷ [])
decode_one short = some []

abbrev lib : Library
lib = record {
  hash_token = pad 64;
  encode = encode_one;
  decode = decode_one;
  is_space = λ r. nat_beq r 32;
  is_print = λ r. leb 32 r;
}

none≢text : (t : Text) → none ≢ some t
none≢text t h = ground (h, arith)

chop-append : (t : Text) (c : ℕ) → chop (t ++ c ∷ []) ≡ t
unfolding chop
chop-append [] c = refl
chop-append (a ∷ []) c = refl
chop-append (a ∷ b ∷ t) c = ap (λ x. a ∷ x) (chop-append (b ∷ t) c)

lib-ReadsBack : ReadsBack lib
unfolding encode_one decode_one
lib-ReadsBack [] text e = subst (λ t. decode_one (t ++ 10 ∷ []) ≡ some []) (some-inv [] text e) refl
lib-ReadsBack (d ∷ []) text e =
    subst (λ t. decode_one (t ++ 10 ∷ []) ≡ some (d ∷ [])) (some-inv _ text e)
      (simp (append_assoc, take-front, drop-front, chop-append))
lib-ReadsBack (d ∷ f ∷ ds) text e = absurd (none≢text text e)

abbrev os : Faults
os = no_faults (codes "7")

abbrev bad : Faults
bad = record os { write = some (codes "no space left on device"); partial = codes "{" }

abbrev empty : Devices
empty = record { folder = []; by_id = []; persisted = [] }

abbrev draw : List ℕ
draw = pad 36 (18 ∷ 52 ∷ 86 ∷ 120 ∷ 1 ∷ 2 ∷ 3 ∷ [])

abbrev the_id : Text
the_id = codes "12345678"

abbrev the_token : Text
the_token = make_token the_id (drop 4 draw)

abbrev phone : Device
phone = record {
  id = the_id;
  name = codes "Pixel";
  role = role_full;
  token_hash = pad 64 the_token;
  created_at = 1000;
  last_seen_at = 1000;
}

runs : Unit {0}
unfolding add authenticate remove load_devices with_id draw_id store_device save remove_device
    sort_by write_file make_device clean_name token_id base64_url save_due touch check_token
    valid_role complete pad decode_one encode_one chop lookup insert delete has_prefix cut_prefix
    cut hex
runs = tt

added : (add lib os draw 1000 (codes " Pixel") role_full empty).1 ≡ ok (phone, the_token)
unfolding runs with_id draw_id store_device save sort_by write_file make_device clean_name
added = refl

abbrev paired : Devices
paired = (add lib os draw 1000 (codes " Pixel") role_full empty).0

let_in_later :
    (authenticate lib os 5000 the_token paired).1 ≡ some (record phone { last_seen_at = 5000 })
unfolding runs
let_in_later = refl

wrong_secret : (authenticate lib os 5000 (the_token ++ 65 ∷ []) paired).1 ≡ none
unfolding runs
wrong_secret = refl

-- The second write fails, so the second device is not there.
add_fails :
    (add lib bad draw 2000 (codes "Tab") role_read_only empty).1
    ≡ err (write_error devices_file (codes "no space left on device"))
unfolding runs
add_fails = refl

authenticate-add_example :
    (authenticate lib bad 5000 the_token
      (add lib os draw 1000 (codes " Pixel") role_full empty).0).1
    ≡ some (record phone { last_seen_at = 5000 })
authenticate-add_example =
    Store.authenticate-add lib os bad draw 1000 5000 (codes " Pixel") role_full empty phone
      the_token added

add-Stored_example : Stored lib phone the_token empty paired
add-Stored_example =
    Store.add-Stored lib os draw 1000 (codes " Pixel") role_full empty phone the_token added

authenticate-Answers_example :
    Answers lib 5000 the_token paired (authenticate lib os 5000 the_token paired)
authenticate-Answers_example = Access.authenticate-Answers lib os 5000 the_token paired

removed : (remove lib os the_id paired).1 ≡ ok (some phone)
unfolding runs
removed = refl

not_removed :
    (remove lib bad the_id paired).1
    ≡ err (write_error devices_file (codes "no space left on device"))
unfolding runs
not_removed = refl

named : token_id the_token ≡ some the_id
unfolding runs
named = refl

digest : (t : Text) → length (lib.hash_token t) ≡ 64
digest t = length-pad 64 t

empty-IsValid : IsValid empty
empty-IsValid = record { distinct = tt; keyed = tt }

paired-IsValid : IsValid paired
paired-IsValid =
    Valid.add-IsValid lib os draw 1000 (codes " Pixel") role_full empty digest empty-IsValid

saves : (save lib os paired).1 ≡ none
unfolding runs
saves = refl

load_devices-save_example :
    let folder = (save lib os paired).0.folder in
    (t : Devices) × (load_devices lib folder (ok (lookup devices_file folder)) ≡ ok t)
    × ((j : Text) → lookup j t.by_id ≡ lookup j paired.by_id)
load_devices-save_example =
    Restart.load_devices-save lib os paired lib-ReadsBack paired-IsValid saves

noted : lookup the_id paired.persisted ≡ some 1000
unfolding runs
noted = refl

write_file-Ends_example :
    Ends bad devices_file
      (codes "[]")
      paired.folder
      (write_file bad devices_file (codes "[]") paired.folder)
write_file-Ends_example = Write.write_file-Ends bad devices_file (codes "[]") paired.folder

-- A phone is added, lets itself in, is not removed at first, and then is.
abbrev calls : List Book.Call
calls =
    Book.adds os draw 1000 (codes " Pixel") role_full
    ∷ Book.authenticates os 5000 the_token
    ∷ Book.removes bad the_id
    ∷ Book.removes os the_id
    ∷ []

run-Follows_example :
    Book.Follows lib
      (Book.book empty)
      (Book.run lib empty calls).1
      (Book.book (Book.run lib empty calls).0)
run-Follows_example = Book.run-Follows lib empty calls

run-IsValid_example : IsValid (Book.run lib empty calls).0
run-IsValid_example = Book.run-IsValid lib empty calls digest empty-IsValid

first_start : lookup devices_file empty.folder ≡ none
unfolding lookup
first_start = refl

run-Restarts_example : Restarts lib (Book.run lib empty calls).0
run-Restarts_example =
    Durable.run-Restarts lib [] calls lib-ReadsBack digest first_start
      (refl, (refl, (refl, (refl, tt))))

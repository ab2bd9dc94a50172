-- ===== src/State/Dir/Write.antt =====
-- `WriteFile` replaces a file as a whole or not at all.
use docker_mobile.Base.{
  ◌≡◌, refl, ap, ◌≢◌, ◌↔◌, Option, none, some, [], ◌++◌, arith, Text, codes, length, length-append,
  nat_eq, text_eq, ==_iff, ==_refl, lookup, insert, delete, lookup-insert, lookup-delete, Result,
  ok, err,
}
use mathlib.Core.Option
use docker_mobile.State.Dir.{
  Folder, Faults, temp_prefix, temp_name, remove_temp, write_temp, replace_target, write_file,
  write_error,
}

-- The outcome of `write_temp`: other files than the temporary one are as they were.
abbrev Untouched : Text → Folder → Result (Folder × Text) Folder → Text → Type 0
Untouched tmp d (err (d', e)) j = lookup j d' ≡ lookup j d
Untouched tmp d (ok d') j = lookup j d' ≡ lookup j d

remove_temp-lookup :
    (os : Faults) (tmp c j : Text) (d : Folder)
    → tmp ≢ j
    → lookup j (remove_temp os tmp (insert tmp c d)) ≡ lookup j d
unfolding remove_temp
remove_temp-lookup os tmp c j d ne =
    ground (arith, lookup-insert tmp j c d, lookup-delete tmp j (insert tmp c d), ==_iff tmp j)

write_temp-Untouched :
    (os : Faults) (tmp c j : Text) (d : Folder)
    → tmp ≢ j
    → Untouched tmp d (write_temp os tmp c d) j
unfolding write_temp
write_temp-Untouched os tmp c j d ne = ground (
  arith,
  ne,
  remove_temp-lookup os tmp [] j d ne,
  remove_temp-lookup os tmp os.partial j d ne,
  remove_temp-lookup os tmp c j d ne,
  lookup-insert tmp j c d,
  ==_iff tmp j,
)

temp_name-ne : (os : Faults) (name : Text) → temp_name os name ≢ name
unfolding temp_prefix
temp_name-ne os name e = omega (
  arith,
  ap length e,
  length-append (codes "." ++ (name ++ codes ".")) os.random,
  length-append (codes ".") (name ++ codes "."),
  length-append name (codes "."),
)

-- How a `WriteFile` ends: the target replaced, or kept with an error.
pub data Ends (os : Faults) (name contents : Text) (d : Folder)
    : Folder × Option Text → Type 0 where
  replaced :
      {r : Folder × Option Text}
      → lookup name r.0 ≡ some contents
      → ((os.sync_dir ≡ none) ↔ (r.1 ≡ none))
      → Ends os name contents d r
  kept :
      {r : Folder × Option Text} (e : Text)
      → lookup name r.0 ≡ lookup name d
      → r.1 ≡ some (write_error name e)
      → Ends os name contents d r

sync_dir-none :
    (os : Faults) (name : Text)
    → (os.sync_dir ≡ none) ↔ (Option.map (write_error name) os.sync_dir ≡ none)
sync_dir-none os name = ground arith

target-Ends :
    (os : Faults) (name contents tmp : Text) (d : Folder) (r : Result (Folder × Text) Folder)
    → Untouched tmp d r name
    → Ends os name contents d (replace_target os name tmp contents r)
unfolding replace_target
target-Ends os name contents tmp d (err (d', e)) h = kept e h refl
target-Ends os name contents tmp d (ok d') h =
    replaced (ground (arith, lookup-insert name name contents (delete tmp d'), ==_refl name))
      (sync_dir-none os name)

-- `WriteFile` is atomic, however its steps end: the file has the new contents, and then an error
-- means that the folder could not be synced; or the file is as it was, and there is an error.
pub write_file-Ends :
    (os : Faults) (name contents : Text) (d : Folder)
    → Ends os name contents d (write_file os name contents d)
unfolding write_file
write_file-Ends os name contents d =
    let tmp = temp_name os name in
    target-Ends os name contents tmp d (write_temp os tmp contents d)
      (write_temp-Untouched os tmp contents name d (temp_name-ne os name))

target-other :
    (os : Faults) (name contents tmp j : Text) (d : Folder) (r : Result (Folder × Text) Folder)
    → name ≢ j
    → tmp ≢ j
    → Untouched tmp d r j
    → lookup j (replace_target os name tmp contents r).0 ≡ lookup j d
unfolding replace_target
target-other os name contents tmp j d (err (d', e)) n m h = h
target-other os name contents tmp j d (ok d') n m h = ground (
  arith,
  h,
  n,
  m,
  lookup-insert name j contents (delete tmp d'),
  lookup-delete tmp j d',
  ==_iff name j,
  ==_iff tmp j,
)

-- Other files than the target and the temporary file are as they were.
pub write_file_other :
    (os : Faults) (name contents j : Text) (d : Folder)
    → name ≢ j
    → temp_name os name ≢ j
    → lookup j (write_file os name contents d).0 ≡ lookup j d
unfolding write_file
write_file_other os name contents j d n m =
    let tmp = temp_name os name in
    target-other os name contents tmp j d (write_temp os tmp contents d) n m
      (write_temp-Untouched os tmp contents j d m)

ok-Ends :
    {os : Faults} {name contents : Text} {d : Folder} {r : Folder × Option Text}
    → Ends os name contents d r
    → r.1 ≡ none
    → lookup name r.0 ≡ some contents
ok-Ends (replaced p e) h = p
ok-Ends (kept e p q) h = absurd (cc (q, h))

pub write_file-ok :
    (os : Faults) (name contents : Text) (d : Folder)
    → (write_file os name contents d).1 ≡ none
    → lookup name (write_file os name contents d).0 ≡ some contents
write_file-ok os name contents d h = ok-Ends (write_file-Ends os name contents d) h

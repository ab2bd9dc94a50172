-- ===== src/State/Dir.antt =====
-- agent/internal/state/dir.go: the state folder. A folder is the map from the names of its files to
-- their contents. What the operating system answers, step by step, is an argument.
pub mod Write
use mathlib.Core.Option
use docker_mobile.Base.{
  ◌+◌, Bool, true, Option, none, some, List, [], ◌++◌, map, if◌then◌else◌, Text, codes, text_eq,
  insert, delete, Result, ok, err,
}

abbrev pub Folder : Type 0
Folder = List (Text × Text)

-- `tempPrefix`.
unfoldable pub temp_prefix : Text → Text
temp_prefix name = codes "." ++ (name ++ codes ".")

-- How the steps of one `WriteFile` end: the error of each, if it fails. `random` is what
-- `os.CreateTemp` puts behind the prefix, `partial` what a failing write has written, and `removes`
-- says whether the temporary file can be removed again.
pub record Faults : Type 0 where
  pub random : Text
  pub create : Option Text
  pub chmod : Option Text
  pub write : Option Text
  pub partial : Text
  pub sync : Option Text
  pub close : Option Text
  pub rename : Option Text
  pub sync_dir : Option Text
  pub removes : Bool

abbrev pub no_faults : Text → Faults
no_faults random = record {
  random = random;
  create = none;
  chmod = none;
  write = none;
  partial = [];
  sync = none;
  close = none;
  rename = none;
  sync_dir = none;
  removes = true;
}

-- The name of the temporary file.
abbrev pub temp_name : Faults → Text → Text
temp_name os name = temp_prefix name ++ os.random

-- `os.Remove(tmpName)`, whose error is ignored.
remove_temp : Faults → Text → Folder → Folder
remove_temp os tmp d = if os.removes then delete tmp d else d

-- `errors` wrapped as "write NAME: ...".
abbrev pub write_error : Text → Text → Text
write_error name e = codes "write " ++ (name ++ (codes ": " ++ e))

-- The folder after the steps up to `os.Rename`, or the error with the folder that it leaves.
write_temp : Faults → Text → Text → Folder → Result (Folder × Text) Folder
write_temp os tmp contents d = elim os.create [
  | some e ↦ err (d, e)
  | none ↦ elim os.chmod [
    | some e ↦ err (remove_temp os tmp (insert tmp [] d), e)
    | none ↦ elim os.write [
      | some e ↦ err (remove_temp os tmp (insert tmp os.partial d), e)
      | none ↦ elim os.sync [
        | some e ↦ err (remove_temp os tmp (insert tmp contents d), e)
        | none ↦ elim os.close [
          | some e ↦ err (remove_temp os tmp (insert tmp contents d), e)
          | none ↦ elim os.rename [
            | some e ↦ err (remove_temp os tmp (insert tmp contents d), e)
            | none ↦ ok (insert tmp contents d)
          ]
        ]
      ]
    ]
  ]
]

-- `os.Rename` over the target, then `syncDir`.
replace_target : Faults → Text → Text → Text → Result (Folder × Text) Folder → Folder × Option Text
replace_target os name tmp contents (err (d, e)) = (d, some (write_error name e))
replace_target os name tmp contents (ok d) =
    (insert name contents (delete tmp d), Option.map (write_error name) os.sync_dir)

-- `WriteFile`: the folder afterwards, and the error if there is one.
unfoldable pub write_file : Faults → Text → Text → Folder → Folder × Option Text
unfolding write_temp replace_target remove_temp
write_file os name contents d =
    let tmp = temp_name os name in
    replace_target os name tmp contents (write_temp os tmp contents d)

refused_sync : (Text → Bool) → Option Text → Option Text
refused_sync refuses none = none
refused_sync refuses (some e) = if refuses e then none else some e

-- `syncDir`: what it makes of the errors of the folder's open, sync and close. `refuses` says
-- whether an error is EINVAL.
pub sync_dir : Bool → (Text → Bool) → Option Text → Option Text → Option Text → Option Text
unfolding refused_sync
sync_dir windows refuses opened synced closed = if windows then none else elim opened [
  | some e ↦ some e
  | none ↦ refused_sync refuses (elim synced [ none ↦ closed | some e ↦ some e ])
]

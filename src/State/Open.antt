-- ===== src/State/Open.antt =====
-- agent/internal/state/dir.go: how `Open` takes the state folder, with the looks of os_unix.go and
-- os_windows.go at its owner and its mode. The folder is a node with its entries. What the system
-- answers is an argument, and so is what others do to the folder between two steps.
pub mod Looks
pub mod Private
pub mod Own
mod Tests
use docker_mobile.Base.{
  ℕ, ◌+◌, ◌/◌, ◌%◌, Bool, true, false, ◌&&◌, ◌||◌, not, Option, none, some, List, [], ◌∷◌, ◌++◌,
  ltb, if◌then◌else◌, nat_beq, Text, codes, length, ◌==◌, text_eq, has_prefix,
}
use docker_mobile.State.Dir.{temp_prefix}
use docker_mobile.State.Devices.{devices_file}

pub record Entry : Type 0 where
  pub name : Text
  pub is_dir : Bool

-- What is at the path: what Stat says of it, and what ReadDir lists.
pub record Node : Type 0 where
  pub is_folder : Bool
  pub owner : ℕ
  pub mode : ℕ
  pub entries : List Entry

pub data OpenError : Type 0 where
  empty_path parent_failed mkdir_failed not_a_folder unknown_owner other_owner unreadable
        chmod_failed :
      OpenError
  not_writable : OpenError
  shared_with not_own put_meanwhile : Text → OpenError

-- What the system answers, and what others do: before Stat, before the first look at the entries,
-- and before the folder is closed. `user` is the user the agent runs as. `probe_left` is the random part
-- of the probe's name where the probe cannot be removed again.
pub record Outside : Type 0 where
  pub windows : Bool
  pub user : ℕ
  pub parent_fails : Bool
  pub mkdir_fails : Bool
  pub stat_fails : Bool
  pub owner_known : Bool
  pub list_fails : Bool
  pub list_again_fails : Bool
  pub close_fails : Bool
  pub chmod_fails : Bool
  pub probe_fails : Bool
  pub probe_left : Option Text
  pub before_stat : Option Node → Option Node
  pub before_listing : Node → Node
  pub before_closing : Node → Node

-- The mode 0700.
abbrev pub private_mode : ℕ
private_mode = 448

-- The bits of 0022 in the permissions. On Windows no mode is looked at.
unfoldable pub others_can_write : Bool → ℕ → Bool
others_can_write windows mode =
    not windows && (nat_beq (mode / 2 % 2) 1 || nat_beq (mode / 16 % 2) 1)

-- `sameUser`.
unfoldable pub same_user : Outside → Node → Bool
same_user o n = nat_beq n.owner o.user

-- `checkOwner`. On Windows no owner is looked at.
unfoldable pub check_owner : Outside → Node → Option OpenError
check_owner o n =
    if o.windows
    then none
    else if not o.owner_known
    then some unknown_owner
    else if same_user o n
    then none
    else some other_owner

-- `isLostAndFound`.
unfoldable pub is_lost_and_found : Entry → Bool
is_lost_and_found e = e.name == codes "lost+found" && e.is_dir

-- `firstEntry`.
pub first_entry : List Entry → Option Entry
unfolding is_lost_and_found
first_entry [] = none
first_entry (e ∷ es) = let rest = first_entry es in if is_lost_and_found e then rest else some e

-- `begins`.
unfoldable pub begins : Text → Text → Bool
begins name prefix = ltb (length prefix) (length name) && has_prefix prefix name

abbrev pub probe_prefix : Text
probe_prefix = codes "probe."

-- `ownFiles`.
abbrev pub own_files : List Text
own_files =
    devices_file ∷ codes "tls.key" ∷ codes "tls.crt" ∷ codes "admin.sock" ∷ codes "agent.lock" ∷ []

-- The loop of `isOwn`.
pub own_name : List Text → Text → Bool
unfolding begins
own_name [] name = begins name probe_prefix
own_name (own ∷ more) name = (name == own || begins name (temp_prefix own)) || own_name more name

-- `isOwn`.
unfoldable pub is_own : Entry → Bool
unfolding own_name is_lost_and_found
is_own e = is_lost_and_found e || own_name own_files e.name

-- The loop of `checkExisting`: the first entry that is not the agent's own.
pub first_other : List Entry → Option Entry
unfolding is_own
first_other [] = none
first_other (e ∷ es) = let rest = first_other es in if is_own e then rest else some e

unfoldable pub refuse_entry : (Text → OpenError) → Option Entry → Option OpenError
refuse_entry refusal none = none
refuse_entry refusal (some e) = some (refusal e.name)

-- The end of `checkExisting`, from the entries that are listed.
pub check_entries : Bool → List Entry → Option OpenError
unfolding refuse_entry
check_entries shared entries =
    if shared
    then refuse_entry shared_with (first_entry entries)
    else refuse_entry not_own (first_other entries)

-- The first of two refusals.
abbrev pub or_else : Option OpenError → Option OpenError → Option OpenError
or_else none next = next
or_else (some e) next = some e

-- `checkExisting`: `n` is what Stat said, and `entries` what is listed, if it can be.
unfoldable pub check_existing : Outside → Node → List Entry → Option OpenError
check_existing o n entries =
    if not n.is_folder
    then some not_a_folder
    else or_else (check_owner o n) (
        if o.list_fails
        then some unreadable
        else check_entries (others_can_write o.windows n.mode) entries)

-- `checkStillEmpty`.
unfoldable pub check_still_empty : Outside → List Entry → Option OpenError
check_still_empty o entries =
    if o.list_again_fails then some unreadable else refuse_entry put_meanwhile (first_entry entries)

abbrev pub close : Node → Node
close n = record n { mode = private_mode }

-- What `Open` leaves at the path, and its error if there is one.
abbrev pub Opened : Type 0
Opened = Option Node × Option OpenError

-- The file that `probe` makes.
abbrev pub probe_file : Text → Entry
probe_file random = record { name = probe_prefix ++ random; is_dir = false }

-- What `probe` leaves where it can make its file.
abbrev pub probed : Option Text → Node → Node
probed none n = n
probed (some random) n = record n { entries = probe_file random ∷ n.entries }

-- The end of `Open`: the folder is closed, and `probe` tries it.
unfoldable pub finish : Outside → Node → Opened
finish o n =
    if o.chmod_fails
    then (some n, some chmod_failed)
    else if o.probe_fails
    then (some (close n), some not_writable)
    else (some (probed o.probe_left (close n)), none)

-- A refusal leaves the folder, or the next step follows.
unfoldable pub unless_refused : Node → Option OpenError → Opened → Opened
unless_refused n none next = next
unless_refused n (some e) next = (some n, some e)

-- A folder that others could write to is closed and looked at again.
unfoldable pub close_and_look : Outside → Node → Opened
close_and_look o n =
    if o.close_fails
    then (some n, some chmod_failed)
    else unless_refused (close n) (check_still_empty o n.entries) (finish o (close n))

-- From what Stat said to the end.
unfoldable pub take_existing : Outside → Node → Opened
take_existing o n =
    let seen = o.before_listing n in
    let later = o.before_closing seen in
    unless_refused seen (check_existing o n seen.entries)
      (if others_can_write o.windows n.mode then close_and_look o later else finish o later)

unfoldable pub stat_existing : Outside → Option Node → Opened
stat_existing o none = (none, some mkdir_failed)
stat_existing o (some n) = if o.stat_fails then (some n, some mkdir_failed) else take_existing o n

abbrev pub new_node : Outside → Node
new_node o = record { is_folder = true; owner = o.user; mode = private_mode; entries = [] }

-- `os.Mkdir`, and what follows when the folder is new or not.
unfoldable pub make : Outside → Option Node → Opened
make o (some n) = stat_existing o (o.before_stat (some n))
make o none = if o.mkdir_fails then stat_existing o (o.before_stat none) else finish o (new_node o)

-- `Open`, for a path that is clean already.
unfoldable pub open_folder : Outside → Text → Option Node → Opened
open_folder o path place =
    if path == []
    then (place, some empty_path)
    else if o.parent_fails
    then (place, some parent_failed)
    else make o place

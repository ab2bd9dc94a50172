-- ===== src/State/Open/Tests.antt =====
-- Runs of `Open`.
use docker_mobile.Base.{
  ℕ, arith, ◌≡◌, refl, inl, true, false, none, some, [], ◌∷◌, if◌then◌else◌, Text, codes, nat_eq,
  text_eq, lookup, ne_of_==, cut_prefix, has_prefix, split_if,
}
use docker_mobile.State.Dir.{no_faults, temp_prefix, write_file, Faults}
use docker_mobile.State.Devices.{devices_file}
use docker_mobile.State.Open.{
  Node, Outside, unknown_owner, shared_with, put_meanwhile, others_can_write, same_user,
  check_owner, is_lost_and_found, begins, is_own, refuse_entry, check_existing, check_still_empty,
  finish, unless_refused, close_and_look, take_existing, stat_existing, make, open_folder,
  first_entry, first_other, own_name, check_entries,
}
use docker_mobile.State.Open.Private
use docker_mobile.State.Open.Private.{IsPrivate}
use docker_mobile.State.Open.Looks.{IsClosed, Respects}
use docker_mobile.State.Open.Own
use docker_mobile.State.Open.Own.{AllOwn, file, listing}

-- Others put a file into any folder that they can write to.
drop_in : Node → Node
drop_in n =
    if others_can_write false n.mode
    then record n { entries = file (codes "devices.json") ∷ n.entries }
    else n

others_cannot : (mode : ℕ) → IsClosed mode → others_can_write false mode ≡ false
unfolding others_can_write
others_cannot mode (h, k) = ground (h, k, arith)

drop_in-Respects : Respects drop_in
unfolding drop_in
drop_in-Respects = record {
  kind = λ n.
      split_if (λ (x : Node). x.is_folder ≡ n.is_folder) (others_can_write false n.mode) _ _
        (λ _. refl) (λ _. refl);
  owner = λ n.
      split_if (λ (x : Node). x.owner ≡ n.owner) (others_can_write false n.mode) _ _ (λ _. refl)
        (λ _. refl);
  mode = λ n.
      split_if (λ (x : Node). x.mode ≡ n.mode) (others_can_write false n.mode) _ _ (λ _. refl)
        (λ _. refl);
  private_kept = λ n h. rw (others_cannot n.mode h) refl;
}

abbrev outside : Outside
outside = record {
  windows = false;
  user = 1000;
  parent_fails = false;
  mkdir_fails = false;
  stat_fails = false;
  owner_known = true;
  list_fails = false;
  list_again_fails = false;
  close_fails = false;
  chmod_fails = false;
  probe_fails = false;
  probe_left = some (codes "17");
  before_stat = λ p. p;
  before_listing = drop_in;
  before_closing = drop_in;
}

-- Mode 0755, with a file of the agent's.
abbrev place : Node
place = record {
  is_folder = true;
  owner = 1000;
  mode = 493;
  entries = file (codes "devices.json") ∷ file (codes ".devices.json.17") ∷ [];
}

-- Mode 0777 and empty: what is dropped in is found.
abbrev shared : Node
shared = record place { mode = 511; entries = [] }

path : Text
path = codes "/data"

runs : Unit {0}
unfolding open_folder make stat_existing take_existing check_existing check_still_empty finish
    unless_refused close_and_look others_can_write same_user check_owner is_own is_lost_and_found
    refuse_entry first_entry first_other own_name check_entries begins has_prefix cut_prefix
    temp_prefix drop_in path
runs = tt

taken : (open_folder outside path (some place)).1 ≡ none
unfolding runs
taken = refl

refused : (open_folder outside path (some shared)).1 ≡ some (shared_with (codes "devices.json"))
unfolding runs
refused = refl

-- Put in after the first look.
refused_later :
    (open_folder (record outside { before_listing = λ n. n }) path (some shared)).1
    ≡ some (put_meanwhile (codes "devices.json"))
unfolding runs
refused_later = refl

open_folder-IsPrivate_example :
    (n : Node) × ((open_folder outside path (some place)).0 ≡ some n)
    × IsPrivate outside (some place) n
open_folder-IsPrivate_example =
    Private.open_folder-IsPrivate outside path (some place) refl drop_in-Respects drop_in-Respects
      taken

owner_unknown :
    (open_folder (record outside { owner_known = false }) path (some place)).1 ≡ some unknown_owner
unfolding runs
owner_unknown = refl

abbrev broken : Faults
broken = record (no_faults (codes "17")) {
  write = some (codes "no space left on device");
  removes = false;
}

write_file-AllOwn_example :
    AllOwn (write_file broken devices_file (codes "[]") []).0
    × (check_entries false (listing (write_file broken devices_file (codes "[]") []).0) ≡ none)
unfolding lookup
write_file-AllOwn_example =
    Own.write_file-AllOwn broken devices_file (codes "[]") [] (inl refl)
      (ne_of_== (codes "17") [] refl) (λ j n. refl)

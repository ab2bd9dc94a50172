-- ===== src/State/Devices/Durable.antt =====
-- What is in the file of devices while the agent runs, and what a restart finds.
use docker_mobile.Base.{
  ◌≡◌, refl, sym, ap, ◌∙◌, Option, none, some, List, [], ◌∷◌, Text, length, All, nat_eq, text_eq,
  lookup, ok, none≢some,
}
use mathlib.Core.Option
use docker_mobile.State.Dir.{Folder}
use docker_mobile.State.Devices.{Device, Devices, Library, devices_file, load_devices}
use docker_mobile.State.Devices.Restart.{IsValid, ReadsBack, load_devices-text}
use docker_mobile.State.Devices.Book.{Call, adds, authenticates, removes, step, run, step-IsValid}
use docker_mobile.State.Devices.Writes.{
  unseen, file_of, Similar, SavedNow, Leaves, has_saved, as_before, add-Leaves, authenticate-Leaves,
  remove-Leaves,
}

-- What the folder holds is well-formed and has the devices of the list, or there is no file and no device.
data OnDisk (lib : Library) (s : Devices) : Type 0 where
  no_file : file_of s ≡ none → ((j : Text) → lookup j s.by_id ≡ none) → OnDisk lib s
  has_file :
      (m : Devices)
      → IsValid m
      → SavedNow lib m
      → file_of s ≡ file_of m
      → Similar m s
      → OnDisk lib s

unseen-none : (o : Option Device) → Option.map unseen o ≡ none → o ≡ none
unseen-none none h = refl
unseen-none (some d) h = absurd (none≢some (unseen d) (sym h))

Leaves-OnDisk :
    (lib : Library) (s t : Devices) → Leaves lib s t → IsValid t → OnDisk lib s → OnDisk lib t
Leaves-OnDisk lib s t (has_saved n) v o = has_file t v n refl (λ j. refl)
Leaves-OnDisk lib s t (as_before f b) v (no_file n e) =
    no_file (f ∙ n) (λ j. unseen-none _ (b j ∙ ap (Option.map unseen) (e j)))
Leaves-OnDisk lib s t (as_before f b) v (has_file m w n q c) =
    has_file m w n (f ∙ q) (λ j. b j ∙ c j)

-- The folder of a call can be synced.
abbrev pub Synced : Call → Type 0
Synced (adds os random now name role) = os.sync_dir ≡ none
Synced (authenticates os now token) = os.sync_dir ≡ none
Synced (removes os id) = os.sync_dir ≡ none

step-Leaves : (lib : Library) (s : Devices) (c : Call) → Synced c → Leaves lib s (step lib s c).0
unfolding step
step-Leaves lib s (adds os random now name role) q = add-Leaves lib os random now name role s q
step-Leaves lib s (authenticates os now token) q = authenticate-Leaves lib os now token s q
step-Leaves lib s (removes os id) q = remove-Leaves lib os id s q

run-OnDisk :
    (lib : Library) (s : Devices) (calls : List Call)
    → ((t : Text) → length (lib.hash_token t) ≡ 64)
    → All Synced calls
    → IsValid s
    → OnDisk lib s
    → OnDisk lib (run lib s calls).0
unfolding run
run-OnDisk lib s [] digest a v o = o
run-OnDisk lib s (c ∷ cs) digest a v o =
    let v' = step-IsValid lib s c digest v in
    run-OnDisk lib (step lib s c).0 cs digest a.1 v'
      (Leaves-OnDisk lib s (step lib s c).0 (step-Leaves lib s c a.0) v' o)

-- What an agent that starts on the folder of `s` reads.
abbrev pub Restarts : Library → Devices → Type 0
Restarts lib s = (u : Devices) × (load_devices lib s.folder (ok (file_of s)) ≡ ok u) × Similar s u

OnDisk-Restarts : (lib : Library) (s : Devices) → ReadsBack lib → OnDisk lib s → Restarts lib s
unfolding load_devices SavedNow lookup
OnDisk-Restarts lib s back (no_file n e) = (
  record { folder = s.folder; by_id = []; persisted = [] },
  ap (λ f. load_devices lib s.folder (ok f)) n,
  λ j. ap (Option.map unseen) (sym (e j)),
)
OnDisk-Restarts lib s back (has_file m v (text, q, f) p c) =
    let (u, l, b) =
      load_devices-text lib (record m { folder = s.folder }) text back
        (record { distinct = v.distinct; keyed = v.keyed }) q (p ∙ f) in
    (u, l, λ j. ap (Option.map unseen) (b j) ∙ sym (c j))

-- Nothing that was answered is lost. From the first start on, with any history of calls whose writes may
-- fail in any way but at the sync of the folder: an agent that starts again on the folder finds exactly
-- the devices that were paired, but for the times at which they were last seen. A digest has 64
-- hexadecimal digits, and `encoding/json` reads back what it wrote.
pub run-Restarts :
    (lib : Library) (folder : Folder) (calls : List Call)
    → ReadsBack lib
    → ((t : Text) → length (lib.hash_token t) ≡ 64)
    → lookup devices_file folder ≡ none
    → All Synced calls
    → Restarts lib (run lib (record { folder = folder; by_id = []; persisted = [] }) calls).0
unfolding lookup
run-Restarts lib folder calls back digest none_yet synced =
    let s : Devices = record { folder = folder; by_id = []; persisted = [] } in
    OnDisk-Restarts lib _ back (
      run-OnDisk lib s calls digest synced (record { distinct = tt; keyed = tt })
        (no_file none_yet (λ j. refl)))

-- ===== src/State/Devices/Restart.antt =====
-- The file on disk: what a restart finds, and how often it is written.
use docker_mobile.Base.{
  ◌≡◌, refl, ap, ◌∙◌, inl, inr, true, Option, none, some, List, [], ◌∷◌, ◌++◌, arith, Option-cases,
  Text, All, nat_eq, text_eq, ==_iff, lookup, insert, IsMap, lookup-insert, ok,
}
use docker_mobile.State.Dir.{Folder, Faults, write_file}
use docker_mobile.State.Sort.{sort_by}
use docker_mobile.State.Sort.Laws.{index, lookup-sort_by, sort_by-IsMap, All-sort_by}
use docker_mobile.State.Dir.Write.{write_file-ok}
use docker_mobile.State.Devices.{
  Device, Devices, Library, save, saved, values, id_less, devices_file, complete, load_entries,
  load_devices,
}

-- What `LoadDevices` asks of each entry, and that the map's keys are the ids.
abbrev pub Keyed : Text × Device → Type 0
Keyed (k, d) = (k ≡ d.id) × (complete d ≡ true)

pub record IsValid (s : Devices) : Type 0 where
  pub distinct : IsMap s.by_id
  pub keyed : All Keyed s.by_id

-- A map whose keys are the ids is the index of its values.
index-values : (m : List (Text × Device)) → All Keyed m → index id_less (λ d. d.id) (values m) ≡ m
index-values [] a = refl
index-values ((k, d) ∷ m) a = rw (index-values m a.1, a.0.0)

abbrev Complete : Device → Type 0
Complete d = complete d ≡ true

values-Complete : (m : List (Text × Device)) → All Keyed m → All Complete (values m)
values-Complete [] a = tt
values-Complete ((k, d) ∷ m) a = (a.0.1, values-Complete m a.1)

-- Later entries win; the keys of a list are distinct where this is used.
abbrev or_else : Option Device → Option Device → Option Device
or_else none o = o
or_else (some d) o = some d

or_else-none : (o : Option Device) → or_else o none ≡ o
or_else-none none = refl
or_else-none (some d) = refl

load_entries-ok :
    (ds : List Device) (s : Devices)
    → All Complete ds
    → IsMap (index id_less (λ d. d.id) ds)
    → (t : Devices) × (load_entries ds s ≡ ok t)
      × ((j : Text)
          → lookup j t.by_id ≡ or_else (lookup j (index id_less (λ d. d.id) ds)) (lookup j s.by_id))
unfolding load_entries lookup
load_entries-ok [] s c m = (s, refl, λ j. refl)
load_entries-ok (d ∷ ds) s c m =
    let s' = record s {
      by_id = insert d.id d s.by_id;
      persisted = insert d.id d.last_seen_at s.persisted;
    } in
    let (t, e, l) = load_entries-ok ds s' c.1 m.1 in
    (t, rw c.0 e, λ j. ground (arith, l j, m.0, lookup-insert d.id j d s.by_id, ==_iff d.id j))

-- `encoding/json` reads back what it wrote, the line feed at the end included.
abbrev pub ReadsBack : Library → Type 0
ReadsBack lib =
    (list : List Device) (text : Text)
    → lib.encode list ≡ some text
    → lib.decode (text ++ 10 ∷ []) ≡ some list

saved-ok :
    (ds : List Device) (s : Devices) (r : Folder × Option Text)
    → (saved ds s r).1 ≡ none
    → (r.1 ≡ none) × ((saved ds s r).0.folder ≡ r.0)
unfolding saved
saved-ok ds s (d, none) h = (refl, refl)
saved-ok ds s (d, some e) h = absurd (cc h)

-- What a save without error leaves in the file: the list, sorted by id.
unfoldable pub SavedFile : Library → Devices → Devices × Option Text → Type 0
SavedFile lib s r =
    (text : Text) × (lib.encode (sort_by id_less (values s.by_id)) ≡ some text)
    × (lookup devices_file r.0.folder ≡ some (text ++ 10 ∷ []))

pub saved-file :
    (lib : Library) (os : Faults) (s : Devices)
    → (save lib os s).1 ≡ none
    → SavedFile lib s (save lib os s)
unfolding save SavedFile
saved-file lib os s = elim (Option-cases (lib.encode list)) [
  | inl e ↦ rw (e, save) (λ h. absurd (cc h))
  | inr (text, e) ↦ rw (e, save) (λ h. written text e h)
]
  where
    list : List Device
    list = sort_by id_less (values s.by_id)

    written :
        (text : Text)
        → lib.encode list ≡ some text
        → (saved list s (write_file os devices_file (text ++ 10 ∷ []) s.folder)).1 ≡ none
        → (t : Text) × (some text ≡ some t)
          × (lookup devices_file
                (saved list s (write_file os devices_file (text ++ 10 ∷ []) s.folder)).0.folder
              ≡ some (t ++ 10 ∷ []))
    written text e h =
        let k = saved-ok list s (write_file os devices_file (text ++ 10 ∷ []) s.folder) h in
        (text, refl, rw k.1 (write_file-ok os devices_file (text ++ 10 ∷ []) s.folder k.0))

-- An agent that starts on a folder whose file is that of a well-formed list finds that list.
pub load_devices-text :
    (lib : Library) (s : Devices) (text : Text)
    → ReadsBack lib
    → IsValid s
    → lib.encode (sort_by id_less (values s.by_id)) ≡ some text
    → lookup devices_file s.folder ≡ some (text ++ 10 ∷ [])
    → (t : Devices) × (load_devices lib s.folder (ok (lookup devices_file s.folder)) ≡ ok t)
      × ((j : Text) → lookup j t.by_id ≡ lookup j s.by_id)
unfolding load_devices lookup
load_devices-text lib s text back v e f =
    let list = values s.by_id in
    let same = index-values s.by_id v.keyed in
    let m : IsMap (index id_less (λ d. d.id) list) = rw same v.distinct in
    let (t, loaded, found) =
      load_entries-ok (sort_by id_less list)
        (record { folder = s.folder; by_id = []; persisted = [] })
        (All-sort_by id_less Complete list (values-Complete s.by_id v.keyed))
        (sort_by-IsMap id_less (λ d. d.id) list m) in
    (
      t,
      rw (f, load_devices, back (sort_by id_less list) text e) loaded,
      λ j.
          found j
          ∙ or_else-none (lookup j (index id_less (λ d. d.id) (sort_by id_less list)))
          ∙ lookup-sort_by id_less (λ d. d.id) j list m
          ∙ ap (lookup j) same,
    )

-- After a save without error, an agent that starts again on the folder finds exactly the devices
-- that were paired, provided that `encoding/json` reads back what it wrote.
pub load_devices-save :
    (lib : Library) (os : Faults) (s : Devices)
    → ReadsBack lib
    → IsValid s
    → (save lib os s).1 ≡ none
    → let folder = (save lib os s).0.folder in
      (t : Devices) × (load_devices lib folder (ok (lookup devices_file folder)) ≡ ok t)
      × ((j : Text) → lookup j t.by_id ≡ lookup j s.by_id)
unfolding SavedFile
load_devices-save lib os s back v h =
    let (text, e, f) = saved-file lib os s h in
    load_devices-text lib (record s { folder = (save lib os s).0.folder }) text back
      (record { distinct = v.distinct; keyed = v.keyed }) e f

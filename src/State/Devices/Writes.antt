-- ===== src/State/Devices/Writes.antt =====
-- What each operation of the list leaves in its file.
use docker_mobile.Base.{
  ℕ, ◌≡◌, refl, sym, ap, ◌∙◌, ◌⊎◌, inl, inr, Option, none, some, List, [], ◌∷◌, ◌++◌, if◌then◌else◌,
  Text, ◌==◌, nat_eq, text_eq, ==_iff, lookup, insert, delete, lookup-insert, lookup-delete,
  insert_new, Result, none≢some, split_if, split_option,
}
use mathlib.Core.Option
use docker_mobile.State.Dir.{Faults, Folder}
use docker_mobile.State.Dir.Write.{Ends, replaced, kept, write_file-Ends}
use docker_mobile.State.Sort.{sort_by}
use docker_mobile.State.Tokens.{token_id, make_token}
use docker_mobile.State.Devices.{
  Device, Devices, Library, Added, devices_file, values, id_less, save, saved, store_device,
  make_device, touch, save_due, check_token, authenticate, remove_device, remove, add,
}
use docker_mobile.State.Devices.Store.{save-by_id, add-cases}
use docker_mobile.State.Devices.Access.{remove-cases}
use docker_mobile.State.Devices.Restart.{SavedFile, saved-file}

-- A device without the time at which it was last seen.
abbrev pub unseen : Device → Device
unseen d = record d { last_seen_at = 0 }

abbrev pub file_of : Devices → Option Text
file_of s = lookup devices_file s.folder

-- The file is that of the list.
unfoldable pub SavedNow : Library → Devices → Type 0
SavedNow lib s =
    (text : Text) × (lib.encode (sort_by id_less (values s.by_id)) ≡ some text)
    × (file_of s ≡ some (text ++ 10 ∷ []))

-- The same devices, but for the times at which they were last seen.
abbrev pub Similar : Devices → Devices → Type 0
Similar s t =
    (j : Text) → Option.map unseen (lookup j t.by_id) ≡ Option.map unseen (lookup j s.by_id)

-- How a step from `s` to `t` leaves the file.
pub data Leaves (lib : Library) (s t : Devices) : Type 0 where
  has_saved : SavedNow lib t → Leaves lib s t
  as_before : file_of t ≡ file_of s → Similar s t → Leaves lib s t

-- How a save ends, where the folder can be synced: without an error its list is in the file, and with
-- one the file is as it was.
Saves : Library → Devices → Devices × Option Text → Type 0
Saves lib s x =
    ((x.1 ≡ none) × SavedFile lib s x) ⊎ ((e : Text) × (x.1 ≡ some e) × (file_of x.0 ≡ file_of s))

abbrev Fails : Devices → Devices × Option Text → Type 0
Fails s x = (x.1 ≡ none) ⊎ ((e : Text) × (x.1 ≡ some e) × (file_of x.0 ≡ file_of s))

saved-Ends :
    (os : Faults) (list : List Device) (s : Devices) (contents : Text) (r : Folder × Option Text)
    → os.sync_dir ≡ none
    → Ends os devices_file contents s.folder r
    → Fails s (saved list s r)
unfolding saved
saved-Ends os list s contents (d, none) sync e = inl refl
saved-Ends os list s contents (d, some e) sync (replaced found iff) =
    absurd (none≢some e (sym (iff.0 sync)))
saved-Ends os list s contents (d, some e) sync (kept t found wrong) = inr (e, refl, found)

save-Fails :
    (lib : Library) (os : Faults) (s : Devices) → os.sync_dir ≡ none → Fails s (save lib os s)
unfolding save
save-Fails lib os s sync =
    split_option (Fails s) (lib.encode (sort_by id_less (values s.by_id))) _ _
      (λ e. inr (_, refl, refl))
      (λ text e.
        saved-Ends os (sort_by id_less (values s.by_id)) s (text ++ 10 ∷ []) _ sync
          (write_file-Ends os devices_file (text ++ 10 ∷ []) s.folder))

save-Saves :
    (lib : Library) (os : Faults) (s : Devices) → os.sync_dir ≡ none → Saves lib s (save lib os s)
unfolding Saves
save-Saves lib os s sync = elim (save-Fails lib os s sync) [
  | inl e ↦ inl (e, saved-file lib os s e)
  | inr k ↦ inr k
]

now-of :
    (lib : Library) (os : Faults) (s t : Devices)
    → SavedFile lib s (save lib os s)
    → t.by_id ≡ s.by_id
    → t.folder ≡ (save lib os s).0.folder
    → SavedNow lib t
unfolding SavedFile SavedNow
now-of lib os s t (text, q, f) b d =
    (text, ap (λ m. lib.encode (sort_by id_less (values m))) b ∙ q, ap (lookup devices_file) d ∙ f)

store_device-Leaves :
    (lib : Library) (os : Faults) (d : Device) (token : Text) (s : Devices)
    → os.sync_dir ≡ none
    → lookup d.id s.by_id ≡ none
    → Leaves lib s (store_device lib os d token s).0
unfolding store_device Saves
store_device-Leaves lib os d token s sync fresh =
    let s' = record s { by_id = insert d.id d s.by_id } in
    let back : delete d.id (save lib os s').0.by_id ≡ s.by_id =
      ap (delete d.id) (save-by_id lib os s') ∙ insert_new d.id d s.by_id fresh in
    let P : Devices × Added → Type 0 = λ x. Leaves lib s x.0 in
    elim (save-Saves lib os s' sync) [
      | inl (e, f) ↦
          split_option P (save lib os s').1 _ _
            (λ _. has_saved (now-of lib os s' _ f (save-by_id lib os s') refl))
            (λ t q. absurd (none≢some t (sym e ∙ q)))
      | inr (t, e, k) ↦
          split_option P (save lib os s').1 _ _ (λ q. absurd (none≢some t (sym q ∙ e)))
            (λ _ _. as_before k (λ j. ap (λ m. Option.map unseen (lookup j m)) back))
    ]

pub add-Leaves :
    (lib : Library) (os : Faults) (random : List ℕ) (now : ℕ) (name role : Text) (s : Devices)
    → os.sync_dir ≡ none
    → Leaves lib s (add lib os random now name role s).0
unfolding make_device
add-Leaves lib os random now name role s sync =
    add-cases (λ x. Leaves lib s x.0) lib os random now name role s
      (λ e. as_before refl (λ j. refl))
      (λ id secret fresh _ _ _.
        store_device-Leaves lib os (make_device lib id name role (make_token id secret) now)
          (make_token id secret) s sync fresh)

seen-Similar :
    (s t : Devices) (id : Text) (d : Device) (now : ℕ)
    → lookup id s.by_id ≡ some d
    → t.by_id ≡ insert id (record d { last_seen_at = now }) s.by_id
    → Similar s t
seen-Similar s t id d now l b j =
    ap (λ m. Option.map unseen (lookup j m)) b
    ∙ ap (Option.map unseen) (lookup-insert id j (record d { last_seen_at = now }) s.by_id)
    ∙ split_if (λ o. Option.map unseen o ≡ Option.map unseen (lookup j s.by_id)) (id == j)
        (some (record d { last_seen_at = now })) (lookup j s.by_id)
        (λ e. ap (Option.map unseen) (sym l ∙ ap (λ k. lookup k s.by_id) ((==_iff id j).0 e)))
        (λ e. refl)

touch-Leaves :
    (lib : Library) (os : Faults) (now : ℕ) (id : Text) (d : Device) (s : Devices)
    → os.sync_dir ≡ none
    → lookup id s.by_id ≡ some d
    → Leaves lib s (touch lib os now id d s).0
unfolding touch Saves
touch-Leaves lib os now id d s sync l =
    let s' = record s { by_id = insert id (record d { last_seen_at = now }) s.by_id } in
    split_if (Leaves lib s) (save_due (lookup id s.persisted) now) (save lib os s').0 s'
      (λ _. elim (save-Saves lib os s' sync) [
        | inl (e, f) ↦ has_saved (now-of lib os s' _ f (save-by_id lib os s') refl)
        | inr (t, e, k) ↦
            as_before k (seen-Similar s (save lib os s').0 id d now l (save-by_id lib os s'))
      ])
      (λ _. as_before refl (seen-Similar s s' id d now l refl))

check_token-Leaves :
    (lib : Library) (os : Faults) (now : ℕ) (token id : Text) (o : Option Device) (s : Devices)
    → os.sync_dir ≡ none
    → lookup id s.by_id ≡ o
    → Leaves lib s (check_token lib os now token id o s).0
unfolding check_token
check_token-Leaves lib os now token id none s sync l = as_before refl (λ j. refl)
check_token-Leaves lib os now token id (some d) s sync l =
    split_if (λ (x : Devices × Option Device). Leaves lib s x.0)
      (lib.hash_token token == d.token_hash) _ _ (λ _. touch-Leaves lib os now id d s sync l)
      (λ _. as_before refl (λ j. refl))

pub authenticate-Leaves :
    (lib : Library) (os : Faults) (now : ℕ) (token : Text) (s : Devices)
    → os.sync_dir ≡ none
    → Leaves lib s (authenticate lib os now token s).0
unfolding authenticate
authenticate-Leaves lib os now token s sync =
    let P : Devices × Option Device → Type 0 = λ x. Leaves lib s x.0 in
    split_option P (token_id token) _ _ (λ _. as_before refl (λ j. refl))
      (λ id _. check_token-Leaves lib os now token id (lookup id s.by_id) s sync refl)

removed-Similar :
    (s t : Devices) (id : Text) (d : Device)
    → lookup id s.by_id ≡ some d
    → t.by_id ≡ insert id d (delete id s.by_id)
    → Similar s t
removed-Similar s t id d l b j =
    ap (λ m. Option.map unseen (lookup j m)) b
    ∙ ap (Option.map unseen) (lookup-insert id j d (delete id s.by_id) ∙ still)
  where
    still : (if id == j then some d else lookup j (delete id s.by_id)) ≡ lookup j s.by_id
    still =
        split_if (λ o. o ≡ lookup j s.by_id) (id == j) (some d) (lookup j (delete id s.by_id))
          (λ e. sym l ∙ ap (λ k. lookup k s.by_id) ((==_iff id j).0 e))
          (λ e. lookup-delete id j s.by_id ∙ ap (λ c. if c then none else lookup j s.by_id) e)

pub remove-Leaves :
    (lib : Library) (os : Faults) (id : Text) (s : Devices)
    → os.sync_dir ≡ none
    → Leaves lib s (remove lib os id s).0
unfolding remove_device Saves
remove-Leaves lib os id s sync =
    remove-cases (λ x. Leaves lib s x.0) lib os id s (λ _. as_before refl (λ j. refl))
      (λ d l. gone d l)
  where
    gone : (d : Device) → lookup id s.by_id ≡ some d → Leaves lib s (remove_device lib os id d s).0
    gone d l =
        let s' = record s { by_id = delete id s.by_id } in
        let P : Devices × Result Text (Option Device) → Type 0 = λ x. Leaves lib s x.0 in
        elim (save-Saves lib os s' sync) [
          | inl (e, f) ↦
              split_option P (save lib os s').1 _ _
                (λ _. has_saved (now-of lib os s' _ f (save-by_id lib os s') refl))
                (λ t q. absurd (none≢some t (sym e ∙ q)))
          | inr (t, e, k) ↦
              split_option P (save lib os s').1 _ _ (λ q. absurd (none≢some t (sym q ∙ e)))
                (λ _ _. as_before k (
                  removed-Similar s
                    (record (save lib os s').0 { by_id = insert id d (save lib os s').0.by_id }) id
                    d l (ap (insert id d) (save-by_id lib os s'))))
        ]

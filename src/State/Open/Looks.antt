-- ===== src/State/Open/Looks.antt =====
-- What the looks of `Open` at a folder and its entries find.
use docker_mobile.Base.{
  ℕ, ◌/◌, ◌%◌, ◌≡◌, ◌≢◌, refl, sym, ap, ◌∙◌, subst, ◌⊎◌, inl, inr, Bool, true, false, not, Option,
  none, some, List, [], ◌∷◌, ◌++◌, arith, if◌then◌else◌, Bool-cases, ||-inv, &&-eq-true,
  nat_beq_iff, Text, codes, All, ◌==◌, nat_eq, text_eq, ==_iff, none≢some, split_if, false≢true,
  Option-cases, cut_prefix, cut_prefix_inv, has_prefix, ltb, length, ltb→lt, ◌<◌, append-nil,
}
use docker_mobile.State.Dir.{temp_prefix}
use docker_mobile.State.Open.{
  Entry, Node, OpenError, unreadable, Outside, others_can_write, same_user, check_owner, or_else,
  first_entry, begins, probe_prefix, own_files, own_name, is_lost_and_found, is_own, first_other,
  check_entries, check_existing, check_still_empty, refuse_entry,
}

-- Neither the group nor everyone else has the bit to write.
abbrev pub IsClosed : ℕ → Type 0
IsClosed mode = (mode / 2 % 2 ≢ 1) × (mode / 16 % 2 ≢ 1)

pub others_can_write-IsClosed : (mode : ℕ) → others_can_write false mode ≡ false → IsClosed mode
unfolding others_can_write
others_can_write-IsClosed mode h = ((λ e. ground (h, e, arith)), (λ e. ground (h, e, arith)))

-- What others can do to a folder: they keep its kind, its owner and its mode, and when they cannot
-- write to it, they change nothing.
pub record Respects (f : Node → Node) : Type 0 where
  pub kind : (n : Node) → (f n).is_folder ≡ n.is_folder
  pub owner : (n : Node) → (f n).owner ≡ n.owner
  pub mode : (n : Node) → (f n).mode ≡ n.mode
  pub private_kept : (n : Node) → IsClosed n.mode → f n ≡ n

-- The folder that a disk comes with.
abbrev pub IsLost : Entry → Type 0
IsLost e = (e.name ≡ codes "lost+found") × (e.is_dir ≡ true)

-- A name with something behind a prefix.
abbrev pub Extends : Text → Text → Type 0
Extends prefix name = (c : ℕ) × (r : Text) × (name ≡ prefix ++ c ∷ r)

-- A file of a list, or a temporary file of one.
abbrev pub Named : List Text → Text → Type 0
Named [] name = ⊥
Named (own ∷ more) name = ((name ≡ own) ⊎ Extends (temp_prefix own) name) ⊎ Named more name

-- An entry that the agent may have left.
abbrev pub IsOwn : Entry → Type 0
IsOwn e = IsLost e ⊎ (Named own_files e.name ⊎ Extends probe_prefix e.name)

is_lost_and_found-IsLost : (e : Entry) → is_lost_and_found e ≡ true → IsLost e
unfolding is_lost_and_found
is_lost_and_found-IsLost e h =
    let (n, d) = &&-eq-true (e.name == codes "lost+found") e.is_dir h in
    ((==_iff e.name (codes "lost+found")).0 n, d)

too_long : {a b : ℕ} → a < b → b ≡ a → ⊥
too_long l e = omega (l, e, arith)

longer-Extends :
    (prefix name rest : Text)
    → ltb (length prefix) (length name) ≡ true
    → name ≡ prefix ++ rest
    → Extends prefix name
longer-Extends prefix name [] l e =
    absurd (too_long (ltb→lt _ _ l) (ap length e ∙ ap length (append-nil prefix)))
longer-Extends prefix name (c ∷ r) l e = (c, r, e)

begins-Extends : (name prefix : Text) → begins name prefix ≡ true → Extends prefix name
unfolding begins has_prefix
begins-Extends name prefix h =
    let (l, p) = &&-eq-true (ltb (length prefix) (length name)) _ h in
    elim (Option-cases (cut_prefix prefix name)) [
      | inl e ↦ absurd (false≢true (rw e at p))
      | inr (r, e) ↦ longer-Extends prefix name r l (cut_prefix_inv prefix name r e)
    ]

own_name-Named :
    (own : List Text) (name : Text)
    → own_name own name ≡ true
    → Named own name ⊎ Extends probe_prefix name
unfolding own_name
own_name-Named [] name h = inr (begins-Extends name probe_prefix h)
own_name-Named (own ∷ more) name h = elim (||-inv _ (own_name more name) h) [
  | inl e ↦ elim (||-inv (name == own) _ e) [
    | inl q ↦ inl (inl (inl ((==_iff name own).0 q)))
    | inr q ↦ inl (inl (inr (begins-Extends name (temp_prefix own) q)))
  ]
  | inr e ↦ elim (own_name-Named more name e) [ inl q ↦ inl (inr q) | inr q ↦ inr q ]
]

is_own-IsOwn : (e : Entry) → is_own e ≡ true → IsOwn e
unfolding is_own
is_own-IsOwn e h = elim (||-inv (is_lost_and_found e) _ h) [
  | inl q ↦ inl (is_lost_and_found-IsLost e q)
  | inr q ↦ inr (own_name-Named own_files e.name q)
]

pub first_other-none : (es : List Entry) → first_other es ≡ none → All IsOwn es
unfolding first_other
first_other-none [] h = tt
first_other-none (e ∷ es) h = elim (Bool-cases (is_own e)) [
  | inl y ↦ (is_own-IsOwn e y, first_other-none es (rw y at h))
  | inr y ↦ absurd (none≢some e (sym (rw y at h)))
]

pub first_entry-none : (es : List Entry) → first_entry es ≡ none → All IsLost es
unfolding first_entry
first_entry-none [] h = tt
first_entry-none (e ∷ es) h = elim (Bool-cases (is_lost_and_found e)) [
  | inl y ↦ (is_lost_and_found-IsLost e y, first_entry-none es (rw y at h))
  | inr y ↦ absurd (none≢some e (sym (rw y at h)))
]

pub refuse_entry-none :
    (f : Text → OpenError) (e : Option Entry) → refuse_entry f e ≡ none → e ≡ none
unfolding refuse_entry
refuse_entry-none f none h = refl
refuse_entry-none f (some e) h = absurd (none≢some (f e.name) (sym h))

pub check_still_empty-none :
    (o : Outside) (es : List Entry) → check_still_empty o es ≡ none → All IsLost es
unfolding check_still_empty
check_still_empty-none o es h = elim (Bool-cases o.list_again_fails) [
  | inl y ↦ absurd (none≢some _ (sym (rw y at h)))
  | inr y ↦ first_entry-none es (refuse_entry-none _ _ (rw y at h))
]

-- What `checkExisting` finds where it refuses nothing, on a system other than Windows.
abbrev pub Passed : Outside → Node → List Entry → Option OpenError → Type 0
Passed o n es x =
    x ≡ none
    → (n.is_folder ≡ true)
      × (n.owner ≡ o.user)
      × (check_entries (others_can_write false n.mode) es ≡ none)

not-false : (b : Bool) → not b ≡ false → b ≡ true
not-false b h = ground (h, arith)

or_else-none : (x y : Option OpenError) → or_else x y ≡ none → (x ≡ none) × (y ≡ none)
or_else-none none y h = (refl, h)
or_else-none (some e) y h = absurd (none≢some e (sym h))

check_owner-none :
    (o : Outside) (n : Node) → o.windows ≡ false → check_owner o n ≡ none → n.owner ≡ o.user
unfolding check_owner same_user
check_owner-none o n w h = ground (w, h, arith, nat_beq_iff n.owner o.user)

pub check_existing-Passed :
    (o : Outside) (n : Node) (es : List Entry)
    → o.windows ≡ false
    → Passed o n es (check_existing o n es)
unfolding check_existing
check_existing-Passed o n es w =
    split_if (Passed o n es) (not n.is_folder) _ _ (λ _ h. absurd (none≢some _ (sym h)))
      (λ k h.
        let (u, l) = or_else-none _ _ h in (not-false _ k, check_owner-none o n w u, looked l))
  where
    looked :
        (if o.list_fails
            then some unreadable
            else check_entries (others_can_write o.windows n.mode) es)
          ≡ none
        → check_entries (others_can_write false n.mode) es ≡ none
    looked l =
        split_if (λ x. x ≡ none → check_entries (others_can_write false n.mode) es ≡ none)
          o.list_fails (some unreadable) (check_entries (others_can_write o.windows n.mode) es)
          (λ _ h. absurd (none≢some _ (sym h)))
          (λ _ h. subst (λ b. check_entries (others_can_write b n.mode) es ≡ none) w h) l

-- Where the entries of a folder come from that `Open` takes: it made the folder, and there are none; or
-- the folder stood at the path at Stat, and there was nothing but lost+found at the first look and at
-- the second; or it was closed to others at Stat, with just these entries, and each of them is the
-- agent's own by its name.
pub data Source (o : Outside) (place : Option Node) (es : List Entry) : Type 0 where
  made : place ≡ none → es ≡ [] → Source o place es
  shared :
      (n : Node)
      → o.before_stat place ≡ some n
      → All IsLost (o.before_listing n).entries
      → All IsLost es
      → Source o place es
  kept :
      (n : Node)
      → o.before_stat place ≡ some n
      → IsClosed n.mode
      → es ≡ n.entries
      → All IsOwn es
      → Source o place es

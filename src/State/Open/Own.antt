-- ===== src/State/Open/Own.antt =====
-- What `WriteFile` may leave behind is something that `Open` takes for the agent's own.
use docker_mobile.Base.{
  ◌≡◌, refl, sym, ap, ◌∙◌, subst, ◌≢◌, ◌⊎◌, inl, inr, Bool, true, false, ◌||◌, none, List, [], ◌∷◌,
  ◌++◌, arith, lt→ltb, Text, length, length-append, nat_eq, text_eq, ==_iff, lookup, has_prefix,
  cut_prefix-append, false≢true, none≢some, Bool-cases, ==_refl, split_if, ◌==◌, some,
}
use docker_mobile.State.Dir.{Folder, Faults, temp_prefix, write_file}
use docker_mobile.State.Dir.Write.{write_file_other}
use docker_mobile.State.Open.{
  Entry, begins, check_entries, refuse_entry, not_own, first_other, own_files, own_name, is_own,
  is_lost_and_found,
}

abbrev pub file : Text → Entry
file name = record { name = name; is_dir = false }

-- Every name in the folder is one that `isOwn` takes.
abbrev pub AllOwn : Folder → Type 0
AllOwn d = (j : Text) → is_own (file j) ≡ false → lookup j d ≡ none

abbrev pub OneOf : List Text → Text → Type 0
OneOf [] name = ⊥
OneOf (own ∷ more) name = (name ≡ own) ⊎ OneOf more name

||-right : (a b : Bool) → b ≡ true → (a || b) ≡ true
||-right a b h = ground (h, arith)

||-left : (a b : Bool) → a ≡ true → (a || b) ≡ true
||-left a b h = ground (h, arith)

own_name-listed : (own : List Text) (name : Text) → OneOf own name → own_name own name ≡ true
unfolding own_name
own_name-listed (o ∷ more) name (inl e) = ||-left _ _ (||-left _ _ ((==_iff name o).1 e))
own_name-listed (o ∷ more) name (inr h) = ||-right _ _ (own_name-listed more name h)
own_name-listed [] name h = elim h [ ]

begins-append : (p s : Text) → s ≢ [] → begins (p ++ s) p ≡ true
unfolding begins has_prefix
begins-append p [] ne = absurd (ne refl)
begins-append p (c ∷ s) ne =
    rw
      (
        cut_prefix-append p (c ∷ s),
        lt→ltb (length p) (length (p ++ (c ∷ s))) (omega (arith, length-append p (c ∷ s))),
      )
      refl

own_name-temporary :
    (own : List Text) (name random : Text)
    → OneOf own name
    → random ≢ []
    → own_name own (temp_prefix name ++ random) ≡ true
unfolding own_name
own_name-temporary (o ∷ more) name random (inl e) ne = ||-left _ _ (
    ||-right _ _ (
      subst (λ n. begins (temp_prefix name ++ random) (temp_prefix n) ≡ true) e
        (begins-append (temp_prefix name) random ne)))
own_name-temporary (o ∷ more) name random (inr h) ne =
    ||-right _ _ (own_name-temporary more name random h ne)
own_name-temporary [] name random h ne = elim h [ ]

still_own :
    (os : Faults) (name contents : Text) (d : Folder)
    → OneOf own_files name
    → os.random ≢ []
    → AllOwn d
    → AllOwn (write_file os name contents d).0
unfolding is_own is_lost_and_found
still_own os name contents d h ne a j n =
    write_file_other os name contents j d (λ e. apart e (own_name-listed own_files name h))
      (λ e. apart e (own_name-temporary own_files name os.random h ne))
    ∙ a j n
  where
    apart : {x : Text} → x ≡ j → own_name own_files x ≡ true → ⊥
    apart e t = false≢true (sym n ∙ ||-right _ _ (ap (own_name own_files) (sym e) ∙ t))

-- What ReadDir lists of the files of a folder.
pub listing : Folder → List Entry
listing [] = []
listing ((name, _) ∷ d) = file name ∷ listing d

listing-own : (d : Folder) → AllOwn d → first_other (listing d) ≡ none
unfolding listing first_other lookup
listing-own [] a = refl
listing-own ((name, t) ∷ d) a = elim (Bool-cases (is_own (file name))) [
  | inr y ↦ absurd (none≢some t (sym (a name y) ∙ rw (==_refl name) refl))
  | inl y ↦ rw y (
      listing-own d (λ j n.
        split_if (λ o. o ≡ none → lookup j d ≡ none) (name == j) (some t) (lookup j d)
          (λ e _.
            absurd (false≢true (sym n ∙ ap (λ x. is_own (file x)) (sym ((==_iff name j).0 e)) ∙ y)))
          (λ _ k. k) (a j n)))
]

-- A folder that holds only the agent's own files still does after a `WriteFile` of one of them,
-- wherever it fails and whether its temporary file can be removed or not; and where others cannot
-- write to the folder, `checkExisting` has nothing against what it holds then. The system puts a
-- random text that is not empty behind the prefix of the temporary file.
pub write_file-AllOwn :
    (os : Faults) (name contents : Text) (d : Folder)
    → OneOf own_files name
    → os.random ≢ []
    → AllOwn d
    → AllOwn (write_file os name contents d).0
      × (check_entries false (listing (write_file os name contents d).0) ≡ none)
unfolding check_entries refuse_entry
write_file-AllOwn os name contents d h ne a =
    let own = still_own os name contents d h ne a in
    (own, ap (refuse_entry not_own) (listing-own (write_file os name contents d).0 own))

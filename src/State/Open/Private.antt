-- ===== src/State/Open/Private.antt =====
-- What is true of a folder that `Open` takes.
use docker_mobile.Base.{
  ◌≡◌, refl, sym, ap, ◌∙◌, subst, ◌⊎◌, inl, inr, true, false, Option, none, some, List, [], ◌∷◌,
  if◌then◌else◌, Text, All, ◌==◌, nat_eq, text_eq, none≢some, split_if,
}
use docker_mobile.State.Open.{
  Entry, Node, OpenError, Outside, private_mode, others_can_write, check_entries, check_still_empty,
  probe_file, probed, close, Opened, finish, unless_refused, close_and_look, take_existing,
  stat_existing, new_node, make, open_folder,
}
use docker_mobile.State.Open.Looks.{
  IsLost, IsOwn, made, shared, first_entry-none, Respects, Source, others_can_write-IsClosed,
  first_other-none, refuse_entry-none, check_still_empty-none, check_existing-Passed,
}

-- A folder that is taken.
pub record IsPrivate (o : Outside) (place : Option Node) (n : Node) : Type 0 where
  pub folder : n.is_folder ≡ true
  pub owned : n.owner ≡ o.user
  pub closed : n.mode ≡ private_mode
  pub found : List Entry
  pub source : Source o place found
  pub held :
      (n.entries ≡ found)
      ⊎ ((random : Text) × (o.probe_left ≡ some random) × (n.entries ≡ probe_file random ∷ found))

module _ (o : Outside) (place : Option Node) where
  abbrev Taken : Opened → Type 0
  Taken x = (x.1 ≡ none) → (n : Node) × (x.0 ≡ some n) × IsPrivate o place n

  -- A refusal takes nothing.
  refused-Taken : (p : Option Node) (e : OpenError) → Taken (p, some e)
  refused-Taken p e h = absurd (none≢some e (sym h))

  probed-IsPrivate :
      (left : Option Text) (n : Node)
      → o.probe_left ≡ left
      → n.is_folder ≡ true
      → n.owner ≡ o.user
      → Source o place n.entries
      → IsPrivate o place (probed left (close n))
  probed-IsPrivate none n e k w c = record {
    folder = k;
    owned = w;
    closed = refl;
    found = n.entries;
    source = c;
    held = inl refl;
  }
  probed-IsPrivate (some random) n e k w c = record {
    folder = k;
    owned = w;
    closed = refl;
    found = n.entries;
    source = c;
    held = inr (random, e, refl);
  }

  finish-Taken :
      (n : Node)
      → n.is_folder ≡ true
      → n.owner ≡ o.user
      → Source o place n.entries
      → Taken (finish o n)
  unfolding finish
  finish-Taken n k w c =
      split_if Taken o.chmod_fails _ _ (λ _. refused-Taken _ _)
        (λ _.
          split_if Taken o.probe_fails _ _ (λ _. refused-Taken _ _)
            (λ _ _.
              (probed o.probe_left (close n), refl, probed-IsPrivate o.probe_left n refl k w c)))

  unless_refused-Taken :
      (n : Node) (e : Option OpenError) (next : Opened)
      → (e ≡ none → Taken next)
      → Taken (unless_refused n e next)
  unfolding unless_refused
  unless_refused-Taken n none next k = k refl
  unless_refused-Taken n (some e) next k = refused-Taken (some n) e

  close_and_look-Taken :
      (n : Node)
      → n.is_folder ≡ true
      → n.owner ≡ o.user
      → (All IsLost n.entries → Source o place n.entries)
      → Taken (close_and_look o n)
  unfolding close_and_look
  close_and_look-Taken n k w c =
      split_if Taken o.close_fails _ _ (λ _. refused-Taken _ _)
        (λ _.
          unless_refused-Taken (close n) (check_still_empty o n.entries) (finish o (close n))
            (λ e. finish-Taken (close n) k w (c (check_still_empty-none o n.entries e))))

  module _ (not_windows : o.windows ≡ false) (listing : Respects o.before_listing)
      (closing : Respects o.before_closing) where
    -- A folder that passed the first look, on its way to the end.
    passed-Taken :
        (n : Node)
        → o.before_stat place ≡ some n
        → (n.is_folder ≡ true)
          × (n.owner ≡ o.user)
          × (check_entries (others_can_write false n.mode) (o.before_listing n).entries ≡ none)
        → Taken (
            if others_can_write o.windows n.mode
            then close_and_look o (o.before_closing (o.before_listing n))
            else finish o (o.before_closing (o.before_listing n)))
    unfolding check_entries
    passed-Taken n there (k, u, c) =
        let seen = o.before_listing n in
        let later = o.before_closing seen in
        let folder : later.is_folder ≡ true = closing.kind seen ∙ listing.kind n ∙ k in
        let owned : later.owner ≡ o.user = closing.owner seen ∙ listing.owner n ∙ u in
        split_if Taken (others_can_write o.windows n.mode) _ _
          (λ s.
            let open_to_others : others_can_write false n.mode ≡ true =
              subst (λ b. others_can_write b n.mode ≡ true) not_windows s in
            close_and_look-Taken later folder owned (
              shared n there
                (first_entry-none seen.entries (refuse_entry-none _ _ (rw open_to_others at c)))))
          (λ s.
            let private : others_can_write false n.mode ≡ false =
              subst (λ b. others_can_write b n.mode ≡ false) not_windows s in
            let untouched : seen ≡ n =
              listing.private_kept n (others_can_write-IsClosed n.mode private) in
            let kept : later ≡ n =
              ap o.before_closing untouched
              ∙ closing.private_kept n (others_can_write-IsClosed n.mode private) in
            let own = first_other-none seen.entries (refuse_entry-none _ _ (rw private at c)) in
            finish-Taken later folder owned (
              Source.kept n there (others_can_write-IsClosed n.mode private)
                (ap (λ x. x.entries) kept)
                (subst (λ x. All IsOwn x.entries) (untouched ∙ sym kept) own)))

    take_existing-Taken : (n : Node) → o.before_stat place ≡ some n → Taken (take_existing o n)
    unfolding take_existing
    take_existing-Taken n there = unless_refused-Taken (o.before_listing n) _ _ (λ e.
        passed-Taken n there (check_existing-Passed o n (o.before_listing n).entries not_windows e))

    stat_existing-Taken : (p : Option Node) → o.before_stat place ≡ p → Taken (stat_existing o p)
    unfolding stat_existing
    stat_existing-Taken none there = refused-Taken none _
    stat_existing-Taken (some n) there =
        split_if Taken o.stat_fails _ _ (λ _. refused-Taken _ _) (λ _. take_existing-Taken n there)

make-Taken :
    (o : Outside) (place : Option Node)
    → o.windows ≡ false
    → Respects o.before_listing
    → Respects o.before_closing
    → Taken o place (make o place)
unfolding make
make-Taken o (some n) w rl rc = stat_existing-Taken o (some n) w rl rc (o.before_stat (some n)) refl
make-Taken o none w rl rc =
    split_if (Taken o none) o.mkdir_fails _ _
      (λ _. stat_existing-Taken o none w rl rc (o.before_stat none) refl)
      (λ _. finish-Taken o none (new_node o) refl refl (made refl refl))

-- Where others keep the kind, the owner and the mode of a folder and cannot change one that its mode
-- closes to them, a folder that `Open` takes without error is a folder of the agent's user with mode
-- 0700. But for a probe that could not be removed, it is new and empty; or there was nothing in it but
-- folders named lost+found at the first look, and there is nothing else in it now; or it holds exactly
-- what it held at Stat, when its mode closed it to others, and each of these entries is such a folder,
-- one of the agent's files, a temporary file of one or a probe. This is for systems other than Windows.
pub open_folder-IsPrivate :
    (o : Outside) (path : Text) (place : Option Node)
    → o.windows ≡ false
    → Respects o.before_listing
    → Respects o.before_closing
    → (open_folder o path place).1 ≡ none
    → (n : Node) × ((open_folder o path place).0 ≡ some n) × IsPrivate o place n
unfolding open_folder
open_folder-IsPrivate o path place w rl rc =
    split_if (Taken o place) (path == []) _ _ (λ _. refused-Taken o place _ _)
      (λ _.
        split_if (Taken o place) o.parent_fails _ _ (λ _. refused-Taken o place _ _)
          (λ _. make-Taken o place w rl rc))

-- ===== src/Admin/Socket/Alone.antt =====
-- At most one agent serves a state folder, and the socket that is there is its own.
use docker_mobile.Base.{
  ℕ, ◌≡◌, refl, sym, ◌∙◌, subst, ◌≢◌, Option, none, some, List, [], ◌∷◌, nat_beq, nat_beq_iff, Text,
  nat_eq, text_eq, false≢true, none≢some, some-inv, split_if, split_option,
}
use docker_mobile.Admin.Client.{check_socket_path}
use docker_mobile.Admin.Socket.{
  Phase, idle, serving, closing, Place, Hitches, ListenError, put, listen_locked, listening,
  with_lock, listen, close_socket, close_lock, die, Move, listens, closes_socket, closes_lock, dies,
  listen_idle, step, run,
}

-- What an agent in a phase has of the folder.
unfoldable pub Owned : Place → ℕ → Phase → Type 0
Owned w j idle = Unit
Owned w j serving = (w.holder ≡ some j) × (w.socket ≡ some j)
Owned w j closing = w.holder ≡ some j

abbrev pub IsAlone : Place → Type 0
IsAlone w = (j : ℕ) → Owned w j (w.phase j)

-- An agent that does not hold the lock has nothing that could be lost.
elsewhere : (w w' : Place) (j : ℕ) (p : Phase) → w.holder ≢ some j → Owned w j p → Owned w' j p
unfolding Owned
elsewhere w w' j idle n h = tt
elsewhere w w' j serving n h = absurd (n h.0)
elsewhere w w' j closing n h = absurd (n h)

put-Owned :
    (w : Place) (i : ℕ) (p : Phase) (f : ℕ → Phase)
    → Owned w i p
    → ((j : ℕ) → i ≢ j → Owned w j (f j))
    → (j : ℕ) → Owned w j (put i p f j)
put-Owned w i p f h k j =
    split_if (Owned w j) (nat_beq i j) p (f j)
      (λ e. subst (λ x. Owned w x p) ((nat_beq_iff i j).0 e) h)
      (λ e. k j (λ q. false≢true (sym e ∙ (nat_beq_iff i j).1 q)))

free-IsAlone : (w w' : Place) → w.holder ≡ none → w'.phase ≡ w.phase → IsAlone w → IsAlone w'
free-IsAlone w w' n e h j =
    subst (λ f. Owned w' j (f j)) (sym e)
      (elsewhere w w' j (w.phase j) (λ q. none≢some j (sym n ∙ q)) (h j))

-- What `listenLocked` leaves, with the lock held by `i`.
listening-IsAlone :
    (w : Place) (i : ℕ) (x : Place × Option ListenError)
    → w.holder ≡ none
    → x.0.phase ≡ w.phase
    → (x.1 ≡ none → (x.0.holder ≡ some i) × (x.0.socket ≡ some i))
    → IsAlone w
    → IsAlone (listening i x).0
unfolding listening Owned
listening-IsAlone w i (w', some e) n q s h = free-IsAlone w (record w' { holder = none }) n q h
listening-IsAlone w i (w', none) n q s h =
    let w'' = record w' { phase = put i serving w'.phase } in
    put-Owned w'' i serving w'.phase (unfold Owned in s refl)
      (λ j _. free-IsAlone w (record w'' { phase = w'.phase }) n q h j)

listen_locked-owned :
    (i : ℕ) (h : Hitches) (w : Place)
    → w.holder ≡ some i
    → ((listen_locked i h w).0.phase ≡ w.phase)
      × ((listen_locked i h w).1 ≡ none
          → ((listen_locked i h w).0.holder ≡ some i) × ((listen_locked i h w).0.socket ≡ some i))
unfolding listen_locked
listen_locked-owned i h w n =
    let P : Place × Option ListenError → Type 0 =
      λ x. (x.0.phase ≡ w.phase) × (x.1 ≡ none → (x.0.holder ≡ some i) × (x.0.socket ≡ some i)) in
    let failed : (w' : Place) (e : ListenError) → w'.phase ≡ w.phase → P (w', some e) =
      λ w' e q. (q, λ s. absurd (none≢some e (sym s))) in
    split_option P h.remove _ _
      (λ _.
        split_option P h.listen _ _
          (λ _. split_option P h.chmod _ _ (λ _. (refl, λ _. (n, refl))) (λ e _. failed _ _ refl))
          (λ e _. failed _ _ refl))
      (λ e _. failed _ _ refl)

with_lock-IsAlone :
    (i : ℕ) (h : Hitches) (w : Place) (o : Option ℕ)
    → w.holder ≡ o
    → IsAlone w
    → IsAlone (with_lock i h w o).0
unfolding with_lock
with_lock-IsAlone i h w (some j) e a = a
with_lock-IsAlone i h w none e a =
    let w' = record w { holder = some i } in
    let (q, s) = listen_locked-owned i h w' refl in
    listening-IsAlone w i (listen_locked i h w') e q s a

listen-IsAlone :
    (i : ℕ) (path : Text) (h : Hitches) (w : Place) → IsAlone w → IsAlone (listen i path h w).0
unfolding listen
listen-IsAlone i path h w a =
    let P : Place × Option ListenError → Type 0 = λ x. IsAlone x.0 in
    split_option P (check_socket_path path) _ _
      (λ _. split_option P h.lock _ _ (λ _. with_lock-IsAlone i h w w.holder refl a) (λ e _. a))
      (λ e _. a)

listen_idle-IsAlone :
    (i : ℕ) (path : Text) (h : Hitches) (p : Phase) (w : Place)
    → IsAlone w
    → IsAlone (listen_idle i path h p w)
unfolding listen_idle
listen_idle-IsAlone i path h idle w a = listen-IsAlone i path h w a
listen_idle-IsAlone i path h serving w a = a
listen_idle-IsAlone i path h closing w a = a

-- The holder of the lock moves on to a phase in which it owns what it needs.
move-IsAlone :
    (w w' : Place) (i : ℕ) (p : Phase)
    → w.holder ≡ some i
    → w'.phase ≡ put i p w.phase
    → Owned w' i p
    → IsAlone w
    → IsAlone w'
move-IsAlone w w' i p n q o a j =
    subst (λ f. Owned w' j (f j)) (sym q)
      (put-Owned w' i p w.phase o
        (λ k ne. elsewhere w w' k (w.phase k) (λ e. ne (some-inv _ _ (sym n ∙ e))) (a k)) j)

close_socket-IsAlone :
    (i : ℕ) (p : Phase) (w : Place) → p ≡ w.phase i → IsAlone w → IsAlone (close_socket i p w)
unfolding close_socket Owned
close_socket-IsAlone i idle w e a = a
close_socket-IsAlone i closing w e a = a
close_socket-IsAlone i serving w e a =
    let held = (subst (Owned w i) (sym e) (a i)).0 in move-IsAlone w _ i closing held refl held a

close_lock-IsAlone :
    (i : ℕ) (p : Phase) (w : Place) → p ≡ w.phase i → IsAlone w → IsAlone (close_lock i p w)
unfolding close_lock Owned
close_lock-IsAlone i idle w e a = a
close_lock-IsAlone i serving w e a = a
close_lock-IsAlone i closing w e a =
    move-IsAlone w _ i idle (subst (Owned w i) (sym e) (a i)) refl tt a

die-IsAlone : (i : ℕ) (p : Phase) (w : Place) → p ≡ w.phase i → IsAlone w → IsAlone (die i p w)
unfolding die Owned
die-IsAlone i idle w e a = a
die-IsAlone i serving w e a = move-IsAlone w _ i idle (subst (Owned w i) (sym e) (a i)).0 refl tt a
die-IsAlone i closing w e a = move-IsAlone w _ i idle (subst (Owned w i) (sym e) (a i)) refl tt a

step-IsAlone : (w : Place) (m : Move) → IsAlone w → IsAlone (step w m)
unfolding step
step-IsAlone w (listens i path h) a = listen_idle-IsAlone i path h (w.phase i) w a
step-IsAlone w (closes_socket i) a = close_socket-IsAlone i (w.phase i) w refl a
step-IsAlone w (closes_lock i) a = close_lock-IsAlone i (w.phase i) w refl a
step-IsAlone w (dies i) a = die-IsAlone i (w.phase i) w refl a

run-IsAlone : (w : Place) (ms : List Move) → IsAlone w → IsAlone (run w ms)
unfolding run
run-IsAlone w [] a = a
run-IsAlone w (m ∷ ms) a = run-IsAlone (step w m) ms (step-IsAlone w m a)

-- A folder that no agent serves yet, with or without a socket that was left there.
abbrev pub unserved : Option ℕ → Place
unserved stale = record { holder = none; socket = stale; phase = λ i. idle }

-- Agents start, stop and die in any order on a folder that none serves at first, with or without a
-- socket that was left there. Then an agent that serves the folder holds its lock, the socket at the
-- path is its own, and no other agent serves it.
pub serves_alone :
    (stale : Option ℕ) (moves : List Move) (i j : ℕ)
    → let w = run (unserved stale) moves in
      w.phase i ≡ serving
      → (w.holder ≡ some i) × (w.socket ≡ some i) × (w.phase j ≡ serving → j ≡ i)
serves_alone stale moves i j h =
    unfold Owned in
    let w = run (unserved stale) moves in
    let a = run-IsAlone (unserved stale) moves (λ k. tt) in
    let own = subst (Owned w i) h (a i) in
    (own.0, own.1, λ q. some-inv _ _ (sym (subst (Owned w j) q (a j)).0 ∙ own.0))

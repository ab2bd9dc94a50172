-- ===== src/Admin/Socket.antt =====
-- agent/internal/admin/admin.go: Listen and the listener it returns, for any number of agents that are
-- given the same state folder. The lock is that of the operating system: a file has one holder, and the
-- end of a process gives it up.
pub mod Alone
use docker_mobile.Base.{
  ℕ, ◌+◌, Option, none, some, List, [], ◌∷◌, ◌++◌, if◌then◌else◌, nat_beq, Text, codes,
}
use docker_mobile.Admin.Client.{ClientError, check_socket_path}

-- How far an agent is: it serves, or its `Close` has closed the socket and not yet the lock.
pub data Phase : Type 0 where
  idle serving closing : Phase

-- The state folder: who holds its lock, and whose socket is at the path.
pub record Place : Type 0 where
  pub holder : Option ℕ
  pub socket : Option ℕ
  pub phase : ℕ → Phase

-- What goes wrong in `Listen`, if anything does.
pub record Hitches : Type 0 where
  pub lock : Option Text
  pub remove : Option Text
  pub listen : Option Text
  pub chmod : Option Text

pub data ListenError : Type 0 where
  path_refused : ClientError → ListenError
  already_running : ListenError
  lock_failed remove_failed socket_failed : Text → ListenError

abbrev pub put : ℕ → Phase → (ℕ → Phase) → ℕ → Phase
put i p f j = if nat_beq i j then p else f j

-- `listenLocked`. A socket whose mode cannot be set is closed, which removes it.
unfoldable pub listen_locked : ℕ → Hitches → Place → Place × Option ListenError
listen_locked i h w = elim h.remove [
  | some e ↦ (w, some (remove_failed e))
  | none ↦ elim h.listen [
    | some e ↦ (record w { socket = none }, some (socket_failed e))
    | none ↦ elim h.chmod [
      | some e ↦ (record w { socket = none }, some (socket_failed e))
      | none ↦ (record w { socket = some i }, none)
    ]
  ]
]

-- The end of `Listen`: without a socket the lock is given up.
unfoldable pub listening : ℕ → Place × Option ListenError → Place × Option ListenError
listening i (w, some e) = (record w { holder = none }, some e)
listening i (w, none) = (record w { phase = put i serving w.phase }, none)

-- `lockFile`, and what follows.
unfoldable pub with_lock : ℕ → Hitches → Place → Option ℕ → Place × Option ListenError
with_lock i h w (some j) = (w, some already_running)
with_lock i h w none = listening i (listen_locked i h (record w { holder = some i }))

-- `Listen` of the agent `i`.
unfoldable pub listen : ℕ → Text → Hitches → Place → Place × Option ListenError
listen i path h w = elim (check_socket_path path) [
  | some e ↦ (w, some (path_refused e))
  | none ↦ elim h.lock [ some e ↦ (w, some (lock_failed e)) | none ↦ with_lock i h w w.holder ]
]

-- `Close`, its two halves: the socket goes, whatever is at its path, and then the lock.
close_socket : ℕ → Phase → Place → Place
close_socket i serving w = record w { socket = none; phase = put i closing w.phase }
close_socket i idle w = w
close_socket i closing w = w

close_lock : ℕ → Phase → Place → Place
close_lock i closing w = record w { holder = none; phase = put i idle w.phase }
close_lock i idle w = w
close_lock i serving w = w

-- The error of `Close`: that of the socket, and else that of the lock.
unfoldable pub close_error : Option Text → Option Text → Option Text
close_error (some e) lock = some e
close_error none none = none
close_error none (some e) = some (codes "release the state folder: " ++ e)

-- The process of an agent ends, however it does: the socket stays behind.
die : ℕ → Phase → Place → Place
die i idle w = w
die i serving w = record w { holder = none; phase = put i idle w.phase }
die i closing w = record w { holder = none; phase = put i idle w.phase }

pub data Move : Type 0 where
  listens : ℕ → Text → Hitches → Move
  closes_socket closes_lock dies : ℕ → Move

listen_idle : ℕ → Text → Hitches → Phase → Place → Place
listen_idle i path h idle w = (listen i path h w).0
listen_idle i path h serving w = w
listen_idle i path h closing w = w

unfoldable pub step : Place → Move → Place
unfolding close_socket close_lock die listen_idle
step w (listens i path h) = listen_idle i path h (w.phase i) w
step w (closes_socket i) = close_socket i (w.phase i) w
step w (closes_lock i) = close_lock i (w.phase i) w
step w (dies i) = die i (w.phase i) w

unfoldable pub run : Place → List Move → Place
run w [] = w
run w (m ∷ ms) = run (step w m) ms

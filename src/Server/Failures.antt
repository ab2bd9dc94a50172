-- ===== src/Server/Failures.antt =====
-- What the log of failures writes and remembers.
use docker_mobile.Base.{ℕ, ◌≤◌, List, [], ◌∷◌, arith, Text, length, nat_eq, text_eq, length-insert}
use docker_mobile.Server.{FailureLog, note, max_failure_addrs}

pub note_all : FailureLog → List (Text × ℕ) → FailureLog
note_all f [] = f
note_all f ((key, now) ∷ rest) = note_all (note key now f) rest

note-few :
    (key : Text) (now : ℕ) (f : FailureLog)
    → length f.last ≤ max_failure_addrs
    → length (note key now f).last ≤ max_failure_addrs
unfolding note
note-few key now f h = ground (arith, h, length-insert key now f.last, length-insert key now [])

-- However many failures are noted, the log remembers `max_failure_addrs` addresses at most.
pub note_all_bounded :
    (f : FailureLog) (calls : List (Text × ℕ))
    → length f.last ≤ max_failure_addrs
    → length (note_all f calls).last ≤ max_failure_addrs
unfolding note_all
note_all_bounded f [] h = h
note_all_bounded f ((key, now) ∷ rest) h =
    note_all_bounded (note key now f) rest (note-few key now f h)

-- ===== src/Throttle.antt =====
-- agent/internal/throttle/throttle.go: failed attempts per source address, and growing blocks.
-- A time is a number of nanoseconds, read from the clock by the caller and passed in; the zero
-- time is 0. The map `addrs` is an association list, whose order stands for Go's iteration order.
pub mod Penalty
pub mod Block
pub mod Table
pub mod Evict
pub mod Uncapped
mod Tests
use docker_mobile.Base.{
  ℕ, zero, suc, ◌+◌, ◌-◌, ◌*◌, ◌/◌, Bool, true, false, ◌&&◌, not, List, [], ◌∷◌, ◌++◌, Option, none,
  some, Text, ltb, leb, if◌then◌else◌, length, take, drop, last_or, lookup, insert, delete, map,
  text_eq,
}

abbrev pub minute : ℕ
minute = 60000000000

-- `Window`, `Threshold`, `BasePenalty`, `MaxPenalty`, `maxFailures`, `maxAddresses`, `evictBatch`.
abbrev pub window : ℕ
window = 10 * minute

abbrev pub threshold : ℕ
threshold = 10

abbrev pub base_penalty : ℕ
base_penalty = minute

abbrev pub max_penalty : ℕ
max_penalty = 15 * minute

abbrev pub max_failures : ℕ
max_failures = threshold + 4

abbrev pub max_addresses : ℕ
max_addresses = 10000

abbrev pub evict_batch : ℕ
evict_batch = max_addresses / 10

pub record Entry : Type 0 where
  pub failures : List ℕ
  pub blocked_until : ℕ

abbrev pub new_entry : Entry
new_entry = record { failures = []; blocked_until = 0 }

pub record Limiter : Type 0 where
  pub addrs : List (Text × Entry)

abbrev pub new : Limiter
new = record { addrs = [] }

-- How much longer an entry is blocked: `e.blockedUntil.Sub(l.now())`, none if not positive.
pub time_left : Option Entry → ℕ → ℕ
time_left none now = 0
time_left (some e) now = e.blocked_until - now

-- `Blocked`: the time left, if there is any.
unfoldable pub blocked : Limiter → Text → ℕ → Option ℕ
unfolding time_left
blocked l key now =
    let left = time_left (lookup key l.addrs) now in if ltb 0 left then some left else none

-- The loop drops the oldest failures while they are out of the window.
pub recent : List ℕ → ℕ → List ℕ
recent [] now = []
recent (f ∷ fs) now = let rest = recent fs now in if leb window (now - f) then rest else f ∷ fs

-- The loop that doubles, by the rounds that are left.
double_penalty : ℕ → ℕ → ℕ
double_penalty zero p = p
double_penalty (suc k) p =
    let rest = double_penalty k (p * 2) in if ltb p max_penalty then rest else p

pub penalty : ℕ → ℕ
unfolding double_penalty
penalty n =
    let p = double_penalty (n - threshold) base_penalty in
    if ltb max_penalty p then max_penalty else p

-- A block's end only moves forward.
extend_block : Entry → ℕ → Entry
extend_block e until = if ltb e.blocked_until until then record e { blocked_until = until } else e

-- The newest `max_failures` times are kept.
pub cap_failures : List ℕ → List ℕ
cap_failures fs = drop (length fs - max_failures) fs

pub penalise : Entry → ℕ → Entry
unfolding extend_block
penalise e now =
    let n = length e.failures in if leb threshold n then extend_block e (now + penalty n) else e

-- `Fail`, on the entry of its address.
pub fail_entry : Entry → ℕ → Entry
fail_entry e now =
    penalise (record e { failures = cap_failures (recent e.failures now ++ now ∷ []) }) now

-- Neither a failure inside the window nor a running block.
pub nothing_left : List ℕ → ℕ → ℕ → Bool
nothing_left [] until now = not (ltb now until)
nothing_left (_ ∷ _) until now = false

-- The first pass of `evictLocked`.
pub forget : List (Text × Entry) → ℕ → List (Text × Entry)
unfolding nothing_left
forget [] now = []
forget ((key, e) ∷ m) now =
    let fs = recent e.failures now in
    let rest = forget m now in
    if nothing_left fs e.blocked_until now then rest else (key, record e { failures = fs }) ∷ rest

pub record Candidate : Type 0 where
  pub key : Text
  pub blocked : Bool
  pub at : ℕ

-- `at` is the end of the block of a blocked address, and the last failure of another.
pub candidate : ℕ → Text × Entry → Candidate
candidate now (key, e) =
    let is_blocked = ltb now e.blocked_until in
    record {
      key = key;
      blocked = is_blocked;
      at = if is_blocked then e.blocked_until else last_or 0 e.failures;
    }

-- The comparison that the candidates are sorted by, as "`a` may stand before `b`".
pub goes_before : Candidate → Candidate → Bool
goes_before a b =
    if a.blocked then b.blocked && leb a.at b.at else if b.blocked then true else leb a.at b.at

-- `slices.SortFunc`: the sorted order, equal candidates in the order of the map.
insert_sorted : Candidate → List Candidate → List Candidate
insert_sorted c [] = c ∷ []
insert_sorted c (d ∷ ds) = if goes_before c d then c ∷ d ∷ ds else d ∷ insert_sorted c ds

pub sort : List Candidate → List Candidate
unfolding insert_sorted goes_before
sort [] = []
sort (c ∷ cs) = insert_sorted c (sort cs)

pub delete_all : List Candidate → List (Text × Entry) → List (Text × Entry)
delete_all [] m = m
delete_all (c ∷ cs) m = delete_all cs (delete c.key m)

-- The second pass of `evictLocked`: the addresses that a full table gives up.
pub victims : List (Text × Entry) → ℕ → List Candidate
victims m now = take evict_batch (sort (map (candidate now) m))

pub evict : List (Text × Entry) → ℕ → List (Text × Entry)
evict m now =
    let kept = forget m now in
    if ltb (length kept) max_addresses then kept else delete_all (victims kept now) kept

-- Room for a new address.
pub make_room : List (Text × Entry) → ℕ → List (Text × Entry)
make_room m now = if leb max_addresses (length m) then evict m now else m

pub fail_in : Option Entry → List (Text × Entry) → Text → ℕ → List (Text × Entry)
fail_in (some e) m key now = insert key (fail_entry e now) m
fail_in none m key now = insert key (fail_entry new_entry now) (make_room m now)

-- `Fail`.
unfoldable pub fail : Limiter → Text → ℕ → Limiter
fail l key now = record { addrs = fail_in (lookup key l.addrs) l.addrs key now }

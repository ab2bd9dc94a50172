-- ===== src/Conns.antt =====
-- agent/internal/conns/conns.go: the requests that each device has open.
-- A context is the number that `Track` gives it beside those of its request, and `ended` lists the
-- contexts whose cancel function has been called. `Registry.mu` makes each operation one step, but
-- the calls of the cancel functions come after the lock is given up: they are in the same step
-- here, because nothing else reads them in between but the contexts themselves.
pub mod History
pub mod Held
pub mod Accounts
pub mod Close
mod Tests
use docker_mobile.Base.{
  ℕ, ◌+◌, ◌-◌, ◌%◌, ◌^◌, Bool, true, false, Option, none, some, List, [], ◌∷◌, ◌++◌, map,
  if◌then◌else◌, Text, length, nat_eq, text_eq, lookup, insert, delete,
}

-- The requests of one device: the number `n` of each, with its cancel function's context.
abbrev pub Requests : Type 0
Requests = List (ℕ × ℕ)

pub record Registry : Type 0 where
  pub next : ℕ
  pub open_requests : List (Text × Requests)
  pub closed : Bool
  -- The contexts that have been cancelled.
  pub ended : List ℕ

abbrev pub new : Registry
new = record { next = 0; open_requests = []; closed = false; ended = [] }

abbrev pub requests_of : Option Requests → Requests
requests_of none = []
requests_of (some set) = set

-- `set` of a device, the missing one empty.
abbrev pub open_of : Registry → Text → Requests
open_of r device = requests_of (lookup device r.open_requests)

abbrev pub contexts : Requests → List ℕ
contexts = map (λ e. e.1)

-- `r.next++` on a uint64.
abbrev pub next_number : Registry → ℕ
next_number r = (r.next + 1) % 2 ^ 64

-- `Track`: `ctx` is the context made for the request. The number that `release` needs comes back,
-- or none if the registry is closed; the context is ended then.
unfoldable pub track : Registry → Text → ℕ → Registry × Option ℕ
track r device ctx = if r.closed then (record r { ended = ctx ∷ r.ended }, none) else (
  record r {
    next = next_number r;
    open_requests = insert device (insert (next_number r) ctx (open_of r device)) r.open_requests;
  },
  some (next_number r),
)

-- `delete(r.open, deviceID)` once the last request of the device is gone.
store_requests : Text → Requests → List (Text × Requests) → List (Text × Requests)
store_requests device [] m = delete device m
store_requests device (e ∷ set) m = insert device (e ∷ set) m

-- The function that `Track` returns. What a closed registry returns does nothing.
unfoldable pub release : Registry → Text → Option ℕ → ℕ → Registry
unfolding store_requests
release r device none ctx = r
release r device (some n) ctx = elim (lookup device r.open_requests) [
  | none ↦ record r { ended = ctx ∷ r.ended }
  | some set ↦ record r {
    open_requests = store_requests device (delete n set) r.open_requests;
    ended = ctx ∷ r.ended;
  }
]

-- `CloseDevice`: the number of requests that it ended comes back.
unfoldable pub close_device : Registry → Text → Registry × ℕ
close_device r device =
    let set = open_of r device in
    (
      record r { open_requests = delete device r.open_requests; ended = contexts set ++ r.ended },
      length set,
    )

pub all_contexts : List (Text × Requests) → List ℕ
all_contexts [] = []
all_contexts ((_, set) ∷ m) = contexts set ++ all_contexts m

-- `CloseAll`.
unfoldable pub close_all : Registry → Registry
unfolding all_contexts
close_all r = record r {
  open_requests = [];
  closed = true;
  ended = all_contexts r.open_requests ++ r.ended;
}

-- `Open`.
unfoldable pub open_count : Registry → Text → ℕ
open_count r device = length (open_of r device)

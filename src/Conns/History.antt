-- ===== src/Conns/History.antt =====
-- Any sequence of operations on a registry, with the requests that were tracked so far.
use docker_mobile.Base.{
  ℕ, ◌-◌, ◌≤◌, ◌<◌, ◌≡◌, ◌⊎◌, inl, inr, Option, none, some, List, [], ◌∷◌, ◌++◌, Text, get_elem?,
  All, nat_eq, text_eq, lookup,
}
use docker_mobile.Conns.{Registry, new, open_of, track, release, close_device, close_all}

-- One request as `Track`'s caller holds it.
pub record Handle : Type 0 where
  pub device : Text
  pub number : ℕ
  pub ctx : ℕ

pub record System : Type 0 where
  pub registry : Registry
  pub handles : List Handle

abbrev pub start : System
start = record { registry = new; handles = [] }

pub data Call : Type 0 where
  tracks : Text → ℕ → Call
  releases : ℕ → Call
  closes_device : Text → Call
  closes_all : Call

unfoldable pub note_handle : List Handle → Text → ℕ → Option ℕ → List Handle
note_handle hs device ctx none = hs
note_handle hs device ctx (some n) = record { device = device; number = n; ctx = ctx } ∷ hs

pub release_handle : Registry → Option Handle → Registry
release_handle r none = r
release_handle r (some h) = release r h.device (some h.number) h.ctx

-- `releases i` calls the function that belongs to the `i`-th handle, also a second time.
unfoldable pub step : System → Call → System
unfolding note_handle release_handle
step s (tracks device ctx) =
    let (r, n) = track s.registry device ctx in
    record { registry = r; handles = note_handle s.handles device ctx n }
step s (releases i) = record s { registry = release_handle s.registry (get_elem? s.handles i) }
step s (closes_device device) = record s { registry = (close_device s.registry device).0 }
step s closes_all = record s { registry = close_all s.registry }

unfoldable pub run : System → List Call → System
run s [] = s
run s (c ∷ cs) = run (step s c) cs

abbrev pub In : ℕ → List ℕ → Type 0
In x [] = ⊥
In x (y ∷ ys) = (x ≡ y) ⊎ In x ys

pub In-append_left : (x : ℕ) (xs ys : List ℕ) → In x xs → In x (xs ++ ys)
In-append_left x (y ∷ ys) zs (inl p) = inl p
In-append_left x (y ∷ ys) zs (inr p) = inr (In-append_left x ys zs p)
In-append_left x [] zs h = elim h [ ]

pub In-append_right : (x : ℕ) (xs ys : List ℕ) → In x ys → In x (xs ++ ys)
In-append_right x [] ys h = h
In-append_right x (y ∷ xs) ys h = inr (In-append_right x xs ys h)

-- The context of a handle has ended, or the registry holds it open.
abbrev pub Held : Registry → Handle → Type 0
Held r h = In h.ctx r.ended ⊎ (lookup h.number (open_of r h.device) ≡ some h.ctx)

-- Numbers fall along the list of handles: no two are alike.
abbrev pub Below : ℕ → List Handle → Type 0
Below n [] = Unit
Below n (h ∷ hs) = (h.number ≤ n) × (0 < h.number) × Below (h.number - 1) hs

pub record Accounts (s : System) : Type 0 where
  pub held : All (Held s.registry) s.handles
  pub numbers : Below s.registry.next s.handles

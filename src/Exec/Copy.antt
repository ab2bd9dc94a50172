-- ===== src/Exec/Copy.antt =====
-- What the phone is sent of what the terminal writes.
use docker_mobile.Base.{
  ℕ, zero, suc, ◌≡◌, refl, sym, ap, true, List, [], ◌∷◌, ◌++◌, take, ◌≢◌, All, arith, if◌then◌else◌,
  Text, ◌==◌, nat_eq, text_eq, ==_iff, Bool-cases, inl, inr,
}
use docker_mobile.Exec.{Chunk, copy_out}

-- The bytes that the reads give, up to the first that fails.
pub read_all : List Chunk → Text
read_all [] = []
read_all (c ∷ cs) = c.data_read ++ (if c.failed then [] else read_all cs)

abbrev pub concat : List Text → Text
concat [] = []
concat (t ∷ ts) = t ++ concat ts

empty-data : (d : Text) → (d == []) ≡ true → d ≡ []
empty-data d h = (==_iff d []).0 h

-- The reads that give bytes, up to the first that fails, each a message.
pub messages : List Chunk → List Text
messages [] = []
messages (c ∷ cs) =
    let after = messages cs in
    let kept = if c.failed then [] else after in
    if c.data_read == [] then kept else c.data_read ∷ kept

concat-messages : (cs : List Chunk) → concat (messages cs) ≡ read_all cs
unfolding messages read_all
concat-messages [] = refl
concat-messages (c ∷ cs) = ground (arith, concat-messages cs, empty-data c.data_read)

messages-filled : (cs : List Chunk) → All (λ t. t ≢ []) (messages cs)
unfolding messages
messages-filled [] = tt
messages-filled (c ∷ cs) = ground (arith, messages-filled cs, (==_iff c.data_read []).1)

no_room : (cs : List Chunk) → copy_out zero cs ≡ []
unfolding copy_out
no_room [] = refl
no_room (c ∷ cs) = ground (arith, no_room cs)

take-nil : (n : ℕ) → Path (List Text) (take n []) []
take-nil zero = refl
take-nil (suc n) = refl

copy_out-take : (room : ℕ) (cs : List Chunk) → copy_out room cs ≡ take room (messages cs)
unfolding copy_out messages
copy_out-take zero cs = no_room cs
copy_out-take (suc room) [] = refl
copy_out-take (suc room) (c ∷ cs) = elim (Bool-cases (c.data_read == [])) [
  | inl e ↦ elim (Bool-cases c.failed) [
    | inl f ↦ rw (e, f) refl
    | inr f ↦ rw (e, f) (copy_out-take (suc room) cs)
  ]
  | inr e ↦ elim (Bool-cases c.failed) [
    | inl f ↦ rw (e, f) (ap (λ t. c.data_read ∷ t) (sym (take-nil room)))
    | inr f ↦ rw (e, f) (ap (λ t. c.data_read ∷ t) (copy_out-take room cs))
  ]
]

-- What the phone is sent are the first messages, as many as can be sent, of those that the reads make:
-- none of them is empty, and together they are all that the terminal wrote up to the first read that
-- fails, what came with that read included.
pub copy_out-messages :
    (room : ℕ) (cs : List Chunk)
    → (copy_out room cs ≡ take room (messages cs))
      × (concat (messages cs) ≡ read_all cs)
      × All (λ t. t ≢ []) (messages cs)
copy_out-messages room cs = (copy_out-take room cs, concat-messages cs, messages-filled cs)

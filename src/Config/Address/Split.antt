-- ===== src/Config/Address/Split.antt =====
-- What splitting an address gives, and that it undoes joining one.
use docker_mobile.Base.{
  ℕ, ◌+◌, ◌-◌, ◌*◌, ◌≡◌, refl, sym, ◌∙◌, subst, ◌≢◌, ◌⊎◌, inl, inr, true, false, Option, none, some,
  [], ◌∷◌, ◌++◌, arith, nat_beq, Bool-cases, Text, ◌==◌, nat_eq, text_eq, ne_of_==, Result, ok, err,
  contains_byte, cut-append, contains_byte-append, false≢true, none≢some, err≢ok, ok-inv,
}
use docker_mobile.Config.Address.{
  Library, AddressError, bad_port, first_of, forbidden, character_or, check_host, is_digit,
  digits_value, in_port_range, check_port, count_byte, Parts, after_brackets, at_colon, split_plain,
  split_parts, check_given_port, given_port, checked, check_parts, split_address, join_host_port,
}

-- A host and a port that `splitAddress` lets through.
pub record IsAddress (lib : Library) (x : Text × Text) : Type 0 where
  pub host : check_host lib x.0 ≡ none
  pub port : (x.1 ≡ []) ⊎ (check_port x.1 ≡ none)

checked-ok :
    (e f : Option AddressError) (r x : Text × Text)
    → checked e f r ≡ ok x
    → (e ≡ none) × (f ≡ none) × (r ≡ x)
unfolding checked
checked-ok (some e) f r x h = absurd (err≢ok e x h)
checked-ok none (some f) r x h = absurd (err≢ok f x h)
checked-ok none none r x h = (refl, refl, ok-inv r x h)

given_port-valid :
    (p : Option Text)
    → check_given_port p ≡ none
    → (given_port p ≡ []) ⊎ (check_port (given_port p) ≡ none)
unfolding given_port check_given_port
given_port-valid none h = inl refl
given_port-valid (some p) h = inr h

check_parts-IsAddress :
    (lib : Library) (r : Result AddressError Parts) (x : Text × Text)
    → check_parts lib r ≡ ok x
    → IsAddress lib x
unfolding check_parts
check_parts-IsAddress lib (err e) x h = absurd (err≢ok e x h)
check_parts-IsAddress lib (ok (host, port)) x h =
    let (a, b, e) =
      checked-ok (check_host lib host) (check_given_port port) (host, given_port port) x h in
    subst (IsAddress lib) e (record { host = a; port = given_port-valid port b })

-- Whatever is split off is a host that passes `checkHost`, and no port or one that passes
-- `checkPort`.
pub split_address-IsAddress :
    (lib : Library) (value : Text) (x : Text × Text)
    → split_address lib value ≡ ok x
    → IsAddress lib x
unfolding split_address
split_address-IsAddress lib value x h = check_parts-IsAddress lib (split_parts lib value) x h

pub first_of-none :
    (bad : Text) (c : ℕ) (s : Text)
    → contains_byte c bad ≡ true
    → first_of bad s ≡ none
    → contains_byte c s ≡ false
unfolding first_of contains_byte
first_of-none bad c [] b h = refl
first_of-none bad c (d ∷ s) b h = elim (Bool-cases (contains_byte d bad)) [
  | inl y ↦ absurd (none≢some d (sym (rw y at h)))
  | inr y ↦ ground (arith, first_of-none bad c s b (rw y at h), y, b)
]

pub character_or-none :
    (c : Option ℕ) (e : Option AddressError) → character_or c e ≡ none → (c ≡ none) × (e ≡ none)
unfolding character_or
character_or-none none e h = (refl, h)
character_or-none (some c) e h = absurd (none≢some _ (sym h))

-- A host that passes is not empty and has no forbidden character.
check_host-clean :
    (lib : Library) (host : Text)
    → check_host lib host ≡ none
    → (host ≢ []) × (first_of forbidden host ≡ none)
unfolding check_host
check_host-clean lib host h = elim (Bool-cases (host == [])) [
  | inl y ↦ absurd (none≢some _ (sym (rw y at h)))
  | inr y ↦ (ne_of_== host [] y, (character_or-none _ _ (rw y at h)).0)
]

digits-no-colon : (acc : ℕ) (s : Text) → digits_value acc s ≢ none → count_byte b':' s ≡ 0
unfolding digits_value count_byte is_digit
digits-no-colon acc [] h = refl
digits-no-colon acc (c ∷ s) h = elim (Bool-cases (is_digit c)) [
  | inr y ↦ absurd (h (rw y refl))
  | inl y ↦
      let later = digits-no-colon (acc * 10 + (c - b'0')) s (λ e. h (rw y e)) in
      ground (arith, later, y)
]

check_port-no-colon : (port : Text) → check_port port ≡ none → count_byte b':' port ≡ 0
unfolding check_port in_port_range
check_port-no-colon [] h = absurd (none≢some _ (sym h))
check_port-no-colon (c ∷ s) h = elim (Bool-cases (in_port_range (digits_value 0 (c ∷ s)))) [
  | inr y ↦ absurd (none≢some bad_port (sym (rw y at h)))
  | inl y ↦ digits-no-colon 0 (c ∷ s) (λ e. false≢true (rw e at y))
]

count_byte-absent : (b : ℕ) (s : Text) → contains_byte b s ≡ false → count_byte b s ≡ 0
unfolding contains_byte count_byte
count_byte-absent b [] h = refl
count_byte-absent b (c ∷ s) h = ground (arith, h, count_byte-absent b s)

count_byte-append : (b : ℕ) (s t : Text) → count_byte b (s ++ t) ≡ count_byte b s + count_byte b t
unfolding count_byte
count_byte-append b [] t = omega arith
count_byte-append b (c ∷ s) t = omega (arith, count_byte-append b s t)

count_byte-join :
    (host port : Text)
    → contains_byte b':' host ≡ false
    → count_byte b':' port ≡ 0
    → count_byte b':' (host ++ (b':' ∷ port)) ≡ 1
unfolding count_byte
count_byte-join host port a b = omega (
  arith,
  count_byte-append b':' host (b':' ∷ port),
  count_byte-absent b':' host a,
  b,
  count_byte-head port,
)
  where
    count_byte-head : (p : Text) → count_byte b':' (b':' ∷ p) ≡ 1 + count_byte b':' p
    count_byte-head p = refl

split_plain-join :
    (lib : Library) (host port : Text)
    → ((t : Text) → count_byte b':' t ≡ 1 → lib.is_ip t ≡ false)
    → contains_byte b':' host ≡ false
    → count_byte b':' port ≡ 0
    → split_plain lib (host ++ (b':' ∷ port)) ≡ ok (host, some port)
unfolding split_plain at_colon contains_byte
split_plain-join lib host port ip a b =
    let one = count_byte-join host port a b in
    let colon : contains_byte b':' (host ++ (b':' ∷ port)) ≡ true =
      contains_byte-append b':' host (b':' ∷ port) ∙ rw a refl in
    rw (ip _ one, colon, one, cut-append b':' host port a) refl

not-first : (c : ℕ) (s : Text) → contains_byte b'[' (c ∷ s) ≡ false → nat_beq c b'[' ≡ false
unfolding contains_byte
not-first c s h = ground (h, arith)

-- The host of an address, with a colon in it or not.
join-split :
    (lib : Library) (host port : Text)
    → ((t : Text) → count_byte b':' t ≡ 1 → lib.is_ip t ≡ false)
    → check_host lib host ≡ none
    → count_byte b':' port ≡ 0
    → split_parts lib (join_host_port host port) ≡ ok (host, some port)
unfolding split_parts join_host_port after_brackets contains_byte
join-split lib [] port ip h p = absurd ((check_host-clean lib [] h).0 refl)
join-split lib (c ∷ s) port ip h p =
    let clean = (check_host-clean lib (c ∷ s) h).1 in
    let closing : contains_byte b']' (c ∷ s) ≡ false =
      first_of-none forbidden b']' (c ∷ s) refl clean in
    let opening : nat_beq c b'[' ≡ false =
      not-first c s (first_of-none forbidden b'[' (c ∷ s) refl clean) in
    elim (Bool-cases (contains_byte b':' (c ∷ s))) [
      | inl y ↦ rw (y, cut-append b']' (c ∷ s) (b':' ∷ port) closing) refl
      | inr y ↦ rw (y, opening) (split_plain-join lib (c ∷ s) port ip y p)
    ]

-- A host and a port that pass are read back from what `net.JoinHostPort` makes of them, an IPv6
-- address in brackets included, if no text with one colon is an IP address.
pub split_address-join_host_port :
    (lib : Library) (host port : Text)
    → ((t : Text) → count_byte b':' t ≡ 1 → lib.is_ip t ≡ false)
    → check_host lib host ≡ none
    → check_port port ≡ none
    → split_address lib (join_host_port host port) ≡ ok (host, port)
unfolding split_address check_parts checked given_port check_given_port
split_address-join_host_port lib host port ip h p =
    rw (join-split lib host port ip h (check_port-no-colon port p), h, p) refl

-- ===== src/Config/Address/Hosts.antt =====
-- What the hosts and the ports are like that pass `checkHost` and `checkPort`.
use docker_mobile.Base.{
  ℕ, ◌+◌, ◌-◌, ◌*◌, ◌≤◌, ◌<◌, ◌≡◌, ◌≢◌, refl, sym, inl, inr, Bool, true, false, ◌&&◌, not, none,
  some, [], ◌∷◌, arith, ltb, leb, if◌then◌else◌, Bool-cases, Option-cases, Text, codes, All, ◌==◌,
  nat_eq, text_eq, ne_of_==, contains_byte, none≢some,
}
use docker_mobile.Config.Address.{
  Library, AddressError, has_any, bad_port, first_of, forbidden, check_host, is_digit, digits_value,
  in_port_range, check_port,
}
use docker_mobile.Config.Address.Split.{first_of-none, character_or-none}

-- A host that can stand in a URL: it is not empty, it has none of the characters that end a host there
-- and no white space, and a colon only if it is an IP address.
pub record IsHost (lib : Library) (host : Text) : Type 0 where
  pub given : host ≢ []
  pub plain : All (λ c. contains_byte c host ≡ false) (codes "/?#@[]")
  pub no_space : All (λ c. lib.is_space c ≡ false) host
  pub colon : contains_byte b':' host ≡ true → lib.is_ip host ≡ true

-- The number that digits stand for, behind those of `acc`.
pub number : ℕ → Text → ℕ
number acc [] = acc
number acc (c ∷ s) = number (acc * 10 + (c - 48)) s

-- A port: digits that stand for a number from 1 to 65535.
pub record IsPort (port : Text) : Type 0 where
  pub given : port ≢ []
  pub digits : All (λ c. (48 ≤ c) × (c ≤ 57)) port
  pub low : 0 < number 0 port
  pub high : number 0 port ≤ 65535

has_any-none : (p : ℕ → Bool) (s : Text) → has_any p s ≡ false → All (λ c. p c ≡ false) s
unfolding has_any
has_any-none p [] h = tt
has_any-none p (c ∷ s) h = (ground (h, arith), has_any-none p s (ground (h, arith)))

colon_for_ip : (c i : Bool) → (c && not i) ≡ false → c ≡ true → i ≡ true
colon_for_ip c i h k = ground (h, k, arith)

all-absent :
    (host : Text)
    → first_of forbidden host ≡ none
    → All (λ c. contains_byte c host ≡ false) (codes "/?#@[]")
unfolding contains_byte
all-absent host e = (
  first_of-none forbidden b'/' host refl e,
  (
    first_of-none forbidden b'?' host refl e,
    (
      first_of-none forbidden b'#' host refl e,
      (
        first_of-none forbidden b'@' host refl e,
        (first_of-none forbidden b'[' host refl e, (first_of-none forbidden b']' host refl e, tt)),
      ),
    ),
  ),
)

refuses_neither :
    (space colon : Bool)
    → (if space
        then some AddressError.host_space
        else if colon
        then some AddressError.host_colon
        else none)
      ≡ none
    → (space ≡ false) × (colon ≡ false)
refuses_neither true colon h = absurd (none≢some _ (sym h))
refuses_neither false true h = absurd (none≢some _ (sym h))
refuses_neither false false h = (refl, refl)

pub check_host-IsHost : (lib : Library) (host : Text) → check_host lib host ≡ none → IsHost lib host
unfolding check_host
check_host-IsHost lib host h = elim (Bool-cases (host == [])) [
  | inl y ↦ absurd (none≢some _ (sym (rw y at h)))
  | inr y ↦
      let (clean, rest) = character_or-none _ _ (rw y at h) in
      let (space, colon) =
        refuses_neither (has_any lib.is_space host)
          (contains_byte b':' host && not (lib.is_ip host)) rest in
      record {
        given = ne_of_== host [] y;
        plain = all-absent host clean;
        no_space = has_any-none lib.is_space host space;
        colon = colon_for_ip (contains_byte b':' host) (lib.is_ip host) colon;
      }
]

digits_value-number :
    (acc : ℕ) (s : Text) (n : ℕ)
    → digits_value acc s ≡ some n
    → All (λ c. (48 ≤ c) × (c ≤ 57)) s × (number acc s ≡ n)
unfolding digits_value number is_digit
digits_value-number acc [] n h = (tt, ground (h, arith))
digits_value-number acc (c ∷ s) n h = elim (Bool-cases (leb 48 c && leb c 57)) [
  | inr y ↦ absurd (none≢some n (rw y at h))
  | inl y ↦
      let (rest, q) = digits_value-number (acc * 10 + (c - 48)) s n (rw y at h) in
      ((ground (y, arith), rest), q)
]

pub check_port-IsPort : (port : Text) → check_port port ≡ none → IsPort port
unfolding check_port in_port_range
check_port-IsPort [] h = absurd (none≢some _ (sym h))
check_port-IsPort (c ∷ s) h = elim (Option-cases (digits_value 0 (c ∷ s))) [
  | inl e ↦ absurd (none≢some bad_port (sym (rw e at h)))
  | inr (n, e) ↦
      let (digits, q) = digits_value-number 0 (c ∷ s) n e in
      let range = in_range n (rw e at h) in
      record {
        given = λ p. ground (p, arith);
        digits = digits;
        low = rw q range.0;
        high = rw q range.1;
      }
]
  where
    in_range :
        (n : ℕ)
        → (if ltb 0 n && leb n 65535 then none else some bad_port) ≡ none
        → (0 < n) × (n ≤ 65535)
    in_range n h = ground (h, arith)

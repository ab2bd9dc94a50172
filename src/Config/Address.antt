-- ===== src/Config/Address.antt =====
-- agent/internal/config/advertise.go: splitAddress, checkHost and checkPort, with what they use of
-- Go's net and strconv.
pub mod Split
pub mod Hosts
use docker_mobile.Base.{
  ℕ, ◌+◌, ◌-◌, ◌*◌, ◌/◌, Bool, false, ◌&&◌, ◌||◌, not, Option, none, some, [], ◌∷◌, ◌++◌, ltb, leb,
  if◌then◌else◌, nat_beq, Text, codes, ◌==◌, text_eq, Result, ok, err, cut, contains_byte,
}

-- What the package takes from Go's library: the white space and the control characters of Unicode,
-- and whether `net.ParseIP` reads a text.
pub record Library : Type 0 where
  pub is_space : ℕ → Bool
  pub is_control : ℕ → Bool
  pub is_ip : Text → Bool

pub data AddressError : Type 0 where
  no_closing_bracket after_bracket too_many_colons no_host : AddressError
  bad_character : ℕ → AddressError
  host_space host_colon no_port bad_port : AddressError

-- `strings.IndexFunc` finds one.
unfoldable pub has_any : (ℕ → Bool) → Text → Bool
has_any p [] = false
has_any p (c ∷ s) = p c || has_any p s

-- `strings.IndexAny`: the first character that is one of the others.
unfoldable pub first_of : Text → Text → Option ℕ
first_of bad [] = none
first_of bad (c ∷ s) = let rest = first_of bad s in if contains_byte c bad then some c else rest

abbrev pub forbidden : Text
forbidden = codes "/?#@[]"

pub character_or : Option ℕ → Option AddressError → Option AddressError
character_or (some c) next = some (bad_character c)
character_or none next = next

-- `checkHost`: its error, if there is one.
unfoldable pub check_host : Library → Text → Option AddressError
unfolding character_or
check_host lib host =
    if host == []
    then some no_host
    else character_or (first_of forbidden host) (
        if has_any lib.is_space host
        then some host_space
        else if contains_byte b':' host && not (lib.is_ip host)
        then some host_colon
        else none)

unfoldable pub is_digit : ℕ → Bool
is_digit c = leb b'0' c && leb c b'9'

-- `strconv.ParseUint` in base 10, without the bound: the digits on top of those before them.
unfoldable pub digits_value : ℕ → Text → Option ℕ
digits_value acc [] = some acc
digits_value acc (c ∷ s) =
    let rest = digits_value (acc * 10 + (c - b'0')) s in if is_digit c then rest else none

unfoldable pub in_port_range : Option ℕ → Bool
in_port_range none = false
in_port_range (some n) = ltb 0 n && leb n 65535

-- `checkPort`.
unfoldable pub check_port : Text → Option AddressError
check_port [] = some no_port
check_port (c ∷ s) = if in_port_range (digits_value 0 (c ∷ s)) then none else some bad_port

-- `strings.Count` of one character.
unfoldable pub count_byte : ℕ → Text → ℕ
count_byte b [] = 0
count_byte b (c ∷ s) = (if nat_beq c b then 1 else 0) + count_byte b s

-- A host, with a port if there is one.
abbrev pub Parts : Type 0
Parts = Text × Option Text

after_brackets : Option (Text × Text) → Result AddressError Parts
after_brackets none = err no_closing_bracket
after_brackets (some (host, [])) = ok (host, none)
after_brackets (some (host, c ∷ rest)) =
    if nat_beq c b':' then ok (host, some rest) else err after_bracket

at_colon : Option (Text × Text) → Result AddressError Parts
at_colon none = err too_many_colons
at_colon (some (host, port)) = ok (host, some port)

-- The switch of `splitAddress` where there is no bracket at the start.
unfoldable pub split_plain : Library → Text → Result AddressError Parts
unfolding at_colon
split_plain lib value =
    if lib.is_ip value || not (contains_byte b':' value)
    then ok (value, none)
    else if nat_beq (count_byte b':' value) 1
    then at_colon (cut b':' value)
    else err too_many_colons

-- The whole switch.
unfoldable pub split_parts : Library → Text → Result AddressError Parts
unfolding after_brackets
split_parts lib [] = split_plain lib []
split_parts lib (c ∷ s) =
    if nat_beq c b'[' then after_brackets (cut b']' s) else split_plain lib (c ∷ s)

unfoldable pub check_given_port : Option Text → Option AddressError
check_given_port none = none
check_given_port (some port) = check_port port

given_port : Option Text → Text
given_port none = []
given_port (some port) = port

checked :
    Option AddressError → Option AddressError → Text × Text → Result AddressError (Text × Text)
checked (some e) f r = err e
checked none (some f) r = err f
checked none none r = ok r

unfoldable pub check_parts : Library → Result AddressError Parts → Result AddressError (Text × Text)
unfolding checked given_port
check_parts lib (err e) = err e
check_parts lib (ok (host, port)) =
    checked (check_host lib host) (check_given_port port) (host, given_port port)

-- `splitAddress`: the host, and the port or the empty text.
unfoldable pub split_address : Library → Text → Result AddressError (Text × Text)
split_address lib value = check_parts lib (split_parts lib value)

-- `net.JoinHostPort`.
unfoldable pub join_host_port : Text → Text → Text
join_host_port host port =
    if contains_byte b':' host then b'[' ∷ (host ++ (b']' ∷ b':' ∷ port)) else host ++ (b':' ∷ port)

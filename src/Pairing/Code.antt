-- ===== src/Pairing/Code.antt =====
-- agent/internal/pairing/code.go: pairing codes, typed and shown. A code is the list of its bytes;
-- what a person typed is the list of its runes.
pub mod Canonical
use docker_mobile.Base.{
  ℕ, zero, suc, ◌+◌, ◌-◌, ◌%◌, Bool, ◌&&◌, ◌||◌, Option, none, some, List, [], ◌∷◌, ◌++◌, map, ltb,
  leb, if◌then◌else◌, nat_beq, Text, codes, length, take, drop, contains_byte,
}

abbrev pub code_len : ℕ
code_len = 12

abbrev pub alphabet : Text
alphabet = codes "0123456789ABCDEFGHJKMNPQRSTVWXYZ"

nth : Text → ℕ → ℕ
nth [] i = 0
nth (c ∷ s) zero = c
nth (c ∷ s) (suc i) = nth s i

-- `b & 31` of a random byte.
symbol : ℕ → ℕ
unfolding nth
symbol b = nth alphabet (b % 32)

-- `NewCode`: none when the random source gives too few bytes.
unfoldable pub new_code : List ℕ → Option Text
unfolding symbol
new_code random =
    if ltb (length random) code_len then none else some (map symbol (take code_len random))

-- The letters a to z in upper case.
upper : ℕ → ℕ
upper r = if leb b'a' r && leb r b'z' then r - 32 else r

-- Which rune is skipped, and what `O`, `I` and `L` are read as.
skipped : ℕ → Bool
skipped r = nat_beq r b'-' || nat_beq r b' '

look_alike : ℕ → ℕ
look_alike r = if nat_beq r b'O' then b'0' else if nat_beq r b'I' || nat_beq r b'L' then b'1' else r

abbrev pub keep : ℕ → Option Text → Option Text
keep r none = none
keep r (some s) = some (r ∷ s)

-- The loop of `Normalize`: the runes that go to the builder, or none where it returns false.
pub normalize_runes : List ℕ → Option Text
unfolding upper skipped look_alike
normalize_runes [] = some []
normalize_runes (r ∷ rs) =
    let rest = normalize_runes rs in
    if ltb 127 r
    then none
    else if skipped (upper r)
    then rest
    else if contains_byte (look_alike (upper r)) alphabet
    then keep (look_alike (upper r)) rest
    else none

check_length : Option Text → Option Text
check_length none = none
check_length (some s) = if nat_beq (length s) code_len then some s else none

-- `Normalize`.
unfoldable pub normalize : List ℕ → Option Text
unfolding normalize_runes check_length
normalize input = check_length (normalize_runes input)

-- `Format`.
unfoldable pub format : Text → Text
format code =
    if nat_beq (length code) code_len
    then take 4 code ++ (b'-' ∷ (take 4 (drop 4 code) ++ (b'-' ∷ take 4 (drop 8 code))))
    else code

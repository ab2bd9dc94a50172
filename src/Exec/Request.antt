-- ===== src/Exec/Request.antt =====
-- What an id can do to the request that it is put into.
use docker_mobile.Base.{
  ℕ, ◌≤◌, ◌<◌, ◌≡◌, refl, sym, ap, ◌∙◌, ◌≢◌, true, false, ◌||◌, some, [], ◌∷◌, ◌++◌, append_assoc,
  arith, ltb, nat_beq, &&-eq-true, Text, codes, length, all, All, ◌⊎◌, nat_eq, text_eq, cut,
  contains_byte, cut-append, contains_byte-append, false≢true, split_if,
}
use docker_mobile.Exec.{max_exec_id_len, is_hex_digit, valid_exec_id, exec_headers, exec_request}

all-absent :
    (id : Text) (c : ℕ)
    → all is_hex_digit id ≡ true
    → is_hex_digit c ≡ false
    → contains_byte c id ≡ false
unfolding contains_byte
all-absent [] c h n = refl
all-absent (d ∷ id) c h n =
    let (first, rest) = &&-eq-true (is_hex_digit d) _ h in
    let apart : d ≢ c = λ e. false≢true (sym n ∙ ap is_hex_digit (sym e) ∙ first) in
    ground (arith, all-absent id c rest n, apart)

valid-all : (id : Text) → valid_exec_id id ≡ true → all is_hex_digit id ≡ true
unfolding valid_exec_id
valid-all id =
    split_if (λ b. b ≡ true → all is_hex_digit id ≡ true)
      (nat_beq (length id) 0 || ltb max_exec_id_len (length id)) _ _ (λ _ h. absurd (false≢true h))
      (λ _ h. h)

valid-length :
    (id : Text) → valid_exec_id id ≡ true → (0 < length id) × (length id ≤ max_exec_id_len)
unfolding valid_exec_id
valid-length id =
    split_if (λ b. b ≡ true → (0 < length id) × (length id ≤ max_exec_id_len))
      (nat_beq (length id) 0 || ltb max_exec_id_len (length id)) _ _ (λ _ h. absurd (false≢true h))
      (λ y h. ground (arith, y))

-- The first line of the request: the id cannot end it.
pub request_line : Text → Text
request_line id = codes "POST /exec/" ++ (id ++ (codes "/start HTTP/1.1" ++ 13 ∷ []))

request-append : (id : Text) → exec_request id ≡ request_line id ++ (10 ∷ exec_headers)
unfolding exec_request request_line
request-append id =
    ap (λ t. codes "POST /exec/" ++ t)
      (sym (append_assoc id (codes "/start HTTP/1.1" ++ 13 ∷ []) (10 ∷ exec_headers)))

request_line-one_line :
    (id : Text) → contains_byte 10 id ≡ false → contains_byte 10 (request_line id) ≡ false
unfolding request_line contains_byte
request_line-one_line id h =
    contains_byte-append 10 id (codes "/start HTTP/1.1" ++ 13 ∷ []) ∙ rw h refl

not-hex : is_hex_digit 10 ≡ false
unfolding is_hex_digit
not-hex = refl

-- A character from 0 to 9, a to f or A to F.
abbrev pub IsHexDigit : ℕ → Type 0
IsHexDigit c = ((48 ≤ c) × (c ≤ 57)) ⊎ (((97 ≤ c) × (c ≤ 102)) ⊎ ((65 ≤ c) × (c ≤ 70)))

is_hex_digit-IsHexDigit : (c : ℕ) → is_hex_digit c ≡ true → IsHexDigit c
unfolding is_hex_digit
is_hex_digit-IsHexDigit c h = ground (h, arith)

all-IsHexDigit : (id : Text) → all is_hex_digit id ≡ true → All IsHexDigit id
all-IsHexDigit [] h = tt
all-IsHexDigit (c ∷ id) h =
    let (first, rest) = &&-eq-true (is_hex_digit c) _ h in
    (is_hex_digit-IsHexDigit c first, all-IsHexDigit id rest)

not-space : is_hex_digit 32 ≡ false
unfolding is_hex_digit
not-space = refl

not-slash : is_hex_digit 47 ≡ false
unfolding is_hex_digit
not-slash = refl

-- An id that passes has one to 64 characters, all from 0 to 9, a to f or A to F, so no space, slash or
-- line feed; and the request is one line with the id in its path and the same headers and body.
pub valid_exec_id-request :
    (id : Text)
    → valid_exec_id id ≡ true
    → (0 < length id)
      × (length id ≤ 64)
      × All IsHexDigit id
      × (contains_byte 32 id ≡ false)
      × (contains_byte 47 id ≡ false)
      × (contains_byte 10 id ≡ false)
      × (cut 10 (exec_request id) ≡ some (request_line id, exec_headers))
valid_exec_id-request id h =
    let digits = valid-all id h in
    let (nonempty, few) = valid-length id h in
    let one_line = all-absent id 10 digits not-hex in
    (
      nonempty,
      few,
      all-IsHexDigit id digits,
      all-absent id 32 digits not-space,
      all-absent id 47 digits not-slash,
      one_line,
      ap (cut 10) (request-append id)
          ∙ cut-append 10 (request_line id) exec_headers (request_line-one_line id one_line),
    )

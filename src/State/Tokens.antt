-- ===== src/State/Tokens.antt =====
-- agent/internal/state/devices.go: the tokens of devices, "dm1." ID "." SECRET.
pub mod Parse
use docker_mobile.Base.{
  ℕ, ◌+◌, ◌-◌, ◌*◌, ◌/◌, ◌%◌, Bool, Option, none, some, [], ◌∷◌, ◌++◌, ltb, if◌then◌else◌, nat_beq,
  Text, codes, cut_prefix, has_prefix, cut,
}

abbrev pub token_prefix : Text
token_prefix = codes "dm1."

-- `base64.RawURLEncoding.EncodeToString`.
base64_digit : ℕ → ℕ
base64_digit d =
    if ltb d 26
    then b'A' + d
    else if ltb d 52
    then b'a' + (d - 26)
    else if ltb d 62
    then b'0' + (d - 52)
    else if nat_beq d 62
    then b'-'
    else b'_'

unfoldable pub base64_url : Text → Text
unfolding base64_digit
base64_url [] = []
base64_url (a ∷ []) = base64_digit (a / 4) ∷ base64_digit (a % 4 * 16) ∷ []
base64_url (a ∷ b ∷ []) =
    base64_digit (a / 4) ∷ base64_digit (a % 4 * 16 + b / 16) ∷ base64_digit (b % 16 * 4) ∷ []
base64_url (a ∷ b ∷ c ∷ rest) =
    base64_digit (a / 4)
    ∷ base64_digit (a % 4 * 16 + b / 16)
    ∷ base64_digit (b % 16 * 4 + c / 64)
    ∷ base64_digit (c % 64)
    ∷ base64_url rest

abbrev pub make_token : Text → Text → Text
make_token id secret = token_prefix ++ (id ++ b'.' ∷ base64_url secret)

-- `IsDeviceToken`.
unfoldable pub is_device_token : Text → Bool
is_device_token token = has_prefix token_prefix token

abbrev id_part : Option (Text × Text) → Option Text
id_part none = none
id_part (some (id, _)) = some id

abbrev id_after : Option Text → Option Text
id_after none = none
id_after (some rest) = id_part (cut b'.' rest)

-- The id that `Authenticate` reads from a token.
unfoldable pub token_id : Text → Option Text
token_id token = id_after (cut_prefix token_prefix token)

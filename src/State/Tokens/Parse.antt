-- ===== src/State/Tokens/Parse.antt =====
-- `Authenticate` reads back the id that `Add` put into a token.
use docker_mobile.Base.{
  ◌≡◌, true, false, some, ◌∷◌, ◌++◌, arith, Text, nat_eq, text_eq, has_prefix, contains_byte,
  cut_prefix-append, cut-append,
}
use docker_mobile.State.Tokens.{token_prefix, base64_url, make_token, is_device_token, token_id}

-- The id that is read from a token is the one that it was made with, if the id has no dot.
pub token_id-make_token :
    (id secret : Text) → contains_byte b'.' id ≡ false → token_id (make_token id secret) ≡ some id
unfolding token_id
token_id-make_token id secret h = rw (
  cut_prefix-append token_prefix (id ++ b'.' ∷ base64_url secret),
  cut-append b'.' id (base64_url secret) h,
)

-- Only what looks like a device token has an id.
pub token_id-is_device_token :
    (token id : Text) → token_id token ≡ some id → is_device_token token ≡ true
unfolding token_id is_device_token has_prefix
token_id-is_device_token token id h = ground arith

-- ===== src/Execution/Jwt.antt =====
-- crates/execution/src/jwt.rs: the HS256 tokens that authenticate the calls of the Engine API. A
-- text that the token is made of is the list of its characters' codes, which are its bytes.
pub mod Base64
pub mod Laws
use Prim.Native.Nat.{bit_and, bit_or, bit_xor}
use Prim.Native.Char.{code}
use Prim.Native.String.{String}
use rkb.Prelude.{
  ℕ, zero, suc, ◌+◌, ◌-◌, ◌*◌, ◌/◌, ◌%◌, ◌==◌, ltb, if◌then◌else◌, ◌&&◌, Bool, true, false, List,
  [], ◌∷◌, ◌++◌, map, length, Option, none, some, Result, ok, err,
}
use rkb.Types.Primitives.{Bytes}

abbrev pub hmac_block_size : ℕ
hmac_block_size = 64

-- The code outside the crate: the decoder of hexadecimal digits, SHA-256 of all that was written to
-- a hasher, and the clock in seconds, 0 for one before the epoch.
pub record TokenHost : Type 0 where
  pub hex_decode : String → Result String Bytes
  pub sha256 : Bytes → Bytes
  pub now : ℕ

abbrev pub codes : String → Bytes
codes String.[] = []
codes (String.◌∷◌ c s) = code c ∷ codes s

abbrev pub alphabet : Bytes
alphabet = codes "ABCDEFGHIJKLMNOPQRSTUVWXYZabcdefghijklmnopqrstuvwxyz0123456789-_"

abbrev pub get_or : ℕ → Bytes → ℕ → ℕ
get_or d [] i = d
get_or d (b ∷ bs) zero = b
get_or d (b ∷ bs) (suc i) = get_or d bs i

-- `ALPHABET[i]`, for an index of six bits
abbrev pub symbol : ℕ → ℕ
symbol i = get_or 0 alphabet i

abbrev pub sextet0 : ℕ → ℕ
sextet0 b0 = b0 / 4

abbrev pub sextet1 : ℕ → ℕ → ℕ
sextet1 b0 b1 = bit_or (bit_and b0 0x03 * 16) (b1 / 16)

abbrev pub sextet2 : ℕ → ℕ → ℕ
sextet2 b1 b2 = bit_or (bit_and b1 0x0f * 4) (b2 / 64)

abbrev pub sextet3 : ℕ → ℕ
sextet3 b2 = bit_and b2 0x3f

-- Three bytes a round; a byte that is not there is 0, and its symbol is left out.
unfoldable pub base64url_encode : Bytes → Bytes
base64url_encode [] = []
base64url_encode (b0 ∷ []) = symbol (sextet0 b0) ∷ symbol (sextet1 b0 0) ∷ []
base64url_encode (b0 ∷ b1 ∷ []) =
    symbol (sextet0 b0) ∷ symbol (sextet1 b0 b1) ∷ symbol (sextet2 b1 0) ∷ []
base64url_encode (b0 ∷ b1 ∷ b2 ∷ rest) =
    symbol (sextet0 b0)
    ∷ symbol (sextet1 b0 b1)
    ∷ symbol (sextet2 b1 b2)
    ∷ symbol (sextet3 b2)
    ∷ base64url_encode rest

abbrev pub replicate : ℕ → ℕ → Bytes
replicate zero b = []
replicate (suc n) b = b ∷ replicate n b

-- `pad[i] ^= b` along a key
abbrev pub xor_pad : ℕ → Bytes → Bytes
xor_pad pad key_block = map (λ b. bit_xor pad b) key_block

module _ (H : TokenHost) where
  -- A key, or the hash of a long one, filled up with zeros.
  unfoldable pub prepare_key : Bytes → Bytes
  prepare_key key =
      let short = if ltb hmac_block_size (length key) then H.sha256 key else key in
      short ++ replicate (hmac_block_size - length short) 0

  unfoldable pub hmac_sha256 : Bytes → Bytes → Bytes
  unfolding prepare_key
  hmac_sha256 key message =
      let key_block = prepare_key key in
      let inner_hash = H.sha256 (xor_pad 0x36 key_block ++ message) in
      H.sha256 (xor_pad 0x5c key_block ++ inner_hash)

-- The digits of a number, before others; 20 rounds do for a u64.
abbrev digits_onto : ℕ → ℕ → Bytes → Bytes
digits_onto zero n rest = rest
digits_onto (suc rounds) n rest =
    let here = (48 + n % 10) ∷ rest in
    let more = digits_onto rounds (n / 10) here in if ltb n 10 then here else more

abbrev pub decimal : ℕ → Bytes
decimal n = digits_onto 20 n []

-- `trim_start_matches("0x")`, which takes off the prefix as often as it is there
abbrev pub trim_0x : String → String
trim_0x String.[] = ""
trim_0x (String.◌∷◌ c String.[]) = String.◌∷◌ c ""
trim_0x (String.◌∷◌ c (String.◌∷◌ x s)) =
    let rest = trim_0x s in
    if code c == b'0' && code x == b'x' then rest else String.◌∷◌ c (String.◌∷◌ x s)

pub data TokenError : Type 0 where
  invalid_hex : String → TokenError
  secret_length : ℕ → TokenError

abbrev pub header : Bytes
header = codes "{\"alg\":\"HS256\",\"typ\":\"JWT\"}"

abbrev pub claims : ℕ → Bytes
claims now = codes "{\"iat\":" ++ decimal now ++ codes "}"

module _ (H : TokenHost) where
  -- The steps for a secret of the right length.
  unfoldable pub sign : Bytes → Bytes
  unfolding base64url_encode hmac_sha256
  sign secret_bytes =
      let header_b64 = base64url_encode header in
      let payload_b64 = base64url_encode (claims H.now) in
      let message = header_b64 ++ b'.' ∷ payload_b64 in
      let signature_b64 = base64url_encode (hmac_sha256 H secret_bytes message) in
      message ++ b'.' ∷ signature_b64

  unfoldable pub build_token : String → Result TokenError Bytes
  unfolding sign
  build_token secret_hex = elim (H.hex_decode (trim_0x secret_hex)) [
    | err e ↦ err (invalid_hex e)
    | ok secret_bytes ↦
        if length secret_bytes == 32
        then ok (sign secret_bytes)
        else err (secret_length (length secret_bytes))
  ]

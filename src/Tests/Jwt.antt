-- ===== src/Tests/Jwt.antt =====
-- Tokens of crates/execution/src/jwt.rs, with a hash that is the first byte.
use rkb.Prelude.{◌≡◌, refl, [], ◌∷◌, ◌++◌, some, ok, length, arith}
use rkb.Types.Primitives.{Bytes}
use rkb.Execution.Jwt.{
  TokenHost, codes, trim_0x, base64url_encode, hmac_sha256, header, claims, sign, build_token,
  replicate,
}
use rkb.Execution.Jwt.Base64.{base64url_decode, base64url_decode-base64url_encode}
use rkb.Execution.Jwt.Laws.{split, build_token-Verified}

hello_encoded : base64url_encode (codes "hello") ≡ codes "aGVsbG8"
unfolding base64url_encode
hello_encoded = refl

base64url_decode-base64url_encode_example :
    base64url_decode (base64url_encode (codes "hello")) ≡ some (codes "hello")
base64url_decode-base64url_encode_example =
    base64url_decode-base64url_encode (codes "hello") (omega arith)

abbrev secret : Bytes
secret = replicate 32 7

abbrev host : TokenHost
host = record { hex_decode = λ s. ok secret; sha256 = λ x. 9 ∷ []; now = 1700000000 }

secret_token : build_token host "0x0707" ≡ ok (sign host secret)
unfolding build_token
secret_token = refl

build_token-Verified_example :
    (key : Bytes) × (host.hex_decode (trim_0x "0x0707") ≡ ok key)
    × (length key ≡ 32)
    × (head : Bytes) × (payload : Bytes) × (signature : Bytes) × (split (sign host secret)
        ≡ head ∷ payload ∷ signature ∷ [])
    × (base64url_decode head ≡ some header)
    × (base64url_decode payload ≡ some (claims 1700000000))
    × (base64url_decode signature ≡ some (hmac_sha256 host key (head ++ b'.' ∷ payload)))
build_token-Verified_example =
    build_token-Verified host (λ x. (omega arith, tt)) "0x0707" (sign host secret) secret_token

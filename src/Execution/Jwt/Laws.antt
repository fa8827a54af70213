-- ===== src/Execution/Jwt/Laws.antt =====
-- The tokens of crates/execution/src/jwt.rs, as a server of the Engine API takes them apart.
use rkb.Prelude.{
  ℕ, zero, suc, ◌+◌, ◌/◌, ◌%◌, ◌≡◌, ◌≢◌, refl, ap, ◌∙◌, ◌==◌, ==_iff, if◌then◌else◌, String, List,
  [], ◌∷◌, ◌++◌, some, ok, arith, All, All-append, Bool-cases, Result-cases, inl, inr, length,
  subst,
}
use mathlib.Core.List.{append_assoc}
use rkb.Types.Primitives.{Bytes}
use rkb.Execution.Jwt.{
  TokenHost, codes, base64url_encode, hmac_sha256, header, claims, decimal, digits_onto, sign,
  build_token, trim_0x,
}
use rkb.Execution.Jwt.Base64.{
  IsByte, base64url_decode, base64url_decode-base64url_encode, base64url_encode-NoStop,
}

-- The pieces between the full stops.
abbrev pub onto_head : ℕ → List Bytes → List Bytes
onto_head c [] = (c ∷ []) ∷ []
onto_head c (piece ∷ pieces) = (c ∷ piece) ∷ pieces

abbrev pub split : Bytes → List Bytes
split [] = [] ∷ []
split (c ∷ cs) = let rest = split cs in if c == b'.' then [] ∷ rest else onto_head c rest

split_last : (cs : Bytes) → All (λ c. c ≢ b'.') cs → split cs ≡ cs ∷ []
split_last [] h = refl
split_last (c ∷ cs) (h, hs) = ground (arith, h, split_last cs hs)

split_first :
    (cs rest : Bytes) → All (λ c. c ≢ b'.') cs → split (cs ++ b'.' ∷ rest) ≡ cs ∷ split rest
split_first [] rest h = refl
split_first (c ∷ cs) rest (h, hs) = ground (arith, h, split_first cs rest hs)

digits_onto-All :
    (rounds n : ℕ) (rest : Bytes) → All IsByte rest → All IsByte (digits_onto rounds n rest)
digits_onto-All zero n rest h = h
digits_onto-All (suc rounds) n rest h =
    ground (arith, h, digits_onto-All rounds (n / 10) ((48 + n % 10) ∷ rest) (omega arith, h))

header-All : All IsByte header
header-All = omega arith

claims-All : (now : ℕ) → All IsByte (claims now)
claims-All now =
    All-append IsByte (codes "{\"iat\":") (decimal now ++ codes "}") (omega arith)
      (All-append IsByte (decimal now) (codes "}") (digits_onto-All 20 now [] tt) (omega arith))

module _ (H : TokenHost) (bytes : (x : Bytes) → All IsByte (H.sha256 x)) where
  hmac-All : (key message : Bytes) → All IsByte (hmac_sha256 H key message)
  unfolding hmac_sha256
  hmac-All key message = bytes _

  -- The three pieces of a token, and what they decode to.
  abbrev Verified : Bytes → Bytes → Type 0
  Verified key token =
      (head : Bytes) × (payload : Bytes) × (signature : Bytes) × (split token
        ≡ head ∷ payload ∷ signature ∷ [])
      × (base64url_decode head ≡ some header)
      × (base64url_decode payload ≡ some (claims H.now))
      × (base64url_decode signature ≡ some (hmac_sha256 H key (head ++ b'.' ∷ payload)))

  sign-Verified : (key : Bytes) → Verified key (sign H key)
  unfolding sign
  sign-Verified key =
      let head = base64url_encode header in
      let payload = base64url_encode (claims H.now) in
      let mac = hmac_sha256 H key (head ++ b'.' ∷ payload) in
      let signature = base64url_encode mac in
      let a = base64url_encode-NoStop header header-All in
      let b = base64url_encode-NoStop (claims H.now) (claims-All H.now) in
      let c = base64url_encode-NoStop mac (hmac-All key (head ++ b'.' ∷ payload)) in
      let pieces : split (sign H key) ≡ head ∷ payload ∷ signature ∷ [] =
        ap split (append_assoc head (b'.' ∷ payload) (b'.' ∷ signature))
        ∙ split_first head (payload ++ b'.' ∷ signature) a
        ∙ ap (λ l. head ∷ l)
            (split_first payload signature b ∙ ap (λ l. payload ∷ l) (split_last signature c)) in
      (
        head,
        payload,
        signature,
        pieces,
        base64url_decode-base64url_encode header header-All,
        base64url_decode-base64url_encode (claims H.now) (claims-All H.now),
        base64url_decode-base64url_encode mac (hmac-All key (head ++ b'.' ∷ payload)),
      )

  -- If SHA-256 gives bytes: a token is built only from a secret that is the hexadecimal form of 32
  -- bytes, after any `0x`. A server that splits the token at its full stops finds three pieces.
  -- They decode to the header, to the claims with the present second, and to the HMAC-SHA256 of
  -- the first two pieces under the secret.
  pub build_token-Verified :
      (secret_hex : String) (token : Bytes)
      → build_token H secret_hex ≡ ok token
      → (key : Bytes) × (H.hex_decode (trim_0x secret_hex) ≡ ok key)
        × (length key ≡ 32)
        × (head : Bytes) × (payload : Bytes) × (signature : Bytes) × (split token
            ≡ head ∷ payload ∷ signature ∷ [])
        × (base64url_decode head ≡ some header)
        × (base64url_decode payload ≡ some (claims H.now))
        × (base64url_decode signature ≡ some (hmac_sha256 H key (head ++ b'.' ∷ payload)))
  unfolding build_token
  build_token-Verified secret_hex token built =
      elim (Result-cases (H.hex_decode (trim_0x secret_hex))) [
        | inr (e, bad) ↦ absurd (ground (arith, built, bad))
        | inl (key, decoded) ↦ elim (Bool-cases (length key == 32)) [
          | inr other ↦ absurd (ground (arith, built, decoded, other))
          | inl right ↦
              let same : sign H key ≡ token = ground (arith, built, decoded, right) in
              let (head, payload, signature, pieces, first, second, third) =
                subst (Verified key) same (sign-Verified key) in
              (
                key,
                decoded,
                (==_iff _ _).0 right,
                head,
                payload,
                signature,
                pieces,
                first,
                second,
                third,
              )
        ]
      ]

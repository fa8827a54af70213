-- ===== src/Execution/Jwt/Base64.antt =====
-- The base64url texts of crates/execution/src/jwt.rs are read back by RFC 4648's decoding.
use Prim.Native.Nat.{bit_and}
use rkb.Prelude.{
  ℕ, ◌+◌, ◌-◌, ◌*◌, ◌/◌, ◌%◌, ◌<◌, ◌≡◌, ◌≢◌, refl, ap, ◌==◌, leb, ltb, if◌then◌else◌, ◌&&◌, Bool,
  true, false, List, [], ◌∷◌, map, Option, none, some, arith, All,
}
use rkb.Prelude.Bits.{
  all_below, of_all_below, bit_and-three, bit_and-fifteen, bit_and-sixty_three, bit_or-four_bits,
  bit_or-two_bits,
}
use rkb.Types.Primitives.{Bytes}
use rkb.Execution.Jwt.{symbol, sextet0, sextet1, sextet2, sextet3, base64url_encode}

abbrev pub IsByte : ℕ → Type 0
IsByte b = b < 256

-- The value of a character, if it is one of the alphabet.
unfoldable pub digit : ℕ → Option ℕ
digit c =
    if leb b'A' c && leb c b'Z'
    then some (c - b'A')
    else if leb b'a' c && leb c b'z'
    then some (c - b'a' + 26)
    else if leb b'0' c && leb c b'9'
    then some (c - b'0' + 52)
    else if c == b'-'
    then some 62
    else if c == b'_'
    then some 63
    else none

unfoldable pub digits : Bytes → Option (List ℕ)
digits [] = some []
digits (c ∷ cs) = elim (digit c) [
  | none ↦ none
  | some d ↦ elim (digits cs) [ none ↦ none | some ds ↦ some (d ∷ ds) ]
]

-- Four digits are three bytes. One digit is left over of no text, and the bits left over are zero.
unfoldable pub regroup : List ℕ → Option Bytes
regroup [] = some []
regroup (s0 ∷ []) = none
regroup (s0 ∷ s1 ∷ []) = if s1 % 16 == 0 then some ((s0 * 4 + s1 / 16) ∷ []) else none
regroup (s0 ∷ s1 ∷ s2 ∷ []) =
    if s2 % 4 == 0 then some ((s0 * 4 + s1 / 16) ∷ (s1 % 16 * 16 + s2 / 4) ∷ []) else none
regroup (s0 ∷ s1 ∷ s2 ∷ s3 ∷ rest) = elim (regroup rest) [
  | none ↦ none
  | some bs ↦ some ((s0 * 4 + s1 / 16) ∷ (s1 % 16 * 16 + s2 / 4) ∷ (s2 % 4 * 64 + s3) ∷ bs)
]

unfoldable pub base64url_decode : Bytes → Option Bytes
unfolding digit digits regroup
base64url_decode text = elim (digits text) [ none ↦ none | some ds ↦ regroup ds ]

-- The symbols are read back, and none is the full stop.
symbol_is : ℕ → Bool
symbol_is i = elim (digit (symbol i)) [ none ↦ false | some d ↦ d == i ]

symbol_table : all_below 64 (λ i. symbol_is i && ltb (symbol i) 128) ≡ true
unfolding all_below symbol_is digit
symbol_table = refl

stop_table : all_below 64 (λ i. if symbol i == b'.' then false else true) ≡ true
unfolding all_below
stop_table = refl

digit-symbol : (i : ℕ) → i < 64 → digit (symbol i) ≡ some i
unfolding symbol_is
digit-symbol i h =
    ground (arith, of_all_below 64 (λ i. symbol_is i && ltb (symbol i) 128) i symbol_table)

symbol-ne_stop : (i : ℕ) → i < 64 → symbol i ≢ b'.'
symbol-ne_stop i h =
    ground (arith, of_all_below 64 (λ i. if symbol i == b'.' then false else true) i stop_table)

-- The sextets in plain arithmetic.
sextet1_value : (b c : ℕ) → IsByte b → IsByte c → sextet1 b c ≡ b % 4 * 16 + c / 16
sextet1_value b c hb hc =
    let n : ℕ = b % 4 * 16 + c / 16 in
    let hi : n / 16 ≡ bit_and b 3 = omega (arith, bit_and-three b hb) in
    let lo : n % 16 ≡ c / 16 = omega arith in rw (hi, lo) at (bit_or-four_bits n (omega arith))

sextet2_value : (b c : ℕ) → IsByte b → IsByte c → sextet2 b c ≡ b % 16 * 4 + c / 64
sextet2_value b c hb hc =
    let n : ℕ = b % 16 * 4 + c / 64 in
    let hi : n / 4 ≡ bit_and b 0x0f = omega (arith, bit_and-fifteen b hb) in
    let lo : n % 4 ≡ c / 64 = omega arith in rw (hi, lo) at (bit_or-two_bits n (omega arith))

-- The sextets of a text.
sextets : Bytes → List ℕ
sextets [] = []
sextets (b0 ∷ []) = sextet0 b0 ∷ sextet1 b0 0 ∷ []
sextets (b0 ∷ b1 ∷ []) = sextet0 b0 ∷ sextet1 b0 b1 ∷ sextet2 b1 0 ∷ []
sextets (b0 ∷ b1 ∷ b2 ∷ rest) =
    sextet0 b0 ∷ sextet1 b0 b1 ∷ sextet2 b1 b2 ∷ sextet3 b2 ∷ sextets rest

encode-sextets : (bs : Bytes) → base64url_encode bs ≡ map symbol (sextets bs)
unfolding base64url_encode sextets
encode-sextets [] = refl
encode-sextets (b0 ∷ []) = refl
encode-sextets (b0 ∷ b1 ∷ []) = refl
encode-sextets (b0 ∷ b1 ∷ b2 ∷ rest) =
    ap
      (λ l.
        symbol (sextet0 b0)
        ∷ symbol (sextet1 b0 b1)
        ∷ symbol (sextet2 b1 b2)
        ∷ symbol (sextet3 b2)
        ∷ l)
      (encode-sextets rest)

sextets-All : (bs : Bytes) → All IsByte bs → All (λ s. s < 64) (sextets bs)
unfolding sextets
sextets-All [] h = tt
sextets-All (b0 ∷ []) (h0, _) = omega (arith, sextet1_value b0 0 h0)
sextets-All (b0 ∷ b1 ∷ []) (h0, (h1, _)) =
    omega (arith, sextet1_value b0 b1 h0 h1, sextet2_value b1 0 h1)
sextets-All (b0 ∷ b1 ∷ b2 ∷ rest) (h0, (h1, (h2, hs))) = (
  omega arith,
  (
    omega (arith, sextet1_value b0 b1 h0 h1),
    (
      omega (arith, sextet2_value b1 b2 h1 h2),
      (omega (arith, bit_and-sixty_three b2 h2), sextets-All rest hs),
    ),
  ),
)

digits-map : (ds : List ℕ) → All (λ s. s < 64) ds → digits (map symbol ds) ≡ some ds
unfolding digits
digits-map [] h = refl
digits-map (d ∷ ds) (h, hs) = rw (digits, digit-symbol d h, digits-map ds hs) refl

regroup-sextets : (bs : Bytes) → All IsByte bs → regroup (sextets bs) ≡ some bs
unfolding regroup sextets
regroup-sextets [] h = refl
regroup-sextets (b0 ∷ []) (h0, _) = ground (arith, sextet1_value b0 0 h0 (omega arith))
regroup-sextets (b0 ∷ b1 ∷ []) (h0, (h1, _)) =
    ground (arith, sextet1_value b0 b1 h0 h1, sextet2_value b1 0 h1 (omega arith))
regroup-sextets (b0 ∷ b1 ∷ b2 ∷ rest) (h0, (h1, (h2, hs))) = ground (
  arith,
  sextet1_value b0 b1 h0 h1,
  sextet2_value b1 b2 h1 h2,
  bit_and-sixty_three b2 h2,
  regroup-sextets rest hs,
)

-- Decoding gives back the bytes that were encoded.
pub base64url_decode-base64url_encode :
    (bs : Bytes) → All IsByte bs → base64url_decode (base64url_encode bs) ≡ some bs
unfolding base64url_decode
base64url_decode-base64url_encode bs h =
    rw (encode-sextets bs, base64url_decode, digits-map (sextets bs) (sextets-All bs h))
      (regroup-sextets bs h)

map-symbol_ne_stop : (ds : List ℕ) → All (λ s. s < 64) ds → All (λ c. c ≢ b'.') (map symbol ds)
map-symbol_ne_stop [] h = tt
map-symbol_ne_stop (d ∷ ds) (h, hs) = (symbol-ne_stop d h, map-symbol_ne_stop ds hs)

-- No full stop stands in an encoded text.
pub base64url_encode-NoStop :
    (bs : Bytes) → All IsByte bs → All (λ c. c ≢ b'.') (base64url_encode bs)
base64url_encode-NoStop bs h =
    rw (encode-sextets bs) (map-symbol_ne_stop (sextets bs) (sextets-All bs h))

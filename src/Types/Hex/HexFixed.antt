-- ===== src/Types/Hex/HexFixed.antt =====
-- crates/types/src/serde_helpers.rs: `hex_fixed`, arrays of a fixed length.
use Prim.Native.String.{◌++◌}
use rkb.Prelude.{
  ℕ, ◌<◌, ◌≡◌, refl, subst, ◌==◌, ==_iff, if◌then◌else◌, String, Result, ok, err, length, All,
  arith, Bool-cases, Result-cases, inl, inr,
}
use rkb.Types.Primitives.{Bytes}
use rkb.Types.Hex.{Codec, IsCodec}

module _ (C : Codec) where
  unfoldable pub serialize : Bytes → String
  serialize bytes = C.encode bytes

  abbrev try_into : ℕ → Bytes → Result String Bytes
  try_into n bytes =
      if length bytes == n
      then ok bytes
      else err ("expected " ++ C.to_string n ++ " bytes, got " ++ C.to_string (length bytes))

  unfoldable pub deserialize : ℕ → Result String String → Result String Bytes
  deserialize n (err e) = err e
  deserialize n (ok s) = elim (C.decode s) [ ok bytes ↦ try_into n bytes | err e ↦ err e ]

  -- An array is read as it was written, and whatever is read has the length that was asked for.
  pub deserialize-serialize :
      (n : ℕ) (bytes : Bytes)
      → IsCodec C
      → length bytes ≡ n
      → All (λ b. b < 256) bytes
      → deserialize n (ok (serialize bytes)) ≡ ok bytes
  unfolding serialize deserialize
  deserialize-serialize n bytes laws long small =
      rw (deserialize, laws.decodes bytes small, (==_iff (length bytes) n).1 long) refl

  pub deserialize-length :
      (n : ℕ) (text : Result String String) (bytes : Bytes)
      → deserialize n text ≡ ok bytes
      → length bytes ≡ n
  unfolding deserialize
  deserialize-length n (err e) bytes h = absurd (ground (arith, h))
  deserialize-length n (ok s) bytes h = elim (Result-cases (C.decode s)) [
    | inr (e, failed) ↦ absurd (ground (arith, h, failed))
    | inl (bytes', read) ↦ elim (Bool-cases (length bytes' == n)) [
      | inl long ↦
          let same : bytes' ≡ bytes = ground (arith, h, read, long) in
          subst (λ bs. length bs ≡ n) same ((==_iff (length bytes') n).0 long)
      | inr other ↦ absurd (ground (arith, h, read, other))
    ]
  ]

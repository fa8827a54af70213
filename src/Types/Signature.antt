-- ===== src/Types/Signature.antt =====
-- crates/types/src/block.rs: what is done with a validator's signature and with a header, over
-- Ed25519, RLP and Keccak-256.
use rkb.Prelude.{◌≡◌, refl, Bool, false, true, Option, none, some, arith, Option-cases, inl, inr}
use rkb.Types.Primitives.{B256, Address, Bytes}
use rkb.Types.Block.{Block, BlockHeader, Signature}

-- `read` is of the bytes and may leave some over; `write` fills a buffer of the right length.
pub record Scheme : Type 1 where
  pub PublicKey : Type 0
  pub Sig : Type 0
  pub write_key : PublicKey → Bytes
  pub write_signature : Sig → Bytes
  pub read_key : Bytes → Option PublicKey
  pub read_signature : Bytes → Option Sig
  pub verify_message : PublicKey → (namespace message : Bytes) → Sig → Bool
  pub encode : BlockHeader → Bytes
  pub keccak256 : Bytes → B256

module _ (S : Scheme) where
  unfoldable pub new : Address → S.PublicKey → S.Sig → Signature
  new validator key signature = record {
    validator = validator;
    public_key_bytes = S.write_key key;
    signature_bytes = S.write_signature signature;
  }

  unfoldable pub public_key : Signature → Option S.PublicKey
  public_key self = S.read_key self.public_key_bytes

  unfoldable pub signature : Signature → Option S.Sig
  signature self = S.read_signature self.signature_bytes

  unfoldable pub verify : Bytes → Bytes → Signature → Bool
  unfolding public_key signature
  verify namespace message self = elim (public_key self) [
    | none ↦ false
    | some key ↦ elim (signature self) [
      | none ↦ false
      | some sig ↦ S.verify_message key namespace message sig
    ]
  ]

  unfoldable pub header_hash : Block → B256
  header_hash self = S.keccak256 (S.encode self.header)

  -- What was written is read as what it was.
  pub record IsScheme : Type 0 where
    pub keys : (key : S.PublicKey) → S.read_key (S.write_key key) ≡ some key
    pub signatures : (sig : S.Sig) → S.read_signature (S.write_signature sig) ≡ some sig

  -- A signature that was made from a key and an Ed25519 signature passes for a message just where
  -- Ed25519 accepts the two for it, whatever validator it names.
  pub verify-new :
      (validator : Address) (key : S.PublicKey) (sig : S.Sig) (namespace message : Bytes)
      → IsScheme
      → verify namespace message (new validator key sig)
        ≡ S.verify_message key namespace message sig
  unfolding verify new public_key signature
  verify-new validator key sig namespace message laws =
      rw (verify, laws.keys key, laws.signatures sig) refl

  -- A signature that passes has the bytes of a key and of an Ed25519 signature, which accept the
  -- message.
  pub verify_read :
      (namespace message : Bytes) (self : Signature)
      → verify namespace message self ≡ true
      → (key : S.PublicKey) × (sig : S.Sig) × (public_key self ≡ some key)
        × (signature self ≡ some sig)
        × (S.verify_message key namespace message sig ≡ true)
  unfolding verify
  verify_read namespace message self h = elim (Option-cases (public_key self)) [
    | inl none_read ↦ absurd (ground (arith, h, none_read))
    | inr (key, k) ↦ elim (Option-cases (signature self)) [
      | inl none_read ↦ absurd (ground (arith, h, k, none_read))
      | inr (sig, s) ↦ (key, sig, k, s, ground (arith, h, k, s))
    ]
  ]

-- ===== src/Celestia/Client/Retrieve.antt =====
-- crates/celestia/src/client.rs: blocks are read back from Celestia, and a blob's inclusion is
-- verified.
use rkb.Prelude.{
  ℕ, zero, suc, ◌+◌, ◌-◌, ltb, if◌then◌else◌, ◌==◌, ◌&&◌, ◌||◌, Bool, true, false, List, [], ◌∷◌,
  ◌++◌, map, Option, none, some, ok, err, pure, catch_err, ◌>>=◌,
}
use rkb.Types.Primitives.{Bytes}
use rkb.Types.Block.{Block}
use rkb.Celestia.Error.{internal}
use rkb.Celestia.Client.{DataLayer, Call, on_world}
use rkb.Celestia.Client.Blobs.{decode_block}
use Prim.Native.String.{◌++◌ as append}

abbrev pub same_bytes : Bytes → Bytes → Bool
same_bytes [] [] = true
same_bytes [] (b ∷ bs) = false
same_bytes (a ∷ xs) [] = false
same_bytes (a ∷ xs) (b ∷ bs) = a == b && same_bytes xs bs

abbrev pub any : {A : Type 0} → (A → Bool) → List A → Bool
any p [] = false
any p (a ∷ xs) = p a || any p xs

abbrev pub first : {A : Type 0} → List A → Option A
first [] = none
first (a ∷ xs) = some a

module _ (D : DataLayer) where
  unfoldable pub try_decode_blob : D.Blob → Option Block
  try_decode_blob blob = elim (decode_block D (D.blob_data blob)) [
    | ok block ↦ some block
    | err e ↦ none
  ]

  -- The loop of `get_blocks`, which skips a blob that does not decode.
  unfoldable pub decode_blobs : List D.Blob → List Block
  decode_blobs [] = []
  decode_blobs (blob ∷ blobs) =
      let blocks = decode_blobs blobs in
      elim (try_decode_blob blob) [ some block ↦ block ∷ blocks | none ↦ blocks ]

  unfoldable pub blocks_of : Option (List D.Blob) → List Block
  blocks_of none = []
  blocks_of (some blobs) = decode_blobs blobs

  unfoldable pub includes : Bytes → Option (List D.Blob) → Bool
  includes commitment none = false
  includes commitment (some blobs) = any (λ b. same_bytes (D.commitment b) commitment) blobs

module _ {D : DataLayer} where
  unfoldable pub fetch_blobs : ℕ → Call D (Option (List D.Blob))
  fetch_blobs celestia_height =
      catch_err (λ e. internal (append "failed to fetch blobs: " e))
        (on_world (D.blob_get_all celestia_height))

  unfoldable pub get_blocks : ℕ → Call D (List Block)
  get_blocks celestia_height = do
    blob_list ← fetch_blobs celestia_height
    pure (blocks_of D blob_list)

  unfoldable pub get_block : ℕ → Call D (Option Block)
  get_block celestia_height = do blocks ← get_blocks celestia_height; pure (first blocks)

  -- `count` heights from `height` on
  unfoldable pub range_loop : (count height : ℕ) → List (ℕ × Block) → Call D (List (ℕ × Block))
  range_loop zero height all_blocks = pure all_blocks
  range_loop (suc count) height all_blocks = do
    blocks ← get_blocks height
    range_loop count (height + 1) (all_blocks ++ map (λ b. (height, b)) blocks)

  unfoldable pub get_blocks_in_range : ℕ → ℕ → Call D (List (ℕ × Block))
  get_blocks_in_range start stop =
      if ltb stop start then pure [] else range_loop (stop + 1 - start) start []

  unfoldable pub verify_inclusion : ℕ → Bytes → Call D Bool
  verify_inclusion celestia_height commitment = do
    blob_list ← fetch_blobs celestia_height
    pure (includes D commitment blob_list)

-- ===== src/Celestia/Client/Blobs.antt =====
-- crates/celestia/src/client.rs: blocks are encoded, made into blobs and submitted, one by one or
-- as a batch.
use rkb.Prelude.{ℕ, List, [], ◌∷◌, ◌++◌, Result, ok, err, map_err, pure, lift, ◌>>=◌}
use rkb.Types.Primitives.{B256, Bytes}
use rkb.Types.Block.{Block, height}
use rkb.Celestia.Error.{CelestiaError, encode_failed, decode_failed, internal}
use rkb.Celestia.Finality.{BlobSubmission, track}
use rkb.Celestia.Retry.{with_retry, default_max_retries, default_retry_delay_ms}
use rkb.Celestia.Client.{DataLayer, CelestiaClient, Call, on_world}
use Prim.Native.String.{◌++◌ as append}

pub record BlockInfo : Type 0 where
  pub hash : B256
  pub height : ℕ

-- `?` without a world
abbrev pub and_then :
    {A B : Type 0} → Result CelestiaError A → (A → Result CelestiaError B) → Result CelestiaError B
and_then (ok a) f = f a
and_then (err e) f = err e

-- `zip` ends with the shorter list.
abbrev pub zip : {A B : Type 0} → List A → List B → List (A × B)
zip [] bs = []
zip (a ∷ xs) [] = []
zip (a ∷ xs) (b ∷ bs) = (a, b) ∷ zip xs bs

module _ (D : DataLayer) where
  unfoldable pub encode_block : Block → Result CelestiaError Bytes
  encode_block block = map_err encode_failed (D.serialize block)

  unfoldable pub decode_block : Bytes → Result CelestiaError Block
  decode_block data_bytes = map_err decode_failed (D.deserialize data_bytes)

  unfoldable pub create_blob_for_block : Block → Result CelestiaError D.Blob
  unfolding encode_block
  create_blob_for_block block =
      and_then (map_err (λ e. internal (append "failed to get address: " e)) D.address) λ address.
        and_then (encode_block block) λ data_bytes.
          map_err (λ e. encode_failed (append "failed to create blob: " e))
            (D.blob_new data_bytes address)

  abbrev pub info_of : Block → BlockInfo
  info_of block = record { hash = block.block_hash; height = height block }

  -- The loop, with the two vectors that it fills.
  unfoldable pub create_blobs_loop :
      List Block
      → List D.Blob
      → List BlockInfo
      → Result CelestiaError (List D.Blob × List BlockInfo)
  create_blobs_loop [] blobs infos = ok (blobs, infos)
  create_blobs_loop (block ∷ blocks) blobs infos =
      and_then (create_blob_for_block block)
        λ blob. create_blobs_loop blocks (blobs ++ blob ∷ []) (infos ++ info_of block ∷ [])

  unfoldable pub create_blobs_for_blocks :
      List Block → Result CelestiaError (List D.Blob × List BlockInfo)
  unfolding create_blobs_loop
  create_blobs_for_blocks blocks = create_blobs_loop blocks [] []

  unfoldable pub submissions_from : ℕ → List (BlockInfo × D.Blob) → List BlobSubmission
  submissions_from celestia_height [] = []
  submissions_from celestia_height ((info, blob) ∷ rest) =
      record {
        block_hash = info.hash;
        block_height = info.height;
        celestia_height = celestia_height;
        commitment = D.commitment blob;
      }
      ∷ submissions_from celestia_height rest

  unfoldable pub build_submissions : List D.Blob → List BlockInfo → ℕ → List BlobSubmission
  unfolding submissions_from
  build_submissions blobs infos celestia_height = submissions_from celestia_height (zip infos blobs)

module _ {D : DataLayer} where
  unfoldable pub submit_blobs_with_retry : List D.Blob → Call D ℕ
  submit_blobs_with_retry blobs = on_world (
      with_retry (D.describe "Batch submission") D.sleep default_max_retries default_retry_delay_ms
        (D.submit blobs))

  unfoldable pub submit_blocks : List Block → Call D (List BlobSubmission)
  submit_blocks [] = pure []
  submit_blocks (block ∷ blocks) = do
    made ← lift (create_blobs_for_blocks D (block ∷ blocks))
    celestia_height ← submit_blobs_with_retry made.0
    pure (build_submissions D made.0 made.1 celestia_height)

  unfoldable pub submit_with_retry : D.Blob → Call D (ℕ × Bytes)
  submit_with_retry blob = do
    celestia_height ← on_world (
        with_retry (D.describe "Blob submission") D.sleep default_max_retries default_retry_delay_ms
          (D.submit (blob ∷ [])))
    pure (celestia_height, D.commitment blob)

  -- The data is encoded before the address is asked for.
  unfoldable pub submit_block : Block → Call D BlobSubmission
  submit_block block = do
    data_bytes ← lift (encode_block D block)
    address ← lift (map_err (λ e. internal (append "failed to get address: " e)) D.address)
    blob ← lift (
        map_err (λ e. encode_failed (append "failed to create blob: " e))
          (D.blob_new data_bytes address))
    sent ← submit_with_retry blob
    pure (record {
      block_hash = block.block_hash;
      block_height = height block;
      celestia_height = sent.0;
      commitment = sent.1;
    })

  -- The spawned task, at the moment at which it has the tracker's lock.
  unfoldable pub track_finality : BlobSubmission → CelestiaClient D → CelestiaClient D
  track_finality submission c =
      let (now, c') = on_world D.instant_now c in
      record c' { finality_tracker = track submission now c'.finality_tracker }

-- ===== src/Celestia/Client/RoundTrip.antt =====
-- crates/celestia/src/client.rs: what was submitted is what is read back.
use rkb.Prelude.{ℕ, ◌≡◌, true, List, [], ◌∷◌, ◌++◌, map, ok, All, arith, inl, inr, Result-cases}
use rkb.Types.Primitives.{B256, Bytes}
use rkb.Types.Block.{Block, height}
use rkb.Celestia.Finality.{BlobSubmission}
use rkb.Celestia.Client.{DataLayer, CelestiaClient}
use rkb.Celestia.Client.Blobs.{
  info_of, create_blobs_for_blocks, build_submissions, submit_blobs_with_retry, submit_blocks,
}
use rkb.Celestia.Client.Retrieve.{same_bytes, any, get_blocks, verify_inclusion}
use rkb.Celestia.Client.Encoding.{MadeOf, create_blobs_loop_lem}

-- What a submission says of its block.
abbrev pub summary : BlobSubmission → B256 × ℕ × ℕ
summary s = (s.block_hash, s.block_height, s.celestia_height)

module _ (D : DataLayer) where
  abbrev Has : List D.Blob → Bytes → Type 0
  Has blobs commitment = any (λ b. same_bytes (D.commitment b) commitment) blobs ≡ true

  -- What holds after `blobs`, made of the blocks, went in at a height.
  abbrev RoundTrip : ℕ → List Block → List BlobSubmission → CelestiaClient D → Type 0
  RoundTrip h blocks submissions c =
      (map summary submissions ≡ map (λ b. (b.block_hash, height b, h)) blocks)
      × ((before : List Block) × (after : List Block) × ((get_blocks h c).0
            ≡ ok (before ++ blocks ++ after)))
      × All (λ s. (verify_inclusion h s.commitment c).0 ≡ ok true) submissions

  -- A batch that is accepted has a blob of each of its blocks, and they went in at one height.
  pub submit_blocks-MadeOf :
      (block : Block) (blocks : List Block) (c c' : CelestiaClient D)
      (submissions : List BlobSubmission)
      → submit_blocks (block ∷ blocks) c ≡ (ok submissions, c')
      → (h : ℕ) × (blobs : List D.Blob) × MadeOf D (block ∷ blocks) blobs
        × (submissions ≡ build_submissions D blobs (map (info_of D) (block ∷ blocks)) h)
        × (submit_blobs_with_retry blobs c ≡ (ok h, c'))
  unfolding submit_blocks create_blobs_for_blocks
  submit_blocks-MadeOf block blocks c c' submissions k =
      elim (Result-cases (create_blobs_for_blocks D (block ∷ blocks))) [
        | inr (e, failed) ↦ absurd (ground arith)
        | inl (made, created) ↦ elim (Result-cases (submit_blobs_with_retry made.0 c).0) [
          | inr (e, failed) ↦ absurd (ground arith)
          | inl (h, sent) ↦
              let (blobs, same, infos, m) =
                create_blobs_loop_lem D (block ∷ blocks) [] [] made created in
              let now : submit_blobs_with_retry made.0 c ≡ (ok h, c') = ground arith in
              let result : submissions ≡ build_submissions D made.0 made.1 h = ground arith in
              (h, blobs, m, ground (arith, result, same, infos), rw (← same) now)
        ]
      ]

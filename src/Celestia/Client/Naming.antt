-- ===== src/Celestia/Client/Naming.antt =====
-- crates/celestia/src/client.rs: the submissions of a batch name its blocks, and submitting leaves the
-- tracker as it was.
use rkb.Prelude.{
  ℕ, ◌≡◌, refl, sym, ap, subst, List, [], ◌∷◌, map, ok, All, arith, inl, inr, Result-cases,
}
use rkb.Types.Primitives.{B256}
use rkb.Types.Block.{Block}
use rkb.Celestia.Finality.{BlobSubmission}
use rkb.Celestia.Client.{DataLayer, CelestiaClient}
use rkb.Celestia.Client.Blobs.{
  info_of, create_blobs_for_blocks, submissions_from, build_submissions, submit_blobs_with_retry,
  submit_blocks,
}
use rkb.Celestia.Client.Encoding.{MadeOf}
use rkb.Celestia.Client.RoundTrip.{submit_blocks-MadeOf}
use rkb.Celestia.Retry.{with_retry, default_max_retries, default_retry_delay_ms}

-- The submissions of a batch name its blocks.
abbrev pub Names : List BlobSubmission → List Block → Type 0
Names submissions blocks = map (λ s. s.block_hash) submissions ≡ map (λ b. b.block_hash) blocks

pub Names-All :
    (P : B256 → Type 0) (submissions : List BlobSubmission) (blocks : List Block)
    → Names submissions blocks
    → All (λ s. P s.block_hash) submissions
    → All (λ b. P b.block_hash) blocks
Names-All P submissions [] e ps = tt
Names-All P [] (b ∷ bs) e ps = absurd (ground arith)
Names-All P (s ∷ ss) (b ∷ bs) e ps =
    let same : s.block_hash ≡ b.block_hash = ground arith in
    (subst P same ps.0, Names-All P ss bs (ground arith) ps.1)

module _ (D : DataLayer) where
  build_submissions-Names :
      (h : ℕ) (blocks : List Block) (blobs : List D.Blob)
      → MadeOf D blocks blobs
      → Names (build_submissions D blobs (map (info_of D) blocks) h) blocks
  unfolding build_submissions submissions_from
  build_submissions-Names h [] blobs m = refl
  build_submissions-Names h (b ∷ bs) [] m = absurd (ground arith)
  build_submissions-Names h (b ∷ bs) (x ∷ xs) m =
      ap (◌∷◌ b.block_hash) (build_submissions-Names h bs xs (ground arith))

module _ {D : DataLayer} where
  -- The tracker of one client is that of the other, and so is the channel of confirmations.
  abbrev pub SameTracker : CelestiaClient D → CelestiaClient D → Type 0
  SameTracker c c' = (c'.finality_tracker ≡ c.finality_tracker) × (c'.finality_tx ≡ c.finality_tx)

  pub submit_blocks-SameTracker :
      (blocks : List Block) (c : CelestiaClient D) → SameTracker c (submit_blocks blocks c).1
  unfolding submit_blocks submit_blobs_with_retry
  submit_blocks-SameTracker [] c = (refl, refl)
  submit_blocks-SameTracker (b ∷ bs) c = elim (Result-cases (create_blobs_for_blocks D (b ∷ bs))) [
    | inr (e, failed) ↦ ground (arith, failed)
    | inl (made, created) ↦
        elim (Result-cases
          (with_retry (D.describe "Batch submission") D.sleep default_max_retries
            default_retry_delay_ms (D.submit made.0) c.world).0) [
              | inl (h, sent) ↦ ground (arith, created, sent)
              | inr (e, failed) ↦ ground (arith, created, failed)
            ]
  ]

  pub submit_blocks-Names :
      (blocks : List Block) (c c' : CelestiaClient D) (submissions : List BlobSubmission)
      → submit_blocks blocks c ≡ (ok submissions, c')
      → Names submissions blocks
  unfolding submit_blocks
  submit_blocks-Names [] c c' submissions e = ground (arith, e)
  submit_blocks-Names (b ∷ bs) c c' submissions e =
      let (h, blobs, m, result, sent) = submit_blocks-MadeOf D b bs c c' submissions e in
      subst (λ l. Names l (b ∷ bs)) (sym result) (build_submissions-Names D h (b ∷ bs) blobs m)

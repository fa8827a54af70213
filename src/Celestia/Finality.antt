-- ===== src/Celestia/Finality.antt =====
-- crates/celestia/src/finality.rs, and `BlobSubmission` of crates/celestia/src/lib.rs: blocks that
-- wait for their Celestia height to be final. `Instant::now()` is an argument of the calls that
-- read it, in milliseconds.
pub mod Laws
use rkb.Prelude.{ℕ, ◌-◌, ltb, if◌then◌else◌, List, [], ◌∷◌, length}
use rkb.Prelude.Maps.{HashMap, insert}
use rkb.Prelude.Sorting.{sort_by_key}
use rkb.Types.Primitives.{B256, Bytes}

abbrev pub Instant : Type 0
Instant = ℕ

pub record BlobSubmission : Type 0 where
  pub block_hash : B256
  pub block_height : ℕ
  pub celestia_height : ℕ
  pub commitment : Bytes

pub record FinalityConfirmation : Type 0 where
  pub block_hash : B256
  pub block_height : ℕ
  pub celestia_height : ℕ
  pub celestia_header_hash : B256
  pub submitted_at : Instant
  pub confirmed_at : Instant

-- `duration_since` stops at zero.
unfoldable pub latency_ms : FinalityConfirmation → ℕ
latency_ms self = self.confirmed_at - self.submitted_at

pub record PendingFinality : Type 0 where
  pub block_height : ℕ
  pub celestia_height : ℕ
  pub submitted_at : Instant

pub record FinalityTracker : Type 0 where
  pub pending : HashMap PendingFinality
  pub celestia_finalized_height : ℕ

unfoldable pub new : FinalityTracker
new = record { pending = []; celestia_finalized_height = 0 }

unfoldable pub track : BlobSubmission → Instant → FinalityTracker → FinalityTracker
track submission now self = record self {
  pending =
      insert submission.block_hash
        (record {
          block_height = submission.block_height;
          celestia_height = submission.celestia_height;
          submitted_at = now;
        })
        self.pending;
}

unfoldable pub build_confirmation : B256 → PendingFinality → B256 → Instant → FinalityConfirmation
build_confirmation block_hash pending celestia_header_hash now = record {
  block_hash = block_hash;
  block_height = pending.block_height;
  celestia_height = pending.celestia_height;
  celestia_header_hash = celestia_header_hash;
  submitted_at = pending.submitted_at;
  confirmed_at = now;
}

-- `pending.retain(..)`, with the confirmations that its closure pushes.
unfoldable pub retain_pending :
    ℕ
    → B256
    → Instant
    → HashMap PendingFinality
    → List FinalityConfirmation × HashMap PendingFinality
retain_pending celestia_height header_hash now [] = ([], [])
retain_pending celestia_height header_hash now ((hash, pending) ∷ m) =
    let (confirmations, kept) = retain_pending celestia_height header_hash now m in
    if ltb celestia_height pending.celestia_height
    then (confirmations, (hash, pending) ∷ kept)
    else (build_confirmation hash pending header_hash now ∷ confirmations, kept)

abbrev pub height_of : FinalityConfirmation → ℕ
height_of confirmation = confirmation.block_height

unfoldable pub on_celestia_finality :
    ℕ → B256 → Instant → FinalityTracker → List FinalityConfirmation × FinalityTracker
on_celestia_finality celestia_height header_hash now self =
    let (confirmations, kept) = retain_pending celestia_height header_hash now self.pending in
    (
      sort_by_key height_of confirmations,
      record { pending = kept; celestia_finalized_height = celestia_height },
    )

unfoldable pub pending_count : FinalityTracker → ℕ
pending_count self = length self.pending

abbrev pub finalized_height : FinalityTracker → ℕ
finalized_height self = self.celestia_finalized_height

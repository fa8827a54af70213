-- ===== src/Sequencer/Finalization/EndToEnd.antt =====
-- crates/sequencer/src/simplex_sequencer.rs with crates/celestia/src/client.rs: from a block that
-- consensus finalized to the finalized hash of the forkchoice.
use rkb.Prelude.{◌≡◌, String, List, Result, ok, err}
use rkb.Types.Block.{Block}
use rkb.Execution.Forkchoice.{ForkchoiceState}
use rkb.Execution.Engine.{Engine}
use rkb.Execution.Error.{ExecutionError}
use rkb.Celestia.Error.{CelestiaError}
use rkb.Celestia.Finality.{BlobSubmission}
use rkb.Celestia.Client.{DataLayer, CelestiaClient, ExtendedHeader}
use rkb.Celestia.Client.Blobs.{track_finality}
use rkb.Celestia.Client.Headers.{header_loop}
use rkb.Sequencer.Finalization.{Node}

module _ {D : DataLayer} where
  -- A submission names its block, and the tracker and the channel are as they were.
  abbrev Submitted :
      Block → CelestiaClient D → Result CelestiaError BlobSubmission × CelestiaClient D → Type 0
  Submitted block c (err e, c') = Unit
  Submitted block c (ok s, c') =
      (s.block_hash ≡ block.block_hash)
      × (c'.finality_tracker ≡ c.finality_tracker)
      × (c'.finality_tx ≡ c.finality_tx)

  abbrev after_submit : CelestiaClient D → Result CelestiaError BlobSubmission → CelestiaClient D
  after_submit c r = elim r [ ok s ↦ track_finality s c | err e ↦ c ]

abbrev settled :
    ForkchoiceState → ForkchoiceState → Result ExecutionError (Unit {0}) → ForkchoiceState
settled old wanted r = elim r [ ok _ ↦ wanted | err e ↦ old ]

module _ {E : Engine} {D : DataLayer} where
  -- The node after the tracker followed these headers.
  abbrev pub following : List (Result String ExtendedHeader) → Node E D → Node E D
  following headers self = record self { celestia = (header_loop headers self.celestia).1 }

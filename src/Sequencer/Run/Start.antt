-- ===== src/Sequencer/Run/Start.antt =====
-- crates/sequencer/src/simplex_sequencer.rs: what a node that has started runs with.
use rkb.Prelude.{◌≡◌, ok}
use rkb.Types.Primitives.{B256}
use rkb.Execution.Engine.{Engine}
use rkb.Celestia.Client.{DataLayer}
use rkb.Consensus.Runtime.{SimplexRuntimeConfig, start_simplex_runtime}
use rkb.Sequencer.Finalization.{Node, run as run_event_loop}
use rkb.Sequencer.Finalization.Invariant.{IsNode}
use rkb.Sequencer.Run.{Outside, run}

module _ {E : Engine} {D : DataLayer} (O : Outside D) (hash : B256) where
  -- Consensus takes its configuration and starts on the hash, and the node is well formed.
  abbrev Running : SimplexRuntimeConfig × Node E D → Type 0
  Running (runtime, self) =
      (start_simplex_runtime runtime ≡ ok tt) × (runtime.initial_hash ≡ hash) × IsNode hash self

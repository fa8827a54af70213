-- ===== src/Sequencer/Sync/Fetch.antt =====
-- crates/sequencer/src/simplex_sequencer.rs, `fetch_blocks_from_celestia`, with
-- `get_blocks_in_range` of crates/celestia/src/client.rs.
use rkb.Prelude.{ℕ, ◌≤◌}
use rkb.Types.Block.{Block}

-- The Celestia height of a block lies in a range.
abbrev pub Within : ℕ → ℕ → ℕ × Block → Type 0
Within start stop b = (start ≤ b.0) × (b.0 ≤ stop)

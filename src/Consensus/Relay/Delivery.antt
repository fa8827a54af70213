-- ===== src/Consensus/Relay/Delivery.antt =====
-- crates/consensus/src/runtime.rs with crates/consensus/src/application.rs: a block that one
-- validator proposes is the block that another one finalizes.
use rkb.Prelude.{◌≡◌, ok}
use rkb.Types.Primitives.{Bytes}
use rkb.Types.Block
use rkb.Types.Block.{Block}
use rkb.Execution.Engine.{Engine}
use rkb.Consensus.Application.Actor.{
  ProposedBlock, receive_block as receive_block_message, finalize as finalize_message, Application,
}
use rkb.Consensus.Mailbox.{Mailbox, receive_block, finalize}
use rkb.Consensus.Relay.{Network}

-- What the relay relies on: the codec decodes what it encoded.
pub record IsNetwork (N : Network) : Type 0 where
  pub decodes : (p : ProposedBlock) (x : Bytes) → N.serialize p ≡ ok x → N.deserialize x ≡ ok p

-- ===== src/Consensus/Application/Actor.antt =====
-- crates/consensus/src/application.rs: the state of the application actor, and the parts of it
-- that answer a genesis, a verify or a broadcast request. Log lines are left out.
use rkb.Prelude.{
  ℕ, ◌==◌, if◌then◌else◌, Bool, true, false, ◌||◌, List, [], map, Option, none, Result,
}
use rkb.Prelude.Maps.{HashMap, HashSet, contains, contains_key, insert_set}
use rkb.Types.Primitives.{B256, Address, Bytes}
use rkb.Types.Transaction
use rkb.Types.Block
use rkb.Types.Block.{Block}
use rkb.Types.Timing.{BlockTiming}
use rkb.Execution.Payload.{BuiltPayload}
use rkb.Execution.Engine.{Engine}
use rkb.Execution.Client.{ExecutionClient, Call}
use rkb.Execution.Error.{ExecutionError}

-- `AppDigest`: the number that the 32 bytes of a SHA-256 digest spell.
abbrev pub AppDigest : Type 0
AppDigest = ℕ

-- The code of other crates on which a digest rests: SHA-256, the bytes of a hash, and the text
-- `genesis:{epoch}`. `finalize` resets the hasher, so it keeps nothing between two digests.
pub record Hashing : Type 0 where
  pub sha256 : Bytes → AppDigest
  pub as_slice : B256 → Bytes
  pub genesis_data : ℕ → Bytes

pub record ProposedBlock : Type 0 where
  pub digest : AppDigest
  pub block : Block
  pub payload : BuiltPayload

-- The senders of replies are the caller's: a handler returns its reply.
pub data Message : Type 0 where
  genesis : ℕ → Message
  propose : Message
  verify : AppDigest → Message
  broadcast : AppDigest → Message
  finalize : AppDigest → Message
  receive_block : AppDigest → Block → BuiltPayload → Message

pub record ApplicationConfig (E : Engine) : Type 0 where
  pub initial_height : ℕ
  pub initial_hash : B256
  pub proposer : Address
  pub execution : ExecutionClient E
  pub block_timing : BlockTiming

-- The two broadcast channels are the lists of what was sent on them, oldest first.
pub record Application (E : Engine) : Type 0 where
  pub execution : ExecutionClient E
  pub pending_blocks : HashMap Block
  pub pending_payloads : HashMap BuiltPayload
  pub verified : HashSet
  pub block_sender : List Block
  pub block_relay_sender : List ProposedBlock
  pub height : ℕ
  pub last_hash : B256
  pub proposer : Address
  pub last_proposed_height : Option ℕ
  pub block_timing : BlockTiming

abbrev pub null_proposal : AppDigest
null_proposal = 0x9d157a9d5a238b4c7d9f8c2b3e4a5f6d8e9a0b1c2d3e4f5a6b7c8d9eafb0c1d2

unfoldable pub build_block_from_payload : BuiltPayload → Block
unfolding Block.new Transaction.new
build_block_from_payload payload = Block.new (record {
  header = record {
    height = payload.block_number;
    timestamp = payload.timestamp;
    parent_hash = payload.parent_hash;
    proposer = payload.fee_recipient;
  };
  transactions = map Transaction.new payload.transactions;
  state_root = payload.state_root;
  receipts_root = payload.receipts_root;
  logs_bloom = payload.logs_bloom;
  prev_randao = payload.prev_randao;
  extra_data = payload.extra_data;
  gas_used = payload.gas_used;
  gas_limit = payload.gas_limit;
  base_fee_per_gas = payload.base_fee_per_gas;
  block_hash = payload.block_hash;
})

unfoldable pub compute_digest : Hashing → B256 → AppDigest
compute_digest hash block_hash = hash.sha256 (hash.as_slice block_hash)

module _ {E : Engine} where
  unfoldable pub new : ApplicationConfig E → Application E
  new config = record {
    execution = config.execution;
    pending_blocks = [];
    pending_payloads = [];
    verified = [];
    block_sender = [];
    block_relay_sender = [];
    height = config.initial_height;
    last_hash = config.initial_hash;
    proposer = config.proposer;
    last_proposed_height = none;
    block_timing = config.block_timing;
  }

  -- A call of the execution client.
  abbrev pub on_execution :
      {A : Type 0} → Call E A → Application E → Result ExecutionError A × Application E
  on_execution call self =
      let (r, execution) = call self.execution in (r, record self { execution = execution })

  unfoldable pub genesis_digest : Hashing → ℕ → Application E → AppDigest × Application E
  genesis_digest hash epoch self =
      let digest = hash.sha256 (hash.genesis_data epoch) in
      (digest, record self { verified = insert_set digest self.verified })

  unfoldable pub verify_digest : AppDigest → Application E → Bool × Application E
  verify_digest payload self =
      if payload == null_proposal
      then (false, self)
      else if contains_key payload self.pending_blocks || contains payload self.verified
      then (true, record self { verified = insert_set payload self.verified })
      else (true, record self { verified = insert_set payload self.verified })

  -- The content of the block travels by the block relay.
  unfoldable pub broadcast_digest : AppDigest → Application E → Application E
  broadcast_digest payload self = self

-- ===== src/Execution/Engine.antt =====
-- reth, as the client of crates/execution/src/client.rs meets it: the JSON-RPC calls of the Engine
-- API, the clock and the timer. This is code outside the repository, so it is a record of
-- operations on a world; nothing is assumed of what reth answers.
use rkb.Prelude.{ℕ, String, List, Option, Result}
use rkb.Types.Primitives.{B256, Address, Bytes}
use rkb.Execution.Payload.{ExecutionPayloadV3, PayloadId}

pub data PayloadStatusEnum : Type 0 where
  valid : PayloadStatusEnum
  invalid : String → PayloadStatusEnum
  syncing : PayloadStatusEnum
  accepted : PayloadStatusEnum

pub record PayloadStatus : Type 0 where
  pub status : PayloadStatusEnum
  pub latest_valid_hash : Option B256

-- alloy's `ForkchoiceState`
pub record EngineForkchoiceState : Type 0 where
  pub head_block_hash : B256
  pub safe_block_hash : B256
  pub finalized_block_hash : B256

-- alloy's `PayloadAttributes`
pub record EnginePayloadAttributes : Type 0 where
  pub timestamp : ℕ
  pub prev_randao : B256
  pub suggested_fee_recipient : Address
  pub withdrawals : Option (List (Unit {0}))
  pub parent_beacon_block_root : Option B256
  pub target_blobs_per_block : Option ℕ
  pub max_blobs_per_block : Option ℕ

pub record ForkchoiceUpdated : Type 0 where
  pub payload_status : PayloadStatus
  pub payload_id : Option PayloadId

-- the answer of `eth_getBlockByNumber`
pub record BlockResponse : Type 0 where
  pub hash : B256
  pub number : ℕ
  pub timestamp : ℕ

pub data BlockTag : Type 0 where
  earliest latest : BlockTag

pub record Engine : Type 1 where
  pub World : Type 0
  pub Bloom : Type 0
  pub bloom_from_slice : Bytes → Bloom
  -- `logs_bloom.0.to_vec()`
  pub bloom_to_vec : Bloom → Bytes
  -- a fresh token and an HTTP client, or the message of what failed
  pub connect : World → Result String (Unit {0}) × World
  -- `engine_newPayloadV3`, with no versioned hashes and a zero beacon root
  pub new_payload : ExecutionPayloadV3 Bloom → World → Result String PayloadStatus × World
  -- `engine_forkchoiceUpdatedV3`
  pub forkchoice_updated :
      EngineForkchoiceState
      → Option EnginePayloadAttributes
      → World
      → Result String ForkchoiceUpdated × World
  -- `engine_getPayloadV3`
  pub get_payload_v3 : PayloadId → World → Result String (ExecutionPayloadV3 Bloom) × World
  pub get_block_by_number : BlockTag → World → Result String BlockResponse × World
  -- `SystemTime::now()` in seconds since the epoch; `none` for a clock before it
  pub system_time : World → Option ℕ × World
  -- `tokio::time::sleep`, in milliseconds
  pub sleep : ℕ → World → World

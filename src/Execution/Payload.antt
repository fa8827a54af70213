-- ===== src/Execution/Payload.antt =====
-- crates/execution/src/payload.rs: the payloads that pass between consensus and reth. The records
-- `ExecutionPayloadV1` to `V3` are those of alloy's Engine API types; `Bloom` is alloy's type, which
-- `Bloom::from_slice` makes of 256 bytes.
use rkb.Prelude.{ℕ, Bool, true, false, String, List, []}
use rkb.Types.Primitives.{B256, Address, Bytes}

pub record ExecutionPayloadV1 (Bloom : Type 0) : Type 0 where
  pub parent_hash : B256
  pub fee_recipient : Address
  pub state_root : B256
  pub receipts_root : B256
  pub logs_bloom : Bloom
  pub prev_randao : B256
  pub block_number : ℕ
  pub gas_limit : ℕ
  pub gas_used : ℕ
  pub timestamp : ℕ
  pub extra_data : Bytes
  pub base_fee_per_gas : ℕ
  pub block_hash : B256
  pub transactions : List Bytes

pub record ExecutionPayloadV2 (Bloom : Type 0) : Type 0 where
  pub payload_inner : ExecutionPayloadV1 Bloom
  pub withdrawals : List (Unit {0})

pub record ExecutionPayloadV3 (Bloom : Type 0) : Type 0 where
  pub payload_inner : ExecutionPayloadV2 Bloom
  pub blob_gas_used : ℕ
  pub excess_blob_gas : ℕ

-- The eight bytes of the id.
abbrev pub PayloadId : Type 0
PayloadId = Bytes

pub record BuiltPayload : Type 0 where
  pub block_hash : B256
  pub block_number : ℕ
  pub parent_hash : B256
  pub fee_recipient : Address
  pub state_root : B256
  pub receipts_root : B256
  pub logs_bloom : Bytes
  pub prev_randao : B256
  pub extra_data : Bytes
  pub gas_limit : ℕ
  pub gas_used : ℕ
  pub timestamp : ℕ
  pub transactions : List Bytes
  pub base_fee_per_gas : ℕ

unfoldable pub to_execution_payload :
    {Bloom : Type 0} → (Bytes → Bloom) → BuiltPayload → ExecutionPayloadV3 Bloom
to_execution_payload bloom_from_slice self = record {
  payload_inner = record {
    payload_inner = record {
      parent_hash = self.parent_hash;
      fee_recipient = self.fee_recipient;
      state_root = self.state_root;
      receipts_root = self.receipts_root;
      logs_bloom = bloom_from_slice self.logs_bloom;
      prev_randao = self.prev_randao;
      block_number = self.block_number;
      gas_limit = self.gas_limit;
      gas_used = self.gas_used;
      timestamp = self.timestamp;
      extra_data = self.extra_data;
      base_fee_per_gas = self.base_fee_per_gas;
      block_hash = self.block_hash;
      transactions = self.transactions;
    };
    withdrawals = [];
  };
  blob_gas_used = 0;
  excess_blob_gas = 0;
}

pub data ExecutionStatus : Type 0 where
  valid : ExecutionStatus
  invalid : String → ExecutionStatus
  syncing : ExecutionStatus
  accepted : ExecutionStatus

pub record ExecutionResult : Type 0 where
  pub block_hash : B256
  pub block_number : ℕ
  pub gas_used : ℕ
  pub status : ExecutionStatus

abbrev pub is_valid_status : ExecutionStatus → Bool
is_valid_status ExecutionStatus.valid = true
is_valid_status _ = false

unfoldable pub is_valid : ExecutionResult → Bool
is_valid self = is_valid_status self.status

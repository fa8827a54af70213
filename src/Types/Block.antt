-- ===== src/Types/Block.antt =====
-- crates/types/src/block.rs: headers, blocks, and the constructor from execution results.
use rkb.Prelude.{ℕ, List, [], length}
use rkb.Types.Primitives.{B256, Address, Bytes}
use rkb.Types.Transaction.{Transaction}

pub record BlockHeader : Type 0 where
  pub height : ℕ
  pub timestamp : ℕ
  pub parent_hash : B256
  pub proposer : Address

pub record Signature : Type 0 where
  pub validator : Address
  pub public_key_bytes : Bytes
  pub signature_bytes : Bytes

pub record Block : Type 0 where
  pub header : BlockHeader
  pub transactions : List Transaction
  pub signatures : List Signature
  pub state_root : B256
  pub receipts_root : B256
  pub logs_bloom : Bytes
  pub prev_randao : B256
  pub extra_data : Bytes
  pub gas_used : ℕ
  pub gas_limit : ℕ
  pub base_fee_per_gas : ℕ
  pub block_hash : B256

pub record BlockParams : Type 0 where
  pub header : BlockHeader
  pub transactions : List Transaction
  pub state_root : B256
  pub receipts_root : B256
  pub logs_bloom : Bytes
  pub prev_randao : B256
  pub extra_data : Bytes
  pub gas_used : ℕ
  pub gas_limit : ℕ
  pub base_fee_per_gas : ℕ
  pub block_hash : B256

unfoldable pub new : BlockParams → Block
new params = record {
  header = params.header;
  transactions = params.transactions;
  signatures = [];
  state_root = params.state_root;
  receipts_root = params.receipts_root;
  logs_bloom = params.logs_bloom;
  prev_randao = params.prev_randao;
  extra_data = params.extra_data;
  gas_used = params.gas_used;
  gas_limit = params.gas_limit;
  base_fee_per_gas = params.base_fee_per_gas;
  block_hash = params.block_hash;
}

abbrev pub height : Block → ℕ
height block = block.header.height

abbrev pub timestamp : Block → ℕ
timestamp block = block.header.timestamp

abbrev pub parent_hash : Block → B256
parent_hash block = block.header.parent_hash

unfoldable pub tx_count : Block → ℕ
tx_count block = length block.transactions

-- ===== src/Execution/Client/Building.antt =====
-- crates/execution/src/client.rs, `BlockBuilder`: reth builds a block on a parent, and the
-- sequencer fetches it.
use Prim.Native.String.{◌++◌}
use rkb.Prelude.{ℕ, ◌%◌, ◌^◌, Option, none, some, Result, ok, err, pure, lift, ◌>>=◌, List}
use rkb.Types.Primitives.{B256, Address}
use rkb.Execution.Error.{ExecutionError, execution_failed, forkchoice_failed}
use rkb.Execution.Payload.{BuiltPayload, PayloadId}
use rkb.Execution.Engine.{
  Engine, PayloadStatusEnum, EngineForkchoiceState, EnginePayloadAttributes, ForkchoiceUpdated,
}
use rkb.Execution.Client.{Call, request}

unfoldable pub build_forkchoice_state : B256 → B256 → EngineForkchoiceState
build_forkchoice_state parent_hash finalized = record {
  head_block_hash = parent_hash;
  safe_block_hash = parent_hash;
  finalized_block_hash = finalized;
}

unfoldable pub build_payload_attributes : B256 → ℕ → Address → EnginePayloadAttributes
build_payload_attributes parent_hash timestamp fee_recipient = record {
  timestamp = timestamp;
  prev_randao = parent_hash;
  suggested_fee_recipient = fee_recipient;
  withdrawals = some List.[];
  parent_beacon_block_root = some 0;
  target_blobs_per_block = none;
  max_blobs_per_block = none;
}

abbrev ok_or : Option PayloadId → Result ExecutionError PayloadId
ok_or none = err (forkchoice_failed "forkchoiceUpdated returned no payload ID")
ok_or (some id) = ok id

abbrev payload_id_for : PayloadStatusEnum → Option PayloadId → Result ExecutionError PayloadId
payload_id_for PayloadStatusEnum.valid id = ok_or id
payload_id_for PayloadStatusEnum.syncing id =
    err (forkchoice_failed "reth is syncing, cannot build blocks yet")
payload_id_for PayloadStatusEnum.accepted id =
    err (forkchoice_failed "forkchoice accepted but not validated")
payload_id_for (PayloadStatusEnum.invalid validation_error) id =
    err (forkchoice_failed ("invalid forkchoice: " ++ validation_error))

unfoldable pub extract_payload_id : ForkchoiceUpdated → Result ExecutionError PayloadId
extract_payload_id response = payload_id_for response.payload_status.status response.payload_id

module _ {E : Engine} where
  unfoldable pub call_forkchoice_with_attributes :
      EngineForkchoiceState → EnginePayloadAttributes → Call E ForkchoiceUpdated
  call_forkchoice_with_attributes state attributes =
      request (λ e. forkchoice_failed ("forkchoiceUpdated RPC failed: " ++ e))
        (E.forkchoice_updated state (some attributes))

  unfoldable pub start_building : B256 → ℕ → Address → Call E PayloadId
  start_building parent_hash timestamp fee_recipient c =
      (do
        response ←
            call_forkchoice_with_attributes
              (build_forkchoice_state parent_hash c.forkchoice.finalized)
              (build_payload_attributes parent_hash timestamp fee_recipient)
        lift (extract_payload_id response))
        c

  unfoldable pub get_payload : PayloadId → Call E BuiltPayload
  get_payload payload_id = do
    payload ←
        request (λ e. execution_failed ("getPayload RPC failed: " ++ e))
          (E.get_payload_v3 payload_id)
    let v1 = payload.payload_inner.payload_inner
    pure (record {
      block_hash = v1.block_hash;
      block_number = v1.block_number;
      parent_hash = v1.parent_hash;
      fee_recipient = v1.fee_recipient;
      state_root = v1.state_root;
      receipts_root = v1.receipts_root;
      logs_bloom = E.bloom_to_vec v1.logs_bloom;
      prev_randao = v1.prev_randao;
      extra_data = v1.extra_data;
      gas_limit = v1.gas_limit;
      gas_used = v1.gas_used;
      timestamp = v1.timestamp;
      transactions = v1.transactions;
      base_fee_per_gas = v1.base_fee_per_gas % 2 ^ 64;
    })

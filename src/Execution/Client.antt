-- ===== src/Execution/Client.antt =====
-- crates/execution/src/client.rs: `ExecutionClient`, which drives reth. A method takes the client,
-- with the world behind its connection, and returns it beside the result. Log lines are left out.
pub mod Connect
pub mod Building
pub mod Laws
use Prim.Native.String.{◌++◌}
use rkb.Prelude.{
  ℕ, zero, suc, ◌+◌, ◌==◌, if◌then◌else◌, Bool, true, false, String, List, map, Option, none, some,
  Result, ok, err, Action, pure, lift, catch_err, ◌>>=◌, ◌>>◌,
}
use rkb.Types.Primitives.{B256, Bytes}
use rkb.Types.Transaction.{raw_bytes}
use rkb.Types.Block.{Block, height, timestamp, parent_hash}
use rkb.Execution.Forkchoice.{ForkchoiceState, initial}
use rkb.Execution.Error.{
  ExecutionError, connection_failed, execution_failed, invalid_block, forkchoice_failed,
}
use rkb.Execution.Payload.{
  BuiltPayload, ExecutionPayloadV3, ExecutionResult, ExecutionStatus, to_execution_payload,
}
use rkb.Execution.Engine.{
  Engine, PayloadStatus, PayloadStatusEnum, EngineForkchoiceState, ForkchoiceUpdated, BlockTag,
  BlockResponse,
}

-- `reth_url` and `jwt_secret` never change: they are in the engine's `connect`.
pub record ExecutionClient (E : Engine) : Type 0 where
  pub world : E.World
  pub forkchoice : ForkchoiceState

abbrev pub Call : Engine → Type 0 → Type 0
Call E A = Action (ExecutionClient E) ExecutionError A

abbrev pub max_retries : ℕ
max_retries = 30

abbrev pub check_payload_status_for_import : PayloadStatusEnum → Result ExecutionError (Unit {0})
check_payload_status_for_import PayloadStatusEnum.valid = ok tt
check_payload_status_for_import PayloadStatusEnum.accepted = ok tt
check_payload_status_for_import PayloadStatusEnum.syncing = ok tt
check_payload_status_for_import (PayloadStatusEnum.invalid validation_error) =
    err (invalid_block validation_error)

unfoldable pub build_payload : {Bloom : Type 0} → (Bytes → Bloom) → Block → ExecutionPayloadV3 Bloom
unfolding raw_bytes
build_payload bloom_from_slice block = record {
  payload_inner = record {
    payload_inner = record {
      parent_hash = parent_hash block;
      fee_recipient = block.header.proposer;
      state_root = block.state_root;
      receipts_root = block.receipts_root;
      logs_bloom = bloom_from_slice block.logs_bloom;
      prev_randao = block.prev_randao;
      block_number = height block;
      gas_limit = block.gas_limit;
      gas_used = block.gas_used;
      timestamp = timestamp block;
      extra_data = block.extra_data;
      base_fee_per_gas = block.base_fee_per_gas;
      block_hash = block.block_hash;
      transactions = map raw_bytes block.transactions;
    };
    withdrawals = List.[];
  };
  blob_gas_used = 0;
  excess_blob_gas = 0;
}

abbrev pub execution_status : PayloadStatusEnum → Result ExecutionError ExecutionStatus
execution_status PayloadStatusEnum.valid = ok ExecutionStatus.valid
execution_status (PayloadStatusEnum.invalid validation_error) = err (invalid_block validation_error)
execution_status PayloadStatusEnum.syncing = ok ExecutionStatus.syncing
execution_status PayloadStatusEnum.accepted = ok ExecutionStatus.accepted

abbrev unwrap_or : Option B256 → B256 → B256
unwrap_or none d = d
unwrap_or (some h) d = h

module _ {E : Engine} where
  -- The client of a node whose URL and secret were accepted.
  unfoldable pub new : E.World → ExecutionClient E
  unfolding initial
  new w = record { world = w; forkchoice = initial }

  abbrev on_world :
      {A : Type 0} → (E.World → A × E.World) → ExecutionClient E → A × ExecutionClient E
  on_world f c = let (a, w) = f c.world in (a, record c { world = w })

  unfoldable pub client : Call E (Unit {0})
  client = catch_err connection_failed (on_world E.connect)

  -- `self.client()?.request(..).await.map_err(..)?`
  unfoldable pub request :
      {A : Type 0} → (String → ExecutionError) → (E.World → Result String A × E.World) → Call E A
  unfolding client
  request fail rpc = do client; catch_err fail (on_world rpc)

  unfoldable pub sleep : ℕ → ExecutionClient E → ExecutionClient E
  sleep ms c = record c { world = E.sleep ms c.world }

  unfoldable pub get_genesis_hash : Call E B256
  get_genesis_hash = do
    response ←
        request (λ e. connection_failed ("failed to get genesis: " ++ e))
          (E.get_block_by_number BlockTag.earliest)
    pure response.hash

  unfoldable pub get_head : Call E (B256 × ℕ × ℕ)
  get_head = do
    response ←
        request (λ e. connection_failed ("failed to get head: " ++ e))
          (E.get_block_by_number BlockTag.latest)
    pure (response.hash, response.number, response.timestamp)

  -- The cached forkchoice is written only when the answer is no `Invalid`.
  unfoldable pub settle_forkchoice : ForkchoiceState → PayloadStatusEnum → Call E (Unit {0})
  settle_forkchoice state (PayloadStatusEnum.invalid validation_error) c =
      (err (forkchoice_failed validation_error), c)
  settle_forkchoice state _ c = (ok tt, record c { forkchoice = state })

  unfoldable pub update_forkchoice : ForkchoiceState → Call E (Unit {0})
  unfolding settle_forkchoice
  update_forkchoice state = do
    response ←
        request (λ e. forkchoice_failed ("forkchoiceUpdated RPC failed: " ++ e))
          (E.forkchoice_updated
            (record {
              head_block_hash = state.head;
              safe_block_hash = state.safe;
              finalized_block_hash = state.finalized;
            })
            none)
    settle_forkchoice state response.payload_status.status

  -- `true` on success, `false` to try again
  unfoldable pub try_init_forkchoice : ForkchoiceState → Bool → Call E Bool
  try_init_forkchoice state is_last_attempt c =
      let (r, c') = update_forkchoice state c in
      elim r [ ok _ ↦ (ok true, c') | err e ↦ (if is_last_attempt then err e else ok false, c') ]

  -- `for attempt in 1..=MAX_RETRIES`, with the rounds left; `none` is the `unreachable!()` behind it.
  unfoldable pub init_loop : ℕ → ℕ → ForkchoiceState → Call E (Option (Unit {0}))
  init_loop zero attempt state c = (ok none, c)
  init_loop (suc rounds) attempt state c =
      let (r, c') = try_init_forkchoice state (attempt == max_retries) c in
      elim r [
        | ok done ↦ elim done [
          | true ↦ (ok (some tt), c')
          | false ↦ init_loop rounds (attempt + 1) state (sleep 1000 c')
        ]
        | err e ↦ (err e, c')
      ]

  unfoldable pub init_forkchoice : B256 → Call E (Option (Unit {0}))
  init_forkchoice genesis_hash =
      init_loop max_retries 1
        (record { head = genesis_hash; safe = genesis_hash; finalized = genesis_hash })

  unfoldable pub call_new_payload : BuiltPayload → Call E (Unit {0})
  call_new_payload payload = do
    response ←
        request (λ e. execution_failed ("newPayload RPC failed: " ++ e))
          (E.new_payload (to_execution_payload E.bloom_from_slice payload))
    lift (check_payload_status_for_import response.status)

  unfoldable pub update_forkchoice_for_payload : BuiltPayload → Call E (Unit {0})
  update_forkchoice_for_payload payload c =
      update_forkchoice
        (record {
          head = payload.block_hash;
          safe = payload.block_hash;
          finalized = c.forkchoice.finalized;
        })
        c

  unfoldable pub apply_built_payload : BuiltPayload → Call E (Unit {0})
  apply_built_payload payload = do call_new_payload payload; update_forkchoice_for_payload payload

  unfoldable pub execute_block : Block → Call E ExecutionResult
  unfolding build_payload
  execute_block block = do
    response ←
        request (λ e. execution_failed ("newPayload RPC failed: " ++ e))
          (E.new_payload (build_payload E.bloom_from_slice block))
    status ← lift (execution_status response.status)
    pure (record {
      block_hash = unwrap_or response.latest_valid_hash block.block_hash;
      block_number = height block;
      gas_used = 0;
      status = status;
    })

  unfoldable pub import_payload : BuiltPayload → Call E (Unit {0})
  import_payload payload = do
    response ←
        request (λ e. execution_failed ("newPayload RPC failed: " ++ e))
          (E.new_payload (to_execution_payload E.bloom_from_slice payload))
    lift (check_payload_status_for_import response.status)

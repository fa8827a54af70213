-- ===== src/Consensus/Runtime.antt =====
-- crates/consensus/src/runtime.rs: who we are among the validators, the application's configuration,
-- and the loop that hands finalized blocks to the callback. Networks, the engine of commonware and
-- its runtime are left out.
pub mod Laws
pub mod Leading
pub mod Setup
use rkb.Prelude.{
  ℕ, suc, ◌==◌, if◌then◌else◌, Bool, true, false, String, List, [], ◌∷◌, Option, none, some, Result,
  ok, err, length, is_empty,
}
use rkb.Prelude.Maps.{contains}
use rkb.Types.Primitives.{B256, Address}
use rkb.Types.Block.{Block, height}
use rkb.Types.Timing.{BlockTiming}
use rkb.Execution.Engine.{Engine}
use rkb.Execution.Client.{ExecutionClient}
use rkb.Consensus.Error.{ConsensusError, invalid_config}
use rkb.Consensus.Leader.{is_leader}
use rkb.Consensus.Application.Actor.{ApplicationConfig}

abbrev pub PublicKey : Type 0
PublicKey = ℕ

-- A host and a port.
abbrev pub SocketAddr : Type 0
SocketAddr = ℕ

-- `public_key` is that of the private key. The namespace, whose bytes the source takes, and the path
-- are texts; timeouts are in milliseconds.
pub record SimplexRuntimeConfig : Type 0 where
  pub public_key : PublicKey
  pub validators : List PublicKey
  pub our_address : Address
  pub namespace : String
  pub epoch : ℕ
  pub listen_addr : SocketAddr
  pub dialable_addr : SocketAddr
  pub bootstrappers : List (PublicKey × SocketAddr)
  pub storage_dir : String
  pub leader_timeout : ℕ
  pub notarization_timeout : ℕ
  pub nullify_retry : ℕ
  pub activity_timeout : ℕ
  pub skip_timeout : ℕ
  pub fetch_timeout : ℕ
  pub mailbox_size : ℕ
  pub allow_private_ips : Bool
  pub max_message_size : ℕ
  pub initial_hash : B256
  pub block_timing : BlockTiming

unfoldable pub is_validator : SimplexRuntimeConfig → Bool
is_validator self = contains self.public_key self.validators

-- `position` of the first equal element
unfoldable pub position : PublicKey → List PublicKey → Option ℕ
position key [] = none
position key (k ∷ ks) =
    let rest : Option ℕ = elim (position key ks) [ none ↦ none | some i ↦ some (suc i) ] in
    if k == key then some 0 else rest

unfoldable pub validator_index : SimplexRuntimeConfig → Option ℕ
unfolding position
validator_index self = position self.public_key self.validators

-- The tests before the runtime is started.
unfoldable pub start_simplex_runtime : SimplexRuntimeConfig → Result ConsensusError (Unit {0})
start_simplex_runtime config =
    if is_validator config
    then (if is_empty config.validators
        then err (invalid_config "validator set is empty")
        else ok tt)
    else err (invalid_config "not in validator set")

module _ {E : Engine} where
  unfoldable pub create_application : SimplexRuntimeConfig → ExecutionClient E → ApplicationConfig E
  create_application config execution = record {
    initial_height = 1;
    initial_hash = config.initial_hash;
    proposer = config.our_address;
    execution = execution;
    block_timing = config.block_timing;
  }

-- What `select!` wakes up for: a block or an error of the receiver, or the end of the runtime.
pub data FinalizationEvent : Type 0 where
  received : Result String Block → FinalizationEvent
  stopped_runtime : FinalizationEvent

pub data BlockReceiveResult : Type 0 where
  block : Block → BlockReceiveResult
  error : BlockReceiveResult
  stopped : BlockReceiveResult

unfoldable pub wait_for_block : FinalizationEvent → BlockReceiveResult
wait_for_block (received (ok b)) = block b
wait_for_block (received (err e)) = error
wait_for_block stopped_runtime = stopped

-- The callback runs on a world; its error is only logged. `none` is the panic of a remainder by zero.
module _ {W X : Type 0} (on_finalized : Block → Bool → W → Result X (Unit {0}) × W) where
  unfoldable pub handle_finalized_block : Block → (our_index num_validators : ℕ) → W → Option W
  handle_finalized_block b our_index num_validators w =
      elim (is_leader our_index (height b) num_validators) [
        | some leader ↦ some (on_finalized b leader w).1
        | none ↦ none
      ]

  unfoldable pub finalization_loop :
      (our_index num_validators : ℕ) → List FinalizationEvent → W → Option W
  finalization_loop our_index num_validators [] w = some w
  finalization_loop our_index num_validators (event ∷ events) w = elim (wait_for_block event) [
    | block b ↦ elim (handle_finalized_block b our_index num_validators w) [
      | some w' ↦ finalization_loop our_index num_validators events w'
      | none ↦ none
    ]
    | error ↦ some w
    | stopped ↦ some w
  ]

  -- `none` too if we are no validator, where `expect` panics.
  unfoldable pub run_finalization_loop :
      SimplexRuntimeConfig → List FinalizationEvent → (participants : List PublicKey) → W → Option W
  run_finalization_loop config events participants w = elim (validator_index config) [
    | none ↦ none
    | some our_index ↦ finalization_loop our_index (length participants) events w
  ]

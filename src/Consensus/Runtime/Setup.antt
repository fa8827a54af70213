-- ===== src/Consensus/Runtime/Setup.antt =====
-- crates/consensus/src/runtime.rs: from the configuration to the tasks of a validator: its network,
-- its application and its Simplex engine.
pub mod Laws
use rkb.Prelude.{
  ℕ, ◌*◌, ◌<◌, ◌≡◌, refl, if◌then◌else◌, Bool, true, false, String, List, [], ◌∷◌, Option, none,
  some, Result, ok, err, length, arith, Bool-cases, inl, inr, is_empty,
}
use rkb.Prelude.Maps.{contains}
use rkb.Types.Primitives.{B256, Address}
use rkb.Types.Block.{Block}
use rkb.Types.Config.{ConsensusConfig}
use rkb.Execution.Engine.{Engine}
use rkb.Execution.Client.{ExecutionClient}
use rkb.Consensus.Network.{Discovery, Channel, to_ingress, vote, certificate, resolver, block_relay}
use rkb.Consensus.Application.Actor.{Application, new}
use rkb.Consensus.Runtime.{
  PublicKey, SocketAddr, SimplexRuntimeConfig, is_validator, start_simplex_runtime,
  create_application, FinalizationEvent, run_finalization_loop,
}

unfoldable pub from_chain_config :
    ConsensusConfig
    → (public_key : PublicKey) → (validators : List PublicKey) → Address
    → (listen_addr dialable_addr : SocketAddr) → List (PublicKey × SocketAddr)
    → String
    → B256
    → SimplexRuntimeConfig
from_chain_config chain_config public_key validators our_address listen_addr dialable_addr
      bootstrappers storage_dir initial_hash =
    record {
      public_key = public_key;
      validators = validators;
      our_address = our_address;
      namespace = chain_config.namespace;
      epoch = 1;
      listen_addr = listen_addr;
      dialable_addr = dialable_addr;
      bootstrappers = bootstrappers;
      storage_dir = storage_dir;
      leader_timeout = chain_config.leader_timeout_ms;
      notarization_timeout = chain_config.notarization_timeout_ms;
      nullify_retry = chain_config.nullify_retry_ms;
      activity_timeout = 100;
      skip_timeout = 50;
      fetch_timeout = 5000;
      mailbox_size = 1024;
      allow_private_ips = true;
      max_message_size = 1024 * 1024;
      initial_hash = initial_hash;
      block_timing = chain_config.block_timing;
    }

-- `ordered::Set` and the signing scheme of commonware. A private key is known by its public key.
pub record Commonware : Type 1 where
  pub discovery : Discovery
  pub Scheme : Type 0
  pub from_iter_dedup : List PublicKey → List PublicKey
  pub signer : String → List PublicKey → PublicKey → Option Scheme
  pub key_to_string : PublicKey → String

-- The parts of commonware's configuration that are set here, without the mailboxes and the strategy.
pub record EngineConfig (Scheme : Type 0) : Type 0 where
  pub scheme : Scheme
  pub partition : String
  pub mailbox_size : ℕ
  pub epoch : ℕ
  pub leader_timeout : ℕ
  pub notarization_timeout : ℕ
  pub nullify_retry : ℕ
  pub activity_timeout : ℕ
  pub skip_timeout : ℕ
  pub fetch_timeout : ℕ
  pub fetch_concurrent : ℕ
  pub replay_buffer : ℕ
  pub write_buffer : ℕ
  pub buffer_pool : ℕ × ℕ

-- What runs beside the loop over the finalized blocks.
pub record Simplex (C : Commonware) (E : Engine) : Type 0 where
  pub p2p_config : C.discovery.Config
  pub participants : List PublicKey
  pub channels : List Channel
  pub application : Application E
  pub engine_config : EngineConfig C.Scheme

module _ (C : Commonware) where
  unfoldable pub build_p2p_config : SimplexRuntimeConfig → C.discovery.Config
  build_p2p_config config =
      let bootstrappers = to_ingress C.discovery config.bootstrappers in
      let namespace = C.discovery.union config.namespace "_P2P" in
      if config.allow_private_ips
      then C.discovery.local config.public_key namespace config.listen_addr config.dialable_addr
          bootstrappers config.max_message_size
      else C.discovery.recommended config.public_key namespace config.listen_addr
          config.dialable_addr bootstrappers config.max_message_size

  unfoldable pub create_scheme : SimplexRuntimeConfig → List PublicKey → Option C.Scheme
  create_scheme config participants = C.signer config.namespace participants config.public_key

  abbrev pub engine_config_of : SimplexRuntimeConfig → C.Scheme → EngineConfig C.Scheme
  engine_config_of config scheme = record {
    scheme = scheme;
    partition = C.key_to_string config.public_key;
    mailbox_size = config.mailbox_size;
    epoch = config.epoch;
    leader_timeout = config.leader_timeout;
    notarization_timeout = config.notarization_timeout;
    nullify_retry = config.nullify_retry;
    activity_timeout = config.activity_timeout;
    skip_timeout = config.skip_timeout;
    fetch_timeout = config.fetch_timeout;
    fetch_concurrent = 4;
    replay_buffer = 1024 * 1024;
    write_buffer = 1024 * 1024;
    buffer_pool = (4096, 1024);
  }

  -- `none` is the panic of `expect`.
  unfoldable pub build_engine_config :
      SimplexRuntimeConfig → List PublicKey → Option (EngineConfig C.Scheme)
  unfolding create_scheme
  build_engine_config config participants = elim (create_scheme config participants) [
    | none ↦ none
    | some scheme ↦ some (engine_config_of config scheme)
  ]

  abbrev pub simplex_of :
      {E : Engine}
      → SimplexRuntimeConfig
      → ExecutionClient E
      → List PublicKey
      → EngineConfig C.Scheme
      → Simplex C E
  simplex_of config execution participants engine_config = record {
    p2p_config = build_p2p_config config;
    participants = participants;
    channels = vote ∷ certificate ∷ resolver ∷ block_relay ∷ [];
    application = new (create_application config execution);
    engine_config = engine_config;
  }

  module _ {E : Engine} {W X : Type 0}
      (on_finalized : Block → Bool → W → Result X (Unit {0}) × W) where
    -- The tasks, and the world after the blocks that the application gave out. `none` is a panic.
    unfoldable pub run_simplex :
        SimplexRuntimeConfig
        → ExecutionClient E
        → List FinalizationEvent
        → W
        → Option (Simplex C E × W)
    unfolding build_engine_config
    run_simplex config execution events w =
        let participants = C.from_iter_dedup config.validators in
        elim (build_engine_config config participants) [
          | none ↦ none
          | some engine_config ↦
              let simplex = simplex_of config execution participants engine_config in
              elim (run_finalization_loop on_finalized config events participants w) [
                | none ↦ none
                | some w' ↦ some (simplex, w')
              ]
        ]

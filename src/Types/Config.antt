-- ===== src/Types/Config.antt =====
-- crates/types/src/config.rs: the configuration of a node. Paths are texts; the gas price, a float
-- that is only handed on, is left out.
use rkb.Prelude.{ℕ, Bool, String, List, Option, Result, ok, err, map_err}
use rkb.Types.Primitives.{Address}
use rkb.Types.Timing.{BlockTiming}

pub record ConsensusConfig : Type 0 where
  pub validator_seeds : List ℕ
  pub validators : List Address
  pub private_key_path : String
  pub validator_seed : Option ℕ
  pub listen_addr : String
  pub dialable_addr : Option String
  pub p2p_port : ℕ
  pub peers : List String
  pub leader_timeout_ms : ℕ
  pub notarization_timeout_ms : ℕ
  pub nullify_retry_ms : ℕ
  pub namespace : String
  pub storage_dir : String
  pub allow_private_ips : Bool
  pub block_timing : BlockTiming

pub record CelestiaConfig : Type 0 where
  pub bridge_addr : String
  pub bridge_auth_token : String
  pub bridge_tls_enabled : Bool
  pub core_grpc_addr : String
  pub core_grpc_auth_token : String
  pub core_grpc_tls_enabled : Bool
  pub celestia_key_path : String
  pub namespace : String
  pub batch_interval_ms : ℕ
  pub max_batch_size_bytes : ℕ
  pub genesis_da_height : ℕ
  pub genesis_block_hash : Option String
  pub index_path : String

pub record ExecutionConfig : Type 0 where
  pub reth_url : String
  pub jwt_secret_path : String

pub record ChainConfig : Type 0 where
  pub chain_id : ℕ
  pub consensus : ConsensusConfig
  pub celestia : CelestiaConfig
  pub execution : ExecutionConfig

pub data ConfigError : Type 0 where
  io parse : String → ConfigError

-- `ChainConfig::load`, with the file system and the TOML parser.
unfoldable pub load :
    (read_to_string : String → Result String String) (from_str : String → Result String ChainConfig)
    (path : String)
    → Result ConfigError ChainConfig
load read_to_string from_str path = elim (read_to_string path) [
  | err e ↦ err (io e)
  | ok content ↦ map_err parse (from_str content)
]

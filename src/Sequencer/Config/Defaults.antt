-- ===== src/Sequencer/Config/Defaults.antt =====
-- crates/sequencer/src/config.rs: the configuration that `sequencer init` writes.
use rkb.Prelude.{true, false, [], ◌∷◌, none, some}
use rkb.Types.Primitives.{Address}
use rkb.Types.Timing.{vanilla}
use rkb.Types.Config.{ConsensusConfig, CelestiaConfig, ExecutionConfig, ChainConfig}
use rkb.Sequencer.Config.{Host, derive_address}

unfoldable pub default_consensus : Address → ConsensusConfig
default_consensus validator_addr = record {
  validator_seeds = 0 ∷ [];
  validators = validator_addr ∷ [];
  private_key_path = "validator.key";
  validator_seed = some 0;
  listen_addr = "0.0.0.0:26656";
  dialable_addr = none;
  p2p_port = 26656;
  peers = [];
  leader_timeout_ms = 2000;
  notarization_timeout_ms = 3000;
  nullify_retry_ms = 10000;
  namespace = "rkb-sequencer";
  storage_dir = "./consensus-data";
  allow_private_ips = true;
  block_timing = vanilla;
}

unfoldable pub default_celestia : CelestiaConfig
default_celestia = record {
  bridge_addr = "http://localhost:26658";
  bridge_auth_token = "";
  bridge_tls_enabled = false;
  core_grpc_addr = "localhost:9090";
  core_grpc_auth_token = "";
  core_grpc_tls_enabled = false;
  celestia_key_path = "celestia.key";
  namespace = "726b62";
  batch_interval_ms = 5000;
  max_batch_size_bytes = 1500000;
  genesis_da_height = 0;
  genesis_block_hash = none;
  index_path = "data/celestia-index";
}

unfoldable pub default_execution : ExecutionConfig
default_execution = record { reth_url = "http://localhost:8551"; jwt_secret_path = "jwt.hex" }

module _ (H : Host) where
  unfoldable pub default_config : ChainConfig
  unfolding default_consensus default_celestia default_execution derive_address
  default_config = record {
    chain_id = 1337;
    consensus = default_consensus (derive_address H (H.public_key 0));
    celestia = default_celestia;
    execution = default_execution;
  }

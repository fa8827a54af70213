-- ===== src/Types/Defaults.antt =====
-- crates/types/src/config.rs: the default values, and what serde fills in for the settings that a
-- file leaves out. The gas price, a float, is left out.
use rkb.Prelude.{ℕ, Bool, true, false, String, List, [], Option, none, some}
use rkb.Types.Primitives.{Address}
use rkb.Types.Timing.{BlockTiming, vanilla}
use rkb.Types.Config.{ConsensusConfig, CelestiaConfig}

abbrev pub default_p2p_port : ℕ
default_p2p_port = 26656

abbrev pub default_leader_timeout_ms : ℕ
default_leader_timeout_ms = 2000

abbrev pub default_notarization_timeout_ms : ℕ
default_notarization_timeout_ms = 3000

abbrev pub default_nullify_retry_ms : ℕ
default_nullify_retry_ms = 10000

abbrev pub default_allow_private_ips : Bool
default_allow_private_ips = true

abbrev pub default_namespace : String
default_namespace = "rkb-sequencer"

abbrev pub default_storage_dir : String
default_storage_dir = "./consensus-data"

abbrev pub default_batch_interval_ms : ℕ
default_batch_interval_ms = 5000

abbrev pub default_max_batch_size_bytes : ℕ
default_max_batch_size_bytes = 1500000

abbrev pub default_index_path : String
default_index_path = "data/celestia-index"

-- `#[serde(default)]` of a field
abbrev or_default {ℓ} : {A : Type ℓ} → Option A → A → A
or_default none d = d
or_default (some a) d = a

-- The fields of a file: those with a default may be missing.
pub record ConsensusFields : Type 0 where
  pub validator_seeds : List ℕ
  pub validators : Option (List Address)
  pub private_key_path : String
  pub validator_seed : Option ℕ
  pub listen_addr : String
  pub dialable_addr : Option String
  pub p2p_port : Option ℕ
  pub peers : List String
  pub leader_timeout_ms : Option ℕ
  pub notarization_timeout_ms : Option ℕ
  pub nullify_retry_ms : Option ℕ
  pub namespace : Option String
  pub storage_dir : Option String
  pub allow_private_ips : Option Bool
  pub block_timing : Option BlockTiming

pub record CelestiaFields : Type 0 where
  pub bridge_addr : String
  pub bridge_auth_token : Option String
  pub bridge_tls_enabled : Option Bool
  pub core_grpc_addr : String
  pub core_grpc_auth_token : Option String
  pub core_grpc_tls_enabled : Option Bool
  pub celestia_key_path : String
  pub namespace : String
  pub batch_interval_ms : Option ℕ
  pub max_batch_size_bytes : Option ℕ
  pub genesis_da_height : Option ℕ
  pub genesis_block_hash : Option String
  pub index_path : Option String

unfoldable pub fill_consensus : ConsensusFields → ConsensusConfig
fill_consensus f = record {
  validator_seeds = f.validator_seeds;
  validators = or_default f.validators [];
  private_key_path = f.private_key_path;
  validator_seed = f.validator_seed;
  listen_addr = f.listen_addr;
  dialable_addr = f.dialable_addr;
  p2p_port = or_default f.p2p_port default_p2p_port;
  peers = f.peers;
  leader_timeout_ms = or_default f.leader_timeout_ms default_leader_timeout_ms;
  notarization_timeout_ms = or_default f.notarization_timeout_ms default_notarization_timeout_ms;
  nullify_retry_ms = or_default f.nullify_retry_ms default_nullify_retry_ms;
  namespace = or_default f.namespace default_namespace;
  storage_dir = or_default f.storage_dir default_storage_dir;
  allow_private_ips = or_default f.allow_private_ips default_allow_private_ips;
  block_timing = or_default f.block_timing vanilla;
}

unfoldable pub fill_celestia : CelestiaFields → CelestiaConfig
fill_celestia f = record {
  bridge_addr = f.bridge_addr;
  bridge_auth_token = or_default f.bridge_auth_token "";
  bridge_tls_enabled = or_default f.bridge_tls_enabled false;
  core_grpc_addr = f.core_grpc_addr;
  core_grpc_auth_token = or_default f.core_grpc_auth_token "";
  core_grpc_tls_enabled = or_default f.core_grpc_tls_enabled false;
  celestia_key_path = f.celestia_key_path;
  namespace = f.namespace;
  batch_interval_ms = or_default f.batch_interval_ms default_batch_interval_ms;
  max_batch_size_bytes = or_default f.max_batch_size_bytes default_max_batch_size_bytes;
  genesis_da_height = or_default f.genesis_da_height 0;
  genesis_block_hash = f.genesis_block_hash;
  index_path = or_default f.index_path default_index_path;
}

-- ===== src/Tests/Startup.antt =====
-- A node that starts from a configuration file of crates/sequencer/src/config.rs.
use rkb.Prelude.{ℕ, ◌≡◌, refl, ◌+◌, ◌↔◌, true, false, String, [], ◌∷◌, none, some, ok}
use rkb.Types.Primitives.{Bytes}
use rkb.Types.Timing.{vanilla}
use rkb.Consensus.Runtime.{SimplexRuntimeConfig, start_simplex_runtime, validator_index}
use rkb.Consensus.Runtime.Laws.{FirstAt}
use rkb.Sequencer.Config.{Host, ChainConfig, load, derive_validators, derive_address}
use rkb.Sequencer.Startup.{
  runtime_config, build_runtime_config, load_private_key, seed_of_bytes, build_validator_set,
  resolve_network_addrs, resolve_address, parse_bootstrappers, parse_peer,
}
use rkb.Sequencer.Startup.Loading.{IsAccepted, load_iff}
use rkb.Sequencer.Startup.Laws.{build_runtime_config-start_simplex_runtime}

-- The file lists one seed and no address.
abbrev pub parsed : ChainConfig
parsed = record {
  chain_id = 1337;
  consensus = record {
    validator_seeds = 1 ∷ [];
    validators = [];
    private_key_path = "validator.key";
    validator_seed = none;
    listen_addr = "0.0.0.0:26656";
    dialable_addr = none;
    p2p_port = 26656;
    peers = "1@127.0.0.1:26656" ∷ [];
    leader_timeout_ms = 2000;
    notarization_timeout_ms = 3000;
    nullify_retry_ms = 10000;
    namespace = "rkb-sequencer";
    storage_dir = "./consensus-data";
    allow_private_ips = true;
    block_timing = vanilla;
  };
  celestia = record {
    bridge_addr = "http://localhost:26658";
    bridge_auth_token = "";
    bridge_tls_enabled = false;
    core_grpc_addr = "localhost:9090";
    core_grpc_auth_token = "";
    core_grpc_tls_enabled = false;
    celestia_key_path = "celestia.key";
    namespace = "726b62";
    batch_interval_ms = 5000;
    max_batch_size_bytes = 1500000;
    genesis_da_height = 0;
    genesis_block_hash = none;
    index_path = "data/celestia-index";
  };
  execution = record { reth_url = "http://localhost:8551"; jwt_secret_path = "jwt.hex" };
}

-- One that lists an address and no seed.
abbrev seedless : ChainConfig
seedless = record parsed {
  consensus = record parsed.consensus { validators = 5 ∷ []; validator_seeds = [] };
}

abbrev pub key_bytes : Bytes
key_bytes =
    1 ∷ 0 ∷ 0 ∷ 0 ∷ 0 ∷ 0 ∷ 0 ∷ 0 ∷ 0 ∷ 0 ∷ 0 ∷ 0 ∷ 0 ∷ 0 ∷ 0 ∷ 0 ∷ 0 ∷ 0 ∷ 0 ∷ 0 ∷ 0 ∷ 0 ∷ 0 ∷ 0
    ∷ 0 ∷ 0 ∷ 0 ∷ 0 ∷ 0 ∷ 0 ∷ 0 ∷ 0 ∷ []

abbrev pub host_of : ChainConfig → Host
host_of c = record {
  read_to_string = λ path. ok path;
  from_toml = λ contents. ok c;
  hex_decode = λ s. ok key_bytes;
  public_key = λ seed. seed + 100;
  key_bytes = λ k. k ∷ [];
  keccak256 = λ bs. bs;
  address_from_slice = λ bs. 5;
  parse_addr = λ s. some 80;
  to_socket_addrs = λ s. ok [];
}

abbrev host : Host
host = host_of parsed

abbrev filled : ChainConfig
filled = record parsed { consensus = record parsed.consensus { validators = 5 ∷ [] } }

load_iff_example : (load host "config.toml" ≡ ok filled) ↔ (
    (contents : String) × (c : ChainConfig) × (host.read_to_string "config.toml" ≡ ok contents)
    × (host.from_toml contents ≡ ok c)
    × (filled ≡ derive_validators host c)
    × IsAccepted filled)
load_iff_example = load_iff host "config.toml" filled

abbrev pub runtime : SimplexRuntimeConfig
runtime = runtime_config host parsed.consensus 20 1 (101 ∷ [], 5) (80, 80) ((101, 80) ∷ [])

is_built : build_runtime_config host parsed.consensus 20 ≡ ok runtime
unfolding build_runtime_config load_private_key seed_of_bytes build_validator_set
    resolve_network_addrs resolve_address parse_bootstrappers parse_peer derive_address
is_built = refl

build_runtime_config-start_simplex_runtime_example :
    (start_simplex_runtime runtime ≡ ok tt)
    × (runtime.validators ≡ 101 ∷ [])
    × (5 ≡ derive_address host 101)
    × (runtime.initial_hash ≡ 20)
    × ((i : ℕ) × (validator_index runtime ≡ some i) × FirstAt i 101 (101 ∷ []))
build_runtime_config-start_simplex_runtime_example =
    build_runtime_config-start_simplex_runtime host parsed.consensus 20 runtime is_built

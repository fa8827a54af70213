-- ===== src/Sequencer/Config.antt =====
-- crates/sequencer/src/config.rs with crates/types/src/config.rs: the configuration file, what is
-- filled in and what is refused.
pub mod Defaults
use rkb.Prelude.{
  ℕ, zero, suc, ◌==◌, if◌then◌else◌, ◌&&◌, Bool, true, false, String, List, [], ◌∷◌, map, Option,
  Result, ok, err, is_empty,
}
use rkb.Types.Primitives.{Bytes, Address}
pub use rkb.Types.Config.{ConsensusConfig, CelestiaConfig, ExecutionConfig, ChainConfig}
use rkb.Consensus.Runtime.{PublicKey, SocketAddr}
use rkb.Prelude.Text.{is_empty as is_empty_text}

-- The files, the parser of TOML, hexadecimal digits, Ed25519, Keccak-256 and the resolver of names.
-- `public_key` takes the seed of a private key; `parse_addr` reads an IP address with a port.
pub record Host : Type 0 where
  pub read_to_string : String → Result String String
  pub from_toml : String → Result String ChainConfig
  pub hex_decode : String → Result String Bytes
  pub public_key : ℕ → PublicKey
  pub key_bytes : PublicKey → Bytes
  pub keccak256 : Bytes → Bytes
  pub address_from_slice : Bytes → Address
  pub parse_addr : String → Option SocketAddr
  pub to_socket_addrs : String → Result String (List SocketAddr)

pub data ConfigError : Type 0 where
  unread unparsed : ConfigError
  zero_chain_id no_validator no_bridge_addr no_core_grpc_addr no_reth_url : ConfigError

abbrev drop : ℕ → Bytes → Bytes
drop zero bs = bs
drop (suc n) [] = []
drop (suc n) (b ∷ bs) = drop n bs

abbrev Checked : Type 0
Checked = Result ConfigError (Unit {0})

abbrev require : Bool → ConfigError → Checked
require true e = ok tt
require false e = err e

-- `?` on a check
abbrev and_then : Checked → Checked → Checked
and_then (ok u) next = next
and_then (err e) next = err e

abbrev not : Bool → Bool
not true = false
not false = true

unfoldable pub validate_chain : ChainConfig → Checked
validate_chain config = require (not (config.chain_id == 0)) zero_chain_id

unfoldable pub validate_consensus : ChainConfig → Checked
validate_consensus config = require (not (is_empty config.consensus.validators)) no_validator

unfoldable pub validate_celestia : ChainConfig → Checked
validate_celestia config =
    and_then (require (not (is_empty_text config.celestia.bridge_addr)) no_bridge_addr)
      (require (not (is_empty_text config.celestia.core_grpc_addr)) no_core_grpc_addr)

unfoldable pub validate_execution : ChainConfig → Checked
validate_execution config = require (not (is_empty_text config.execution.reth_url)) no_reth_url

unfoldable pub validate : ChainConfig → Checked
unfolding validate_chain validate_consensus validate_celestia validate_execution
validate config = and_then (validate_chain config) (
    and_then (validate_consensus config)
      (and_then (validate_celestia config) (validate_execution config)))

module _ (H : Host) where
  unfoldable pub derive_address : PublicKey → Address
  derive_address pubkey = H.address_from_slice (drop 12 (H.keccak256 (H.key_bytes pubkey)))

  unfoldable pub derive_validators : ChainConfig → ChainConfig
  unfolding derive_address
  derive_validators config =
      if is_empty config.consensus.validators && not (is_empty config.consensus.validator_seeds)
      then record config {
        consensus = record config.consensus {
          validators =
              map (λ seed. derive_address (H.public_key seed)) config.consensus.validator_seeds;
        };
      }
      else config

  unfoldable pub validated : ChainConfig → Result ConfigError ChainConfig
  unfolding validate
  validated config = elim (validate config) [ ok u ↦ ok config | err e ↦ err e ]

  unfoldable pub load : String → Result ConfigError ChainConfig
  unfolding derive_validators validated
  load path = elim (H.read_to_string path) [
    | ok contents ↦ elim (H.from_toml contents) [
      | ok config ↦ validated (derive_validators config)
      | err e ↦ err unparsed
    ]
    | err e ↦ err unread
  ]

-- ===== src/Sequencer/Startup.antt =====
-- crates/sequencer/src/simplex_sequencer.rs: from the configuration to that of the consensus
-- runtime: keys, validators, addresses and peers.
pub mod Loading
pub mod Laws
use rkb.Prelude.{
  ℕ, zero, suc, ◌+◌, ◌*◌, ◌==◌, if◌then◌else◌, Bool, true, false, String, List, [], ◌∷◌, map,
  length, Option, none, some, Result, ok, err, map_err,
}
use rkb.Prelude.Maps.{contains}
use rkb.Types.Primitives.{B256, Bytes, Address}
use rkb.Consensus.Runtime.{PublicKey, SocketAddr, SimplexRuntimeConfig}
use rkb.Sequencer.Config.{ConsensusConfig, Host, derive_address}
use rkb.Prelude.Text.{trim, split_once, parse_u64}

-- The reports of eyre, by their message.
pub data StartupError : Type 0 where
  key_unread key_not_hex : StartupError
  key_length : ℕ → StartupError
  not_in_validator_set : StartupError
  unresolved no_addresses : StartupError
  invalid_listen_addr invalid_dialable_addr : StartupError
  peer_format peer_seed peer_address : String → StartupError

abbrev pub take : ℕ → Bytes → Bytes
take zero bs = []
take (suc n) [] = []
take (suc n) (b ∷ bs) = b ∷ take n bs

-- `u64::from_le_bytes`, the least significant byte first
abbrev pub from_le_bytes : Bytes → ℕ
from_le_bytes [] = 0
from_le_bytes (b ∷ bs) = b + 256 * from_le_bytes bs

-- `?`
abbrev pub and_then {ℓ κ} :
    {A : Type ℓ} {B : Type κ}
    → Result StartupError A
    → (A → Result StartupError B)
    → Result StartupError B
and_then (ok a) f = f a
and_then (err e) f = err e

module _ (H : Host) where
  -- The private key is known by its seed.
  unfoldable pub seed_of_bytes : Bytes → Result StartupError ℕ
  seed_of_bytes bytes =
      if length bytes == 32
      then ok (from_le_bytes (take 8 bytes))
      else err (key_length (length bytes))

  unfoldable pub load_private_key : String → Result StartupError ℕ
  unfolding seed_of_bytes
  load_private_key path =
      and_then (map_err (λ e. key_unread) (H.read_to_string path)) λ contents.
        and_then (map_err (λ e. key_not_hex) (H.hex_decode (trim contents))) seed_of_bytes

  unfoldable pub build_validator_set :
      ConsensusConfig → PublicKey → Result StartupError (List PublicKey × Address)
  unfolding derive_address
  build_validator_set consensus our_pubkey =
      let validators = map H.public_key consensus.validator_seeds in
      if contains our_pubkey validators
      then ok (validators, derive_address H our_pubkey)
      else err not_in_validator_set

  abbrev first_address : List SocketAddr → Result StartupError SocketAddr
  first_address [] = err no_addresses
  first_address (a ∷ rest) = ok a

  unfoldable pub resolve_address : String → Result StartupError SocketAddr
  resolve_address addr = elim (H.parse_addr addr) [
    | some socket_addr ↦ ok socket_addr
    | none ↦ and_then (map_err (λ e. unresolved) (H.to_socket_addrs addr)) first_address
  ]

  unfoldable pub resolve_network_addrs :
      ConsensusConfig → Result StartupError (SocketAddr × SocketAddr)
  unfolding resolve_address
  resolve_network_addrs consensus = elim (H.parse_addr consensus.listen_addr) [
    | none ↦ err invalid_listen_addr
    | some listen_addr ↦
        let dialable : Result StartupError SocketAddr = elim consensus.dialable_addr [
          | none ↦ ok listen_addr
          | some s ↦ map_err (λ e. invalid_dialable_addr) (resolve_address s)
        ] in
        and_then dialable λ dialable_addr. ok (listen_addr, dialable_addr)
  ]

  -- "seed@host:port"; 64 is the code of '@'.
  unfoldable pub parse_peer : String → Result StartupError (PublicKey × SocketAddr)
  unfolding resolve_address
  parse_peer peer = elim (split_once 64 peer) [
    | none ↦ err (peer_format peer)
    | some (seed_str, addr_str) ↦ elim (parse_u64 seed_str) [
      | none ↦ err (peer_seed peer)
      | some seed ↦
          and_then (map_err (λ e. peer_address peer) (resolve_address addr_str))
            λ addr. ok (H.public_key seed, addr)
    ]
  ]

  -- `collect` ends at the first error.
  unfoldable pub parse_bootstrappers :
      List String → Result StartupError (List (PublicKey × SocketAddr))
  unfolding parse_peer
  parse_bootstrappers [] = ok []
  parse_bootstrappers (peer ∷ peers) =
      and_then (parse_peer peer) λ one. and_then (parse_bootstrappers peers) λ rest. ok (one ∷ rest)

  abbrev pub runtime_config :
      ConsensusConfig
      → B256
      → ℕ
      → List PublicKey × Address
      → SocketAddr × SocketAddr
      → List (PublicKey × SocketAddr)
      → SimplexRuntimeConfig
  runtime_config consensus initial_hash seed set addrs bootstrappers = record {
    public_key = H.public_key seed;
    validators = set.0;
    our_address = set.1;
    namespace = consensus.namespace;
    epoch = 1;
    listen_addr = addrs.0;
    dialable_addr = addrs.1;
    bootstrappers = bootstrappers;
    storage_dir = consensus.storage_dir;
    leader_timeout = consensus.leader_timeout_ms;
    notarization_timeout = consensus.notarization_timeout_ms;
    nullify_retry = consensus.nullify_retry_ms;
    activity_timeout = 100;
    skip_timeout = 50;
    fetch_timeout = 5000;
    mailbox_size = 1024;
    allow_private_ips = consensus.allow_private_ips;
    max_message_size = 1024 * 1024;
    initial_hash = initial_hash;
    block_timing = consensus.block_timing;
  }

  unfoldable pub build_runtime_config :
      ConsensusConfig → B256 → Result StartupError SimplexRuntimeConfig
  unfolding load_private_key build_validator_set resolve_network_addrs parse_bootstrappers
  build_runtime_config consensus initial_hash =
      and_then (load_private_key consensus.private_key_path) λ seed.
        and_then (build_validator_set consensus (H.public_key seed)) λ set.
          and_then (resolve_network_addrs consensus) λ addrs.
            and_then (parse_bootstrappers consensus.peers) λ bootstrappers.
              ok (runtime_config consensus initial_hash seed set addrs bootstrappers)

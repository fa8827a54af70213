-- ===== src/Consensus/Network.antt =====
-- crates/consensus/src/network.rs: what the network of commonware is configured with. A namespace is
-- a text, an address a number.
use rkb.Prelude.{ℕ, ◌*◌, if◌then◌else◌, Bool, true, false, String, List, map}

-- `discovery::Config` of commonware-p2p, and what it is made with. The arguments of `local` and
-- `recommended` are the signer, the namespace, the two addresses, the bootstrappers and the size of
-- a message; a key and an address are numbers. Frequencies are in milliseconds.
pub record Discovery : Type 1 where
  pub Config : Type 0
  pub Ingress : Type 0
  pub from_addr : ℕ → Ingress
  pub union : String → String → String
  pub local : ℕ → String → ℕ → ℕ → List (ℕ × Ingress) → ℕ → Config
  pub recommended : ℕ → String → ℕ → ℕ → List (ℕ × Ingress) → ℕ → Config
  pub set_dial_frequency : ℕ → Config → Config
  pub set_query_frequency : ℕ → Config → Config

pub record NetworkConfig : Type 0 where
  pub signer : ℕ
  pub namespace : String
  pub listen_addr : ℕ
  pub dialable_addr : ℕ
  pub bootstrappers : List (ℕ × ℕ)
  pub max_message_size : ℕ
  pub allow_private_ips : Bool

-- `localhost` gives the address of a port on 127.0.0.1.
unfoldable pub local : (ℕ → ℕ) → ℕ → String → ℕ → List (ℕ × ℕ) → NetworkConfig
local localhost signer namespace port bootstrappers =
    let addr = localhost port in
    record {
      signer = signer;
      namespace = namespace;
      listen_addr = addr;
      dialable_addr = addr;
      bootstrappers = bootstrappers;
      max_message_size = 1024 * 1024;
      allow_private_ips = true;
    }

unfoldable pub production : ℕ → String → ℕ → ℕ → List (ℕ × ℕ) → NetworkConfig
production signer namespace listen_addr dialable_addr bootstrappers = record {
  signer = signer;
  namespace = namespace;
  listen_addr = listen_addr;
  dialable_addr = dialable_addr;
  bootstrappers = bootstrappers;
  max_message_size = 1024 * 1024;
  allow_private_ips = false;
}

module _ (N : Discovery) where
  abbrev pub to_ingress : List (ℕ × ℕ) → List (ℕ × N.Ingress)
  to_ingress bootstrappers = map (λ (p : ℕ × ℕ). (p.0, N.from_addr p.1)) bootstrappers

  unfoldable pub to_discovery_config : NetworkConfig → N.Config
  to_discovery_config self =
      let peers = to_ingress self.bootstrappers in
      let namespace = N.union self.namespace "_P2P" in
      if self.allow_private_ips
      then N.set_query_frequency 10000 (
          N.set_dial_frequency 500 (
            N.local self.signer namespace self.listen_addr self.dialable_addr peers
              self.max_message_size))
      else N.recommended self.signer namespace self.listen_addr self.dialable_addr peers
          self.max_message_size

-- A channel with its quota of messages per second and its backlog.
pub record Channel : Type 0 where
  pub id : ℕ
  pub per_second : ℕ
  pub backlog : ℕ

abbrev pub vote : Channel
vote = record { id = 0; per_second = 100; backlog = 512 }

abbrev pub certificate : Channel
certificate = record { id = 1; per_second = 50; backlog = 256 }

abbrev pub resolver : Channel
resolver = record { id = 2; per_second = 20; backlog = 128 }

abbrev pub block_relay : Channel
block_relay = record { id = 3; per_second = 10; backlog = 64 }

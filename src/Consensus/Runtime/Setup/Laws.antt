-- ===== src/Consensus/Runtime/Setup/Laws.antt =====
-- crates/consensus/src/runtime.rs: a validator that passes the tests before the start runs.
use rkb.Prelude.{
  ℕ, ◌<◌, ◌≡◌, refl, if◌then◌else◌, Bool, true, String, List, [], ◌∷◌, some, Result, ok, length,
  arith, Bool-cases, inl, inr,
}
use rkb.Prelude.Maps.{contains}
use rkb.Types.Block.{Block}
use rkb.Execution.Engine.{Engine}
use rkb.Execution.Client.{ExecutionClient}
use rkb.Consensus.Network.{NetworkConfig, to_discovery_config}
use rkb.Consensus.Application.Actor.{new}
use rkb.Consensus.Runtime.{
  PublicKey, SimplexRuntimeConfig, is_validator, start_simplex_runtime, create_application,
  FinalizationEvent,
}
use rkb.Consensus.Runtime.Laws.{
  FirstAt, call_in_turn, blocks_before_end, run_finalization_loop-call_in_turn,
}
use rkb.Consensus.Runtime.Setup.{
  Commonware, EngineConfig, Simplex, build_p2p_config, create_scheme, build_engine_config,
  run_simplex, engine_config_of, simplex_of,
}

-- What the code relies on of commonware: a set has the keys that it is made from, and a key of the
-- set can sign.
pub record IsCommonware (C : Commonware) : Type 0 where
  pub same_keys :
      (key : PublicKey) (keys : List PublicKey)
      → contains key (C.from_iter_dedup keys) ≡ contains key keys
  pub signs :
      (namespace : String) (participants : List PublicKey) (key : PublicKey)
      → contains key participants ≡ true
      → (s : C.Scheme) × (C.signer namespace participants key ≡ some s)

start-is_validator :
    (config : SimplexRuntimeConfig)
    → start_simplex_runtime config ≡ ok tt
    → is_validator config ≡ true
unfolding start_simplex_runtime
start-is_validator config h = elim (Bool-cases (is_validator config)) [
  | inl among ↦ among
  | inr other ↦ absurd (ground (arith, h, other))
]

contains-length :
    (key : PublicKey) (keys : List PublicKey) → contains key keys ≡ true → 0 < length keys
contains-length key [] h = absurd (ground (arith, h))
contains-length key (k ∷ ks) h = omega arith

module _ (C : Commonware) where
  build_engine_config-some :
      (config : SimplexRuntimeConfig) (participants : List PublicKey)
      → IsCommonware C
      → contains config.public_key participants ≡ true
      → (e : EngineConfig C.Scheme) × (build_engine_config C config participants ≡ some e)
        × (C.signer config.namespace participants config.public_key ≡ some e.scheme)
  unfolding build_engine_config create_scheme
  build_engine_config-some config participants laws among =
      let (s, signs) = laws.signs config.namespace participants config.public_key among in
      (engine_config_of C config s, rw (build_engine_config, signs) refl, signs)

  module _ {E : Engine} {W X : Type 0}
      (on_finalized : Block → Bool → W → Result X (Unit {0}) × W) where
    -- A validator that passes the tests before the start runs without a panic: it has an engine with
    -- its signing scheme, its application begins behind the initial hash, and the callback is given
    -- the blocks before the first error of the receiver or the end of the runtime, in order, and is
    -- told that we lead where the height, modulo the number of participants, is the first index of
    -- our key among the validators.
    pub run_simplex-call_in_turn :
        (config : SimplexRuntimeConfig) (execution : ExecutionClient E)
        (events : List FinalizationEvent) (w : W)
        → IsCommonware C
        → start_simplex_runtime config ≡ ok tt
        → (simplex : Simplex C E) × (i : ℕ) × FirstAt i config.public_key config.validators
          × (simplex.application.last_hash ≡ config.initial_hash)
          × (contains config.public_key simplex.participants ≡ true)
          × (C.signer config.namespace simplex.participants config.public_key
              ≡ some simplex.engine_config.scheme)
          × (run_simplex C on_finalized config execution events w
              ≡ some (
                simplex,
                call_in_turn on_finalized i
                    (length simplex.participants)
                    (blocks_before_end events)
                    w,
              ))
    unfolding run_simplex is_validator create_application new
    run_simplex-call_in_turn config execution events w laws starts =
        let among = start-is_validator config starts in
        let participants = C.from_iter_dedup config.validators in
        let inside : contains config.public_key participants ≡ true =
          rw (laws.same_keys config.public_key config.validators) among in
        let (e, built, signs) = build_engine_config-some config participants laws inside in
        let (i, first, ran) =
          run_finalization_loop-call_in_turn on_finalized config events participants w among
            (contains-length config.public_key participants inside) in
        (
          simplex_of C config execution participants e,
          i,
          first,
          refl,
          inside,
          signs,
          rw (run_simplex, built, ran) refl,
        )

-- The same configuration, as the module of the network has it.
abbrev network_of : SimplexRuntimeConfig → NetworkConfig
network_of config = record {
  signer = config.public_key;
  namespace = config.namespace;
  listen_addr = config.listen_addr;
  dialable_addr = config.dialable_addr;
  bootstrappers = config.bootstrappers;
  max_message_size = config.max_message_size;
  allow_private_ips = config.allow_private_ips;
}

-- The network of a validator is that of the module of the network, less its two frequencies where
-- private addresses are allowed.
to_discovery_config-build_p2p_config :
    (C : Commonware) (config : SimplexRuntimeConfig)
    → to_discovery_config C.discovery (network_of config) ≡ (
        if config.allow_private_ips
        then C.discovery.set_query_frequency 10000
            (C.discovery.set_dial_frequency 500 (build_p2p_config C config))
        else build_p2p_config C config)
unfolding to_discovery_config build_p2p_config
to_discovery_config-build_p2p_config C config = elim (Bool-cases config.allow_private_ips) [
  | inl allowed ↦ rw (to_discovery_config, build_p2p_config, allowed) refl
  | inr public ↦ rw (to_discovery_config, build_p2p_config, public) refl
]

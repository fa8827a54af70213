-- ===== src/Sequencer/Startup/Laws.antt =====
-- crates/sequencer/src/config.rs and simplex_sequencer.rs: what an accepted configuration promises,
-- and what consensus accepts of it.
use rkb.Prelude.{
  ℕ, ◌≡◌, refl, ◌⊎◌, inl, inr, true, false, List, [], ◌∷◌, map, some, Result, ok, err, arith,
  Bool-cases, is_empty,
}
use rkb.Prelude.Maps.{contains}
use rkb.Types.Primitives.{B256, Address}
use rkb.Consensus.Runtime.{
  PublicKey, SimplexRuntimeConfig, is_validator, validator_index, start_simplex_runtime,
}
use rkb.Consensus.Runtime.Laws.{FirstAt, position-FirstAt}
use rkb.Sequencer.Config.{ConsensusConfig, Host, derive_address}
use rkb.Sequencer.Startup.{
  StartupError, and_then, build_runtime_config, build_validator_set, load_private_key,
  runtime_config, resolve_network_addrs, parse_bootstrappers,
}

module _ {ℓ κ} {A : Type ℓ} {B : Type κ} where
  and_then-ok :
      (m : Result StartupError A) (f : A → Result StartupError B) (b : B)
      → and_then m f ≡ ok b
      → (a : A) × (m ≡ ok a) × (f a ≡ ok b)
  and_then-ok (ok a) f b h = (a, refl, h)
  and_then-ok (err e) f b h = absurd (ground (arith, h))

module _ {A B C D E : Type 0} where
  -- A chain of four calls that ends well went through all of them.
  four-ok :
      (r1 : Result StartupError A) (r2 : A → Result StartupError B) (r3 : Result StartupError C)
      (r4 : Result StartupError D) (make : A → B → C → D → E) (e : E)
      → and_then r1
          (λ a. and_then (r2 a) (λ b. and_then r3 (λ c. and_then r4 (λ d. ok (make a b c d)))))
        ≡ ok e
      → (a : A) × (b : B) × (c : C) × (d : D) × (r2 a ≡ ok b) × (make a b c d ≡ e)
  four-ok r1 r2 r3 r4 make e h =
      let (a, _, h1) =
        and_then-ok r1
          (λ a. and_then (r2 a) (λ b. and_then r3 (λ c. and_then r4 (λ d. ok (make a b c d))))) e
          h in
      let (b, second, h2) =
        and_then-ok (r2 a) (λ b. and_then r3 (λ c. and_then r4 (λ d. ok (make a b c d)))) e h1 in
      let (c, _, h3) = and_then-ok r3 (λ c. and_then r4 (λ d. ok (make a b c d))) e h2 in
      let (d, _, h4) = and_then-ok r4 (λ d. ok (make a b c d)) e h3 in
      (a, b, c, d, second, ground (arith, h4))

is_empty-cases : (xs : List PublicKey) → (xs ≡ []) ⊎ (is_empty xs ≡ false)
is_empty-cases [] = inl refl
is_empty-cases (x ∷ xs) = inr refl

module _ (H : Host) where
  build_validator_set-ok :
      (consensus : ConsensusConfig) (key : PublicKey) (set : List PublicKey × Address)
      → build_validator_set H consensus key ≡ ok set
      → (contains key set.0 ≡ true)
        × (set.0 ≡ map H.public_key consensus.validator_seeds)
        × (set.1 ≡ derive_address H key)
  unfolding build_validator_set
  build_validator_set-ok consensus key set h =
      elim (Bool-cases (contains key (map H.public_key consensus.validator_seeds))) [
        | inl found ↦ ground (arith, h, found)
        | inr other ↦ absurd (ground (arith, h, other))
      ]

  start_simplex_runtime_lem :
      (config : SimplexRuntimeConfig)
      → contains config.public_key config.validators ≡ true
      → start_simplex_runtime config ≡ ok tt
  unfolding start_simplex_runtime is_validator
  start_simplex_runtime_lem config h = elim (is_empty-cases config.validators) [
    | inl e ↦ absurd (ground (arith, h, e))
    | inr full ↦ ground (arith, h, full)
  ]

  -- The configuration that the node builds for consensus has the validators of the configured
  -- seeds, in their order, and the address of our key. Consensus takes it: neither of its tests
  -- before the start fails, and our index is the first place of our key among the validators.
  pub build_runtime_config-start_simplex_runtime :
      (consensus : ConsensusConfig) (initial_hash : B256) (config : SimplexRuntimeConfig)
      → build_runtime_config H consensus initial_hash ≡ ok config
      → (start_simplex_runtime config ≡ ok tt)
        × (config.validators ≡ map H.public_key consensus.validator_seeds)
        × (config.our_address ≡ derive_address H config.public_key)
        × (config.initial_hash ≡ initial_hash)
        × ((i : ℕ) × (validator_index config ≡ some i)
            × FirstAt i config.public_key config.validators)
  unfolding build_runtime_config validator_index
  build_runtime_config-start_simplex_runtime consensus initial_hash config h =
      let (seed, set, addrs, peers, built, made) =
        four-ok (load_private_key H consensus.private_key_path)
          (λ seed. build_validator_set H consensus (H.public_key seed))
          (resolve_network_addrs H consensus) (parse_bootstrappers H consensus.peers)
          (runtime_config H consensus initial_hash) config h in
      let (among, keys, ours) = build_validator_set-ok consensus (H.public_key seed) set built in
      rw (← made) (
        start_simplex_runtime_lem _ among,
        keys,
        ours,
        refl,
        position-FirstAt (H.public_key seed) set.0 among,
      )

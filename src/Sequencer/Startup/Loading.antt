-- ===== src/Sequencer/Startup/Loading.antt =====
-- crates/sequencer/src/config.rs: which files are accepted.
use rkb.Prelude.{
  ◌≡◌, ◌≢◌, refl, ap, ◌∙◌, sym, ◌↔◌, inl, inr, ◌==◌, ==_iff, false, String, List, [], ◌∷◌, ok,
  arith, Bool-cases, Result-cases, is_empty,
}
use rkb.Sequencer.Config.{
  ChainConfig, Host, derive_validators, validate, load, validated, validate_chain,
  validate_consensus, validate_celestia, validate_execution,
}
use rkb.Prelude.Text.{is_empty as is_empty_text}

-- What a configuration must have.
pub record IsAccepted (config : ChainConfig) : Type 0 where
  pub chain : config.chain_id ≢ 0
  pub some_validator : config.consensus.validators ≢ []
  pub bridge : config.celestia.bridge_addr ≢ ""
  pub core_grpc : config.celestia.core_grpc_addr ≢ ""
  pub reth : config.execution.reth_url ≢ ""

abbrev IsFull : ChainConfig → Type 0
IsFull config =
    ((config.chain_id == 0) ≡ false)
    × (is_empty config.consensus.validators ≡ false)
    × (is_empty_text config.celestia.bridge_addr ≡ false)
    × (is_empty_text config.celestia.core_grpc_addr ≡ false)
    × (is_empty_text config.execution.reth_url ≡ false)

validate-IsFull : (config : ChainConfig) → validate config ≡ ok tt → IsFull config
unfolding validate validate_chain validate_consensus validate_celestia validate_execution
validate-IsFull config h = ground (arith, h)

IsFull-validate : (config : ChainConfig) → IsFull config → validate config ≡ ok tt
unfolding validate validate_chain validate_consensus validate_celestia validate_execution
IsFull-validate config (a, b, c, d, e) = rw (a, b, c, d, e) refl

pub not_empty_text : (s : String) → is_empty_text s ≡ false → s ≢ ""
not_empty_text s h z = ground (arith, sym (ap is_empty_text z) ∙ h)

validate-IsAccepted : (config : ChainConfig) → validate config ≡ ok tt → IsAccepted config
validate-IsAccepted config h =
    let (a, b, c, d, e) = validate-IsFull config h in
    record {
      chain = λ z. ground (arith, a, z);
      some_validator = λ z. ground (arith, b, z);
      bridge = not_empty_text _ c;
      core_grpc = not_empty_text _ d;
      reth = not_empty_text _ e;
    }

full : {A : Type 0} (xs : List A) → xs ≢ [] → is_empty xs ≡ false
full [] h = absurd (h refl)
full (x ∷ xs) h = refl

full_text : (s : String) → s ≢ "" → is_empty_text s ≡ false
full_text Prim.Native.String.[] h = absurd (h refl)
full_text (Prim.Native.String.◌∷◌ c s) h = refl

module _ (H : Host) where
  load-validate :
      (path : String) (config : ChainConfig)
      → load H path ≡ ok config
      → (contents : String) × (c : ChainConfig) × (H.read_to_string path ≡ ok contents)
        × (H.from_toml contents ≡ ok c)
        × (config ≡ derive_validators H c)
        × (validate config ≡ ok tt)
  unfolding load validated
  load-validate path config h = elim (Result-cases (H.read_to_string path)) [
    | inr (e, r) ↦ absurd (ground (arith, h, r))
    | inl (contents, r) ↦ elim (Result-cases (H.from_toml contents)) [
      | inr (e, t) ↦ absurd (ground (arith, h, r, t))
      | inl (c, t) ↦ elim (Result-cases (validate (derive_validators H c))) [
        | inr (e, v) ↦ absurd (ground (arith, h, r, t, v))
        | inl (u, v) ↦
            let same : derive_validators H c ≡ config = ground (arith, h, r, t, v) in
            (contents, c, r, t, sym same, rw (← same) v)
      ]
    ]
  ]

  pub load-IsAccepted :
      (path : String) (config : ChainConfig) → load H path ≡ ok config → IsAccepted config
  load-IsAccepted path config h =
      let (_, _, _, _, _, v) = load-validate path config h in validate-IsAccepted config v

  -- Loading gives a configuration just where the file can be read and parsed, this is what the
  -- parser gave with the validators derived from the seeds where it lists none, and it is
  -- acceptable: its chain id is not zero, it has a validator, and the three addresses of Celestia
  -- and reth are not empty.
  pub load_iff :
      (path : String) (config : ChainConfig)
      → (load H path ≡ ok config) ↔ (
          (contents : String) × (c : ChainConfig) × (H.read_to_string path ≡ ok contents)
          × (H.from_toml contents ≡ ok c)
          × (config ≡ derive_validators H c)
          × IsAccepted config)
  unfolding load validated
  load_iff path config = (
    λ h.
        let (contents, c, r, t, same, v) = load-validate path config h in
        (contents, c, r, t, same, validate-IsAccepted config v),
    λ (contents, c, r, t, same, ok_config).
        let v : validate config ≡ ok tt = IsFull-validate config (
          elim (Bool-cases (config.chain_id == 0)) [
            | inl z ↦ absurd (ok_config.chain ((==_iff config.chain_id 0).0 z))
            | inr n ↦ n
          ],
          full _ ok_config.some_validator,
          full_text _ ok_config.bridge,
          full_text _ ok_config.core_grpc,
          full_text _ ok_config.reth,
        ) in
        rw (load, r, t, ← same, validated, v) (ap ok (sym same)),
  )

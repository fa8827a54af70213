-- ===== src/Sequencer/Cli/Laws.antt =====
-- crates/sequencer/src/cli.rs: what the node reads of the files that the commands write.
use rkb.Prelude.{
  ◌≡◌, ◌≢◌, ◌<◌, refl, sym, ◌==◌, ==_iff, String, ok, err, arith, Bool-cases, Result-cases, inl,
  inr, All, length,
}
use rkb.Prelude.Text.{IsHex, trim_hex}
use rkb.Types.Primitives.{B256, Bytes}
use rkb.Celestia.Client.{DataLayer}
use rkb.Sequencer.Config.{Host, load, derive_validators}
use rkb.Sequencer.Config.Defaults.{
  default_config, default_consensus, default_celestia, default_execution,
}
use rkb.Sequencer.Startup.{
  not_in_validator_set, from_le_bytes, seed_of_bytes, take, load_private_key, build_validator_set,
  build_runtime_config,
}
use rkb.Sequencer.Startup.Loading.{IsAccepted, load_iff, not_empty_text}
use rkb.Sequencer.Cli.{Machine, seeing, write_all, init_config, generate_key}

-- What the code relies on of the files and of the codecs: a file that was written is read as it was
-- written, the TOML of the default configuration and hexadecimal digits are read back as what was
-- printed, and a byte is printed in lower-case digits.
pub record IsMachine {D : DataLayer} (M : Machine D) : Type 0 where
  pub reads_back :
      (path text : String) (files files' : M.Files)
      → M.write path text files ≡ (ok tt, files')
      → M.read_to_string path files' ≡ ok text
  pub parses :
      (text : String)
      → M.to_string_pretty (default_config M.outside.host) ≡ ok text
      → M.outside.host.from_toml text ≡ ok (default_config M.outside.host)
  pub digits : (bytes : Bytes) → IsHex (M.hex_encode bytes)
  pub decodes :
      (bytes : Bytes)
      → All (λ b. b < 256) bytes
      → M.outside.host.hex_decode (M.hex_encode bytes) ≡ ok bytes

module _ {D : DataLayer} (M : Machine D) where
  write_all-ok :
      (output text : String) (files files' : M.Files)
      → write_all M output text files ≡ (ok tt, files')
      → M.write output text files ≡ (ok tt, files')
  write_all-ok output text files files' h = elim (Result-cases (M.write output text files).0) [
    | inl (_, fine) ↦ ground (arith, h, fine)
    | inr (e, failed) ↦ absurd (ground (arith, h, failed))
  ]

  default_config-IsAccepted : (H : Host) → IsAccepted (default_config H)
  unfolding default_config default_consensus default_celestia default_execution
  default_config-IsAccepted H = record {
    chain = λ e. ground (arith, e);
    some_validator = λ e. ground (arith, e);
    bridge = not_empty_text _ refl;
    core_grpc = not_empty_text _ refl;
    reth = not_empty_text _ refl;
  }

  default_config-derive_validators :
      (H H' : Host) → default_config H ≡ derive_validators H' (default_config H)
  unfolding derive_validators default_config default_consensus
  default_config-derive_validators H H' = refl

  -- The configuration that `init` wrote is the one that a node loads.
  pub init_config-load :
      (output : String) (files files' : M.Files)
      → IsMachine M
      → init_config M output files ≡ (ok tt, files')
      → load (seeing M files').host output ≡ ok (default_config M.outside.host)
  unfolding init_config
  init_config-load output files files' laws h =
      elim (Result-cases (M.to_string_pretty (default_config M.outside.host))) [
        | inr (e, failed) ↦ absurd (ground (arith, h, failed))
        | inl (text, printed) ↦
            let wrote = write_all-ok output text files files' (ground (arith, h, printed)) in
            let H = (seeing M files').host in
            (load_iff H output (default_config M.outside.host)).1 (
              text,
              default_config M.outside.host,
              laws.reads_back output text files files' wrote,
              laws.parses text printed,
              default_config-derive_validators M.outside.host H,
              default_config-IsAccepted M.outside.host,
            )
      ]

  -- The key that `keygen` wrote is loaded as the number that its first eight bytes are.
  pub generate_key-load_private_key :
      (seed : Bytes) (output : String) (files files' : M.Files)
      → IsMachine M
      → length seed ≡ 32
      → All (λ b. b < 256) seed
      → generate_key M seed output files ≡ (ok tt, files')
      → load_private_key (seeing M files').host output ≡ ok (from_le_bytes (take 8 seed))
  unfolding generate_key load_private_key seed_of_bytes
  generate_key-load_private_key seed output files files' laws long bytes h =
      let text = M.hex_encode seed in
      let read =
        laws.reads_back output text files files' (write_all-ok output text files files' h) in
      rw (read, trim_hex text (laws.digits seed), laws.decodes seed bytes, long) refl

  -- A node with the configuration of `init` and the key of `keygen` refuses to start, unless the
  -- public key of the number that the first eight bytes of the key are is that of the number 0.
  pub generate_key-build_runtime_config :
      (seed : Bytes) (files files' : M.Files) (initial_hash : B256)
      → IsMachine M
      → length seed ≡ 32
      → All (λ b. b < 256) seed
      → M.outside.host.public_key (from_le_bytes (take 8 seed)) ≢ M.outside.host.public_key 0
      → generate_key M seed "validator.key" files ≡ (ok tt, files')
      → build_runtime_config
          (seeing M files').host
          (default_config M.outside.host).consensus
          initial_hash
        ≡ err not_in_validator_set
  unfolding build_runtime_config build_validator_set default_config default_consensus
  generate_key-build_runtime_config seed files files' initial_hash laws long bytes other h =
      let key = M.outside.host.public_key (from_le_bytes (take 8 seed)) in
      let loaded =
        generate_key-load_private_key seed "validator.key" files files' laws long bytes h in
      elim (Bool-cases (M.outside.host.public_key 0 == key)) [
        | inl same ↦ absurd (other (sym ((==_iff _ _).0 same)))
        | inr differs ↦ rw (loaded, differs) refl
      ]

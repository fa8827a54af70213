-- ===== src/Sequencer/Cli.antt =====
-- crates/sequencer/src/cli.rs: the commands of the binary. Arguments are parsed by clap, and the 32
-- random bytes of a key are an argument.
pub mod Laws
use rkb.Prelude.{ℕ, String, List, Option, none, some, Result, ok, err, map_err}
use rkb.Prelude.Text.{trim}
use rkb.Types.Primitives.{Bytes}
use rkb.Types.Config.{ChainConfig}
use rkb.Execution.Engine.{Engine}
use rkb.Celestia.Index.{Storage}
use rkb.Celestia.Client.{DataLayer, CelestiaClient}
use rkb.Consensus.Runtime.{SimplexRuntimeConfig}
use rkb.Sequencer.Config.{ConfigError, load}
use rkb.Sequencer.Config.Defaults.{default_config}
use rkb.Sequencer.Finalization.{Node, NodeEvent}
use rkb.Sequencer.Run.{RunReport, Outside, run as run_node}

-- Default paths are filled in by clap.
pub data Commands : Type 0 where
  run_command : (config log_level : String) → Commands
  init_command keygen_command : (output : String) → Commands
  celestia_address_command : (key : String) → Commands

-- The reports of eyre.
pub data CliReport : Type 0 where
  config : ConfigError → CliReport
  sequencer : RunReport → CliReport
  unserialized unwritten : String → CliReport
  key_unread key_not_hex invalid_key bech32_failed : String → CliReport

-- The files, and the code outside the crate. `from_slice` reads a secp256k1 key.
pub record Machine (D : DataLayer) : Type 1 where
  pub Files : Type 0
  pub SigningKey : Type 0
  pub outside : Outside D
  pub read_to_string : String → Files → Result String String
  pub write : String → String → Files → Result String (Unit {0}) × Files
  pub to_string_pretty : ChainConfig → Result String String
  pub hex_encode : Bytes → String
  pub from_slice : Bytes → Result String SigningKey
  pub to_sec1_bytes : SigningKey → Bytes
  pub sha256 : Bytes → Bytes
  pub ripemd160 : Bytes → Bytes
  pub bech32_encode : String → Bytes → Result String String

-- The worlds that a node starts in, and what then happens to it.
pub record Surroundings (E : Engine) (D : DataLayer) (S : Storage) : Type 0 where
  pub execution_world : E.World
  pub celestia_world : D.World
  pub disk : S.Disk
  pub tracked : CelestiaClient D → CelestiaClient D
  pub events : List NodeEvent

-- What a command leaves.
pub data Outcome (E : Engine) (D : DataLayer) : Type 0 where
  ran : SimplexRuntimeConfig → Node E D → Outcome E D
  written : Outcome E D
  printed : String → Outcome E D

module _ {D : DataLayer} (M : Machine D) where
  -- The outside as it is with these files.
  abbrev pub seeing : M.Files → Outside D
  seeing files = record M.outside {
    host = record M.outside.host { read_to_string = λ path. M.read_to_string path files };
  }

  abbrev pub write_all : String → String → M.Files → Result CliReport (Unit {0}) × M.Files
  write_all output text files =
      let (r, files') = M.write output text files in (map_err unwritten r, files')

  unfoldable pub init_config : String → M.Files → Result CliReport (Unit {0}) × M.Files
  init_config output files = elim (M.to_string_pretty (default_config M.outside.host)) [
    | err e ↦ (err (unserialized e), files)
    | ok toml_str ↦ write_all output toml_str files
  ]

  unfoldable pub generate_key : Bytes → String → M.Files → Result CliReport (Unit {0}) × M.Files
  generate_key seed output files = write_all output (M.hex_encode seed) files

  abbrev address_of : M.SigningKey → Result CliReport String
  address_of signing_key =
      map_err bech32_failed
        (M.bech32_encode "celestia" (M.ripemd160 (M.sha256 (M.to_sec1_bytes signing_key))))

  -- The address that is printed.
  unfoldable pub celestia_address : String → M.Files → Result CliReport String
  celestia_address key_path files = elim (M.read_to_string key_path files) [
    | err e ↦ err (key_unread e)
    | ok key_hex ↦ elim (M.outside.host.hex_decode (trim key_hex)) [
      | err e ↦ err (key_not_hex e)
      | ok key_bytes ↦ elim (M.from_slice key_bytes) [
        | err e ↦ err (invalid_key e)
        | ok signing_key ↦ address_of signing_key
      ]
    ]
  ]

  module _ {E : Engine} (S : Storage) (around : Surroundings E D S) where
    unfoldable pub run_sequencer :
        String → M.Files → Result CliReport (SimplexRuntimeConfig × Node E D)
    run_sequencer path files = elim (load (seeing files).host path) [
      | err e ↦ err (config e)
      | ok cfg ↦ map_err sequencer (
          run_node (seeing files) S cfg around.execution_world around.celestia_world around.disk
            around.tracked around.events)
    ]

    abbrev finished :
        Result CliReport (Unit {0}) × M.Files → Result CliReport (Outcome E D) × M.Files
    finished (ok _, files) = (ok written, files)
    finished (err e, files) = (err e, files)

    abbrev ran_from : String → M.Files → Result CliReport (Outcome E D) × M.Files
    ran_from path files = elim (run_sequencer path files) [
      | ok (runtime, node) ↦ (ok (ran runtime node), files)
      | err e ↦ (err e, files)
    ]

    unfoldable pub run :
        Option Commands → Bytes → M.Files → Result CliReport (Outcome E D) × M.Files
    unfolding run_sequencer init_config generate_key celestia_address
    run (some (run_command path log_level)) random files = ran_from path files
    run (some (init_command output)) random files = finished (init_config output files)
    run (some (keygen_command output)) random files = finished (generate_key random output files)
    run (some (celestia_address_command key)) random files = elim (celestia_address key files) [
      | ok address ↦ (ok (printed address), files)
      | err e ↦ (err e, files)
    ]
    run none random files = ran_from "config.toml" files

-- ===== src/Tests/Run.antt =====
-- The start of the node of crates/sequencer/src/simplex_sequencer.rs, and the files of the commands
-- of crates/sequencer/src/cli.rs.
use Prim.Native.Char.{code}
use Prim.Native.String.{String}
use rkb.Prelude.{
  ℕ, zero, suc, ◌+◌, ◌≡◌, refl, ap, ◌==◌, if◌then◌else◌, true, [], ◌∷◌, some, ok, err, Result,
  arith,
}
use rkb.Prelude.Text.{IsHex}
use rkb.Types.Primitives.{Bytes}
use rkb.Celestia.Client.{CelestiaClient}
use rkb.Consensus.Runtime.{SimplexRuntimeConfig}
use rkb.Sequencer.Config.{load}
use rkb.Sequencer.Config.Defaults.{default_config}
use rkb.Sequencer.Startup.{build_runtime_config, not_in_validator_set}
use rkb.Sequencer.Finalization.{Node, NodeEvent, finalized}
use rkb.Sequencer.Run.{RunReport, Outside, run}
use rkb.Sequencer.Cli.{Machine, seeing, init_config, generate_key}
use rkb.Sequencer.Cli.Laws.{IsMachine, init_config-load, generate_key-build_runtime_config}
use rkb.Tests.Fixtures.{reth, celestia, celestia_client, disk, one_block}
use rkb.Tests.Startup.{parsed, host_of, key_bytes}

abbrev outside : Outside celestia
outside = record {
  host = host_of parsed;
  tokens = record { hex_decode = λ s. ok key_bytes; sha256 = λ x. 9 ∷ []; now = 1700000000 };
  to_string = λ n. "";
  connector = record {
    hex_decode = λ s. ok key_bytes;
    new_v0 = λ x. ok 7;
    exists = λ path. true;
    read_to_string = λ path. ok path;
    build = λ b w. (ok tt, w);
    rpc_new = λ url token w. (ok tt, w);
  };
}

abbrev after_start : Result RunReport (SimplexRuntimeConfig × Node reth celestia)
after_start = run outside disk parsed 20 [] [] (λ c. c) (finalized one_block true ∷ [])

-- The block was executed and waits for its batch.
abbrev one_node : Node reth celestia
one_node = record {
  execution = record { world = 21; forkchoice = record { head = 21; safe = 21; finalized = 20 } };
  forkchoice = record { head = 21; safe = 21; finalized = 20 };
  celestia = celestia_client;
  executed_blocks = 21 ∷ [];
  batch_tx = some (record { open_end = true; sent = one_block ∷ [] });
  batch_enabled = true;
}

-- Bytes in a code of zeros, each ended by an f.
abbrev zeros : ℕ → String → String
zeros zero s = String.◌∷◌ "f" s
zeros (suc n) s = String.◌∷◌ "0" (zeros n s)

abbrev encode : Bytes → String
encode [] = ""
encode (b ∷ bs) = zeros b (encode bs)

abbrev decode : ℕ → String → Bytes
decode n String.[] = []
decode n (String.◌∷◌ c s) =
    let ended = n ∷ decode 0 s in
    let more = decode (suc n) s in if code c == 102 then ended else more

decode-zeros : (n b : ℕ) (s : String) → decode n (zeros b s) ≡ (n + b) ∷ decode 0 s
decode-zeros n zero s = ground arith
decode-zeros n (suc b) s = ground (arith, decode-zeros (suc n) b s)

decode-encode : (bs : Bytes) → decode 0 (encode bs) ≡ bs
decode-encode [] = refl
decode-encode (b ∷ bs) = ground (arith, decode-zeros 0 b (encode bs), decode-encode bs)

zeros-IsHex : (b : ℕ) (s : String) → IsHex s → IsHex (zeros b s)
zeros-IsHex zero s h = (refl, h)
zeros-IsHex (suc b) s h = (refl, zeros-IsHex b s h)

encode-IsHex : (bs : Bytes) → IsHex (encode bs)
encode-IsHex [] = tt
encode-IsHex (b ∷ bs) = zeros-IsHex b (encode bs) (encode-IsHex bs)

-- The files are one text.
abbrev machine : Machine celestia
machine = record {
  Files = String;
  SigningKey = Bytes;
  outside = record outside {
    host = record (host_of parsed) {
      from_toml = λ text. ok (default_config (host_of parsed));
      hex_decode = λ s. ok (decode 0 s);
    };
  };
  read_to_string = λ path files. ok files;
  write = λ path text files. (ok tt, text);
  to_string_pretty = λ c. ok "toml";
  hex_encode = encode;
  from_slice = λ bs. ok bs;
  to_sec1_bytes = λ bs. bs;
  sha256 = λ bs. bs;
  ripemd160 = λ bs. bs;
  bech32_encode = λ prefix bs. ok prefix;
}

machine-IsMachine : IsMachine machine
unfolding default_config
machine-IsMachine = record {
  reads_back = λ path text files files' h. ground (arith, h);
  parses = λ text h. refl;
  digits = encode-IsHex;
  decodes = λ bytes small. ap ok (decode-encode bytes);
}

default_written : init_config machine "config.toml" "" ≡ (ok tt, "toml")
unfolding init_config
default_written = refl

key_written : generate_key machine key_bytes "validator.key" "" ≡ (ok tt, encode key_bytes)
unfolding generate_key
key_written = refl

init_config-load_example :
    load (seeing machine "toml").host "config.toml" ≡ ok (default_config machine.outside.host)
init_config-load_example =
    init_config-load machine "config.toml" "" "toml" machine-IsMachine default_written

generate_key-build_runtime_config_example :
    build_runtime_config
      (seeing machine (encode key_bytes)).host
      (default_config machine.outside.host).consensus
      20
    ≡ err not_in_validator_set
generate_key-build_runtime_config_example =
    generate_key-build_runtime_config machine key_bytes "" (encode key_bytes) 20 machine-IsMachine
      refl (omega arith) (λ e. ground (arith, e)) key_written

-- ===== src/Tests/Relay.antt =====
-- Runs of the relay and of the finalization loop of crates/consensus/src/runtime.rs.
use rkb.Prelude.{
  if◌then◌else◌, none, length, ℕ, ◌↔◌, ◌≡◌, refl, true, false, List, [], ◌∷◌, ◌++◌, some, Result,
  ok, err, String, Bool, arith,
}
use rkb.Types.Primitives.{Bytes}
use rkb.Types.Transaction.{Transaction}
use rkb.Types.Block
use rkb.Types.Block.{Block, Signature}
use rkb.Types.Timing.{vanilla}
use rkb.Execution.Client.{client as connect}
use rkb.Consensus.Application.Actor.{ProposedBlock}
use rkb.Consensus.Mailbox.{Mailbox}
use rkb.Consensus.Runtime.{
  PublicKey, SimplexRuntimeConfig, is_validator, FinalizationEvent, received, run_finalization_loop,
}
use rkb.Consensus.Runtime.Laws.{blocks_before_end, FirstAt, call_in_turn}
use rkb.Consensus.Runtime.Leading.{note_leader, run_finalization_loop-one_leader}
use rkb.Prelude.Maps.{contains}
use rkb.Consensus.Relay.{Network}
use rkb.Consensus.Runtime.{start_simplex_runtime}
use rkb.Consensus.Runtime.Setup.{Commonware, Simplex, run_simplex}
use rkb.Consensus.Runtime.Setup.Laws.{IsCommonware, run_simplex-call_in_turn}
use rkb.Tests.Fixtures.{client, reth, one_payload, one_block}

-- A codec for proposals without lists: their numbers.
abbrev encode_proposed :
    List Transaction
    → List Signature
    → Bytes
    → Bytes
    → Bytes
    → Bytes
    → List Bytes
    → ProposedBlock
    → Result String Bytes
encode_proposed [] [] [] [] [] [] [] p = ok (
    p.digest ∷ p.block.header.height ∷ p.block.header.timestamp ∷ p.block.header.parent_hash
    ∷ p.block.header.proposer ∷ p.block.state_root ∷ p.block.receipts_root ∷ p.block.prev_randao
    ∷ p.block.gas_used ∷ p.block.gas_limit ∷ p.block.base_fee_per_gas ∷ p.block.block_hash
    ∷ p.payload.block_hash ∷ p.payload.block_number ∷ p.payload.parent_hash
    ∷ p.payload.fee_recipient ∷ p.payload.state_root ∷ p.payload.receipts_root
    ∷ p.payload.prev_randao ∷ p.payload.gas_limit ∷ p.payload.gas_used ∷ p.payload.timestamp
    ∷ p.payload.base_fee_per_gas ∷ [])
encode_proposed _ _ _ _ _ _ _ p = err "not encoded"

abbrev decode_proposed : Bytes → Result String ProposedBlock
decode_proposed
      (d ∷ h ∷ t ∷ pa ∷ a ∷ s ∷ r ∷ m ∷ u ∷ l ∷ f ∷ x ∷ i0 ∷ i1 ∷ i2 ∷ i3 ∷ i4 ∷ i5 ∷ i6 ∷ i7 ∷ i8
        ∷ i9 ∷ i10 ∷ []) =
    ok (record {
      digest = d;
      block = record {
        header = record { height = h; timestamp = t; parent_hash = pa; proposer = a };
        transactions = [];
        signatures = [];
        state_root = s;
        receipts_root = r;
        logs_bloom = [];
        prev_randao = m;
        extra_data = [];
        gas_used = u;
        gas_limit = l;
        base_fee_per_gas = f;
        block_hash = x;
      };
      payload = record {
        block_hash = i0;
        block_number = i1;
        parent_hash = i2;
        fee_recipient = i3;
        state_root = i4;
        receipts_root = i5;
        prev_randao = i6;
        gas_limit = i7;
        gas_used = i8;
        timestamp = i9;
        base_fee_per_gas = i10;
        logs_bloom = [];
        extra_data = [];
        transactions = [];
      };
    })
decode_proposed _ = err "not decoded"

abbrev pub network : Network
network = record {
  World = List Bytes;
  serialize = λ p.
      encode_proposed p.block.transactions p.block.signatures p.block.logs_bloom p.block.extra_data
        p.payload.logs_bloom p.payload.extra_data p.payload.transactions p;
  deserialize = decode_proposed;
  check = λ recipients w. (ok recipients, w);
  send = λ recipients x w. (ok tt, w ++ x ∷ []);
}

abbrev one_proposed : ProposedBlock
one_proposed = record { digest = 21; block = one_block; payload = one_payload }

abbrev pub one_message : Bytes
one_message =
    21 ∷ 1 ∷ 12 ∷ 20 ∷ 5 ∷ 0 ∷ 0 ∷ 0 ∷ 7 ∷ 30 ∷ 1 ∷ 21 ∷ 21 ∷ 1 ∷ 20 ∷ 5 ∷ 0 ∷ 0 ∷ 0 ∷ 30 ∷ 7 ∷ 12
    ∷ 1 ∷ []

abbrev mailbox : Mailbox
mailbox = record { capacity = 2; connected = true; queue = [] }

-- The second of three validators.
abbrev second : SimplexRuntimeConfig
second = record {
  public_key = 8;
  validators = 7 ∷ 8 ∷ 9 ∷ [];
  our_address = 5;
  namespace = "rkb-sequencer";
  epoch = 1;
  listen_addr = 80;
  dialable_addr = 80;
  bootstrappers = [];
  storage_dir = "./consensus-data";
  leader_timeout = 2000;
  notarization_timeout = 3000;
  nullify_retry = 10000;
  activity_timeout = 100;
  skip_timeout = 50;
  fetch_timeout = 5000;
  mailbox_size = 1024;
  allow_private_ips = true;
  max_message_size = 1048576;
  initial_hash = 20;
  block_timing = vanilla;
}

abbrev events : List FinalizationEvent
events = received (ok one_block) ∷ received (err "lagged") ∷ received (ok one_block) ∷ []

abbrev submit_ours : Block → Bool → List Block → Result String (Unit {0}) × List Block
submit_ours block true w = (ok tt, w ++ block ∷ [])
submit_ours block false w = (err "not the leader", w)

run_finalization_loop-one_leader_example :
    (key : PublicKey) × (contains key (7 ∷ 8 ∷ 9 ∷ []) ≡ true)
    × ((config : SimplexRuntimeConfig)
        → config.validators ≡ 7 ∷ 8 ∷ 9 ∷ []
        → (run_finalization_loop note_leader config
              (received (ok one_block) ∷ [])
              (7 ∷ 8 ∷ 9 ∷ [])
              []
            ≡ some (true ∷ []))
          ↔ (config.public_key ≡ key))
run_finalization_loop-one_leader_example =
    run_finalization_loop-one_leader (7 ∷ 8 ∷ 9 ∷ []) (7 ∷ 8 ∷ 9 ∷ []) one_block
      (refl, (refl, (refl, tt))) (omega arith) refl

-- A commonware whose set keeps a list as it is.
abbrev commonware : Commonware
commonware = record {
  discovery = record {
    Config = String;
    Ingress = ℕ;
    from_addr = λ a. a;
    union = λ a b. a;
    local = λ key namespace listen dialable peers size. namespace;
    recommended = λ key namespace listen dialable peers size. namespace;
    set_dial_frequency = λ ms c. c;
    set_query_frequency = λ ms c. c;
  };
  Scheme = PublicKey;
  from_iter_dedup = λ keys. keys;
  signer = λ namespace participants key. if contains key participants then some key else none;
  key_to_string = λ key. "key";
}

commonware-IsCommonware : IsCommonware commonware
commonware-IsCommonware = record {
  same_keys = λ key keys. refl;
  signs = λ namespace participants key among. (key, rw among refl);
}

second_starts : start_simplex_runtime second ≡ ok tt
unfolding start_simplex_runtime is_validator
second_starts = refl

run_simplex-call_in_turn_example :
    (simplex : Simplex commonware reth) × (i : ℕ) × FirstAt i 8 (7 ∷ 8 ∷ 9 ∷ [])
    × (simplex.application.last_hash ≡ 20)
    × (contains 8 simplex.participants ≡ true)
    × (commonware.signer "rkb-sequencer" simplex.participants 8 ≡ some simplex.engine_config.scheme)
    × (run_simplex commonware submit_ours second client events []
        ≡ some (
          simplex,
          call_in_turn submit_ours i (length simplex.participants) (blocks_before_end events) [],
        ))
run_simplex-call_in_turn_example =
    run_simplex-call_in_turn commonware submit_ours second client events [] commonware-IsCommonware
      second_starts

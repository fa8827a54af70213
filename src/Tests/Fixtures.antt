-- ===== src/Tests/Fixtures.antt =====
-- A reth, a Celestia node and a file system to run the code on: they answer every call.
use Prim.Native.String.{compare}
use rkb.Prelude.{
  ℕ, ◌==◌, if◌then◌else◌, ◌&&◌, Bool, true, false, String, List, [], ◌∷◌, ◌++◌, none, some, Result,
  ok, err,
}
use rkb.Types.Primitives.{Bytes}
use rkb.Types.Transaction.{Transaction}
use rkb.Types.Block.{Block, Signature}
use rkb.Types.Timing.{vanilla}
use rkb.Execution.Payload.{BuiltPayload, ExecutionPayloadV3}
use rkb.Execution.Engine.{Engine, PayloadStatus, PayloadStatusEnum}
use rkb.Execution.Client.{ExecutionClient}
use rkb.Consensus.Application.Actor.{Hashing, ApplicationConfig}
use rkb.Celestia.Index.{Storage, IndexEntry}
use rkb.Celestia.Client.{DataLayer, CelestiaClient}

abbrev valid_status : PayloadStatus
valid_status = record { status = PayloadStatusEnum.valid; latest_valid_hash = none }

-- Block 1 on the genesis block, whose hash is 20.
abbrev pub one_payload : BuiltPayload
one_payload = record {
  block_hash = 21;
  block_number = 1;
  parent_hash = 20;
  fee_recipient = 5;
  state_root = 0;
  receipts_root = 0;
  logs_bloom = [];
  prev_randao = 0;
  extra_data = [];
  gas_limit = 30;
  gas_used = 7;
  timestamp = 12;
  transactions = [];
  base_fee_per_gas = 1;
}

abbrev one_executed : ExecutionPayloadV3 Bytes
one_executed = record {
  payload_inner = record {
    payload_inner = record {
      parent_hash = 20;
      fee_recipient = 5;
      state_root = 0;
      receipts_root = 0;
      logs_bloom = [];
      prev_randao = 0;
      block_number = 1;
      gas_limit = 30;
      gas_used = 7;
      timestamp = 12;
      extra_data = [];
      base_fee_per_gas = 1;
      block_hash = 21;
      transactions = [];
    };
    withdrawals = [];
  };
  blob_gas_used = 0;
  excess_blob_gas = 0;
}

-- The world is the hash of reth's head.
abbrev pub reth : Engine
reth = record {
  World = ℕ;
  Bloom = Bytes;
  bloom_from_slice = λ b. b;
  bloom_to_vec = λ b. b;
  connect = λ w. (ok tt, w);
  new_payload = λ p w. (ok valid_status, w);
  forkchoice_updated = λ s a w. (
    ok (record { payload_status = valid_status; payload_id = some (1 ∷ []) }),
    s.head_block_hash,
  );
  get_payload_v3 = λ id w. (ok one_executed, w);
  get_block_by_number = λ tag w. (ok (record { hash = w; number = 0; timestamp = 3 }), w);
  system_time = λ w. (some 12, w);
  sleep = λ ms w. w;
}

abbrev pub client : ExecutionClient reth
client = record { world = 20; forkchoice = record { head = 20; safe = 20; finalized = 20 } }

abbrev pub one_block : Block
one_block = record {
  header = record { height = 1; timestamp = 12; parent_hash = 20; proposer = 5 };
  transactions = [];
  signatures = [];
  state_root = 0;
  receipts_root = 0;
  logs_bloom = [];
  prev_randao = 0;
  extra_data = [];
  gas_used = 7;
  gas_limit = 30;
  base_fee_per_gas = 1;
  block_hash = 21;
}

abbrev first_byte : Bytes → ℕ
first_byte [] = 0
first_byte (b ∷ bs) = b

abbrev pub hashing : Hashing
hashing = record { sha256 = first_byte; as_slice = λ h. h ∷ []; genesis_data = λ epoch. epoch ∷ [] }

abbrev pub config : ApplicationConfig reth
config = record {
  initial_height = 1;
  initial_hash = 20;
  proposer = 5;
  execution = client;
  block_timing = vanilla;
}

-- A codec for blocks without lists: their numbers.
abbrev encode : List Transaction → List Signature → Bytes → Bytes → Block → Result String Bytes
encode [] [] [] [] b = ok (
    b.header.height ∷ b.header.timestamp ∷ b.header.parent_hash ∷ b.header.proposer ∷ b.state_root
    ∷ b.receipts_root ∷ b.prev_randao ∷ b.gas_used ∷ b.gas_limit ∷ b.base_fee_per_gas ∷ b.block_hash
    ∷ [])
encode _ _ _ _ b = err "not encoded"

abbrev decode : Bytes → Result String Block
decode (h ∷ t ∷ p ∷ a ∷ s ∷ r ∷ m ∷ u ∷ l ∷ f ∷ x ∷ []) = ok (record {
  header = record { height = h; timestamp = t; parent_hash = p; proposer = a };
  transactions = [];
  signatures = [];
  state_root = s;
  receipts_root = r;
  logs_bloom = [];
  prev_randao = m;
  extra_data = [];
  gas_used = u;
  gas_limit = l;
  base_fee_per_gas = f;
  block_hash = x;
})
decode _ = err "not decoded"

-- The world is the blobs that went in last, all at Celestia height 8; two headers come in.
abbrev pub celestia : DataLayer
celestia = record {
  World = List Bytes;
  Blob = Bytes;
  address = ok "celestia1";
  blob_new = λ x a. ok x;
  blob_data = λ b. b;
  commitment = λ b. b;
  serialize = λ b. encode b.transactions b.signatures b.logs_bloom b.extra_data b;
  deserialize = decode;
  submit = λ blobs w. (ok 8, blobs);
  blob_get_all = λ h w. (ok (some w), w);
  header_subscribe =
      λ w. (ok (record { height = 7; hash = 70 }) ∷ ok (record { height = 8; hash = 80 }) ∷ [], w);
  instant_now = λ w. (100, w);
  sleep = λ ms w. w;
  describe = λ name n e. e;
}

abbrev pub celestia_client : CelestiaClient celestia
celestia_client = record {
  world = [];
  finality_tracker = record { pending = []; celestia_finalized_height = 0 };
  finality_tx = [];
  finality_broadcast = [];
}

abbrev pub one_entry : IndexEntry
one_entry = record { block_height = 1; block_hash = 21; celestia_height = 8; commitment = [] }

abbrev print_entry : Bytes → IndexEntry → Result String String
print_entry [] e =
    if e.block_height == 1 && e.block_hash == 21 && e.celestia_height == 8
    then ok "one"
    else err "not printed"
print_entry (b ∷ bs) e = err "not printed"

abbrev same_text : String → String → Bool
same_text a b = elim (compare a b) [ Prim.Native.Nat.Ordering.eq ↦ true | _ ↦ false ]

-- The disk is the lines of the file, for the one entry that its codec knows.
abbrev pub disk : Storage
disk = record {
  Disk = List (Result String String);
  create_parent = λ d. (ok tt, d);
  exists = λ d. true;
  open_read = λ d. (ok tt, d);
  lines = λ d. d;
  open_append = λ d. (ok tt, d);
  write_all =
      λ s d. if same_text s "one\n" then (ok tt, d ++ ok "one" ∷ []) else (err "not written", d);
  flush = λ d. (ok tt, d);
  to_string = λ e. print_entry e.commitment e;
  from_str = λ s. if same_text s "one" then some one_entry else none;
}

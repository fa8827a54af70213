-- ===== src/Celestia/Client.antt =====
-- crates/celestia/src/client.rs: `CelestiaClient`. Celestia's node is code outside the repository,
-- a record of operations on a world; nothing is assumed of its answers here. Log lines are left out.
pub mod Connect
pub mod Backoff
pub mod Blobs
pub mod Retrieve
pub mod Headers
pub mod Encoding
pub mod RoundTrip
pub mod Confirm
pub mod Naming
pub mod Once
pub mod Ends
use rkb.Prelude.{ℕ, String, List, Option, Result, Action, catch_err}
use rkb.Types.Primitives.{B256, Bytes}
use rkb.Types.Block.{Block}
use rkb.Celestia.Error.{CelestiaError}
use rkb.Celestia.Finality.{Instant, FinalityTracker, FinalityConfirmation}

pub record ExtendedHeader : Type 0 where
  pub height : ℕ
  pub hash : B256

-- Lumina, celestia-rpc and bincode, as the client calls them, for the client's namespace.
pub record DataLayer : Type 1 where
  pub World : Type 0
  pub Blob : Type 0
  pub address : Result String String
  -- `Blob::new`
  pub blob_new : Bytes → String → Result String Blob
  pub blob_data : Blob → Bytes
  -- `commitment_to_bytes(blob.commitment.into())`
  pub commitment : Blob → Bytes
  pub serialize : Block → Result String Bytes
  pub deserialize : Bytes → Result String Block
  -- one transaction for all the blobs, at the configured gas price; the Celestia height
  pub submit : List Blob → World → Result String ℕ × World
  pub blob_get_all : ℕ → World → Result String (Option (List Blob)) × World
  -- one subscription: what its stream hands out until it ends
  pub header_subscribe : World → List (Result String ExtendedHeader) × World
  pub instant_now : World → Instant × World
  pub sleep : ℕ → World → World
  -- `{operation_name} failed after {attempts} attempts: {e}`
  pub describe : String → ℕ → String → String

-- The two channels are the lists of what was sent on them, oldest first. That a receiver is gone
-- is only logged.
pub record CelestiaClient (D : DataLayer) : Type 0 where
  pub world : D.World
  pub finality_tracker : FinalityTracker
  pub finality_tx : List FinalityConfirmation
  pub finality_broadcast : List FinalityConfirmation

abbrev pub Call : DataLayer → Type 0 → Type 0
Call D A = Action (CelestiaClient D) CelestiaError A

module _ {D : DataLayer} where
  abbrev pub on_world :
      {A : Type 0} → (D.World → A × D.World) → CelestiaClient D → A × CelestiaClient D
  on_world f c = let (a, w) = f c.world in (a, record c { world = w })

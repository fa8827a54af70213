-- ===== src/Consensus/Relay.antt =====
-- crates/consensus/src/runtime.rs: the block relay, which sends our proposals to the other
-- validators and hands theirs to the application.
pub mod Delivery
use rkb.Prelude.{
  ℕ, if◌then◌else◌, Bool, true, false, String, List, [], ◌∷◌, ◌++◌, Option, none, some, Result, ok,
  err,
}
use rkb.Types.Primitives.{Bytes}
use rkb.Consensus.Application.Actor.{ProposedBlock}
use rkb.Consensus.Mailbox.{Mailbox, receive_block}
use rkb.Consensus.Runtime.{PublicKey}

-- The network of commonware and bincode: `check` asks the rate limiter for the recipients that may
-- be sent to.
pub record Network : Type 1 where
  pub World : Type 0
  pub serialize : ProposedBlock → Result String Bytes
  pub deserialize : Bytes → Result String ProposedBlock
  pub check : List PublicKey → World → Result String (List PublicKey) × World
  pub send : List PublicKey → Bytes → World → Result String (Unit {0}) × World

pub data RecvError : Type 0 where
  lagged : ℕ → RecvError
  closed : RecvError

-- What `select!` wakes up for.
pub data RelayEvent : Type 0 where
  local : Result RecvError ProposedBlock → RelayEvent
  p2p : Result String (PublicKey × Bytes) → RelayEvent

module _ (N : Network) where
  unfoldable pub serialize_proposed_block : ProposedBlock → Option Bytes
  serialize_proposed_block proposed = elim (N.serialize proposed) [
    | ok bytes ↦ some bytes
    | err e ↦ none
  ]

  unfoldable pub deserialize_proposed_block : Bytes → Option ProposedBlock
  deserialize_proposed_block message = elim (N.deserialize message) [
    | ok proposed ↦ some proposed
    | err e ↦ none
  ]

  -- A failure is only logged.
  unfoldable pub send_to_recipients : List PublicKey → Bytes → N.World → N.World
  send_to_recipients recipients encoded w =
      let (r, w') = N.check recipients w in
      elim r [ ok checked ↦ (N.send checked encoded w').1 | err e ↦ w' ]

  unfoldable pub broadcast_proposed_block : List PublicKey → ProposedBlock → N.World → N.World
  unfolding send_to_recipients serialize_proposed_block
  broadcast_proposed_block participants proposed w = elim (serialize_proposed_block proposed) [
    | none ↦ w
    | some encoded ↦ send_to_recipients participants encoded w
  ]

  -- `false` ends the relay.
  unfoldable pub handle_local_block :
      List PublicKey → Result RecvError ProposedBlock → N.World → Bool × N.World
  handle_local_block participants (ok proposed) w =
      (true, broadcast_proposed_block participants proposed w)
  handle_local_block participants (err (lagged n)) w = (true, w)
  handle_local_block participants (err closed) w = (false, w)

  unfoldable pub handle_p2p_block : Result String (PublicKey × Bytes) → Mailbox → Bool × Mailbox
  unfolding deserialize_proposed_block
  handle_p2p_block (ok (sender, message)) mailbox = (
    true,
    elim (deserialize_proposed_block message) [
      | some proposed ↦ receive_block proposed.digest proposed.block proposed.payload mailbox
      | none ↦ mailbox
    ],
  )
  handle_p2p_block (err e) mailbox = (false, mailbox)

  unfoldable pub handle_event :
      List PublicKey → RelayEvent → N.World × Mailbox → Bool × N.World × Mailbox
  handle_event participants (local r) (w, mailbox) =
      let (on, w') = handle_local_block participants r w in (on, w', mailbox)
  handle_event participants (p2p r) (w, mailbox) =
      let (on, mailbox') = handle_p2p_block r mailbox in (on, w, mailbox')

  unfoldable pub run_block_relay :
      List PublicKey → List RelayEvent → N.World × Mailbox → N.World × Mailbox
  run_block_relay participants [] s = s
  run_block_relay participants (event ∷ events) s =
      let (on, w, mailbox) = handle_event participants event s in
      let rest = run_block_relay participants events (w, mailbox) in
      if on then rest else (w, mailbox)

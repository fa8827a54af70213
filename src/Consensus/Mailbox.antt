-- ===== src/Consensus/Mailbox.antt =====
-- crates/consensus/src/application.rs, `Mailbox`, and crates/consensus/src/reporter.rs: messages
-- for the application wait in a channel that holds only so many. `try_send` drops a message when
-- the channel is full or closed, and only a warning is logged.
use rkb.Prelude.{ℕ, ltb, if◌then◌else◌, ◌&&◌, Bool, List, [], ◌∷◌, ◌++◌, length}
use rkb.Types.Block.{Block}
use rkb.Execution.Payload.{BuiltPayload}
use rkb.Consensus.Application.Actor.{
  AppDigest, Message, genesis as genesis_message, propose as propose_message,
  verify as verify_message, broadcast as broadcast_message, finalize as finalize_message,
  receive_block as receive_block_message,
}

-- `capacity` is all that the channel takes, the slots of its senders included; `queue` is what
-- waits in it, oldest first.
pub record Mailbox : Type 0 where
  pub capacity : ℕ
  pub connected : Bool
  pub queue : List Message

abbrev pub try_send : Message → Mailbox → Mailbox
try_send message self =
    if self.connected && ltb (length self.queue) self.capacity
    then record self { queue = self.queue ++ message ∷ [] }
    else self

unfoldable pub finalize : AppDigest → Mailbox → Mailbox
finalize digest = try_send (finalize_message digest)

unfoldable pub receive_block : AppDigest → Block → BuiltPayload → Mailbox → Mailbox
receive_block digest block payload = try_send (receive_block_message digest block payload)

unfoldable pub genesis : ℕ → Mailbox → Mailbox
genesis epoch = try_send (genesis_message epoch)

unfoldable pub propose : Mailbox → Mailbox
propose = try_send propose_message

unfoldable pub verify : AppDigest → Mailbox → Mailbox
verify payload = try_send (verify_message payload)

unfoldable pub broadcast : AppDigest → Mailbox → Mailbox
broadcast payload = try_send (broadcast_message payload)

-- What Simplex reports. Only a finalization certificate carries on the digest of its proposal; of
-- the other reports there is only a log line.
pub data Activity : Type 0 where
  notarize notarization certification nullify nullification finalize_vote : Activity
  finalization : AppDigest → Activity
  conflicting_notarize conflicting_finalize nullify_finalize : Activity

unfoldable pub handle_activity : Activity → Mailbox → Mailbox
unfolding finalize
handle_activity (finalization payload) mailbox = finalize payload mailbox
handle_activity _ mailbox = mailbox

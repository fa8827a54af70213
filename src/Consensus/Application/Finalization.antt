-- ===== src/Consensus/Application/Finalization.antt =====
-- crates/consensus/src/application.rs: blocks from the relay, finalized blocks, and the message
-- loop.
use rkb.Prelude.{
  ℕ, ◌==◌, if◌then◌else◌, ltb, Bool, true, false, List, [], ◌∷◌, ◌++◌, Option, none, some, Result,
  ok, err,
}
use rkb.Prelude.Maps.{HashMap, lookup, contains_key, insert, remove, insert_set}
use rkb.Types.Primitives.{wrapping_add}
use rkb.Types.Block.{Block, height}
use rkb.Execution.Payload.{BuiltPayload}
use rkb.Execution.Engine.{Engine}
use rkb.Execution.Client.{apply_built_payload, import_payload}
use rkb.Consensus.Application.Actor.{
  AppDigest, Hashing, Message, genesis, propose, verify, broadcast, finalize, receive_block,
  Application, on_execution, genesis_digest, verify_digest, broadcast_digest,
}
use rkb.Consensus.Application.Proposal.{propose_block}

-- The keys of the entries below a height.
abbrev pub stale_digests : ℕ → HashMap Block → List AppDigest
stale_digests limit [] = []
stale_digests limit ((digest, block) ∷ m) =
    if ltb (height block) limit then digest ∷ stale_digests limit m else stale_digests limit m

abbrev pub remove_all {ℓ} : {V : Type ℓ} → List AppDigest → HashMap V → HashMap V
remove_all [] m = m
remove_all (digest ∷ ds) m = remove_all ds (remove digest m)

abbrev pub succeeded {ℓ κ} : {X : Type κ} {A : Type ℓ} → Result X A → Bool
succeeded (ok _) = true
succeeded (err _) = false

-- What a message is answered with, if it is.
pub data Reply : Type 0 where
  sent_digest : AppDigest → Reply
  verdict : Bool → Reply
  silent : Reply

module _ {E : Engine} where
  unfoldable pub apply_to_reth : Option BuiltPayload → Application E → Application E
  apply_to_reth none self = self
  apply_to_reth (some payload) self = (on_execution (apply_built_payload payload) self).1

  unfoldable pub cleanup_stale_blocks : Application E → Application E
  cleanup_stale_blocks self =
      let stale = stale_digests self.height self.pending_blocks in
      record self {
        pending_blocks = remove_all stale self.pending_blocks;
        pending_payloads = remove_all stale self.pending_payloads;
      }

  unfoldable pub broadcast_finalized : Block → Application E → Application E
  broadcast_finalized block self = record self { block_sender = self.block_sender ++ block ∷ [] }

  unfoldable pub is_valid_height : Application E → Block → Bool
  is_valid_height self block = height block == self.height

  unfoldable pub drop_payload : AppDigest → Application E → Application E
  drop_payload digest self = record self { pending_payloads = remove digest self.pending_payloads }

  -- The steps for a block at the expected height, already taken out of the pending blocks.
  unfoldable pub commit_block : AppDigest → Block → Application E → Application E
  unfolding broadcast_finalized drop_payload
  commit_block digest block self =
      let payload = lookup digest self.pending_payloads in
      let applied = apply_to_reth payload (drop_payload digest self) in
      broadcast_finalized block (
        cleanup_stale_blocks
          (record applied { height = wrapping_add (height block) 1; last_hash = block.block_hash }))

  -- The steps after the test of the height.
  unfoldable pub finalize_checked :
      AppDigest → Block → Bool → Application E → Option Block × Application E
  finalize_checked digest block true self = (some block, commit_block digest block self)
  finalize_checked digest block false self = (none, drop_payload digest self)

  -- The steps after `pending_blocks.remove`, which has handed out the block.
  unfoldable pub finalize_found :
      AppDigest → Option Block → Application E → Option Block × Application E
  finalize_found digest none self = (none, drop_payload digest self)
  finalize_found digest (some block) self =
      finalize_checked digest block (is_valid_height self block) self

  unfoldable pub finalize_block : AppDigest → Application E → Option Block × Application E
  finalize_block digest self =
      finalize_found digest (lookup digest self.pending_blocks)
        (record self { pending_blocks = remove digest self.pending_blocks })

  unfoldable pub handle_receive_block :
      AppDigest → Block → BuiltPayload → Application E → Application E
  handle_receive_block digest block payload self =
      if contains_key digest self.pending_blocks
      then self
      else (let (r, self') = on_execution (import_payload payload) self in
          record self' {
            pending_blocks = insert digest block self'.pending_blocks;
            pending_payloads = insert digest payload self'.pending_payloads;
            verified = if succeeded r then insert_set digest self'.verified else self'.verified;
          })

  unfoldable pub process_message : Hashing → Message → Application E → Reply × Application E
  process_message hash (genesis epoch) self =
      let (d, self') = genesis_digest hash epoch self in (sent_digest d, self')
  process_message hash propose self =
      let (d, self') = propose_block hash self in (sent_digest d, self')
  process_message hash (verify payload) self =
      let (v, self') = verify_digest payload self in (verdict v, self')
  process_message hash (broadcast payload) self = (silent, broadcast_digest payload self)
  process_message hash (finalize d) self = (silent, (finalize_block d self).1)
  process_message hash (receive_block d block payload) self =
      (silent, handle_receive_block d block payload self)

  -- The actor's loop, until the mailbox is closed.
  unfoldable pub run : Hashing → List Message → Application E → Application E
  run hash [] self = self
  run hash (message ∷ messages) self = run hash messages (process_message hash message self).1

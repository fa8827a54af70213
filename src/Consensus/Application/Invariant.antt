-- ===== src/Consensus/Application/Invariant.antt =====
-- The invariant of the actor of crates/consensus/src/application.rs is kept by every message.
mod Defs
mod Finalize
mod Requests
pub use Defs.{IsValid, proposed_now, new-IsValid}
pub use Requests.{handle_receive_block-IsValid}
use rkb.Prelude.{
  ℕ, suc, ◌+◌, ◌≤◌, ◌≡◌, refl, ◌∙◌, sym, ap, ◌==◌, if◌then◌else◌, Bool, true, false, List, [], ◌∷◌,
  ◌++◌, Option, none, some, arith, length, length-append, inl, inr, ==_iff, Bool-cases, if_same,
  subst,
}
use rkb.Prelude.Maps.{
  lookup, remove, insert, HashSet, insert_set, contains_key, IsMap, insert-IsMap, remove-IsMap,
}
use rkb.Types.Primitives.{B256, wrapping_add}
use rkb.Types.Block.{Block, height}
use rkb.Execution.Payload.{BuiltPayload}
use rkb.Execution.Engine.{Engine}
use rkb.Execution.Client.{import_payload}
use rkb.Consensus.Application.Actor.{
  AppDigest, Hashing, Message, genesis, propose, verify, broadcast, finalize, receive_block,
  ApplicationConfig, Application, new, genesis_digest, verify_digest, broadcast_digest,
  null_proposal, on_execution, build_block_from_payload, compute_digest, ProposedBlock,
}
use rkb.Consensus.Application.Proposal.{
  already_proposed_at_height, complete_proposal, broadcast_to_relay, propose_block,
}
use rkb.Consensus.Application.Finalization.{
  stale_digests, apply_to_reth, cleanup_stale_blocks, broadcast_finalized, is_valid_height,
  drop_payload, commit_block, finalize_checked, finalize_found, finalize_block,
  handle_receive_block, process_message, run,
}
use rkb.Consensus.Application.Lookup.{remove_all-IsMap}
use rkb.Consensus.Application.Chain.{
  Consecutive, tip, Consecutive-append, tip-append, Paired, Paired-insert, Paired-remove,
  Paired-remove_all,
}
use rkb.Consensus.Application.Frames.{SameActor, Proposed, propose_block-Proposed}
use Finalize.{finalize_block-IsValid}
use Requests.{verify_digest-IsValid, propose_block-IsValid}
use Defs.{verified-IsValid}

module _ {E : Engine} {config : ApplicationConfig E} where
  pub process_message-IsValid :
      (hash : Hashing) (message : Message) (self : Application E)
      → IsValid config self
      → IsValid config (process_message hash message self).1
  unfolding process_message genesis_digest broadcast_digest
  process_message-IsValid hash (genesis epoch) self v = verified-IsValid _ self v
  process_message-IsValid hash propose self v = propose_block-IsValid hash self v
  process_message-IsValid hash (verify d) self v = verify_digest-IsValid d self v
  process_message-IsValid hash (broadcast d) self v = v
  process_message-IsValid hash (finalize d) self v = finalize_block-IsValid d self v
  process_message-IsValid hash (receive_block d block payload) self v =
      handle_receive_block-IsValid d block payload self v

  pub run-IsValid :
      (hash : Hashing) (messages : List Message) (self : Application E)
      → IsValid config self
      → IsValid config (run hash messages self)
  unfolding run
  run-IsValid hash [] self v = v
  run-IsValid hash (message ∷ messages) self v =
      run-IsValid hash messages _ (process_message-IsValid hash message self v)

module _ {E : Engine} (config : ApplicationConfig E) where
  -- From its start the actor keeps the invariant, whatever messages come in: its two maps hold the
  -- same digests, each once; the finalized blocks have consecutive heights from the initial one up
  -- to the next height; `last_hash` is the hash of the last of them; and no more proposals were
  -- relayed than blocks finalized, plus one for a proposal at the present height.
  pub run-new-IsValid :
      (hash : Hashing) (messages : List Message) → IsValid config (run hash messages (new config))
  run-new-IsValid hash messages = run-IsValid hash messages (new config) (new-IsValid config)

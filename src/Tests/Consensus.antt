-- ===== src/Tests/Consensus.antt =====
-- Runs of the actor of crates/consensus/src/application.rs and of leader election.
use rkb.Prelude.{ℕ, ◌≡◌, ◌≢◌, ◌<◌, refl, ◌+◌, true, ◌==◌, List, [], ◌∷◌, none, some, arith}
use rkb.Prelude.Maps.{lookup, contains, remove}
use rkb.Types.Primitives.{wrapping_add}
use rkb.Types.Block
use rkb.Types.Block.{Block, height}
use rkb.Execution.Payload.{BuiltPayload}
use rkb.Execution.Client.{apply_built_payload, get_head, request, client as connect}
use rkb.Consensus.Leader.{is_leader, is_leader_rotates}
use rkb.Consensus.Application.Actor.{
  AppDigest, Application, Message, genesis, propose, finalize, null_proposal, new,
  build_block_from_payload, compute_digest,
}
use rkb.Consensus.Application.Proposal.{
  propose_block, wait_for_reth_sync, sync_loop, query_reth_head, check_sync_state, propose_synced,
  can_build_block, wall_clock_timestamp, propose_timed, build_via_reth, complete_or_null,
  complete_proposal, broadcast_to_relay, already_proposed_at_height,
}
use rkb.Execution.Client.Building.{
  start_building, call_forkchoice_with_attributes, extract_payload_id, get_payload,
}
use rkb.Consensus.Application.Finalization.{finalize_block, handle_receive_block, run}
use rkb.Consensus.Application.Invariant.{IsValid, run-new-IsValid}
use rkb.Consensus.Application.Outcomes.{
  kept, finalize_block_commits, finalize_block_ignores, finalize_block-handle_receive_block,
}
use rkb.Consensus.Application.Proposals.{propose_block-once}
use rkb.Tests.Fixtures.{reth, client, hashing, config, one_payload, one_block}

is_leader_rotates_example :
    (d : ℕ) × (d < 3)
    × (is_leader 2 (10 + d) 3 ≡ some true)
    × ((e : ℕ) → e < 3 → is_leader 2 (10 + e) 3 ≡ some true → e ≡ d)
is_leader_rotates_example = is_leader_rotates 2 3 10 (omega arith)

abbrev messages : List Message
messages = genesis 1 ∷ propose ∷ finalize 21 ∷ propose ∷ []

run-new-IsValid_example : IsValid config (run hashing messages (new config))
run-new-IsValid_example = run-new-IsValid config hashing messages

-- The actor at its start, and after its first proposal.
abbrev pub actor : Application reth
actor = record {
  execution = client;
  pending_blocks = [];
  pending_payloads = [];
  verified = [];
  block_sender = [];
  block_relay_sender = [];
  height = 1;
  last_hash = 20;
  proposer = 5;
  last_proposed_height = none;
  block_timing = config.block_timing;
}

abbrev holding : Application reth
holding = record actor {
  pending_blocks = (21, one_block) ∷ [];
  pending_payloads = (21, one_payload) ∷ [];
}

holding-IsValid : IsValid config holding
holding-IsValid = record {
  blocks_map = (refl, tt);
  payloads_map = (refl, tt);
  paired = λ d. ground arith;
  chain = refl;
  last = refl;
  relayed = ground arith;
}

finalize_block_commits_example :
    let (finalized, self') = finalize_block 21 holding in
    (finalized ≡ some one_block)
    × (self'.block_sender ≡ one_block ∷ [])
    × ((payload : BuiltPayload) × (lookup 21 holding.pending_payloads ≡ some payload)
        × (self'.execution ≡ (apply_built_payload payload client).1))
    × (self'.height ≡ wrapping_add 1 1)
    × (self'.last_hash ≡ 21)
    × ((e : AppDigest)
        → lookup e self'.pending_blocks
          ≡ kept (wrapping_add 1 1) (21 == e) (lookup e holding.pending_blocks))
finalize_block_commits_example =
    finalize_block_commits 21 one_block holding holding-IsValid refl refl

finalize_block_ignores_example : finalize_block 22 holding ≡ (
  none,
  record holding {
    pending_blocks = remove 22 holding.pending_blocks;
    pending_payloads = remove 22 holding.pending_payloads;
  },
)
finalize_block_ignores_example =
    finalize_block_ignores 22 holding (λ block found. absurd (ground (arith, found)))

pub actor-IsValid : IsValid config actor
actor-IsValid = record {
  blocks_map = tt;
  payloads_map = tt;
  paired = λ d. refl;
  chain = refl;
  last = refl;
  relayed = ground arith;
}

finalize_block-handle_receive_block_example :
    let (finalized, self') =
      finalize_block 21 (handle_receive_block 21 one_block one_payload actor) in
    (finalized ≡ some one_block) × (self'.block_sender ≡ one_block ∷ []) × (self'.last_hash ≡ 21)
finalize_block-handle_receive_block_example =
    finalize_block-handle_receive_block 21 one_block one_payload actor actor-IsValid refl refl

actor_proposes : (propose_block hashing actor).0 ≢ null_proposal
unfolding propose_block wait_for_reth_sync sync_loop query_reth_head get_head request connect
    check_sync_state propose_synced can_build_block wall_clock_timestamp propose_timed
    build_via_reth start_building call_forkchoice_with_attributes extract_payload_id get_payload
    complete_or_null complete_proposal broadcast_to_relay build_block_from_payload Block.new
    compute_digest already_proposed_at_height
actor_proposes h = ground arith

propose_block-once_example :
    let (d, self') = propose_block hashing actor in
    ((payload : BuiltPayload) × (d ≡ compute_digest hashing payload.block_hash)
      × (lookup d self'.pending_blocks ≡ some (build_block_from_payload payload))
      × (lookup d self'.pending_payloads ≡ some payload)
      × (contains d self'.verified ≡ true)
      × (self'.block_relay_sender
          ≡ record { digest = d; block = build_block_from_payload payload; payload = payload }
            ∷ []))
    × (propose_block hashing self' ≡ (null_proposal, self'))
propose_block-once_example = propose_block-once hashing actor actor_proposes

-- Consensus expects block 30 at height 1, reth is at block 20.
abbrev astray : Application reth
astray = record actor { last_hash = 30 }

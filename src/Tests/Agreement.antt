-- ===== src/Tests/Agreement.antt =====
-- Two validators with the actor of crates/consensus/src/application.rs.
use rkb.Prelude.{◌≡◌, refl, [], ◌∷◌, arith}
use rkb.Types.Block.{Block}
use rkb.Execution.Payload.{BuiltPayload}
use rkb.Consensus.Application.Actor.{finalize, receive_block}
use rkb.Consensus.Application.Finalization.{run}
use rkb.Consensus.Agreement.Divergence.{run_diverges}
use rkb.Tests.Fixtures.{hashing, one_payload, one_block}
use rkb.Tests.Consensus.{actor, actor-IsValid}

-- Another block of height 1.
abbrev other_block : Block
other_block = record one_block { block_hash = 22 }

abbrev other_payload : BuiltPayload
other_payload = record one_payload { block_hash = 22 }

run_diverges_example :
    let late = receive_block 22 other_block other_payload ∷ finalize 21 ∷ finalize 22 ∷ [] in
    ((run hashing (receive_block 21 one_block one_payload ∷ late) actor).block_sender
      ≡ one_block ∷ [])
    × ((run hashing late actor).block_sender ≡ other_block ∷ [])
run_diverges_example =
    run_diverges hashing actor 21 22 one_block other_block one_payload other_payload actor-IsValid
      (λ e. ground (arith, e)) refl refl refl refl

-- ===== src/Tests/System.antt =====
-- A validator and its tasks, and one that missed a block.
use rkb.Prelude.{refl, true, List, [], ◌∷◌, ◌⊎◌, ok, arith}
use rkb.Consensus.Application.Actor.{Message, finalize, receive_block, new}
use rkb.Consensus.Application.Finalization.{run}
use rkb.Consensus.Mailbox.{finalization}
use rkb.Consensus.Agreement.{IsPrefix}
use rkb.Consensus.Agreement.Steps.{Names}
use rkb.Consensus.System.{Validator, Steps, arrive, report, handle, deliver, here, next}
use rkb.Consensus.System.Laws.{Reached, start, Steps-Reached}
use rkb.Consensus.System.Agreement.{delivered_agreement}
use rkb.Tests.Fixtures.{reth, hashing, config, one_block, one_payload}
use rkb.Tests.Relay.{network, one_message}

abbrev handled : List Message
handled = receive_block 21 one_block one_payload ∷ finalize 21 ∷ []

-- The block arrived, was finalized and was delivered.
abbrev complete : Validator network reth
complete = record {
  actor = run hashing handled (new config);
  mailbox = record { capacity = 2; connected = true; queue = [] };
  network = [];
  relayed = [];
  delivered = one_block ∷ [];
}

steps : Steps hashing (7 ∷ 8 ∷ []) (start hashing config 2 []) (21 ∷ []) complete
unfolding new rkb.Consensus.Application.Finalization.apply_to_reth
    rkb.Consensus.Application.Finalization.cleanup_stale_blocks
    rkb.Consensus.Application.Finalization.commit_block
    rkb.Consensus.Application.Finalization.finalize_block
    rkb.Consensus.Application.Finalization.finalize_checked
    rkb.Consensus.Application.Finalization.finalize_found
    rkb.Consensus.Application.Finalization.handle_receive_block
    rkb.Consensus.Application.Finalization.is_valid_height
    rkb.Consensus.Application.Finalization.process_message rkb.Consensus.Mailbox.handle_activity
    rkb.Consensus.Mailbox.receive_block rkb.Consensus.Relay.handle_p2p_block run
steps =
    next
      (next
        (next (next (next here (arrive (ok (9, one_message)))) (report (finalization 21)))
          (handle (receive_block 21 one_block one_payload) (finalize 21 ∷ []) refl))
        (handle (finalize 21) [] refl))
      (deliver one_block [] refl)

Steps-Reached_example : Reached hashing config (21 ∷ []) complete
Steps-Reached_example = Steps-Reached hashing config (7 ∷ 8 ∷ []) 2 [] (21 ∷ []) complete steps

-- The finalization came before the block.
abbrev missing : Validator network reth
missing = record {
  actor = run hashing (finalize 21 ∷ []) (new config);
  mailbox = record { capacity = 2; connected = true; queue = [] };
  network = [];
  relayed = [];
  delivered = [];
}

complete_sent : IsPrefix (one_block ∷ []) (run hashing handled (new config)).block_sender
unfolding new rkb.Consensus.Application.Finalization.apply_to_reth
    rkb.Consensus.Application.Finalization.cleanup_stale_blocks
    rkb.Consensus.Application.Finalization.commit_block
    rkb.Consensus.Application.Finalization.finalize_block
    rkb.Consensus.Application.Finalization.finalize_checked
    rkb.Consensus.Application.Finalization.finalize_found
    rkb.Consensus.Application.Finalization.handle_receive_block
    rkb.Consensus.Application.Finalization.is_valid_height
    rkb.Consensus.Application.Finalization.process_message run
complete_sent = ([], refl)

abbrev complete_reached : Reached hashing config (21 ∷ []) complete
complete_reached = record {
  messages = handled;
  ran = refl;
  bounded = omega arith;
  reported = λ d h. h;
  in_order = complete_sent;
}

abbrev missing_reached : Reached hashing config (21 ∷ []) missing
missing_reached = record {
  messages = finalize 21 ∷ [];
  ran = refl;
  bounded = omega arith;
  reported = λ d h. h;
  in_order = (missing.actor.block_sender, refl);
}

complete_named : Names (λ d. one_block) handled complete.actor
unfolding new rkb.Consensus.Application.Finalization.apply_to_reth
    rkb.Consensus.Application.Finalization.cleanup_stale_blocks
    rkb.Consensus.Application.Finalization.commit_block
    rkb.Consensus.Application.Finalization.finalize_block
    rkb.Consensus.Application.Finalization.finalize_checked
    rkb.Consensus.Application.Finalization.finalize_found
    rkb.Consensus.Application.Finalization.handle_receive_block
    rkb.Consensus.Application.Finalization.is_valid_height
    rkb.Consensus.Application.Finalization.process_message run
complete_named = ((refl, (tt, tt)), tt)

missing_named : Names (λ d. one_block) (finalize 21 ∷ []) missing.actor
unfolding new rkb.Consensus.Application.Finalization.drop_payload
    rkb.Consensus.Application.Finalization.finalize_block
    rkb.Consensus.Application.Finalization.finalize_found
    rkb.Consensus.Application.Finalization.process_message run
missing_named = ((tt, tt), tt)

delivered_agreement_example :
    IsPrefix complete.delivered missing.delivered ⊎ IsPrefix missing.delivered complete.delivered
delivered_agreement_example =
    delivered_agreement (λ d. one_block) hashing hashing config config (21 ∷ []) (21 ∷ []) complete
      missing complete_reached missing_reached refl (λ d e i j h. refl) complete_named missing_named

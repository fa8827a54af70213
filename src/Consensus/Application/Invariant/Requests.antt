-- ===== src/Consensus/Application/Invariant/Requests.antt =====
-- `verify`, `propose` and `handle_receive_block` of crates/consensus/src/application.rs keep the
-- invariant.
use rkb.Prelude.{
  ◌≡◌, refl, ◌∙◌, ap, ◌==◌, false, [], ◌∷◌, arith, length-append, inl, inr, Bool-cases, if_same,
  subst,
}
use rkb.Prelude.Maps.{insert_set, contains_key}
use rkb.Types.Block.{Block}
use rkb.Execution.Payload.{BuiltPayload}
use rkb.Execution.Engine.{Engine}
use rkb.Execution.Client.{import_payload}
use rkb.Consensus.Application.Actor.{
  AppDigest, Hashing, ApplicationConfig, Application, verify_digest, null_proposal, on_execution,
  build_block_from_payload, compute_digest, ProposedBlock,
}
use rkb.Consensus.Application.Proposal.{
  already_proposed_at_height, complete_proposal, propose_block,
}
use rkb.Consensus.Application.Finalization.{handle_receive_block}
use rkb.Consensus.Application.Frames.{propose_block-Proposed}
use rkb.Consensus.Application.Invariant.Defs.{
  IsValid, SameActor-IsValid, verified-IsValid, inserted-IsValid,
}

module _ {E : Engine} {config : ApplicationConfig E} where
  pub verify_digest-IsValid :
      (d : AppDigest) (self : Application E)
      → IsValid config self
      → IsValid config (verify_digest d self).1
  unfolding verify_digest
  verify_digest-IsValid d self v = elim (Bool-cases (d == null_proposal)) [
    | inl is_null ↦ rw is_null v
    | inr other ↦
        let w = verified-IsValid (insert_set d self.verified) self v in rw (other, if_same) w
  ]

  pub handle_receive_block-IsValid :
      (d : AppDigest) (block : Block) (payload : BuiltPayload) (self : Application E)
      → IsValid config self
      → IsValid config (handle_receive_block d block payload self)
  unfolding handle_receive_block
  handle_receive_block-IsValid d block payload self v =
      elim (Bool-cases (contains_key d self.pending_blocks)) [
        | inl old ↦ rw old v
        | inr fresh ↦
            let (r, called) = on_execution (import_payload payload) self in
            rw fresh (
              verified-IsValid _ _
                (inserted-IsValid d block payload called (SameActor-IsValid self called refl v)))
      ]

  complete_proposal-IsValid :
      (hash : Hashing) (payload : BuiltPayload) (self : Application E)
      → IsValid config self
      → already_proposed_at_height self ≡ false
      → IsValid config (complete_proposal hash payload self).1
  unfolding complete_proposal already_proposed_at_height
  complete_proposal-IsValid hash payload self v fresh =
      let block = build_block_from_payload payload in
      let d = compute_digest hash block.block_hash in
      let w = inserted-IsValid d block payload self v in
      let sent : ProposedBlock = record { digest = d; block = block; payload = payload } in
      record {
        blocks_map = w.blocks_map;
        payloads_map = w.payloads_map;
        paired = w.paired;
        chain = v.chain;
        last = v.last;
        relayed = ground (arith, v.relayed, length-append {0} self.block_relay_sender (sent ∷ []));
      }

  pub propose_block-IsValid :
      (hash : Hashing) (self : Application E)
      → IsValid config self
      → IsValid config (propose_block hash self).1
  unfolding already_proposed_at_height
  propose_block-IsValid hash self v = elim (propose_block-Proposed hash self) [
    | inl (is_null, same) ↦ SameActor-IsValid self _ same v
    | inr (payload, before, same, fresh, e) ↦
        subst (λ (p : AppDigest × Application E). IsValid config p.1) e
          (complete_proposal-IsValid hash payload before (SameActor-IsValid self before same v)
            (ap already_proposed_at_height same ∙ fresh))
  ]

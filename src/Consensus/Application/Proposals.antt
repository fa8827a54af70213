-- ===== src/Consensus/Application/Proposals.antt =====
-- crates/consensus/src/application.rs: when a proposal is a block and when it is the null proposal,
-- and that the block says what the payload says.
use rkb.Prelude.{
  ◌≡◌, ◌≢◌, refl, ap, ◌==◌, ◌||◌, ◌&&◌, true, List, [], ◌∷◌, ◌++◌, ◌↔◌, some, arith, inl, inr,
  Bool-cases, subst,
}
use rkb.Prelude.Maps.{lookup, contains, lookup-insert, contains-insert_set}
use rkb.Types.Transaction
use rkb.Types.Block
use rkb.Types.Block.{Block}
use rkb.Execution.Payload.{BuiltPayload}
use rkb.Execution.Engine.{Engine}
use rkb.Consensus.Application.Actor.{
  AppDigest, Hashing, ProposedBlock, Application, null_proposal, build_block_from_payload,
  compute_digest, verify_digest,
}
use rkb.Consensus.Application.Proposal.{
  already_proposed_at_height, complete_proposal, propose_block,
}
use rkb.Consensus.Application.Frames.{propose_block-Proposed}

module _ {E : Engine} where
  -- What holds after a proposal that was completed.
  abbrev Completed : Hashing → List ProposedBlock → AppDigest × Application E → Type 0
  Completed hash relayed (d, self') =
      ((payload : BuiltPayload) × (d ≡ compute_digest hash payload.block_hash)
        × (lookup d self'.pending_blocks ≡ some (build_block_from_payload payload))
        × (lookup d self'.pending_payloads ≡ some payload)
        × (contains d self'.verified ≡ true)
        × (self'.block_relay_sender
            ≡ relayed
              ++ record { digest = d; block = build_block_from_payload payload; payload = payload }
                ∷ []))
      × (propose_block hash self' ≡ (null_proposal, self'))

  complete_proposal-Completed :
      (hash : Hashing) (payload : BuiltPayload) (self : Application E)
      → Completed hash self.block_relay_sender (complete_proposal hash payload self)
  unfolding complete_proposal propose_block already_proposed_at_height build_block_from_payload
      Block.new
  complete_proposal-Completed hash payload self =
      let d = compute_digest hash payload.block_hash in
      let block = build_block_from_payload payload in
      (
        (
          payload,
          refl,
          ground (arith, lookup-insert d d block self.pending_blocks),
          ground (arith, lookup-insert d d payload self.pending_payloads),
          ground (arith, contains-insert_set d d self.verified),
          refl,
        ),
        ground arith,
      )

  -- A proposal that is no null proposal has put its block and payload into the pending maps, has
  -- counted its digest as verified, and has sent both to the relay; a second proposal at the same
  -- height is the null proposal and changes nothing.
  pub propose_block-once :
      (hash : Hashing) (self : Application E)
      → let (d, self') = propose_block hash self in
        d ≢ null_proposal
        → ((payload : BuiltPayload) × (d ≡ compute_digest hash payload.block_hash)
            × (lookup d self'.pending_blocks ≡ some (build_block_from_payload payload))
            × (lookup d self'.pending_payloads ≡ some payload)
            × (contains d self'.verified ≡ true)
            × (self'.block_relay_sender
                ≡ self.block_relay_sender
                  ++ record {
                    digest = d;
                    block = build_block_from_payload payload;
                    payload = payload;
                  }
                    ∷ []))
          × (propose_block hash self' ≡ (null_proposal, self'))
  propose_block-once hash self real = elim (propose_block-Proposed hash self) [
    | inl (is_null, same) ↦ absurd (real is_null)
    | inr (payload, before, same, fresh, e) ↦
        let relayed = ap (λ (x : Application E). x.block_relay_sender) same in
        subst (λ r. Completed hash r (propose_block hash self)) relayed
          (subst (Completed hash before.block_relay_sender) e
            (complete_proposal-Completed hash payload before))
  ]

  -- A digest is refused exactly if it is the null proposal, and an accepted one is recorded.
  pub verify_digest_iff :
      (d : AppDigest) (self : Application E)
      → let (accepted, self') = verify_digest d self in
        ((accepted ≡ true) ↔ (d ≢ null_proposal))
        × ((e : AppDigest)
            → contains e self'.verified ≡ (accepted && d == e || contains e self.verified))
  unfolding verify_digest
  verify_digest_iff d self = elim (Bool-cases (d == null_proposal)) [
    | inl is_null ↦ (ground arith, λ e. ground (arith, is_null))
    | inr real ↦ (ground arith, λ e. ground (arith, real, contains-insert_set d e self.verified))
  ]

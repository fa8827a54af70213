-- ===== src/Consensus/Application/Invariant/Finalize.antt =====
-- `finalize` of crates/consensus/src/application.rs keeps the invariant.
use rkb.Prelude.{
  ◌≤◌, ◌≡◌, refl, ◌∙◌, sym, ap, Bool, true, false, [], ◌∷◌, Option, none, some, arith,
  length-append, ==_iff,
}
use rkb.Prelude.Maps.{lookup}
use rkb.Types.Primitives.{wrapping_add}
use rkb.Types.Block.{Block, height}
use rkb.Execution.Payload.{BuiltPayload}
use rkb.Execution.Engine.{Engine}
use rkb.Consensus.Application.Actor.{AppDigest, ApplicationConfig, Application}
use rkb.Consensus.Application.Finalization.{
  stale_digests, apply_to_reth, cleanup_stale_blocks, broadcast_finalized, is_valid_height,
  drop_payload, commit_block, finalize_checked, finalize_found, finalize_block,
}
use rkb.Consensus.Application.Lookup.{remove_all-IsMap}
use rkb.Consensus.Application.Chain.{Consecutive-append, tip-append, Paired-remove_all}
use rkb.Consensus.Application.Frames.{SameActor}
use rkb.Consensus.Application.Invariant.Defs.{
  IsValid, proposed_now, SameActor-IsValid, removed-IsValid,
}

module _ {E : Engine} where
  apply_to_reth-SameActor :
      (payload : Option BuiltPayload) (self : Application E)
      → SameActor self (apply_to_reth payload self)
  unfolding apply_to_reth
  apply_to_reth-SameActor none self = refl
  apply_to_reth-SameActor (some payload) self = refl

  proposed_now-le : (self : Application E) → proposed_now self ≤ 1
  proposed_now-le self = ground arith

module _ {E : Engine} {config : ApplicationConfig E} where
  -- What remains to be done once the payload is applied.
  advance-IsValid :
      (block : Block) (self : Application E)
      → IsValid config self
      → height block ≡ self.height
      → IsValid config (
          broadcast_finalized block (
            cleanup_stale_blocks (record self {
              height = wrapping_add (height block) 1;
              last_hash = block.block_hash;
            })))
  unfolding broadcast_finalized cleanup_stale_blocks
  advance-IsValid block self v e =
      let stale = stale_digests (wrapping_add (height block) 1) self.pending_blocks in
      record {
        blocks_map = remove_all-IsMap stale self.pending_blocks v.blocks_map;
        payloads_map = remove_all-IsMap stale self.pending_payloads v.payloads_map;
        paired = Paired-remove_all stale self.pending_blocks self.pending_payloads v.paired;
        chain =
            Consecutive-append config.initial_height self.block_sender self.height block v.chain e;
        last = sym (tip-append config.initial_hash self.block_sender block);
        relayed = omega (
          arith,
          v.relayed,
          proposed_now-le self,
          length-append {0} self.block_sender (block ∷ []),
        );
      }

  finalize_checked-IsValid :
      (d : AppDigest) (block : Block) (b : Bool) (self : Application E)
      → IsValid config (drop_payload d self)
      → (b ≡ true → height block ≡ self.height)
      → IsValid config (finalize_checked d block b self).1
  unfolding finalize_checked commit_block
  finalize_checked-IsValid d block false self v e = v
  finalize_checked-IsValid d block true self v e =
      let dropped = drop_payload d self in
      let applied = apply_to_reth (lookup d self.pending_payloads) dropped in
      let same = apply_to_reth-SameActor (lookup d self.pending_payloads) dropped in
      advance-IsValid block applied (SameActor-IsValid dropped applied same v)
        (e refl ∙ sym (ap (λ (x : Application E). x.height) same))

  finalize_found-IsValid :
      (d : AppDigest) (found : Option Block) (self : Application E)
      → IsValid config (drop_payload d self)
      → IsValid config (finalize_found d found self).1
  unfolding finalize_found is_valid_height
  finalize_found-IsValid d none self v = v
  finalize_found-IsValid d (some block) self v =
      finalize_checked-IsValid d block _ self v (==_iff (height block) self.height).0

  pub finalize_block-IsValid :
      (d : AppDigest) (self : Application E)
      → IsValid config self
      → IsValid config (finalize_block d self).1
  unfolding finalize_block drop_payload
  finalize_block-IsValid d self v =
      finalize_found-IsValid d (lookup d self.pending_blocks) _ (removed-IsValid d self v)

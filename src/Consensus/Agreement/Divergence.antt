-- ===== src/Consensus/Agreement/Divergence.antt =====
-- crates/consensus/src/application.rs: what happens when consensus finalizes two blocks of one
-- height.
use rkb.Prelude.{
  ℕ, ◌≡◌, ◌≢◌, sym, ◌∙◌, ap, ◌==◌, if◌then◌else◌, false, [], ◌∷◌, ◌++◌, Option, some, arith,
}
use rkb.Prelude.Maps.{lookup, lookup-insert, lookup-remove, contains_key}
use rkb.Types.Primitives.{wrapping_add}
use rkb.Types.Block.{Block, height}
use rkb.Execution.Payload.{BuiltPayload}
use rkb.Execution.Engine.{Engine}
use rkb.Consensus.Application.Actor.{
  AppDigest, Hashing, finalize, receive_block, ApplicationConfig, Application,
}
use rkb.Consensus.Application.Finalization.{
  finalize_block, handle_receive_block, process_message, run,
}
use rkb.Consensus.Application.Invariant.{
  IsValid, process_message-IsValid, handle_receive_block-IsValid,
}
use rkb.Consensus.Application.Outcomes.{finalize_block_commits, finalize_block_ignores}

-- The next height is another one, also where it wraps.
wrapping_add-ne : (h : ℕ) → wrapping_add h 1 ≢ h
wrapping_add-ne h e = omega (arith, e)

module _ {E : Engine} where
  received_frame :
      (x : AppDigest) (b : Block) (p : BuiltPayload) (self : Application E)
      → contains_key x self.pending_blocks ≡ false
      → let self' = handle_receive_block x b p self in
        (self'.block_sender ≡ self.block_sender)
        × (self'.height ≡ self.height)
        × ((y : AppDigest)
            → lookup y self'.pending_blocks
              ≡ (if x == y then some b else lookup y self.pending_blocks))
  unfolding handle_receive_block
  received_frame x b p self new = (
    ground (arith, new),
    ground (arith, new),
    λ y. ground (arith, new, lookup-insert x y b self.pending_blocks),
  )

  -- The digest of a second block of the height just finalized.
  second_ignored :
      {config : ApplicationConfig E} (d e : AppDigest) (block other : Block) (self : Application E)
      → IsValid config self
      → lookup d self.pending_blocks ≡ some block
      → lookup e self.pending_blocks ≡ some other
      → height block ≡ self.height
      → height other ≡ self.height
      → (finalize_block e (finalize_block d self).1).1.block_sender
        ≡ self.block_sender ++ block ∷ []
  second_ignored d e block other self v found found' here here' =
      let self' = (finalize_block d self).1 in
      let (_, sent, _, next, _, left) = finalize_block_commits d block self v found here in
      let past = finalize_block_ignores e self' λ b has same.
        wrapping_add-ne self.height (ground (arith, left e, has, found', same, next, here')) in
      rw past sent

module _ {E : Engine} {config : ApplicationConfig E} where
  -- A validator has two blocks of the height that it expects, and consensus finalizes both, one
  -- after the other. If both had arrived, its chain goes on with the first. If the first was lost
  -- on the relay, its chain goes on with the second: validators that differ in what they received
  -- end up with different blocks at this height.
  pub run_diverges :
      (hash : Hashing) (self : Application E) (d e : AppDigest) (block other : Block)
      (payload payload' : BuiltPayload)
      → IsValid config self
      → d ≢ e
      → contains_key d self.pending_blocks ≡ false
      → contains_key e self.pending_blocks ≡ false
      → height block ≡ self.height
      → height other ≡ self.height
      → let late = receive_block e other payload' ∷ finalize d ∷ finalize e ∷ [] in
        ((run hash (receive_block d block payload ∷ late) self).block_sender
          ≡ self.block_sender ++ block ∷ [])
        × ((run hash late self).block_sender ≡ self.block_sender ++ other ∷ [])
  unfolding run process_message
  run_diverges hash self d e block other payload payload' v distinct fresh fresh' here here' =
      let one = handle_receive_block d block payload self in
      let v1 = handle_receive_block-IsValid d block payload self v in
      let (sent1, h1, has1) = received_frame d block payload self fresh in
      let two = handle_receive_block e other payload' one in
      let v2 = handle_receive_block-IsValid e other payload' one v1 in
      let (sent2, h2, has2) =
        received_frame e other payload' one (ground (arith, has1 e, fresh', distinct)) in
      let both =
        second_ignored d e block other two v2 (ground (arith, has2 d, has1 d, distinct))
          (ground (arith, has2 e)) (ground (arith, h2, h1, here)) (ground (arith, h2, h1, here')) in
      let only = handle_receive_block e other payload' self in
      let w = handle_receive_block-IsValid e other payload' self v in
      let (sent3, h3, has3) = received_frame e other payload' self fresh' in
      let missed =
        finalize_block_ignores d only
          λ b found _. absurd (ground (arith, has3 d, found, fresh, distinct)) in
      let third = (finalize_block d only).1 in
      let v3 : IsValid config third = process_message-IsValid hash (finalize d) only w in
      let pending = ap (λ (r : Option Block × Application E). lookup e r.1.pending_blocks) missed in
      let next = ap (λ (r : Option Block × Application E). r.1.height) missed in
      let chain = ap (λ (r : Option Block × Application E). r.1.block_sender) missed in
      let (_, sent, _, _, _, _) =
        finalize_block_commits e other third v3
          (ground (arith, pending, lookup-remove d e only.pending_blocks, has3 e, distinct))
          (here' ∙ sym (next ∙ h3)) in
      (
        both ∙ ap (λ l. l ++ block ∷ []) (sent2 ∙ sent1),
        sent ∙ ap (λ l. l ++ other ∷ []) (chain ∙ sent3),
      )

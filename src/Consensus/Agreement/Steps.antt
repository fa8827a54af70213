-- ===== src/Consensus/Agreement/Steps.antt =====
-- The actor of crates/consensus/src/application.rs sends on only blocks that consensus finalized.
use rkb.Prelude.{
  ◌≡◌, ◌≢◌, refl, ap, ◌==◌, ==_iff, ◌⊎◌, inl, inr, true, List, [], ◌∷◌, ◌++◌, some, arith, All,
  Bool-cases, Option-cases, subst,
}
use rkb.Prelude.Maps.{HashMap, lookup, contains, contains_key, insert, lookup-insert, lookup-remove}
use rkb.Types.Block.{Block, height}
use rkb.Execution.Payload.{BuiltPayload}
use rkb.Execution.Engine.{Engine}
use rkb.Consensus.Application.Actor.{
  AppDigest, Hashing, Message, genesis, propose, verify, broadcast, finalize, receive_block,
  ProposedBlock, ApplicationConfig, Application, verify_digest,
}
use rkb.Consensus.Application.Proposal.{complete_proposal, propose_block, broadcast_to_relay}
use rkb.Consensus.Application.Finalization.{
  apply_to_reth, cleanup_stale_blocks, broadcast_finalized, drop_payload, commit_block,
  finalize_checked, finalize_found, finalize_block, handle_receive_block,
}
use rkb.Consensus.Application.Frames.{propose_block-Proposed}
use rkb.Consensus.Application.Invariant.{IsValid}
use rkb.Consensus.Application.Outcomes.{finalize_block_commits, finalize_block_ignores}

-- The digests that consensus finalizes.
abbrev pub finalized_digests : List Message → List AppDigest
finalized_digests [] = []
finalized_digests (finalize d ∷ messages) = d ∷ finalized_digests messages
finalized_digests (genesis epoch ∷ messages) = finalized_digests messages
finalized_digests (propose ∷ messages) = finalized_digests messages
finalized_digests (verify d ∷ messages) = finalized_digests messages
finalized_digests (broadcast d ∷ messages) = finalized_digests messages
finalized_digests (receive_block d block payload ∷ messages) = finalized_digests messages

pub finalized_digests-first :
    (message : Message) (messages : List Message) (d : AppDigest)
    → contains d (finalized_digests (message ∷ [])) ≡ true
    → contains d (finalized_digests (message ∷ messages)) ≡ true
finalized_digests-first (finalize e) messages d h = ground (arith, h)
finalized_digests-first propose messages d h = absurd (ground (arith, h))
finalized_digests-first (genesis epoch) messages d h = absurd (ground (arith, h))
finalized_digests-first (verify e) messages d h = absurd (ground (arith, h))
finalized_digests-first (broadcast e) messages d h = absurd (ground (arith, h))
finalized_digests-first (receive_block e block payload) messages d h = absurd (ground (arith, h))

pub finalized_digests-rest :
    (message : Message) (messages : List Message) (d : AppDigest)
    → contains d (finalized_digests messages) ≡ true
    → contains d (finalized_digests (message ∷ messages)) ≡ true
finalized_digests-rest (finalize e) messages d h = ground (arith, h)
finalized_digests-rest propose messages d h = h
finalized_digests-rest (genesis epoch) messages d h = h
finalized_digests-rest (verify e) messages d h = h
finalized_digests-rest (broadcast e) messages d h = h
finalized_digests-rest (receive_block e block payload) messages d h = h

module _ {E : Engine} where
  pub finalize_block-relay :
      (d : AppDigest) (self : Application E)
      → (finalize_block d self).1.block_relay_sender ≡ self.block_relay_sender
  unfolding finalize_block finalize_found finalize_checked commit_block drop_payload
      broadcast_finalized cleanup_stale_blocks apply_to_reth
  finalize_block-relay d self = ground arith

  -- A finalization forgets pending blocks, and sends on at most the one that it was asked for.
  pub finalize_block-cases :
      {config : ApplicationConfig E} (d : AppDigest) (self : Application E)
      → IsValid config self
      → let self' = (finalize_block d self).1 in
        ((e : AppDigest) (b : Block)
          → lookup e self'.pending_blocks ≡ some b
          → lookup e self.pending_blocks ≡ some b)
        × ((self'.block_sender ≡ self.block_sender)
            ⊎ ((b : Block) × (lookup d self.pending_blocks ≡ some b)
                × (self'.block_sender ≡ self.block_sender ++ b ∷ [])))
  finalize_block-cases d self v = elim (Option-cases (lookup d self.pending_blocks)) [
    | inl missing ↦ ignored (λ b found. absurd (ground (arith, missing, found)))
    | inr (b, found) ↦ elim (Bool-cases (height b == self.height)) [
      | inl expected ↦
          let (_, sent, _, _, _, left) =
            finalize_block_commits d b self v found ((==_iff (height b) self.height).0 expected) in
          (λ e c h. ground (arith, h, left e), inr (b, found, sent))
      | inr other ↦
          ignored (λ c found'. λ same. absurd (ground (arith, found, found', same, other)))
    ]
  ]
    where
      ignored :
          ((b : Block) → lookup d self.pending_blocks ≡ some b → height b ≢ self.height)
          → let self' = (finalize_block d self).1 in
            ((e : AppDigest) (b : Block)
              → lookup e self'.pending_blocks ≡ some b
              → lookup e self.pending_blocks ≡ some b)
            × ((self'.block_sender ≡ self.block_sender)
                ⊎ ((b : Block) × (lookup d self.pending_blocks ≡ some b)
                    × (self'.block_sender ≡ self.block_sender ++ b ∷ [])))
      ignored other =
          rw (finalize_block_ignores d self other)
            (λ e b h. ground (arith, h, lookup-remove d e self.pending_blocks), inl refl)

  pub verify_digest-frame :
      (d : AppDigest) (self : Application E)
      → let self' = (verify_digest d self).1 in
        (self'.block_sender ≡ self.block_sender)
        × (self'.block_relay_sender ≡ self.block_relay_sender)
        × (self'.pending_blocks ≡ self.pending_blocks)
  unfolding verify_digest
  verify_digest-frame d self = ground arith

  pub propose_block-sender :
      (hash : Hashing) (self : Application E)
      → (propose_block hash self).1.block_sender ≡ self.block_sender
  unfolding complete_proposal broadcast_to_relay
  propose_block-sender hash self = elim (propose_block-Proposed hash self) [
    | inl (_, same) ↦ ap (λ (x : Application E). x.block_sender) same
    | inr (payload, before, same, _, e) ↦ rw (← e) (ap (λ (x : Application E). x.block_sender) same)
  ]

  pub handle_receive_block-sender :
      (d : AppDigest) (block : Block) (payload : BuiltPayload) (self : Application E)
      → (handle_receive_block d block payload self).block_sender ≡ self.block_sender
  unfolding handle_receive_block
  handle_receive_block-sender d block payload self = ground arith

module _ (block_of : AppDigest → Block) where
  -- A received block is the one that its digest names.
  abbrev pub NamesReceived : Message → Type 0
  NamesReceived (receive_block d block payload) = block ≡ block_of d
  NamesReceived (genesis epoch) = Unit
  NamesReceived propose = Unit
  NamesReceived (verify d) = Unit
  NamesReceived (broadcast d) = Unit
  NamesReceived (finalize d) = Unit

  abbrev pub NamesSent : ProposedBlock → Type 0
  NamesSent p = p.block ≡ block_of p.digest

  -- So are all that came from the relay and all that were sent to it.
  abbrev pub Names : {E : Engine} → List Message → Application E → Type 0
  Names messages self = All NamesReceived messages × All NamesSent self.block_relay_sender

  abbrev pub Finalized : List AppDigest → List Block → Type 0
  Finalized ds = All (λ b. (d : AppDigest) × (contains d ds ≡ true) × (b ≡ block_of d))

  pub Finalized-imp :
      (ds es : List AppDigest)
      → ((d : AppDigest) → contains d ds ≡ true → contains d es ≡ true)
      → (blocks : List Block) → Finalized ds blocks
      → Finalized es blocks
  Finalized-imp ds es wider [] h = tt
  Finalized-imp ds es wider (b ∷ blocks) ((d, i, e), hs) =
      ((d, wider d i, e), Finalized-imp ds es wider blocks hs)

  All-append_left :
      (ps qs : List ProposedBlock) → All NamesSent (ps ++ qs) → All NamesSent ps × All NamesSent qs
  All-append_left [] qs h = (tt, h)
  All-append_left (p ∷ ps) qs (hp, hs) = let (l, r) = All-append_left ps qs hs in ((hp, l), r)

  insert-names :
      (k : AppDigest) (block : Block) (m : HashMap Block)
      → block ≡ block_of k
      → ((d : AppDigest) (b : Block) → lookup d m ≡ some b → b ≡ block_of d)
      → (d : AppDigest) (b : Block) → lookup d (insert k block m) ≡ some b
      → b ≡ block_of d
  insert-names k block m named rest d b found = elim (Bool-cases (k == d)) [
    | inl same ↦
        let e : k ≡ d = (==_iff k d).0 same in
        subst (λ x. b ≡ block_of x) e
          (ground (arith, found, lookup-insert k d block m, same, named))
    | inr other ↦ rest d b (ground (arith, found, lookup-insert k d block m, other))
  ]

  module _ {E : Engine} where
    -- The pending blocks are those that their digests name.
    abbrev pub NamesPending : Application E → Type 0
    NamesPending self =
        (d : AppDigest) (b : Block) → lookup d self.pending_blocks ≡ some b → b ≡ block_of d

    -- What a proposal leads to.
    pub propose_block-Names :
        (hash : Hashing) (self : Application E)
        → let self' = (propose_block hash self).1 in
          (self'.block_sender ≡ self.block_sender)
          × (All NamesSent self'.block_relay_sender
              → All NamesSent self.block_relay_sender × (NamesPending self → NamesPending self'))
    unfolding complete_proposal broadcast_to_relay
    propose_block-Names hash self = elim (propose_block-Proposed hash self) [
      | inl (_, same) ↦ rw same (refl, λ h. (h, λ n. n))
      | inr (payload, before, same, _, e) ↦ rw (← e) (
        ap (λ (x : Application E). x.block_sender) same,
        λ h.
            let (old, new_one) = All-append_left before.block_relay_sender _ h in
            (
              rw same at old,
              λ n. insert-names _ _ before.pending_blocks new_one.0 (λ d b found.
                  n d b (rw (ap (λ (x : Application E). x.pending_blocks) same) at found)),
            ),
      )
    ]

    pub handle_receive_block-frame :
        (d : AppDigest) (block : Block) (payload : BuiltPayload) (self : Application E)
        → let self' = handle_receive_block d block payload self in
          (self'.block_sender ≡ self.block_sender)
          × (self'.block_relay_sender ≡ self.block_relay_sender)
          × (block ≡ block_of d → NamesPending self → NamesPending self')
    unfolding handle_receive_block
    handle_receive_block-frame d block payload self =
        elim (Bool-cases (contains_key d self.pending_blocks)) [
          | inl old ↦ rw old (refl, refl, λ _ n. n)
          | inr fresh ↦
              rw fresh (refl, refl, λ named n. insert-names d block self.pending_blocks named n)
        ]

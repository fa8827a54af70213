-- ===== src/Consensus/Application/Outcomes.antt =====
-- crates/consensus/src/application.rs: what a finalization and a received block lead to.
use rkb.Prelude.{
  ℕ, ◌≡◌, ◌≢◌, refl, ◌==◌, if◌then◌else◌, ◌||◌, ◌&&◌, Bool, true, false, [], ◌∷◌, ◌++◌, Option,
  none, some, arith, Option-cases, inl, inr,
}
use rkb.Prelude.Maps.{
  HashMap, lookup, contains_key, contains, remove, lookup-remove, lookup-insert, remove-IsMap,
  IsMap, contains-insert_set,
}
use rkb.Types.Primitives.{wrapping_add}
use rkb.Types.Block.{Block, height}
use rkb.Execution.Payload.{BuiltPayload}
use rkb.Execution.Engine.{Engine}
use rkb.Execution.Client.{apply_built_payload, import_payload}
use rkb.Consensus.Application.Actor.{AppDigest, ApplicationConfig, Application}
use rkb.Consensus.Application.Finalization.{
  stale_digests, succeeded, apply_to_reth, cleanup_stale_blocks, broadcast_finalized,
  is_valid_height, drop_payload, commit_block, finalize_checked, finalize_found, finalize_block,
  handle_receive_block,
}
use rkb.Consensus.Application.Lookup.{lookup-remove_all, is_stale, contains-stale_digests}
use rkb.Consensus.Application.Invariant.{IsValid, handle_receive_block-IsValid}

-- What is left of a pending entry after a finalization that makes `next` the next height.
abbrev pub kept : ℕ → Bool → Option Block → Option Block
kept next finalized entry = if finalized || is_stale next entry then none else entry

module _ {E : Engine} where
  finalize_block_found :
      (d : AppDigest) (block : Block) (payload : BuiltPayload) (self : Application E)
      → lookup d self.pending_blocks ≡ some block
      → lookup d self.pending_payloads ≡ some payload
      → height block ≡ self.height
      → finalize_block d self ≡ (
        some block,
        broadcast_finalized block (
            cleanup_stale_blocks (record self {
              execution = (apply_built_payload payload self.execution).1;
              pending_blocks = remove d self.pending_blocks;
              pending_payloads = remove d self.pending_payloads;
              height = wrapping_add self.height 1;
              last_hash = block.block_hash;
            })),
      )
  unfolding finalize_block finalize_found finalize_checked is_valid_height commit_block
      apply_to_reth drop_payload
  finalize_block_found d block payload self found paired e = ground (arith, found, paired, e)

  lookup-cleanup_stale_blocks :
      (d e : AppDigest) (block : Block) (self : Application E) (m : HashMap Block)
      → self.pending_blocks ≡ remove d m
      → IsMap self.pending_blocks
      → lookup e (broadcast_finalized block (cleanup_stale_blocks self)).pending_blocks
        ≡ kept self.height (d == e) (lookup e m)
  unfolding broadcast_finalized cleanup_stale_blocks
  lookup-cleanup_stale_blocks d e block self m h v = ground (
    arith,
    h,
    lookup-remove_all (stale_digests self.height self.pending_blocks) e self.pending_blocks,
    contains-stale_digests self.height e self.pending_blocks v,
    lookup-remove d e m,
  )

  -- A pending block of the expected height is finalized: it is the answer and is sent to the
  -- subscribers, its payload is applied to reth, the height goes up by one, its hash is the last
  -- one, and of the pending blocks those stay that are of the new height or above, but not itself.
  pub finalize_block_commits :
      {config : ApplicationConfig E} (d : AppDigest) (block : Block) (self : Application E)
      → IsValid config self
      → lookup d self.pending_blocks ≡ some block
      → height block ≡ self.height
      → let (finalized, self') = finalize_block d self in
        (finalized ≡ some block)
        × (self'.block_sender ≡ self.block_sender ++ block ∷ [])
        × ((payload : BuiltPayload) × (lookup d self.pending_payloads ≡ some payload)
            × (self'.execution ≡ (apply_built_payload payload self.execution).1))
        × (self'.height ≡ wrapping_add self.height 1)
        × (self'.last_hash ≡ block.block_hash)
        × ((e : AppDigest)
            → lookup e self'.pending_blocks
              ≡ kept (wrapping_add self.height 1) (d == e) (lookup e self.pending_blocks))
  unfolding broadcast_finalized cleanup_stale_blocks
  finalize_block_commits d block self v found expected =
      elim (Option-cases (lookup d self.pending_payloads)) [
        | inl missing ↦ absurd (ground (arith, v.paired d))
        | inr (payload, paired) ↦
            let done = finalize_block_found d block payload self found paired expected in
            let before = record self {
              execution = (apply_built_payload payload self.execution).1;
              pending_blocks = remove d self.pending_blocks;
              pending_payloads = remove d self.pending_payloads;
              height = wrapping_add self.height 1;
              last_hash = block.block_hash;
            } in
            rw done (
              refl,
              refl,
              (payload, paired, refl),
              refl,
              refl,
              λ e.
                  lookup-cleanup_stale_blocks d e block before self.pending_blocks refl
                    (remove-IsMap d self.pending_blocks v.blocks_map),
            )
      ]

  -- Any other digest is only forgotten: nothing is sent, and neither the height, the last hash nor
  -- the connection to reth changes.
  pub finalize_block_ignores :
      (d : AppDigest) (self : Application E)
      → ((block : Block) → lookup d self.pending_blocks ≡ some block → height block ≢ self.height)
      → finalize_block d self ≡ (
        none,
        record self {
          pending_blocks = remove d self.pending_blocks;
          pending_payloads = remove d self.pending_payloads;
        },
      )
  unfolding finalize_block finalize_found finalize_checked is_valid_height drop_payload
  finalize_block_ignores d self other = elim (Option-cases (lookup d self.pending_blocks)) [
    | inl missing ↦ ground (arith, missing)
    | inr (block, found) ↦ ground (arith, found, other block found)
  ]

  -- A block from the relay is taken in unless its digest is pending already; its digest counts as
  -- verified only if reth accepted the payload.
  pub handle_receive_block_lem :
      (d : AppDigest) (block : Block) (payload : BuiltPayload) (self : Application E)
      → let self' = handle_receive_block d block payload self in
        let (r, execution) = import_payload payload self.execution in
        (contains_key d self.pending_blocks ≡ true → self' ≡ self)
        × (contains_key d self.pending_blocks ≡ false
            → (self'.execution ≡ execution)
              × ((e : AppDigest)
                  → (lookup e self'.pending_blocks
                      ≡ (if d == e then some block else lookup e self.pending_blocks))
                    × (lookup e self'.pending_payloads
                        ≡ (if d == e then some payload else lookup e self.pending_payloads))
                    × (contains e self'.verified
                        ≡ (succeeded r && d == e || contains e self.verified))))
  unfolding handle_receive_block
  handle_receive_block_lem d block payload self = (
    λ h. ground (arith, h),
    λ h. (
      ground (arith, h),
      λ e. (
        ground (arith, h, lookup-insert d e block self.pending_blocks),
        ground (arith, h, lookup-insert d e payload self.pending_payloads),
        ground (arith, h, contains-insert_set d e self.verified),
      ),
    ),
  )

  -- A block that arrives from the relay at the expected height, under a new digest, is finalized
  -- when consensus asks for it, whether or not reth accepted its payload.
  pub finalize_block-handle_receive_block :
      {config : ApplicationConfig E} (d : AppDigest) (block : Block) (payload : BuiltPayload)
      (self : Application E)
      → IsValid config self
      → contains_key d self.pending_blocks ≡ false
      → height block ≡ self.height
      → let (finalized, self') = finalize_block d (handle_receive_block d block payload self) in
        (finalized ≡ some block)
        × (self'.block_sender ≡ self.block_sender ++ block ∷ [])
        × (self'.last_hash ≡ block.block_hash)
  unfolding handle_receive_block
  finalize_block-handle_receive_block d block payload self v fresh expected =
      let w = handle_receive_block-IsValid d block payload self v in
      let (_, taken) = handle_receive_block_lem d block payload self in
      let (execution, maps) = taken fresh in
      let here = maps d in
      let (done, sent, applied, next, last, rest) =
        finalize_block_commits d block (handle_receive_block d block payload self) w
          (ground (arith, here.0)) (ground (arith, fresh, expected)) in
      (done, ground (arith, fresh, sent), last)

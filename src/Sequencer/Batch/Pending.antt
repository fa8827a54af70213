-- ===== src/Sequencer/Batch/Pending.antt =====
-- crates/sequencer/src/simplex_sequencer.rs: what a batch action does to the pending blocks.
use mathlib.Core.List.{append_assoc, append-nil}
use rkb.Prelude.{
  ℕ, ◌≡◌, refl, sym, ◌∙◌, ap, Bool, true, false, List, [], ◌∷◌, ◌++◌, some, Result, ok, err, arith,
}
use rkb.Types.Primitives.{wrapping_add}
use rkb.Types.Block.{Block}
use rkb.Celestia.Error.{CelestiaError}
use rkb.Celestia.Finality.{BlobSubmission}
use rkb.Celestia.Client.{DataLayer, CelestiaClient}
use rkb.Celestia.Client.Blobs.{submit_blocks}
use rkb.Sequencer.Batch.{
  BatchState, BatchAction, proceed, submit, shutdown, estimate_block_size, sum_block_sizes,
  handle_received_block, restore_failed_batch, log_batch_success, settle_batch, submit_taken,
  submit_batch,
}
use rkb.Sequencer.Batch.Loop.{BatchLoop, count_failure, act}

-- The size is that of the pending blocks.
abbrev pub IsSized : BatchState → Type 0
IsSized state = state.pending_size ≡ sum_block_sizes 0 state.pending_blocks

sum_block_sizes-append :
    (acc : ℕ) (blocks : List Block) (block : Block)
    → sum_block_sizes acc (blocks ++ block ∷ [])
      ≡ wrapping_add (sum_block_sizes acc blocks) (estimate_block_size block)
unfolding sum_block_sizes
sum_block_sizes-append acc [] block = refl
sum_block_sizes-append acc (b ∷ blocks) block =
    sum_block_sizes-append (wrapping_add acc (estimate_block_size b)) blocks block

module _ {D : DataLayer} where
  -- `out` are the blocks of the batches that Celestia accepted on the way from one client to the
  -- other, in the order of acceptance; a refused batch adds none, and every submission of an
  -- accepted one is tracked.
  pub data Deliveries (from : CelestiaClient D) : List Block → CelestiaClient D → Type 0 where
    nothing : Deliveries from [] from
    refused :
        {c c' : CelestiaClient D} {out : List Block} (batch : List Block) (e : CelestiaError)
        → Deliveries from out c
        → submit_blocks batch c ≡ (err e, c')
        → Deliveries from out c'
    accepted :
        {c c' : CelestiaClient D} {out : List Block} (batch : List Block)
        (submissions : List BlobSubmission)
        → Deliveries from out c
        → submit_blocks batch c ≡ (ok submissions, c')
        → Deliveries from (out ++ batch) (log_batch_success submissions c')

  -- The blocks that came in are those delivered, then those pending, in order.
  pub record Delivers (from : CelestiaClient D) (input : List Block) (c : CelestiaClient D)
      (state : BatchState) : Type 0 where
    pub out : List Block
    pub deliveries : Deliveries from out c
    pub conserved : out ++ state.pending_blocks ≡ input
    pub sized : IsSized state

  module _ (from : CelestiaClient D) (input : List Block) where
    settle_batch-Delivers :
        (batch out : List Block) (r : Result CelestiaError (List BlobSubmission))
        (c c' : CelestiaClient D)
        → Deliveries from out c
        → submit_blocks batch c ≡ (r, c')
        → out ++ batch ≡ input
        → let (done, c'', state) =
            settle_batch batch r c' (record { pending_blocks = []; pending_size = 0 }) in
          Delivers from input c'' state
    unfolding settle_batch restore_failed_batch sum_block_sizes
    settle_batch-Delivers batch out (ok submissions) c c' d h e = record {
      out = out ++ batch;
      deliveries = accepted batch submissions d h;
      conserved = append-nil (out ++ batch) ∙ e;
      sized = refl;
    }
    settle_batch-Delivers batch out (err x) c c' d h e = record {
      out = out;
      deliveries = refused batch x d h;
      conserved = e;
      sized = refl;
    }

    submit_taken-Delivers :
        (blocks out : List Block) (c : CelestiaClient D)
        → Deliveries from out c
        → out ++ blocks ≡ input
        → let (done, c', state) =
            submit_taken blocks c (record { pending_blocks = []; pending_size = 0 }) in
          Delivers from input c' state
    unfolding submit_taken sum_block_sizes
    submit_taken-Delivers [] out c d e = record {
      out = out;
      deliveries = d;
      conserved = e;
      sized = refl;
    }
    submit_taken-Delivers (block ∷ blocks) out c d e =
        let (r, c') = submit_blocks (block ∷ blocks) c in
        settle_batch-Delivers (block ∷ blocks) out r c c' d refl e

    submit_batch-Delivers :
        (c : CelestiaClient D) (state : BatchState)
        → Delivers from input c state
        → let (done, c', state') = submit_batch c state in Delivers from input c' state'
    unfolding submit_batch
    submit_batch-Delivers c state v =
        submit_taken-Delivers state.pending_blocks v.out c v.deliveries v.conserved

    pub act-Delivers :
        (action : BatchAction) (self : BatchLoop D)
        → Delivers from input self.celestia self.state
        → let self' = act action self in Delivers from input self'.celestia self'.state
    unfolding act count_failure
    act-Delivers proceed self v = v
    act-Delivers submit self v =
        go (submit_batch self.celestia self.state)
          (submit_batch-Delivers self.celestia self.state v)
      where
        go :
            (r : Bool × CelestiaClient D × BatchState)
            → Delivers from input r.1 r.2
            → let self' = count_failure r.0 (record self { celestia = r.1; state = r.2 }) in
              Delivers from input self'.celestia self'.state
        go (true, c, state) w = w
        go (false, c, state) w = w
    act-Delivers shutdown self v = submit_batch-Delivers self.celestia self.state v

    pub handle_received_block-Delivers :
        (block : Block) (limit : ℕ) (c : CelestiaClient D) (state : BatchState)
        → Delivers from input c state
        → Delivers from (input ++ block ∷ []) c (handle_received_block (some block) state limit).1
    unfolding handle_received_block
    handle_received_block-Delivers block limit c state v = record {
      out = v.out;
      deliveries = v.deliveries;
      conserved =
          sym (append_assoc v.out state.pending_blocks (block ∷ []))
          ∙ ap (λ l. l ++ block ∷ []) v.conserved;
      sized = ground (arith, v.sized, sum_block_sizes-append 0 state.pending_blocks block);
    }

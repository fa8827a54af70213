-- ===== src/Sequencer/Batch/Delivery.antt =====
-- crates/sequencer/src/simplex_sequencer.rs: batching loses, repeats and reorders no block.
use mathlib.Core.List.{append_assoc, append-nil}
use rkb.Prelude.{
  ℕ, ◌≡◌, refl, ap, false, List, [], ◌∷◌, ◌++◌, none, some, arith, Bool-cases, inl, inr, subst,
}
use rkb.Types.Block.{Block}
use rkb.Celestia.Client.{DataLayer, CelestiaClient}
use rkb.Sequencer.Batch.{new, shutdown, sum_block_sizes, handle_received_block}
use rkb.Sequencer.Batch.Loop.{
  BatchEvent, tick, received, wait_for_batch_event, BatchLoop, start, step,
  run_batch_submission_loop,
}
use rkb.Sequencer.Batch.Pending.{nothing, Delivers, act-Delivers, handle_received_block-Delivers}

-- The blocks that an event brings.
abbrev pub blocks_of : List BatchEvent → List Block
blocks_of [] = []
blocks_of (tick ∷ events) = blocks_of events
blocks_of (received none ∷ events) = blocks_of events
blocks_of (received (some block) ∷ events) = block ∷ blocks_of events

blocks_of-cons :
    (event : BatchEvent) (events : List BatchEvent)
    → blocks_of (event ∷ events) ≡ blocks_of (event ∷ []) ++ blocks_of events
blocks_of-cons tick events = refl
blocks_of-cons (received none) events = refl
blocks_of-cons (received (some block)) events = refl

module _ {D : DataLayer} where
  step-Delivers :
      (from : CelestiaClient D) (input : List Block) (limit : ℕ) (event : BatchEvent)
      (self : BatchLoop D)
      → Delivers from input self.celestia self.state
      → let self' = step limit event self in
        Delivers from (input ++ blocks_of (event ∷ [])) self'.celestia self'.state
  unfolding step wait_for_batch_event handle_received_block
  step-Delivers from input limit tick self v =
      rw (append-nil input) (act-Delivers from input _ self v)
  step-Delivers from input limit (received none) self v =
      rw (append-nil input) (act-Delivers from input shutdown self v)
  step-Delivers from input limit (received (some block)) self v =
      let w = handle_received_block-Delivers from input block limit self.celestia self.state v in
      let (action, state) = handle_received_block (some block) self.state limit in
      act-Delivers from (input ++ block ∷ []) action (record self { state = state }) w

  -- How far the loop came in its events.
  pub record Consumes (from : CelestiaClient D) (input : List Block) (events : List BatchEvent)
      (self : BatchLoop D) : Type 0 where
    pub consumed : List BatchEvent
    pub left : List BatchEvent
    pub split : events ≡ consumed ++ left
    pub finished : self.exited ≡ false → left ≡ []
    pub delivers : Delivers from (input ++ blocks_of consumed) self.celestia self.state

  module _ (from : CelestiaClient D) (limit : ℕ) where
    loop-Consumes :
        (events : List BatchEvent) (input : List Block) (self : BatchLoop D)
        → Delivers from input self.celestia self.state
        → Consumes from input events (run_batch_submission_loop limit events self)
    unfolding run_batch_submission_loop
    loop-Consumes [] input self v = record {
      consumed = [];
      left = [];
      split = refl;
      finished = λ h. refl;
      delivers = rw (append-nil input) v;
    }
    loop-Consumes (event ∷ events) input self v = elim (Bool-cases self.exited) [
      | inl exited ↦
          let stays : self ≡ run_batch_submission_loop limit (event ∷ events) self =
            ground (arith, exited) in
          subst (Consumes from input (event ∷ events)) stays (record {
            consumed = [];
            left = event ∷ events;
            split = refl;
            finished = λ h. absurd (ground arith);
            delivers = rw (append-nil input) v;
          })
      | inr running ↦
          let next = step limit event self in
          let w = step-Delivers from input limit event self v in
          let rest = loop-Consumes events (input ++ blocks_of (event ∷ [])) next w in
          let goes : run_batch_submission_loop limit events next
              ≡ run_batch_submission_loop limit (event ∷ events) self =
            ground (arith, running) in
          subst (Consumes from input (event ∷ events)) goes (record {
            consumed = event ∷ rest.consumed;
            left = rest.left;
            split = ap (◌∷◌ event) rest.split;
            finished = rest.finished;
            delivers =
                rw
                  (
                    blocks_of-cons event rest.consumed,
                    ← append_assoc input (blocks_of (event ∷ [])) (blocks_of rest.consumed),
                  )
                  rest.delivers;
          })
    ]

  -- However ticks and blocks arrive and whatever Celestia answers: the blocks that came in, up to
  -- the event at which the loop ended, are those of the accepted batches followed by those still
  -- pending, in order, each once; and the size kept is that of the pending blocks. A loop that has
  -- not ended has taken in all of its events.
  pub run_batch_submission_loop-Consumes :
      (limit : ℕ) (events : List BatchEvent) (celestia : CelestiaClient D)
      → Consumes celestia [] events (run_batch_submission_loop limit events (start celestia))
  unfolding start sum_block_sizes new
  run_batch_submission_loop-Consumes limit events celestia =
      loop-Consumes celestia limit events [] (start celestia)
        (record { out = []; deliveries = nothing; conserved = refl; sized = refl })

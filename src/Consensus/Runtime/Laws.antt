-- ===== src/Consensus/Runtime/Laws.antt =====
-- crates/consensus/src/runtime.rs: what the callback sees of the finalized blocks.
use rkb.Prelude.{
  ℕ, zero, suc, ◌%◌, ◌<◌, ◌≡◌, ◌≢◌, refl, ◌==◌, Bool, true, List, [], ◌∷◌, some, Result, ok, err,
  length, arith, inl, inr, Bool-cases, ==_iff,
}
use rkb.Prelude.Maps.{contains}
use rkb.Types.Block.{Block, height}
use rkb.Consensus.Leader.{is_leader, leader_index}
use rkb.Consensus.Runtime.{
  PublicKey, SimplexRuntimeConfig, is_validator, position, validator_index, FinalizationEvent,
  received, stopped_runtime, wait_for_block, handle_finalized_block, finalization_loop,
  run_finalization_loop,
}

-- The blocks that come in before the first error of the receiver or the end of the runtime.
abbrev pub blocks_before_end : List FinalizationEvent → List Block
blocks_before_end [] = []
blocks_before_end (received (ok b) ∷ events) = b ∷ blocks_before_end events
blocks_before_end (received (err e) ∷ events) = []
blocks_before_end (stopped_runtime ∷ events) = []

-- The key stands at this index, and at no earlier one.
abbrev pub FirstAt : ℕ → PublicKey → List PublicKey → Type 0
FirstAt i key [] = ⊥
FirstAt zero key (k ∷ ks) = k ≡ key
FirstAt (suc i) key (k ∷ ks) = (k ≢ key) × FirstAt i key ks

pub position-FirstAt :
    (key : PublicKey) (keys : List PublicKey)
    → contains key keys ≡ true
    → (i : ℕ) × (position key keys ≡ some i) × FirstAt i key keys
unfolding position
position-FirstAt key [] h = absurd (ground (arith, h))
position-FirstAt key (k ∷ ks) h = elim (Bool-cases (k == key)) [
  | inl same ↦ (0, ground (arith, same), (==_iff k key).0 same)
  | inr other ↦
      let (i, e, first) = position-FirstAt key ks (ground (arith, h, other)) in
      (suc i, rw other (rw e refl), (ground (arith, other), first))
]

module _ {W X : Type 0} (on_finalized : Block → Bool → W → Result X (Unit {0}) × W) where
  -- The callback on each of the blocks in turn, on the blocks of its own heights as the leader.
  abbrev pub call_in_turn : (our_index num_validators : ℕ) → List Block → W → W
  call_in_turn our_index num_validators [] w = w
  call_in_turn our_index num_validators (b ∷ blocks) w =
      call_in_turn our_index num_validators blocks
        (on_finalized b (height b % num_validators == our_index) w).1

  finalization_loop-call_in_turn :
      (our_index n : ℕ) (events : List FinalizationEvent) (w : W)
      → finalization_loop on_finalized our_index (suc n) events w
        ≡ some (call_in_turn our_index (suc n) (blocks_before_end events) w)
  unfolding finalization_loop wait_for_block handle_finalized_block is_leader leader_index
  finalization_loop-call_in_turn our_index n [] w = refl
  finalization_loop-call_in_turn our_index n (received (ok b) ∷ events) w =
      finalization_loop-call_in_turn our_index n events _
  finalization_loop-call_in_turn our_index n (received (err e) ∷ events) w = refl
  finalization_loop-call_in_turn our_index n (stopped_runtime ∷ events) w = refl

  -- If we are among the configured validators and the set of participants is not empty, the loop
  -- does not panic. It gives the callback each block that is received before the first error of the
  -- receiver or the end of the runtime, in order, also after the callback failed on one. The
  -- callback is told that we lead where the height, modulo the number of participants, is the first
  -- index of our key among the validators.
  pub run_finalization_loop-call_in_turn :
      (config : SimplexRuntimeConfig) (events : List FinalizationEvent)
      (participants : List PublicKey) (w : W)
      → is_validator config ≡ true
      → 0 < length participants
      → (i : ℕ) × FirstAt i config.public_key config.validators
        × (run_finalization_loop on_finalized config events participants w
            ≡ some (call_in_turn i (length participants) (blocks_before_end events) w))
  unfolding run_finalization_loop validator_index is_validator
  run_finalization_loop-call_in_turn config events [] w among some_one = absurd (omega arith)
  run_finalization_loop-call_in_turn config events (p ∷ ps) w among some_one =
      let (i, e, first) = position-FirstAt config.public_key config.validators among in
      (
        i,
        first,
        rw (run_finalization_loop, e) (finalization_loop-call_in_turn i (length ps) events w),
      )

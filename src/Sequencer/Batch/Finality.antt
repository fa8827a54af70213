-- ===== src/Sequencer/Batch/Finality.antt =====
-- crates/sequencer/src/simplex_sequencer.rs with crates/celestia/src/client.rs: from an accepted
-- batch to the confirmations of its blocks.
use rkb.Prelude.{
  ℕ, ◌≡◌, refl, sym, ap, ◌∙◌, subst, String, List, [], ◌∷◌, ◌++◌, map, some, Result, ok, All,
  All-append, All-imp, arith, ◌==◌, Bool-cases, inl, inr,
}
use rkb.Prelude.Maps.{lookup, IsMap, lookup-insert}
use rkb.Types.Primitives.{B256}
use rkb.Types.Block.{Block}
use rkb.Celestia.Finality.{BlobSubmission, PendingFinality, track}
use rkb.Celestia.Client.{DataLayer, CelestiaClient, ExtendedHeader}
use rkb.Celestia.Client.Blobs.{track_finality}
use rkb.Celestia.Client.Confirm.{track_finality-pending}
use rkb.Celestia.Client.Naming.{
  Names-All, SameTracker, submit_blocks-SameTracker, submit_blocks-Names,
}
use rkb.Celestia.Client.Once.{Reaches, Waits, ConfirmedOnce, Waits-ConfirmedOnce}
use rkb.Sequencer.Batch.{log_batch_success}
use rkb.Sequencer.Batch.Pending.{Deliveries, nothing, refused, accepted}
use rkb.Sequencer.Batch.Loop.{BatchEvent, start, run_batch_submission_loop}
use rkb.Sequencer.Batch.Delivery.{Consumes, run_batch_submission_loop-Consumes}

module _ {D : DataLayer} where
  track_finality-Waits :
      (hash : B256) (s : BlobSubmission) (c : CelestiaClient D)
      → Waits c hash
      → Waits (track_finality s c) hash
  unfolding track_finality track
  track_finality-Waits hash s c (p, e) =
      let q : PendingFinality = record {
        block_height = s.block_height;
        celestia_height = s.celestia_height;
        submitted_at = (D.instant_now c.world).0;
      } in
      let found = lookup-insert s.block_hash hash q c.finality_tracker.pending in
      elim (Bool-cases (s.block_hash == hash)) [
        | inl same ↦ (q, ground (arith, found, same))
        | inr other ↦ (p, ground (arith, found, other, e))
      ]

  log_batch_success-Waits :
      (hash : B256) (submissions : List BlobSubmission) (c : CelestiaClient D)
      → Waits c hash
      → Waits (log_batch_success submissions c) hash
  unfolding log_batch_success
  log_batch_success-Waits hash [] c w = w
  log_batch_success-Waits hash (s ∷ ss) c w =
      log_batch_success-Waits hash ss (track_finality s c) (track_finality-Waits hash s c w)

  -- After a success every submission waits, and nothing is sent.
  log_batch_success_lem :
      (submissions : List BlobSubmission) (c : CelestiaClient D)
      → IsMap c.finality_tracker.pending
      → let c' = log_batch_success submissions c in
        IsMap c'.finality_tracker.pending
        × (c'.finality_tx ≡ c.finality_tx)
        × All (λ s. Waits c' s.block_hash) submissions
  unfolding log_batch_success
  log_batch_success_lem [] c v = (v, refl, tt)
  log_batch_success_lem (s ∷ ss) c v =
      let c1 = track_finality s c in
      let (is_map, sent, entered) = track_finality-pending s c v in
      let (is_map', sent', rest) = log_batch_success_lem ss c1 is_map in
      (is_map', sent' ∙ sent, (log_batch_success-Waits s.block_hash ss c1 (_, entered), rest))

  -- Every delivered block waits.
  record Waiting (from : CelestiaClient D) (out : List Block) (c : CelestiaClient D) : Type 0 where
    is_map : IsMap c.finality_tracker.pending
    sent : c.finality_tx ≡ from.finality_tx
    waits : All (λ b. Waits c b.block_hash) out

  Deliveries-Waiting :
      (from c : CelestiaClient D) (out : List Block)
      → IsMap from.finality_tracker.pending
      → Deliveries from out c
      → Waiting from out c
  Deliveries-Waiting from c out v nothing = record { is_map = v; sent = refl; waits = tt }
  Deliveries-Waiting from c out v (refused {c = c0} batch e d h) =
      let w = Deliveries-Waiting from c0 out v d in
      let (tracker, sent) : SameTracker c0 c =
        subst (λ r. SameTracker c0 r.1) h (submit_blocks-SameTracker batch c0) in
      record {
        is_map = subst (λ t. IsMap t.pending) (sym tracker) w.is_map;
        sent = sent ∙ w.sent;
        waits =
            subst
              (λ t. All (λ b. (p : PendingFinality) × (lookup b.block_hash t.pending ≡ some p)) out)
              (sym tracker) w.waits;
      }
  Deliveries-Waiting from c out v (accepted {c = c0} {c' = c1} {out = out0} batch submissions d h) =
      let w = Deliveries-Waiting from c0 out0 v d in
      let (tracker, sent) : SameTracker c0 c1 =
        subst (λ r. SameTracker c0 r.1) h (submit_blocks-SameTracker batch c0) in
      let c2 = log_batch_success submissions c1 in
      let (is_map, sent', new) =
        log_batch_success_lem submissions c1
          (subst (λ t. IsMap t.pending) (sym tracker) w.is_map) in
      let old =
        All-imp _ (λ b. Waits c2 b.block_hash) out0
          (λ b k.
            log_batch_success-Waits b.block_hash submissions c1
              (k.0, ap (λ t. lookup b.block_hash t.pending) tracker ∙ k.1))
          w.waits in
      record {
        is_map = is_map;
        sent = sent' ∙ sent ∙ w.sent;
        waits = All-append _ out0 batch old (
            Names-All (Waits c2) submissions batch (submit_blocks-Names batch c0 c1 submissions h)
              new);
      }

  -- The loop, however ticks and blocks arrive and whatever Celestia answers, and then a subscription
  -- with headers that reach the Celestia height of every entry of the tracker: exactly one
  -- confirmation is sent for each block of an accepted batch.
  pub run_batch_submission_loop-confirms :
      (limit : ℕ) (events : List BatchEvent) (celestia : CelestiaClient D)
      (headers : List ExtendedHeader) (rest : List (Result String ExtendedHeader))
      → IsMap celestia.finality_tracker.pending
      → All
          (λ e. Reaches headers e.1.celestia_height)
          (run_batch_submission_loop limit events
            (start celestia)).celestia.finality_tracker.pending
      → let self = run_batch_submission_loop limit events (start celestia) in
        (done : Consumes celestia [] events self) × All
          (λ b. ConfirmedOnce (map ok headers ++ rest) celestia self.celestia b.block_hash)
          done.delivers.out
  run_batch_submission_loop-confirms limit events celestia headers rest v reached =
      let self = run_batch_submission_loop limit events (start celestia) in
      let done = run_batch_submission_loop-Consumes limit events celestia in
      let w =
        Deliveries-Waiting celestia self.celestia done.delivers.out v done.delivers.deliveries in
      (
        done,
        All-imp _ _ done.delivers.out
            (λ b k.
              Waits-ConfirmedOnce b.block_hash headers rest celestia self.celestia w.is_map w.sent
                reached k)
            w.waits,
      )

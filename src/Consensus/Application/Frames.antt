-- ===== src/Consensus/Application/Frames.antt =====
-- The steps of a proposal in crates/consensus/src/application.rs change nothing of the actor but
-- the world of its execution client, until the proposal is complete.
use rkb.Prelude.{
  ℕ, zero, suc, ◌≡◌, refl, ◌∙◌, ap, Bool, if◌then◌else◌, true, false, Option, none, some, arith,
  ◌⊎◌, inl, inr,
}
use rkb.Execution.Payload.{BuiltPayload}
use rkb.Execution.Engine.{Engine}
use rkb.Consensus.Application.Actor.{AppDigest, Hashing, Application, null_proposal}
use rkb.Consensus.Application.Proposal.{
  query_reth_head, nap, sync_loop, wait_for_reth_sync, wall_clock_timestamp, can_build_block,
  already_proposed_at_height, build_via_reth, complete_proposal, propose_synced, propose_block,
  complete_or_null, propose_timed, SyncResult, synced_at, failed, max_attempts,
}

module _ {E : Engine} where
  -- `self'` is `self` but for the execution client.
  abbrev pub SameActor : Application E → Application E → Type 0
  SameActor self self' = self' ≡ record self { execution = self'.execution }

  SameActor-trans : (a b c : Application E) → SameActor a b → SameActor b c → SameActor a c
  SameActor-trans a b c p q = q ∙ ap (λ (x : Application E). record x { execution = c.execution }) p

  pub query_reth_head-SameActor : (self : Application E) → SameActor self (query_reth_head self).1
  unfolding query_reth_head
  query_reth_head-SameActor self = ground arith

  pub sync_loop-SameActor : (n : ℕ) (self : Application E) → SameActor self (sync_loop n self).1
  unfolding sync_loop nap
  sync_loop-SameActor zero self = refl
  sync_loop-SameActor (suc n) self =
      let q = (query_reth_head self).1 in
      ground (arith, query_reth_head-SameActor self, sync_loop-SameActor n (nap q))

  wall_clock_timestamp-SameActor :
      (self : Application E) → SameActor self (wall_clock_timestamp self).1
  unfolding wall_clock_timestamp
  wall_clock_timestamp-SameActor self = refl

  can_build_block-SameActor :
      (parent_timestamp : ℕ) (self : Application E)
      → SameActor self (can_build_block parent_timestamp self).1
  unfolding can_build_block
  can_build_block-SameActor parent_timestamp self = wall_clock_timestamp-SameActor self

  build_via_reth-SameActor :
      (timestamp : ℕ) (self : Application E) → SameActor self (build_via_reth timestamp self).1
  unfolding build_via_reth
  build_via_reth-SameActor timestamp self = ground arith

  -- How a proposal can end: in the null proposal, or with a payload of reth's completed, by an
  -- actor that is `self` but for its execution client.
  abbrev pub Proposed : Hashing → Application E → AppDigest × Application E → Type 0
  Proposed hash self (d, self') =
      ((d ≡ null_proposal) × SameActor self self')
      ⊎ ((payload : BuiltPayload) × (before : Application E) × SameActor self before
          × (already_proposed_at_height self ≡ false)
          × (complete_proposal hash payload before ≡ (d, self')))

  module _ (hash : Hashing) (first : Application E)
      (fresh : already_proposed_at_height first ≡ false) where
    complete_or_null-Proposed :
        (built : Option BuiltPayload) (self : Application E)
        → SameActor first self
        → Proposed hash first (complete_or_null hash built self)
    unfolding complete_or_null
    complete_or_null-Proposed (some payload) self same = inr (payload, self, same, fresh, refl)
    complete_or_null-Proposed none self same = inl (refl, same)

    propose_timed-Proposed :
        (allowed : Bool) (self : Application E)
        → SameActor first self
        → Proposed hash first (propose_timed hash allowed self)
    unfolding propose_timed
    propose_timed-Proposed false self same = inl (refl, same)
    propose_timed-Proposed true self same =
        let a = (wall_clock_timestamp self).1 in
        let b = build_via_reth (wall_clock_timestamp self).0 a in
        complete_or_null-Proposed b.0 b.1 (
          SameActor-trans first a b.1
            (SameActor-trans first self a same (wall_clock_timestamp-SameActor self))
            (build_via_reth-SameActor _ a))

    propose_synced-Proposed :
        (sync : SyncResult) (self : Application E)
        → SameActor first self
        → Proposed hash first (propose_synced hash sync self)
    unfolding propose_synced
    propose_synced-Proposed failed self same = inl (refl, same)
    propose_synced-Proposed (synced_at t) self same =
        let a = can_build_block t self in
        propose_timed-Proposed a.0 a.1
          (SameActor-trans first self a.1 same (can_build_block-SameActor t self))

  pub propose_block-Proposed :
      (hash : Hashing) (self : Application E) → Proposed hash self (propose_block hash self)
  unfolding propose_block wait_for_reth_sync
  propose_block-Proposed hash self = go (already_proposed_at_height self) refl
    where
      go :
          (b : Bool)
          → already_proposed_at_height self ≡ b
          → let (sync, self') = wait_for_reth_sync self in
            Proposed hash self (if b then (null_proposal, self) else propose_synced hash sync self')
      go true e = inl (refl, refl)
      go false e =
          propose_synced-Proposed hash self e (wait_for_reth_sync self).0
            (wait_for_reth_sync self).1 (sync_loop-SameActor max_attempts self)

-- ===== src/Consensus/Application/Proposal.antt =====
-- crates/consensus/src/application.rs: how a block is proposed. The validator waits until reth's
-- head is the parent that consensus expects, reads the clock, and lets reth build.
use rkb.Prelude.{
  ℕ, zero, suc, ◌-◌, ◌==◌, if◌then◌else◌, ltb, leb, Bool, true, false, [], ◌∷◌, ◌++◌, Option, none,
  some, ok, err,
}
use rkb.Prelude.Maps.{insert, insert_set}
use rkb.Types.Primitives.{B256}
use rkb.Types.Block.{Block}
use rkb.Types.Timing.{BlockTiming, vanilla, subsecond}
use rkb.Execution.Payload.{BuiltPayload}
use rkb.Execution.Engine.{Engine}
use rkb.Execution.Client.{get_head, sleep}
use rkb.Execution.Client.Building.{start_building, get_payload}
use rkb.Consensus.Application.Actor.{
  AppDigest, Hashing, Application, null_proposal, build_block_from_payload, compute_digest,
  on_execution,
}

pub record RethHead : Type 0 where
  pub hash : B256
  pub number : ℕ
  pub timestamp : ℕ

pub data SyncCheck : Type 0 where
  synced behind diverged : SyncCheck

pub data SyncResult : Type 0 where
  synced_at : ℕ → SyncResult
  failed : SyncResult

abbrev pub max_attempts : ℕ
max_attempts = 10

abbrev timing_allows : BlockTiming → ℕ → ℕ → Bool
timing_allows vanilla now parent_timestamp = ltb parent_timestamp now
timing_allows subsecond now parent_timestamp = leb parent_timestamp now

abbrev seconds : Option ℕ → ℕ
seconds none = 0
seconds (some s) = s

module _ {E : Engine} where
  unfoldable pub query_reth_head : Application E → Option RethHead × Application E
  query_reth_head self =
      let (r, self') = on_execution get_head self in
      elim r [
        | ok head ↦ (some (record { hash = head.0; number = head.1; timestamp = head.2 }), self')
        | err e ↦ (none, self')
      ]

  unfoldable pub check_sync_state : Application E → RethHead → SyncCheck
  check_sync_state self head =
      let expected_height = self.height - 1 in
      if head.hash == self.last_hash
      then synced
      else if ltb head.number expected_height
      then behind
      else diverged

  unfoldable pub nap : Application E → Application E
  nap self = record self { execution = sleep 100 self.execution }

  -- `for attempt in 1..=MAX_ATTEMPTS`, with the attempts left
  unfoldable pub sync_loop : ℕ → Application E → SyncResult × Application E
  sync_loop zero self = (failed, self)
  sync_loop (suc attempts) self =
      let (found, self') = query_reth_head self in
      elim found [
        | none ↦ sync_loop attempts (nap self')
        | some head ↦ elim (check_sync_state self' head) [
          | synced ↦ (synced_at head.timestamp, self')
          | behind ↦ sync_loop attempts (nap self')
          | diverged ↦ (failed, self')
        ]
      ]

  unfoldable pub wait_for_reth_sync : Application E → SyncResult × Application E
  wait_for_reth_sync = sync_loop max_attempts

  -- A clock before the epoch reads 0.
  unfoldable pub wall_clock_timestamp : Application E → ℕ × Application E
  wall_clock_timestamp self =
      let (now, w) = E.system_time self.execution.world in
      (seconds now, record self { execution = record self.execution { world = w } })

  unfoldable pub can_build_block : ℕ → Application E → Bool × Application E
  can_build_block parent_timestamp self =
      let (now, self') = wall_clock_timestamp self in
      (timing_allows self.block_timing now parent_timestamp, self')

  unfoldable pub already_proposed_at_height : Application E → Bool
  already_proposed_at_height self = elim self.last_proposed_height [
    | none ↦ false
    | some last ↦ if ltb last self.height then false else true
  ]

  unfoldable pub build_via_reth : ℕ → Application E → Option BuiltPayload × Application E
  build_via_reth timestamp self =
      let (r, self') = on_execution (start_building self.last_hash timestamp self.proposer) self in
      elim r [
        | err e ↦ (none, self')
        | ok payload_id ↦
            let (r', self'') = on_execution (get_payload payload_id) self' in
            elim r' [ ok payload ↦ (some payload, self'') | err e ↦ (none, self'') ]
      ]

  unfoldable pub broadcast_to_relay :
      AppDigest → Block → BuiltPayload → Application E → Application E
  broadcast_to_relay digest block payload self = record self {
    block_relay_sender =
        self.block_relay_sender
        ++ record { digest = digest; block = block; payload = payload } ∷ [];
  }

  unfoldable pub complete_proposal :
      Hashing → BuiltPayload → Application E → AppDigest × Application E
  unfolding broadcast_to_relay
  complete_proposal hash payload self =
      let block = build_block_from_payload payload in
      let digest = compute_digest hash block.block_hash in
      let self' = broadcast_to_relay digest block payload self in
      (
        digest,
        record self' {
          pending_blocks = insert digest block self'.pending_blocks;
          pending_payloads = insert digest payload self'.pending_payloads;
          verified = insert_set digest self'.verified;
          last_proposed_height = some self'.height;
        },
      )

  -- `match self.build_via_reth(timestamp).await`
  unfoldable pub complete_or_null :
      Hashing → Option BuiltPayload → Application E → AppDigest × Application E
  complete_or_null hash (some payload) self = complete_proposal hash payload self
  complete_or_null hash none self = (null_proposal, self)

  -- The steps after the test of the clock.
  unfoldable pub propose_timed : Hashing → Bool → Application E → AppDigest × Application E
  propose_timed hash false self = (null_proposal, self)
  propose_timed hash true self =
      let (timestamp, self') = wall_clock_timestamp self in
      let (built, self'') = build_via_reth timestamp self' in complete_or_null hash built self''

  -- The steps after the wait for reth.
  unfoldable pub propose_synced : Hashing → SyncResult → Application E → AppDigest × Application E
  propose_synced hash failed self = (null_proposal, self)
  propose_synced hash (synced_at parent_timestamp) self =
      let (allowed, self') = can_build_block parent_timestamp self in
      propose_timed hash allowed self'

  unfoldable pub propose_block : Hashing → Application E → AppDigest × Application E
  propose_block hash self =
      if already_proposed_at_height self
      then (null_proposal, self)
      else (let (sync, self') = wait_for_reth_sync self in propose_synced hash sync self')

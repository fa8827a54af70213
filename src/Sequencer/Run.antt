-- ===== src/Sequencer/Run.antt =====
-- crates/sequencer/src/simplex_sequencer.rs: `SimplexSequencer::run`, from the configuration to the
-- event loop. The batch task and the consensus runtime, which run beside the loop, are `Batch` and
-- `rkb.Consensus.Runtime`; what a failed start leaves of the worlds is lost with the process.
pub mod Laws
pub mod Start
use rkb.Prelude.{
  ℕ, ◌==◌, ltb, if◌then◌else◌, Bool, true, false, String, List, [], Option, none, some, Result, ok,
  err,
}
use rkb.Types.Primitives.{B256}
use rkb.Types.Config.{ChainConfig}
use rkb.Execution.Error.{ExecutionError}
use rkb.Execution.Forkchoice.{ForkchoiceState}
use rkb.Execution.Jwt.{TokenHost}
use rkb.Execution.Engine.{Engine}
use rkb.Execution.Client.{ExecutionClient, get_genesis_hash, init_forkchoice}
use rkb.Execution.Client.Connect as ExecutionConnect
use rkb.Celestia.Error.{CelestiaError}
use rkb.Celestia.Index.{Storage, BlockIndex, open_index}
use rkb.Celestia.Client.{DataLayer, CelestiaClient}
use rkb.Celestia.Client.Connect as CelestiaConnect
use rkb.Celestia.Client.Connect.{Connector}
use rkb.Consensus.Runtime.{SimplexRuntimeConfig}
use rkb.Sequencer.Config.{Host}
use rkb.Sequencer.Startup.{StartupError, build_runtime_config}
use rkb.Sequencer.Finalization.{Node, NodeEvent, BatchSender, start, run as run_event_loop}
use rkb.Sequencer.Sync.{SyncReport, SyncContext, sync_from_celestia}

-- Why a node did not start. `unreachable` is the macro behind the loop of `init_forkchoice`.
pub data RunReport : Type 0 where
  celestia_client celestia_index : CelestiaError → RunReport
  execution_client genesis_hash forkchoice : ExecutionError → RunReport
  runtime_config : StartupError → RunReport
  sync : SyncReport → RunReport
  unreachable : RunReport

-- The code outside the crate that a start needs.
pub record Outside (D : DataLayer) : Type 0 where
  pub host : Host
  pub tokens : TokenHost
  pub to_string : ℕ → String
  pub connector : Connector D

-- The channel of the batch task, which is not there if batches are switched off.
unfoldable pub spawn_batch_task : ChainConfig → Option BatchSender
spawn_batch_task config =
    if config.celestia.batch_interval_ms == 0
    then none
    else some (record { open_end = true; sent = [] })

module _ {D : DataLayer} (O : Outside D) where
  -- The tracker is started behind it.
  unfoldable pub init_celestia : ChainConfig → D.World → Result RunReport (CelestiaClient D)
  init_celestia config w = elim (CelestiaConnect.new O.connector config.celestia w).0 [
    | ok client ↦ ok client
    | err e ↦ err (celestia_client e)
  ]

module _ {E : Engine} {D : DataLayer} (O : Outside D) where
  unfoldable pub init_execution : ChainConfig → E.World → Result RunReport (ExecutionClient E)
  init_execution config w =
      elim (ExecutionConnect.new O.tokens O.host.read_to_string O.to_string config.execution w) [
        | ok client ↦ ok client
        | err e ↦ err (execution_client e)
      ]

  -- The genesis hash of reth, on which the forkchoice is put.
  unfoldable pub init_forkchoice_state :
      ExecutionClient E → CelestiaClient D → Result RunReport (Node E D)
  init_forkchoice_state execution celestia =
      let (hash, execution') = get_genesis_hash execution in
      elim hash [
        | err e ↦ err (genesis_hash e)
        | ok genesis ↦
            let (done, execution'') = init_forkchoice genesis execution' in
            elim done [
              | err e ↦ err (forkchoice e)
              | ok none ↦ err unreachable
              | ok (some _) ↦ ok (start genesis execution'' celestia none false)
            ]
      ]

  -- The components; those of the batch come later.
  unfoldable pub init_components : ChainConfig → E.World → D.World → Result RunReport (Node E D)
  unfolding init_celestia init_execution init_forkchoice_state
  init_components config execution_world celestia_world =
      elim (init_celestia O config celestia_world) [
        | err e ↦ err e
        | ok celestia ↦ elim (init_execution config execution_world) [
          | err e ↦ err e
          | ok execution ↦ init_forkchoice_state execution celestia
        ]
      ]

  -- What the callback of consensus holds.
  unfoldable pub create_finalization_callback : ChainConfig → Node E D → Node E D
  unfolding spawn_batch_task
  create_finalization_callback config self = record self {
    batch_tx = spawn_batch_task config;
    batch_enabled = ltb 0 config.celestia.batch_interval_ms;
  }

  module _ (S : Storage) where
    -- The sync over an opened index.
    unfoldable pub sync_opened :
        ChainConfig
        → Node E D
        → Result CelestiaError (Unit {0}) × (S.Disk × BlockIndex)
        → Result RunReport (Node E D)
    sync_opened config self (err e, _) = err (celestia_index e)
    sync_opened config self (ok _, (disk, index)) =
        let ctx : SyncContext E D S = record { node = self; disk = disk; index = index } in
        let (synced, ctx') = sync_from_celestia config.celestia.genesis_da_height ctx in
        elim synced [ ok height ↦ ok ctx'.node | err e ↦ err (sync e) ]

    unfoldable pub init_from_celestia :
        ChainConfig → S.Disk → Node E D → Result RunReport (Node E D)
    unfolding sync_opened
    init_from_celestia config disk self =
        if config.celestia.genesis_da_height == 0
        then ok self
        else sync_opened config self (open_index S disk)

    -- The steps after the components. The tracker that was started with the Celestia client may
    -- have run by the time of the sync: `tracked` is what it did.
    unfoldable pub start_node :
        ChainConfig
        → S.Disk
        → (CelestiaClient D → CelestiaClient D)
        → Node E D
        → Result RunReport (SimplexRuntimeConfig × Node E D)
    unfolding init_from_celestia create_finalization_callback
    start_node config disk tracked self =
        elim (build_runtime_config O.host config.consensus self.forkchoice.head) [
          | err e ↦ err (runtime_config e)
          | ok runtime ↦
              elim (init_from_celestia config disk
                (record self { celestia = tracked self.celestia })) [
                  | err e ↦ err e
                  | ok self' ↦ ok (runtime, create_finalization_callback config self')
                ]
        ]

    -- The configuration that consensus is started with, and the node after the events that its
    -- callback and the event loop handled.
    unfoldable pub run :
        ChainConfig
        → E.World
        → D.World
        → S.Disk
        → (CelestiaClient D → CelestiaClient D)
        → List NodeEvent
        → Result RunReport (SimplexRuntimeConfig × Node E D)
    unfolding init_components start_node
    run config execution_world celestia_world disk tracked events =
        elim (init_components config execution_world celestia_world) [
          | err e ↦ err e
          | ok self ↦ elim (start_node config disk tracked self) [
            | err e ↦ err e
            | ok (runtime, self') ↦ ok (runtime, run_event_loop events self')
          ]
        ]

-- ===== src/Tests/Execution.antt =====
-- Runs of the client of crates/execution/src/client.rs.
use rkb.Execution.Forkchoice.{ForkchoiceState, genesis}
use rkb.Execution.Client.{apply_built_payload, init_forkchoice}
use rkb.Execution.Client.Laws.{
  Caches, Initialized, apply_built_payload-Caches, init_forkchoice-Initialized,
}
use rkb.Tests.Fixtures.{client, one_payload}

abbrev wanted : ForkchoiceState
wanted = record { head = 21; safe = 21; finalized = 20 }

apply_built_payload-Caches_example :
    let (r, c) = apply_built_payload one_payload client in
    Caches client.forkchoice wanted r c.forkchoice
apply_built_payload-Caches_example = apply_built_payload-Caches one_payload client

init_forkchoice-Initialized_example : Initialized (genesis 20) (init_forkchoice 20 client)
init_forkchoice-Initialized_example = init_forkchoice-Initialized 20 client

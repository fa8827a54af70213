-- ===== src/Execution/Client/Laws.antt =====
-- What the calls of crates/execution/src/client.rs do to the cached forkchoice, and that the
-- start-up loop ends.
use rkb.Prelude.{
  ℕ, zero, suc, ◌+◌, ◌==◌, ◌≡◌, ◌<◌, Bool, ◌≢◌, true, false, Option, none, some, Result, ok, err,
  arith,
}
use rkb.Types.Primitives.{B256, Address}
use rkb.Types.Block.{Block}
use rkb.Execution.Forkchoice.{ForkchoiceState, genesis}
use rkb.Execution.Error.{ExecutionError}
use rkb.Execution.Payload.{BuiltPayload, PayloadId}
use rkb.Execution.Engine.{Engine}
use rkb.Execution.Client.{
  ExecutionClient, request, sleep, update_forkchoice, try_init_forkchoice, max_retries, init_loop,
  init_forkchoice, call_new_payload, update_forkchoice_for_payload, apply_built_payload,
  execute_block, import_payload, get_head,
}
use rkb.Execution.Client.Building.{call_forkchoice_with_attributes, start_building, get_payload}

-- A call that asks for `new` leaves `new` in the cache if it succeeds, and `old` if it fails.
abbrev pub Caches {ℓ κ} :
    {A : Type ℓ} {X : Type κ}
    → ForkchoiceState
    → ForkchoiceState
    → Result X A
    → ForkchoiceState
    → Type 0
Caches old new (ok _) f = f ≡ new
Caches old new (err _) f = f ≡ old

module _ {E : Engine} where
  -- The cache follows an accepted update and is kept by a refused one.
  pub update_forkchoice-Caches :
      (state : ForkchoiceState) (c : ExecutionClient E)
      → let (r, c') = update_forkchoice state c in Caches c.forkchoice state r c'.forkchoice
  unfolding update_forkchoice request
  update_forkchoice-Caches state c = ground arith

  pub forkchoice-call_new_payload :
      (payload : BuiltPayload) (c : ExecutionClient E)
      → (call_new_payload payload c).1.forkchoice ≡ c.forkchoice
  unfolding call_new_payload request
  forkchoice-call_new_payload payload c = ground arith

  pub forkchoice-import_payload :
      (payload : BuiltPayload) (c : ExecutionClient E)
      → (import_payload payload c).1.forkchoice ≡ c.forkchoice
  unfolding import_payload request
  forkchoice-import_payload payload c = ground arith

  pub forkchoice-get_head : (c : ExecutionClient E) → (get_head c).1.forkchoice ≡ c.forkchoice
  unfolding get_head request
  forkchoice-get_head c = ground arith

  pub forkchoice-execute_block :
      (block : Block) (c : ExecutionClient E) → (execute_block block c).1.forkchoice ≡ c.forkchoice
  unfolding execute_block request
  forkchoice-execute_block block c = ground arith

  pub forkchoice-start_building :
      (parent : B256) (timestamp : ℕ) (fee_recipient : Address) (c : ExecutionClient E)
      → (start_building parent timestamp fee_recipient c).1.forkchoice ≡ c.forkchoice
  unfolding start_building call_forkchoice_with_attributes request
  forkchoice-start_building parent timestamp fee_recipient c = ground arith

  pub forkchoice-get_payload :
      (id : PayloadId) (c : ExecutionClient E) → (get_payload id c).1.forkchoice ≡ c.forkchoice
  unfolding get_payload request
  forkchoice-get_payload id c = ground arith

  -- Applying a payload makes it head and safe and keeps the finalized hash; if any step of it
  -- fails, the cached forkchoice is the old one.
  pub apply_built_payload-Caches :
      (payload : BuiltPayload) (c : ExecutionClient E)
      → let (r, c') = apply_built_payload payload c in
        Caches c.forkchoice
          (record {
            head = payload.block_hash;
            safe = payload.block_hash;
            finalized = c.forkchoice.finalized;
          })
          r
          c'.forkchoice
  unfolding apply_built_payload update_forkchoice_for_payload
  apply_built_payload-Caches payload c =
      grind (arith, forkchoice-call_new_payload, update_forkchoice-Caches)

module _ {E : Engine} where
  try_init_forkchoice-Caches :
      (state : ForkchoiceState) (last : Bool) (c : ExecutionClient E)
      → let (r, c') = try_init_forkchoice state last c in r ≡ ok true → c'.forkchoice ≡ state
  unfolding try_init_forkchoice
  try_init_forkchoice-Caches state last c h = ground (arith, update_forkchoice-Caches state c)

  try_init_forkchoice_last :
      (state : ForkchoiceState) (c : ExecutionClient E)
      → (try_init_forkchoice state true c).0 ≢ ok false
  unfolding try_init_forkchoice
  try_init_forkchoice_last state c h = ground arith

  -- What the loop has reached when it is over: never its `unreachable!()`, and the state asked
  -- for if it succeeded.
  abbrev pub Initialized :
      ForkchoiceState → Result ExecutionError (Option (Unit {0})) × ExecutionClient E → Type 0
  Initialized state (r, c) = (r ≢ ok none) × (r ≡ ok (some tt) → c.forkchoice ≡ state)

  init_loop-Initialized :
      (rounds attempt : ℕ) (state : ForkchoiceState) (c : ExecutionClient E)
      → attempt + rounds ≡ max_retries + 1
      → 0 < rounds
      → Initialized state (init_loop rounds attempt state c)
  unfolding init_loop
  init_loop-Initialized zero attempt state c e pos = absurd (omega arith)
  init_loop-Initialized (suc zero) attempt state c e pos =
      let last : attempt ≡ max_retries = omega arith in
      rw last
        (ground (arith, try_init_forkchoice-Caches state true c, try_init_forkchoice_last state c))
  init_loop-Initialized (suc (suc rounds)) attempt state c e pos =
      let step = try_init_forkchoice state (attempt == max_retries) c in
      ground (
        arith,
        try_init_forkchoice-Caches state (attempt == max_retries) c,
        init_loop-Initialized (suc rounds) (attempt + 1) state (sleep 1000 step.1),
      )

  -- The start-up loop ends in one of its thirty rounds and never reaches its `unreachable!()`; if
  -- it succeeds, the cache holds the genesis hash three times over.
  pub init_forkchoice-Initialized :
      (genesis_hash : B256) (c : ExecutionClient E)
      → Initialized (genesis genesis_hash) (init_forkchoice genesis_hash c)
  unfolding init_forkchoice genesis
  init_forkchoice-Initialized genesis_hash c =
      init_loop-Initialized max_retries 1 _ c (omega arith) (omega arith)

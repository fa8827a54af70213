-- ===== src/Lib.antt =====
-- A sequencer node for a rollup: validators agree on blocks by Simplex BFT consensus, reth builds
-- and executes the blocks through the Engine API, and the leader posts them to Celestia, whose
-- finality makes them final. This library models the node's own logic and proves it right; reth,
-- Celestia's node, the file system, SHA-256 and the codecs are parameters.
--
-- The parts and their files:
--   Prelude      Boolean tests, lists, association lists for HashMap and BTreeMap, the stable sort of
--                slices, Result with the world that a call reads and writes, Text for the parts of Rust's
--                library that settings are read with, and Bits for bytes and their bits.
--   Types        crates/types/src: B256 and Address as numbers, transactions, blocks, BlockTiming.
--                Signature is the methods of Signature and header_hash over a record Scheme; Config
--                and Defaults are config.rs, the records and what serde fills in; Hex, with
--                Hex/HexFixed and Hex/HexVec, is serde_helpers.rs.
--   Execution    crates/execution/src: Forkchoice, Payload and Error are the files of these names.
--                Engine is reth, the clock and the timer as a record of operations on a world.
--                Client is client.rs: ExecutionClient holds that world and the cached forkchoice, a
--                method is a function from the client to a result and a client. Client/Building is
--                the builder part of client.rs, Client/Connect is ExecutionClient::new; Client/Laws has
--                the theorems. Jwt is jwt.rs over a record TokenHost; Jwt/Base64 and Jwt/Laws have
--                theorems.
--   Consensus    Leader is crates/consensus/src/leader.rs. Application is application.rs: Actor has
--                the state (record Application, whose two broadcast channels are the lists of what
--                was sent) and genesis, verify and broadcast; Proposal has propose and its steps;
--                Finalization has finalize, handle_receive_block, process_message and run. Lookup,
--                Chain and Frames have lemmas; Invariant, Outcomes and Proposals the theorems.
--                Mailbox is the channel in front of the actor and reporter.rs. Runtime and Relay are
--                runtime.rs: the loop that hands finalized blocks to the callback, and the task that
--                sends proposals and takes in those of others, over a record Network for commonware
--                and bincode. Network is network.rs over a record Discovery; Runtime/Setup is what run_simplex
--                sets up, over a record Commonware. Runtime/Laws, Runtime/Leading,
--                Runtime/Setup/Laws and Relay/Delivery have theorems. Agreement and its children
--                compare the chains of two validators. System is the tasks of a validator as a step
--                relation; System/Sends, System/Laws and
--                System/Agreement have its theorems.
--   Celestia     crates/celestia/src: Error, Finality, Retry and Index are the files of these names.
--                Client is client.rs over a record DataLayer for Lumina, celestia-rpc and bincode:
--                Client/Blobs submits, Client/Retrieve reads back, Client/Headers follows the
--                headers, Client/Backoff is calculate_backoff, Client/Connect is CelestiaClient::new over a
--                record Connector. Finality/Laws, Index/Laws, Index/Persistence, Index/Refinement,
--                Client/Encoding, Client/RoundTrip, Client/Confirm, Client/Naming, Client/Once, Client/Connect/Laws and
--                Client/Ends have theorems.
--   Sequencer    Config is crates/sequencer/src/config.rs over a record Host for files, TOML, keys and
--                name resolution, with Config/Defaults for what `init` writes. Cli is cli.rs over a
--                record Machine, Cli/Laws has its theorems. The rest is crates/sequencer/src/simplex_sequencer.rs: Startup
--                builds the configuration of consensus; Batch and Batch/Loop are the batch submission task; Finalization is
--                the callback of consensus and the loop over the confirmations; Sync is the sync
--                from Celestia; Run is SimplexSequencer::run from the configuration to the event loop.
--                Run/Laws, Run/Start, Startup/Loading, Startup/Laws, Batch/Pending, Batch/Delivery, Batch/Finality,
--                Finalization/EndToEnd, Finalization/Batched,
--                Finalization/Laws, Finalization/Invariant, Finalization/Race, Sync/Fetch,
--                Sync/Laws and Sync/Invariant have theorems.
--   Tests        a reth, a Celestia node and a disk that answer every call, and the theorems there.
--
-- How the parts interact: the actor of Consensus calls Execution to look at reth's head, to build a
-- payload, to import a relayed one and to apply a finalized one. Its finalized blocks reach the node
-- of Sequencer, which executes them, keeps the forkchoice and the set of executed blocks, and queues
-- the leader's blocks for Batch or submits them. Celestia's headers confirm submissions, and a
-- confirmation moves the finalized hash. Sync fills a new node from Celestia and the index.
--
-- Conventions: a call on a shared object takes the object's state and returns it; asynchronous
-- calls run to their end, and the events of a task are a list; Consensus/System interleaves the
-- tasks of a validator. u64 and usize wrap (`wrapping_add`), as
-- in a release build. Keys are numbers. Log lines and metrics are left out. The records of
-- operations that the components take stand for code outside the repository. A panic that a caller can reach is an
-- empty Option. A function split at a computed value, as finalize_block is into finalize_found and
-- finalize_checked, is one function of the source whose steps are named. Three functions have
-- other names than in the source, since messages have these: genesis_digest, verify_digest,
-- broadcast_digest and finalize_block, propose_block are genesis, verify, broadcast, finalize and
-- propose; open_index is BlockIndex::open, and raw_bytes is Transaction::data.
--
-- Bounds: init_forkchoice has its thirty rounds, wait_for_reth_sync its ten, with_retry counts down
-- what max_retries leaves; these are the source's own bounds. run_finality_tracker takes the rounds
-- that it may run, and ten always suffice for it to end.
--
-- Not modelled: Bloom::from_slice panics on other lengths than 256 bytes, and is total here. The
-- HTTP client that carries a token is one operation of Engine. The network and the engine of
-- commonware, and the tasks as threads, are not modelled: Run and Runtime/Setup have their
-- configurations, and the events that they cause are arguments. main.rs only sets up logging, and
-- clap reads the arguments; a private key is known by its seed or its public key. The broadcast
-- channels of tokio hold 100 messages for a slow receiver; the model lists all that was sent, and
-- a lagging receiver is an event of the loops that read them.
-- The handlers of the node are single steps; only the read and the write of the forkchoice are taken
-- apart, in Sequencer/Finalization/Race. A spawned task of track_finality runs at once.
pub mod Prelude
pub mod Types
pub mod Execution
pub mod Consensus
pub mod Celestia
pub mod Sequencer
pub mod Tests

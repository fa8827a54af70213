-- ===== src/Consensus/Agreement/Runs.antt =====
-- The actor of crates/consensus/src/application.rs sends on only blocks that consensus finalized.
use rkb.Prelude.{◌≡◌, inl, inr, true, List, [], ◌∷◌, arith, All, All-append}
use rkb.Prelude.Maps.{contains}
use rkb.Types.Block.{Block}
use rkb.Execution.Engine.{Engine}
use rkb.Consensus.Application.Actor.{
  AppDigest, Hashing, Message, genesis, propose, verify, broadcast, finalize, receive_block,
  ApplicationConfig, Application, new, genesis_digest, broadcast_digest,
}
use rkb.Consensus.Application.Finalization.{process_message, run}
use rkb.Consensus.Application.Invariant.{IsValid, process_message-IsValid, new-IsValid}
use rkb.Consensus.Agreement.Steps.{
  finalized_digests, finalized_digests-first, finalized_digests-rest, NamesReceived, NamesSent,
  Names, Finalized, NamesPending, finalize_block-relay, finalize_block-cases, propose_block-Names,
  handle_receive_block-frame, verify_digest-frame,
}

module _ (block_of : AppDigest → Block) where
  module _ {E : Engine} where
    process_message-relay :
        (hash : Hashing) (message : Message) (self : Application E)
        → All (NamesSent block_of) (process_message hash message self).1.block_relay_sender
        → All (NamesSent block_of) self.block_relay_sender
    unfolding process_message genesis_digest broadcast_digest
    process_message-relay hash (genesis epoch) self h = h
    process_message-relay hash (broadcast d) self h = h
    process_message-relay hash propose self h = ((propose_block-Names block_of hash self).1 h).0
    process_message-relay hash (verify d) self h = rw (verify_digest-frame d self).1 at h
    process_message-relay hash (receive_block d block payload) self h =
        rw (handle_receive_block-frame block_of d block payload self).1 at h
    process_message-relay hash (finalize d) self h = rw (finalize_block-relay d self) at h

    -- One message: the pending blocks stay well named, and what is sent on was finalized.
    process_message-Finalized :
        {config : ApplicationConfig E} (hash : Hashing) (message : Message) (ds : List AppDigest)
        (self : Application E)
        → let self' = (process_message hash message self).1 in
          IsValid config self
          → NamesReceived block_of message
          → ((d : AppDigest)
              → contains d (finalized_digests (message ∷ [])) ≡ true
              → contains d ds ≡ true)
          → All (NamesSent block_of) self'.block_relay_sender
          → NamesPending block_of self
          → Finalized block_of ds self.block_sender
          → NamesPending block_of self' × Finalized block_of ds self'.block_sender
    unfolding process_message genesis_digest broadcast_digest
    process_message-Finalized hash (genesis epoch) ds self v m i h n f = (n, f)
    process_message-Finalized hash (broadcast d) ds self v m i h n f = (n, f)
    process_message-Finalized hash propose ds self v m i h n f =
        let (sent, rest) = propose_block-Names block_of hash self in ((rest h).1 n, rw sent f)
    process_message-Finalized hash (verify d) ds self v m i h n f =
        let (sent, relay, pending) = verify_digest-frame d self in (rw pending n, rw sent f)
    process_message-Finalized hash (receive_block d block payload) ds self v m i h n f =
        let (sent, relay, pending) = handle_receive_block-frame block_of d block payload self in
        (pending m n, rw sent f)
    process_message-Finalized hash (finalize d) ds self v m i h n f =
        let (fewer, sent) = finalize_block-cases d self v in
        (
          λ e b found. n e b (fewer e b found),
          elim sent [
            | inl same ↦ rw same f
            | inr (b, found, more) ↦ rw more (
                All-append _ self.block_sender (b ∷ []) f
                  ((d, i d (ground arith), n d b found), tt))
          ],
        )

    run-relay :
        (hash : Hashing) (messages : List Message) (self : Application E)
        → All (NamesSent block_of) (run hash messages self).block_relay_sender
        → All (NamesSent block_of) self.block_relay_sender
    unfolding run
    run-relay hash [] self h = h
    run-relay hash (message ∷ messages) self h =
        process_message-relay hash message self
          (run-relay hash messages (process_message hash message self).1 h)

    run-Finalized :
        {config : ApplicationConfig E} (hash : Hashing) (messages : List Message)
        (ds : List AppDigest) (self : Application E)
        → IsValid config self
        → All (NamesReceived block_of) messages
        → ((d : AppDigest) → contains d (finalized_digests messages) ≡ true → contains d ds ≡ true)
        → All (NamesSent block_of) (run hash messages self).block_relay_sender
        → NamesPending block_of self
        → Finalized block_of ds self.block_sender
        → Finalized block_of ds (run hash messages self).block_sender
    unfolding run
    run-Finalized hash [] ds self v m i h n f = f
    run-Finalized {config} hash (message ∷ messages) ds self v (m, ms) i h n f =
        let self' = (process_message hash message self).1 in
        let (n', f') =
          process_message-Finalized {config = config} hash message ds self v m
            (λ d c. i d (finalized_digests-first message messages d c))
            (run-relay hash messages self' h) n f in
        run-Finalized hash messages ds self' (process_message-IsValid hash message self v) ms
          (λ d c. i d (finalized_digests-rest message messages d c)) h n' f'

  -- Every block that the actor sent on is the one that a finalized digest names.
  pub run-new-Finalized :
      {E : Engine} (config : ApplicationConfig E) (hash : Hashing) (messages : List Message)
      → Names block_of messages (run hash messages (new config))
      → Finalized block_of
          (finalized_digests messages)
          (run hash messages (new config)).block_sender
  unfolding new
  run-new-Finalized config hash messages (m, h) =
      run-Finalized hash messages (finalized_digests messages) (new config) (new-IsValid config) m
        (λ d i. i) h (λ d b found. absurd (ground (arith, found))) tt

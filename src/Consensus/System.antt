-- ===== src/Consensus/System.antt =====
-- The tasks of a validator that crates/consensus/src/runtime.rs starts, in any interleaving: the
-- actor of application.rs behind its mailbox, the relay, the reporter and the loop over the
-- finalized blocks. A handler of the actor is one step: messages that arrive while it waits for
-- reth stand behind those of the queue before or after it.
pub mod Sends
pub mod Laws
pub mod Agreement
use rkb.Prelude.{ℕ, ◌≡◌, Bool, String, List, [], ◌∷◌, ◌++◌, Result, ok}
use rkb.Types.Primitives.{Bytes}
use rkb.Types.Block.{Block}
use rkb.Execution.Engine.{Engine}
use rkb.Consensus.Application.Actor.{AppDigest, Hashing, Message, ProposedBlock, Application}
use rkb.Consensus.Application.Finalization.{process_message}
use rkb.Consensus.Mailbox as Mailbox
use rkb.Consensus.Mailbox.{Mailbox, Activity, finalization, handle_activity}
use rkb.Consensus.Runtime.{PublicKey}
use rkb.Consensus.Relay.{Network, handle_local_block, handle_p2p_block}

-- What the readers of the two broadcast channels have taken so far stands beside the channels.
pub record Validator (N : Network) (E : Engine) : Type 0 where
  pub actor : Application E
  pub mailbox : Mailbox
  pub network : N.World
  pub relayed : List ProposedBlock
  pub delivered : List Block

-- The digests that an activity finalizes.
abbrev pub certified : Activity → List AppDigest
certified (finalization d) = d ∷ []
certified _ = []

module _ {N : Network} {E : Engine} (hash : Hashing) (participants : List PublicKey) where
  -- A step, with the digests that Simplex reports as finalized in it.
  pub data Step (v : Validator N E) : List AppDigest → Validator N E → Type 0 where
    -- the actor takes the oldest message
    handle :
        (message : Message) (queue : List Message)
        → v.mailbox.queue ≡ message ∷ queue
        → Step v [] (record v {
          actor = (process_message hash message v.actor).1;
          mailbox = record v.mailbox { queue = queue };
        })
    -- Simplex asks
    ask_genesis : (epoch : ℕ) → Step v [] (record v { mailbox = Mailbox.genesis epoch v.mailbox })
    ask_propose : Step v [] (record v { mailbox = Mailbox.propose v.mailbox })
    ask_verify : (d : AppDigest) → Step v [] (record v { mailbox = Mailbox.verify d v.mailbox })
    ask_broadcast :
        (d : AppDigest) → Step v [] (record v { mailbox = Mailbox.broadcast d v.mailbox })
    -- and reports
    report :
        (activity : Activity)
        → Step v (certified activity) (record v { mailbox = handle_activity activity v.mailbox })
    -- a message of another validator
    arrive :
        (result : Result String (PublicKey × Bytes))
        → Step v [] (record v { mailbox = (handle_p2p_block N result v.mailbox).1 })
    -- the relay takes our next proposal
    relay :
        (proposed : ProposedBlock) (rest : List ProposedBlock)
        → v.actor.block_relay_sender ≡ v.relayed ++ proposed ∷ rest
        → Step v [] (record v {
          network = (handle_local_block N participants (ok proposed) v.network).1;
          relayed = v.relayed ++ proposed ∷ [];
        })
    -- the finalization loop takes the next block
    deliver :
        (block : Block) (rest : List Block)
        → v.actor.block_sender ≡ v.delivered ++ block ∷ rest
        → Step v [] (record v { delivered = v.delivered ++ block ∷ [] })

  -- Steps in a row, with the digests of all of them.
  pub data Steps (v : Validator N E) : List AppDigest → Validator N E → Type 0 where
    here : Steps v [] v
    next :
        {ds es : List AppDigest} {u w : Validator N E}
        → Steps v ds u
        → Step u es w
        → Steps v (ds ++ es) w

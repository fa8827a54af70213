-- ===== src/Consensus/Application/Invariant/Defs.antt =====
-- The invariant of the actor of crates/consensus/src/application.rs, and the single writes that
-- keep it.
use rkb.Prelude.{ℕ, ◌+◌, ◌≤◌, ◌≡◌, refl, if◌then◌else◌, arith, length}
use rkb.Prelude.Maps.{remove, insert, HashSet, IsMap, insert-IsMap, remove-IsMap}
use rkb.Types.Block.{Block}
use rkb.Execution.Payload.{BuiltPayload}
use rkb.Execution.Engine.{Engine}
use rkb.Consensus.Application.Actor.{AppDigest, ApplicationConfig, Application, new}
use rkb.Consensus.Application.Proposal.{already_proposed_at_height}
use rkb.Consensus.Application.Chain.{Consecutive, tip, Paired, Paired-insert, Paired-remove}
use rkb.Consensus.Application.Frames.{SameActor}

-- One if a proposal was made at the present height, or above it.
abbrev pub proposed_now : {E : Engine} → Application E → ℕ
proposed_now self = if already_proposed_at_height self then 1 else 0

pub record IsValid {E : Engine} (config : ApplicationConfig E) (self : Application E) : Type 0 where
  pub blocks_map : IsMap self.pending_blocks
  pub payloads_map : IsMap self.pending_payloads
  pub paired : Paired self.pending_blocks self.pending_payloads
  pub chain : Consecutive config.initial_height self.block_sender self.height
  pub last : self.last_hash ≡ tip config.initial_hash self.block_sender
  pub relayed : length self.block_relay_sender ≤ length self.block_sender + proposed_now self

module _ {E : Engine} (config : ApplicationConfig E) where
  pub new-IsValid : IsValid config (new config)
  unfolding new already_proposed_at_height
  new-IsValid = record {
    blocks_map = tt;
    payloads_map = tt;
    paired = λ d. refl;
    chain = refl;
    last = refl;
    relayed = omega arith;
  }

module _ {E : Engine} {config : ApplicationConfig E} where
  -- The execution client is no part of the invariant.
  pub SameActor-IsValid :
      (self self' : Application E)
      → SameActor self self'
      → IsValid config self
      → IsValid config self'
  unfolding already_proposed_at_height
  SameActor-IsValid self self' same v = rw same (record {
    blocks_map = v.blocks_map;
    payloads_map = v.payloads_map;
    paired = v.paired;
    chain = v.chain;
    last = v.last;
    relayed = v.relayed;
  })

  pub removed-IsValid :
      (d : AppDigest) (self : Application E)
      → IsValid config self
      → IsValid config (record self {
        pending_blocks = remove d self.pending_blocks;
        pending_payloads = remove d self.pending_payloads;
      })
  unfolding already_proposed_at_height
  removed-IsValid d self v = record {
    blocks_map = remove-IsMap d self.pending_blocks v.blocks_map;
    payloads_map = remove-IsMap d self.pending_payloads v.payloads_map;
    paired = Paired-remove d self.pending_blocks self.pending_payloads v.paired;
    chain = v.chain;
    last = v.last;
    relayed = v.relayed;
  }

  -- Nor is the set of verified digests.
  pub verified-IsValid :
      (vs : HashSet) (self : Application E)
      → IsValid config self
      → IsValid config (record self { verified = vs })
  unfolding already_proposed_at_height
  verified-IsValid vs self v = record {
    blocks_map = v.blocks_map;
    payloads_map = v.payloads_map;
    paired = v.paired;
    chain = v.chain;
    last = v.last;
    relayed = v.relayed;
  }

  pub inserted-IsValid :
      (d : AppDigest) (block : Block) (payload : BuiltPayload) (self : Application E)
      → IsValid config self
      → IsValid config (record self {
        pending_blocks = insert d block self.pending_blocks;
        pending_payloads = insert d payload self.pending_payloads;
      })
  unfolding already_proposed_at_height
  inserted-IsValid d block payload self v = record {
    blocks_map = insert-IsMap d block self.pending_blocks v.blocks_map;
    payloads_map = insert-IsMap d payload self.pending_payloads v.payloads_map;
    paired = Paired-insert d block payload self.pending_blocks self.pending_payloads v.paired;
    chain = v.chain;
    last = v.last;
    relayed = v.relayed;
  }

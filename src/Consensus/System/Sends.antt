-- ===== src/Consensus/System/Sends.antt =====
-- crates/consensus/src/runtime.rs: what one task does to the mailbox, and one message to the chain of
-- the actor.
use mathlib.Core.List.{append_assoc, append-nil}
use rkb.Prelude.{
  ◌<◌, ◌≡◌, refl, sym, ap, ◌∙◌, ◌⊎◌, inl, inr, ltb, ◌&&◌, true, String, List, [], ◌∷◌, ◌++◌, length,
  Result, ok, err, arith, Bool-cases, Option-cases,
}
use rkb.Prelude.Maps.{contains}
use rkb.Types.Primitives.{Bytes}
use rkb.Types.Block.{Block}
use rkb.Execution.Engine.{Engine}
use rkb.Consensus.Application.Actor.{
  AppDigest, Hashing, Message, genesis, propose, verify, broadcast, finalize, receive_block,
  ApplicationConfig, Application, genesis_digest, broadcast_digest,
}
use rkb.Consensus.Application.Finalization.{process_message, run}
use rkb.Consensus.Application.Invariant.{IsValid}
use rkb.Consensus.Mailbox as Mailbox
use rkb.Consensus.Mailbox.{Mailbox, Activity, finalization, handle_activity, try_send}
use rkb.Consensus.Runtime.{PublicKey}
use rkb.Consensus.Relay.{Network, handle_p2p_block, deserialize_proposed_block}
use rkb.Consensus.Agreement.{IsPrefix}
use rkb.Consensus.Agreement.Steps.{
  finalized_digests, finalize_block-cases, propose_block-sender, handle_receive_block-sender,
  verify_digest-frame,
}
use rkb.Consensus.System.{certified}

pub run-append :
    {E : Engine} (hash : Hashing) (messages : List Message) (message : Message)
    (self : Application E)
    → run hash (messages ++ message ∷ []) self
      ≡ (process_message hash message (run hash messages self)).1
unfolding run
run-append hash [] message self = refl
run-append hash (m ∷ messages) message self =
    run-append hash messages message (process_message hash m self).1

pub finalized_digests-append :
    (xs ys : List Message)
    → finalized_digests (xs ++ ys) ≡ finalized_digests xs ++ finalized_digests ys
finalized_digests-append [] ys = refl
finalized_digests-append (finalize d ∷ xs) ys = ap (◌∷◌ d) (finalized_digests-append xs ys)
finalized_digests-append (genesis epoch ∷ xs) ys = finalized_digests-append xs ys
finalized_digests-append (propose ∷ xs) ys = finalized_digests-append xs ys
finalized_digests-append (verify d ∷ xs) ys = finalized_digests-append xs ys
finalized_digests-append (broadcast d ∷ xs) ys = finalized_digests-append xs ys
finalized_digests-append (receive_block d b p ∷ xs) ys = finalized_digests-append xs ys

-- A message is in the queue behind the others, or it was dropped.
abbrev pub Sends : List AppDigest → Mailbox → Mailbox → Type 0
Sends es m m' =
    (m'.capacity ≡ m.capacity)
    × ((m'.queue ≡ m.queue)
        ⊎ ((message : Message) × (m'.queue ≡ m.queue ++ message ∷ [])
            × (finalized_digests (message ∷ []) ≡ es)
            × (length m.queue < m.capacity)))

pub try_send-Sends :
    (message : Message) (m : Mailbox)
    → Sends (finalized_digests (message ∷ [])) m (try_send message m)
try_send-Sends message m = elim (Bool-cases (m.connected && ltb (length m.queue) m.capacity)) [
  | inl fits ↦
      (ground (arith, fits), inr (message, ground (arith, fits), refl, ground (arith, fits)))
  | inr full ↦ (ground (arith, full), inl (ground (arith, full)))
]

pub handle_activity-Sends :
    (activity : Activity) (m : Mailbox) → Sends (certified activity) m (handle_activity activity m)
unfolding handle_activity Mailbox.finalize
handle_activity-Sends (finalization d) m = try_send-Sends (finalize d) m
handle_activity-Sends Mailbox.notarize m = (refl, inl refl)
handle_activity-Sends Mailbox.notarization m = (refl, inl refl)
handle_activity-Sends Mailbox.certification m = (refl, inl refl)
handle_activity-Sends Mailbox.nullify m = (refl, inl refl)
handle_activity-Sends Mailbox.nullification m = (refl, inl refl)
handle_activity-Sends Mailbox.finalize_vote m = (refl, inl refl)
handle_activity-Sends Mailbox.conflicting_notarize m = (refl, inl refl)
handle_activity-Sends Mailbox.conflicting_finalize m = (refl, inl refl)
handle_activity-Sends Mailbox.nullify_finalize m = (refl, inl refl)

pub handle_p2p_block-Sends :
    (N : Network) (result : Result String (PublicKey × Bytes)) (m : Mailbox)
    → Sends [] m (handle_p2p_block N result m).1
unfolding handle_p2p_block Mailbox.receive_block
handle_p2p_block-Sends N (err e) m = (refl, inl refl)
handle_p2p_block-Sends N (ok (sender, message)) m =
    elim (Option-cases (deserialize_proposed_block N message)) [
      | inl garbled ↦ (ground (arith, garbled), inl (ground (arith, garbled)))
      | inr (p, read) ↦
          rw (handle_p2p_block, read) (try_send-Sends (receive_block p.digest p.block p.payload) m)
    ]

-- The chain of the actor only grows.
pub process_message-grows :
    {E : Engine} {config : ApplicationConfig E} (hash : Hashing) (message : Message)
    (self : Application E)
    → IsValid config self
    → IsPrefix self.block_sender (process_message hash message self).1.block_sender
unfolding process_message genesis_digest broadcast_digest
process_message-grows hash (genesis epoch) self v = ([], sym (append-nil self.block_sender))
process_message-grows hash (broadcast d) self v = ([], sym (append-nil self.block_sender))
process_message-grows hash propose self v =
    ([], propose_block-sender hash self ∙ sym (append-nil self.block_sender))
process_message-grows hash (verify d) self v =
    ([], (verify_digest-frame d self).0 ∙ sym (append-nil self.block_sender))
process_message-grows hash (receive_block d block payload) self v =
    ([], handle_receive_block-sender d block payload self ∙ sym (append-nil self.block_sender))
process_message-grows hash (finalize d) self v = elim (finalize_block-cases d self v).1 [
  | inl same ↦ ([], same ∙ sym (append-nil self.block_sender))
  | inr (b, _, sent) ↦ (b ∷ [], sent)
]

pub same_digests :
    (ds : List AppDigest) (d : AppDigest) → contains d ds ≡ true → contains d (ds ++ []) ≡ true
same_digests ds d h = ap (contains d) (append-nil ds) ∙ h

pub IsPrefix-trans : (xs ys zs : List Block) → IsPrefix xs ys → IsPrefix ys zs → IsPrefix xs zs
IsPrefix-trans xs ys zs (r, e) (r', e') = (r ++ r', e' ∙ ap (λ l. l ++ r') e ∙ append_assoc xs r r')

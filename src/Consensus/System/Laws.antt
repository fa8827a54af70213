-- ===== src/Consensus/System/Laws.antt =====
-- crates/consensus/src/runtime.rs: whatever the tasks of a validator do, the actor is as after some
-- messages in a row, and what is delivered was finalized.
use mathlib.Core.List.{append_assoc}
use rkb.Prelude.{
  ℕ, ◌≤◌, ◌≡◌, refl, sym, ap, ◌∙◌, subst, inl, inr, true, List, [], ◌∷◌, ◌++◌, length,
  length-append, arith,
}
use rkb.Prelude.Maps.{contains}
use rkb.Types.Block.{Block}
use rkb.Execution.Engine.{Engine}
use rkb.Consensus.Application.Actor.{
  AppDigest, Hashing, Message, genesis, propose, verify, broadcast, ApplicationConfig, new,
}
use rkb.Consensus.Application.Finalization.{process_message, run}
use rkb.Consensus.Application.Invariant.{IsValid, run-new-IsValid}
use rkb.Consensus.Mailbox as Mailbox
use rkb.Consensus.Mailbox.{Mailbox, Activity, finalization, handle_activity, try_send}
use rkb.Consensus.Runtime.{PublicKey}
use rkb.Consensus.Relay.{Network}
use rkb.Consensus.Agreement.{IsPrefix, contains-append}
use rkb.Consensus.Agreement.Steps.{finalized_digests}
use rkb.Consensus.System.{
  Validator, certified, Step, Steps, handle, ask_genesis, ask_propose, ask_verify, ask_broadcast,
  report, arrive, relay, deliver, here, next,
}
use rkb.Consensus.System.Sends.{
  run-append, finalized_digests-append, Sends, try_send-Sends, handle_activity-Sends,
  handle_p2p_block-Sends, process_message-grows, same_digests, IsPrefix-trans,
}

-- What holds of a validator after steps in which Simplex reported the digests `ds`. The actor is as
-- after some messages in a row; the mailbox holds no more than it can; the digests that the actor
-- was told to finalize, or will be, are among those reported; and what the finalization loop took is
-- the beginning of the actor's chain.
pub record Reached {N : Network} {E : Engine} (hash : Hashing) (config : ApplicationConfig E)
    (ds : List AppDigest) (v : Validator N E) : Type 0 where
  pub messages : List Message
  pub ran : v.actor ≡ run hash messages (new config)
  pub bounded : length v.mailbox.queue ≤ v.mailbox.capacity
  pub reported :
      (d : AppDigest)
      → contains d (finalized_digests (messages ++ v.mailbox.queue)) ≡ true
      → contains d ds ≡ true
  pub in_order : IsPrefix v.delivered v.actor.block_sender

module _ {N : Network} {E : Engine} (hash : Hashing) (config : ApplicationConfig E) where
  -- A validator at its start.
  abbrev pub start : (capacity : ℕ) → N.World → Validator N E
  start capacity network = record {
    actor = new config;
    mailbox = record { capacity = capacity; connected = true; queue = [] };
    network = network;
    relayed = [];
    delivered = [];
  }

  start-Reached :
      (capacity : ℕ) (network : N.World) → Reached hash config [] (start capacity network)
  unfolding new run
  start-Reached capacity network = record {
    messages = [];
    ran = refl;
    bounded = omega arith;
    reported = λ d h. h;
    in_order = ([], refl);
  }

  sends-Reached :
      (ds es : List AppDigest) (v : Validator N E) (m' : Mailbox)
      → Reached hash config ds v
      → Sends es v.mailbox m'
      → Reached hash config (ds ++ es) (record v { mailbox = m' })
  sends-Reached ds es v m' r (size, inl same) = record {
    messages = r.messages;
    ran = r.ran;
    bounded = rw (size, same) r.bounded;
    reported = λ d h. ground (arith, contains-append d ds es, r.reported d (rw same at h));
    in_order = r.in_order;
  }
  sends-Reached ds es v m' r (size, inr (message, behind, which, fits)) = record {
    messages = r.messages;
    ran = r.ran;
    bounded = rw (size, behind) (omega (arith, length-append v.mailbox.queue (message ∷ []), fits));
    reported = λ d h.
        let before = finalized_digests (r.messages ++ v.mailbox.queue) in
        let now : finalized_digests (r.messages ++ m'.queue) ≡ before ++ es =
          ap (λ q. finalized_digests (r.messages ++ q)) behind
          ∙ ap finalized_digests (sym (append_assoc r.messages v.mailbox.queue (message ∷ [])))
          ∙ finalized_digests-append (r.messages ++ v.mailbox.queue) (message ∷ [])
          ∙ ap (λ l. before ++ l) which in
        ground (
          arith,
          sym (ap (contains d) now) ∙ h,
          contains-append d before es,
          contains-append d ds es,
          r.reported d,
        );
    in_order = r.in_order;
  }

  handle-Reached :
      (ds : List AppDigest) (v : Validator N E) (message : Message) (queue : List Message)
      → v.mailbox.queue ≡ message ∷ queue
      → Reached hash config ds v
      → Reached hash config (ds ++ []) (record v {
        actor = (process_message hash message v.actor).1;
        mailbox = record v.mailbox { queue = queue };
      })
  handle-Reached ds v message queue e r = record {
    messages = r.messages ++ message ∷ [];
    ran =
        ap (λ a. (process_message hash message a).1) r.ran
        ∙ sym (run-append hash r.messages message (new config));
    bounded = omega (arith, r.bounded, ap length e);
    reported = λ d h. same_digests ds d (
        r.reported d (
          ap (λ q. contains d (finalized_digests (r.messages ++ q))) e
          ∙ ap (λ l. contains d (finalized_digests l))
              (sym (append_assoc r.messages (message ∷ []) queue))
          ∙ h));
    in_order = IsPrefix-trans _ _ _ r.in_order (
        process_message-grows hash message v.actor
          (subst (IsValid config) (sym r.ran) (run-new-IsValid config hash r.messages)));
  }

  deliver-Reached :
      (ds : List AppDigest) (v : Validator N E) (block : Block) (rest : List Block)
      → v.actor.block_sender ≡ v.delivered ++ block ∷ rest
      → Reached hash config ds v
      → Reached hash config (ds ++ []) (record v { delivered = v.delivered ++ block ∷ [] })
  deliver-Reached ds v block rest e r = record {
    messages = r.messages;
    ran = r.ran;
    bounded = r.bounded;
    reported = λ d h. same_digests ds d (r.reported d h);
    in_order = (rest, e ∙ sym (append_assoc v.delivered (block ∷ []) rest));
  }

  module _ (participants : List PublicKey) where
    Step-Reached :
        (ds es : List AppDigest) (v u : Validator N E)
        → Step hash participants v es u
        → Reached hash config ds v
        → Reached hash config (ds ++ es) u
    unfolding Mailbox.genesis Mailbox.propose Mailbox.verify Mailbox.broadcast
    Step-Reached ds _ v _ (handle message queue e) r = handle-Reached ds v message queue e r
    Step-Reached ds _ v _ (ask_genesis epoch) r =
        sends-Reached ds [] v _ r (try_send-Sends (genesis epoch) v.mailbox)
    Step-Reached ds _ v _ ask_propose r =
        sends-Reached ds [] v _ r (try_send-Sends propose v.mailbox)
    Step-Reached ds _ v _ (ask_verify d) r =
        sends-Reached ds [] v _ r (try_send-Sends (verify d) v.mailbox)
    Step-Reached ds _ v _ (ask_broadcast d) r =
        sends-Reached ds [] v _ r (try_send-Sends (broadcast d) v.mailbox)
    Step-Reached ds _ v _ (report activity) r =
        sends-Reached ds (certified activity) v _ r (handle_activity-Sends activity v.mailbox)
    Step-Reached ds _ v _ (arrive result) r =
        sends-Reached ds [] v _ r (handle_p2p_block-Sends N result v.mailbox)
    Step-Reached ds _ v _ (relay proposed rest e) r = record {
      messages = r.messages;
      ran = r.ran;
      bounded = r.bounded;
      reported = λ d h. same_digests ds d (r.reported d h);
      in_order = r.in_order;
    }
    Step-Reached ds _ v _ (deliver block rest e) r = deliver-Reached ds v block rest e r

    -- From its start, in whatever order the tasks of a validator run: its actor is as after some
    -- messages in a row, its mailbox never holds more than it can, every digest that the actor was
    -- told to finalize was reported by Simplex, and the blocks that the finalization loop took are
    -- the first ones of the actor's chain, in order.
    pub Steps-Reached :
        (capacity : ℕ) (network : N.World) (ds : List AppDigest) (v : Validator N E)
        → Steps hash participants (start capacity network) ds v
        → Reached hash config ds v
    Steps-Reached capacity network _ _ here = start-Reached capacity network
    Steps-Reached capacity network _ _ (next steps step) =
        Step-Reached _ _ _ _ step (Steps-Reached capacity network _ _ steps)

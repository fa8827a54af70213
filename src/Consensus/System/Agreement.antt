-- ===== src/Consensus/System/Agreement.antt =====
-- Two validators, each with the tasks of crates/consensus/src/runtime.rs: what their nodes are given.
use mathlib.Core.List.{append_assoc}
use rkb.Prelude.{◌≡◌, refl, sym, ap, ◌∙◌, subst, ◌⊎◌, inl, inr, true, List, [], ◌∷◌, ◌++◌, arith}
use rkb.Prelude.Maps.{contains}
use rkb.Types.Block.{Block}
use rkb.Execution.Engine.{Engine}
use rkb.Consensus.Application.Actor.{AppDigest, Hashing, ApplicationConfig, Application}
use rkb.Consensus.Relay.{Network}
use rkb.Consensus.Agreement.{OneBlockPerHeight, IsPrefix, contains-append, run_agreement}
use rkb.Consensus.Agreement.Steps.{finalized_digests, Names}
use rkb.Consensus.System.{Validator}
use rkb.Consensus.System.Sends.{finalized_digests-append}
use rkb.Consensus.System.Laws.{Reached}

cons-IsPrefix :
    (b : Block) (xs ys : List Block)
    → IsPrefix xs ys ⊎ IsPrefix ys xs
    → IsPrefix (b ∷ xs) (b ∷ ys) ⊎ IsPrefix (b ∷ ys) (b ∷ xs)
cons-IsPrefix b xs ys (inl (r, e)) = inl (r, ap (◌∷◌ b) e)
cons-IsPrefix b xs ys (inr (r, e)) = inr (r, ap (◌∷◌ b) e)

-- Two beginnings of one list.
prefixes : (xs ys r s : List Block) → xs ++ r ≡ ys ++ s → IsPrefix xs ys ⊎ IsPrefix ys xs
prefixes [] ys r s e = inl (ys, refl)
prefixes (x ∷ xs) [] r s e = inr (x ∷ xs, refl)
prefixes (x ∷ xs) (y ∷ ys) r s e =
    let same : y ≡ x = ground (arith, e) in
    subst (λ b. IsPrefix (x ∷ xs) (b ∷ ys) ⊎ IsPrefix (b ∷ ys) (x ∷ xs)) (sym same)
      (cons-IsPrefix x xs ys (prefixes xs ys r s (ground (arith, e))))

beginnings :
    (xs ys chain chain' : List Block)
    → IsPrefix xs chain
    → IsPrefix ys chain'
    → IsPrefix chain chain' ⊎ IsPrefix chain' chain
    → IsPrefix xs ys ⊎ IsPrefix ys xs
beginnings xs ys chain chain' (r, e) (s, f) (inl (t, g)) =
    prefixes xs ys (r ++ t) s (sym (append_assoc xs r t) ∙ sym (ap (λ l. l ++ t) e) ∙ sym g ∙ f)
beginnings xs ys chain chain' (r, e) (s, f) (inr (t, g)) =
    prefixes xs ys r (s ++ t) (sym e ∙ g ∙ ap (λ l. l ++ t) f ∙ append_assoc ys s t)

module _ {N : Network} {E : Engine} where
  told-reported :
      (hash : Hashing) (config : ApplicationConfig E) (ds : List AppDigest) (v : Validator N E)
      (r : Reached hash config ds v) (d : AppDigest)
      → contains d (finalized_digests r.messages) ≡ true
      → contains d ds ≡ true
  told-reported hash config ds v r d h = r.reported d (
      ap (contains d) (finalized_digests-append r.messages v.mailbox.queue)
      ∙ ground (
        arith,
        h,
        contains-append d (finalized_digests r.messages) (finalized_digests v.mailbox.queue),
      ))

-- Two validators that started at one height, whatever their tasks did in whatever order. If every
-- block that the actors took from the relay or sent to it is the one that its digest names, and no
-- two of the digests that Simplex reported to either name different blocks of one height, then the
-- blocks that one node was given are the first ones of those that the other was given.
pub delivered_agreement :
    {N M : Network} {E F : Engine} (block_of : AppDigest → Block) (hash hash' : Hashing)
    (config : ApplicationConfig E) (config' : ApplicationConfig F) (ds ds' : List AppDigest)
    (v : Validator N E) (v' : Validator M F) (r : Reached hash config ds v)
    (r' : Reached hash' config' ds' v')
    → config.initial_height ≡ config'.initial_height
    → OneBlockPerHeight block_of (ds ++ ds')
    → Names block_of r.messages v.actor
    → Names block_of r'.messages v'.actor
    → IsPrefix v.delivered v'.delivered ⊎ IsPrefix v'.delivered v.delivered
delivered_agreement block_of hash hash' config config' ds ds' v v' r r' same unique names names' =
    let wide : (d : AppDigest)
        → contains d (finalized_digests r.messages ++ finalized_digests r'.messages) ≡ true
        → contains d (ds ++ ds') ≡ true =
      λ d i. ground (
        arith,
        i,
        contains-append d (finalized_digests r.messages) (finalized_digests r'.messages),
        contains-append d ds ds',
        told-reported hash config ds v r d,
        told-reported hash' config' ds' v' r' d,
      ) in
    let agree =
      run_agreement block_of config config' hash hash' r.messages r'.messages same
        (λ d e i j. unique d e (wide d i) (wide e j))
        (subst (Names block_of r.messages) r.ran names)
        (subst (Names block_of r'.messages) r'.ran names') in
    beginnings v.delivered v'.delivered _ _
      (subst (λ (a : Application _). IsPrefix v.delivered a.block_sender) r.ran r.in_order)
      (subst (λ (a : Application _). IsPrefix v'.delivered a.block_sender) r'.ran r'.in_order) agree

-- ===== src/Consensus/Agreement.antt =====
-- Several validators, each with its own actor of crates/consensus/src/application.rs: what their
-- chains have in common.
pub mod Steps
pub mod Runs
pub mod Divergence
use rkb.Prelude.{
  ℕ, ◌≡◌, ◌≢◌, refl, sym, ◌∙◌, ap, ◌||◌, ◌⊎◌, inl, inr, Bool, true, false, List, [], ◌∷◌, ◌++◌,
  arith, subst,
}
use rkb.Prelude.Maps.{contains}
use rkb.Types.Primitives.{wrapping_add}
use rkb.Types.Block.{Block, height}
use rkb.Execution.Engine.{Engine}
use rkb.Consensus.Application.Actor.{AppDigest, Hashing, Message, ApplicationConfig, new}
use rkb.Consensus.Application.Finalization.{run}
use rkb.Consensus.Application.Chain.{Consecutive}
use rkb.Consensus.Application.Invariant.{IsValid, run-new-IsValid}
use Runs.{run-new-Finalized}
use Steps.{finalized_digests, Names, Finalized, Finalized-imp}

-- Of the finalized blocks, no two have the same height.
abbrev pub OneBlockPerHeight : (AppDigest → Block) → List AppDigest → Type 0
OneBlockPerHeight block_of ds =
    (d e : AppDigest)
    → contains d ds ≡ true
    → contains e ds ≡ true
    → height (block_of d) ≡ height (block_of e)
    → block_of d ≡ block_of e

abbrev pub IsPrefix : List Block → List Block → Type 0
IsPrefix xs ys = (rest : List Block) × (ys ≡ xs ++ rest)

pub contains-append :
    (d : AppDigest) (xs ys : List AppDigest)
    → contains d (xs ++ ys) ≡ (contains d xs || contains d ys)
contains-append d [] ys = refl
contains-append d (x ∷ xs) ys = ground (arith, contains-append d xs ys)

module _ (block_of : AppDigest → Block) (ds : List AppDigest)
    (unique : OneBlockPerHeight block_of ds) where
  -- Two chains of consecutive heights with blocks from one set.
  prefix_of_Consecutive :
      (start n m : ℕ) (xs ys : List Block)
      → Consecutive start xs n
      → Consecutive start ys m
      → Finalized block_of ds xs
      → Finalized block_of ds ys
      → IsPrefix xs ys ⊎ IsPrefix ys xs
  prefix_of_Consecutive start n m [] ys h k f g = inl (ys, refl)
  prefix_of_Consecutive start n m (x ∷ xs) [] h k f g = inr (x ∷ xs, refl)
  prefix_of_Consecutive start n m (x ∷ xs) (y ∷ ys) (hx, hs) (hy, ks) ((d, di, ex), fs)
        ((e, ei, ey), gs) =
      let same : y ≡ x =
        ey ∙ sym (unique d e di ei (ap height (sym ex) ∙ hx ∙ sym hy ∙ ap height ey)) ∙ sym ex in
      elim (prefix_of_Consecutive (wrapping_add start 1) n m xs ys hs ks fs gs) [
        | inl (rest, eq) ↦ inl (rest, ground (arith, same, eq))
        | inr (rest, eq) ↦ inr (rest, ground (arith, same, eq))
      ]

-- Two validators start at one height and see any messages, in any order and with any losses. If
-- every block that they took from the relay or sent to it is the one that its digest names, and no
-- two of the digests that consensus finalized at either name different blocks of one height, then
-- the chain of one is a prefix of the chain of the other.
pub run_agreement :
    {E F : Engine} (block_of : AppDigest → Block) (config : ApplicationConfig E)
    (config' : ApplicationConfig F) (hash hash' : Hashing) (messages messages' : List Message)
    → config.initial_height ≡ config'.initial_height
    → OneBlockPerHeight block_of (finalized_digests messages ++ finalized_digests messages')
    → Names block_of messages (run hash messages (new config))
    → Names block_of messages' (run hash' messages' (new config'))
    → let chain = (run hash messages (new config)).block_sender in
      let chain' = (run hash' messages' (new config')).block_sender in
      IsPrefix chain chain' ⊎ IsPrefix chain' chain
run_agreement block_of config config' hash hash' messages messages' same unique names names' =
    let ds = finalized_digests messages ++ finalized_digests messages' in
    let v = run-new-IsValid config hash messages in
    let v' = run-new-IsValid config' hash' messages' in
    let f = run-new-Finalized block_of config hash messages names in
    let f' = run-new-Finalized block_of config' hash' messages' names' in
    let wide =
      Finalized-imp block_of (finalized_digests messages) ds
        (λ d i.
          ground (
            arith,
            i,
            contains-append d (finalized_digests messages) (finalized_digests messages'),
          ))
        _ f in
    let wide' =
      Finalized-imp block_of (finalized_digests messages') ds
        (λ d i.
          ground (
            arith,
            i,
            contains-append d (finalized_digests messages) (finalized_digests messages'),
          ))
        _ f' in
    prefix_of_Consecutive block_of ds unique config'.initial_height _ _ _ _
      (subst
        (λ s.
          Consecutive s (run hash messages (new config)).block_sender
            (run hash messages (new config)).height)
        same v.chain)
      v'.chain wide wide'

-- ===== src/Consensus/Application/Chain.antt =====
-- The blocks that the actor of crates/consensus/src/application.rs hands to its subscribers form
-- a chain of heights, and its two maps hold the same digests.
use rkb.Prelude.{ℕ, ◌≡◌, refl, List, [], ◌∷◌, ◌++◌, arith}
use rkb.Prelude.Maps.{HashMap, insert, remove, contains_key, lookup-insert, lookup-remove}
use rkb.Types.Primitives.{B256, wrapping_add}
use rkb.Types.Block.{Block, height}
use rkb.Consensus.Application.Actor.{AppDigest}
use rkb.Consensus.Application.Finalization.{remove_all}
use rkb.Consensus.Application.Lookup.{lookup-remove_all}

-- The heights go up by one from `start`, and `next` comes after the last.
abbrev pub Consecutive : ℕ → List Block → ℕ → Type 0
Consecutive start [] next = start ≡ next
Consecutive start (block ∷ blocks) next =
    (height block ≡ start) × Consecutive (wrapping_add start 1) blocks next

-- The hash of the last block, or that on which the chain began.
abbrev pub tip : B256 → List Block → B256
tip hash [] = hash
tip hash (block ∷ blocks) = tip block.block_hash blocks

pub Consecutive-append :
    (start : ℕ) (blocks : List Block) (next : ℕ) (block : Block)
    → Consecutive start blocks next
    → height block ≡ next
    → Consecutive start (blocks ++ block ∷ []) (wrapping_add (height block) 1)
Consecutive-append start [] next block h e = ground arith
Consecutive-append start (b ∷ blocks) next block h e =
    (h.0, Consecutive-append (wrapping_add start 1) blocks next block h.1 e)

pub tip-append :
    (hash : B256) (blocks : List Block) (block : Block)
    → tip hash (blocks ++ block ∷ []) ≡ block.block_hash
tip-append hash [] block = refl
tip-append hash (b ∷ blocks) block = tip-append b.block_hash blocks block

-- The two maps hold the same keys.
abbrev pub Paired {ℓ κ} : {V : Type ℓ} {W : Type κ} → HashMap V → HashMap W → Type 0
Paired m n = (d : ℕ) → contains_key d m ≡ contains_key d n

module _ {ℓ κ} {V : Type ℓ} {W : Type κ} where
  pub Paired-insert :
      (k : ℕ) (v : V) (w : W) (m : HashMap V) (n : HashMap W)
      → Paired m n
      → Paired (insert k v m) (insert k w n)
  Paired-insert k v w m n h d = ground (arith, lookup-insert k d v m, lookup-insert k d w n, h d)

  pub Paired-remove :
      (k : ℕ) (m : HashMap V) (n : HashMap W) → Paired m n → Paired (remove k m) (remove k n)
  Paired-remove k m n h d = ground (arith, lookup-remove k d m, lookup-remove k d n, h d)

  pub Paired-remove_all :
      (ds : List AppDigest) (m : HashMap V) (n : HashMap W)
      → Paired m n
      → Paired (remove_all ds m) (remove_all ds n)
  Paired-remove_all ds m n h d =
      ground (arith, lookup-remove_all ds d m, lookup-remove_all ds d n, h d)

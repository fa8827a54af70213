-- ===== src/Consensus/Application/Lookup.antt =====
-- What the maps of crates/consensus/src/application.rs hold after stale blocks are removed.
use rkb.Prelude.{
  ℕ, ◌≡◌, refl, if◌then◌else◌, ltb, Bool, false, List, [], ◌∷◌, Option, none, some, arith,
}
use rkb.Prelude.Maps.{HashMap, lookup, remove, contains, IsMap, lookup-remove, remove-IsMap}
use rkb.Types.Block.{Block, height}
use rkb.Consensus.Application.Actor.{AppDigest}
use rkb.Consensus.Application.Finalization.{stale_digests, remove_all}

module _ {ℓ} {V : Type ℓ} where
  pub lookup-remove_all :
      (ds : List AppDigest) (d : AppDigest) (m : HashMap V)
      → lookup d (remove_all ds m) ≡ (if contains d ds then none else lookup d m)
  lookup-remove_all [] d m = refl
  lookup-remove_all (e ∷ ds) d m =
      ground (arith, lookup-remove_all ds d (remove e m), lookup-remove e d m)

  pub remove_all-IsMap : (ds : List AppDigest) (m : HashMap V) → IsMap m → IsMap (remove_all ds m)
  remove_all-IsMap [] m h = h
  remove_all-IsMap (e ∷ ds) m h = remove_all-IsMap ds (remove e m) (remove-IsMap e m h)

-- Whether the entry of a key is stale.
abbrev pub is_stale : ℕ → Option Block → Bool
is_stale limit none = false
is_stale limit (some block) = ltb (height block) limit

pub contains-stale_digests :
    (limit : ℕ) (d : AppDigest) (m : HashMap Block)
    → IsMap m
    → contains d (stale_digests limit m) ≡ is_stale limit (lookup d m)
contains-stale_digests limit d [] h = refl
contains-stale_digests limit d ((e, block) ∷ m) h =
    ground (arith, contains-stale_digests limit d m h.1)

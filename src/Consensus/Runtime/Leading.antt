-- ===== src/Consensus/Runtime/Leading.antt =====
-- crates/consensus/src/runtime.rs: which of the validators leads for a finalized block.
use rkb.Prelude.{
  ℕ, zero, suc, ◌<◌, ◌≡◌, refl, sym, ◌∙◌, ap, ◌↔◌, ◌⊎◌, ◌==◌, Bool, true, false, String, List, [],
  ◌∷◌, ◌++◌, some, Result, ok, length, arith, inl, inr, Bool-cases, Option-cases, ==_iff,
}
use rkb.Prelude.Maps.{contains}
use rkb.Types.Block.{Block, height}
use rkb.Consensus.Leader.{is_leader, is_leader_unique}
use rkb.Consensus.Runtime.{
  PublicKey, SimplexRuntimeConfig, position, validator_index, received, wait_for_block,
  handle_finalized_block, finalization_loop, run_finalization_loop,
}

abbrev pub NoDuplicates : List PublicKey → Type 0
NoDuplicates [] = Unit
NoDuplicates (k ∷ ks) = (contains k ks ≡ false) × NoDuplicates ks

-- A callback that notes what it is told.
abbrev pub note_leader : Block → Bool → List Bool → Result String (Unit {0}) × List Bool
note_leader block leader w = (ok tt, w ++ leader ∷ [])

same_key : (k : PublicKey) → (k == k) ≡ true
same_key k = (==_iff k k).1 refl

at_index :
    (i : ℕ) (keys : List PublicKey)
    → NoDuplicates keys
    → i < length keys
    → (key : PublicKey) × (contains key keys ≡ true) × (position key keys ≡ some i)
unfolding position
at_index i [] d lt = absurd (omega arith)
at_index zero (k ∷ ks) d lt = (k, ground (arith, same_key k), ground (arith, same_key k))
at_index (suc i) (k ∷ ks) (fresh, d) lt =
    let (key, inside, found) = at_index i ks d (omega arith) in
    elim (Bool-cases (k == key)) [
      | inl same ↦
          let e : k ≡ key = (==_iff k key).0 same in
          absurd (ground (arith, sym (ap (λ x. contains x ks) e) ∙ fresh, inside))
      | inr other ↦ (key, ground (arith, other, inside), ground (arith, other, found))
    ]

-- Where a key stands: in front, or one further than in the rest.
position-cases :
    (a : PublicKey) (i : ℕ) (k : PublicKey) (ks : List PublicKey)
    → position a (k ∷ ks) ≡ some i
    → ((k ≡ a) × (i ≡ 0)) ⊎ ((j : ℕ) × (i ≡ suc j) × (position a ks ≡ some j))
unfolding position
position-cases a i k ks h = elim (Bool-cases (k == a)) [
  | inl same ↦ inl ((==_iff k a).0 same, ground (arith, h, same))
  | inr other ↦ elim (Option-cases (position a ks)) [
    | inl gone ↦ absurd (ground (arith, h, other, gone))
    | inr (j, found) ↦ inr (j, ground (arith, h, other, found), found)
  ]
]

position-injective :
    (a b : PublicKey) (i : ℕ) (keys : List PublicKey)
    → position a keys ≡ some i
    → position b keys ≡ some i
    → a ≡ b
unfolding position
position-injective a b i [] h g = absurd (ground (arith, h))
position-injective a b i (k ∷ ks) h g = elim (position-cases a i k ks h) [
  | inl (p, z) ↦ elim (position-cases b i k ks g) [
    | inl (q, _) ↦ sym p ∙ q
    | inr (j, s, _) ↦ absurd (omega (arith, z, s))
  ]
  | inr (j, s, f) ↦ elim (position-cases b i k ks g) [
    | inl (_, z) ↦ absurd (omega (arith, z, s))
    | inr (l, t, e) ↦ position-injective a b j ks f (ground (arith, e, s, t))
  ]
]

-- The loop on one block.
one_block_lem :
    (config : SimplexRuntimeConfig) (participants : List PublicKey) (block : Block)
    → (run_finalization_loop note_leader config (received (ok block) ∷ []) participants []
        ≡ some (true ∷ []))
      ↔ ((j : ℕ) × (position config.public_key config.validators ≡ some j)
          × (is_leader j (height block) (length participants) ≡ some true))
unfolding run_finalization_loop finalization_loop wait_for_block handle_finalized_block
    validator_index
one_block_lem config participants block = (
  λ h. elim (Option-cases (position config.public_key config.validators)) [
    | inl gone ↦ absurd (ground (arith, h, gone))
    | inr (j, found) ↦ elim (Option-cases (is_leader j (height block) (length participants))) [
      | inl none_leads ↦ absurd (ground (arith, h, found, none_leads))
      | inr (b, leads) ↦ (j, found, ground (arith, h, found, leads))
    ]
  ],
  λ (j, found, leads). ground (arith, found, leads),
)

-- Validators that share a list of keys without duplicates agree on who leads: for each finalized
-- block there is one key on the list, and the loop of a validator with this list that receives the
-- block tells its callback that it leads, if and only if this is its own key. The set of
-- participants has as many keys as the list.
pub run_finalization_loop-one_leader :
    (keys participants : List PublicKey) (block : Block)
    → NoDuplicates keys
    → 0 < length keys
    → length participants ≡ length keys
    → (key : PublicKey) × (contains key keys ≡ true)
      × ((config : SimplexRuntimeConfig)
          → config.validators ≡ keys
          → (run_finalization_loop note_leader config (received (ok block) ∷ []) participants []
              ≡ some (true ∷ []))
            ↔ (config.public_key ≡ key))
run_finalization_loop-one_leader keys participants block distinct some_one size =
    let (i, lt, leads, only) = is_leader_unique (height block) (length keys) some_one in
    let (key, inside, found) = at_index i keys distinct lt in
    (
      key,
      inside,
      λ config same. (
        λ h.
            let (j, at, l) = (one_block_lem config participants block).0 h in
            let e : j ≡ i = only j (ground (arith, l, size)) in
            position-injective config.public_key key i keys (ground (arith, at, e, same)) found,
        λ e.
            (one_block_lem config participants block).1
              (i, ground (arith, e, same, found), ground (arith, leads, size)),
      ),
    )

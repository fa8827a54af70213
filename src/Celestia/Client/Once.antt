-- ===== src/Celestia/Client/Once.antt =====
-- crates/celestia/src/client.rs: what is sent of a block while a subscription runs.
use rkb.Prelude.{
  ℕ, ◌≤◌, ◌<◌, ◌≡◌, refl, ap, ◌∙◌, true, String, List, [], ◌∷◌, ◌++◌, map, some, Result, ok, All,
  arith, leb, Bool-cases, inl, inr,
}
use rkb.Prelude.Maps.{lookup, IsMap}
use rkb.Types.Primitives.{B256}
use rkb.Celestia.Finality.{FinalityConfirmation, PendingFinality, build_confirmation}
use rkb.Celestia.Finality.Laws.{confirmations_of}
use rkb.Celestia.Client.{DataLayer, CelestiaClient, ExtendedHeader}
use rkb.Celestia.Client.Headers.{header_loop}
use rkb.Celestia.Client.Confirm.{header_loop-confirms}
use rkb.Celestia.Client.Retrieve.{any}
use rkb.Prelude.Maps.{lookup-All}

-- Some header reaches the Celestia height.
abbrev pub Reaches : List ExtendedHeader → ℕ → Type 0
Reaches headers height = any (λ h. leb height h.height) headers ≡ true

-- The first header at the height or above, with those before and after it.
Reaches-first :
    (height : ℕ) (headers : List ExtendedHeader)
    → Reaches headers height
    → (below : List ExtendedHeader) × (header : ExtendedHeader) × (after : List ExtendedHeader)
      × (headers ≡ below ++ header ∷ after)
      × All (λ h. h.height < height) below
      × (height ≤ header.height)
Reaches-first height [] r = absurd (ground arith)
Reaches-first height (h ∷ hs) r = elim (Bool-cases (leb height h.height)) [
  | inl at ↦ ([], h, hs, refl, tt, ground (arith, at))
  | inr not ↦
      let (below, header, after, e, lt, le) = Reaches-first height hs (ground (arith, not)) in
      (h ∷ below, header, after, ap (◌∷◌ h) e, (ground (arith, not), lt), le)
]

map_split :
    (below : List ExtendedHeader) (header : ExtendedHeader) (later : List ExtendedHeader)
    (rest : List (Result String ExtendedHeader))
    → map ok (below ++ header ∷ later) ++ rest ≡ map ok below ++ ok header ∷ (map ok later ++ rest)
map_split [] header later rest = refl
map_split (h ∷ below) header later rest = ap (◌∷◌ (ok h)) (map_split below header later rest)

module _ {D : DataLayer} where
  -- The block waits to be confirmed.
  abbrev pub Waits : CelestiaClient D → B256 → Type 0
  Waits c hash = (p : PendingFinality) × (lookup hash c.finality_tracker.pending ≡ some p)

  -- What is sent of a block while a subscription runs: one confirmation after what was sent before.
  abbrev pub ConfirmedOnce :
      List (Result String ExtendedHeader) → CelestiaClient D → CelestiaClient D → B256 → Type 0
  ConfirmedOnce results before after hash =
      (confirmation : FinalityConfirmation) × (confirmation.block_hash ≡ hash)
      × (confirmations_of hash (header_loop results after).1.finality_tx
          ≡ confirmations_of hash before.finality_tx ++ confirmation ∷ [])

  pub Waits-ConfirmedOnce :
      (hash : B256) (headers : List ExtendedHeader) (rest : List (Result String ExtendedHeader))
      (before after : CelestiaClient D)
      → IsMap after.finality_tracker.pending
      → after.finality_tx ≡ before.finality_tx
      → All (λ e. Reaches headers e.1.celestia_height) after.finality_tracker.pending
      → Waits after hash
      → ConfirmedOnce (map ok headers ++ rest) before after hash
  unfolding build_confirmation
  Waits-ConfirmedOnce hash headers rest before after v sent reached (p, e) =
      let (below, header, later, split, lt, le) = Reaches-first p.celestia_height headers (
        lookup-All (λ p. Reaches headers p.celestia_height) hash p after.finality_tracker.pending
          reached e) in
      let (now, reports) =
        header_loop-confirms hash p below header (map ok later ++ rest) after v e lt le in
      let confirmation = build_confirmation hash p header.hash now in
      let results : map ok headers ++ rest ≡ map ok below ++ ok header ∷ (map ok later ++ rest) =
        ap (λ l. map ok l ++ rest) split ∙ map_split below header later rest in
      (
        confirmation,
        refl,
        ap (λ r. confirmations_of hash (header_loop r after).1.finality_tx) results
            ∙ reports
            ∙ ap (λ tx. confirmations_of hash tx ++ confirmation ∷ []) sent,
      )

-- ===== src/Celestia/Client/Confirm.antt =====
-- crates/celestia/src/client.rs: when a block is confirmed.
use mathlib.Core.List.{append_assoc, append-nil}
use rkb.Prelude.{
  ◌≤◌, ◌<◌, ◌≡◌, refl, ◌∙◌, ap, String, List, [], ◌∷◌, ◌++◌, map, Option, none, some, Result, ok,
  err, All, arith,
}
use rkb.Prelude.Maps.{lookup, IsMap, lookup-insert, insert-IsMap}
use rkb.Types.Primitives.{B256}
use rkb.Celestia.Finality.{
  Instant, BlobSubmission, PendingFinality, FinalityConfirmation, track, build_confirmation,
  on_celestia_finality,
}
use rkb.Celestia.Finality.Laws.{
  confirmations_of, confirmed, waiting, on_celestia_finality-IsMap, on_celestia_finality-lookup,
}
use rkb.Celestia.Client.{ExtendedHeader, DataLayer, CelestiaClient}
use rkb.Celestia.Client.Blobs.{track_finality}
use rkb.Celestia.Client.Headers.{broadcast_confirmations, process_header, header_loop}

confirmations_of-append :
    (hash : B256) (xs ys : List FinalityConfirmation)
    → confirmations_of hash (xs ++ ys) ≡ confirmations_of hash xs ++ confirmations_of hash ys
confirmations_of-append hash [] ys = refl
confirmations_of-append hash (x ∷ xs) ys = ground (arith, confirmations_of-append hash xs ys)

module _ {D : DataLayer} where
  -- Both channels get all the confirmations, in their order.
  broadcast_confirmations_lem :
      (cs : List FinalityConfirmation) (c : CelestiaClient D)
      → broadcast_confirmations cs c ≡ record c {
        finality_tx = c.finality_tx ++ cs;
        finality_broadcast = c.finality_broadcast ++ cs;
      }
  unfolding broadcast_confirmations
  broadcast_confirmations_lem [] c =
      grind (arith, append-nil c.finality_tx, append-nil c.finality_broadcast)
  broadcast_confirmations_lem (x ∷ cs) c = ground (
    arith,
    broadcast_confirmations_lem cs (record c {
      finality_tx = c.finality_tx ++ x ∷ [];
      finality_broadcast = c.finality_broadcast ++ x ∷ [];
    }),
    append_assoc c.finality_tx (x ∷ []) cs,
    append_assoc c.finality_broadcast (x ∷ []) cs,
  )

  -- The clock that the processing of a header reads.
  abbrev clock : CelestiaClient D → Instant
  clock c = (D.instant_now c.world).0

  abbrev entry : B256 → CelestiaClient D → Option PendingFinality
  entry hash c = lookup hash c.finality_tracker.pending

  process_header-IsMap :
      (header : ExtendedHeader) (c : CelestiaClient D)
      → IsMap c.finality_tracker.pending
      → IsMap (process_header header c).finality_tracker.pending
  unfolding process_header
  process_header-IsMap header c v = ground (
    arith,
    on_celestia_finality-IsMap header.height header.hash (clock c) c.finality_tracker v,
    broadcast_confirmations_lem
        (on_celestia_finality header.height header.hash (clock c) c.finality_tracker).0
        (record c {
          world = (D.instant_now c.world).1;
          finality_tracker =
              (on_celestia_finality header.height header.hash (clock c) c.finality_tracker).1;
        }),
  )

  -- A header for one block: what is sent of it, and what is left of its entry.
  process_header_lem :
      (hash : B256) (header : ExtendedHeader) (c : CelestiaClient D)
      → IsMap c.finality_tracker.pending
      → (confirmations_of hash (process_header header c).finality_tx
          ≡ confirmations_of hash c.finality_tx
            ++ confirmed header.height header.hash (clock c) hash (entry hash c))
        × (entry hash (process_header header c) ≡ waiting header.height (entry hash c))
  unfolding process_header
  process_header_lem hash header c v =
      let found = on_celestia_finality header.height header.hash (clock c) c.finality_tracker in
      ground (
        arith,
        on_celestia_finality-lookup header.height header.hash (clock c) c.finality_tracker hash v,
        confirmations_of-append hash c.finality_tx found.0,
        broadcast_confirmations_lem found.0
            (record c { world = (D.instant_now c.world).1; finality_tracker = found.1 }),
      )

  -- The headers of a list, one after another.
  abbrev process_all : List ExtendedHeader → CelestiaClient D → CelestiaClient D
  process_all [] c = c
  process_all (header ∷ headers) c = process_all headers (process_header header c)

  header_loop-append :
      (headers : List ExtendedHeader) (rest : List (Result String ExtendedHeader))
      (c : CelestiaClient D)
      → header_loop (map ok headers ++ rest) c ≡ header_loop rest (process_all headers c)
  unfolding header_loop
  header_loop-append [] rest c = refl
  header_loop-append (header ∷ headers) rest c =
      header_loop-append headers rest (process_header header c)

  -- The state of one block: its entry, and what was sent of it before.
  record Tracks (hash : B256) (e : Option PendingFinality) (sent : List FinalityConfirmation)
      (c : CelestiaClient D) : Type 0 where
    is_map : IsMap c.finality_tracker.pending
    entered : entry hash c ≡ e
    reported : confirmations_of hash c.finality_tx ≡ sent

  module _ (hash : B256) where
    process_header-Tracks :
        (e : Option PendingFinality) (sent : List FinalityConfirmation) (header : ExtendedHeader)
        (c : CelestiaClient D)
        → Tracks hash e sent c
        → Tracks hash
            (waiting header.height e)
            (sent ++ confirmed header.height header.hash (clock c) hash e)
            (process_header header c)
    process_header-Tracks e sent header c t =
        let (reports, enters) = process_header_lem hash header c t.is_map in
        record {
          is_map = process_header-IsMap header c t.is_map;
          entered = enters ∙ ap (waiting header.height) t.entered;
          reported = rw (← t.entered, ← t.reported) reports;
        }

    process_all-Tracks :
        (p : PendingFinality) (sent : List FinalityConfirmation) (headers : List ExtendedHeader)
        (c : CelestiaClient D)
        → Tracks hash (some p) sent c
        → All (λ h. h.height < p.celestia_height) headers
        → Tracks hash (some p) sent (process_all headers c)
    process_all-Tracks p sent [] c t lt = t
    process_all-Tracks p sent (header ∷ headers) c t lt =
        let s = process_header-Tracks (some p) sent header c t in
        process_all-Tracks p sent headers (process_header header c)
          (record {
            is_map = s.is_map;
            entered = ground (arith, s.entered, lt.0);
            reported = ground (arith, s.reported, lt.0, append-nil sent);
          })
          lt.1

    header_loop-Tracks :
        (sent : List FinalityConfirmation) (results : List (Result String ExtendedHeader))
        (c : CelestiaClient D)
        → Tracks hash none sent c
        → Tracks hash none sent (header_loop results c).1
    unfolding header_loop
    header_loop-Tracks sent [] c t = t
    header_loop-Tracks sent (err e ∷ results) c t = t
    header_loop-Tracks sent (ok header ∷ results) c t =
        let s = process_header-Tracks none sent header c t in
        header_loop-Tracks sent results (process_header header c) (record {
          is_map = s.is_map;
          entered = s.entered;
          reported = s.reported ∙ append-nil sent;
        })

  -- A submission that is tracked has its entry.
  pub track_finality-pending :
      (s : BlobSubmission) (c : CelestiaClient D)
      → IsMap c.finality_tracker.pending
      → let c' = track_finality s c in
        IsMap c'.finality_tracker.pending
        × (c'.finality_tx ≡ c.finality_tx)
        × (lookup s.block_hash c'.finality_tracker.pending
            ≡ some (record {
              block_height = s.block_height;
              celestia_height = s.celestia_height;
              submitted_at = (D.instant_now c.world).0;
            }))
  unfolding track_finality track
  track_finality-pending s c v = (
    insert-IsMap s.block_hash _ c.finality_tracker.pending v,
    refl,
    ground (
      arith,
      lookup-insert s.block_hash s.block_hash
          (record {
            block_height = s.block_height;
            celestia_height = s.celestia_height;
            submitted_at = (D.instant_now c.world).0;
          })
          c.finality_tracker.pending,
    ),
  )

  -- A block that waits for a Celestia height is confirmed exactly once while a subscription runs:
  -- by the first header at that height or above, with that header's hash, whatever comes after.
  pub header_loop-confirms :
      (hash : B256) (p : PendingFinality) (below : List ExtendedHeader) (header : ExtendedHeader)
      (rest : List (Result String ExtendedHeader)) (c : CelestiaClient D)
      → IsMap c.finality_tracker.pending
      → lookup hash c.finality_tracker.pending ≡ some p
      → All (λ h. h.height < p.celestia_height) below
      → p.celestia_height ≤ header.height
      → let c' = (header_loop (map ok below ++ ok header ∷ rest) c).1 in
        (now : Instant) × (confirmations_of hash c'.finality_tx
          ≡ confirmations_of hash c.finality_tx ++ build_confirmation hash p header.hash now ∷ [])
  unfolding header_loop
  header_loop-confirms hash p below header rest c v e lt le =
      let sent = confirmations_of hash c.finality_tx in
      let c1 = process_all below c in
      let t =
        process_all-Tracks hash p sent below c (record { is_map = v; entered = e; reported = refl })
          lt in
      let s = process_header-Tracks hash (some p) sent header c1 t in
      let sent' = sent ++ build_confirmation hash p header.hash (clock c1) ∷ [] in
      let u = header_loop-Tracks hash sent' rest (process_header header c1) (record {
        is_map = s.is_map;
        entered = ground (arith, s.entered, le);
        reported = ground (arith, s.reported, le);
      }) in
      (clock c1, rw (header_loop-append below (ok header ∷ rest) c) u.reported)

-- ===== src/Celestia/Client/Encoding.antt =====
-- crates/celestia/src/client.rs: the blobs made of blocks decode to these blocks.
use mathlib.Core.List.{append_assoc, append-nil}
use rkb.Prelude.{
  ℕ, ◌≡◌, refl, ◌∙◌, List, [], ◌∷◌, ◌++◌, map, some, ok, arith, inl, inr, String, Result-cases,
}
use rkb.Types.Primitives.{Bytes}
use rkb.Types.Block.{Block}
use rkb.Celestia.Client.{DataLayer}
use rkb.Celestia.Client.Blobs.{
  BlockInfo, encode_block, decode_block, create_blob_for_block, info_of, create_blobs_loop,
}
use rkb.Celestia.Client.Retrieve.{try_decode_blob, decode_blobs}

-- What the code relies on: the codec decodes what it encoded, a blob holds the data it was made of,
-- and the blobs of a transaction that went in at a height stand together among those of that height.
pub record IsDataLayer (D : DataLayer) : Type 0 where
  pub decodes : (b : Block) (x : Bytes) → D.serialize b ≡ ok x → D.deserialize x ≡ ok b
  pub holds :
      (x : Bytes) (a : String) (blob : D.Blob) → D.blob_new x a ≡ ok blob → D.blob_data blob ≡ x
  pub included :
      (blobs : List D.Blob) (w w' : D.World) (h : ℕ)
      → D.submit blobs w ≡ (ok h, w')
      → (before : List D.Blob) × (after : List D.Blob) × ((D.blob_get_all h w').0
          ≡ ok (some (before ++ blobs ++ after)))

module _ (D : DataLayer) where
  created_decodes :
      (block : Block) (blob : D.Blob)
      → IsDataLayer D
      → create_blob_for_block D block ≡ ok blob
      → try_decode_blob D blob ≡ some block
  unfolding create_blob_for_block encode_block try_decode_blob decode_block
  created_decodes block blob laws h = grind (arith, laws.decodes, laws.holds)

  -- The blobs were made of the blocks, one of each.
  abbrev pub MadeOf : List Block → List D.Blob → Type 0
  MadeOf blocks blobs = map (create_blob_for_block D) blocks ≡ map ok blobs

  pub decode_blobs-MadeOf :
      (blocks : List Block) (blobs : List D.Blob)
      → IsDataLayer D
      → MadeOf blocks blobs
      → decode_blobs D blobs ≡ blocks
  unfolding decode_blobs
  decode_blobs-MadeOf [] [] laws h = refl
  decode_blobs-MadeOf [] (x ∷ xs) laws h = absurd (ground arith)
  decode_blobs-MadeOf (b ∷ bs) [] laws h = absurd (ground arith)
  decode_blobs-MadeOf (b ∷ bs) (x ∷ xs) laws h =
      let e : create_blob_for_block D b ≡ ok x = ground arith in
      let es : MadeOf bs xs = ground arith in
      ground (arith, created_decodes b x laws e, decode_blobs-MadeOf bs xs laws es)

  pub decode_blobs-append :
      (xs ys : List D.Blob) → decode_blobs D (xs ++ ys) ≡ decode_blobs D xs ++ decode_blobs D ys
  unfolding decode_blobs
  decode_blobs-append [] ys = refl
  decode_blobs-append (x ∷ xs) ys = ground (arith, decode_blobs-append xs ys)

  pub create_blobs_loop_lem :
      (blocks : List Block) (blobs : List D.Blob) (infos : List BlockInfo)
      (made : List D.Blob × List BlockInfo)
      → create_blobs_loop D blocks blobs infos ≡ ok made
      → (new : List D.Blob) × (made.0 ≡ blobs ++ new)
        × (made.1 ≡ infos ++ map (info_of D) blocks)
        × MadeOf blocks new
  unfolding create_blobs_loop
  create_blobs_loop_lem [] blobs infos made h =
      ([], grind (arith, append-nil blobs), grind (arith, append-nil infos), refl)
  create_blobs_loop_lem (b ∷ bs) blobs infos made h =
      elim (Result-cases (create_blob_for_block D b)) [
        | inl (x, created) ↦
            let (new, e, i, m) =
              create_blobs_loop_lem bs (blobs ++ x ∷ []) (infos ++ info_of D b ∷ []) made
                (ground arith) in
            (
              x ∷ new,
              e ∙ append_assoc blobs (x ∷ []) new,
              i ∙ append_assoc infos (info_of D b ∷ []) (map (info_of D) bs),
              ground (arith, created, m),
            )
        | inr (e, failed) ↦ absurd (ground arith)
      ]

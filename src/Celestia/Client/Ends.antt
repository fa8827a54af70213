-- ===== src/Celestia/Client/Ends.antt =====
-- crates/celestia/src/client.rs: how the loop around the header subscriptions ends.
use rkb.Prelude.{
  ℕ, zero, suc, ◌+◌, ◌≤◌, ◌<◌, ◌≡◌, refl, leb, String, List, [], ◌∷◌, some, Result, ok, err, arith,
  Bool-cases, inl, inr,
}
use rkb.Celestia.Error.{CelestiaError, subscription_failed}
use rkb.Celestia.Client.{ExtendedHeader, DataLayer, CelestiaClient, on_world}
use rkb.Celestia.Client.Headers.{
  process_header, header_loop, run_header_subscription, reconnect, tracker_loop,
  run_finality_tracker, max_consecutive_failures,
}

module _ {D : DataLayer} where
  header_loop_fails :
      (results : List (Result String ExtendedHeader)) (c : CelestiaClient D)
      → (e : CelestiaError) × ((header_loop results c).0 ≡ err e)
  unfolding header_loop
  header_loop_fails [] c = (_, refl)
  header_loop_fails (err e ∷ results) c = (_, refl)
  header_loop_fails (ok header ∷ results) c = header_loop_fails results (process_header header c)

  tracker_loop_ends :
      (rounds failures : ℕ) (c : CelestiaClient D)
      → failures < max_consecutive_failures
      → max_consecutive_failures ≤ failures + rounds
      → (tracker_loop rounds failures c).0
        ≡ some (err (subscription_failed "max consecutive failures (10) reached"))
  unfolding tracker_loop run_header_subscription
  tracker_loop_ends zero failures c lt le = absurd (omega arith)
  tracker_loop_ends (suc rounds) failures c lt le =
      let (results, c') = on_world D.header_subscribe c in
      let (e, fails) = header_loop_fails results c' in
      elim (Bool-cases (leb max_consecutive_failures (failures + 1))) [
        | inl last ↦ ground (arith, fails, last)
        | inr more ↦
            let next = reconnect (failures + 1) (header_loop results c').1 in
            let rest = tracker_loop_ends rounds (failures + 1) next (ground arith) (omega arith) in
            ground (arith, fails, more, rest)
      ]

  -- The tracker ends with an error at the tenth subscription that ends, at the latest, however many
  -- headers came in between: a subscription never counts as a success, so the failures are never
  -- reset.
  pub run_finality_tracker_ends :
      (rounds : ℕ) (c : CelestiaClient D)
      → max_consecutive_failures ≤ rounds
      → (run_finality_tracker rounds c).0
        ≡ some (err (subscription_failed "max consecutive failures (10) reached"))
  unfolding run_finality_tracker
  run_finality_tracker_ends rounds c le = tracker_loop_ends rounds 0 c (omega arith) (omega arith)

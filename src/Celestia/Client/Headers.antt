-- ===== src/Celestia/Client/Headers.antt =====
-- crates/celestia/src/client.rs: the headers of Celestia confirm blocks, and the subscription is
-- taken up again when it fails.
use rkb.Prelude.{
  ℕ, zero, suc, ◌+◌, leb, if◌then◌else◌, String, List, [], ◌∷◌, ◌++◌, Option, none, some, Result,
  ok, err,
}
use rkb.Celestia.Error.{CelestiaError, subscription_failed}
use rkb.Celestia.Finality.{FinalityConfirmation, on_celestia_finality}
use rkb.Celestia.Retry.{default_reconnect_delay_ms}
use rkb.Celestia.Client.{ExtendedHeader, DataLayer, CelestiaClient, Call, on_world}
use rkb.Celestia.Client.Backoff.{calculate_backoff}

abbrev pub max_consecutive_failures : ℕ
max_consecutive_failures = 10

abbrev pub max_backoff_ms : ℕ
max_backoff_ms = 60000

module _ {D : DataLayer} where
  unfoldable pub broadcast_confirmations :
      List FinalityConfirmation → CelestiaClient D → CelestiaClient D
  broadcast_confirmations [] c = c
  broadcast_confirmations (confirmation ∷ confirmations) c =
      broadcast_confirmations confirmations (record c {
        finality_tx = c.finality_tx ++ confirmation ∷ [];
        finality_broadcast = c.finality_broadcast ++ confirmation ∷ [];
      })

  unfoldable pub process_header : ExtendedHeader → CelestiaClient D → CelestiaClient D
  process_header header c =
      let (now, c') = on_world D.instant_now c in
      let (confirmations, tracker) =
        on_celestia_finality header.height header.hash now c'.finality_tracker in
      broadcast_confirmations confirmations (record c' { finality_tracker = tracker })

  -- `while let Some(result) = header_sub.next().await`, and the error behind it
  unfoldable pub header_loop : List (Result String ExtendedHeader) → Call D (Unit {0})
  header_loop [] c = (err (subscription_failed "subscription stream ended"), c)
  header_loop (err e ∷ results) c = (err (subscription_failed e), c)
  header_loop (ok header ∷ results) c = header_loop results (process_header header c)

  unfoldable pub run_header_subscription : Call D (Unit {0})
  run_header_subscription c =
      let (results, c') = on_world D.header_subscribe c in header_loop results c'

  -- The wait before the next subscription.
  unfoldable pub reconnect : ℕ → CelestiaClient D → CelestiaClient D
  reconnect consecutive_failures c = record c {
    world =
        D.sleep (calculate_backoff consecutive_failures default_reconnect_delay_ms max_backoff_ms)
          c.world;
  }

  -- The loop with the rounds that it may still run; `none` is a loop that would run on.
  unfoldable pub tracker_loop :
      (rounds consecutive_failures : ℕ)
      → CelestiaClient D
      → Option (Result CelestiaError (Unit {0})) × CelestiaClient D
  tracker_loop zero consecutive_failures c = (none, c)
  tracker_loop (suc rounds) consecutive_failures c =
      let (r, c') = run_header_subscription c in
      elim r [
        | ok _ ↦ tracker_loop rounds 0 (reconnect 0 c')
        | err e ↦
            let again =
              tracker_loop rounds (consecutive_failures + 1)
                (reconnect (consecutive_failures + 1) c') in
            if leb max_consecutive_failures (consecutive_failures + 1)
            then (some (err (subscription_failed "max consecutive failures (10) reached")), c')
            else again
      ]

  unfoldable pub run_finality_tracker :
      ℕ → CelestiaClient D → Option (Result CelestiaError (Unit {0})) × CelestiaClient D
  run_finality_tracker rounds = tracker_loop rounds 0

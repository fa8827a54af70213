-- ===== src/Celestia/Retry.antt =====
-- crates/celestia/src/retry.rs: an operation is tried again after a delay that grows linearly.
use rkb.Prelude.{
  ℕ, zero, suc, ◌+◌, ◌-◌, ◌*◌, ◌%◌, ◌^◌, ◌≤◌, ◌≡◌, refl, ◌⊎◌, inl, inr, String, Result, ok, err,
  arith,
}
use rkb.Celestia.Error.{CelestiaError, submission_failed}

abbrev pub default_max_retries : ℕ
default_max_retries = 3

abbrev pub default_retry_delay_ms : ℕ
default_retry_delay_ms = 1000

abbrev pub default_reconnect_delay_ms : ℕ
default_reconnect_delay_ms = 5000

-- `describe` is the text of the error, of the attempts made and the last failure; `sleep` is the
-- runtime's timer.
module _ {T X W : Type 0} (describe : ℕ → X → String) (sleep : ℕ → W → W) where
  -- The loop with `attempts` counted up for the present round. `left` is how many more rounds
  -- `max_retries` allows, so `attempts >= max_retries` is that none is left.
  unfoldable pub retry_loop :
      ℕ → (W → Result X T × W) → (left attempts : ℕ) → W → Result CelestiaError T × W
  retry_loop base_delay_ms operation zero attempts w =
      let (r, w') = operation w in
      elim r [
        | ok result ↦ (ok result, w')
        | err e ↦ (err (submission_failed (describe attempts e)), w')
      ]
  retry_loop base_delay_ms operation (suc left) attempts w =
      let (r, w') = operation w in
      elim r [
        | ok result ↦ (ok result, w')
        | err e ↦
            retry_loop base_delay_ms operation left (attempts + 1)
              (sleep (base_delay_ms * attempts % 2 ^ 64) w')
      ]

  unfoldable pub with_retry :
      (max_retries : ℕ) → ℕ → (W → Result X T × W) → W → Result CelestiaError T × W
  with_retry max_retries base_delay_ms operation w =
      retry_loop base_delay_ms operation (max_retries - 1) 1 w

  -- `k` attempts have failed, each followed by its delay, the first being attempt `n`.
  pub data Failures (base_delay_ms : ℕ) (operation : W → Result X T × W)
      : ℕ → ℕ → W → W → Type 0 where
    no_failure : {n : ℕ} {w : W} → Failures base_delay_ms operation n 0 w w
    failure :
        {n k : ℕ} {w w' : W} (e : X)
        → (operation w).0 ≡ err e
        → Failures base_delay_ms operation
            (n + 1)
            k
            (sleep (base_delay_ms * n % 2 ^ 64) (operation w).1)
            w'
        → Failures base_delay_ms operation n (suc k) w w'

  -- The outcome after `left` failures at most: the first success, or the last failure.
  abbrev pub Outcome :
      ℕ → (W → Result X T × W) → (left attempts : ℕ) → W → Result CelestiaError T × W → Type 0
  Outcome base_delay_ms operation left attempts w result =
      ((k : ℕ) × (w' : W) × (a : T) × (k ≤ left)
        × Failures base_delay_ms operation attempts k w w'
        × ((operation w').0 ≡ ok a)
        × (result ≡ (ok a, (operation w').1)))
      ⊎ ((w' : W) × (e : X) × Failures base_delay_ms operation attempts left w w'
          × ((operation w').0 ≡ err e)
          × (result ≡ (err (submission_failed (describe (attempts + left) e)), (operation w').1)))

  module _ (base_delay_ms : ℕ) (operation : W → Result X T × W) where
    later :
        (left attempts : ℕ) (w : W) (e : X)
        → (operation w).0 ≡ err e
        → (result : Result CelestiaError T × W)
        → Outcome base_delay_ms operation left
            (attempts + 1)
            (sleep (base_delay_ms * attempts % 2 ^ 64) (operation w).1)
            result
        → Outcome base_delay_ms operation (suc left) attempts w result
    later left attempts w e h result (inl (k, w', a, le, fs, good, eq)) =
        inl (suc k, w', a, omega (arith, le), failure e h fs, good, eq)
    later left attempts w e h result (inr (w', e', fs, bad, eq)) =
        let same : attempts + 1 + left ≡ attempts + suc left = omega arith in
        inr (w', e', failure e h fs, bad, rw (← same) eq)

    -- The last round, and a round before it, by the result of the operation.
    last_round :
        (attempts : ℕ) (w : W) (r : Result X T)
        → (operation w).0 ≡ r
        → Outcome base_delay_ms operation zero attempts w (elim r [
          | ok result ↦ (ok result, (operation w).1)
          | err e ↦ (err (submission_failed (describe attempts e)), (operation w).1)
        ])
    last_round attempts w (ok a) h = inl (0, w, a, omega arith, no_failure, h, refl)
    last_round attempts w (err e) h =
        let same : attempts + 0 ≡ attempts = omega arith in inr (w, e, no_failure, h, rw same refl)

    round :
        (left attempts : ℕ) (w : W) (r : Result X T) (rest : Result CelestiaError T × W)
        → (operation w).0 ≡ r
        → Outcome base_delay_ms operation left
            (attempts + 1)
            (sleep (base_delay_ms * attempts % 2 ^ 64) (operation w).1)
            rest
        → Outcome base_delay_ms operation
            (suc left)
            attempts
            w
            (elim r [ ok result ↦ (ok result, (operation w).1) | err e ↦ rest ])
    round left attempts w (ok a) rest h o = inl (0, w, a, omega arith, no_failure, h, refl)
    round left attempts w (err e) rest h o = later left attempts w e h rest o

    retry_loop-Outcome :
        (left attempts : ℕ) (w : W)
        → Outcome base_delay_ms operation left attempts w
            (retry_loop base_delay_ms operation left attempts w)
    unfolding retry_loop
    retry_loop-Outcome zero attempts w = last_round attempts w _ refl
    retry_loop-Outcome (suc left) attempts w =
        round left attempts w _ _ refl (retry_loop-Outcome left (attempts + 1) _)

    -- `with_retry` returns the first success among its attempts, of which there are `max_retries`,
    -- or one if that is zero. If all fail, it returns the last failure with the number of attempts.
    -- After the n-th failure but the last it sleeps n times the base delay.
    pub with_retry-Outcome :
        (max_retries : ℕ) (w : W)
        → Outcome base_delay_ms operation
            (max_retries - 1)
            1
            w
            (with_retry max_retries base_delay_ms operation w)
    unfolding with_retry
    with_retry-Outcome max_retries w = retry_loop-Outcome (max_retries - 1) 1 w

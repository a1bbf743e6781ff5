-- ===== src/Executor/Deadline.antt =====
-- `block_on` of a future with a timeout: it ends, and by whichever comes first.
use wasabi.Base.{
  ℕ, zero, suc, ◌+◌, ◌*◌, ◌/◌, ◌%◌, ◌^◌, ◌<◌, ◌≡◌, refl, ◌∙◌, arith, Bool, true, false, Result, ok,
  err, failed, Option, some, ltb, ◌⊎◌, inl, inr, Bool-cases,
}
use wasabi.Executor.{Poll, ready, pending}
use wasabi.Executor.Wait.{block_on, WithTimeout, unstarted, waiting, poll_with_timeout}

Poll-cases {ℓ} : {A : Type ℓ} (p : Poll A) → ((a : A) × (p ≡ ready a)) ⊎ (p ≡ pending)
Poll-cases (ready a) = inl (a, refl)
Poll-cases pending = inr refl

module _ {S W A : Type 0} (poll_future : S → W → S × W × Poll A) (fuel : ℕ) (s s' : S)
    (w w' : W) where
  block_on_ready :
      (a : A)
      → poll_future s w ≡ (s', w', ready a)
      → block_on poll_future (suc fuel) s w ≡ some (a, w')
  unfolding block_on
  block_on_ready a e = ground arith

  block_on_pending :
      poll_future s w ≡ (s', w', pending)
      → block_on poll_future (suc fuel) s w ≡ block_on poll_future fuel s' w'
  unfolding block_on
  block_on_pending e = ground arith

module _ {W : Type 0} (main_counter : W → ℕ × W) (freq : ℕ) {S A : Type 0}
    (poll_future : S → W → S × W × Poll A) where
  -- One round: the clock is read, and then the future is polled, unless the time is over.
  abbrev pub expired : ℕ → W → Bool
  expired time_out w = ltb time_out (main_counter w).0

  abbrev pub polled : S → W → S × W × Poll A
  polled s w = poll_future s (main_counter w).1

  -- The future and the world after a number of rounds.
  unfoldable pub nth : ℕ → S → W → S × W
  nth zero s w = (s, w)
  nth (suc k) s w = nth k (polled s w).0 (polled s w).1

  -- What a wait that starts with the future `s` in the world `w` is meant to return.
  pub data Ends (time_out : ℕ) : S → W → Result A → Type 0 where
    late :
        (s : S) (w : W) → expired time_out w ≡ true → Ends time_out s w (err (failed "Timed out"))
    done :
        (s : S) (w : W) (a : A)
        → expired time_out w ≡ false
        → (polled s w).2 ≡ ready a
        → Ends time_out s w (ok a)
    again :
        (s : S) (w : W) (r : Result A)
        → expired time_out w ≡ false
        → (polled s w).2 ≡ pending
        → Ends time_out (polled s w).0 (polled s w).1 r
        → Ends time_out s w r

  abbrev state : ℕ → S → WithTimeout S
  state time_out s = waiting (record { left = record { time_out = time_out }; right = s })

  abbrev run : ℕ → ℕ → S → W → Option (Result A × W)
  run fuel time_out s w =
      block_on (poll_with_timeout main_counter freq poll_future) fuel (state time_out s) w

  module _ (time_out : ℕ) (s : S) (w : W) where
    abbrev one_poll : WithTimeout S × W × Poll (Result A)
    one_poll = poll_with_timeout main_counter freq poll_future (state time_out s) w

    round_late :
        expired time_out w ≡ true
        → one_poll ≡ (state time_out s, (main_counter w).1, ready (err (failed "Timed out")))
    unfolding poll_with_timeout
    round_late e = rw e refl

    round_done :
        (a : A)
        → expired time_out w ≡ false
        → (polled s w).2 ≡ ready a
        → one_poll ≡ (state time_out (polled s w).0, (polled s w).1, ready (ok a))
    unfolding poll_with_timeout
    round_done a e f = rw (e, f) refl

    round_again :
        expired time_out w ≡ false
        → (polled s w).2 ≡ pending
        → one_poll ≡ (state time_out (polled s w).0, (polled s w).1, pending)
    unfolding poll_with_timeout
    round_again e f = rw (e, f) refl

  wait_total :
      (rounds fuel time_out : ℕ) (s : S) (w : W)
      → rounds < fuel
      → expired time_out (nth rounds s w).1 ≡ true
      → (r : Result A) × (w' : W) × (run fuel time_out s w ≡ some (r, w')) × Ends time_out s w r
  unfolding nth
  wait_total rounds zero time_out s w lt over = elim lt [ ]
  wait_total rounds (suc fuel) time_out s w lt over = elim (Bool-cases (expired time_out w)) [
    | inl e ↦ (
      err (failed "Timed out"),
      (main_counter w).1,
      block_on_ready _ fuel _ _ w _ _ (round_late time_out s w e),
      late s w e,
    )
    | inr e ↦ elim (Poll-cases (polled s w).2) [
      | inl (a, f) ↦ (
        ok a,
        (polled s w).1,
        block_on_ready _ fuel _ _ w _ _ (round_done time_out s w a e f),
        done s w a e f,
      )
      | inr f ↦
          next rounds lt over e f
            (λ n h o. wait_total n fuel time_out (polled s w).0 (polled s w).1 h o)
    ]
  ]
    where
      Rest : ℕ → S → W → Type 0
      Rest k s' w' =
          (r : Result A) × (w'' : W) × (run k time_out s' w' ≡ some (r, w''))
          × Ends time_out s' w' r

      next :
          (n : ℕ)
          → n < suc fuel
          → expired time_out (nth n s w).1 ≡ true
          → expired time_out w ≡ false
          → (polled s w).2 ≡ pending
          → ((m : ℕ)
              → m < fuel
              → expired time_out (nth m (polled s w).0 (polled s w).1).1 ≡ true
              → Rest fuel (polled s w).0 (polled s w).1)
          → Rest (suc fuel) s w
      next zero h o e f rest = absurd (ground arith)
      next (suc n) h o e f rest =
          let (r, w', runs, ends) = rest n (omega arith) o in
          (
            r,
            w',
            block_on_pending _ fuel _ _ w _ (round_again time_out s w e f) ∙ runs,
            again s w r e f ends,
          )

  -- The time at which `with_timeout_ms` gives up, and the world after it has read the clock for it.
  abbrev deadline : ℕ → W → ℕ × W
  deadline ms w = ((((main_counter w).0 + freq / 1000 * ms % 2 ^ 64) % 2 ^ 64), (main_counter w).1)

  -- `block_on` of a future with a timeout returns if the clock passes the deadline at some round and
  -- there is fuel for one more; and it ends as it is meant to: at the first round at which the time
  -- is over, with the error, or at the first at which the future is ready, with its value; if both
  -- happen in one round, with the error.
  pub with_timeout_ms_total :
      (ms rounds fuel : ℕ) (s : S) (w : W)
      → rounds < fuel
      → expired (deadline ms w).0 (nth rounds s (deadline ms w).1).1 ≡ true
      → (r : Result A) × (w' : W) × (block_on
            (poll_with_timeout main_counter freq poll_future)
            fuel
            (unstarted s ms)
            w
          ≡ some (r, w'))
        × Ends (deadline ms w).0 s (deadline ms w).1 r
  unfolding block_on poll_with_timeout
  with_timeout_ms_total ms rounds zero s w lt over = elim lt [ ]
  with_timeout_ms_total ms rounds (suc fuel) s w lt over =
      wait_total rounds (suc fuel) (deadline ms w).0 s (deadline ms w).1 lt over

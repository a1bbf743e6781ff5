-- ===== src/Executor/Wait.antt =====
-- os/src/executor.rs: the futures that wait for a time or for one of two futures, and `block_on`.
-- The main counter of the HPET is a hardware register: reading it gives a number and a new world.
use wasabi.Base.{
  ℕ, zero, suc, ◌+◌, ◌*◌, ◌/◌, ◌%◌, ◌^◌, Result, failed, if◌then◌else◌, Option, none, some, ltb,
  ok_or,
}
use wasabi.Executor.{Poll, ready, pending}

-- `block_on`: the loop polls until the future is ready; `none` means that the fuel ran out.
module _ {S W A : Type 0} (poll_future : S → W → S × W × Poll A) where
  unfoldable pub block_on : ℕ → S → W → Option (A × W)
  block_on zero s w = none
  block_on (suc fuel) s w =
      let (s', w', answer) = poll_future s w in
      elim answer [ ready a ↦ some (a, w') | pending ↦ block_on fuel s' w' ]

pub record TimeoutFuture : Type 0 where
  pub time_out : ℕ

pub record SelectFuture (S T : Type 0) : Type 0 where
  pub left : S
  pub right : T

-- The left future is polled first; the right one only if the left one is pending.
module _ {S T W A B : Type 0} (poll_right : T → W → T × W × Poll B) where
  unfoldable pub poll_right_only :
      S × W × Poll A → T → SelectFuture S T × W × Poll (Option A × Option B)
  poll_right_only (left, w, ready a) right =
      (record { left = left; right = right }, w, ready (some a, none))
  poll_right_only (left, w, pending) right =
      let (right', w', answer) = poll_right right w in
      (
        record { left = left; right = right' },
        w',
        elim answer [ ready b ↦ ready (none, some b) | pending ↦ pending ],
      )

  unfoldable pub poll_select :
      (S → W → S × W × Poll A)
      → SelectFuture S T
      → W
      → SelectFuture S T × W × Poll (Option A × Option B)
  unfolding poll_right_only
  poll_select poll_left f w = poll_right_only (poll_left f.left w) f.right

-- The states of the future that `with_timeout_ms` returns: before its first poll, and waiting.
pub data WithTimeout (S : Type 0) : Type 0 where
  unstarted : S → ℕ → WithTimeout S
  waiting : SelectFuture TimeoutFuture S → WithTimeout S

abbrev pub timed_out : {A : Type 0} → Poll (Option (Unit {0}) × Option A) → Poll (Result A)
timed_out (ready (left, res)) = ready (ok_or res (failed "Timed out"))
timed_out pending = pending

module _ {W : Type 0} (main_counter : W → ℕ × W) (freq : ℕ) where
  unfoldable pub new_ms : ℕ → W → TimeoutFuture × W
  new_ms timeout_ms w =
      let (now, w') = main_counter w in
      (record { time_out = (now + freq / 1000 * timeout_ms % 2 ^ 64) % 2 ^ 64 }, w')

  unfoldable pub poll_timeout : TimeoutFuture → W → TimeoutFuture × W × Poll (Unit {0})
  poll_timeout t w =
      let (now, w') = main_counter w in (t, w', if ltb t.time_out now then ready tt else pending)

  module _ {S A : Type 0} (poll_future : S → W → S × W × Poll A) where
    unfoldable pub poll_waiting :
        SelectFuture TimeoutFuture S → W → WithTimeout S × W × Poll (Result A)
    unfolding poll_select poll_timeout
    poll_waiting f w =
        let (f', w', answer) = poll_select poll_future poll_timeout f w in
        (waiting f', w', timed_out answer)

    unfoldable pub poll_with_timeout : WithTimeout S → W → WithTimeout S × W × Poll (Result A)
    unfolding poll_waiting new_ms
    poll_with_timeout (unstarted f timeout) w =
        let (t, w') = new_ms timeout w in poll_waiting (record { left = t; right = f }) w'
    poll_with_timeout (waiting f) w = poll_waiting f w

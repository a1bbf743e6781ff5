-- ===== src/Examples/SyncTests.antt =====
-- os/src/mutex.rs and os/src/executor.rs at concrete inputs.
use wasabi.Base.{
  ℕ, ◌+◌, ◌-◌, ◌≡◌, refl, arith, true, false, Result, ok, [], ◌∷◌, some, if◌then◌else◌, ◌==◌, ◌++◌,
}
use wasabi.Mutex.{Mutex, new, max_tries, compare_exchange}
use wasabi.Mutex.Threads.{
  System, Reach, here, later, pick, call, take, inside, idle, trying, marking, update, replay,
}
use wasabi.Mutex.Exclusion.{start, mutual_exclusion, no_lost_update}
use wasabi.Executor.{Executor, Task, Turn, Poll, ready, pending, queue, poll_loop, poll_yield}
use wasabi.Executor.Fairness.{sweep, poll_loop-sweep}
use wasabi.Executor.Wait.{block_on, unstarted, poll_with_timeout}
use wasabi.Executor.Deadline.{with_timeout_ms_total, Ends, nth}

-- Thread 4 of a program with a lock around a number takes the lock.
abbrev locked : System ℕ
locked = record {
  mutex = record { content = 5; is_taken = true; taker_line_num = 0 };
  pc = update (update (λ i. idle) 4 (trying max_tries)) 4 marking;
  history = [];
}

locked-Reach : Reach (start 5) locked
unfolding new compare_exchange
locked-Reach = later (later here (pick 4 call)) (pick 4 (take refl))

mutual_exclusion_example :
    ((i j : ℕ) → inside (locked.pc i) ≡ true → inside (locked.pc j) ≡ true → i ≡ j)
    × ((i : ℕ) → inside (locked.pc i) ≡ true → locked.mutex.is_taken ≡ true)
    × (locked.mutex.is_taken ≡ true → (i : ℕ) × (inside (locked.pc i) ≡ true))
mutual_exclusion_example = mutual_exclusion 5 locked-Reach

no_lost_update_example : locked.mutex.content ≡ replay locked.history 5
no_lost_update_example = no_lost_update 5 locked-Reach

abbrev task : ℕ → Task ℕ
task n = record { future = n; created_at_file = "main.rs"; created_at_line = 1 }

-- A future that is ready at its third poll, and spawns another at its first.
abbrev poll_countdown : ℕ → ℕ → Turn ℕ ℕ
poll_countdown n w = record {
  future = n - 1;
  world = w + 1;
  spawned = if n == 2 then task 0 ∷ [] else [];
  answer = if n == 0 then ready (ok tt) else pending;
}

abbrev two_tasks : Mutex (Executor ℕ)
two_tasks = record {
  content = record { task_queue = some (task 2 ∷ task 0 ∷ []) };
  is_taken = false;
  taker_line_num = 0;
}

-- The task that was spawned stands before the one that spawned it; the finished one is gone.
swept : (sweep poll_countdown (task 2 ∷ task 0 ∷ []) 0).0 ≡ task 0 ∷ task 1 ∷ []
unfolding sweep
swept = refl

poll_loop-sweep_example :
    (m' : Mutex (Executor ℕ)) × (poll_loop poll_countdown 2 two_tasks 0
      ≡ ok (m', (sweep poll_countdown (task 2 ∷ task 0 ∷ []) 0).1))
    × (m'.is_taken ≡ false)
    × (queue m'.content ≡ [] ++ (sweep poll_countdown (task 2 ∷ task 0 ∷ []) 0).0)
unfolding queue
poll_loop-sweep_example =
    poll_loop-sweep poll_countdown (task 2 ∷ task 0 ∷ []) [] 0 two_tasks refl refl

yields_once : (poll_yield (poll_yield false).0).1 ≡ ready tt
unfolding poll_yield
yields_once = refl

-- A clock that advances by one at each reading, and a future that is never ready.
abbrev clock : ℕ → ℕ × ℕ
clock w = (w, w + 1)

abbrev poll_never : ℕ → ℕ → ℕ × ℕ × Poll ℕ
poll_never s w = (s, w, pending)

with_timeout_ms_total_example :
    (r : Result ℕ) × (w' : ℕ) × (block_on
        (poll_with_timeout clock 1000 poll_never)
        10
        (unstarted 0 3)
        100
      ≡ some (r, w'))
    × Ends clock 1000 poll_never 103 0 101 r
unfolding nth
with_timeout_ms_total_example =
    with_timeout_ms_total clock 1000 poll_never 3 3 10 0 100 (omega arith) refl

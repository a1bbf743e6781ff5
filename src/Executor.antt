-- ===== src/Executor.antt =====
-- os/src/executor.rs: the queue of tasks, the futures that wait, and the loops that drive them.
-- A future is a state and a function that polls it; what the rest of the kernel does in a poll is
-- the world that it returns. A waker does nothing, so a context is not modelled. No other processor
-- or interrupt handler takes the executor's lock.
pub mod Fairness
pub mod Wait
pub mod Deadline
use wasabi.Base.{
  ℕ, zero, suc, ◌+◌, ◌*◌, ◌/◌, Bool, true, false, Result, ok, err, panic, failed, if◌then◌else◌,
  ◌>>=◌, String, List, [], ◌∷◌, ◌++◌, Option, none, some, ltb, ok_or, ◌^◌, ◌%◌,
}
use wasabi.Mutex.{Mutex, lock, release, under_locked, alone}

pub data Poll {ℓ} (A : Type ℓ) : Type ℓ where
  ready : A → Poll A
  pending : Poll A

-- `Yield`: the flag `polled`, and what `fetch_or(true)` finds
unfoldable pub poll_yield : Bool → Bool × Poll (Unit {0})
poll_yield polled = (true, if polled then ready tt else pending)

pub record Task (F : Type 0) : Type 0 where
  pub future : F
  pub created_at_file : String
  pub created_at_line : ℕ

pub record Executor (F : Type 0) : Type 0 where
  pub task_queue : Option (List (Task F))

-- What a poll of a future does: its new state, the world, the tasks that it spawns, its answer.
pub record Turn (F W : Type 0) : Type 0 where
  pub future : F
  pub world : W
  pub spawned : List (Task F)
  pub answer : Poll (Result (Unit {0}))

module _ {F : Type 0} where
  unfoldable pub default : Executor F
  default = record { task_queue = none }

  -- `task_queue()`: the queue, made on first use
  unfoldable pub queue : Executor F → List (Task F)
  queue e = elim e.task_queue [ none ↦ [] | some ts ↦ ts ]

  unfoldable pub push_back : Task F → Executor F → Executor F × Result (Unit {0})
  push_back t e = (record { task_queue = some (queue e ++ t ∷ []) }, ok tt)

  abbrev pub first : List (Task F) → List (Task F) × Option (Task F)
  first [] = ([], none)
  first (t ∷ ts) = (ts, some t)

  unfoldable pub pop_front : Executor F → Executor F × Result (Option (Task F))
  pop_front e = (record { task_queue = some (first (queue e)).0 }, ok (first (queue e)).1)

  -- `executor.lock()` for one statement: the guard is dropped at its end.
  abbrev pub locked :
      {R : Type 0}
      → (Executor F → Executor F × Result R)
      → Mutex (Executor F)
      → Result (Mutex (Executor F) × Result R)
  locked f m = under_locked alone 0 f m

  -- `spawn_global`
  unfoldable pub spawn_global : Task F → Mutex (Executor F) → Result (Mutex (Executor F))
  spawn_global t m = locked (push_back t) m >>= λ (m', _). ok m'

  unfoldable pub spawn_all : List (Task F) → Mutex (Executor F) → Result (Mutex (Executor F))
  spawn_all [] m = ok m
  spawn_all (t ∷ ts) m = spawn_global t m >>= λ m'. spawn_all ts m'

module _ {F W : Type 0} (poll_future : F → W → Turn F W) where
  -- After a poll, the task is done, or goes to the back of the queue.
  unfoldable pub requeue :
      Task F → Poll (Result (Unit {0})) → Mutex (Executor F) → Result (Mutex (Executor F))
  requeue t (ready result) m = ok m
  requeue t pending m = spawn_global t m

  unfoldable pub run_task : Task F → W → Mutex (Executor F) → Result (Mutex (Executor F) × W)
  run_task t w m =
      let turn = poll_future t.future w in
      spawn_all turn.spawned m >>= λ m1.
      requeue (record t { future = turn.future }) turn.answer m1 >>= λ m2. ok (m2, turn.world)

  unfoldable pub run_front :
      Result (Option (Task F)) → W → Mutex (Executor F) → Result (Mutex (Executor F) × W)
  run_front (ok (some t)) w m = run_task t w m
  run_front (ok none) w m = ok (m, w)
  run_front (err e) w m = ok (m, w)
  run_front panic w m = ok (m, w)

  -- `Executor::poll`
  unfoldable pub poll : Mutex (Executor F) → W → Result (Mutex (Executor F) × W)
  poll m w = locked pop_front m >>= λ (m1, task). run_front task w m1

  -- `run_global_poll_loop`, for a number of rounds
  unfoldable pub poll_loop : ℕ → Mutex (Executor F) → W → Result (Mutex (Executor F) × W)
  poll_loop zero m w = ok (m, w)
  poll_loop (suc rounds) m w = poll m w >>= λ (m', w'). poll_loop rounds m' w'

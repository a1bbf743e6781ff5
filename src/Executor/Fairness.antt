-- ===== src/Executor/Fairness.antt =====
-- The executor is fair: a sweep over the queue polls each task once, in order.
use wasabi.Base.{
  ◌≡◌, refl, ap, sym, ◌∙◌, false, Result, ok, ◌>>=◌, List, [], ◌∷◌, ◌++◌, some, length,
  append_assoc, append-nil,
}
use wasabi.Mutex.{Mutex}
use wasabi.Mutex.Retry.{under_locked_lem}
use wasabi.Executor.{
  Executor, Task, Turn, Poll, ready, pending, queue, push_back, pop_front, spawn_global, spawn_all,
  requeue, run_task, run_front, poll, poll_loop,
}

module _ {F : Type 0} where
  -- A run of the executor's code that ends with the lock free, and a given queue.
  pub record Leaves (m : Mutex (Executor F)) (ts : List (Task F)) : Type 0 where
    pub free : m.is_taken ≡ false
    pub queued : queue m.content ≡ ts

  Spawned : List (Task F) → List (Task F) → Result (Mutex (Executor F)) → Type 0
  Spawned ts more out = (m : Mutex (Executor F)) × (out ≡ ok m) × Leaves m (ts ++ more)

  spawn_global_lem :
      (t : Task F) (m : Mutex (Executor F)) (ts : List (Task F))
      → Leaves m ts
      → (m' : Mutex (Executor F)) × (spawn_global t m ≡ ok m') × Leaves m' (ts ++ t ∷ [])
  unfolding spawn_global push_back queue
  spawn_global_lem t m ts h = (
    record { content = (push_back t m.content).0; is_taken = false; taker_line_num = 0 },
    ap (λ r. r >>= λ (m', _). ok m') (under_locked_lem 0 (push_back t) m h.free),
    record { free = refl; queued = ap (λ q. q ++ t ∷ []) h.queued },
  )

  spawn_all_lem :
      (new : List (Task F)) (m : Mutex (Executor F)) (ts : List (Task F))
      → Leaves m ts
      → (m' : Mutex (Executor F)) × (spawn_all new m ≡ ok m') × Leaves m' (ts ++ new)
  unfolding spawn_all
  spawn_all_lem [] m ts h =
      (m, refl, record { free = h.free; queued = h.queued ∙ sym (append-nil ts) })
  spawn_all_lem (t ∷ new) m ts h =
      let (m1, e, h1) = spawn_global_lem t m ts h in
      let (m2, e2, h2) = spawn_all_lem new m1 (ts ++ t ∷ []) h1 in
      (m2, rw e e2, record { free = h2.free; queued = h2.queued ∙ append_assoc ts (t ∷ []) new })

  module _ {W : Type 0} (poll_future : F → W → Turn F W) where
    abbrev pub unfinished : Task F → Poll (Result (Unit {0})) → List (Task F)
    unfinished t (ready result) = []
    unfinished t pending = t ∷ []

    -- What a task adds to the queue when it is polled: the tasks that it spawns, and then itself,
    -- if it is not done.
    unfoldable pub adds : Task F → W → List (Task F)
    adds t w =
        (poll_future t.future w).spawned
        ++ unfinished (record t { future = (poll_future t.future w).future })
            (poll_future t.future w).answer

    unfoldable pub after : Task F → W → W
    after t w = (poll_future t.future w).world

    requeue_lem :
        (t : Task F) (a : Poll (Result (Unit {0}))) (m : Mutex (Executor F)) (ts : List (Task F))
        → Leaves m ts
        → (m' : Mutex (Executor F)) × (requeue poll_future t a m ≡ ok m')
          × Leaves m' (ts ++ unfinished t a)
    unfolding requeue
    requeue_lem t (ready result) m ts h =
        (m, refl, record { free = h.free; queued = h.queued ∙ sym (append-nil ts) })
    requeue_lem t pending m ts h = spawn_global_lem t m ts h

    run_task_lem :
        (t : Task F) (w : W) (m : Mutex (Executor F)) (ts : List (Task F))
        → Leaves m ts
        → (m' : Mutex (Executor F)) × (run_task poll_future t w m ≡ ok (m', after t w))
          × Leaves m' (ts ++ adds t w)
    unfolding run_task adds after
    run_task_lem t w m ts h =
        let turn : Turn F W = poll_future t.future w in
        let (m1, e1, h1) = spawn_all_lem turn.spawned m ts h in
        let (m2, e2, h2) =
          requeue_lem (record t { future = turn.future }) turn.answer m1 (ts ++ turn.spawned) h1 in
        (
          m2,
          rw (e1, e2) refl,
          record { free = h2.free; queued = h2.queued ∙ append_assoc ts turn.spawned _ },
        )

    poll_lem :
        (t : Task F) (w : W) (m : Mutex (Executor F)) (ts : List (Task F))
        → Leaves m (t ∷ ts)
        → (m' : Mutex (Executor F)) × (poll poll_future m w ≡ ok (m', after t w))
          × Leaves m' (ts ++ adds t w)
    unfolding poll run_front pop_front
    poll_lem t w m ts h =
        let m1 : Mutex (Executor F) = record {
          content = record { task_queue = some ts };
          is_taken = false;
          taker_line_num = 0;
        } in
        let (m2, e, h2) =
          run_task_lem t w m1 ts (record { free = refl; queued = unfold queue in refl }) in
        (m2, rw (under_locked_lem 0 pop_front m h.free, h.queued) e, h2)

    -- The tasks polled one after another: all that they add to the queue, and the world.
    unfoldable pub sweep : List (Task F) → W → List (Task F) × W
    unfolding adds after
    sweep [] w = ([], w)
    sweep (t ∷ ts) w = (adds t w ++ (sweep ts (after t w)).0, (sweep ts (after t w)).1)

    -- From a free lock and a queue that starts with `ts`, as many polls as `ts` has tasks do not panic
    -- and poll each of these once, in their order: what they add stands behind the rest of the queue,
    -- each in its turn, and the lock is free again.
    pub poll_loop-sweep :
        (ts rest : List (Task F)) (w : W) (m : Mutex (Executor F))
        → m.is_taken ≡ false
        → queue m.content ≡ ts ++ rest
        → (m' : Mutex (Executor F)) × (poll_loop poll_future (length ts) m w
            ≡ ok (m', (sweep ts w).1))
          × (m'.is_taken ≡ false)
          × (queue m'.content ≡ rest ++ (sweep ts w).0)
    unfolding poll_loop sweep
    poll_loop-sweep [] rest w m free q = (m, refl, free, q ∙ sym (append-nil rest))
    poll_loop-sweep (t ∷ ts) rest w m free q =
        let (m1, e1, h1) = poll_lem t w m (ts ++ rest) (record { free = free; queued = q }) in
        let (m2, e2, free2, q2) =
          poll_loop-sweep ts (rest ++ adds t w) (after t w) m1 h1.free
            (h1.queued ∙ append_assoc ts rest (adds t w)) in
        (m2, rw e1 e2, free2, q2 ∙ append_assoc rest (adds t w) (sweep ts (after t w)).0)

-- ===== src/Mutex/Exclusion.antt =====
-- At most one thread is between taking the flag and giving it back, and no update is lost.
use wasabi.Base.{ℕ, ◌≡◌, refl, arith, true, List, [], ==_refl}
use wasabi.Mutex.{Mutex, compare_exchange, release, new}
use wasabi.Mutex.Threads.{
  Pc, idle, working, inside, System, update, Move, call, take, miss, give_up, mark, load, store,
  drop, log, Step, pick, Reach, here, later, replay,
}

module _ {A : Type 0} (initial : A) where
  -- What holds of every state that is reached.
  pub record IsExclusive (s : System A) : Type 0 where
    pub one : (i j : ℕ) → inside (s.pc i) ≡ true → inside (s.pc j) ≡ true → i ≡ j
    pub held : (i : ℕ) → inside (s.pc i) ≡ true → s.mutex.is_taken ≡ true
    pub held_by : s.mutex.is_taken ≡ true → (i : ℕ) × (inside (s.pc i) ≡ true)
    pub current : (i : ℕ) (f : A → A) (a : A) → s.pc i ≡ working f a → s.mutex.content ≡ a
    pub atomic : s.mutex.content ≡ replay s.history initial

  Move-IsExclusive :
      (m : Mutex A) (q : ℕ → Pc A) (h : List (A → A)) (i : ℕ) {p p' : Pc A} {m' : Mutex A}
      {fs : List (A → A)}
      → IsExclusive (record { mutex = m; pc = q; history = h })
      → q i ≡ p
      → Move m p m' p' fs
      → IsExclusive (record { mutex = m'; pc = update q i p'; history = log fs h })
  unfolding compare_exchange release
  Move-IsExclusive m q h i v e call = grind arith
  Move-IsExclusive m q h i v e (take t) = record {
    one = grind arith;
    held = grind arith;
    held_by = λ _. (i, rw (==_refl i));
    current = grind arith;
    atomic = grind arith;
  }
  Move-IsExclusive m q h i v e (miss t) = grind arith
  Move-IsExclusive m q h i v e give_up = grind arith
  Move-IsExclusive m q h i v e (mark line) = grind arith
  Move-IsExclusive m q h i v e (load f) = grind arith
  Move-IsExclusive m q h i v e store = grind arith
  Move-IsExclusive m q h i v e drop = grind arith

  Step-IsExclusive : {s t : System A} → IsExclusive s → Step s t → IsExclusive t
  Step-IsExclusive {s} v (pick i move) = Move-IsExclusive s.mutex s.pc s.history i v refl move

  Reach-IsExclusive : {s t : System A} → IsExclusive s → Reach s t → IsExclusive t
  Reach-IsExclusive v here = v
  Reach-IsExclusive v (later r step) = Step-IsExclusive (Reach-IsExclusive v r) step

  -- A new lock, and no thread at work.
  abbrev pub start : System A
  unfolding new
  start = record { mutex = new initial; pc = λ _. idle; history = [] }

  start-IsExclusive : IsExclusive start
  unfolding new
  start-IsExclusive = record {
    one = λ i j h k. cc;
    held = λ i h. cc;
    held_by = λ h. cc;
    current = λ i f a h. cc;
    atomic = refl;
  }

  -- In every interleaving, two threads that are both between taking the flag and giving it back are
  -- one thread; and the flag is set exactly when there is such a thread.
  pub mutual_exclusion :
      {s : System A}
      → Reach start s
      → ((i j : ℕ) → inside (s.pc i) ≡ true → inside (s.pc j) ≡ true → i ≡ j)
        × ((i : ℕ) → inside (s.pc i) ≡ true → s.mutex.is_taken ≡ true)
        × (s.mutex.is_taken ≡ true → (i : ℕ) × (inside (s.pc i) ≡ true))
  mutual_exclusion r = let v = Reach-IsExclusive start-IsExclusive r in (v.one, v.held, v.held_by)

  -- In every interleaving, the content is the initial one after the completed updates, each applied
  -- whole in the order of completion, though reading and writing back are separate accesses.
  pub no_lost_update : {s : System A} → Reach start s → s.mutex.content ≡ replay s.history initial
  no_lost_update r = (Reach-IsExclusive start-IsExclusive r).atomic

-- ===== src/Mutex/Threads.antt =====
-- Threads that share one lock, their atomic accesses interleaved in any order.
use wasabi.Base.{ℕ, zero, suc, ◌≡◌, Bool, true, false, ◌==◌, if◌then◌else◌, List, [], ◌∷◌}
use wasabi.Mutex.{Mutex, compare_exchange, release, max_tries}

-- Where a thread is: outside, in the loop of `lock` with the tries left, about to store its line,
-- holding a guard, or with the content read through it and about to be written back.
pub data Pc (A : Type 0) : Type 0 where
  idle : Pc A
  trying : ℕ → Pc A
  marking : Pc A
  holding : Pc A
  working : (A → A) → A → Pc A
  panicked : Pc A

-- Whether a thread has taken the flag and not yet given it back.
abbrev pub inside : {A : Type 0} → Pc A → Bool
inside idle = false
inside (trying k) = false
inside marking = true
inside holding = true
inside (working f a) = true
inside panicked = false

-- `history` records the updates that were written back, the last one first.
pub record System (A : Type 0) : Type 0 where
  pub mutex : Mutex A
  pub pc : ℕ → Pc A
  pub history : List (A → A)

module _ {A : Type 0} where
  abbrev pub update : (ℕ → Pc A) → ℕ → Pc A → ℕ → Pc A
  update f i p j = if i == j then p else f j

  -- One atomic access of a thread, with the update that it completes.
  pub data Move (m : Mutex A) : Pc A → Mutex A → Pc A → List (A → A) → Type 0 where
    call : Move m idle m (trying max_tries) []
    take :
        {m' : Mutex A} {k : ℕ}
        → compare_exchange m ≡ (true, m')
        → Move m (trying (suc k)) m' marking []
    miss :
        {m' : Mutex A} {k : ℕ}
        → compare_exchange m ≡ (false, m')
        → Move m (trying (suc k)) m' (trying k) []
    give_up : Move m (trying zero) m panicked []
    mark : (line : ℕ) → Move m marking (record m { taker_line_num = line }) holding []
    load : (f : A → A) → Move m holding m (working f m.content) []
    store : {f : A → A} {a : A} → Move m (working f a) (record m { content = f a }) holding (f ∷ [])
    drop : Move m holding (release m) idle []

  abbrev pub log : List (A → A) → List (A → A) → List (A → A)
  log [] h = h
  log (f ∷ fs) h = f ∷ log fs h

  pub data Step (s : System A) : System A → Type 0 where
    pick :
        (i : ℕ) {m : Mutex A} {p : Pc A} {fs : List (A → A)}
        → Move s.mutex (s.pc i) m p fs
        → Step s (record { mutex = m; pc = update s.pc i p; history = log fs s.history })

  pub data Reach (s : System A) : System A → Type 0 where
    here : Reach s s
    later : {t u : System A} → Reach s t → Step t u → Reach s u

-- The updates applied one after another, the last of the list first.
abbrev pub replay : {A : Type 0} → List (A → A) → A → A
replay [] a = a
replay (f ∷ fs) a = f (replay fs a)

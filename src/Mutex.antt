-- ===== src/Mutex.antt =====
-- The lock of os/src/mutex.rs: an atomic flag, tried ten thousand times, and the guard's release.
-- Each method is a function of the lock; Threads interleaves the atomic accesses of many threads.
pub mod Threads
pub mod Exclusion
pub mod Retry
use wasabi.Base.{
  ℕ, zero, suc, ◌+◌, Bool, true, false, Result, ok, err, panic, lock_failed, if◌then◌else◌, ◌>>=◌,
}

-- The cells of a `Mutex<A>`.
pub record Mutex {ℓ} (A : Type ℓ) : Type ℓ where
  pub content : A
  pub is_taken : Bool
  pub taker_line_num : ℕ

-- How often `lock` tries
abbrev pub max_tries : ℕ
max_tries = 10000

-- `if let Ok(locked) = …`
abbrev pub is_ok {ℓ} : {A : Type ℓ} → Result A → Bool
is_ok (ok a) = true
is_ok (err e) = false
is_ok panic = false

module _ {ℓ} {A : Type ℓ} where
  unfoldable pub new : A → Mutex A
  new a = record { content = a; is_taken = false; taker_line_num = 0 }

  -- `compare_exchange(false, true)`: whether it took the flag, and the flag afterwards
  unfoldable pub compare_exchange : Mutex A → Bool × Mutex A
  compare_exchange m = if m.is_taken then (false, m) else (true, record m { is_taken = true })

  -- A guard is the right to use the content; `ok` stands for it.
  unfoldable pub try_lock : ℕ → Mutex A → Result (Unit {0}) × Mutex A
  unfolding compare_exchange
  try_lock line m =
      let (taken, m') = compare_exchange m in
      if taken then (ok tt, record m' { taker_line_num = line }) else (err lock_failed, m')

  -- `Drop` of the guard
  unfoldable pub release : Mutex A → Mutex A
  release m = record m { is_taken = false }

  -- The loop of `lock`, by the tries left; `others` is what other threads do to the lock before
  -- each try.
  unfoldable pub lock_loop : (ℕ → Mutex A → Mutex A) → ℕ → ℕ → Mutex A → Result (Mutex A)
  lock_loop others zero line m = panic
  lock_loop others (suc tries) line m =
      let rest = lock_loop others tries line (try_lock line (others tries m)).1 in
      if is_ok (try_lock line (others tries m)).0
      then ok (try_lock line (others tries m)).1
      else rest

  unfoldable pub lock : (ℕ → Mutex A → Mutex A) → ℕ → Mutex A → Result (Mutex A)
  lock others line m = lock_loop others max_tries line m

  -- `under_locked`: the guard is dropped on both results of `f`.
  unfoldable pub under_locked {κ} :
      {R : Type κ}
      → (ℕ → Mutex A → Mutex A)
      → ℕ
      → (A → A × Result R)
      → Mutex A
      → Result (Mutex A × Result R)
  under_locked others line f m = lock others line m >>= λ m'.
      ok (release (record m' { content = (f m'.content).0 }), (f m'.content).1)

-- No other thread touches the lock.
abbrev pub alone {ℓ} : {A : Type ℓ} → ℕ → Mutex A → Mutex A
alone k m = m

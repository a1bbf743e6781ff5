-- ===== src/Mutex/Retry.antt =====
-- `lock` takes the flag at the first try that finds it free, and panics if there is none.
use wasabi.Base.{
  ℕ, zero, suc, ◌<◌, ◌≡◌, refl, arith, true, false, Result, ok, err, panic, lock_failed,
}
use wasabi.Mutex.{
  Mutex, try_lock, lock_loop, lock, under_locked, alone, release, max_tries, compare_exchange,
}

module _ {ℓ} {A : Type ℓ} (others : ℕ → Mutex A → Mutex A) where
  -- The lock that try number `k` meets, if the tries before it failed.
  abbrev pub seen : ℕ → Mutex A → ℕ → Mutex A
  seen zero m k = m
  seen (suc tries) m zero = others tries m
  seen (suc tries) m (suc k) = seen tries (others tries m) k

  abbrev pub taken_by : ℕ → Mutex A → Mutex A
  taken_by line m = record m { is_taken = true; taker_line_num = line }

  module _ (line : ℕ) where
    try_free : (m : Mutex A) → m.is_taken ≡ false → try_lock line m ≡ (ok tt, taken_by line m)
    unfolding try_lock compare_exchange
    try_free m e = ground arith

    try_taken : (m : Mutex A) → m.is_taken ≡ true → try_lock line m ≡ (err lock_failed, m)
    unfolding try_lock compare_exchange
    try_taken m e = ground arith

    pub lock_loop_free :
        (tries : ℕ) (m : Mutex A) (k : ℕ)
        → k < tries
        → ((j : ℕ) → j < k → (seen tries m j).is_taken ≡ true)
        → (seen tries m k).is_taken ≡ false
        → lock_loop others tries line m ≡ ok (taken_by line (seen tries m k))
    unfolding lock_loop
    lock_loop_free zero m k lt before free = absurd (omega arith)
    lock_loop_free (suc tries) m zero lt before free = rw (try_free (others tries m) free) refl
    lock_loop_free (suc tries) m (suc k) lt before free =
        rw (try_taken (others tries m) (before 0 (omega arith))) (
          lock_loop_free tries (others tries m) k (omega arith)
            (λ j h. before (suc j) (omega arith)) free)

    pub lock_loop_taken :
        (tries : ℕ) (m : Mutex A)
        → ((j : ℕ) → j < tries → (seen tries m j).is_taken ≡ true)
        → lock_loop others tries line m ≡ panic
    unfolding lock_loop
    lock_loop_taken zero m all = refl
    lock_loop_taken (suc tries) m all =
        rw (try_taken (others tries m) (all 0 (omega arith)))
          (lock_loop_taken tries (others tries m) (λ j h. all (suc j) (omega arith)))

    -- The first of the ten thousand tries that finds the flag free takes the lock, as that try found
    -- it; if every try finds the flag set, `lock` panics.
    pub lock_lem :
        (m : Mutex A)
        → ((k : ℕ)
            → k < max_tries
            → ((j : ℕ) → j < k → (seen max_tries m j).is_taken ≡ true)
            → (seen max_tries m k).is_taken ≡ false
            → lock others line m ≡ ok (taken_by line (seen max_tries m k)))
          × (((j : ℕ) → j < max_tries → (seen max_tries m j).is_taken ≡ true)
              → lock others line m ≡ panic)
    unfolding lock
    lock_lem m = (lock_loop_free max_tries m, lock_loop_taken max_tries m)

-- A free lock that nobody else uses is taken at the first try, and given back whatever `f` returns.
pub under_locked_lem {ℓ κ} :
    {A : Type ℓ} {R : Type κ} (line : ℕ) (f : A → A × Result R) (m : Mutex A)
    → m.is_taken ≡ false
    → under_locked alone line f m
      ≡ ok (
        record { content = (f m.content).0; is_taken = false; taker_line_num = line },
        (f m.content).1,
      )
unfolding under_locked release
under_locked_lem line f m free =
    rw ((lock_lem alone line m).0 0 (omega arith) (λ j h. absurd (omega arith)) free) refl

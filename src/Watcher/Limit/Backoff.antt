-- ===== src/Watcher/Limit/Backoff.antt =====
-- The bounds of the schedule that a usage-limited worker is tried on.
use secondhand.Base.{ℕ, zero, suc, ◌+◌, ◌*◌, ◌≤◌, ◌≡◌, ◌≢◌, refl, arith}
use secondhand.Base.Int.{pos, negsuc}
use secondhand.Watcher.Limit.{
  limit_floor, limit_backoff_cap, limit_max_wait, limit_skew, backoff_loop, limit_backoff,
  next_limit_retry,
}

-- The waits in a row: ten, twenty and forty minutes, and then the hour.
abbrev pub wait_table : ℕ → ℕ
wait_table zero = limit_floor
wait_table (suc zero) = limit_floor * 2
wait_table (suc (suc zero)) = limit_floor * 4
wait_table _ = limit_backoff_cap

backoff_loop_past : (n wait : ℕ) → limit_backoff_cap ≤ wait → backoff_loop n wait ≡ wait
unfolding backoff_loop
backoff_loop_past zero wait h = refl
backoff_loop_past (suc n) wait h = ground arith

-- The backoff after any number of attempts is ten minutes, twenty, forty, and an hour from the third
-- attempt on; a negative count waits as none does.
pub limit_backoff-wait_table :
    (attempts : ℕ)
    → (limit_backoff (pos attempts) ≡ wait_table attempts)
      × (limit_backoff (negsuc attempts) ≡ limit_floor)
unfolding limit_backoff backoff_loop
limit_backoff-wait_table zero = (refl, refl)
limit_backoff-wait_table (suc zero) = (refl, refl)
limit_backoff-wait_table (suc (suc zero)) = (refl, refl)
limit_backoff-wait_table (suc (suc (suc n))) =
    (ground (arith, backoff_loop_past n (limit_floor * 8) (omega arith)), refl)

limit_backoff_bounds :
    (attempts : ℕ)
    → (limit_floor ≤ limit_backoff (pos attempts))
      × (limit_backoff (pos attempts) ≤ limit_backoff_cap)
limit_backoff_bounds attempts = rw (limit_backoff-wait_table attempts).0 (ground arith)

-- The next try is never sooner than ten minutes from now, never later than a day from now, and, where
-- the harness named a reset at most a day away, never sooner than a minute after that reset.
pub next_limit_retry_bounds :
    (reset attempts now : ℕ)
    → (now + limit_floor ≤ next_limit_retry reset attempts now)
      × (next_limit_retry reset attempts now ≤ now + limit_max_wait)
      × (reset ≢ 0
          → reset + limit_skew ≤ now + limit_max_wait
          → reset + limit_skew ≤ next_limit_retry reset attempts now)
unfolding next_limit_retry
next_limit_retry_bounds reset attempts now = ground (arith, limit_backoff_bounds attempts)

-- ===== src/Watcher/Limit.antt =====
-- When a worker that stopped on a usage limit is tried again, and what the operator reads of it
-- (internal/watcher/usagelimit.go). Durations are nanoseconds. `LimitAttempts` is an `int` that only
-- ever counts up from 0.
pub mod Backoff
use Prim.Native.String
use secondhand.Base.{
  ℕ, zero, suc, ◌+◌, ◌-◌, ◌*◌, String, Bool, true, false, ◌||◌, Bytes, bytes_equal, leb, ltb,
  nat_beq, if◌then◌else◌,
}
use secondhand.Base.Int.{ℤ, pos, negsuc}
use secondhand.Age.{second, minute, hour, decimal}
use secondhand.Report.Line.{report_done, report_failed}
use secondhand.Watcher.State.{TaskState}

abbrev pub limit_floor : ℕ
limit_floor = 10 * minute

abbrev pub limit_backoff_cap : ℕ
limit_backoff_cap = hour

abbrev pub limit_max_wait : ℕ
limit_max_wait = 24 * hour

abbrev pub limit_skew : ℕ
limit_skew = minute

abbrev pub limit_stuck_after : ℕ
limit_stuck_after = 6

-- `for range attempts`, left at the cap.
unfoldable pub backoff_loop : ℕ → ℕ → ℕ
backoff_loop zero wait = wait
backoff_loop (suc attempts) wait = elim (leb limit_backoff_cap wait) [
  | true ↦ wait
  | false ↦ backoff_loop attempts (wait * 2)
]

abbrev pub not_negative : ℤ → ℕ
not_negative (pos n) = n
not_negative (negsuc n) = 0

unfoldable pub limit_backoff : ℤ → ℕ
unfolding backoff_loop
limit_backoff attempts =
    let wait = backoff_loop (not_negative attempts) limit_floor in
    if ltb limit_backoff_cap wait then limit_backoff_cap else wait

-- The wait behind a reset that the harness named. A difference that is negative is below every wait,
-- as 0 is.
abbrev pub wait_for : ℕ → ℕ → ℕ → ℕ
wait_for reset now wait =
    if nat_beq reset 0
    then wait
    else if ltb wait (reset + limit_skew - now)
    then reset + limit_skew - now
    else wait

unfoldable pub next_limit_retry : ℕ → ℕ → ℕ → ℕ
next_limit_retry reset attempts now =
    let wait = wait_for reset now (limit_backoff (pos attempts)) in
    now + (if ltb limit_max_wait wait then limit_max_wait else wait)

unfoldable pub report_ends_task : Bytes → Bool
report_ends_task last_state =
    bytes_equal last_state report_done || bytes_equal last_state report_failed

pub attempt_count : ℕ → String
attempt_count attempts =
    if nat_beq attempts 0
    then "no attempts"
    else if nat_beq attempts 1
    then "1 attempt"
    else String.◌++◌ (decimal attempts) " attempts"

-- `rfc3339` is Go's formatting of an instant.
pub limit_reason : (ℕ → String) → TaskState → String
limit_reason rfc3339 ts =
    if ts.limit_resume_blocked
    then "automatic usage-limit resume is unresolved or submitted; no automatic resend will be attempted"
    else String.◌++◌ "harness stopped on a usage limit; " (
        String.◌++◌ (attempt_count ts.limit_attempts)
          (String.◌++◌ " made, next try " (rfc3339 ts.limit_retry_at)))

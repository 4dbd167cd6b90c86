-- ===== src/Watcher/Episodes.antt =====
-- The usage-limit episodes of a worker (internal/watcher/usagelimit.go), over the store's holds and
-- the steering of its pane, and `normalizePendingResume` of internal/watcher/watcher.go. Task ids come
-- from the store, whose writers have validated them. What a task's file locks, the clock and the pane
-- answer is an argument, `Tick`.
pub mod Schedule
pub mod Unresolved
use secondhand.Base.{
  ℕ, ◌+◌, String, Bool, true, false, ◌||◌, ◌&&◌, not, Bytes, codes, Option, none, some, ltb, leb,
  if◌then◌else◌, ◌==◌, nat_beq, nat_eq, string_eq, Result, ok, err,
}
use secondhand.Base.Int.{ℤ, pos, negsuc, int_equal}
use secondhand.Store.Types.{
  Task, Attempt, Hold, SendAttempt, SendState, is_task, is_attempt, is_send, open_, running,
  not_submitted, usage_limit_resume,
}
use secondhand.Store.Tables.{Tables, Engine, StoreError}
use secondhand.Store.History.{TaskHistory, HistoryError, read_task_history}
use secondhand.Store.Sends.{same_herdr, is_origin, pending_send, normalize_pending_send}
use secondhand.Store.Holds.{set_hold_if_not_other_kind, clear_hold_if_kind}
use secondhand.Steering.Request.{
  LockAnswer, lock_held, lock_taken, lock_broken, by_lock, SteeringError, Answers, Request,
}
use secondhand.Steering.Execution.{execute}
use secondhand.Watcher.State.{
  TaskState, Event, event, noted, not_busy, status_working, status_blocked, kind_usage_limit,
  kind_usage_limit_resumed, kind_usage_limit_stuck,
}
use secondhand.Watcher.Limit.{
  limit_stuck_after, next_limit_retry, report_ends_task, attempt_count, limit_reason,
}
use secondhand.Watcher.LimitHolds.{
  hold_kind_limit, limit_resume_message, Sighting, unread, unlimited, limited, Tick, is_same_run,
  owned_in, owns_attempt, Projection, projection_failed, projection_written, projection_blocked,
  is_failed, limit_hold, projected, write_limit_hold, write_limit_hold_for_owned,
  write_limit_hold_for_attempt, was_cleared, clear_limit_hold_for_owned,
  clear_limit_hold_for_attempt,
}

-- The tracked state and the database that a step leaves, and its event.
abbrev pub Step : Type 0
Step = (TaskState × Tables) × Option Event

abbrev pub limit_event : Tick → String → String → TaskState → Event
limit_event w kind id ts =
    event id kind (noted kind id (codes (limit_reason w.rfc3339 ts)))
      (codes (limit_reason w.rfc3339 ts)) false

abbrev pub running_again : ℕ → Bytes
running_again attempts =
    codes (Prim.Native.String.◌++◌ "running again after " (attempt_count attempts))

unfoldable pub cleared : String → TaskState → Bool × Tables → Step
cleared id ts (false, s) = ((ts, s), none)
cleared id ts (true, s) = (
  (
    record ts {
      limit_retry_at = 0;
      limit_attempts = 0;
      limit_resume_blocked = false;
      limit_probed = false;
    },
    s,
  ),
  some (
      event id kind_usage_limit_resumed
        (noted kind_usage_limit_resumed id (running_again ts.limit_attempts))
        (running_again ts.limit_attempts) false),
)

unfoldable pub clear_usage_limit : Tick → Task → Attempt → TaskState → Tables → Step
clear_usage_limit w t a ts s = cleared t.id ts (clear_limit_hold_for_attempt w t a s)

abbrev pub advanced : Bool → TaskState → TaskState
advanced advance ts =
    if advance && ltb ts.limit_attempts limit_stuck_after
    then record ts { limit_attempts = ts.limit_attempts + 1 }
    else ts

-- The episode that an announcement is remembered for; -1 stands for an attempt without episodes.
abbrev pub stuck_mark : ℕ → ℤ
stuck_mark episode = if nat_beq episode 0 then negsuc 0 else pos episode

-- Behind the projection.
unfoldable pub stuck : Tick → String → TaskState → Tables → Step
stuck w id ts s =
    if ltb ts.limit_attempts limit_stuck_after
    then ((ts, s), none)
    else if int_equal ts.limit_stuck_episode (stuck_mark ts.limit_episode)
    then ((ts, s), none)
    else (
      (record ts { limit_stuck_episode = stuck_mark ts.limit_episode }, s),
      some (limit_event w kind_usage_limit_stuck id ts),
    )

unfoldable pub observed : Tick → String → Bool → TaskState → Projection × Tables → Step
observed w id advance ts (p, s) =
    if is_failed p then ((ts, s), none) else stuck w id (advanced advance ts) s

unfoldable pub observe_blocked_usage_limit :
    Tick → LockAnswer → Task → Attempt → Bool → TaskState → Tables → Step
observe_blocked_usage_limit w l t a advance ts s =
    observed w t.id advance ts (write_limit_hold_for_attempt w l t a ts s)

abbrev pub named_reset : Sighting → ℕ
named_reset (limited reset) = reset
named_reset _ = 0

-- Another attempt on the schedule.
abbrev pub rescheduled : ℕ → ℕ → TaskState → TaskState
rescheduled reset now ts = record ts {
  limit_attempts = ts.limit_attempts + 1;
  limit_retry_at = next_limit_retry reset (ts.limit_attempts + 1) now;
}

-- A send that was submitted, or whose outcome nobody knows: no other is sent by itself.
abbrev pub waiting : ℕ → TaskState → TaskState
waiting now ts = record (rescheduled 0 now ts) { limit_resume_blocked = true }

abbrev pub after_state : Tick → TaskState → Bool → Option SendState → TaskState
after_state w ts retry_safe none = rescheduled 0 w.now ts
after_state w ts retry_safe (some state) =
    if is_send state not_submitted && retry_safe
    then rescheduled (named_reset w.refusal) w.now ts
    else waiting w.now ts

unfoldable pub after_failed_resume : Tick → TaskState → SteeringError → TaskState
after_failed_resume w ts e = after_state w ts e.retry_safe e.state

-- What follows the outcome that the schedule was moved for.
unfoldable pub resumed : Tick → Task → Attempt → TaskState → Projection × Tables → Step
resumed w t a ts (p, s) =
    if is_failed p
    then ((ts, s), none)
    else observe_blocked_usage_limit w w.again_lock t a false ts s

unfoldable pub resume_answered :
    Tick → Task → Attempt → TaskState → Result SteeringError (Option SendAttempt) × Tables → Step
resume_answered w t a ts (ok x, s) =
    resumed w t a (waiting w.now ts)
      (write_limit_hold_for_attempt w w.task_lock t a (waiting w.now ts) s)
resume_answered w t a ts (err e, s) =
    if e.is_precondition
    then ((ts, s), none)
    else resumed w t a (after_failed_resume w ts e)
        (write_limit_hold_for_attempt w w.task_lock t a (after_failed_resume w ts e) s)

abbrev pub resume_request : Tick → Task → Attempt → TaskState → Request
resume_request w t a ts = record {
  home = w.home;
  task_id = t.id;
  message = limit_resume_message;
  origin = some usage_limit_resume;
  has_client = true;
  expected = some a;
  usage_limit_episode = ts.limit_episode;
  faults = record {
    after_pending = false;
    before_text = false;
    after_text = false;
    before_enter = false;
    after_enter = false;
    before_persist = false;
  };
}

unfoldable pub attempt_usage_limit_resume : Tick → Task → Attempt → TaskState → Tables → Step
attempt_usage_limit_resume w t a ts s =
    resume_answered w t a ts (execute (resume_request w t a ts) w.steering w.early s)

abbrev pub is_running_again : String → Bool
is_running_again status = status == status_working || status == status_blocked

unfoldable pub continue_usage_limit : Tick → Task → Attempt → String → TaskState → Tables → Step
continue_usage_limit w t a status ts s =
    if is_running_again status
    then clear_usage_limit w t a ts s
    else if report_ends_task ts.last_report_state
    then clear_usage_limit w t a ts s
    else if ts.limit_resume_blocked
    then observe_blocked_usage_limit w w.task_lock t a true ts s
    else if ltb w.now ts.limit_retry_at
    then ((ts, s), none)
    else attempt_usage_limit_resume w t a ts s

-- The schedule of a new episode.
abbrev pub new_episode : Attempt → ℕ → ℕ → TaskState → TaskState
new_episode a reset now ts = record ts {
  limit_episode =
      (if ltb ts.limit_episode a.usage_limit_episode
        then a.usage_limit_episode
        else ts.limit_episode)
      + 1;
  limit_attempts = 0;
  limit_retry_at = next_limit_retry reset 0 now;
}

unfoldable pub detected : Tick → String → TaskState → Projection × Tables → Step
detected w id ts (p, s) =
    if is_failed p then ((ts, s), none) else ((ts, s), some (limit_event w kind_usage_limit id ts))

unfoldable pub sighted : Tick → Task → Attempt → Sighting → TaskState → Tables → Step
sighted w t a (limited reset) ts s =
    detected w t.id (new_episode a reset w.now ts)
      (write_limit_hold_for_attempt w w.task_lock t a (new_episode a reset w.now ts) s)
sighted w t a _ ts s = ((ts, s), none)

unfoldable pub detect_usage_limit : Tick → Task → Attempt → TaskState → Tables → Step
detect_usage_limit w t a ts s =
    if report_ends_task ts.last_report_state
    then ((ts, s), none)
    else sighted w t a w.sighting (record ts { limit_probed = true }) s

-- `normalizePendingResume`, which answers nothing but the database.
abbrev pub normalized : Tick → Attempt → Option SendAttempt → Tables → Tables
normalized w a none s = s
normalized w a (some x) s =
    if not (is_origin x.origin usage_limit_resume)
    then s
    else (normalize_pending_send w.engine x.id a.task_id a.id "stale-pending-recovered" w.stamp s).1

abbrev pub still_running : Attempt → Result HistoryError (Option TaskHistory) → Bool
still_running a (err e) = false
still_running a (ok none) = false
still_running a (ok (some h)) = is_task h.task.lifecycle open_ && elim h.active_attempt [
  | none ↦ false
  | some current ↦
      nat_beq current.id a.id
      && current.task_id == a.task_id
      && is_attempt current.lifecycle running
      && same_herdr current.herdr a.herdr
]

unfoldable pub normalize_pending_resume : Tick → Attempt → Tables → Tables
normalize_pending_resume w a s =
    by_lock w.send_lock
      (by_lock w.pending_lock
        (if still_running a (read_task_history a.task_id s)
          then normalized w a (pending_send a.task_id a.id s) s
          else s)
        s s)
      s s

-- A schedule that is empty while an earlier resume is unresolved.
unfoldable pub blocked_usage_limit : Tick → Task → Attempt → String → TaskState → Tables → Step
blocked_usage_limit w t a status ts s =
    let s' = normalize_pending_resume w a s in
    if is_running_again status || report_ends_task ts.last_report_state
    then clear_usage_limit w t a ts s'
    else observe_blocked_usage_limit w w.task_lock t a true ts s'

-- `supported` is `harness.SupportsUsageLimit` of the pane's agent.
unfoldable pub classify_usage_limit :
    Tick → Task → Attempt → Bool → String → Bool → Bool → TaskState → Tables → Step
classify_usage_limit w t a supported status probe_failed just_stopped ts s =
    if probe_failed
    then ((ts, s), none)
    else if not supported
    then ((ts, s), none)
    else if not (nat_beq ts.limit_retry_at 0)
    then continue_usage_limit w t a status ts s
    else if ts.limit_resume_blocked
    then blocked_usage_limit w t a status ts s
    else if not (not_busy status) || (not just_stopped && ts.limit_probed)
    then ((ts, s), none)
    else detect_usage_limit w t a ts s

-- ===== src/Watcher/Status.antt =====
-- `ClassifyStatus`, `ClassifyCatchUp`, `ClassifyStale` and `ClassifyUnreachable` of
-- internal/watcher/events.go. A classifier that changes the tracked state through its pointer gives
-- the state that it leaves, and its event.
use secondhand.Base.{
  ℕ, String, ◌||◌, true, false, [], Bytes, codes, ◌==◌, string_eq, Option, none, some, not,
  if◌then◌else◌,
}
use secondhand.Base.Int.{ℤ, sub_below}
use secondhand.Report.Line.{terminal_report}
use secondhand.Attention.{unreported_runtime}
use secondhand.Watcher.State.{
  TaskState, Event, event, said, noted, not_busy, status_working, status_blocked,
  kind_idle_unreported, kind_blocked, kind_failed, kind_stale,
}

-- herdr names no cause.
abbrev pub blocked_reason : Bytes
blocked_reason = codes "agent needs help"

pub unreachable_event : String → Event
unreachable_event id = event id kind_failed (said "failed" id) [] false

pub idle_event : String → Event
idle_event id = event id kind_idle_unreported (said "idle-unreported" id) [] false

pub blocked_event : String → Event
blocked_event id = event id kind_blocked (noted "blocked" id blocked_reason) blocked_reason false

-- `status.NotBusy()`: the pane stopped.
unfoldable pub stopped : TaskState → String → String → String → TaskState × Option Event
stopped ts id before status =
    if before == status_working || before == status_blocked
    then (
      record ts { is_blocked = false },
      if unreported_runtime status ts.last_report_state then some (idle_event id) else none,
    )
    else (ts, none)

abbrev pub blocked_now : TaskState → String → TaskState × Option Event
blocked_now ts id =
    if ts.is_blocked then (ts, none) else (record ts { is_blocked = true }, some (blocked_event id))

unfoldable pub changed : TaskState → String → String → String → TaskState × Option Event
unfolding stopped
changed ts id before status =
    if not_busy status
    then stopped ts id before status
    else if status == status_blocked
    then blocked_now ts id
    else (record ts { is_blocked = false }, none)

-- A probe that answered.
unfoldable pub seen : TaskState → String → String → ℕ → TaskState × Option Event
unfolding changed
seen ts id status now =
    if status == ts.status
    then (record ts { probed = true; unreachable_fired = false }, none)
    else changed
        (record ts {
          probed = true;
          unreachable_fired = false;
          status = status;
          changed_at = now;
          is_stale = false;
        })
        id ts.status status

-- A probe that failed.
unfoldable pub unseen : TaskState → String → String → TaskState × Option Event
unseen ts id teardown_herdr_state =
    if not (teardown_herdr_state == "")
    then (record ts { probed = false }, none)
    else if ts.probed
    then (record ts { probed = false; unreachable_fired = true }, some (unreachable_event id))
    else (record ts { probed = false }, none)

-- `none` is the probe's error.
unfoldable pub classify_status :
    TaskState → String → Option String → ℕ → String → TaskState × Option Event
unfolding seen unseen
classify_status ts id none now teardown_herdr_state = unseen ts id teardown_herdr_state
classify_status ts id (some status) now teardown_herdr_state = seen ts id status now

unfoldable pub classify_catch_up :
    TaskState → String → String → String → String → TaskState × Option Event
classify_catch_up ts id status observed_for teardown_herdr_state =
    if not (teardown_herdr_state == "")
    then (ts, none)
    else if not (status == ts.status) || observed_for == status
    then (ts, none)
    else if not_busy status
    then (ts, if unreported_runtime status ts.last_report_state then some (idle_event id) else none)
    else if status == status_blocked
    then blocked_now ts id
    else (ts, none)

unfoldable pub classify_stale : TaskState → String → String → ℕ → ℤ → TaskState × Option Event
classify_stale ts id delivered_at now threshold =
    if not ts.probed || ts.is_stale
    then (ts, none)
    else if terminal_report ts.last_report_state || not (delivered_at == "")
    then (ts, none)
    else if sub_below now ts.changed_at threshold
    then (ts, none)
    else (record ts { is_stale = true }, some (event id kind_stale (said "stale" id) [] false))

unfoldable pub classify_unreachable : TaskState → String → ℕ → ℤ → String → TaskState × Option Event
classify_unreachable ts id now threshold teardown_herdr_state =
    if not (teardown_herdr_state == "")
    then (ts, none)
    else if ts.probed || ts.unreachable_fired
    then (ts, none)
    else if sub_below now ts.changed_at threshold
    then (ts, none)
    else (record ts { unreachable_fired = true }, some (unreachable_event id))

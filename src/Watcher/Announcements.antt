-- ===== src/Watcher/Announcements.antt =====
-- `ClassifyParked`, `ClassifyPRMerged`, `ClassifyGateProblem`, `ClassifyReportLine`,
-- `ClassifyDeferredDone` and what they use, of internal/watcher/events.go. Whether the scout's
-- report.md is there (os.Stat) is an argument.
use secondhand.Base.{
  ℕ, String, ◌||◌, Bool, true, false, [], ◌++◌, Bytes, bytes_equal, codes, ◌==◌, string_eq, Option,
  none, some, ◌&&◌, not, if◌then◌else◌, nat_beq, leb, ◌-◌,
}
use secondhand.Base.Int.{ℤ, pos, negsuc, sub_below, is_positive}
use secondhand.Age.{format_duration}
use secondhand.Report.Line.{
  ReportLine, report_working, report_paused, report_blocked, report_needs_decision, report_done,
  report_failed,
}
use secondhand.Store.Types.{Task}
use secondhand.Store.Lifecycle.{kind_ship, kind_scout}
use secondhand.Watcher.State.{
  TaskState, Event, event, said, noted, kind_parked, kind_pr_merged, kind_gate_absent,
  kind_gate_unknown, kind_report_working, kind_report_paused, kind_report_blocked,
  kind_report_needs_decision, kind_report_done, kind_report_failed, kind_report_malformed,
}

pub record ParkedBounds : Type 0 where
  pub paused : ℤ
  pub done : ℤ
  pub other : ℤ

-- The switch of `parkedBound`.
abbrev pub bound_for : Bytes → ParkedBounds → ℤ
bound_for last_state bounds =
    if bytes_equal last_state report_done || bytes_equal last_state report_failed
    then bounds.done
    else if bytes_equal last_state report_paused
    then bounds.paused
    else bounds.other

-- `none` is exempt.
unfoldable pub parked_bound : Bytes → ParkedBounds → Option ℤ
parked_bound last_state bounds =
    if not (is_positive (bound_for last_state bounds))
    then none
    else some (bound_for last_state bounds)

unfoldable pub parked_past : Option ℤ → ℕ → ℕ → Bool
parked_past none silent_since now = false
parked_past (some bound) silent_since now = not (sub_below now silent_since bound)

unfoldable pub parked : Bytes → ℕ → ℕ → ParkedBounds → Bool
unfolding parked_past
parked last_report_state silent_since now bounds =
    parked_past (parked_bound last_report_state bounds) silent_since now

-- `now.Sub(mtime)`
abbrev pub sub : ℕ → ℕ → ℤ
sub now mtime = if leb mtime now then pos (now - mtime) else negsuc (mtime - now - 1)

abbrev pub parked_reason : Bytes → ℤ → Bytes
parked_reason last_line silent_for =
    last_line ++ (codes " (silent " ++ (codes (format_duration silent_for) ++ codes ")"))

pub parked_event : String → Bytes → ℤ → Event
parked_event id last_line silent_for =
    event id kind_parked (noted "parked" id (parked_reason last_line silent_for))
      (parked_reason last_line silent_for) false

unfoldable pub parked_found :
    TaskState → String → Bytes → Bytes → ℕ → ℕ → ParkedBounds → Option ℤ → TaskState × Option Event
parked_found ts id last_state last_line mtime now bounds none =
    (record ts { parked_fired_for = 0 }, none)
parked_found ts id last_state last_line mtime now bounds (some bound) =
    if nat_beq mtime ts.parked_fired_for
    then (ts, none)
    else if not (parked last_state mtime now bounds)
    then (ts, none)
    else (record ts { parked_fired_for = mtime }, some (parked_event id last_line (sub now mtime)))

unfoldable pub classify_parked :
    TaskState → String → Bytes → Bytes → ℕ → ℕ → ParkedBounds → TaskState × Option Event
unfolding parked_found
classify_parked ts id last_state last_line mtime now bounds =
    parked_found ts id last_state last_line mtime now bounds (parked_bound last_state bounds)

unfoldable pub classify_pr_merged : TaskState → String → Bool → TaskState × Option Event
classify_pr_merged ts id merged = if not merged || ts.pr_merged then (ts, none) else (
  record ts { pr_merged = true },
  some (event id kind_pr_merged (said "pr-merged" id) [] false),
)

abbrev pub gate_applies : String → String → Bool → Bool
gate_applies task_kind pr reported_done = task_kind == kind_ship && not (pr == "") && reported_done

-- internal/ghutil/observation.go
abbrev pub observation_found : String
observation_found = "found"

abbrev pub observation_absent : String
observation_absent = "absent"

abbrev pub observation_unknown : String
observation_unknown = "unknown"

unfoldable pub gate_kind : String → Option String
gate_kind observed =
    if observed == observation_absent
    then some kind_gate_absent
    else if observed == observation_unknown
    then some kind_gate_unknown
    else none

unfoldable pub gate_found : TaskState → String → Option String → TaskState × Option Event
gate_found ts id none = (record ts { gate_problem_fired = false }, none)
gate_found ts id (some kind) =
    if ts.gate_problem_fired
    then (ts, none)
    else (record ts { gate_problem_fired = true }, some (event id kind (said kind id) [] false))

unfoldable pub classify_gate_problem : TaskState → String → Bool → String → TaskState × Option Event
unfolding gate_found
classify_gate_problem ts id applies observed =
    if not applies
    then (record ts { gate_problem_fired = false }, none)
    else gate_found ts id (gate_kind observed)

-- `report_there` is whether data/<id>/report.md is there.
unfoldable pub done_verified : TaskState → Task → Bool → Bool
done_verified ts t report_there =
    if t.kind == kind_ship
    then t.merge_executed || (not (t.pr == "") && ts.pr_merged)
    else if t.kind == kind_scout
    then report_there
    else false

abbrev pub done_text : String → Bytes → Bool → Bytes
done_text id note verified = noted (if verified then "done" else "reported-done") id note

pub done_event : String → Bytes → Bool → Event
done_event id note verified = event id kind_report_done (done_text id note verified) note verified

unfoldable pub classify_report_done :
    TaskState → Task → ReportLine → Bool → TaskState × Option Event
classify_report_done ts t line report_there = (
  if done_verified ts t report_there then record ts { done_verified = true } else ts,
  some (done_event t.id line.note (done_verified ts t report_there)),
)

-- The switch on the state of a line that is not malformed.
unfoldable pub classify_report_state :
    TaskState → Task → ReportLine → Bool → TaskState × Option Event
unfolding classify_report_done
classify_report_state ts t line report_there =
    if bytes_equal line.state report_working
    then (
      ts,
      some (event t.id kind_report_working (noted "working" t.id line.note) line.note false),
    )
    else if bytes_equal line.state report_paused
    then (ts, some (event t.id kind_report_paused (noted "paused" t.id line.note) line.note false))
    else if bytes_equal line.state report_blocked
    then (
      ts,
      some (event t.id kind_report_blocked (noted "report-blocked" t.id line.note) line.note false),
    )
    else if bytes_equal line.state report_needs_decision
    then (
      ts,
      some (
          event t.id kind_report_needs_decision (noted "needs-decision" t.id line.note) line.note
            false),
    )
    else if bytes_equal line.state report_failed
    then (
      ts,
      some (event t.id kind_report_failed (noted "report-failed" t.id line.note) line.note false),
    )
    else if bytes_equal line.state report_done
    then classify_report_done ts t line report_there
    else (ts, none)

unfoldable pub classify_report_line :
    TaskState → Task → ReportLine → Bool → TaskState × Option Event
unfolding classify_report_state
classify_report_line ts t line report_there =
    if line.malformed
    then (
      ts,
      some (
          event t.id kind_report_malformed (noted "malformed report" t.id line.raw) line.raw false),
    )
    else classify_report_state
        (record ts { last_report_state = line.state; last_report_note = line.note }) t line
        report_there

unfoldable pub classify_deferred_done : TaskState → Task → Bool → TaskState × Option Event
classify_deferred_done ts t report_there =
    if ts.done_verified || not (bytes_equal ts.last_report_state report_done)
    then (ts, none)
    else if not (done_verified ts t report_there)
    then (ts, none)
    else (record ts { done_verified = true }, some (done_event t.id ts.last_report_note true))

-- ===== src/Watcher/State.antt =====
-- `TaskState`, `Event` and the kinds of internal/watcher/events.go, and herdr's statuses
-- (internal/herdr/types.go). An instant is its nanoseconds since the zero `time.Time`, so 0 is that
-- zero.
use secondhand.Base.{
  ℕ, String, ◌||◌, Bool, true, false, [], ◌∷◌, ◌++◌, Bytes, codes, ◌==◌, string_eq,
}
use secondhand.Base.Int.{ℤ, pos}
use secondhand.Report.Cursor.{ReportCursor, zero_cursor}
use secondhand.Store.Types.{AttemptLifecycle}

abbrev pub status_idle : String
status_idle = "idle"

abbrev pub status_working : String
status_working = "working"

abbrev pub status_blocked : String
status_blocked = "blocked"

abbrev pub status_done : String
status_done = "done"

-- `Status.NotBusy`
abbrev pub not_busy : String → Bool
not_busy status = status == status_idle || status == status_done

abbrev pub kind_idle_unreported : String
kind_idle_unreported = "idle-unreported"

abbrev pub kind_blocked : String
kind_blocked = "blocked"

abbrev pub kind_failed : String
kind_failed = "failed"

abbrev pub kind_stale : String
kind_stale = "stale"

abbrev pub kind_pr_merged : String
kind_pr_merged = "pr-merged"

abbrev pub kind_gate_absent : String
kind_gate_absent = "gate-absent"

abbrev pub kind_gate_unknown : String
kind_gate_unknown = "gate-unknown"

abbrev pub kind_pr_not_recorded : String
kind_pr_not_recorded = "pr-not-recorded"

abbrev pub kind_pr_record_unknown : String
kind_pr_record_unknown = "pr-record-unknown"

abbrev pub kind_report_working : String
kind_report_working = "report-working"

abbrev pub kind_report_paused : String
kind_report_paused = "report-paused"

abbrev pub kind_report_blocked : String
kind_report_blocked = "report-blocked"

abbrev pub kind_report_needs_decision : String
kind_report_needs_decision = "report-needs-decision"

abbrev pub kind_report_done : String
kind_report_done = "report-done"

abbrev pub kind_report_failed : String
kind_report_failed = "report-failed"

abbrev pub kind_report_malformed : String
kind_report_malformed = "report-malformed"

abbrev pub kind_parked : String
kind_parked = "parked"

abbrev pub kind_usage_limit : String
kind_usage_limit = "usage-limit"

abbrev pub kind_usage_limit_resumed : String
kind_usage_limit_resumed = "usage-limit-resumed"

abbrev pub kind_usage_limit_stuck : String
kind_usage_limit_stuck = "usage-limit-stuck"

pub record MonitorTarget : Type 0 where
  pub id : String
  pub kind : String
  pub currentness : String

pub record Event : Type 0 where
  pub task_id : String
  pub kind : String
  pub text : Bytes
  pub reason : Bytes
  pub verified : Bool
  pub fleet_id : String
  pub target : MonitorTarget

pub record TaskState : Type 0 where
  pub created_at : String
  pub attempt_id : ℕ
  pub attempt_lifecycle : AttemptLifecycle
  pub status : String
  pub probed : Bool
  pub changed_at : ℕ
  pub is_blocked : Bool
  pub is_stale : Bool
  pub pr_merged : Bool
  pub gate_problem_fired : Bool
  pub report_cursor : ReportCursor
  pub persisted_cursor : ReportCursor
  pub persisted_pr_merged : Bool
  pub persisted_done_verified : Bool
  pub persisted_pane_id : String
  pub persisted_changed_at : ℕ
  pub persisted_changed_for : String
  pub last_report_state : Bytes
  pub last_report_note : Bytes
  pub done_verified : Bool
  pub parked_fired_for : ℕ
  pub persisted_parked_fired_for : ℕ
  pub limit_retry_at : ℕ
  pub limit_attempts : ℕ
  pub limit_resume_blocked : Bool
  pub limit_episode : ℕ
  pub limit_stuck_episode : ℤ
  pub persisted_limit_retry_at : ℕ
  pub persisted_limit_attempts : ℕ
  pub persisted_limit_episode : ℕ
  pub persisted_limit_stuck_episode : ℤ
  pub limit_probed : Bool
  pub unreachable_fired : Bool
  pub caught_up : Bool

-- `NewTaskState`: every other field is its zero value.
abbrev pub new_task_state : String → ℕ → TaskState
new_task_state status now = record {
  created_at = "";
  attempt_id = 0;
  attempt_lifecycle = AttemptLifecycle.unset;
  status = status;
  probed = true;
  changed_at = now;
  is_blocked = false;
  is_stale = false;
  pr_merged = false;
  gate_problem_fired = false;
  report_cursor = zero_cursor;
  persisted_cursor = zero_cursor;
  persisted_pr_merged = false;
  persisted_done_verified = false;
  persisted_pane_id = "";
  persisted_changed_at = 0;
  persisted_changed_for = "";
  last_report_state = [];
  last_report_note = [];
  done_verified = false;
  parked_fired_for = 0;
  persisted_parked_fired_for = 0;
  limit_retry_at = 0;
  limit_attempts = 0;
  limit_resume_blocked = false;
  limit_episode = 0;
  limit_stuck_episode = pos 0;
  persisted_limit_retry_at = 0;
  persisted_limit_attempts = 0;
  persisted_limit_episode = 0;
  persisted_limit_stuck_episode = pos 0;
  limit_probed = false;
  unreachable_fired = false;
  caught_up = false;
}

-- An event literal of the source; the fields that it leaves out have their zero value.
pub event : String → String → Bytes → Bytes → Bool → Event
event id kind text reason verified = record {
  task_id = id;
  kind = kind;
  text = text;
  reason = reason;
  verified = verified;
  fleet_id = "";
  target = record { id = ""; kind = ""; currentness = "" };
}

-- `fmt.Sprintf("<word> %s", id)`
abbrev pub said : String → String → Bytes
said word id = codes word ++ (b' ' ∷ codes id)

-- `fmt.Sprintf("<word> %s: %s", id, note)`
abbrev pub noted : String → String → Bytes → Bytes
noted word id note = said word id ++ (b':' ∷ b' ' ∷ note)

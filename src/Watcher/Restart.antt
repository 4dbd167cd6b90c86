-- ===== src/Watcher/Restart.antt =====
-- What a watcher writes back of a task it tracks, and what a restarted one reads: `syncTaskState`,
-- `resumeTaskState` and what they call of internal/watcher/watcher.go. `Codec` has Go's formatting and
-- parsing of instants, and the change between a report's bytes and the texts of the store, which in Go
-- are one type. Reads do not fail.
pub mod Memory
use secondhand.Base.{
  ℕ, ◌*◌, String, Bool, true, false, ◌||◌, ◌&&◌, not, Bytes, bytes_equal, Option, none, some,
  if◌then◌else◌, ◌==◌, nat_beq, nat_eq, string_eq, Result, ok, err, ◌≡◌,
}
use secondhand.Base.Int.{ℤ, pos, negsuc, int_equal}
use secondhand.Age.{second}
use secondhand.Report.Cursor.{ReportCursor}
use secondhand.Store.Types.{Task, Attempt, AttemptLifecycle, is_attempt}
use secondhand.Store.Tables.{Tables, Engine, StoreError}
use secondhand.Store.Facts.{Observation, set_task_report_state, update_attempt_observation}
use secondhand.Store.History.{read_task, read_attempt, active_number}
use secondhand.Steering.Request.{LockAnswer, lock_held, lock_taken, lock_broken, by_lock}
use secondhand.Watcher.State.{TaskState, new_task_state}
use secondhand.Watcher.LimitHolds.{Tick, write_limit_hold_for_owned, clear_limit_hold_for_owned}

pub record Codec : Type 0 where
  pub parse : String → Option ℕ
  pub rfc3339 : ℕ → String
  pub rfc3339_nano : ℕ → String
  pub text_of : Bytes → String
  pub bytes_of : String → Bytes

abbrev pub status_unknown : String
status_unknown = "unknown"

-- `int64` from the cursor's offset, which no reader of a report makes negative.
abbrev pub stored_offset : ℤ → ℕ
stored_offset (pos n) = n
stored_offset (negsuc n) = 0

abbrev pub parsed_or : Option ℕ → ℕ → ℕ
parsed_or none now = now
parsed_or (some at) now = at

abbrev pub same_bool : Bool → Bool → Bool
same_bool true b = b
same_bool false b = not b

module _ (c : Codec) where
  abbrev pub limit_retry_seed : Attempt → ℕ
  limit_retry_seed a = parsed_or (c.parse a.usage_limit_retry_at) 0

  abbrev pub limit_retry_stamp : ℕ → String
  limit_retry_stamp retry_at = if nat_beq retry_at 0 then "" else c.rfc3339 retry_at

  abbrev pub parked_fired_seed : Attempt → ℕ
  parked_fired_seed a = parsed_or (c.parse a.parked_fired_for) 0

  abbrev pub parked_fired_stamp : ℕ → String
  parked_fired_stamp fired = if nat_beq fired 0 then "" else c.rfc3339_nano fired

  abbrev pub created_or : Task → ℕ → ℕ
  created_or t now = parsed_or (c.parse t.created_at) now

  abbrev pub seeded : Task → Option ℕ → ℕ → ℕ
  seeded t none now = created_or t now
  seeded t (some at) now = at

  unfoldable pub status_change_seed : Task → Attempt → String → ℕ → ℕ
  status_change_seed t a status now =
      if not (a.status_changed_at == "")
      then if not (a.status_changed_for == status)
        then now
        else seeded t (c.parse a.status_changed_at) now
      else created_or t now

  abbrev pub stored_cursor : Task → ReportCursor
  stored_cursor t = record { offset = pos t.report_offset; digest = c.bytes_of t.report_digest }

  unfoldable pub resume_task_state : Task → Attempt → String → ℕ → TaskState
  resume_task_state t a status now =
      let changed_at = status_change_seed t a status now in
      record (new_task_state status changed_at) {
        persisted_changed_at = changed_at;
        persisted_changed_for = a.status_changed_for;
        persisted_pane_id = a.herdr.pane_id;
        created_at = t.created_at;
        attempt_id = active_number t;
        attempt_lifecycle = a.lifecycle;
        report_cursor = stored_cursor t;
        persisted_cursor = stored_cursor t;
        pr_merged = t.merge_announced;
        persisted_pr_merged = t.merge_announced;
        done_verified = a.done_verified;
        persisted_done_verified = a.done_verified;
        last_report_state = c.bytes_of a.last_report_state;
        last_report_note = c.bytes_of a.last_report_note;
        parked_fired_for = parked_fired_seed a;
        persisted_parked_fired_for = parked_fired_seed a;
        limit_retry_at = limit_retry_seed a;
        persisted_limit_retry_at = limit_retry_seed a;
        limit_attempts = a.usage_limit_attempts;
        persisted_limit_attempts = a.usage_limit_attempts;
        limit_episode = a.usage_limit_episode;
        persisted_limit_episode = a.usage_limit_episode;
        limit_stuck_episode = a.usage_limit_stuck_episode;
        persisted_limit_stuck_episode = a.usage_limit_stuck_episode;
      }

  -- The first `if` of `forgetPaneScopedCache`.
  abbrev pub forget_done : Attempt → TaskState → TaskState
  forget_done a ts =
      if not a.done_verified && ts.persisted_done_verified
      then record ts { done_verified = false; persisted_done_verified = false }
      else ts

  abbrev pub forget_pane : Task → Attempt → ℕ → TaskState → TaskState
  forget_pane t a now ts = record ts {
    persisted_pane_id = a.herdr.pane_id;
    changed_at = status_change_seed t a ts.status now;
    persisted_changed_at = status_change_seed t a ts.status now;
    persisted_changed_for = a.status_changed_for;
    status = status_unknown;
    is_stale = false;
    is_blocked = false;
    probed = false;
    unreachable_fired = false;
    limit_retry_at = 0;
    limit_attempts = 0;
    limit_resume_blocked = false;
    limit_episode = 0;
    limit_stuck_episode = pos 0;
    limit_probed = false;
    persisted_limit_retry_at = limit_retry_seed a;
    persisted_limit_attempts = a.usage_limit_attempts;
    persisted_limit_episode = a.usage_limit_episode;
    persisted_limit_stuck_episode = a.usage_limit_stuck_episode;
    last_report_state = c.bytes_of a.last_report_state;
    last_report_note = c.bytes_of a.last_report_note;
  }

  unfoldable pub forget_pane_scoped_cache : Task → Attempt → ℕ → TaskState → TaskState
  forget_pane_scoped_cache t a now ts =
      if a.herdr.pane_id == ts.persisted_pane_id
      then forget_done a ts
      else forget_pane t a now (forget_done a ts)

  -- The arguments of `UpdateAttemptObservation`.
  abbrev pub observation_of : TaskState → Observation
  observation_of ts = record {
    status_changed_at = c.rfc3339_nano ts.changed_at;
    status_changed_for = ts.status;
    done_verified = ts.done_verified;
    last_report_state = c.text_of ts.last_report_state;
    last_report_note = c.text_of ts.last_report_note;
    parked_fired_for = parked_fired_stamp ts.parked_fired_for;
    usage_limit_retry_at = limit_retry_stamp ts.limit_retry_at;
    usage_limit_attempts = ts.limit_attempts;
    usage_limit_episode = ts.limit_episode;
    usage_limit_stuck_episode = ts.limit_stuck_episode;
  }

  -- An observer writes back the attempt's own schedule.
  abbrev pub read_only_observation : Attempt → TaskState → Observation
  read_only_observation a ts = record (observation_of ts) {
    usage_limit_retry_at = a.usage_limit_retry_at;
    usage_limit_attempts = a.usage_limit_attempts;
    usage_limit_episode = a.usage_limit_episode;
    usage_limit_stuck_episode = a.usage_limit_stuck_episode;
  }

  abbrev pub read_only_state : Attempt → TaskState → TaskState
  read_only_state a ts = record ts {
    limit_retry_at = limit_retry_seed a;
    limit_attempts = a.usage_limit_attempts;
    limit_episode = a.usage_limit_episode;
    limit_stuck_episode = a.usage_limit_stuck_episode;
  }

  abbrev pub same_cursor : ReportCursor → ReportCursor → Bool
  same_cursor a b = int_equal a.offset b.offset && bytes_equal a.digest b.digest

  -- Nothing that is written back has changed.
  abbrev pub is_synced : TaskState → Bool
  is_synced ts =
      same_cursor ts.report_cursor ts.persisted_cursor
      && same_bool ts.pr_merged ts.persisted_pr_merged
      && same_bool ts.done_verified ts.persisted_done_verified
      && nat_beq ts.changed_at ts.persisted_changed_at
      && ts.persisted_changed_for == ts.status
      && nat_beq ts.parked_fired_for ts.persisted_parked_fired_for
      && nat_beq ts.limit_retry_at ts.persisted_limit_retry_at
      && nat_beq ts.limit_attempts ts.persisted_limit_attempts
      && nat_beq ts.limit_episode ts.persisted_limit_episode
      && int_equal ts.limit_stuck_episode ts.persisted_limit_stuck_episode

  -- What stays to be remembered where the observation was stored.
  abbrev pub all_persisted : TaskState → TaskState
  all_persisted ts = record ts {
    persisted_done_verified = ts.done_verified;
    persisted_changed_at = ts.changed_at;
    persisted_changed_for = ts.status;
    persisted_parked_fired_for = ts.parked_fired_for;
    persisted_limit_retry_at = ts.limit_retry_at;
    persisted_limit_attempts = ts.limit_attempts;
    persisted_limit_episode = ts.limit_episode;
    persisted_limit_stuck_episode = ts.limit_stuck_episode;
  }

  unfoldable pub observation_stored :
      TaskState → Result StoreError Unit × Tables → TaskState × Tables
  observation_stored ts (err e, s) = (ts, s)
  observation_stored ts (ok u, s) = (all_persisted ts, s)

  -- The hold that shows the schedule, or that is dropped with it.
  unfoldable pub project_hold : Tick → Task → Attempt → TaskState → Tables → Tables
  project_hold w t a ts s =
      if not (nat_beq ts.limit_retry_at 0) || ts.limit_resume_blocked
      then (write_limit_hold_for_owned w t a ts s).1
      else if not (nat_beq ts.persisted_limit_retry_at 0)
          || not (nat_beq ts.persisted_limit_attempts 0)
      then (clear_limit_hold_for_owned w t a s).1
      else s

  -- Behind the attempt's check.
  unfoldable pub sync_attempt :
      Tick → Engine → Task → Attempt → Bool → TaskState → Tables → TaskState × Tables
  sync_attempt w observing t a read_only ts s =
      let s' = if not read_only then project_hold w t a ts s else s in
      let ts' = forget_pane_scoped_cache t a w.now ts in
      if read_only
      then observation_stored (read_only_state a ts') (
          update_attempt_observation observing t.id ts'.attempt_id ts'.attempt_lifecycle
            (read_only_observation a ts') s')
      else observation_stored ts' (
          update_attempt_observation observing t.id ts'.attempt_id ts'.attempt_lifecycle
            (observation_of ts') s')

  unfoldable pub sync_owned :
      Tick → Engine → Task → Option Attempt → Bool → TaskState → Tables → TaskState × Tables
  sync_owned w observing t none read_only ts s = (ts, s)
  sync_owned w observing t (some a) read_only ts s =
      if not (a.task_id == t.id)
        || not (nat_beq (active_number t) ts.attempt_id)
        || not (is_attempt a.lifecycle ts.attempt_lifecycle)
      then (ts, s)
      else sync_attempt w observing t a read_only ts s

  unfoldable pub report_stored :
      Tick → Engine → Task → Bool → TaskState → Result StoreError Unit × Tables → TaskState × Tables
  report_stored w observing t read_only ts (err e, s) = (ts, s)
  report_stored w observing t read_only ts (ok u, s) =
      let ts' = record ts {
        persisted_cursor = ts.report_cursor;
        persisted_pr_merged = ts.pr_merged;
      } in
      sync_owned w observing t (read_attempt ts.attempt_id s) read_only ts' s

  unfoldable pub sync_found :
      Tick → Engine → Engine → Option Task → Bool → TaskState → Tables → TaskState × Tables
  sync_found w reporting observing none read_only ts s = (ts, s)
  sync_found w reporting observing (some t) read_only ts s =
      report_stored w observing t read_only ts (
        set_task_report_state reporting t.id (stored_offset ts.report_cursor.offset)
          (c.text_of ts.report_cursor.digest) ts.pr_merged s)

  -- `reporting` and `observing` are the engine's answers to the two updates, `w.engine` those to the
  -- hold's.
  unfoldable pub sync_task_state :
      Tick → Engine → Engine → String → Bool → TaskState → Tables → TaskState × Tables
  sync_task_state w reporting observing id read_only ts s =
      if is_synced ts
      then (ts, s)
      else by_lock w.task_lock (sync_found w reporting observing (read_task id s) read_only ts s)
          (ts, s) (ts, s)

-- ===== src/Watcher/LimitHolds.antt =====
-- The hold that shows a worker's usage limit (internal/watcher/usagelimit.go): whose attempt it is, and
-- how it is written and cleared under the task's lock. Task ids come from the store, whose writers have
-- validated them. What locks, the clock and the pane answer is an argument, `Tick`.
use secondhand.Base.{
  ℕ, String, Bool, true, false, ◌&&◌, not, Option, none, some, if◌then◌else◌, ◌==◌, nat_beq, nat_eq,
  string_eq, Result, ok, err,
}
use secondhand.Store.Types.{Task, Attempt, Hold, is_task, is_attempt, open_, running}
use secondhand.Store.Tables.{Tables, Engine, StoreError}
use secondhand.Store.History.{TaskHistory, HistoryError, read_task_history}
use secondhand.Store.Sends.{same_herdr}
use secondhand.Store.Holds.{set_hold_if_not_other_kind, clear_hold_if_kind}
use secondhand.Steering.Request.{LockAnswer, by_lock, Answers}
use secondhand.Watcher.State.{TaskState}
use secondhand.Watcher.Limit.{limit_reason}

abbrev pub hold_kind_limit : String
hold_kind_limit = "limit"

abbrev pub limit_resume_message : String
limit_resume_message =
    "Your previous turn stopped on a usage limit. The limit may have lifted now. Resume the task from where it stopped."

-- What reading the pane and `harness.DetectUsageLimit` come to: the pane was not read, it shows no
-- limit, or it shows one with its reset, 0 where it names none.
pub data Sighting : Type 0 where
  unread unlimited : Sighting
  limited : ℕ → Sighting

-- `task_lock` answers the first `TryLock` of the tick on the task, `again_lock` the second.
pub record Tick : Type 0 where
  pub now : ℕ
  pub stamp : String
  pub rfc3339 : ℕ → String
  pub task_lock : LockAnswer
  pub again_lock : LockAnswer
  pub send_lock : LockAnswer
  pub pending_lock : LockAnswer
  pub engine : Engine
  pub home : String
  pub sighting : Sighting
  pub refusal : Sighting
  pub steering : Answers
  pub early : Tables

abbrev pub is_same_run : Task → Attempt → Attempt → Bool
is_same_run t a current =
    nat_beq current.id a.id
    && current.task_id == t.id
    && is_attempt current.lifecycle running
    && same_herdr current.herdr a.herdr

abbrev pub owned_in : Task → Attempt → Result HistoryError (Option TaskHistory) → Bool
owned_in t a (err e) = false
owned_in t a (ok none) = false
owned_in t a (ok (some h)) =
    h.task.id == t.id
    && is_task h.task.lifecycle open_
    && elim h.active_attempt [ none ↦ false | some current ↦ is_same_run t a current ]

unfoldable pub owns_attempt : Task → Attempt → Tables → Bool
owns_attempt t a s = owned_in t a (read_task_history t.id s)

pub data Projection : Type 0 where
  projection_failed projection_written projection_blocked : Projection

abbrev pub is_failed : Projection → Bool
is_failed projection_failed = true
is_failed _ = false

abbrev pub limit_hold : Tick → String → TaskState → Hold
limit_hold w id ts = record {
  id = id;
  kind = hold_kind_limit;
  reason = limit_reason w.rfc3339 ts;
  blocked_on = "";
  set_at = w.stamp;
  inferred = true;
}

abbrev pub projected : Result StoreError Bool → Projection
projected (err e) = projection_failed
projected (ok true) = projection_written
projected (ok false) = projection_blocked

unfoldable pub write_limit_hold : Tick → String → TaskState → Tables → Projection × Tables
write_limit_hold w id ts s =
    let (r, s') = set_hold_if_not_other_kind w.engine (limit_hold w id ts) s in (projected r, s')

unfoldable pub write_limit_hold_for_owned :
    Tick → Task → Attempt → TaskState → Tables → Projection × Tables
write_limit_hold_for_owned w t a ts s =
    if not (owns_attempt t a s) then (projection_failed, s) else write_limit_hold w t.id ts s

unfoldable pub write_limit_hold_for_attempt :
    Tick → LockAnswer → Task → Attempt → TaskState → Tables → Projection × Tables
write_limit_hold_for_attempt w l t a ts s =
    by_lock l (write_limit_hold_for_owned w t a ts s) (projection_failed, s) (projection_failed, s)

abbrev pub was_cleared : Result StoreError Bool → Bool
was_cleared (err e) = false
was_cleared (ok b) = true

unfoldable pub clear_limit_hold_for_owned : Tick → Task → Attempt → Tables → Bool × Tables
clear_limit_hold_for_owned w t a s =
    if not (owns_attempt t a s)
    then (false, s)
    else let (r, s') = clear_hold_if_kind w.engine t.id hold_kind_limit s in (was_cleared r, s')

unfoldable pub clear_limit_hold_for_attempt : Tick → Task → Attempt → Tables → Bool × Tables
clear_limit_hold_for_attempt w t a s =
    by_lock w.task_lock (clear_limit_hold_for_owned w t a s) (false, s) (false, s)

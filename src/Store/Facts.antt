-- ===== src/Store/Facts.antt =====
-- The methods of internal/store/store.go that record one fact on a task or an attempt, each a
-- single UPDATE with its guard: `SetTaskPR` … `ClearTaskRepair`, `RecordAttemptWorktree` …
-- `MarkAttemptRunning`, `SetAttemptSendTrace` and `UpdateAttemptObservation`. `later` is the state
-- that a refused statement's diagnosis reads.
use secondhand.Base.Int.{ℤ}
use secondhand.Base.{
  ℕ, String, ◌≡◌, Bool, true, false, not, ◌&&◌, ◌||◌, Option, none, some, if◌then◌else◌, ◌==◌,
  nat_eq, string_eq, Result, ok,
}
use secondhand.Store.Types.{
  Task, Attempt, Herdr, AttemptLifecycle, is_task, is_attempt, open_, provisioning, running,
}
use secondhand.Store.Table.{get}
use secondhand.Store.Tables.{
  Tables, task_id_of, attempt_id_of, StoreError, invalid_transition, lifecycle_conflict,
  ownership_conflict, Engine, Outcome, fine, busy, broken, commit_as, autocommit, update_task,
  update_attempt, owns, owned_by,
}
use secondhand.Store.Lifecycle.{answered, in_lifecycle, missing_or, open_and_owner}

-- An UPDATE of a task's facts, with `updateTaskFact`.
unfoldable pub task_fact :
    Engine → String → (Task → Bool) → (Task → Task) → Tables → Result StoreError Unit × Tables
task_fact e k p f s = answered lifecycle_conflict (autocommit e (update_task k p f) s)

-- A statement that answers that it changed a row has committed.
pub fact_done :
    (o : Outcome) (b : Bool) (s s₂ : Tables) (x : StoreError) (P : Tables → Type 0)
    → P s₂
    → (answered x (commit_as o s (if b then ok (true, s₂) else ok (false, s)))).0 ≡ ok tt
    → P (answered x (commit_as o s (if b then ok (true, s₂) else ok (false, s)))).1
fact_done fine true s s₂ x P h e = h
fact_done fine false s s₂ x P h e = cc
fact_done busy true s s₂ x P h e = cc
fact_done busy false s s₂ x P h e = cc
fact_done broken true s s₂ x P h e = cc
fact_done broken false s s₂ x P h e = cc

abbrev pub is_open_task : Task → Bool
is_open_task t = is_task t.lifecycle open_

unfoldable pub set_task_pr : Engine → String → String → Tables → Result StoreError Unit × Tables
unfolding task_fact
set_task_pr e k pr s = task_fact e k (λ t. true) (λ t. record t { pr = pr }) s

unfoldable pub set_task_kind : Engine → String → String → Tables → Result StoreError Unit × Tables
unfolding task_fact
set_task_kind e k kind s = task_fact e k is_open_task (λ t. record t { kind = kind }) s

unfoldable pub set_task_merge_announced : Engine → String → Tables → Result StoreError Unit × Tables
unfolding task_fact
set_task_merge_announced e k s =
    task_fact e k (λ t. true) (λ t. record t { merge_announced = true }) s

unfoldable pub set_task_delivery :
    Engine → String → String → String → Tables → Result StoreError Unit × Tables
unfolding task_fact
set_task_delivery e k at reason s =
    task_fact e k is_open_task (λ t. record t { delivered_at = at; delivered_reason = reason }) s

unfoldable pub set_task_merge : Engine → String → String → Tables → Result StoreError Unit × Tables
unfolding task_fact
set_task_merge e k at s =
    task_fact e k is_open_task (λ t. record t { merge_executed = true; merge_executed_at = at }) s

unfoldable pub set_task_report_state :
    Engine → String → ℕ → String → Bool → Tables → Result StoreError Unit × Tables
unfolding task_fact
set_task_report_state e k offset digest announced s =
    task_fact e k (λ t. true)
      (λ t. record t {
        report_offset = offset;
        report_digest = digest;
        merge_announced = t.merge_announced || announced;
      })
      s

unfoldable pub set_task_acknowledgement :
    Engine → String → String → String → ℕ → String → Tables → Result StoreError Unit × Tables
unfolding task_fact
set_task_acknowledgement e k at reason offset digest s =
    task_fact e k (λ t. true)
      (λ t. record t {
        acknowledged_at = at;
        acknowledged_reason = reason;
        acknowledged_offset = offset;
        acknowledged_digest = digest;
      })
      s

unfoldable pub set_task_repair :
    Engine → String → String → String → ℕ → String → Tables → Result StoreError Unit × Tables
unfolding task_fact
set_task_repair e k code reason i at s =
    task_fact e k (λ t. true)
      (λ t. record t {
        repair_code = code;
        repair_reason = reason;
        repair_attempt_id = i;
        repair_observed_at = at;
      })
      s

unfoldable pub clear_task_repair :
    Engine → String → String → Tables → Tables → Result StoreError Unit × Tables
clear_task_repair e k code later s =
    answered (missing_or lifecycle_conflict (get task_id_of k later.tasks)) (
      autocommit e
        (update_task k (λ t. t.repair_code == code)
          (λ t. record t {
            repair_code = "";
            repair_reason = "";
            repair_attempt_id = 0;
            repair_observed_at = "";
          }))
        s)

-- An UPDATE of the facts of an attempt that its task owns, with `updateAttemptOwnership`: the
-- attempt is the task's, in the expected lifecycle, passes the statement's own test, and is the
-- active attempt of the open task.
unfoldable pub attempt_fact :
    Engine
    → String
    → ℕ
    → AttemptLifecycle
    → (Attempt → Bool)
    → (Attempt → Attempt)
    → Tables
    → Result StoreError Unit × Tables
attempt_fact e k i l p f s =
    answered ownership_conflict
      (autocommit e (update_attempt i (λ a. in_lifecycle k l a && p a && owns k i s) f) s)

unfoldable pub record_attempt_worktree :
    Engine → String → ℕ → String → String → String → Tables → Result StoreError Unit × Tables
unfolding attempt_fact
record_attempt_worktree e k i worktree branch lease s =
    attempt_fact e k i provisioning (λ a. true)
      (λ a. record a { worktree = worktree; branch = branch; lease_id = lease }) s

unfoldable pub clear_attempt_worktree :
    Engine → String → ℕ → Tables → Result StoreError Unit × Tables
unfolding attempt_fact
clear_attempt_worktree e k i s =
    attempt_fact e k i provisioning (λ a. true)
      (λ a. record a { worktree = ""; branch = ""; lease_id = "" }) s

unfoldable pub record_attempt_herdr :
    Engine → String → ℕ → Herdr → String → Tables → Result StoreError Unit × Tables
unfolding attempt_fact
record_attempt_herdr e k i h at s =
    attempt_fact e k i provisioning (λ a. true) (λ a. record a { herdr = h; pane_started_at = at })
      s

abbrev pub no_herdr : Herdr
no_herdr = record { session = ""; workspace_id = ""; tab_id = ""; pane_id = "" }

unfoldable pub clear_attempt_herdr : Engine → String → ℕ → Tables → Result StoreError Unit × Tables
unfolding attempt_fact
clear_attempt_herdr e k i s =
    attempt_fact e k i provisioning (λ a. true)
      (λ a. record a { herdr = no_herdr; pane_started_at = "" }) s

abbrev first_of : String → String → String
first_of old new = if old == "" then new else old

unfoldable pub mark_launch_submitted :
    Engine → String → ℕ → String → Tables → Result StoreError Unit × Tables
unfolding attempt_fact
mark_launch_submitted e k i at s =
    attempt_fact e k i provisioning (λ a. true)
      (λ a. record a { launch_submitted_at = first_of a.launch_submitted_at at }) s

unfoldable pub mark_launch_confirmed :
    Engine → String → ℕ → String → Tables → Result StoreError Unit × Tables
unfolding attempt_fact
mark_launch_confirmed e k i at s =
    attempt_fact e k i provisioning (λ a. not (a.launch_submitted_at == ""))
      (λ a. record a { launch_confirmed_at = first_of a.launch_confirmed_at at }) s

-- `MarkAttemptRunning`, and the diagnosis of its refusal.
pub running_conflict : ℕ → Option Attempt → Option Task → StoreError
running_conflict i none o = ownership_conflict
running_conflict i (some a) none = ownership_conflict
running_conflict i (some a) (some t) =
    if not (open_and_owner i t)
    then ownership_conflict
    else if is_attempt a.lifecycle provisioning && a.launch_confirmed_at == ""
    then invalid_transition
    else lifecycle_conflict

abbrev pub now_running : Attempt → Attempt
now_running a = record a {
  lifecycle = running;
  status_changed_at = first_of a.status_changed_at a.launch_confirmed_at;
}

unfoldable pub mark_attempt_running :
    Engine → String → ℕ → Tables → Tables → Result StoreError Unit × Tables
unfolding running_conflict
mark_attempt_running e k i later s =
    answered
      (running_conflict i (owned_by k (get attempt_id_of i later.attempts))
        (get task_id_of k later.tasks))
      (autocommit e
        (update_attempt i
          (λ a. in_lifecycle k provisioning a && not (a.launch_confirmed_at == "") && owns k i s)
          now_running)
        s)

unfoldable pub set_attempt_send_trace :
    Engine
    → String
    → ℕ
    → AttemptLifecycle
    → String
    → String
    → Tables
    → Result StoreError Unit × Tables
unfolding attempt_fact
set_attempt_send_trace e k i expected message at s =
    attempt_fact e k i expected (λ a. true)
      (λ a. record a { send_undelivered_message = message; send_undelivered_at = at }) s

-- What a watcher observed of an attempt.
pub record Observation : Type 0 where
  pub status_changed_at : String
  pub status_changed_for : String
  pub done_verified : Bool
  pub last_report_state : String
  pub last_report_note : String
  pub parked_fired_for : String
  pub usage_limit_retry_at : String
  pub usage_limit_attempts : ℕ
  pub usage_limit_episode : ℕ
  pub usage_limit_stuck_episode : ℤ

unfoldable pub update_attempt_observation :
    Engine → String → ℕ → AttemptLifecycle → Observation → Tables → Result StoreError Unit × Tables
unfolding attempt_fact
update_attempt_observation e k i expected o s =
    attempt_fact e k i expected (λ a. true)
      (λ a. record a {
        status_changed_at = o.status_changed_at;
        status_changed_for = o.status_changed_for;
        done_verified = a.done_verified || o.done_verified;
        last_report_state = o.last_report_state;
        last_report_note = o.last_report_note;
        parked_fired_for = o.parked_fired_for;
        usage_limit_retry_at = o.usage_limit_retry_at;
        usage_limit_attempts = o.usage_limit_attempts;
        usage_limit_episode = o.usage_limit_episode;
        usage_limit_stuck_episode = o.usage_limit_stuck_episode;
      })
      s

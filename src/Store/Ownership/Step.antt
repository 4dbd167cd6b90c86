-- ===== src/Store/Ownership/Step.antt =====
-- The abstract state and its steps. A step states the new state at every key.
use secondhand.Base.{
  ℕ, String, ◌≡◌, true, false, Option, none, some, if◌then◌else◌, ◌==◌, nat_eq, string_eq,
}
use secondhand.Store.Types.{
  Task, Attempt, TaskLifecycle, AttemptLifecycle, open_, terminal, provisioning, completed,
  is_active_attempt,
}
use secondhand.Store.Table.{get}
use secondhand.Store.Tables.{Tables, task_id_of, attempt_id_of}

-- A task is its lifecycle and the attempt that it owns; an attempt is its task and its lifecycle.
pub record View : Type 0 where
  pub task : String → Option (TaskLifecycle × Option ℕ)
  pub attempt : ℕ → Option (String × AttemptLifecycle)

abbrev pub task_view : Option Task → Option (TaskLifecycle × Option ℕ)
task_view none = none
task_view (some t) = some (t.lifecycle, t.active_attempt_id)

abbrev pub attempt_view : Option Attempt → Option (String × AttemptLifecycle)
attempt_view none = none
attempt_view (some a) = some (a.task_id, a.lifecycle)

abbrev pub view : Tables → View
view s = record {
  task = λ k. task_view (get task_id_of k s.tasks);
  attempt = λ i. attempt_view (get attempt_id_of i s.attempts);
}

-- `w` is `v` with the task `k`, or the attempt `i`, set.
abbrev pub TaskSet : View → View → String → Option (TaskLifecycle × Option ℕ) → Type 0
TaskSet v w k x = (j : String) → w.task j ≡ (if k == j then x else v.task j)

abbrev pub AttemptSet : View → View → ℕ → Option (String × AttemptLifecycle) → Type 0
AttemptSet v w i x = (j : ℕ) → w.attempt j ≡ (if i == j then x else v.attempt j)

abbrev pub SameTasks : View → View → Type 0
SameTasks v w = (j : String) → w.task j ≡ v.task j

abbrev pub SameAttempts : View → View → Type 0
SameAttempts v w = (j : ℕ) → w.attempt j ≡ v.attempt j

-- What is left of the attempts when a task is deleted.
abbrev pub without :
    String → Option (String × AttemptLifecycle) → Option (String × AttemptLifecycle)
without k none = none
without k (some (j, l)) = if j == k then none else some (j, l)

-- Which step it is: the task, the attempt, and where they go.
pub data Label : Type 0 where
  staying : Label
  assigning : (k : String) (i : ℕ) (l : AttemptLifecycle) → Label
  founding : (k : String) (i : ℕ) → Label
  recording : (k : String) (i : ℕ) (l : AttemptLifecycle) → Label
  advancing : (k : String) (i : ℕ) (m : AttemptLifecycle) → Label
  releasing : (k : String) (i : ℕ) (m : AttemptLifecycle) (t : TaskLifecycle) → Label
  retiring : (k : String) → Label
  reopening : (k : String) (i : ℕ) → Label
  handing_over : (k : String) (i n : ℕ) → Label
  deleting : (k : String) → Label

pub data Step (v w : View) : Label → Type 0 where
  -- nothing that a caller can tell apart here changes
  stay : SameTasks v w → SameAttempts v w → Step v w staying
  -- an open task with no attempt takes a new active one
  assign :
      (k : String) (i : ℕ) (l : AttemptLifecycle)
      → v.task k ≡ some (open_, none)
      → v.attempt i ≡ none
      → is_active_attempt l ≡ true
      → TaskSet v w k (some (open_, some i))
      → AttemptSet v w i (some (k, l))
      → Step v w (assigning k i l)
  -- a task appears together with its first attempt
  found :
      (k : String) (i : ℕ)
      → v.task k ≡ none
      → v.attempt i ≡ none
      → TaskSet v w k (some (open_, some i))
      → AttemptSet v w i (some (k, provisioning))
      → Step v w (founding k i)
  -- an attempt that is over from the start is recorded
  keep_record :
      (k : String) (i : ℕ) (l : AttemptLifecycle) (o : Option ℕ)
      → v.task k ≡ some (open_, o)
      → v.attempt i ≡ none
      → is_active_attempt l ≡ false
      → SameTasks v w
      → AttemptSet v w i (some (k, l))
      → Step v w (recording k i l)
  -- the owned attempt moves on and stays active
  advance :
      (k : String) (i : ℕ) (l m : AttemptLifecycle)
      → v.task k ≡ some (open_, some i)
      → v.attempt i ≡ some (k, l)
      → is_active_attempt m ≡ true
      → SameTasks v w
      → AttemptSet v w i (some (k, m))
      → Step v w (advancing k i m)
  -- the owned attempt ends, and its task stays open or ends with it
  release :
      (k : String) (i : ℕ) (l m : AttemptLifecycle) (t : TaskLifecycle)
      → v.task k ≡ some (open_, some i)
      → v.attempt i ≡ some (k, l)
      → is_active_attempt m ≡ false
      → TaskSet v w k (some (t, none))
      → AttemptSet v w i (some (k, m))
      → Step v w (releasing k i m t)
  -- an open task with no attempt ends
  retire :
      (k : String)
      → v.task k ≡ some (open_, none)
      → TaskSet v w k (some (terminal, none))
      → SameAttempts v w
      → Step v w (retiring k)
  -- a terminal task opens again with a new attempt
  reopen :
      (k : String) (i : ℕ) (o : Option ℕ)
      → v.task k ≡ some (terminal, o)
      → v.attempt i ≡ none
      → TaskSet v w k (some (open_, some i))
      → AttemptSet v w i (some (k, provisioning))
      → Step v w (reopening k i)
  -- the owned attempt is completed, and a new one takes its place
  hand_over :
      (k : String) (i n : ℕ) (l : AttemptLifecycle)
      → v.task k ≡ some (open_, some i)
      → v.attempt i ≡ some (k, l)
      → v.attempt n ≡ none
      → TaskSet v w k (some (open_, some n))
      → ((j : ℕ)
          → w.attempt j ≡ (
              if n == j
              then some (k, provisioning)
              else if i == j
              then some (k, completed)
              else v.attempt j))
      → Step v w (handing_over k i n)
  -- a task goes with all its attempts
  delete :
      (k : String) (x : TaskLifecycle × Option ℕ)
      → v.task k ≡ some x
      → TaskSet v w k none
      → ((j : ℕ) → w.attempt j ≡ without k (v.attempt j))
      → Step v w (deleting k)

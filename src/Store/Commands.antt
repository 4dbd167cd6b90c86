-- ===== src/Store/Commands.antt =====
-- A method of internal/store/store.go that works on tasks and attempts, with its arguments, and what a
-- call and a sequence of calls leave behind. Of an answer only the error is kept.
use secondhand.Base.{Option, none, some, Result, ok, err, ℕ, String, Bool, List, [], ◌∷◌}
use secondhand.Store.Types.{Task, Attempt, Herdr, TaskLifecycle, AttemptLifecycle}
use secondhand.Store.Tables.{Tables, StoreError, Engine}
use secondhand.Store.Lifecycle.{
  create_task_with_attempt, create_attempt, create_attempt_if_open_and_inactive, transition_attempt,
  set_active_attempt, transition_task, reopen_task, promote_task, terminalize_task_and_attempt,
  delete_task,
}
use secondhand.Store.Facts.{
  Observation, set_task_pr, set_task_kind, set_task_merge_announced, set_task_delivery,
  set_task_merge, set_task_report_state, set_task_acknowledgement, set_task_repair,
  record_attempt_worktree, clear_attempt_worktree, record_attempt_herdr, clear_attempt_herdr,
  mark_launch_submitted, mark_launch_confirmed, set_attempt_send_trace, update_attempt_observation,
  clear_task_repair, mark_attempt_running,
}
use secondhand.Store.Teardown.{
  set_attempt_teardown_decision, set_attempt_teardown_resource_state,
  set_attempt_teardown_completion_state,
}

pub data Command : Type 0 where
  create_task_with_attempt_with : (t : Task) (a : Attempt) → Command
  create_attempt_with : (a : Attempt) → Command
  create_attempt_if_open_and_inactive_with : (a : Attempt) → Command
  transition_attempt_with : (i : ℕ) (from to : AttemptLifecycle) → Command
  set_active_attempt_with : (k : String) (i : ℕ) (later : Tables) → Command
  transition_task_with : (k : String) (from to : TaskLifecycle) (later : Tables) → Command
  reopen_task_with : (k : String) (a : Attempt) → Command
  promote_task_with : (k : String) (i : ℕ) (from : AttemptLifecycle) (ship : Attempt) → Command
  terminalize_task_and_attempt_with : (k : String) (i : ℕ) (from to : AttemptLifecycle) → Command
  delete_task_with : (k : String) → Command
  set_task_pr_with : (k pr : String) → Command
  set_task_kind_with : (k kind : String) → Command
  set_task_merge_announced_with : (k : String) → Command
  set_task_delivery_with : (k at reason : String) → Command
  set_task_merge_with : (k at : String) → Command
  set_task_report_state_with :
      (k : String) (offset : ℕ) (digest : String) (announced : Bool) → Command
  set_task_acknowledgement_with : (k at reason : String) (offset : ℕ) (digest : String) → Command
  set_task_repair_with : (k code reason : String) (i : ℕ) (at : String) → Command
  record_attempt_worktree_with : (k : String) (i : ℕ) (worktree branch lease : String) → Command
  clear_attempt_worktree_with : (k : String) (i : ℕ) → Command
  record_attempt_herdr_with : (k : String) (i : ℕ) (h : Herdr) (at : String) → Command
  clear_attempt_herdr_with : (k : String) (i : ℕ) → Command
  mark_launch_submitted_with : (k : String) (i : ℕ) (at : String) → Command
  mark_launch_confirmed_with : (k : String) (i : ℕ) (at : String) → Command
  set_attempt_send_trace_with :
      (k : String) (i : ℕ) (l : AttemptLifecycle) (message at : String) → Command
  update_attempt_observation_with :
      (k : String) (i : ℕ) (l : AttemptLifecycle) (o : Observation) → Command
  clear_task_repair_with : (k code : String) (later : Tables) → Command
  mark_attempt_running_with : (k : String) (i : ℕ) (later : Tables) → Command
  set_attempt_teardown_decision_with :
      (k : String) (i : ℕ) (to : AttemptLifecycle) (disposition : String) (later : Tables) → Command
  set_attempt_teardown_resource_state_with :
      (k : String) (i : ℕ) (l : AttemptLifecycle) (resource target : String) (later : Tables)
      → Command
  set_attempt_teardown_completion_state_with :
      (k : String) (i : ℕ) (l : AttemptLifecycle) (target : String) (later : Tables) → Command

abbrev failure : {A : Type 0} → Result StoreError A → Option StoreError
failure (ok a) = none
failure (err x) = some x

abbrev pub outcome : {A : Type 0} → Result StoreError A × Tables → Option StoreError × Tables
outcome r = (failure r.0, r.1)

-- Whether a call fails, and the database that it leaves.
unfoldable pub call : Engine → Command → Tables → Option StoreError × Tables
call e (create_task_with_attempt_with t a) s = outcome (create_task_with_attempt e t a s)
call e (create_attempt_with a) s = outcome (create_attempt e a s)
call e (create_attempt_if_open_and_inactive_with a) s =
    outcome (create_attempt_if_open_and_inactive e a s)
call e (transition_attempt_with i from to) s = outcome (transition_attempt e i from to s)
call e (set_active_attempt_with k i later) s = outcome (set_active_attempt e k i later s)
call e (transition_task_with k from to later) s = outcome (transition_task e k from to later s)
call e (reopen_task_with k a) s = outcome (reopen_task e k a s)
call e (promote_task_with k i from ship) s = outcome (promote_task e k i from ship s)
call e (terminalize_task_and_attempt_with k i from to) s =
    outcome (terminalize_task_and_attempt e k i from to s)
call e (delete_task_with k) s = outcome (delete_task e k s)
call e (set_task_pr_with k pr) s = outcome (set_task_pr e k pr s)
call e (set_task_kind_with k kind) s = outcome (set_task_kind e k kind s)
call e (set_task_merge_announced_with k) s = outcome (set_task_merge_announced e k s)
call e (set_task_delivery_with k at reason) s = outcome (set_task_delivery e k at reason s)
call e (set_task_merge_with k at) s = outcome (set_task_merge e k at s)
call e (set_task_report_state_with k offset digest announced) s =
    outcome (set_task_report_state e k offset digest announced s)
call e (set_task_acknowledgement_with k at reason offset digest) s =
    outcome (set_task_acknowledgement e k at reason offset digest s)
call e (set_task_repair_with k code reason i at) s =
    outcome (set_task_repair e k code reason i at s)
call e (record_attempt_worktree_with k i worktree branch lease) s =
    outcome (record_attempt_worktree e k i worktree branch lease s)
call e (clear_attempt_worktree_with k i) s = outcome (clear_attempt_worktree e k i s)
call e (record_attempt_herdr_with k i h at) s = outcome (record_attempt_herdr e k i h at s)
call e (clear_attempt_herdr_with k i) s = outcome (clear_attempt_herdr e k i s)
call e (mark_launch_submitted_with k i at) s = outcome (mark_launch_submitted e k i at s)
call e (mark_launch_confirmed_with k i at) s = outcome (mark_launch_confirmed e k i at s)
call e (set_attempt_send_trace_with k i l message at) s =
    outcome (set_attempt_send_trace e k i l message at s)
call e (update_attempt_observation_with k i l o) s =
    outcome (update_attempt_observation e k i l o s)
call e (clear_task_repair_with k code later) s = outcome (clear_task_repair e k code later s)
call e (mark_attempt_running_with k i later) s = outcome (mark_attempt_running e k i later s)
call e (set_attempt_teardown_decision_with k i to disposition later) s =
    outcome (set_attempt_teardown_decision e k i to disposition later s)
call e (set_attempt_teardown_resource_state_with k i l resource target later) s =
    outcome (set_attempt_teardown_resource_state e k i l resource target later s)
call e (set_attempt_teardown_completion_state_with k i l target later) s =
    outcome (set_attempt_teardown_completion_state e k i l target later s)

unfoldable pub execute : Engine → Command → Tables → Tables
unfolding call
execute e x s = (call e x s).1

-- The calls in their order, each with what the engine does for it.
unfoldable pub run : List (Engine × Command) → Tables → Tables
unfolding execute
run [] s = s
run ((e, x) ∷ calls) s = run calls (execute e x s)

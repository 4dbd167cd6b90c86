-- ===== src/Tests/Fleet.antt =====
-- A task with its attempt, from its creation to its end (internal/store/store.go).
use secondhand.Base.Int.{pos}
use secondhand.Base.{ok, ◌≡◌, refl, true, false, List, [], ◌∷◌, none, some, nat_eq, string_eq}
use secondhand.Store.Types.{
  Task, Attempt, TaskLifecycle, AttemptLifecycle, open_, provisioning, running, completed,
  is_active_attempt, valid_attempt_transition,
}
use secondhand.Store.Table.{get, modify, keep}
use secondhand.Store.Tables.{
  empty_tables, task_id_of, attempt_id_of, Engine, fine, busy, transact, autocommit, update_task,
  update_attempt, max_ordinal, attempt_fits, prepared, insert_attempt, task_fits, insert_task,
}
use secondhand.Store.Lifecycle.{
  terminalize_task_and_attempt, create_task_with_attempt, create_attempt,
}
use secondhand.Store.Facts.{
  no_herdr, attempt_fact, mark_launch_submitted, mark_launch_confirmed, mark_attempt_running,
}
use secondhand.Store.Commands.{
  Command, create_task_with_attempt_with, create_attempt_with, mark_launch_submitted_with,
  mark_launch_confirmed_with, mark_attempt_running_with, terminalize_task_and_attempt_with, run,
}
use secondhand.Store.History.{
  read_task, read_attempt, read_active_attempt, read_task_history, list_attempts,
  read_task_history-read_active_attempt,
}
use secondhand.Store.Runs.{
  empty-IsConsistent, run-IsConsistent, AllFollow, run-AllFollow, run-one_active, run-owner_active,
}
use secondhand.Store.Refinement.Rows.{IsConsistent}

abbrev pub works : Engine
works = record { begin = fine; exec = fine; commit = fine }

abbrev pub locked : Engine
locked = record { begin = busy; exec = fine; commit = fine }

abbrev pub some_task : Task
some_task = record {
  id = "fix-typo";
  project = "hand";
  kind = "ship";
  brief = "";
  lifecycle = TaskLifecycle.unset;
  active_attempt_id = none;
  pr = "";
  merge_executed = false;
  merge_executed_at = "";
  merge_announced = false;
  delivered_at = "";
  delivered_reason = "";
  report_offset = 0;
  report_digest = "";
  created_at = "";
  repair_code = "";
  repair_reason = "";
  repair_attempt_id = 0;
  repair_observed_at = "";
  acknowledged_at = "";
  acknowledged_reason = "";
  acknowledged_offset = 0;
  acknowledged_digest = "";
}

abbrev pub some_attempt : Attempt
some_attempt = record {
  id = 0;
  task_id = "";
  ordinal = 0;
  lifecycle = provisioning;
  harness = "claude";
  model = "";
  effort = "";
  execution_class = "";
  planned_against = "";
  requested_profile = "";
  routing_source = "";
  worktree = "";
  branch = "";
  lease_id = "";
  herdr = no_herdr;
  created_at = "";
  pane_started_at = "";
  launch_submitted_at = "";
  launch_confirmed_at = "";
  status_changed_at = "";
  status_changed_for = "";
  done_verified = false;
  last_report_state = "";
  last_report_note = "";
  send_undelivered_message = "";
  send_undelivered_at = "";
  parked_fired_for = "";
  usage_limit_retry_at = "";
  usage_limit_attempts = 0;
  teardown_terminal_attempt = AttemptLifecycle.unset;
  teardown_disposition = "";
  teardown_herdr_state = "";
  teardown_worktree_state = "";
  teardown_completion_state = "";
  usage_limit_episode = 0;
  usage_limit_stuck_episode = pos 0;
}

-- A task is created, a second attempt is refused, and the first one is launched.
abbrev launched : List (Engine × Command)
launched =
    (works, create_task_with_attempt_with some_task some_attempt)
    ∷ (works, create_attempt_with (record some_attempt { task_id = "fix-typo" }))
    ∷ (works, mark_launch_submitted_with "fix-typo" 1 "09:00")
    ∷ (locked, terminalize_task_and_attempt_with "fix-typo" 1 running completed)
    ∷ (works, mark_launch_confirmed_with "fix-typo" 1 "09:01")
    ∷ (works, mark_attempt_running_with "fix-typo" 1 empty_tables)
    ∷ []

abbrev pub running_attempt : Attempt
running_attempt = record some_attempt {
  id = 1;
  task_id = "fix-typo";
  ordinal = 1;
  lifecycle = running;
  launch_submitted_at = "09:00";
  launch_confirmed_at = "09:01";
  status_changed_at = "09:01";
}

abbrev pub owning_task : Task
owning_task = record some_task { lifecycle = open_; active_attempt_id = some 1 }

launched-attempt : get attempt_id_of 1 (run launched empty_tables).attempts ≡ some running_attempt
unfolding run get modify keep transact autocommit update_task update_attempt max_ordinal
    attempt_fits prepared insert_attempt task_fits insert_task create_task_with_attempt
    create_attempt attempt_fact mark_launch_submitted mark_launch_confirmed mark_attempt_running
    terminalize_task_and_attempt valid_attempt_transition
launched-attempt = refl

launched-task : get task_id_of "fix-typo" (run launched empty_tables).tasks ≡ some owning_task
unfolding run get modify keep transact autocommit update_task update_attempt max_ordinal
    attempt_fits prepared insert_attempt task_fits insert_task create_task_with_attempt
    create_attempt attempt_fact mark_launch_submitted mark_launch_confirmed mark_attempt_running
    terminalize_task_and_attempt valid_attempt_transition
launched-task = refl

run-one_active_example : running_attempt.id ≡ 1
run-one_active_example =
    run-one_active launched 1 1 running_attempt running_attempt launched-attempt launched-attempt
      refl refl refl

run-owner_active_example :
    (open_ ≡ open_)
    × ((a : Attempt) × (get attempt_id_of 1 (run launched empty_tables).attempts ≡ some a)
        × (a.task_id ≡ "fix-typo")
        × (is_active_attempt a.lifecycle ≡ true))
run-owner_active_example = run-owner_active launched "fix-typo" 1 owning_task launched-task refl

run-AllFollow_example : AllFollow launched empty_tables
run-AllFollow_example = run-AllFollow launched empty_tables empty-IsConsistent

run-IsConsistent_example : IsConsistent (run launched empty_tables)
run-IsConsistent_example = run-IsConsistent launched empty_tables empty-IsConsistent

launched-read : read_task "fix-typo" (run launched empty_tables) ≡ some owning_task
unfolding read_task
launched-read = launched-task

read_task_history-read_active_attempt_example :
    (a : Attempt) × (read_attempt 1 (run launched empty_tables) ≡ some a)
    × (is_active_attempt a.lifecycle ≡ true)
    × (read_active_attempt "fix-typo" (run launched empty_tables) ≡ some a)
    × (read_task_history "fix-typo" (run launched empty_tables)
        ≡ ok (
            some (record {
              task = owning_task;
              active_attempt = some a;
              attempts = list_attempts "fix-typo" (run launched empty_tables);
              sends = [];
            })))
read_task_history-read_active_attempt_example =
    read_task_history-read_active_attempt (run launched empty_tables) "fix-typo" owning_task 1
      (run-IsConsistent launched empty_tables empty-IsConsistent) launched-read refl

-- ===== src/Store/Refinement/Calls.antt =====
-- Each of the calls of Store/Commands.antt makes the step of Store/Ownership.antt that it promises,
-- or fails.
use secondhand.Base.{Result, ok, err, ◌≡◌, refl, Option, none, some, nat_eq, string_eq}
use secondhand.Store.Types.{provisioning, running, terminal}
use secondhand.Store.Tables.{Tables, StoreError, Engine}
use secondhand.Store.Lifecycle.{
  started, transition_task, transition_attempt, terminalize_task_and_attempt, promote_task,
  create_attempt_if_open_and_inactive, reopen_task, set_active_attempt, create_attempt,
  create_task_with_attempt, delete_task,
}
use secondhand.Store.Teardown.{
  set_attempt_teardown_resource_state, set_attempt_teardown_decision,
  set_attempt_teardown_completion_state,
}
use secondhand.Store.Facts.{
  set_task_pr, set_task_kind, set_task_merge_announced, set_task_delivery, set_task_merge,
  set_task_report_state, set_task_acknowledgement, set_task_repair, record_attempt_worktree,
  clear_attempt_worktree, record_attempt_herdr, clear_attempt_herdr, mark_launch_submitted,
  mark_launch_confirmed, set_attempt_send_trace, update_attempt_observation, mark_attempt_running,
  clear_task_repair,
}
use secondhand.Store.Commands.{
  Command, create_task_with_attempt_with, create_attempt_with,
  create_attempt_if_open_and_inactive_with, transition_attempt_with, set_active_attempt_with,
  transition_task_with, reopen_task_with, promote_task_with, terminalize_task_and_attempt_with,
  delete_task_with, set_task_pr_with, set_task_kind_with, set_task_merge_announced_with,
  set_task_delivery_with, set_task_merge_with, set_task_report_state_with,
  set_task_acknowledgement_with, set_task_repair_with, record_attempt_worktree_with,
  clear_attempt_worktree_with, record_attempt_herdr_with, clear_attempt_herdr_with,
  mark_launch_submitted_with, mark_launch_confirmed_with, set_attempt_send_trace_with,
  update_attempt_observation_with, clear_task_repair_with, mark_attempt_running_with,
  set_attempt_teardown_decision_with, set_attempt_teardown_resource_state_with,
  set_attempt_teardown_completion_state_with, call, outcome,
}
use secondhand.Store.Ownership.Step.{Label, staying, retiring, releasing, advancing, deleting}
use secondhand.Store.Refinement.Rows.{IsConsistent, Does, Leaves}
use secondhand.Store.Refinement.Ending.{
  terminalize_task_and_attempt-Refines, transition_attempt-Refines, Transitions,
}
use secondhand.Store.Refinement.Single.{
  transition_task-Refines, set_active_attempt-Refines, delete_task-Refines,
}
use secondhand.Store.Refinement.Starting.{
  Reopens, Creates, reopen_task-Refines, create_attempt-Refines,
  create_attempt_if_open_and_inactive-Refines,
}
use secondhand.Store.Refinement.Founding.{
  Founds, Promotes, create_task_with_attempt-Refines, promote_task-Refines,
}
use secondhand.Store.Refinement.Facts.{
  task_fact-Refines, attempt_fact-Refines, clear_task_repair-Refines, mark_attempt_running-Refines,
  set_attempt_teardown_decision-Refines, set_attempt_teardown_resource_state-Refines,
  set_attempt_teardown_completion_state-Refines,
}

-- The steps that a call promises where it succeeds. `SetActiveAttempt` never does on a database in
-- order, and a fact is no step.
abbrev pub Promises : Command → Label → Type 0
Promises (create_task_with_attempt_with t a) l = Founds t.id l
Promises (create_attempt_with a) l = Creates a.task_id (started a).lifecycle l
Promises (create_attempt_if_open_and_inactive_with a) l =
    Creates a.task_id (started (record a { ordinal = 0 })).lifecycle l
Promises (transition_attempt_with i from to) l = Transitions i to l
Promises (set_active_attempt_with k i later) l = ⊥
Promises (transition_task_with k from to later) l = l ≡ retiring k
Promises (reopen_task_with k a) l = Reopens k l
Promises (promote_task_with k i from ship) l = Promotes k i l
Promises (terminalize_task_and_attempt_with k i from to) l = l ≡ releasing k i to terminal
Promises (delete_task_with k) l = l ≡ deleting k
Promises (mark_attempt_running_with k i later) l = l ≡ advancing k i running
Promises _ l = l ≡ staying

-- What holds of the database behind a call: if it fails, it is the one before.
abbrev pub Follows : (Tables → Type 0) → Tables → Option StoreError × Tables → Type 0
Follows P s (none, s') = P s'
Follows P s (some x, s') = s' ≡ s

outcome-Follows :
    {A : Type 0} (P : Tables → Type 0) (s : Tables) (r : Result StoreError A × Tables)
    → Leaves P s r
    → Follows P s (outcome r)
outcome-Follows P s (ok a, s') h = h
outcome-Follows P s (err x, s') h = h

pub call-Refines :
    (e : Engine) (x : Command) (s : Tables)
    → IsConsistent s
    → Follows (λ s'. Does (Promises x) s s') s (call e x s)
unfolding call set_task_pr set_task_kind set_task_merge_announced set_task_delivery set_task_merge
    set_task_report_state set_task_acknowledgement set_task_repair record_attempt_worktree
    clear_attempt_worktree record_attempt_herdr clear_attempt_herdr mark_launch_submitted
    mark_launch_confirmed set_attempt_send_trace update_attempt_observation
call-Refines e (create_task_with_attempt_with t a) s c =
    outcome-Follows (Does (Promises (create_task_with_attempt_with t a)) s) s
      (create_task_with_attempt e t a s) (create_task_with_attempt-Refines e t a s c)
call-Refines e (create_attempt_with a) s c =
    outcome-Follows (Does (Promises (create_attempt_with a)) s) s (create_attempt e a s)
      (create_attempt-Refines e a s c)
call-Refines e (create_attempt_if_open_and_inactive_with a) s c =
    outcome-Follows (Does (Promises (create_attempt_if_open_and_inactive_with a)) s) s
      (create_attempt_if_open_and_inactive e a s)
      (create_attempt_if_open_and_inactive-Refines e a s c)
call-Refines e (transition_attempt_with i from to) s c =
    outcome-Follows (Does (Promises (transition_attempt_with i from to)) s) s
      (transition_attempt e i from to s) (transition_attempt-Refines e i from to s c)
call-Refines e (set_active_attempt_with k i later) s c =
    outcome-Follows (Does (Promises (set_active_attempt_with k i later)) s) s
      (set_active_attempt e k i later s) (set_active_attempt-Refines e k i later s c)
call-Refines e (transition_task_with k from to later) s c =
    outcome-Follows (Does (Promises (transition_task_with k from to later)) s) s
      (transition_task e k from to later s) (transition_task-Refines e k from to later s c)
call-Refines e (reopen_task_with k a) s c =
    outcome-Follows (Does (Promises (reopen_task_with k a)) s) s (reopen_task e k a s)
      (reopen_task-Refines e k a s c)
call-Refines e (promote_task_with k i from ship) s c =
    outcome-Follows (Does (Promises (promote_task_with k i from ship)) s) s
      (promote_task e k i from ship s) (promote_task-Refines e k i from ship s c)
call-Refines e (terminalize_task_and_attempt_with k i from to) s c =
    outcome-Follows (Does (Promises (terminalize_task_and_attempt_with k i from to)) s) s
      (terminalize_task_and_attempt e k i from to s)
      (terminalize_task_and_attempt-Refines e k i from to s c)
call-Refines e (delete_task_with k) s c =
    outcome-Follows (Does (Promises (delete_task_with k)) s) s (delete_task e k s)
      (delete_task-Refines e k s c)
call-Refines e (set_task_pr_with k pr) s c =
    outcome-Follows (Does (Promises (set_task_pr_with k pr)) s) s (set_task_pr e k pr s) (
      task_fact-Refines e s c k _ _
        (record { same_id = λ t. refl; same_lifecycle = λ t. refl; same_active = λ t. refl }))
call-Refines e (set_task_kind_with k kind) s c =
    outcome-Follows (Does (Promises (set_task_kind_with k kind)) s) s (set_task_kind e k kind s) (
      task_fact-Refines e s c k _ _
        (record { same_id = λ t. refl; same_lifecycle = λ t. refl; same_active = λ t. refl }))
call-Refines e (set_task_merge_announced_with k) s c =
    outcome-Follows (Does (Promises (set_task_merge_announced_with k)) s) s
      (set_task_merge_announced e k s)
      (task_fact-Refines e s c k _ _
        (record { same_id = λ t. refl; same_lifecycle = λ t. refl; same_active = λ t. refl }))
call-Refines e (set_task_delivery_with k at reason) s c =
    outcome-Follows (Does (Promises (set_task_delivery_with k at reason)) s) s
      (set_task_delivery e k at reason s)
      (task_fact-Refines e s c k _ _
        (record { same_id = λ t. refl; same_lifecycle = λ t. refl; same_active = λ t. refl }))
call-Refines e (set_task_merge_with k at) s c =
    outcome-Follows (Does (Promises (set_task_merge_with k at)) s) s (set_task_merge e k at s) (
      task_fact-Refines e s c k _ _
        (record { same_id = λ t. refl; same_lifecycle = λ t. refl; same_active = λ t. refl }))
call-Refines e (set_task_report_state_with k offset digest announced) s c =
    outcome-Follows (Does (Promises (set_task_report_state_with k offset digest announced)) s) s
      (set_task_report_state e k offset digest announced s)
      (task_fact-Refines e s c k _ _
        (record { same_id = λ t. refl; same_lifecycle = λ t. refl; same_active = λ t. refl }))
call-Refines e (set_task_acknowledgement_with k at reason offset digest) s c =
    outcome-Follows (Does (Promises (set_task_acknowledgement_with k at reason offset digest)) s) s
      (set_task_acknowledgement e k at reason offset digest s)
      (task_fact-Refines e s c k _ _
        (record { same_id = λ t. refl; same_lifecycle = λ t. refl; same_active = λ t. refl }))
call-Refines e (set_task_repair_with k code reason i at) s c =
    outcome-Follows (Does (Promises (set_task_repair_with k code reason i at)) s) s
      (set_task_repair e k code reason i at s)
      (task_fact-Refines e s c k _ _
        (record { same_id = λ t. refl; same_lifecycle = λ t. refl; same_active = λ t. refl }))
call-Refines e (record_attempt_worktree_with k i worktree branch lease) s c =
    outcome-Follows (Does (Promises (record_attempt_worktree_with k i worktree branch lease)) s) s
      (record_attempt_worktree e k i worktree branch lease s)
      (attempt_fact-Refines e s c k i provisioning _ _
        (record { same_id = λ a. refl; same_task = λ a. refl; same_lifecycle = λ a. refl }))
call-Refines e (clear_attempt_worktree_with k i) s c =
    outcome-Follows (Does (Promises (clear_attempt_worktree_with k i)) s) s
      (clear_attempt_worktree e k i s)
      (attempt_fact-Refines e s c k i provisioning _ _
        (record { same_id = λ a. refl; same_task = λ a. refl; same_lifecycle = λ a. refl }))
call-Refines e (record_attempt_herdr_with k i h at) s c =
    outcome-Follows (Does (Promises (record_attempt_herdr_with k i h at)) s) s
      (record_attempt_herdr e k i h at s)
      (attempt_fact-Refines e s c k i provisioning _ _
        (record { same_id = λ a. refl; same_task = λ a. refl; same_lifecycle = λ a. refl }))
call-Refines e (clear_attempt_herdr_with k i) s c =
    outcome-Follows (Does (Promises (clear_attempt_herdr_with k i)) s) s
      (clear_attempt_herdr e k i s)
      (attempt_fact-Refines e s c k i provisioning _ _
        (record { same_id = λ a. refl; same_task = λ a. refl; same_lifecycle = λ a. refl }))
call-Refines e (mark_launch_submitted_with k i at) s c =
    outcome-Follows (Does (Promises (mark_launch_submitted_with k i at)) s) s
      (mark_launch_submitted e k i at s)
      (attempt_fact-Refines e s c k i provisioning _ _
        (record { same_id = λ a. refl; same_task = λ a. refl; same_lifecycle = λ a. refl }))
call-Refines e (mark_launch_confirmed_with k i at) s c =
    outcome-Follows (Does (Promises (mark_launch_confirmed_with k i at)) s) s
      (mark_launch_confirmed e k i at s)
      (attempt_fact-Refines e s c k i provisioning _ _
        (record { same_id = λ a. refl; same_task = λ a. refl; same_lifecycle = λ a. refl }))
call-Refines e (set_attempt_send_trace_with k i l message at) s c =
    outcome-Follows (Does (Promises (set_attempt_send_trace_with k i l message at)) s) s
      (set_attempt_send_trace e k i l message at s)
      (attempt_fact-Refines e s c k i l _ _
        (record { same_id = λ a. refl; same_task = λ a. refl; same_lifecycle = λ a. refl }))
call-Refines e (update_attempt_observation_with k i l o) s c =
    outcome-Follows (Does (Promises (update_attempt_observation_with k i l o)) s) s
      (update_attempt_observation e k i l o s)
      (attempt_fact-Refines e s c k i l _ _
        (record { same_id = λ a. refl; same_task = λ a. refl; same_lifecycle = λ a. refl }))
call-Refines e (clear_task_repair_with k code later) s c =
    outcome-Follows (Does (Promises (clear_task_repair_with k code later)) s) s
      (clear_task_repair e k code later s) (clear_task_repair-Refines e s c k code later)
call-Refines e (mark_attempt_running_with k i later) s c =
    outcome-Follows (Does (Promises (mark_attempt_running_with k i later)) s) s
      (mark_attempt_running e k i later s) (mark_attempt_running-Refines e s c k i later)
call-Refines e (set_attempt_teardown_decision_with k i to disposition later) s c =
    outcome-Follows
      (Does (Promises (set_attempt_teardown_decision_with k i to disposition later)) s) s
      (set_attempt_teardown_decision e k i to disposition later s)
      (set_attempt_teardown_decision-Refines e s c k i to disposition later)
call-Refines e (set_attempt_teardown_resource_state_with k i l resource target later) s c =
    outcome-Follows
      (Does (Promises (set_attempt_teardown_resource_state_with k i l resource target later)) s) s
      (set_attempt_teardown_resource_state e k i l resource target later s)
      (set_attempt_teardown_resource_state-Refines e s c k i l resource target later)
call-Refines e (set_attempt_teardown_completion_state_with k i l target later) s c =
    outcome-Follows
      (Does (Promises (set_attempt_teardown_completion_state_with k i l target later)) s) s
      (set_attempt_teardown_completion_state e k i l target later s)
      (set_attempt_teardown_completion_state-Refines e s c k i l target later)

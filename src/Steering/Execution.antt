-- ===== src/Steering/Execution.antt =====
-- `Execute` of internal/steering/send.go and what it calls, in the order of the source.
use secondhand.Base.{
  Bool, true, ◌||◌, ◌&&◌, not, Option, none, some, if◌then◌else◌, ◌==◌, nat_beq, string_eq, Result,
  ok, err,
}
use secondhand.Store.Types.{
  Attempt, SendAttempt, is_attempt, is_send, running, pending, not_submitted,
}
use secondhand.Store.Tables.{Tables, StoreError}
use secondhand.Store.History.{read_active_attempt, read_send}
use secondhand.Store.Sends.{same_herdr, pending_send, normalize_pending_send}
use secondhand.Watcher.State.{status_working}
use secondhand.Steering.Request.{
  Pane, Cause, SteeringError, plain_error, precondition, unresolved, pane_error, Request, by_lock,
  by_wait, Answers, preflight_failed, no_client, no_target, no_active_attempt, not_running,
  lock_contended, lock_failed, ownership_conflict, pane_mismatch, pane_failed, composer_timeout,
  send_disappeared, store_failed,
}
use secondhand.Steering.Delivery.{submit}

abbrev pub same_attempt : Attempt → Attempt → Bool
same_attempt a b =
    nat_beq a.id b.id
    && a.task_id == b.task_id
    && is_attempt a.lifecycle b.lifecycle
    && same_herdr a.herdr b.herdr

-- An attempt that the request expects, if it names one.
abbrev pub as_expected : Request → Attempt → Bool
as_expected req a = elim req.expected [ none ↦ true | some b ↦ same_attempt a b ]

-- `verifyPane` of the answer to `PaneGet`; the error is its cause.
unfoldable pub verify_pane : Option Pane → Attempt → Result Cause Pane
verify_pane none a = err pane_failed
verify_pane (some p) a =
    if not (p.pane_id == a.herdr.pane_id)
      || (not (a.herdr.tab_id == "") && not (p.tab_id == a.herdr.tab_id))
      || (not (a.herdr.workspace_id == "") && not (p.workspace_id == a.herdr.workspace_id))
    then err pane_mismatch
    else ok p

-- `PendingSend` found a row, which is recovered as uncertain, or none did.
abbrev pub recovered : SendAttempt → Result StoreError (SendAttempt × Bool) → SteeringError
recovered x (err e) = record (plain_error (store_failed e)) {
  send = some x;
  attempt_id = x.attempt_id;
  state = some pending;
  reason = "stale-pending-recovery-failed";
}
recovered x (ok (y, changed)) = unresolved y

unfoldable pub recover_pending :
    Request → Answers → Option SendAttempt → Attempt → Tables → Option SteeringError × Tables
recover_pending req ans none a s = (none, s)
recover_pending req ans (some x) a s =
    let (r, s') =
      normalize_pending_send ans.recovering x.id req.task_id a.id "stale-pending-recovered"
        ans.recovered_at s in
    (some (recovered x r), s')

-- `refusePending` of a send that was observed.
unfoldable pub refuse_observed :
    Request → Answers → Attempt → Option SendAttempt → Tables → Option SteeringError × Tables
refuse_observed req ans a none s = (some (precondition send_disappeared), s)
refuse_observed req ans a (some x) s =
    if not (is_send x.state pending)
    then (some (unresolved x), s)
    else recover_pending req ans (pending_send req.task_id a.id s) a s

unfoldable pub refuse_pending :
    Request → Answers → Attempt → Option SendAttempt → Tables → Option SteeringError × Tables
refuse_pending req ans a none s = recover_pending req ans (pending_send req.task_id a.id s) a s
refuse_pending req ans a (some observed) s = refuse_observed req ans a (read_send observed.id s) s

-- What `refusePending` answered.
unfoldable pub unless_pending :
    Request
    → Answers
    → Attempt
    → Option SteeringError × Tables
    → Result SteeringError (Option SendAttempt) × Tables
unless_pending req ans a (some e, s) = (err e, s)
unless_pending req ans a (none, s) = submit req ans a s

unfoldable pub second_look :
    Request
    → Answers
    → Attempt
    → Result Cause Pane
    → Tables
    → Result SteeringError (Option SendAttempt) × Tables
second_look req ans a (err cause) s = (err (pane_error a cause), s)
second_look req ans a (ok p) s = unless_pending req ans a (refuse_pending req ans a none s)

-- Under the task lock.
unfoldable pub locked :
    Request
    → Answers
    → Attempt
    → Option Attempt
    → Tables
    → Result SteeringError (Option SendAttempt) × Tables
locked req ans active none s = (err (precondition no_active_attempt), s)
locked req ans active (some current) s =
    if not (same_attempt active current) || not (as_expected req current)
    then (err (precondition ownership_conflict), s)
    else second_look req ans current (verify_pane ans.second_pane current) s

unfoldable pub task_locked :
    Request → Answers → Attempt → Tables → Result SteeringError (Option SendAttempt) × Tables
task_locked req ans active s =
    by_lock ans.task_lock (locked req ans active (read_active_attempt req.task_id s) s)
      (err (precondition ownership_conflict), s) (err (precondition lock_failed), s)

-- A composer that stayed busy has taken nothing.
abbrev pub busy_error : Attempt → SteeringError
busy_error a = record (plain_error composer_timeout) {
  attempt_id = a.id;
  state = some not_submitted;
  reason = "composer-timeout";
  retry_safe = true;
}

unfoldable pub first_look :
    Request
    → Answers
    → Attempt
    → Result Cause Pane
    → Tables
    → Result SteeringError (Option SendAttempt) × Tables
first_look req ans a (err cause) s = (err (pane_error a cause), s)
first_look req ans a (ok p) s =
    if p.agent_status == status_working
    then by_wait ans.wait (task_locked req ans a s) (err (busy_error a), s)
        (err (pane_error a pane_failed), s)
    else task_locked req ans a s

-- A pending send was found first: nothing is sent, and the send is recovered under the task lock.
-- Where `refusePending` finds nothing to refuse any more, the source returns its zero result.
abbrev pub refusal :
    Option SteeringError × Tables → Result SteeringError (Option SendAttempt) × Tables
refusal (none, s) = (ok none, s)
refusal (some e, s) = (err e, s)

unfoldable pub pending_checked :
    Request
    → Answers
    → Attempt
    → Option SendAttempt
    → Tables
    → Result SteeringError (Option SendAttempt) × Tables
pending_checked req ans a (some observed) s =
    by_lock ans.task_lock (refusal (refuse_pending req ans a (some observed) s))
      (err (precondition lock_contended), s) (err (precondition lock_failed), s)
pending_checked req ans a none s = first_look req ans a (verify_pane ans.first_pane a) s

-- The attempt that was read first.
unfoldable pub active_checked :
    Request
    → Answers
    → Option Attempt
    → Tables
    → Tables
    → Result SteeringError (Option SendAttempt) × Tables
active_checked req ans none early s = (err (precondition no_active_attempt), s)
active_checked req ans (some a) early s =
    if not (as_expected req a)
    then (err (precondition ownership_conflict), s)
    else if not (is_attempt a.lifecycle running)
    then (err (precondition not_running), s)
    else pending_checked req ans a (pending_send req.task_id a.id early) s

unfoldable pub execute :
    Request → Answers → Tables → Tables → Result SteeringError (Option SendAttempt) × Tables
execute req ans early s =
    if not ans.preflight
    then (err (precondition preflight_failed), s)
    else if not req.has_client
    then (err (precondition no_client), s)
    else if req.home == "" || req.task_id == ""
    then (err (precondition no_target), s)
    else by_lock ans.send_lock
        (active_checked req ans (read_active_attempt req.task_id early) early s)
        (err (precondition lock_contended), s) (err (precondition lock_failed), s)

-- ===== src/Steering/Silence.antt =====
-- `Execute` of internal/steering/send.go where a send is pending.
use secondhand.Base.{
  refl, Bool, true, false, if◌then◌else◌, ◌≡◌, ◌||◌, not, Option, none, some, ◌==◌, string_eq,
  nat_eq, Result, ok, err,
}
use secondhand.Store.Types.{Attempt, SendAttempt, is_attempt, running}
use secondhand.Store.Tables.{Tables}
use secondhand.Store.History.{read_active_attempt}
use secondhand.Store.Sends.{pending_send}
use secondhand.Watcher.State.{status_working}
use secondhand.Steering.Request.{
  Pane, Cause, Request, Answers, LockAnswer, lock_held, lock_taken, lock_broken, by_lock, Wait,
  composer_free, composer_stayed_busy, wait_failed, by_wait,
}
use secondhand.Steering.Execution.{
  recover_pending, refuse_pending, unless_pending, second_look, refuse_observed, locked,
  task_locked, first_look, pending_checked, active_checked, execute, as_expected, same_attempt,
}

-- The same answers, but for those that only a delivery asks for: what herdr says to the text and to the
-- Enter, and how the engine records a send and its end.
abbrev pub delivered_by : Answers → Answers → Answers
delivered_by other ans = record ans {
  text = other.text;
  enter = other.enter;
  beginning = other.beginning;
  begun_at = other.begun_at;
  finalizing = other.finalizing;
  finalized_at = other.finalized_at;
}

same_lock :
    {A : Type 0} (l : LockAnswer) (x x' y z : A) → x ≡ x' → by_lock l x y z ≡ by_lock l x' y z
same_lock lock_held x x' y z h = h
same_lock lock_taken x x' y z h = refl
same_lock lock_broken x x' y z h = refl

same_wait : {A : Type 0} (w : Wait) (x x' y z : A) → x ≡ x' → by_wait w x y z ≡ by_wait w x' y z
same_wait composer_free x x' y z h = h
same_wait composer_stayed_busy x x' y z h = refl
same_wait wait_failed x x' y z h = refl

same_if :
    {A : Type 0} (b : Bool) (x x' y y' : A)
    → x ≡ x'
    → y ≡ y'
    → (if b then x else y) ≡ (if b then x' else y')
same_if true x x' y y' h k = h
same_if false x x' y y' h k = k

module _ (req : Request) (ans other : Answers) where
  unless_pending-same :
      (a : Attempt) (x : SendAttempt) (t : Tables)
      → unless_pending req
          (delivered_by other ans)
          a
          (recover_pending req (delivered_by other ans) (some x) a t)
        ≡ unless_pending req ans a (recover_pending req ans (some x) a t)
  unfolding unless_pending recover_pending
  unless_pending-same a x t = refl

  second_look-same :
      (a : Attempt) (r : Result Cause Pane) (t : Tables) (x : SendAttempt)
      → pending_send req.task_id a.id t ≡ some x
      → second_look req (delivered_by other ans) a r t ≡ second_look req ans a r t
  unfolding second_look refuse_pending
  second_look-same a (err c) t x there = refl
  second_look-same a (ok p) t x there = rw there (unless_pending-same a x t)

  module _ (s : Tables) (a : Attempt) (x : SendAttempt)
      (active : read_active_attempt req.task_id s ≡ some a)
      (there : pending_send req.task_id a.id s ≡ some x) where
    task_locked-same :
        (b : Attempt) → task_locked req (delivered_by other ans) b s ≡ task_locked req ans b s
    unfolding task_locked locked
    task_locked-same b = rw active (
        same_lock ans.task_lock _ _ _ _ (
          same_if (not (same_attempt b a) || not (as_expected req a)) _ _ _ _ refl
            (second_look-same a _ s x there)))

    first_look-same :
        (b : Attempt) (r : Result Cause Pane)
        → first_look req (delivered_by other ans) b r s ≡ first_look req ans b r s
    unfolding first_look
    first_look-same b (err c) = refl
    first_look-same b (ok p) =
        same_if (p.agent_status == status_working) _ _ _ _
          (same_wait ans.wait _ _ _ _ (task_locked-same b)) (task_locked-same b)

    pending_checked-same :
        (b : Attempt) (o : Option SendAttempt)
        → pending_checked req (delivered_by other ans) b o s ≡ pending_checked req ans b o s
    unfolding pending_checked refuse_pending refuse_observed recover_pending
    pending_checked-same b none = first_look-same b _
    pending_checked-same b (some z) = refl

    active_checked-same :
        (o : Option Attempt) (early : Tables)
        → active_checked req (delivered_by other ans) o early s ≡ active_checked req ans o early s
    unfolding active_checked
    active_checked-same none early = refl
    active_checked-same (some b) early =
        same_if (not (as_expected req b)) _ _ _ _ refl
          (same_if (not (is_attempt b.lifecycle running)) _ _ _ _ refl (pending_checked-same b _))

    -- While the task's active attempt has a pending send, what `Execute` answers and what it leaves in
    -- the database depend neither on what herdr would say to the text or the Enter nor on how the
    -- engine would record a new send or its end, whatever the source read before it took the lock.
    pub execute-pending :
        (early : Tables) → execute req (delivered_by other ans) early s ≡ execute req ans early s
    unfolding execute
    execute-pending early = same_if (not ans.preflight) _ _ _ _ refl (
        same_if (not req.has_client) _ _ _ _ refl (
          same_if (req.home == "" || req.task_id == "") _ _ _ _ refl (
            same_lock ans.send_lock _ _ _ _
              (active_checked-same (read_active_attempt req.task_id early) early))))

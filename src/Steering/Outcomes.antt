-- ===== src/Steering/Outcomes.antt =====
-- What one message to a worker leaves (internal/steering/send.go): what a caller may conclude from the
-- answer of `Execute`.
use secondhand.Base.{
  ℕ, sym, subst, String, ◌≡◌, refl, Bool, true, false, ◌||◌, ◌&&◌, not, Option, none, some, arith,
  ◌==◌, string_eq, Result, ok, err, ◌⊎◌, inl, inr, if_of, nat_eq,
}
use secondhand.Store.Types.{
  Attempt, SendAttempt, SendState, is_attempt, is_send, is_send-eq, running, pending, not_submitted,
  submitted, uncertain,
}
use secondhand.Store.Table.{get, get_key}
use secondhand.Store.Tables.{Tables, StoreError, Engine, send_id_of}
use secondhand.Store.History.{read_active_attempt, read_send}
use secondhand.Store.Sends.{finalize_send}
use secondhand.Store.Sends.Answers.{finalize_send-IsFinal}
use secondhand.Watcher.State.{status_working}
use secondhand.Steering.Request.{
  Pane, Cause, SteeringError, Request, Answers, Submission, accepted, refused, not_started,
  ambiguous, LockAnswer, lock_held, lock_taken, lock_broken, Wait, composer_free,
  composer_stayed_busy, wait_failed, composer_timeout, by_lock, by_wait, pane_error,
}
use secondhand.Steering.Execution.{
  recover_pending, refuse_observed, refuse_pending, unless_pending, second_look, locked,
  task_locked, first_look, pending_checked, active_checked, execute, refusal, recovered,
  as_expected, same_attempt,
}
use secondhand.Steering.Delivery.{
  finalize_answer, finalize, entered, enter_answered, staged, text_answered, begun, submit,
}

-- herdr refused the text before any side effect, or did not run at all.
abbrev pub never_typed : Submission → Bool
never_typed (refused code) = true
never_typed not_started = true
never_typed _ = false

abbrev pub is_accepted : Submission → Bool
is_accepted accepted = true
is_accepted _ = false

-- A success has its send recorded as submitted, and herdr took both the text and the Enter. An error
-- that is called safe to retry typed nothing: the composer stayed busy and the database is as it was,
-- or herdr refused the text.
abbrev pub IsHonest : Answers → Tables → Result SteeringError (Option SendAttempt) × Tables → Type 0
IsHonest ans s (ok none, s') = Unit
IsHonest ans s (ok (some x), s') =
    (is_accepted ans.text ≡ true)
    × (is_accepted ans.enter ≡ true)
    × (x.state ≡ submitted)
    × (read_send x.id s' ≡ some x)
IsHonest ans s (err e, s') =
    e.retry_safe ≡ true → ((e.cause ≡ composer_timeout) × (s' ≡ s)) ⊎ (never_typed ans.text ≡ true)

finalize_answer-IsHonest :
    (ans : Answers) (s : Tables) (x : SendAttempt) (t : Tables) (r : Result StoreError SendAttempt)
    → is_accepted ans.text ≡ true
    → is_accepted ans.enter ≡ true
    → ((y : SendAttempt) → r ≡ ok y → (y.state ≡ submitted) × (read_send y.id t ≡ some y))
    → IsHonest ans s (finalize_answer x submitted "text-and-enter-accepted" false r, t)
finalize_answer-IsHonest ans s x t (err e) typed entered recorded = λ safe. cc
finalize_answer-IsHonest ans s x t (ok y) typed entered recorded =
    (typed, entered, (recorded y refl).0, (recorded y refl).1)

-- The send that `FinalizeSend` answers with stands under its own id.
finalize_send-recorded :
    (e : Engine) (x : SendAttempt) (reason at : String) (t : Tables) (y : SendAttempt)
    → (finalize_send e x.id x.task_id x.attempt_id submitted reason at t).0 ≡ ok y
    → (y.state ≡ submitted)
      × (read_send y.id (finalize_send e x.id x.task_id x.attempt_id submitted reason at t).1
          ≡ some y)
unfolding read_send
finalize_send-recorded e x reason at t y h =
    let (final, terminal) =
      finalize_send-IsFinal e x.id x.task_id x.attempt_id submitted reason at t y h in
    (
      is_send-eq y.state submitted final.ended,
      subst
          (λ (n : ℕ).
            get send_id_of n
              (finalize_send e x.id x.task_id x.attempt_id submitted reason at t).1.sends
            ≡ some y)
          (sym (
            get_key send_id_of x.id
              (finalize_send e x.id x.task_id x.attempt_id submitted reason at t).1.sends
              final.row))
          final.row,
    )

entered-IsHonest :
    (req : Request) (ans : Answers) (s : Tables) (x : SendAttempt) (t : Tables)
    → is_accepted ans.text ≡ true
    → is_accepted ans.enter ≡ true
    → IsHonest ans s (entered req ans x t)
unfolding entered finalize
entered-IsHonest req ans s x t typed done =
    if_of (IsHonest ans s) req.faults.after_enter _ _ (λ safe. cc)
      (if_of (IsHonest ans s) req.faults.before_persist _ _ (λ safe. cc)
        (finalize_answer-IsHonest ans s x _ _ typed done
          (finalize_send-recorded ans.finalizing x "text-and-enter-accepted" ans.finalized_at t)))

-- A send that does not end as submitted.
unsubmitted-IsHonest :
    (ans : Answers) (s : Tables) (x : SendAttempt) (next : SendState) (reason : String)
    (partial : Bool) (t : Tables) (r : Result StoreError SendAttempt)
    → is_send next submitted ≡ false
    → ((is_send next not_submitted && not partial) ≡ true → never_typed ans.text ≡ true)
    → IsHonest ans s (finalize_answer x next reason partial r, t)
unsubmitted-IsHonest ans s x next reason partial t (err e) other safe_if = λ safe. cc
unsubmitted-IsHonest ans s x next reason partial t (ok y) other safe_if =
    rw other (λ safe. inr (safe_if safe))

module _ (ans : Answers) (s : Tables) where
  by_lock-IsHonest :
      (l : LockAnswer) (x y z : Result SteeringError (Option SendAttempt) × Tables)
      → IsHonest ans s x
      → IsHonest ans s y
      → IsHonest ans s z
      → IsHonest ans s (by_lock l x y z)
  by_lock-IsHonest lock_held x y z h i j = h
  by_lock-IsHonest lock_taken x y z h i j = i
  by_lock-IsHonest lock_broken x y z h i j = j

  by_wait-IsHonest :
      (w : Wait) (x y z : Result SteeringError (Option SendAttempt) × Tables)
      → IsHonest ans s x
      → IsHonest ans s y
      → IsHonest ans s z
      → IsHonest ans s (by_wait w x y z)
  by_wait-IsHonest composer_free x y z h i j = h
  by_wait-IsHonest composer_stayed_busy x y z h i j = i
  by_wait-IsHonest wait_failed x y z h i j = j

module _ (req : Request) (ans : Answers) (s : Tables) where
  enter_answered-IsHonest :
      (x : SendAttempt) (a : Submission) (t : Tables)
      → is_accepted ans.text ≡ true
      → ans.enter ≡ a
      → IsHonest ans s (enter_answered req ans x a t)
  unfolding enter_answered finalize
  enter_answered-IsHonest x accepted t typed e = entered-IsHonest req ans s x t typed (rw e refl)
  enter_answered-IsHonest x (refused code) t typed e =
      unsubmitted-IsHonest ans s x not_submitted _ true _ _ refl (λ safe. cc)
  enter_answered-IsHonest x not_started t typed e =
      unsubmitted-IsHonest ans s x not_submitted _ true _ _ refl (λ safe. cc)
  enter_answered-IsHonest x ambiguous t typed e =
      unsubmitted-IsHonest ans s x uncertain _ false _ _ refl (λ safe. cc)

  staged-IsHonest :
      (x : SendAttempt) (t : Tables)
      → is_accepted ans.text ≡ true
      → IsHonest ans s (staged req ans x t)
  unfolding staged
  staged-IsHonest x t typed =
      if_of (IsHonest ans s) req.faults.after_text _ _ (λ safe. cc)
        (if_of (IsHonest ans s) req.faults.before_enter _ _ (λ safe. cc)
          (enter_answered-IsHonest x ans.enter t typed refl))

  text_answered-IsHonest :
      (x : SendAttempt) (a : Submission) (t : Tables)
      → ans.text ≡ a
      → IsHonest ans s (text_answered req ans x a t)
  unfolding text_answered finalize
  text_answered-IsHonest x accepted t e = staged-IsHonest x t (rw e refl)
  text_answered-IsHonest x (refused code) t e =
      unsubmitted-IsHonest ans s x not_submitted _ false _ _ refl (λ safe. rw e refl)
  text_answered-IsHonest x not_started t e =
      unsubmitted-IsHonest ans s x not_submitted _ false _ _ refl (λ safe. rw e refl)
  text_answered-IsHonest x ambiguous t e =
      unsubmitted-IsHonest ans s x uncertain _ false _ _ refl (λ safe. cc)

  begun-IsHonest :
      (r : Result StoreError SendAttempt) (t : Tables) → IsHonest ans s (begun req ans r t)
  unfolding begun
  begun-IsHonest (err e) t = λ safe. cc
  begun-IsHonest (ok x) t =
      if_of (IsHonest ans s) req.faults.after_pending _ _ (λ safe. cc)
        (if_of (IsHonest ans s) req.faults.before_text _ _ (λ safe. cc)
          (text_answered-IsHonest x ans.text t refl))

  -- An error that `refusePending` gives is never called safe to retry.
  abbrev IsRefusal : Option SteeringError × Tables → Type 0
  IsRefusal (none, t) = Unit
  IsRefusal (some e, t) = e.retry_safe ≡ false

  recovered-unsafe :
      (x : SendAttempt) (r : Result StoreError (SendAttempt × Bool))
      → (recovered x r).retry_safe ≡ false
  recovered-unsafe x (err e) = refl
  recovered-unsafe x (ok (y, changed)) = refl

  recover_pending-IsRefusal :
      (o : Option SendAttempt) (a : Attempt) (t : Tables)
      → IsRefusal (recover_pending req ans o a t)
  unfolding recover_pending
  recover_pending-IsRefusal none a t = tt
  recover_pending-IsRefusal (some x) a t = recovered-unsafe x _

  refuse_observed-IsRefusal :
      (a : Attempt) (o : Option SendAttempt) (t : Tables)
      → IsRefusal (refuse_observed req ans a o t)
  unfolding refuse_observed
  refuse_observed-IsRefusal a none t = refl
  refuse_observed-IsRefusal a (some x) t =
      if_of IsRefusal (not (is_send x.state pending)) _ _ refl (recover_pending-IsRefusal _ a t)

  refuse_pending-IsRefusal :
      (a : Attempt) (o : Option SendAttempt) (t : Tables) → IsRefusal (refuse_pending req ans a o t)
  unfolding refuse_pending
  refuse_pending-IsRefusal a none t = recover_pending-IsRefusal _ a t
  refuse_pending-IsRefusal a (some x) t = refuse_observed-IsRefusal a _ t

  refusal-IsHonest : (p : Option SteeringError × Tables) → IsRefusal p → IsHonest ans s (refusal p)
  refusal-IsHonest (none, t) h = tt
  refusal-IsHonest (some e, t) h = λ safe. cc

  unless_pending-IsHonest :
      (a : Attempt) (p : Option SteeringError × Tables)
      → IsRefusal p
      → IsHonest ans s (unless_pending req ans a p)
  unfolding unless_pending submit
  unless_pending-IsHonest a (none, t) h = begun-IsHonest _ _
  unless_pending-IsHonest a (some e, t) h = λ safe. cc

  pane_error-unsafe : (a : Attempt) (c : Cause) → (pane_error a c).retry_safe ≡ false
  pane_error-unsafe a c = ground arith

  second_look-IsHonest :
      (a : Attempt) (r : Result Cause Pane) (t : Tables)
      → IsHonest ans s (second_look req ans a r t)
  unfolding second_look
  second_look-IsHonest a (err c) t = λ safe. cc (pane_error-unsafe a c)
  second_look-IsHonest a (ok p) t = unless_pending-IsHonest a _ (refuse_pending-IsRefusal a none t)

  locked-IsHonest :
      (a : Attempt) (o : Option Attempt) (t : Tables) → IsHonest ans s (locked req ans a o t)
  unfolding locked
  locked-IsHonest a none t = λ safe. cc
  locked-IsHonest a (some current) t =
      if_of (IsHonest ans s) (not (same_attempt a current) || not (as_expected req current)) _ _
        (λ safe. cc) (second_look-IsHonest current _ t)

  task_locked-IsHonest : (a : Attempt) (t : Tables) → IsHonest ans s (task_locked req ans a t)
  unfolding task_locked
  task_locked-IsHonest a t =
      by_lock-IsHonest ans s ans.task_lock _ _ _ (locked-IsHonest a _ t) (λ safe. cc) (λ safe. cc)

  -- Only here is the database the one that the run began with.
  first_look-IsHonest :
      (a : Attempt) (r : Result Cause Pane) → IsHonest ans s (first_look req ans a r s)
  unfolding first_look
  first_look-IsHonest a (err c) = λ safe. cc (pane_error-unsafe a c)
  first_look-IsHonest a (ok p) =
      if_of (IsHonest ans s) (p.agent_status == status_working) _ _
        (by_wait-IsHonest ans s ans.wait _ _ _ (task_locked-IsHonest a s) (λ safe. inl (refl, refl))
          (λ safe. cc))
        (task_locked-IsHonest a s)

  pending_checked-IsHonest :
      (a : Attempt) (o : Option SendAttempt) → IsHonest ans s (pending_checked req ans a o s)
  unfolding pending_checked
  pending_checked-IsHonest a (some observed) =
      by_lock-IsHonest ans s ans.task_lock _ _ _
        (refusal-IsHonest _ (refuse_pending-IsRefusal a (some observed) s)) (λ safe. cc)
        (λ safe. cc)
  pending_checked-IsHonest a none = first_look-IsHonest a _

  active_checked-IsHonest :
      (o : Option Attempt) (early : Tables) → IsHonest ans s (active_checked req ans o early s)
  unfolding active_checked
  active_checked-IsHonest none early = λ safe. cc
  active_checked-IsHonest (some a) early =
      if_of (IsHonest ans s) (not (as_expected req a)) _ _ (λ safe. cc)
        (if_of (IsHonest ans s) (not (is_attempt a.lifecycle running)) _ _ (λ safe. cc)
          (pending_checked-IsHonest a _))

-- Whatever the request, herdr's and the locks' answers, the engine's failures and the database: where
-- `Execute` succeeds with a send, herdr took both the text and the Enter, and the send stands recorded
-- as submitted; where its error is called safe to retry, either the composer stayed busy and the
-- database is as it was, or herdr refused the text before any side effect or did not run.
pub execute-IsHonest :
    (req : Request) (ans : Answers) (early s : Tables) → IsHonest ans s (execute req ans early s)
unfolding execute
execute-IsHonest req ans early s =
    if_of (IsHonest ans s) (not ans.preflight) _ _ (λ safe. cc)
      (if_of (IsHonest ans s) (not req.has_client) _ _ (λ safe. cc)
        (if_of (IsHonest ans s) (req.home == "" || req.task_id == "") _ _ (λ safe. cc)
          (by_lock-IsHonest ans s ans.send_lock _ _ _
            (active_checked-IsHonest req ans s (read_active_attempt req.task_id early) early)
            (λ safe. cc) (λ safe. cc))))

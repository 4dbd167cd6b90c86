-- ===== src/Steering/Request.antt =====
-- What `Execute` of internal/steering/send.go is asked, what it is answered with, and its errors.
use secondhand.Base.{ℕ, String, Bool, true, false, Option, none, some, string_eq}
use secondhand.Store.Types.{Attempt, SendAttempt, SendState, SendOrigin, pending}
use secondhand.Store.Tables.{StoreError, Engine}

-- The fields of `herdr.Pane` that are read here.
pub record Pane : Type 0 where
  pub pane_id : String
  pub workspace_id : String
  pub tab_id : String
  pub agent_status : String

-- What makes an error's text, as far as `errors.Is` or the branches tell causes apart.
pub data Cause : Type 0 where
  preflight_failed no_client no_target no_active_attempt not_running : Cause
  lock_contended lock_failed ownership_conflict pane_mismatch pane_failed : Cause
  composer_timeout send_disappeared unresolved_send rejected_send injected_fault : Cause
  store_failed finalization_failed : StoreError → Cause

pub record SteeringError : Type 0 where
  pub cause : Cause
  pub send : Option SendAttempt
  pub attempt_id : ℕ
  pub state : Option SendState
  pub reason : String
  pub retry_safe : Bool
  pub partial_composer : Bool
  pub is_precondition : Bool
  pub finalization_fault : Bool

abbrev pub plain_error : Cause → SteeringError
plain_error cause = record {
  cause = cause;
  send = none;
  attempt_id = 0;
  state = none;
  reason = "";
  retry_safe = false;
  partial_composer = false;
  is_precondition = false;
  finalization_fault = false;
}

abbrev pub precondition : Cause → SteeringError
precondition cause = record (plain_error cause) { is_precondition = true }

abbrev pub pending_error : SendAttempt → Cause → String → SteeringError
pending_error x cause reason = record (plain_error cause) {
  send = some x;
  attempt_id = x.attempt_id;
  state = some pending;
  reason = reason;
}

abbrev pub unresolved : SendAttempt → SteeringError
unresolved x = record (plain_error unresolved_send) {
  send = some x;
  attempt_id = x.attempt_id;
  state = some x.state;
  reason = x.reason_code;
}

-- `paneError`
abbrev pub pane_error : Attempt → Cause → SteeringError
pane_error a pane_mismatch = precondition pane_mismatch
pane_error a cause = record (plain_error cause) { attempt_id = a.id }

-- The errors that a test injects; none in the program.
pub record Faults : Type 0 where
  pub after_pending : Bool
  pub before_text : Bool
  pub after_text : Bool
  pub before_enter : Bool
  pub after_enter : Bool
  pub before_persist : Bool

-- An origin or an expected attempt that is left out is `none`.
pub record Request : Type 0 where
  pub home : String
  pub task_id : String
  pub message : String
  pub origin : Option SendOrigin
  pub has_client : Bool
  pub expected : Option Attempt
  pub usage_limit_episode : ℕ
  pub faults : Faults

pub data LockAnswer : Type 0 where
  lock_held lock_taken lock_broken : LockAnswer

-- What follows a lock that is held, that another process holds, or that fails.
abbrev pub by_lock {ℓ} : {A : Type ℓ} → LockAnswer → A → A → A → A
by_lock lock_held x y z = x
by_lock lock_taken x y z = y
by_lock lock_broken x y z = z

pub data Wait : Type 0 where
  composer_free composer_stayed_busy wait_failed : Wait

abbrev pub by_wait {ℓ} : {A : Type ℓ} → Wait → A → A → A → A
by_wait composer_free x y z = x
by_wait composer_stayed_busy x y z = y
by_wait wait_failed x y z = z

-- The answer to `PaneSendText` or `PaneSendKeys`: accepted, refused by herdr before any side effect
-- with its code, not even started, or anything else.
pub data Submission : Type 0 where
  accepted : Submission
  refused : String → Submission
  not_started : Submission
  ambiguous : Submission

pub record Answers : Type 0 where
  pub preflight : Bool
  pub send_lock : LockAnswer
  pub first_pane : Option Pane
  pub wait : Wait
  pub task_lock : LockAnswer
  pub second_pane : Option Pane
  pub text : Submission
  pub enter : Submission
  pub recovering : Engine
  pub beginning : Engine
  pub finalizing : Engine
  pub recovered_at : String
  pub begun_at : String
  pub finalized_at : String

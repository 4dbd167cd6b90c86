-- ===== src/Store/Types.antt =====
-- The row types of internal/store/store.go. A lifecycle is one of the words that its CHECK
-- constraint admits, or `unset` for the empty text; the active attempt's 0 is `none`. The watcher writes -1 into `usage_limit_stuck_episode`.
use secondhand.Base.Int.{ℤ}
use secondhand.Base.{ℕ, String, ◌≡◌, Bool, true, false, Option, nat_beq, arith, ◌||◌, ◌&&◌}

pub record Herdr : Type 0 where
  pub session : String
  pub workspace_id : String
  pub tab_id : String
  pub pane_id : String

pub data TaskLifecycle : Type 0 where
  unset open_ terminal : TaskLifecycle

pub data AttemptLifecycle : Type 0 where
  unset provisioning running completed failed interrupted : AttemptLifecycle

pub data SendState : Type 0 where
  pending not_submitted submitted uncertain : SendState

-- `unknown` stands for every text that is not one of the three origins.
pub data SendOrigin : Type 0 where
  operator usage_limit_resume legacy_undelivered unknown : SendOrigin

pub record Task : Type 0 where
  pub id : String
  pub project : String
  pub kind : String
  pub brief : String
  pub lifecycle : TaskLifecycle
  pub active_attempt_id : Option ℕ
  pub pr : String
  pub merge_executed : Bool
  pub merge_executed_at : String
  pub merge_announced : Bool
  pub delivered_at : String
  pub delivered_reason : String
  pub report_offset : ℕ
  pub report_digest : String
  pub created_at : String
  pub repair_code : String
  pub repair_reason : String
  pub repair_attempt_id : ℕ
  pub repair_observed_at : String
  pub acknowledged_at : String
  pub acknowledged_reason : String
  pub acknowledged_offset : ℕ
  pub acknowledged_digest : String

pub record Attempt : Type 0 where
  pub id : ℕ
  pub task_id : String
  pub ordinal : ℕ
  pub lifecycle : AttemptLifecycle
  pub harness : String
  pub model : String
  pub effort : String
  pub execution_class : String
  pub planned_against : String
  pub requested_profile : String
  pub routing_source : String
  pub worktree : String
  pub branch : String
  pub lease_id : String
  pub herdr : Herdr
  pub created_at : String
  pub pane_started_at : String
  pub launch_submitted_at : String
  pub launch_confirmed_at : String
  pub status_changed_at : String
  pub status_changed_for : String
  pub done_verified : Bool
  pub last_report_state : String
  pub last_report_note : String
  pub send_undelivered_message : String
  pub send_undelivered_at : String
  pub parked_fired_for : String
  pub usage_limit_retry_at : String
  pub usage_limit_attempts : ℕ
  pub teardown_terminal_attempt : AttemptLifecycle
  pub teardown_disposition : String
  pub teardown_herdr_state : String
  pub teardown_worktree_state : String
  pub teardown_completion_state : String
  pub usage_limit_episode : ℕ
  pub usage_limit_stuck_episode : ℤ

pub record SendAttempt : Type 0 where
  pub id : ℕ
  pub task_id : String
  pub attempt_id : ℕ
  pub origin : SendOrigin
  pub message : String
  pub state : SendState
  pub reason_code : String
  pub created_at : String
  pub finalized_at : String
  pub usage_limit_episode : ℕ

pub record Hold : Type 0 where
  pub id : String
  pub kind : String
  pub reason : String
  pub blocked_on : String
  pub set_at : String
  pub inferred : Bool

-- The project's row, with the column `position` that `Project` leaves out.
pub record Project : Type 0 where
  pub name : String
  pub url : String
  pub mode : String
  pub upstream : String
  pub position : ℕ

-- `==` on lifecycles and states.
abbrev pub task_rank : TaskLifecycle → ℕ
task_rank TaskLifecycle.unset = 0
task_rank open_ = 1
task_rank terminal = 2

abbrev pub is_task : TaskLifecycle → TaskLifecycle → Bool
is_task a b = nat_beq (task_rank a) (task_rank b)

abbrev pub attempt_rank : AttemptLifecycle → ℕ
attempt_rank AttemptLifecycle.unset = 0
attempt_rank provisioning = 1
attempt_rank running = 2
attempt_rank completed = 3
attempt_rank failed = 4
attempt_rank interrupted = 5

abbrev pub is_attempt : AttemptLifecycle → AttemptLifecycle → Bool
is_attempt a b = nat_beq (attempt_rank a) (attempt_rank b)

abbrev pub send_rank : SendState → ℕ
send_rank pending = 0
send_rank not_submitted = 1
send_rank submitted = 2
send_rank uncertain = 3

abbrev pub is_send : SendState → SendState → Bool
is_send a b = nat_beq (send_rank a) (send_rank b)

pub is_task-eq : (a b : TaskLifecycle) → is_task a b ≡ true → a ≡ b
is_task-eq a b h = ground arith

pub is_attempt-eq : (a b : AttemptLifecycle) → is_attempt a b ≡ true → a ≡ b
is_attempt-eq a b h = ground arith

pub is_send-eq : (a b : SendState) → is_send a b ≡ true → a ≡ b
is_send-eq a b h = ground arith

-- `isActiveAttempt`
abbrev pub is_active_attempt : AttemptLifecycle → Bool
is_active_attempt l = is_attempt l provisioning || is_attempt l running

-- `validAttemptTransition`, the switch on `from`
unfoldable pub valid_attempt_transition : AttemptLifecycle → AttemptLifecycle → Bool
valid_attempt_transition provisioning to =
    is_attempt to running || is_attempt to failed || is_attempt to interrupted
valid_attempt_transition running to =
    is_attempt to completed || is_attempt to failed || is_attempt to interrupted
valid_attempt_transition _ to = false

-- `validTaskTransition`
unfoldable pub valid_task_transition : TaskLifecycle → TaskLifecycle → Bool
valid_task_transition from to = is_task from open_ && is_task to terminal

-- ===== src/Tests/Messages.antt =====
-- One message to the worker of Tests/Fleet.antt (internal/steering/send.go).
use secondhand.Base.{◌≡◌, refl, true, false, [], ◌∷◌, none, some, ok, nat_eq, string_eq}
use secondhand.Store.Types.{SendAttempt, submitted}
use secondhand.Store.Table.{get, modify}
use secondhand.Store.Tables.{transact}
use secondhand.Store.History.{read_active_attempt}
use secondhand.Store.Sends.{
  pending_send, begin_send, finalize_send, insert_send, send_fits, update_send, transact_if,
  finalized,
}
use secondhand.Steering.Request.{
  Request, Answers, Pane, accepted, refused, lock_held, composer_free,
}
use secondhand.Steering.Execution.{
  execute, active_checked, pending_checked, first_look, verify_pane, task_locked, locked,
  second_look, unless_pending, refuse_pending, recover_pending,
}
use secondhand.Steering.Delivery.{
  submit, begun, text_answered, staged, enter_answered, entered, finalize,
}
use secondhand.Steering.Outcomes.{IsHonest, execute-IsHonest}
use secondhand.Steering.Silence.{delivered_by, execute-pending}
use secondhand.Tests.Fleet.{works, running_attempt}
use secondhand.Tests.Deliveries.{fleet, begun_fleet, first_send}

abbrev pub message : Request
message = record {
  home = "/home/fleet";
  task_id = "fix-typo";
  message = "rebase";
  origin = none;
  has_client = true;
  expected = some running_attempt;
  usage_limit_episode = 0;
  faults = record {
    after_pending = false;
    before_text = false;
    after_text = false;
    before_enter = false;
    after_enter = false;
    before_persist = false;
  };
}

abbrev idle_pane : Pane
idle_pane = record { pane_id = ""; workspace_id = ""; tab_id = ""; agent_status = "idle" }

abbrev pub willing : Answers
willing = record {
  preflight = true;
  send_lock = lock_held;
  first_pane = some idle_pane;
  wait = composer_free;
  task_lock = lock_held;
  second_pane = some idle_pane;
  text = accepted;
  enter = accepted;
  recovering = works;
  beginning = works;
  finalizing = works;
  recovered_at = "10:02";
  begun_at = "10:00";
  finalized_at = "10:01";
}

abbrev unwilling : Answers
unwilling = record willing { text = refused "pane-busy" }

abbrev delivered : SendAttempt
delivered = finalized submitted "text-and-enter-accepted" "10:01" first_send

delivers :
    execute message willing fleet fleet
    ≡ (ok (some delivered), record fleet { sends = delivered ∷ []; send_seq = 1 })
unfolding execute active_checked pending_checked first_look verify_pane task_locked locked
    second_look unless_pending refuse_pending recover_pending submit begun text_answered staged
    enter_answered entered finalize read_active_attempt pending_send begin_send finalize_send
    insert_send send_fits update_send transact_if transact get modify
delivers = refl

execute-IsHonest_example : IsHonest willing fleet (execute message willing fleet fleet)
execute-IsHonest_example = execute-IsHonest message willing fleet fleet

active_there : read_active_attempt "fix-typo" begun_fleet ≡ some running_attempt
unfolding read_active_attempt get
active_there = refl

pending_there : pending_send "fix-typo" 1 begun_fleet ≡ some first_send
unfolding pending_send
pending_there = refl

execute-pending_example :
    execute message (delivered_by unwilling willing) fleet begun_fleet
    ≡ execute message willing fleet begun_fleet
execute-pending_example =
    execute-pending message willing unwilling begun_fleet running_attempt first_send active_there
      pending_there fleet

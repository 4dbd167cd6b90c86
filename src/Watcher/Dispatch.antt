-- ===== src/Watcher/Dispatch.antt =====
-- Where an event goes (`handleEvent`, `hasTarget`, `filterHistories`, `replaceTarget` and the decision
-- of `notifyEvent` of internal/watcher/watcher.go). What is printed, logged and handed to the
-- notification command is a value, `Handled`; writing it is I/O.
use secondhand.Base.{
  String, ◌≡◌, refl, Bool, ◌&&◌, not, List, [], ◌∷◌, ◌++◌, Bytes, Option, none, some, arith,
  if◌then◌else◌, ◌==◌, string_eq, eq_iff, any, codes,
}
use secondhand.Store.History.{TaskHistory}
use secondhand.Watcher.State.{Event, MonitorTarget}
use secondhand.Watcher.Filter.{matches, notify_filter}

pub record TargetBinding : Type 0 where
  pub task_id : String
  pub target : MonitorTarget

unfoldable pub has_target : List TargetBinding → String → Bool
has_target targets task_id = any (λ b. b.task_id == task_id) targets

unfoldable pub filter_histories : List TaskHistory → List TargetBinding → List TaskHistory
filter_histories [] targets = []
filter_histories (h ∷ histories) targets =
    let rest = filter_histories histories targets in
    if has_target targets h.task.id then h ∷ rest else rest

unfoldable pub replace_target : List TargetBinding → TargetBinding → List TargetBinding
replace_target [] replacement = replacement ∷ []
replace_target (b ∷ targets) replacement =
    let rest = replace_target targets replacement in
    if b.task_id == replacement.task_id then replacement ∷ targets else b ∷ rest

-- The loop over the bindings; a task without one keeps the event's own target.
unfoldable pub target_of : List TargetBinding → Event → MonitorTarget
target_of [] e = e.target
target_of (b ∷ targets) e =
    let rest = target_of targets e in if b.task_id == e.task_id then b.target else rest

-- `printed` and `notified` are empty where nothing is written or handed on.
pub record Handled : Type 0 where
  pub event : Event
  pub printed : Option Bytes
  pub logged : Bytes
  pub notified : Option Event

abbrev pub bound : String → List TargetBinding → Event → Event
bound fleet_id targets e = record e { fleet_id = fleet_id; target = target_of targets e }

-- `stamp` is the instant in RFC3339, `filter` and `catch_up` the two filters of the configuration.
unfoldable pub handle_event :
    String → List TargetBinding → List String → List String → Bool → String → Event → Handled
handle_event fleet_id targets filter catch_up suppress_notify stamp e = record {
  event = bound fleet_id targets e;
  printed = if matches filter e.kind && matches catch_up e.kind then some e.text else none;
  logged = codes stamp ++ (b' ' ∷ e.text);
  notified =
      if not suppress_notify && matches notify_filter e.kind
      then some (bound fleet_id targets e)
      else none;
}

target_of-replace_target :
    (targets : List TargetBinding) (b : TargetBinding) (e : Event)
    → target_of (replace_target targets b) e
      ≡ (if b.task_id == e.task_id then b.target else target_of targets e)
unfolding target_of replace_target
target_of-replace_target [] b e = refl
target_of-replace_target (c ∷ targets) b e = ground (
  arith,
  target_of-replace_target targets b e,
  eq_iff c.task_id b.task_id,
  eq_iff c.task_id e.task_id,
  eq_iff b.task_id e.task_id,
)

-- An event that is handled behind a replaced binding carries that binding's target if it is of its
-- task, and otherwise the target that it would have carried without the replacement; and every event
-- is logged with its text, whatever the two filters and the notification setting are.
handle_event-replace_target :
    (fleet_id : String) (targets : List TargetBinding) (b : TargetBinding)
    (filter catch_up : List String) (suppress_notify : Bool) (stamp : String) (e : Event)
    → ((handle_event fleet_id
          (replace_target targets b)
          filter
          catch_up
          suppress_notify
          stamp
          e).event.target
        ≡ (if b.task_id == e.task_id
            then b.target
            else (handle_event fleet_id targets filter catch_up suppress_notify stamp
                e).event.target))
      × ((handle_event fleet_id
            (replace_target targets b)
            filter
            catch_up
            suppress_notify
            stamp
            e).logged
          ≡ codes stamp ++ (b' ' ∷ e.text))
unfolding handle_event
handle_event-replace_target fleet_id targets b filter catch_up suppress_notify stamp e =
    (target_of-replace_target targets b e, refl)

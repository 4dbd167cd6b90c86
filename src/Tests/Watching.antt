-- ===== src/Tests/Watching.antt =====
-- A watcher's ticks over a worker that stops, parks, vanishes, and runs into a usage limit
-- (internal/watcher and internal/attention).
use secondhand.Base.{
  ◌*◌, ◌+◌, ◌≤◌, ◌≢◌, ◌≡◌, refl, true, false, [], ◌∷◌, List, some, not, any, if◌then◌else◌, answers,
  first_due, length, codes, nat_eq, string_eq,
}
use secondhand.Base.Int.{pos, sub_below}
use secondhand.Age.{minute, hour}
use secondhand.Report.Line.{report_done, report_paused}
use secondhand.Store.Types.{Task}
use secondhand.Store.Table.{get, keep}
use secondhand.Store.History.{
  read_task_history, list_attempts, by_ordinal, insert_by_ordinal, history_found, history_of,
}
use secondhand.Steering.Request.{lock_held}
use secondhand.Watcher.State.{TaskState, new_task_state}
use secondhand.Watcher.Status.{unreachable_event}
use secondhand.Watcher.Announcements.{
  ParkedBounds, parked_bound, parked_event, sub, classify_parked, done_event,
}
use secondhand.Watcher.Latches.{
  OutageStep, probe_fails, dwells, outage_step, outage_due, classify_unreachable-once,
  classify_parked-once, classify_deferred_done-once, Evidence, deferred_step, deferred_due,
}
use secondhand.Watcher.Limit.{limit_floor, limit_max_wait, limit_skew, next_limit_retry}
use secondhand.Watcher.Limit.Backoff.{next_limit_retry_bounds}
use secondhand.Watcher.Episodes.{classify_usage_limit}
use secondhand.Watcher.LimitHolds.{Tick, limited, unlimited, owns_attempt}
use secondhand.Watcher.Episodes.Schedule.{IsFair, classify_usage_limit-IsFair}
use secondhand.Watcher.Episodes.Unresolved.{
  answered_by, classify_usage_limit-blocked, observation, stuck_by, observe_blocked-once,
}
use secondhand.Tests.Fleet.{works, running_attempt, owning_task}
use secondhand.Tests.Deliveries.{fleet}
use secondhand.Tests.Messages.{willing}

-- A worker last seen idle at one minute.
abbrev idle_worker : TaskState
idle_worker = new_task_state "idle" minute

abbrev lost : TaskState
lost = record idle_worker { probed = false }

abbrev outage : List OutageStep
outage =
    probe_fails (2 * minute)
    ∷ dwells (2 * minute)
    ∷ dwells (30 * minute)
    ∷ probe_fails (31 * minute)
    ∷ dwells (31 * minute)
    ∷ []

classify_unreachable-once_example :
    answers (outage_step "fix-typo" (pos (10 * minute)) "") outage lost ≡ (
      if any (outage_due lost (pos (10 * minute)) "") outage
      then unreachable_event "fix-typo" ∷ []
      else [])
classify_unreachable-once_example =
    classify_unreachable-once "fix-typo" (pos (10 * minute)) "" lost outage refl refl

abbrev bounds : ParkedBounds
bounds = record { paused = pos (2 * hour); done = pos hour; other = pos 0 }

paused_bound : parked_bound report_paused bounds ≡ some (pos (2 * hour))
unfolding parked_bound
paused_bound = refl

classify_parked-once_example :
    answers
      (λ now ts.
        classify_parked ts "fix-typo" report_paused (codes "paused: lunch") minute now bounds)
      (hour ∷ 3 * hour ∷ 4 * hour ∷ [])
      idle_worker
    ≡ first_due
        (λ now. not (sub_below now minute (pos (2 * hour))))
        (λ now. parked_event "fix-typo" (codes "paused: lunch") (sub now minute))
        (hour ∷ 3 * hour ∷ 4 * hour ∷ [])
classify_parked-once_example =
    classify_parked-once "fix-typo" report_paused (codes "paused: lunch") minute bounds
      (pos (2 * hour)) paused_bound idle_worker (hour ∷ 3 * hour ∷ 4 * hour ∷ []) refl

abbrev reported : TaskState
reported = record idle_worker {
  last_report_state = report_done;
  last_report_note = codes "tests pass";
}

-- A ship whose pull request is recorded, and then merged.
abbrev ship : Task
ship = record owning_task { kind = "ship"; pr = "https://github.com/atqamz/secondhand/pull/12" }

abbrev evidence : List Evidence
evidence =
    record { task = owning_task; pr_merged = false; report_there = false }
    ∷ record { task = ship; pr_merged = false; report_there = false }
    ∷ record { task = ship; pr_merged = true; report_there = false }
    ∷ record { task = ship; pr_merged = true; report_there = false }
    ∷ []

classify_deferred_done-once_example :
    answers deferred_step evidence reported
    ≡ first_due
        (deferred_due reported)
        (λ x. done_event x.task.id (codes "tests pass") true)
        evidence
classify_deferred_done-once_example = classify_deferred_done-once reported evidence refl refl

next_limit_retry_bounds_example :
    (hour + limit_floor ≤ next_limit_retry (3 * hour) 2 hour)
    × (next_limit_retry (3 * hour) 2 hour ≤ hour + limit_max_wait)
    × (3 * hour ≢ 0
        → 3 * hour + limit_skew ≤ hour + limit_max_wait
        → 3 * hour + limit_skew ≤ next_limit_retry (3 * hour) 2 hour)
next_limit_retry_bounds_example = next_limit_retry_bounds (3 * hour) 2 hour

abbrev pub tick : Tick
tick = record {
  now = hour;
  stamp = "10:00";
  rfc3339 = λ at. "11:00";
  task_lock = lock_held;
  again_lock = lock_held;
  send_lock = lock_held;
  pending_lock = lock_held;
  engine = works;
  home = "/home/fleet";
  sighting = limited (2 * hour);
  refusal = unlimited;
  steering = willing;
  early = fleet;
}

classify_usage_limit-IsFair_example :
    IsFair hour running_attempt idle_worker (
      classify_usage_limit tick owning_task running_attempt true "idle" false true idle_worker
        fleet)
classify_usage_limit-IsFair_example =
    classify_usage_limit-IsFair tick owning_task running_attempt idle_worker true "idle" false true
      fleet

abbrev unresolved_limit : TaskState
unresolved_limit = record idle_worker {
  limit_resume_blocked = true;
  limit_retry_at = minute;
  limit_attempts = 4;
  limit_episode = 1;
}

classify_usage_limit-blocked_example :
    classify_usage_limit
      (answered_by willing fleet tick)
      owning_task
      running_attempt
      true
      "idle"
      false
      false
      unresolved_limit
      fleet
    ≡ classify_usage_limit tick owning_task running_attempt true "idle" false false unresolved_limit
        fleet
classify_usage_limit-blocked_example =
    classify_usage_limit-blocked tick willing fleet owning_task running_attempt unresolved_limit
      true "idle" false false fleet refl

still_owned : owns_attempt owning_task running_attempt fleet ≡ true
unfolding owns_attempt read_task_history list_attempts get keep by_ordinal insert_by_ordinal
    history_found history_of
still_owned = refl

observe_blocked-once_example :
    length (
      answers
        (observation owning_task running_attempt)
        (tick ∷ tick ∷ tick ∷ [])
        (unresolved_limit, fleet))
    ≡ stuck_by owning_task running_attempt 4 (tick ∷ tick ∷ tick ∷ [])
observe_blocked-once_example =
    observe_blocked-once owning_task running_attempt (tick ∷ tick ∷ tick ∷ []) unresolved_limit
      fleet ((refl, refl), ((refl, refl), ((refl, refl), tt))) still_owned refl

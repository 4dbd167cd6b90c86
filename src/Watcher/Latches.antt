-- ===== src/Watcher/Latches.antt =====
-- What the classifiers of internal/watcher/events.go announce along many ticks: each condition once,
-- at the first tick that meets it.
use secondhand.Base.{
  ℕ, sym, String, ◌≡◌, refl, ap, ◌∙◌, ◌||◌, Bool, true, false, List, [], ◌∷◌, Bytes, bytes_equal,
  ◌==◌, string_eq, Option, none, some, ◌&&◌, not, if◌then◌else◌, nat_beq, any, arith, IsLatch,
  answers, first_due, answers-armed, first_due-constant, nat_beq_iff,
}
use secondhand.Base.Int.{ℤ, sub_below}
use secondhand.Report.Line.{terminal_report, report_done}
use secondhand.Store.Types.{Task}
use secondhand.Watcher.State.{TaskState, Event, event, said, kind_stale}
use secondhand.Watcher.Status.{
  classify_status, classify_stale, classify_unreachable, unreachable_event, unseen,
}
use secondhand.Watcher.Announcements.{
  ParkedBounds, parked_bound, parked, parked_past, parked_event, sub, classify_parked, parked_found,
  classify_deferred_done, done_verified, done_event,
}

-- A worker that herdr answers for, has said nothing final, has not been delivered, and whose status
-- has not changed for the threshold.
abbrev pub stale_due : TaskState → String → ℤ → ℕ → Bool
stale_due ts delivered_at threshold now =
    ts.probed
    && not (terminal_report ts.last_report_state || not (delivered_at == ""))
    && not (sub_below now ts.changed_at threshold)

abbrev pub stale_event : String → Event
stale_event id = event id kind_stale (said "stale" id) [] false

stale-Latch :
    (ts : TaskState) (id delivered_at : String) (threshold : ℤ)
    → ts.is_stale ≡ false
    → IsLatch
        (λ now s. classify_stale s id delivered_at now threshold)
        (stale_due ts delivered_at threshold)
        (λ now. stale_event id)
        (λ s. s ≡ ts)
        (λ s. s.is_stale ≡ true)
unfolding classify_stale
stale-Latch ts id delivered_at threshold fresh = record {
  fires = λ now s e due. rw e (ground arith);
  waits = λ now s e later. rw e (ground arith);
  stays = λ now s fired. ground arith;
}

-- Along any ticks, a task whose stale latch is open is announced stale at the first tick that comes
-- the threshold after its last change of status, and never again before its status changes; never
-- where herdr does not answer for it, its worker reported done or failed, or it was delivered.
pub classify_stale-once :
    (ts : TaskState) (id delivered_at : String) (threshold : ℤ) (nows : List ℕ)
    → ts.is_stale ≡ false
    → answers (λ now s. classify_stale s id delivered_at now threshold) nows ts
      ≡ (if any (stale_due ts delivered_at threshold) nows then stale_event id ∷ [] else [])
classify_stale-once ts id delivered_at threshold nows fresh =
    answers-armed (stale-Latch ts id delivered_at threshold fresh) nows ts refl
    ∙ first_due-constant (stale_due ts delivered_at threshold) (stale_event id) nows

-- A tick that finds the pane unreachable, or asks how long it has been.
pub data OutageStep : Type 0 where
  probe_fails dwells : ℕ → OutageStep

pub outage_step : String → ℤ → String → OutageStep → TaskState → TaskState × Option Event
outage_step id threshold teardown_herdr_state (probe_fails now) ts =
    classify_status ts id none now teardown_herdr_state
outage_step id threshold teardown_herdr_state (dwells now) ts =
    classify_unreachable ts id now threshold teardown_herdr_state

abbrev pub outage_due : TaskState → ℤ → String → OutageStep → Bool
outage_due ts threshold teardown_herdr_state (probe_fails now) = false
outage_due ts threshold teardown_herdr_state (dwells now) =
    teardown_herdr_state == "" && not (sub_below now ts.changed_at threshold)

still_unprobed : (ts : TaskState) → ts.probed ≡ false → record ts { probed = false } ≡ ts
still_unprobed ts h = ap (λ (b : Bool). record ts { probed = b }) (sym h)

module _ (id : String) (threshold : ℤ) (teardown_herdr_state : String) where
  outage-fires :
      (ts : TaskState) (a : OutageStep)
      → ts.probed ≡ false
      → ts.unreachable_fired ≡ false
      → outage_due ts threshold teardown_herdr_state a ≡ true
      → outage_step id threshold teardown_herdr_state a ts
        ≡ (record ts { unreachable_fired = true }, some (unreachable_event id))
  unfolding outage_step classify_unreachable
  outage-fires ts (probe_fails now) unprobed fresh due = cc
  outage-fires ts (dwells now) unprobed fresh due = ground arith

  outage-waits :
      (ts : TaskState) (a : OutageStep)
      → ts.probed ≡ false
      → outage_due ts threshold teardown_herdr_state a ≡ false
      → outage_step id threshold teardown_herdr_state a ts ≡ (ts, none)
  unfolding outage_step classify_status unseen classify_unreachable
  outage-waits ts (probe_fails now) unprobed later =
      rw (unprobed, still_unprobed ts unprobed) (ground arith)
  outage-waits ts (dwells now) unprobed later = ground arith

  outage-stays :
      (ts : TaskState) (a : OutageStep)
      → ts.probed ≡ false
      → ts.unreachable_fired ≡ true
      → outage_step id threshold teardown_herdr_state a ts ≡ (ts, none)
  unfolding outage_step classify_status unseen classify_unreachable
  outage-stays ts (probe_fails now) unprobed fired =
      rw (unprobed, still_unprobed ts unprobed) (ground arith)
  outage-stays ts (dwells now) unprobed fired = ground arith

  outage-IsLatch :
      (ts : TaskState)
      → ts.probed ≡ false
      → ts.unreachable_fired ≡ false
      → IsLatch
          (outage_step id threshold teardown_herdr_state)
          (outage_due ts threshold teardown_herdr_state)
          (λ a. unreachable_event id)
          (λ s. s ≡ ts)
          (λ s. (s.probed ≡ false) × (s.unreachable_fired ≡ true))
  outage-IsLatch ts unprobed fresh = record {
    fires = λ a s e due. rw (e, outage-fires ts a unprobed fresh due) ((unprobed, refl), refl);
    waits = λ a s e later. rw (e, outage-waits ts a unprobed later) (refl, refl);
    stays = λ a s fired. rw (outage-stays s a fired.0 fired.1) (fired, refl);
  }

  -- Along any failing probes and checks of the dwell, in any order, a task whose pane did not answer
  -- before and whose outage is not announced is announced failed exactly once if some check comes the
  -- threshold after the last change of status and no teardown has touched its pane, and never
  -- otherwise.
  pub classify_unreachable-once :
      (ts : TaskState) (steps : List OutageStep)
      → ts.probed ≡ false
      → ts.unreachable_fired ≡ false
      → answers (outage_step id threshold teardown_herdr_state) steps ts ≡ (
          if any (outage_due ts threshold teardown_herdr_state) steps
          then unreachable_event id ∷ []
          else [])
  classify_unreachable-once ts steps unprobed fresh =
      answers-armed (outage-IsLatch ts unprobed fresh) steps ts refl
      ∙ first_due-constant (outage_due ts threshold teardown_herdr_state) (unreachable_event id)
          steps

module _ (id : String) (last_state last_line : Bytes) (mtime : ℕ) (bounds : ParkedBounds)
    (bound : ℤ) (configured : parked_bound last_state bounds ≡ some bound) where
  abbrev parked_step : ℕ → TaskState → TaskState × Option Event
  parked_step now ts = classify_parked ts id last_state last_line mtime now bounds

  parked-configured :
      (now : ℕ) → parked last_state mtime now bounds ≡ not (sub_below now mtime bound)
  unfolding parked parked_past
  parked-configured now = rw configured refl

  parked-IsLatch :
      IsLatch parked_step
        (λ now. not (sub_below now mtime bound))
        (λ now. parked_event id last_line (sub now mtime))
        (λ ts. nat_beq mtime ts.parked_fired_for ≡ false)
        (λ ts. nat_beq mtime ts.parked_fired_for ≡ true)
  unfolding classify_parked parked_found
  parked-IsLatch = record {
    fires = λ now ts fresh due.
        rw (configured, fresh, parked-configured now, due) ((nat_beq_iff mtime mtime).1 refl, refl);
    waits =
        λ now ts fresh later. rw (configured, fresh, parked-configured now, later) (fresh, refl);
    stays = λ now ts fired. rw (configured, fired) (fired, refl);
  }

  -- Along any ticks at which the last report and its instant stay the same, where a bound is
  -- configured for that report and this silence was not announced before, a silent worker is
  -- announced parked once, at the first tick that comes the bound after the instant, with the length
  -- of the silence at that tick.
  pub classify_parked-once :
      (ts : TaskState) (nows : List ℕ)
      → nat_beq mtime ts.parked_fired_for ≡ false
      → answers parked_step nows ts
        ≡ first_due
            (λ now. not (sub_below now mtime bound))
            (λ now. parked_event id last_line (sub now mtime))
            nows
  classify_parked-once ts nows fresh = answers-armed parked-IsLatch nows ts fresh

-- What one tick finds: the task's row, whether the pull request is known to be merged, which other
-- classifiers may have come to know since, and whether the scout's report.md is there.
pub record Evidence : Type 0 where
  pub task : Task
  pub pr_merged : Bool
  pub report_there : Bool

abbrev pub deferred_step : Evidence → TaskState → TaskState × Option Event
deferred_step x ts =
    classify_deferred_done (record ts { pr_merged = x.pr_merged }) x.task x.report_there

abbrev pub deferred_due : TaskState → Evidence → Bool
deferred_due ts x = done_verified (record ts { pr_merged = x.pr_merged }) x.task x.report_there

deferred-IsLatch :
    (note : Bytes) (ts : TaskState)
    → IsLatch deferred_step
        (deferred_due ts)
        (λ x. done_event x.task.id note true)
        (λ s.
          (s.done_verified ≡ false)
          × (bytes_equal s.last_report_state report_done ≡ true)
          × (s.last_report_note ≡ note))
        (λ s. s.done_verified ≡ true)
unfolding classify_deferred_done done_verified
deferred-IsLatch note ts = record {
  fires = λ x s armed due.
      let (fresh, done, noted) = armed in rw (fresh, done, noted, due) (refl, refl);
  waits = λ x s armed later.
      let (fresh, done, noted) = armed in rw (fresh, done, later) ((refl, done, noted), refl);
  stays = λ x s fired. ground (arith, fired);
}

-- Along any ticks, whatever the task's row, the knowledge of the merge and the scout's report come to
-- be at each, a worker's `done` whose verified announcement has not gone out gets one, with the note
-- of that report, at the first tick whose evidence verifies it, and no other tick announces it.
pub classify_deferred_done-once :
    (ts : TaskState) (ticks : List Evidence)
    → ts.done_verified ≡ false
    → bytes_equal ts.last_report_state report_done ≡ true
    → answers deferred_step ticks ts
      ≡ first_due (deferred_due ts) (λ x. done_event x.task.id ts.last_report_note true) ticks
classify_deferred_done-once ts ticks fresh reported =
    answers-armed (deferred-IsLatch ts.last_report_note ts) ticks ts (fresh, reported, refl)

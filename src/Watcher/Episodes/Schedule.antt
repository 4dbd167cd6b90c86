-- ===== src/Watcher/Episodes/Schedule.antt =====
-- What one tick may do to the schedule of a usage-limited worker.
use secondhand.Base.{
  ℕ, ◌+◌, ◌≤◌, String, ◌≡◌, refl, Bool, true, false, ◌||◌, ◌&&◌, not, Option, none, some, arith,
  if_of, if◌then◌else◌, ◌⊎◌, inl, inr, Result, ok, err, nat_beq, ltb,
}
use secondhand.Base.Int.{int_equal}
use secondhand.Store.Types.{Task, Attempt, SendAttempt, SendState, is_send, not_submitted}
use secondhand.Store.Tables.{Tables}
use secondhand.Steering.Request.{LockAnswer, SteeringError}
use secondhand.Watcher.State.{TaskState, Event, not_busy}
use secondhand.Watcher.Limit.{limit_floor, limit_max_wait, limit_stuck_after, report_ends_task}
use secondhand.Watcher.Limit.Backoff.{next_limit_retry_bounds}
use secondhand.Watcher.Episodes.{
  Step, cleared, clear_usage_limit, advanced, stuck, stuck_mark, observed,
  observe_blocked_usage_limit, rescheduled, after_state, waiting, after_failed_resume, resumed,
  resume_answered, attempt_usage_limit_resume, continue_usage_limit, new_episode, detected, sighted,
  detect_usage_limit, blocked_usage_limit, classify_usage_limit, is_running_again, named_reset,
}
use secondhand.Watcher.LimitHolds.{
  Tick, Projection, is_failed, Sighting, limited, unread, unlimited,
}

-- The episode behind every one that the watcher or the attempt's row knows of.
abbrev pub fresh_episode : Attempt → TaskState → ℕ
fresh_episode a ts =
    (if ltb ts.limit_episode a.usage_limit_episode then a.usage_limit_episode else ts.limit_episode)
    + 1

-- From the state `ts` at the instant `now`: the next try is where it was, or there is none, or it is
-- between ten minutes and a day from now; at most one attempt is spent; and the episode is the same or
-- the fresh one.
pub record IsFair (now : ℕ) (a : Attempt) (ts : TaskState) (p : Step) : Type 0 where
  pub schedule :
      (p.0.0.limit_retry_at ≡ ts.limit_retry_at)
      ⊎ (p.0.0.limit_retry_at ≡ 0)
      ⊎ ((now + limit_floor ≤ p.0.0.limit_retry_at) × (p.0.0.limit_retry_at ≤ now + limit_max_wait))
  pub spent : p.0.0.limit_attempts ≤ ts.limit_attempts + 1
  pub episode :
      (p.0.0.limit_episode ≡ ts.limit_episode) ⊎ (p.0.0.limit_episode ≡ fresh_episode a ts)

module _ (w : Tick) (a : Attempt) (ts : TaskState) where
  same-IsFair : (s : Tables) (e : Option Event) → IsFair w.now a ts ((ts, s), e)
  same-IsFair s e = record { schedule = inl refl; spent = omega arith; episode = inl refl }

  cleared-IsFair : (id : String) (p : Bool × Tables) → IsFair w.now a ts (cleared id ts p)
  unfolding cleared
  cleared-IsFair id (false, s) = same-IsFair s none
  cleared-IsFair id (true, s) = record {
    schedule = inr (inl refl);
    spent = omega arith;
    episode = inl refl;
  }

-- A state on the way to a fair one, with the attempts that it still has.
record IsPlanned (now left : ℕ) (a : Attempt) (ts ts' : TaskState) : Type 0 where
  schedule :
      (ts'.limit_retry_at ≡ ts.limit_retry_at)
      ⊎ (ts'.limit_retry_at ≡ 0)
      ⊎ ((now + limit_floor ≤ ts'.limit_retry_at) × (ts'.limit_retry_at ≤ now + limit_max_wait))
  spent : ts'.limit_attempts + left ≤ ts.limit_attempts + 1
  episode : (ts'.limit_episode ≡ ts.limit_episode) ⊎ (ts'.limit_episode ≡ fresh_episode a ts)

planned-IsFair :
    (now left : ℕ) (a : Attempt) (ts ts' : TaskState) (s : Tables) (e : Option Event)
    → IsPlanned now left a ts ts'
    → IsFair now a ts ((ts', s), e)
planned-IsFair now left a ts ts' s e h = record {
  schedule = h.schedule;
  spent = omega (arith, h.spent);
  episode = h.episode;
}

stuck-IsFair :
    (w : Tick) (now left : ℕ) (a : Attempt) (ts ts' : TaskState) (id : String) (s : Tables)
    → IsPlanned now left a ts ts'
    → IsFair now a ts (stuck w id ts' s)
unfolding stuck
stuck-IsFair w now left a ts ts' id s h =
    if_of (IsFair now a ts) (ltb ts'.limit_attempts limit_stuck_after) _ _
      (planned-IsFair now left a ts ts' s none h)
      (if_of (IsFair now a ts) (int_equal ts'.limit_stuck_episode (stuck_mark ts'.limit_episode)) _
        _ (planned-IsFair now left a ts ts' s none h)
        (record { schedule = h.schedule; spent = omega (arith, h.spent); episode = h.episode }))

advanced-IsPlanned :
    (now : ℕ) (a : Attempt) (ts ts' : TaskState) (advance : Bool)
    → IsPlanned now 1 a ts ts'
    → IsPlanned now 0 a ts (advanced advance ts')
advanced-IsPlanned now a ts ts' advance h =
    if_of (IsPlanned now 0 a ts) (advance && ltb ts'.limit_attempts limit_stuck_after) _ _
      (record { schedule = h.schedule; spent = omega (arith, h.spent); episode = h.episode })
      (record { schedule = h.schedule; spent = omega (arith, h.spent); episode = h.episode })

module _ (w : Tick) (t : Task) (a : Attempt) (ts : TaskState) where
  kept-IsPlanned : IsPlanned w.now 1 a ts ts
  kept-IsPlanned = record { schedule = inl refl; spent = omega arith; episode = inl refl }

  observed-IsFair :
      (advance : Bool) (ts' : TaskState) (p : Projection × Tables)
      → IsPlanned w.now 0 a ts ts'
      → IsPlanned w.now 0 a ts (advanced advance ts')
      → IsFair w.now a ts (observed w t.id advance ts' p)
  unfolding observed
  observed-IsFair advance ts' (p, s) h k =
      if_of (IsFair w.now a ts) (is_failed p) _ _ (planned-IsFair w.now 0 a ts ts' s none h)
        (stuck-IsFair w w.now 0 a ts _ t.id s k)

  weaker : (ts' : TaskState) → IsPlanned w.now 1 a ts ts' → IsPlanned w.now 0 a ts ts'
  weaker ts' h = record {
    schedule = h.schedule;
    spent = omega (arith, h.spent);
    episode = h.episode;
  }

  observe_blocked-IsFair :
      (l : LockAnswer) (s : Tables)
      → IsFair w.now a ts (observe_blocked_usage_limit w l t a true ts s)
  unfolding observe_blocked_usage_limit
  observe_blocked-IsFair l s =
      observed-IsFair true ts _ (weaker ts kept-IsPlanned)
        (advanced-IsPlanned w.now a ts ts true kept-IsPlanned)

  clear_usage_limit-IsFair : (s : Tables) → IsFair w.now a ts (clear_usage_limit w t a ts s)
  unfolding clear_usage_limit
  clear_usage_limit-IsFair s = cleared-IsFair w a ts t.id _

  rescheduled-IsPlanned : (reset : ℕ) → IsPlanned w.now 0 a ts (rescheduled reset w.now ts)
  rescheduled-IsPlanned reset =
      let (soon, late, named) = next_limit_retry_bounds reset (ts.limit_attempts + 1) w.now in
      record { schedule = inr (inr (soon, late)); spent = omega arith; episode = inl refl }

  waiting-IsPlanned : IsPlanned w.now 0 a ts (waiting w.now ts)
  waiting-IsPlanned =
      let h = rescheduled-IsPlanned 0 in
      record { schedule = h.schedule; spent = h.spent; episode = h.episode }

  after_state-IsPlanned :
      (retry_safe : Bool) (o : Option SendState)
      → IsPlanned w.now 0 a ts (after_state w ts retry_safe o)
  after_state-IsPlanned retry_safe none = rescheduled-IsPlanned 0
  after_state-IsPlanned retry_safe (some state) =
      if_of (IsPlanned w.now 0 a ts) (is_send state not_submitted && retry_safe) _ _
        (rescheduled-IsPlanned (named_reset w.refusal)) waiting-IsPlanned

  resumed-IsFair :
      (ts' : TaskState) (p : Projection × Tables)
      → IsPlanned w.now 0 a ts ts'
      → IsFair w.now a ts (resumed w t a ts' p)
  unfolding resumed observe_blocked_usage_limit
  resumed-IsFair ts' (p, s) h =
      if_of (IsFair w.now a ts) (is_failed p) _ _ (planned-IsFair w.now 0 a ts ts' s none h)
        (observed-IsFair false ts' _ h h)

  resume_answered-IsFair :
      (r : Result SteeringError (Option SendAttempt) × Tables)
      → IsFair w.now a ts (resume_answered w t a ts r)
  unfolding resume_answered after_failed_resume
  resume_answered-IsFair (ok x, s) = resumed-IsFair _ _ waiting-IsPlanned
  resume_answered-IsFair (err e, s) =
      if_of (IsFair w.now a ts) e.is_precondition _ _ (same-IsFair w a ts s none)
        (resumed-IsFair _ _ (after_state-IsPlanned e.retry_safe e.state))

  continue_usage_limit-IsFair :
      (status : String) (s : Tables) → IsFair w.now a ts (continue_usage_limit w t a status ts s)
  unfolding continue_usage_limit attempt_usage_limit_resume
  continue_usage_limit-IsFair status s =
      if_of (IsFair w.now a ts) (is_running_again status) _ _ (clear_usage_limit-IsFair s) (
        if_of (IsFair w.now a ts) (report_ends_task ts.last_report_state) _ _
          (clear_usage_limit-IsFair s)
          (if_of (IsFair w.now a ts) ts.limit_resume_blocked _ _
            (observe_blocked-IsFair w.task_lock s)
            (if_of (IsFair w.now a ts) (ltb w.now ts.limit_retry_at) _ _ (same-IsFair w a ts s none)
              (resume_answered-IsFair _))))

  new_episode-IsPlanned : (reset : ℕ) → IsPlanned w.now 0 a ts (new_episode a reset w.now ts)
  new_episode-IsPlanned reset =
      let (soon, late, named) = next_limit_retry_bounds reset 0 w.now in
      record { schedule = inr (inr (soon, late)); spent = omega arith; episode = inr refl }

  detected-IsFair :
      (ts' : TaskState) (p : Projection × Tables)
      → IsPlanned w.now 0 a ts ts'
      → IsFair w.now a ts (detected w t.id ts' p)
  unfolding detected
  detected-IsFair ts' (p, s) h =
      if_of (IsFair w.now a ts) (is_failed p) _ _ (planned-IsFair w.now 0 a ts ts' s none h)
        (planned-IsFair w.now 0 a ts ts' s _ h)

  sighted-IsFair :
      (x : Sighting) (s : Tables)
      → IsFair w.now a ts (sighted w t a x (record ts { limit_probed = true }) s)
  unfolding sighted
  sighted-IsFair (limited reset) s =
      let h = new_episode-IsPlanned reset in
      detected-IsFair _ _ (record { schedule = h.schedule; spent = h.spent; episode = h.episode })
  sighted-IsFair unread s = record { schedule = inl refl; spent = omega arith; episode = inl refl }
  sighted-IsFair unlimited s = record {
    schedule = inl refl;
    spent = omega arith;
    episode = inl refl;
  }

  blocked_usage_limit-IsFair :
      (status : String) (s : Tables) → IsFair w.now a ts (blocked_usage_limit w t a status ts s)
  unfolding blocked_usage_limit
  blocked_usage_limit-IsFair status s =
      if_of (IsFair w.now a ts) (is_running_again status || report_ends_task ts.last_report_state) _
        _ (clear_usage_limit-IsFair _) (observe_blocked-IsFair w.task_lock _)

  -- One tick, whatever the pane, the locks, the engine and herdr answer: the instant of the next try
  -- stays, or is dropped, or is between ten minutes and a day from now; at most one attempt is spent;
  -- and the episode stays, or is the one right behind the larger of the watcher's and the row's.
  pub classify_usage_limit-IsFair :
      (supported : Bool) (status : String) (probe_failed just_stopped : Bool) (s : Tables)
      → IsFair w.now a ts
          (classify_usage_limit w t a supported status probe_failed just_stopped ts s)
  unfolding classify_usage_limit detect_usage_limit
  classify_usage_limit-IsFair supported status probe_failed just_stopped s =
      if_of (IsFair w.now a ts) probe_failed _ _ (same-IsFair w a ts s none) (
        if_of (IsFair w.now a ts) (not supported) _ _ (same-IsFair w a ts s none) (
          if_of (IsFair w.now a ts) (not (nat_beq ts.limit_retry_at 0)) _ _
            (continue_usage_limit-IsFair status s)
            (if_of (IsFair w.now a ts) ts.limit_resume_blocked _ _
              (blocked_usage_limit-IsFair status s)
              (if_of (IsFair w.now a ts)
                (not (not_busy status) || (not just_stopped && ts.limit_probed)) _ _
                (same-IsFair w a ts s none)
                (if_of (IsFair w.now a ts) (report_ends_task ts.last_report_state) _ _
                  (same-IsFair w a ts s none) (sighted-IsFair w.sighting s))))))

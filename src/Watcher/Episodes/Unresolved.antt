-- ===== src/Watcher/Episodes/Unresolved.antt =====
-- A resume that was submitted, or whose outcome nobody knows: it is never sent again by itself, and
-- the operator is told once that the mechanism has run out of answers.
use secondhand.Base.{
  ℕ, suc, ◌+◌, String, ◌≡◌, ◌∙◌, ap, refl, Bool, true, false, not, List, [], ◌∷◌, none, some, arith,
  if◌then◌else◌, Bool-cases, inl, inr, nat_beq, ltb, leb, answers, length, string_eq, if_of,
}
use secondhand.Base.Int.{int_equal}
use secondhand.Store.Types.{Task, Attempt}
use secondhand.Store.Tables.{Tables, fine, autocommit, hold_id_of}
use secondhand.Store.History.{read_task_history, list_attempts}
use secondhand.Store.Table.{get}
use secondhand.Store.Holds.{is_free_for, set_hold_if_not_other_kind}
use secondhand.Steering.Request.{Answers, lock_held}
use secondhand.Watcher.State.{TaskState, Event, kind_usage_limit_stuck}
use secondhand.Watcher.Limit.{limit_stuck_after, report_ends_task}
use secondhand.Watcher.Episodes.{
  Step, continue_usage_limit, blocked_usage_limit, classify_usage_limit, clear_usage_limit,
  observe_blocked_usage_limit, is_running_again, observed, stuck, stuck_mark, advanced,
  normalize_pending_resume, limit_event,
}
use secondhand.Watcher.LimitHolds.{
  Tick, is_failed, clear_limit_hold_for_attempt, clear_limit_hold_for_owned,
  write_limit_hold_for_attempt, write_limit_hold_for_owned, write_limit_hold, owns_attempt,
  limit_hold,
}

if_same :
    {A : Type 0} (b : Bool) (x x' y y' : A)
    → x ≡ x'
    → y ≡ y'
    → (if b then x else y) ≡ (if b then x' else y')
if_same true x x' y y' e f = e
if_same false x x' y y' e f = f

-- Where the test holds, the other branch does not matter.
if_met :
    {A : Type 0} (b : Bool) (x y y' : A) → b ≡ true → (if b then x else y) ≡ (if b then x else y')
if_met b x y y' h = ground arith

-- The same tick, with other answers of herdr to a send, on another database that is read early.
abbrev pub answered_by : Answers → Tables → Tick → Tick
answered_by ans early w = record w { steering = ans; early = early }

module _ (w : Tick) (ans : Answers) (early : Tables) (t : Task) (a : Attempt) (ts : TaskState) where
  continue_usage_limit-blocked :
      (status : String) (s : Tables)
      → ts.limit_resume_blocked ≡ true
      → continue_usage_limit (answered_by ans early w) t a status ts s
        ≡ continue_usage_limit w t a status ts s
  unfolding continue_usage_limit clear_usage_limit clear_limit_hold_for_attempt
      clear_limit_hold_for_owned observe_blocked_usage_limit write_limit_hold_for_attempt
      write_limit_hold_for_owned write_limit_hold observed stuck
  continue_usage_limit-blocked status s h = if_same (is_running_again status) _ _ _ _ refl (
      if_same (report_ends_task ts.last_report_state) _ _ _ _ refl
        (if_met ts.limit_resume_blocked _ _ _ h))

  -- While a resume is unresolved, what a tick does cannot depend on how herdr would answer a send,
  -- nor on the database that a send reads first: no send is made. So a limit never gets the message
  -- twice on the strength of an outcome that nobody knows.
  pub classify_usage_limit-blocked :
      (supported : Bool) (status : String) (probe_failed just_stopped : Bool) (s : Tables)
      → ts.limit_resume_blocked ≡ true
      → classify_usage_limit
          (answered_by ans early w)
          t
          a
          supported
          status
          probe_failed
          just_stopped
          ts
          s
        ≡ classify_usage_limit w t a supported status probe_failed just_stopped ts s
  unfolding classify_usage_limit blocked_usage_limit clear_usage_limit clear_limit_hold_for_attempt
      clear_limit_hold_for_owned observe_blocked_usage_limit write_limit_hold_for_attempt
      write_limit_hold_for_owned write_limit_hold observed stuck normalize_pending_resume
  classify_usage_limit-blocked supported status probe_failed just_stopped s h =
      if_same probe_failed _ _ _ _ refl (
        if_same (not supported) _ _ _ _ refl (
          if_same (not (nat_beq ts.limit_retry_at 0)) _ _ _ _
            (continue_usage_limit-blocked status s h) (if_met ts.limit_resume_blocked _ _ _ h)))

-- The task's lock is free and the engine works.
abbrev pub IsReady : Tick → Type 0
IsReady w = (w.task_lock ≡ lock_held) × (w.engine.exec ≡ fine)

abbrev pub AllReady : List Tick → Type 0
AllReady [] = Unit
AllReady (w ∷ ws) = IsReady w × AllReady ws

module _ (t : Task) (a : Attempt) where
  projecting-owned :
      (w : Tick) (ts : TaskState) (s : Tables)
      → w.engine.exec ≡ fine
      → owns_attempt t a s ≡ true
      → (is_failed (write_limit_hold w t.id ts s).0 ≡ false)
        × (owns_attempt t a (write_limit_hold w t.id ts s).1 ≡ true)
  unfolding write_limit_hold set_hold_if_not_other_kind autocommit owns_attempt read_task_history
      list_attempts
  projecting-owned w ts s works owned =
      elim (Bool-cases (is_free_for (limit_hold w t.id ts) (get hold_id_of t.id s.holds))) [
        | inl free ↦ rw (works, free) (refl, owned)
        | inr taken ↦ rw (works, taken) (refl, owned)
      ]

  projecting :
      (w : Tick) (ts : TaskState) (s : Tables)
      → IsReady w
      → owns_attempt t a s ≡ true
      → (is_failed (write_limit_hold_for_attempt w w.task_lock t a ts s).0 ≡ false)
        × (owns_attempt t a (write_limit_hold_for_attempt w w.task_lock t a ts s).1 ≡ true)
  unfolding write_limit_hold_for_attempt write_limit_hold_for_owned write_limit_hold
  projecting w ts s ready owned = rw (ready.0, owned) (projecting-owned w ts s ready.1 owned)

  -- A tick at which the resume is still unresolved and the worker still stopped.
  abbrev pub observation : Tick → TaskState × Tables → Step
  observation w (ts, s) = observe_blocked_usage_limit w w.task_lock t a true ts s

  observation_lem :
      (w : Tick) (ts : TaskState) (s : Tables)
      → IsReady w
      → owns_attempt t a s ≡ true
      → (s' : Tables) × (observation w (ts, s) ≡ stuck w t.id (advanced true ts) s')
        × (owns_attempt t a s' ≡ true)
  unfolding observe_blocked_usage_limit observed
  observation_lem w ts s ready owned =
      let (worked, still) = projecting w ts s ready owned in
      ((write_limit_hold_for_attempt w w.task_lock t a ts s).1, rw worked refl, still)

  stuck-early :
      (w : Tick) (ts : TaskState) (s : Tables)
      → ltb ts.limit_attempts limit_stuck_after ≡ true
      → stuck w t.id ts s ≡ ((ts, s), none)
  unfolding stuck
  stuck-early w ts s h = ground arith

  int_equal-stuck_mark : (n : ℕ) → int_equal (stuck_mark n) (stuck_mark n) ≡ true
  int_equal-stuck_mark n = ground arith

  -- What an observation leaves of an episode that has been announced.
  stuck-announced :
      (w : Tick) (ts : TaskState) (s : Tables)
      → int_equal ts.limit_stuck_episode (stuck_mark ts.limit_episode) ≡ true
      → stuck w t.id ts s ≡ ((ts, s), none)
  unfolding stuck
  stuck-announced w ts s h = ground arith

  stuck-late :
      (w : Tick) (ts : TaskState) (s : Tables)
      → ltb ts.limit_attempts limit_stuck_after ≡ false
      → int_equal ts.limit_stuck_episode (stuck_mark ts.limit_episode) ≡ false
      → stuck w t.id ts s ≡ (
        (record ts { limit_stuck_episode = stuck_mark ts.limit_episode }, s),
        some (limit_event w kind_usage_limit_stuck t.id ts),
      )
  unfolding stuck
  stuck-late w ts s h k = ground arith

  -- Whether the episode of a state has been announced.
  abbrev is_announced : TaskState → Bool
  is_announced ts = int_equal ts.limit_stuck_episode (stuck_mark ts.limit_episode)

  is_announced-advanced : (ts : TaskState) → is_announced (advanced true ts) ≡ is_announced ts
  is_announced-advanced ts =
      if_of (λ ts'. is_announced ts' ≡ is_announced ts) (ltb ts.limit_attempts limit_stuck_after) _
        _ refl refl

  announced-silent :
      (ws : List Tick) (ts : TaskState) (s : Tables)
      → AllReady ws
      → owns_attempt t a s ≡ true
      → is_announced ts ≡ true
      → answers observation ws (ts, s) ≡ []
  announced-silent [] ts s ready owned said = refl
  announced-silent (w ∷ ws) ts s ready owned said =
      let (s', same, still) = observation_lem w ts s ready.0 owned in
      let again : is_announced (advanced true ts) ≡ true = is_announced-advanced ts ∙ said in
      rw (same, stuck-announced w (advanced true ts) s' again)
        (announced-silent ws (advanced true ts) s' ready.1 still again)

  -- How many announcements the observations of an episode make.
  abbrev pub stuck_by : ℕ → List Tick → ℕ
  stuck_by attempts [] = 0
  stuck_by attempts (w ∷ ws) = if leb limit_stuck_after (attempts + 1 + length ws) then 1 else 0

  abbrev bumped : ℕ → ℕ
  bumped n = if ltb n limit_stuck_after then n + 1 else n

  attempts-advanced :
      (ts : TaskState) → (advanced true ts).limit_attempts ≡ bumped ts.limit_attempts
  attempts-advanced ts = ground arith

  stuck_by-early :
      (n : ℕ) (w : Tick) (ws : List Tick)
      → ltb (bumped n) limit_stuck_after ≡ true
      → stuck_by (bumped n) ws ≡ stuck_by n (w ∷ ws)
  stuck_by-early n w [] h = ground arith
  stuck_by-early n w (v ∷ ws) h = ground arith

  stuck_by-late :
      (n : ℕ) (w : Tick) (ws : List Tick)
      → ltb (bumped n) limit_stuck_after ≡ false
      → 1 ≡ stuck_by n (w ∷ ws)
  stuck_by-late n w ws h = ground arith

  -- While a resume stays unresolved and the worker stopped, the task's lock is free, the engine works
  -- and the attempt is the current one, the operator is told that the episode is stuck exactly once,
  -- at the observation that makes six attempts, or at the first if there were six before; and so
  -- after at most six observations, if the episode was not announced before.
  pub observe_blocked-once :
      (ws : List Tick) (ts : TaskState) (s : Tables)
      → AllReady ws
      → owns_attempt t a s ≡ true
      → is_announced ts ≡ false
      → length (answers observation ws (ts, s)) ≡ stuck_by ts.limit_attempts ws
  observe_blocked-once [] ts s ready owned fresh = refl
  observe_blocked-once (w ∷ ws) ts s ready owned fresh =
      let (s', same, still) = observation_lem w ts s ready.0 owned in
      let unsaid : is_announced (advanced true ts) ≡ false = is_announced-advanced ts ∙ fresh in
      let k : (advanced true ts).limit_attempts ≡ bumped ts.limit_attempts = attempts-advanced ts in
      elim (Bool-cases (ltb (advanced true ts).limit_attempts limit_stuck_after)) [
        | inl early ↦
            rw (same, stuck-early w (advanced true ts) s' early)
              (observe_blocked-once ws (advanced true ts) s' ready.1 still unsaid
                ∙ rw k (stuck_by-early ts.limit_attempts w ws (rw k at early)))
        | inr late ↦
            let silent =
              announced-silent ws
                (record (advanced true ts) {
                  limit_stuck_episode = stuck_mark (advanced true ts).limit_episode;
                })
                s' ready.1 still (int_equal-stuck_mark (advanced true ts).limit_episode) in
            rw (same, stuck-late w (advanced true ts) s' late unsaid)
              (ap (λ (es : List Event). suc (length es)) silent
                ∙ stuck_by-late ts.limit_attempts w ws (rw k at late))
      ]

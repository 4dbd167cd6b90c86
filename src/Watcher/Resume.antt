-- ===== src/Watcher/Resume.antt =====
-- How a watcher takes up a task that it sees for the first time (`restoreLimitResumeState` and its
-- part of `tick` of internal/watcher/watcher.go). A read of the store does not fail.
use secondhand.Base.{
  String, ◌≡◌, refl, Bool, true, false, not, [], ◌∷◌, Option, none, some, arith, if◌then◌else◌,
  ◌==◌, nat_beq, string_eq,
}
use secondhand.Store.Types.{Task, Attempt, SendAttempt, is_send, pending, usage_limit_resume}
use secondhand.Store.Tables.{Tables}
use secondhand.Store.Sends.{latest_send, send_retry_safe}
use secondhand.Steering.Request.{Answers}
use secondhand.Watcher.State.{TaskState}
use secondhand.Watcher.Episodes.{classify_usage_limit, normalize_pending_resume}
use secondhand.Watcher.LimitHolds.{Tick}
use secondhand.Watcher.Episodes.Unresolved.{answered_by, classify_usage_limit-blocked}
use secondhand.Watcher.Restart.{Codec, status_unknown, resume_task_state}

unfoldable pub resume_send_belongs_to_active_episode : SendAttempt → Attempt → Bool
resume_send_belongs_to_active_episode x a =
    if a.usage_limit_retry_at == ""
    then false
    else if nat_beq a.usage_limit_episode 0
    then nat_beq x.usage_limit_episode 0
    else nat_beq x.usage_limit_episode a.usage_limit_episode

-- The schedule of a worker whose resume is unresolved.
abbrev pub blocked_resume : TaskState → TaskState
blocked_resume ts = record ts { limit_resume_blocked = true; limit_retry_at = 0 }

-- What the latest resume that was sent leaves to do.
unfoldable pub restored :
    Tick → Attempt → Option SendAttempt → TaskState → Tables → TaskState × Tables
restored w a none ts s = (ts, s)
restored w a (some x) ts s =
    if not (resume_send_belongs_to_active_episode x a)
    then (ts, s)
    else if send_retry_safe x
    then (ts, s)
    else if is_send x.state pending
    then (blocked_resume ts, normalize_pending_resume w a s)
    else (blocked_resume ts, s)

unfoldable pub restore_limit_resume_state : Tick → Attempt → TaskState → Tables → TaskState × Tables
restore_limit_resume_state w a ts s =
    restored w a (latest_send a.task_id a.id (usage_limit_resume ∷ []) s) ts s

-- The first sighting of a task; `none` is the probe's error.
abbrev pub first_status : Option String → String
first_status none = status_unknown
first_status (some status) = status

abbrev pub has_answered : Option String → Bool
has_answered none = false
has_answered (some status) = true

unfoldable pub first_sighting :
    Codec → Tick → Bool → Task → Attempt → Option String → Tables → TaskState × Tables
first_sighting c w observe_only t a probe s =
    let ts = resume_task_state c t a (first_status probe) w.now in
    let (ts', s') = if observe_only then (ts, s) else restore_limit_resume_state w a ts s in
    (record ts' { probed = has_answered probe }, s')

restored-blocked :
    (w : Tick) (a : Attempt) (x : SendAttempt) (ts : TaskState) (s : Tables)
    → resume_send_belongs_to_active_episode x a ≡ true
    → send_retry_safe x ≡ false
    → (restored w a (some x) ts s).0 ≡ blocked_resume ts
unfolding restored
restored-blocked w a x ts s belongs unsafe = ground arith

-- Where the latest resume that was sent to the attempt is of its running episode and is not known to
-- have been refused before its text was taken, a watcher that sees the task for the first time, and is
-- not a mere observer, sends no message in its next tick: what the tick does depends neither on how
-- herdr would answer a message nor on the database that a message reads first, whatever the database
-- that the tick finds.
pub first_sighting-blocked :
    (c : Codec) (w later : Tick) (ans : Answers) (early : Tables) (t : Task) (a : Attempt)
    (x : SendAttempt) (probe : Option String) (supported : Bool) (status : String)
    (probe_failed just_stopped : Bool) (s found : Tables)
    → latest_send a.task_id a.id (usage_limit_resume ∷ []) s ≡ some x
    → resume_send_belongs_to_active_episode x a ≡ true
    → send_retry_safe x ≡ false
    → classify_usage_limit
        (answered_by ans early later)
        t
        a
        supported
        status
        probe_failed
        just_stopped
        (first_sighting c w false t a probe s).0
        found
      ≡ classify_usage_limit later t a supported status probe_failed just_stopped
          (first_sighting c w false t a probe s).0
          found
unfolding first_sighting restore_limit_resume_state
first_sighting-blocked c w later ans early t a x probe supported status probe_failed just_stopped s
      found sent belongs unsafe =
    classify_usage_limit-blocked later ans early t a _ supported status probe_failed just_stopped
      found
      (rw sent (
        rw
          (restored-blocked w a x (resume_task_state c t a (first_status probe) w.now) s belongs
            unsafe)
          refl))

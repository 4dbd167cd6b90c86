-- ===== src/Tests/Takeovers.antt =====
-- A watcher that finds an unresolved resume, and one that records a pull request
-- (internal/watcher/watcher.go).
use secondhand.Base.{
  ◌≡◌, refl, String, true, false, [], ◌∷◌, some, ok, if◌then◌else◌, ◌==◌, string_eq,
}
use secondhand.Store.Types.{Attempt, SendAttempt, uncertain, usage_limit_resume}
use secondhand.Store.Table.{get, modify}
use secondhand.Store.Tables.{Tables, autocommit, update_task}
use secondhand.Store.Facts.{task_fact, set_task_pr}
use secondhand.Store.History.{read_task}
use secondhand.Store.Sends.{new_send, finalized, latest_send, latest, send_retry_safe}
use secondhand.Steering.Request.{lock_held}
use secondhand.Watcher.Episodes.{classify_usage_limit}
use secondhand.Watcher.Episodes.Unresolved.{answered_by}
use secondhand.Watcher.Resume.{
  first_sighting, first_sighting-blocked, resume_send_belongs_to_active_episode,
}
use secondhand.Watcher.Recording.{record_auto_pr, record_unless_there, record_auto_pr_lem}
use secondhand.Tests.Fleet.{works, running_attempt, owning_task}
use secondhand.Tests.Deliveries.{fleet}
use secondhand.Tests.Messages.{willing}
use secondhand.Tests.Watching.{tick}
use secondhand.Tests.Restarts.{codec}

-- The attempt that stopped on a limit, and the message that was sent to it.
abbrev limited_attempt : Attempt
limited_attempt = record running_attempt { usage_limit_retry_at = "11:00" }

abbrev resume : SendAttempt
resume =
    finalized uncertain "enter-outcome-ambiguous" "10:01"
      (record (new_send "fix-typo" 1 usage_limit_resume "continue" "10:00" 0) { id = 1 })

abbrev resumed_fleet : Tables
resumed_fleet = record fleet { sends = resume ∷ []; send_seq = 1 }

resume-latest : latest_send "fix-typo" 1 (usage_limit_resume ∷ []) resumed_fleet ≡ some resume
unfolding latest_send latest
resume-latest = refl

resume-belongs : resume_send_belongs_to_active_episode resume limited_attempt ≡ true
unfolding resume_send_belongs_to_active_episode
resume-belongs = refl

resume-unsafe : send_retry_safe resume ≡ false
unfolding send_retry_safe
resume-unsafe = refl

first_sighting-blocked_example :
    classify_usage_limit
      (answered_by willing fleet tick)
      owning_task
      limited_attempt
      true
      "idle"
      false
      true
      (first_sighting codec tick false owning_task limited_attempt (some "idle") resumed_fleet).0
      resumed_fleet
    ≡ classify_usage_limit tick owning_task limited_attempt true "idle" false true
        (first_sighting codec tick false owning_task limited_attempt (some "idle") resumed_fleet).0
        resumed_fleet
first_sighting-blocked_example =
    first_sighting-blocked codec tick tick willing fleet owning_task limited_attempt resume
      (some "idle") true "idle" false true resumed_fleet resumed_fleet resume-latest resume-belongs
      resume-unsafe

abbrev url : String
url = "https://github.com/atqamz/secondhand/pull/12"

task_there : read_task "fix-typo" fleet ≡ some owning_task
unfolding read_task get
task_there = refl

recorded : (record_auto_pr works lock_held "fix-typo" url fleet).0 ≡ ok tt
unfolding record_auto_pr record_unless_there set_task_pr task_fact autocommit update_task read_task
    get modify
recorded = refl

record_auto_pr_lem_example :
    read_task "fix-typo" (record_auto_pr works lock_held "fix-typo" url fleet).1
    ≡ some (record owning_task { pr = if owning_task.pr == "" then url else owning_task.pr })
record_auto_pr_lem_example =
    record_auto_pr_lem works lock_held "fix-typo" url fleet owning_task task_there refl recorded

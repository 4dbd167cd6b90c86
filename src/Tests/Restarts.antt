-- ===== src/Tests/Restarts.antt =====
-- A watcher that restarts (internal/watcher/watcher.go), with texts that count in marks.
use secondhand.Base.{
  ℕ, ◌≡◌, refl, ap, String, [], ◌∷◌, Option, none, some, ok, Bytes, codes, if◌then◌else◌, nat_beq,
  code, ◌*◌,
}
use Prim.Native.Nat.{◌/◌, zero, suc}
use secondhand.Age.{second, minute}
use secondhand.Report.Line.{report_done}
use secondhand.Store.Types.{Task, Attempt, running}
use secondhand.Store.Table.{get, modify}
use secondhand.Store.Tables.{autocommit, update_task, update_attempt}
use secondhand.Store.Facts.{set_task_report_state, task_fact, update_attempt_observation}
use secondhand.Store.History.{read_attempt, read_task}
use secondhand.Watcher.State.{TaskState, new_task_state}
use secondhand.Watcher.Restart.{Codec, observation_of, resume_task_state}
use secondhand.Watcher.Restart.Memory.{
  IsCodec, Remembers, report_written, resume_task_state-observed,
}
use secondhand.Tests.Fleet.{works, running_attempt, owning_task}
use secondhand.Tests.Deliveries.{fleet}

pub marks : ℕ → String → String
marks zero s = s
marks (suc n) s = String.◌∷◌ "i" (marks n s)

mark_count : String → ℕ
mark_count String.[] = 0
mark_count (String.◌∷◌ c s) = suc (mark_count s)

pub parse : String → Option ℕ
parse String.[] = none
parse (String.◌∷◌ c s) =
    if nat_beq (code c) b'n' then some (mark_count s) else some (mark_count s * second)

abbrev bump : Bytes → Bytes
bump [] = []
bump (b ∷ bs) = suc b ∷ bs

pub text_of : Bytes → String
text_of [] = ""
text_of (b ∷ bs) = marks b (String.◌∷◌ "." (text_of bs))

pub bytes_of : String → Bytes
bytes_of String.[] = []
bytes_of (String.◌∷◌ c s) =
    let rest = bytes_of s in if nat_beq (code c) b'.' then 0 ∷ rest else bump rest

mark_count-marks : (n : ℕ) → mark_count (marks n "") ≡ n
unfolding mark_count marks
mark_count-marks zero = refl
mark_count-marks (suc n) = ap suc (mark_count-marks n)

bytes_of-marks : (n : ℕ) (s : String) → bytes_of (marks n (String.◌∷◌ "." s)) ≡ n ∷ bytes_of s
unfolding bytes_of marks
bytes_of-marks zero s = refl
bytes_of-marks (suc n) s = ap bump (bytes_of-marks n s)

bytes_of-text_of : (b : Bytes) → bytes_of (text_of b) ≡ b
unfolding text_of bytes_of
bytes_of-text_of [] = refl
bytes_of-text_of (b ∷ bs) =
    rw (bytes_of-marks b (text_of bs)) (ap (λ (r : Bytes). b ∷ r) (bytes_of-text_of bs))

abbrev pub codec : Codec
codec = record {
  parse = parse;
  rfc3339 = λ n. String.◌∷◌ "s" (marks (n / second) "");
  rfc3339_nano = λ n. String.◌∷◌ "n" (marks n "");
  text_of = text_of;
  bytes_of = bytes_of;
}

codec-IsCodec : IsCodec codec
unfolding parse
codec-IsCodec = record {
  parse-empty = refl;
  parse-rfc3339_nano = λ n. ap some (mark_count-marks n);
  parse-rfc3339 = λ n. ap (λ (k : ℕ). some (k * second)) (mark_count-marks (n / second));
  bytes_of-text_of = bytes_of-text_of;
}

abbrev watched : TaskState
watched = record (new_task_state "idle" minute) {
  last_report_state = report_done;
  last_report_note = codes "tests pass";
}

task_there : read_task "fix-typo" fleet ≡ some owning_task
unfolding read_task get
task_there = refl

attempt_there : read_attempt 1 fleet ≡ some running_attempt
unfolding read_attempt get
attempt_there = refl

reported : (report_written codec works watched "fix-typo" fleet).0 ≡ ok tt
unfolding set_task_report_state task_fact autocommit update_task get
reported = refl

stored :
    (update_attempt_observation works "fix-typo" 1 running
      (observation_of codec watched)
      (report_written codec works watched "fix-typo" fleet).1).0
    ≡ ok tt
unfolding update_attempt_observation set_task_report_state task_fact autocommit update_task
    update_attempt get modify
stored = refl

resume_task_state-observed_example :
    (u : Task) × (b : Attempt) × (read_task "fix-typo"
        (update_attempt_observation works "fix-typo" 1 running
          (observation_of codec watched)
          (report_written codec works watched "fix-typo" fleet).1).1
      ≡ some u)
    × (read_attempt 1
          (update_attempt_observation works "fix-typo" 1 running
            (observation_of codec watched)
            (report_written codec works watched "fix-typo" fleet).1).1
        ≡ some b)
    × Remembers running_attempt owning_task watched (resume_task_state codec u b "idle" 0)
resume_task_state-observed_example =
    resume_task_state-observed codec codec-IsCodec works works 1 running watched fleet owning_task
      running_attempt 0 0 task_there attempt_there refl reported stored

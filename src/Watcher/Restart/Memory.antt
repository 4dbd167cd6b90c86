-- ===== src/Watcher/Restart/Memory.antt =====
-- What a restarted watcher remembers of the one before it: what that one wrote back to the task's and
-- the attempt's rows.
use Prim.Native.Nat.{◌/◌}
use secondhand.Base.{
  ℕ, ◌*◌, String, ◌≡◌, refl, ap₂, false, ◌||◌, Bytes, none, some, arith, if◌then◌else◌, ◌==◌,
  nat_eq, string_eq, eq_iff, Bool-cases, inl, inr, Result, ok, nat_beq_iff, ◌∙◌,
}
use secondhand.Base.Int.{ℤ, pos}
use secondhand.Age.{second}
use secondhand.Report.Cursor.{ReportCursor}
use secondhand.Store.Types.{Task, Attempt, AttemptLifecycle}
use secondhand.Store.Facts.{
  fact_done, update_attempt_observation, attempt_fact, set_task_report_state, task_fact,
}
use secondhand.Store.Table.{get, get-modify, changed}
use secondhand.Store.Tables.{
  Tables, Engine, StoreError, autocommit, update_attempt, update_task, attempt_id_of, task_id_of,
}
use secondhand.Store.History.{read_attempt, read_task}
use secondhand.Watcher.State.{TaskState}
use secondhand.Watcher.Restart.{
  Codec, stored_offset, parsed_or, limit_retry_stamp, parked_fired_stamp, status_change_seed,
  resume_task_state, observation_of,
}

-- What Go's `time` and the store's texts do: no instant is read off the empty text, nanoseconds come
-- back as they were, seconds come back cut down, and a report's bytes come back as they were.
pub record IsCodec (c : Codec) : Type 0 where
  pub parse-empty : c.parse "" ≡ none
  pub parse-rfc3339_nano : (n : ℕ) → c.parse (c.rfc3339_nano n) ≡ some n
  pub parse-rfc3339 : (n : ℕ) → c.parse (c.rfc3339 n) ≡ some (n / second * second)
  pub bytes_of-text_of : (b : Bytes) → c.bytes_of (c.text_of b) ≡ b

-- The rows that `UpdateAttemptObservation` and `SetTaskReportState` leave.
abbrev pub observed_row : Codec → TaskState → Attempt → Attempt
observed_row c ts a = record a {
  status_changed_at = c.rfc3339_nano ts.changed_at;
  status_changed_for = ts.status;
  done_verified = a.done_verified || ts.done_verified;
  last_report_state = c.text_of ts.last_report_state;
  last_report_note = c.text_of ts.last_report_note;
  parked_fired_for = parked_fired_stamp c ts.parked_fired_for;
  usage_limit_retry_at = limit_retry_stamp c ts.limit_retry_at;
  usage_limit_attempts = ts.limit_attempts;
  usage_limit_episode = ts.limit_episode;
  usage_limit_stuck_episode = ts.limit_stuck_episode;
}

abbrev pub reported_row : Codec → TaskState → Task → Task
reported_row c ts t = record t {
  report_offset = stored_offset ts.report_cursor.offset;
  report_digest = c.text_of ts.report_cursor.digest;
  merge_announced = t.merge_announced || ts.pr_merged;
}

-- Where `UpdateAttemptObservation` stores what a tracked state says, that is the attempt's row.
pub update_attempt_observation-observed_row :
    (c : Codec) (e : Engine) (k : String) (i : ℕ) (l : AttemptLifecycle) (ts : TaskState)
    (s : Tables) (a : Attempt)
    → read_attempt i s ≡ some a
    → (update_attempt_observation e k i l (observation_of c ts) s).0 ≡ ok tt
    → read_attempt i (update_attempt_observation e k i l (observation_of c ts) s).1
      ≡ some (observed_row c ts a)
unfolding update_attempt_observation attempt_fact autocommit update_attempt read_attempt
update_attempt_observation-observed_row c e k i l ts s a there stored =
    fact_done e.exec _ s _ _
      (λ (t : Tables). get attempt_id_of i t.attempts ≡ some (observed_row c ts a))
      (get-modify attempt_id_of i i (observed_row c ts) s.attempts (λ r. refl) ∙ found) stored
  where
    found :
        (if i == i
          then changed (observed_row c ts) (get attempt_id_of i s.attempts)
          else get attempt_id_of i s.attempts)
        ≡ some (observed_row c ts a)
    found = rw ((nat_beq_iff i i).1 refl, there) refl

update_attempt_observation-read_task :
    (c : Codec) (e : Engine) (k : String) (i : ℕ) (l : AttemptLifecycle) (ts : TaskState)
    (s : Tables) (u : Task)
    → read_task k s ≡ some u
    → (update_attempt_observation e k i l (observation_of c ts) s).0 ≡ ok tt
    → read_task k (update_attempt_observation e k i l (observation_of c ts) s).1 ≡ some u
unfolding update_attempt_observation attempt_fact autocommit update_attempt read_task
update_attempt_observation-read_task c e k i l ts s u there stored =
    fact_done e.exec _ s _ _ (λ (t : Tables). get task_id_of k t.tasks ≡ some u) there stored

-- `SetTaskReportState` with what a tracked state says.
abbrev pub report_written :
    Codec → Engine → TaskState → String → Tables → Result StoreError Unit × Tables
report_written c e ts k s =
    set_task_report_state e k (stored_offset ts.report_cursor.offset)
      (c.text_of ts.report_cursor.digest) ts.pr_merged s

report_written-rows :
    (c : Codec) (e : Engine) (i : ℕ) (ts : TaskState) (s : Tables) (t : Task) (a : Attempt)
    → read_task t.id s ≡ some t
    → read_attempt i s ≡ some a
    → (report_written c e ts t.id s).0 ≡ ok tt
    → (read_task t.id (report_written c e ts t.id s).1 ≡ some (reported_row c ts t))
      × (read_attempt i (report_written c e ts t.id s).1 ≡ some a)
unfolding set_task_report_state task_fact autocommit update_task read_task read_attempt
report_written-rows c e i ts s t a there there_a stored =
    fact_done e.exec _ s _ _
      (λ (r : Tables).
        (get task_id_of t.id r.tasks ≡ some (reported_row c ts t))
        × (get attempt_id_of i r.attempts ≡ some a))
      (
        get-modify task_id_of t.id t.id (reported_row c ts) s.tasks (λ r. refl)
            ∙ rw ((eq_iff t.id t.id).1 refl, there) refl,
        there_a,
      )
      stored

-- The second watcher starts where the first one stopped.
pub record Remembers (a : Attempt) (t : Task) (ts later : TaskState) : Type 0 where
  pub cursor : later.report_cursor ≡ ts.report_cursor
  pub changed_at : later.changed_at ≡ ts.changed_at
  pub reported : later.last_report_state ≡ ts.last_report_state
  pub noted : later.last_report_note ≡ ts.last_report_note
  pub parked : later.parked_fired_for ≡ ts.parked_fired_for
  pub done : later.done_verified ≡ (a.done_verified || ts.done_verified)
  pub merged : later.pr_merged ≡ (t.merge_announced || ts.pr_merged)
  pub retry_at : later.limit_retry_at ≡ ts.limit_retry_at / second * second
  pub attempts : later.limit_attempts ≡ ts.limit_attempts
  pub episode : later.limit_episode ≡ ts.limit_episode
  pub stuck : later.limit_stuck_episode ≡ ts.limit_stuck_episode

module _ (c : Codec) (laws : IsCodec c) where
  not_empty : (n : ℕ) → (c.rfc3339_nano n == "") ≡ false
  not_empty n = elim (Bool-cases (c.rfc3339_nano n == "")) [
    | inr there ↦ there
    | inl empty ↦
        ground (
          arith,
          (eq_iff (c.rfc3339_nano n) "").0 empty,
          laws.parse-empty,
          laws.parse-rfc3339_nano n,
        )
  ]

  parked-back : (n : ℕ) → parsed_or (c.parse (parked_fired_stamp c n)) 0 ≡ n
  parked-back n = ground (arith, laws.parse-empty, laws.parse-rfc3339_nano n)

  retry-back : (n : ℕ) → parsed_or (c.parse (limit_retry_stamp c n)) 0 ≡ n / second * second
  retry-back n = ground (arith, laws.parse-empty, laws.parse-rfc3339 n)

  changed-back :
      (t : Task) (a : Attempt) (ts : TaskState) (now : ℕ)
      → status_change_seed c t (observed_row c ts a) ts.status now ≡ ts.changed_at
  unfolding status_change_seed
  changed-back t a ts now =
      rw
        (
          not_empty ts.changed_at,
          (eq_iff ts.status ts.status).1 refl,
          laws.parse-rfc3339_nano ts.changed_at,
        )
        refl

  cursor-back :
      (r : ReportCursor) (n : ℕ)
      → r.offset ≡ pos n
      → ◌≡◌ {A = ReportCursor}
          (record {
            offset = pos (stored_offset r.offset);
            digest = c.bytes_of (c.text_of r.digest);
          })
          r
  cursor-back r n at =
      ap₂ (λ (o : ℤ) (d : Bytes). record { offset = o; digest = d }) (rw at refl)
        (laws.bytes_of-text_of r.digest)

  resume_task_state-Remembers :
      (t : Task) (a : Attempt) (ts : TaskState) (now offset : ℕ)
      → ts.report_cursor.offset ≡ pos offset
      → Remembers a t ts
          (resume_task_state c (reported_row c ts t) (observed_row c ts a) ts.status now)
  unfolding resume_task_state
  resume_task_state-Remembers t a ts now offset at = record {
    cursor = cursor-back ts.report_cursor offset at;
    changed_at = changed-back (reported_row c ts t) a ts now;
    reported = laws.bytes_of-text_of ts.last_report_state;
    noted = laws.bytes_of-text_of ts.last_report_note;
    parked = parked-back ts.parked_fired_for;
    done = refl;
    merged = refl;
    retry_at = retry-back ts.limit_retry_at;
    attempts = refl;
    episode = refl;
    stuck = refl;
  }

-- With Go's formatting of instants: where a watcher writes what it tracks of a task and its attempt,
-- first by `SetTaskReportState` and then by `UpdateAttemptObservation`, and both succeed, then the rows
-- that are read back let a watcher that starts from them, and from the status that the first saw last,
-- go on from the same report cursor, dwell, last report, parked instant and usage-limit schedule, its
-- instant cut to the second; and it takes completion and merge as announced exactly where the first or
-- the rows before did. The offset of a report is not negative.
pub resume_task_state-observed :
    (c : Codec) (laws : IsCodec c) (d e : Engine) (i : ℕ) (l : AttemptLifecycle) (ts : TaskState)
    (s : Tables) (t : Task) (a : Attempt) (now offset : ℕ)
    → read_task t.id s ≡ some t
    → read_attempt i s ≡ some a
    → ts.report_cursor.offset ≡ pos offset
    → (report_written c d ts t.id s).0 ≡ ok tt
    → (update_attempt_observation e t.id i l
        (observation_of c ts)
        (report_written c d ts t.id s).1).0
      ≡ ok tt
    → (u : Task) × (b : Attempt) × (read_task t.id
          (update_attempt_observation e t.id i l
            (observation_of c ts)
            (report_written c d ts t.id s).1).1
        ≡ some u)
      × (read_attempt i
            (update_attempt_observation e t.id i l
              (observation_of c ts)
              (report_written c d ts t.id s).1).1
          ≡ some b)
      × Remembers a t ts (resume_task_state c u b ts.status now)
resume_task_state-observed c laws d e i l ts s t a now offset there there_a at reported stored =
    let (row, row_a) = report_written-rows c d i ts s t a there there_a reported in
    (
      reported_row c ts t,
      observed_row c ts a,
      update_attempt_observation-read_task c e t.id i l ts (report_written c d ts t.id s).1
          (reported_row c ts t) row stored,
      update_attempt_observation-observed_row c e t.id i l ts (report_written c d ts t.id s).1 a
          row_a stored,
      resume_task_state-Remembers c laws t a ts now offset at,
    )

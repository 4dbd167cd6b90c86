-- ===== src/Watcher/Recording.antt =====
-- Recording a pull request that a worker reported (`autoRecordPR`, `recordAutoPR` and
-- `recordedByLockHolder` of internal/watcher/watcher.go). What the project registry and `ValidatePR`
-- answer is an argument, `Admission`.
use secondhand.Base.{
  String, ◌≡◌, ◌∙◌, refl, Bool-cases, inl, inr, false, not, Option, none, some, arith,
  if◌then◌else◌, ◌==◌, string_eq, eq_iff, Result, ok, err,
}
use secondhand.Store.Types.{Task}
use secondhand.Store.Table.{get, get-modify}
use secondhand.Store.Tables.{Tables, Engine, StoreError, autocommit, update_task, task_id_of}
use secondhand.Store.Facts.{fact_done, task_fact, set_task_pr}
use secondhand.Store.History.{read_task}
use secondhand.Steering.Request.{LockAnswer, lock_held, lock_taken, lock_broken, by_lock}

pub data Admission : Type 0 where
  project_unreadable project_not_registered url_refused admitted : Admission

-- `lock_contended` is `errLockContended`.
pub data RecordError : Type 0 where
  not_admitted : Admission → RecordError
  lock_contended lock_failed task_unreadable : RecordError
  write_failed : StoreError → RecordError

abbrev pub recorded_by_lock_holder : String → Option Task → Result RecordError Unit
recorded_by_lock_holder url none = err lock_contended
recorded_by_lock_holder url (some t) = if t.pr == url then ok tt else err lock_contended

abbrev pub written : Result StoreError Unit × Tables → Result RecordError Unit × Tables
written (err e, s) = (err (write_failed e), s)
written (ok u, s) = (ok u, s)

-- Under the task lock.
unfoldable pub record_unless_there :
    Engine → String → String → Option Task → Tables → Result RecordError Unit × Tables
record_unless_there e id url none s = (err task_unreadable, s)
record_unless_there e id url (some t) s =
    if not (t.pr == "") then (ok tt, s) else written (set_task_pr e id url s)

unfoldable pub record_auto_pr :
    Engine → LockAnswer → String → String → Tables → Result RecordError Unit × Tables
record_auto_pr e l id url s =
    by_lock l (record_unless_there e id url (read_task id s) s)
      (recorded_by_lock_holder url (read_task id s), s) (err lock_failed, s)

unfoldable pub auto_record_pr :
    Engine → LockAnswer → Admission → String → String → Tables → Result RecordError Unit × Tables
auto_record_pr e l admitted id url s = record_auto_pr e l id url s
auto_record_pr e l a id url s = (err (not_admitted a), s)

set_task_pr-row :
    (e : Engine) (id url : String) (s : Tables) (t : Task)
    → read_task id s ≡ some t
    → (set_task_pr e id url s).0 ≡ ok tt
    → read_task id (set_task_pr e id url s).1 ≡ some (record t { pr = url })
unfolding set_task_pr task_fact autocommit update_task read_task
set_task_pr-row e id url s t there done =
    fact_done e.exec _ s _ _
      (λ (r : Tables). get task_id_of id r.tasks ≡ some (record t { pr = url }))
      (get-modify task_id_of id id (λ (r : Task). record r { pr = url }) s.tasks (λ r. refl)
        ∙ rw ((eq_iff id id).1 refl, there) refl)
      done

written-ok : (r : Result StoreError Unit × Tables) → (written r).0 ≡ ok tt → r.0 ≡ ok tt
written-ok (err e, s) h = cc
written-ok (ok u, s) h = refl

written-tables : (r : Result StoreError Unit × Tables) → (written r).1 ≡ r.1
written-tables (err e, s) = refl
written-tables (ok u, s) = refl

abbrev with_url : String → Task → Task
with_url url t = record t { pr = if t.pr == "" then url else t.pr }

record_unless_there-row :
    (e : Engine) (id url : String) (s : Tables) (t : Task)
    → read_task id s ≡ some t
    → (record_unless_there e id url (some t) s).0 ≡ ok tt
    → read_task id (record_unless_there e id url (some t) s).1 ≡ some (with_url url t)
unfolding record_unless_there
record_unless_there-row e id url s t there done = elim (Bool-cases (t.pr == "")) [
  | inl empty ↦
      rw (empty, written-tables (set_task_pr e id url s))
        (set_task_pr-row e id url s t there
          (written-ok (set_task_pr e id url s) (rw empty at done)))
  | inr full ↦ rw full there
]

held_url :
    (url : String) (t : Task)
    → (url == "") ≡ false
    → recorded_by_lock_holder url (some t) ≡ ok tt
    → (t.pr == "") ≡ false
held_url url t named done = elim (Bool-cases (t.pr == url)) [
  | inl same ↦ rw ((eq_iff t.pr url).0 same) named
  | inr other ↦ ground arith
]

-- Where recording a URL that is not empty succeeds on a task that is there, whoever holds the task's
-- lock, the task's row then has a pull request: the one that it had, or the URL if it had none; and
-- nothing else of the row has changed. So a recorded pull request is never overwritten.
pub record_auto_pr_lem :
    (e : Engine) (l : LockAnswer) (id url : String) (s : Tables) (t : Task)
    → read_task id s ≡ some t
    → (url == "") ≡ false
    → (record_auto_pr e l id url s).0 ≡ ok tt
    → read_task id (record_auto_pr e l id url s).1
      ≡ some (record t { pr = if t.pr == "" then url else t.pr })
unfolding record_auto_pr record_unless_there
record_auto_pr_lem e lock_broken id url s t there named done = cc
record_auto_pr_lem e lock_taken id url s t there named done =
    rw (held_url url t named (rw there at done)) there
record_auto_pr_lem e lock_held id url s t there named done =
    rw there (record_unless_there-row e id url s t there (rw there at done))

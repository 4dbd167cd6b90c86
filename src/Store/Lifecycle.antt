-- ===== src/Store/Lifecycle.antt =====
-- The operations of internal/store/store.go that move tasks and attempts through their lifecycles.
-- `later` is the state that a method reads after a refused single statement, when other writers may
-- have changed it; it decides only which error is returned.
use secondhand.Base.{
  ℕ, String, Bool, true, false, not, ◌&&◌, ◌||◌, Option, none, some, if◌then◌else◌, any, ◌==◌,
  nat_eq, string_eq, Result, ok, err,
}
use secondhand.Store.Types.{
  Task, Attempt, TaskLifecycle, AttemptLifecycle, is_task, is_attempt, open_, terminal,
  provisioning, running, completed, is_active_attempt, valid_attempt_transition,
  valid_task_transition,
}
use secondhand.Store.Table.{get, keep}
use secondhand.Store.Tables.{
  Tables, task_id_of, attempt_id_of, send_id_of, StoreError, invalid_transition, lifecycle_conflict,
  ownership_conflict, task_not_found, constraint_failed, Engine, Tx, ◌>>=◌, ◌>>◌, pure, raise,
  require, transact, autocommit, select_task, meets, update_task, update_attempt, is_active_id,
  is_null, insert_attempt, insert_task, on_constraint,
}

abbrev pub kind_ship : String
kind_ship = "ship"

abbrev pub kind_scout : String
kind_scout = "scout"

abbrev pub is_open : Task → Bool
is_open t = is_task t.lifecycle open_

-- The tests and changes of the `UPDATE task` statements below.
abbrev pub open_and_idle : Task → Bool
open_and_idle t = is_open t && is_null t.active_attempt_id

abbrev pub open_and_idle_or : ℕ → Task → Bool
open_and_idle_or i t =
    is_open t && (is_null t.active_attempt_id || is_active_id i t.active_attempt_id)

abbrev pub open_and_owner : ℕ → Task → Bool
open_and_owner i t = is_open t && is_active_id i t.active_attempt_id

abbrev pub with_active : Option ℕ → Task → Task
with_active o t = record t { active_attempt_id = o }

abbrev pub with_lifecycle : AttemptLifecycle → Attempt → Attempt
with_lifecycle l a = record a { lifecycle = l }

abbrev pub in_lifecycle : String → AttemptLifecycle → Attempt → Bool
in_lifecycle k l a = a.task_id == k && is_attempt a.lifecycle l

-- `CreateTaskWithAttempt`, behind its check of the arguments.
pub create_body : Task → Attempt → Tx Attempt
create_body t a = do
  on_constraint lifecycle_conflict (insert_task (record t { active_attempt_id = none }))
  created ← insert_attempt (record a { ordinal = 0 })
  accepted ← update_task t.id open_and_idle (with_active (some created.id))
  require accepted lifecycle_conflict
  pure created

abbrev pub opened : Task → Task
opened t = if is_task t.lifecycle TaskLifecycle.unset then record t { lifecycle = open_ } else t

abbrev pub addressed : Task → Attempt → Attempt
addressed t a = if a.task_id == "" then record a { task_id = t.id } else a

unfoldable pub create_task_with_attempt :
    Engine → Task → Attempt → Tables → Result StoreError Attempt × Tables
unfolding create_body
create_task_with_attempt e t a s =
    let b = addressed t a in
    if not (b.task_id == t.id) || not (is_attempt b.lifecycle provisioning)
    then (err invalid_transition, s)
    else transact e (create_body (opened t) b) s

-- `createAttempt`
pub take_active : Attempt → Tx Attempt
take_active created = do
  accepted ←
      update_task created.task_id (open_and_idle_or created.id) (with_active (some created.id))
  require accepted lifecycle_conflict
  pure created

pub create_attempt_for : Bool → Attempt → Option Task → Tx Attempt
unfolding take_active
create_attempt_for require_inactive a none = raise task_not_found
create_attempt_for require_inactive a (some t) = do
  require (is_open t) invalid_transition
  require
      (not (require_inactive && is_active_attempt a.lifecycle && not (is_null t.active_attempt_id)))
      lifecycle_conflict
  created ← on_constraint lifecycle_conflict (insert_attempt a)
  if is_active_attempt a.lifecycle then take_active created else pure created

abbrev pub started : Attempt → Attempt
started a =
    if is_attempt a.lifecycle AttemptLifecycle.unset
    then record a { lifecycle = provisioning }
    else a

unfoldable pub create_attempt_with :
    Engine → Attempt → Bool → Tables → Result StoreError Attempt × Tables
unfolding create_attempt_for
create_attempt_with e a require_inactive s =
    let b = started a in
    transact e (do t ← select_task b.task_id; create_attempt_for require_inactive b t) s

unfoldable pub create_attempt : Engine → Attempt → Tables → Result StoreError Attempt × Tables
unfolding create_attempt_with
create_attempt e a s = create_attempt_with e a false s

unfoldable pub create_attempt_if_open_and_inactive :
    Engine → Attempt → Tables → Result StoreError Attempt × Tables
unfolding create_attempt_with
create_attempt_if_open_and_inactive e a s =
    if not (is_attempt a.lifecycle AttemptLifecycle.unset)
      && not (is_attempt a.lifecycle provisioning)
    then (err invalid_transition, s)
    else create_attempt_with e (record a { ordinal = 0 }) true s

-- `TransitionAttempt`
pub release_or_take : String → ℕ → AttemptLifecycle → Tx (Unit {0})
release_or_take k i to =
    if is_active_attempt to
    then (do
      n ← update_task k (open_and_idle_or i) (with_active (some i))
      require n ownership_conflict)
    else (do n ← update_task k (open_and_owner i) (with_active none); require n ownership_conflict)

pub transition_found : ℕ → AttemptLifecycle → AttemptLifecycle → Option Attempt → Tx (Unit {0})
unfolding release_or_take
transition_found i from to none = raise task_not_found
transition_found i from to (some a) = do
  require (is_attempt a.lifecycle from) lifecycle_conflict
  require (not (is_attempt to running && a.launch_confirmed_at == "")) invalid_transition
  n ← update_attempt i (in_lifecycle a.task_id from) (with_lifecycle to)
  require n lifecycle_conflict
  release_or_take a.task_id i to

unfoldable pub transition_attempt :
    Engine → ℕ → AttemptLifecycle → AttemptLifecycle → Tables → Result StoreError Unit × Tables
unfolding transition_found
transition_attempt e i from to s =
    if not (valid_attempt_transition from to)
    then (err invalid_transition, s)
    else transact e (λ t. transition_found i from to (get attempt_id_of i t.attempts) t) s

-- What a single statement answers, with the error where it changed no row.
abbrev pub answered : StoreError → Result StoreError Bool × Tables → Result StoreError Unit × Tables
answered x (ok true, s) = (ok tt, s)
answered x (ok false, s) = (err x, s)
answered x (err y, s) = (err y, s)

-- `SetActiveAttempt`
pub set_active_conflict : String → Option Attempt → StoreError
set_active_conflict k none = invalid_transition
set_active_conflict k (some a) =
    if not (a.task_id == k) || not (is_active_attempt a.lifecycle)
    then invalid_transition
    else lifecycle_conflict

unfoldable pub set_active_attempt :
    Engine → String → ℕ → Tables → Tables → Result StoreError Unit × Tables
unfolding set_active_conflict
set_active_attempt e k i later s =
    answered (set_active_conflict k (get attempt_id_of i later.attempts)) (
      autocommit e
        (update_task k
          (λ t.
            open_and_idle t
            && meets (λ a. a.task_id == k && is_active_attempt a.lifecycle)
                (get attempt_id_of i s.attempts))
          (with_active (some i)))
        s)

-- `TransitionTask`
pub missing_or : StoreError → Option Task → StoreError
missing_or x none = task_not_found
missing_or x (some t) = x

abbrev pub moved : TaskLifecycle → Task → Task
moved to t = record t {
  lifecycle = to;
  active_attempt_id = if is_task to terminal then none else t.active_attempt_id;
}

unfoldable pub transition_task :
    Engine
    → String
    → TaskLifecycle
    → TaskLifecycle
    → Tables
    → Tables
    → Result StoreError Unit × Tables
unfolding missing_or
transition_task e k from to later s =
    if not (valid_task_transition from to)
    then (err invalid_transition, s)
    else answered (missing_or lifecycle_conflict (get task_id_of k later.tasks)) (
        autocommit e
          (update_task k (λ t. is_task t.lifecycle from && is_null t.active_attempt_id) (moved to))
          s)

-- `ReopenTask`
abbrev pub reopened : ℕ → Task → Task
reopened i t = record t { lifecycle = open_; active_attempt_id = some i }

pub reopen_found : Attempt → Option Task → Tx Attempt
reopen_found a none = raise task_not_found
reopen_found a (some t) = do
  require (is_task t.lifecycle terminal) lifecycle_conflict
  created ← on_constraint lifecycle_conflict (insert_attempt a)
  n ← update_task a.task_id (λ r. is_task r.lifecycle terminal) (reopened created.id)
  require n lifecycle_conflict
  pure created

unfoldable pub reopen_task : Engine → String → Attempt → Tables → Result StoreError Attempt × Tables
unfolding reopen_found
reopen_task e k a s =
    if not (is_attempt a.lifecycle provisioning)
    then (err invalid_transition, s)
    else transact e
        (do t ← select_task k; reopen_found (record a { task_id = k; id = 0; ordinal = 0 }) t) s

-- `PromoteTask`
abbrev pub scouted_by : ℕ → Task → Bool
scouted_by i t = is_open t && t.kind == kind_scout && is_active_id i t.active_attempt_id

abbrev pub shipped : ℕ → Task → Task
shipped i t = record t {
  kind = kind_ship;
  delivered_at = "";
  delivered_reason = "";
  active_attempt_id = some i;
}

pub promote_found : ℕ → AttemptLifecycle → Attempt → Option Task → Tx Attempt
promote_found i from ship none = raise task_not_found
promote_found i from ship (some t) = do
  require (scouted_by i t) lifecycle_conflict
  n ← update_attempt i (in_lifecycle ship.task_id from) (with_lifecycle completed)
  require n lifecycle_conflict
  created ← on_constraint lifecycle_conflict (insert_attempt ship)
  m ← update_task ship.task_id (scouted_by i) (shipped created.id)
  require m lifecycle_conflict
  pure created

unfoldable pub promote_task :
    Engine → String → ℕ → AttemptLifecycle → Attempt → Tables → Result StoreError Attempt × Tables
unfolding promote_found
promote_task e k i from ship s =
    if not (valid_attempt_transition from completed)
    then (err invalid_transition, s)
    else if not (is_attempt ship.lifecycle provisioning)
    then (err invalid_transition, s)
    else transact e
        (do
          t ← select_task k
          promote_found i from (record ship { task_id = k; id = 0; ordinal = 0 }) t)
        s

-- `TerminalizeTaskAndAttempt`
abbrev pub ended : Task → Task
ended t = record t { lifecycle = terminal; active_attempt_id = none }

pub terminalize_body : String → ℕ → AttemptLifecycle → AttemptLifecycle → Tx (Unit {0})
terminalize_body k i from to = do
  n ← update_attempt i (in_lifecycle k from) (with_lifecycle to)
  require n lifecycle_conflict
  m ← update_task k (open_and_owner i) ended
  require m lifecycle_conflict

unfoldable pub terminalize_task_and_attempt :
    Engine
    → String
    → ℕ
    → AttemptLifecycle
    → AttemptLifecycle
    → Tables
    → Result StoreError Unit × Tables
unfolding terminalize_body
terminalize_task_and_attempt e k i from to s =
    if not (valid_attempt_transition from to) || is_active_attempt to
    then (err invalid_transition, s)
    else transact e (terminalize_body k i from to) s

-- `DeleteTask`. The attempts and sends go with their task (ON DELETE CASCADE); a task that is left
-- and names a deleted attempt as its active one fails the foreign key.
pub left_dangling : String → Tables → Bool
left_dangling k s =
    any
      (λ t.
        not (t.id == k)
        && meets (λ i. meets (λ a. a.task_id == k) (get attempt_id_of i s.attempts))
            t.active_attempt_id)
      s.tasks

pub delete_rows : String → Tx Bool
unfolding left_dangling
delete_rows k s =
    if meets (λ t. true) (get task_id_of k s.tasks)
    then (if left_dangling k s
        then err constraint_failed
        else ok (
          true,
          record s {
            tasks = keep task_id_of (λ t. not (t.id == k)) s.tasks;
            attempts = keep attempt_id_of (λ a. not (a.task_id == k)) s.attempts;
            sends = keep send_id_of (λ x. not (x.task_id == k)) s.sends;
          },
        ))
    else ok (false, s)

unfoldable pub delete_task : Engine → String → Tables → Result StoreError Unit × Tables
unfolding delete_rows
delete_task e k s = answered task_not_found (autocommit e (delete_rows k) s)

-- ===== src/Store/Tables.antt =====
-- The database of internal/store/store.go as a value, and the statements and transactions by which
-- its methods work on it.
use secondhand.Base.{
  ℕ, ◌+◌, max, String, Bool, true, false, not, ◌&&◌, ◌||◌, List, [], ◌∷◌, ◌++◌, Option, none, some,
  if◌then◌else◌, any, ◌==◌, nat_beq, nat_eq, string_eq, Result, ok, err,
}
use secondhand.Store.Types.{
  Task, Attempt, SendAttempt, Hold, Project, TaskLifecycle, AttemptLifecycle, is_task, is_attempt,
  open_, is_active_attempt, provisioning,
}
use secondhand.Store.Table.{get, modify}

-- The tables, each in the order of insertion, and the counters of AUTOINCREMENT.
pub record Tables : Type 0 where
  pub tasks : List Task
  pub attempts : List Attempt
  pub sends : List SendAttempt
  pub holds : List Hold
  pub projects : List Project
  pub attempt_seq : ℕ
  pub send_seq : ℕ

abbrev pub empty_tables : Tables
empty_tables = record {
  tasks = [];
  attempts = [];
  sends = [];
  holds = [];
  projects = [];
  attempt_seq = 0;
  send_seq = 0;
}

abbrev pub task_id_of : Task → String
task_id_of t = t.id

abbrev pub attempt_id_of : Attempt → ℕ
attempt_id_of a = a.id

abbrev pub send_id_of : SendAttempt → ℕ
send_id_of x = x.id

abbrev pub hold_id_of : Hold → String
hold_id_of h = h.id

abbrev pub project_name_of : Project → String
project_name_of p = p.name

-- The errors that a caller can tell apart, and the engine's own.
pub data StoreError : Type 0 where
  invalid_transition lifecycle_conflict ownership_conflict send_ownership_conflict : StoreError
  send_in_flight invalid_send_transition contention task_not_found hold_not_found : StoreError
  project_exists invalid_send_origin constraint_failed engine_failed : StoreError

-- How the engine answers where it can fail for reasons of its own.
pub data Outcome : Type 0 where
  fine busy broken : Outcome

pub record Engine : Type 0 where
  pub begin : Outcome
  pub exec : Outcome
  pub commit : Outcome

-- A statement, or statements of one transaction.
abbrev pub Tx : Type 0 → Type 0
Tx A = Tables → Result StoreError (A × Tables)

infixl 5 ◌>>=◌ ◌>>◌
abbrev pub ◌>>=◌ : {A B : Type 0} → Tx A → (A → Tx B) → Tx B
◌>>=◌ m f s = elim (m s) [ ok (a, s') ↦ f a s' | err x ↦ err x ]

abbrev pub ◌>>◌ : {B : Type 0} → Tx (Unit {0}) → Tx B → Tx B
m >> k = m >>= λ _. k

abbrev pub pure : {A : Type 0} → A → Tx A
pure a s = ok (a, s)

abbrev pub raise : {A : Type 0} → StoreError → Tx A
raise x s = err x

abbrev pub require : Bool → StoreError → Tx (Unit {0})
require true x s = ok (tt, s)
require false x s = err x

-- `BEGIN IMMEDIATE`, the body, `COMMIT`; every other way out runs the deferred `Rollback`.
abbrev pub commit_as :
    {A : Type 0} → Outcome → Tables → Result StoreError (A × Tables) → Result StoreError A × Tables
commit_as o s (err x) = (err x, s)
commit_as fine s (ok (a, s')) = (ok a, s')
commit_as _ s (ok (a, s')) = (err engine_failed, s)

abbrev pub begin_as :
    {A : Type 0} → Outcome → Outcome → Tx A → Tables → Result StoreError A × Tables
begin_as fine o body s = commit_as o s (body s)
begin_as busy o body s = (err contention, s)
begin_as broken o body s = (err engine_failed, s)

-- `beginLifecycleTx` and what its callers do around the body.
unfoldable pub transact : {A : Type 0} → Engine → Tx A → Tables → Result StoreError A × Tables
transact e body s = begin_as e.begin e.commit body s

-- A single statement outside a transaction.
unfoldable pub autocommit : {A : Type 0} → Engine → Tx A → Tables → Result StoreError A × Tables
autocommit e body s = commit_as e.exec s (body s)

-- `SELECT … FROM task WHERE id = ?`
abbrev pub select_task : String → Tx (Option Task)
select_task k s = ok (get task_id_of k s.tasks, s)

-- `SELECT … FROM attempt WHERE id = ? AND task_id = ?`
abbrev pub owned_by : String → Option Attempt → Option Attempt
owned_by k none = none
owned_by k (some a) = if a.task_id == k then some a else none

abbrev pub meets {ℓ} : {R : Type ℓ} → (R → Bool) → Option R → Bool
meets p none = false
meets p (some r) = p r

-- `UPDATE task SET … WHERE id = ? AND …`; the answer is whether `RowsAffected` is 1.
unfoldable pub update_task : String → (Task → Bool) → (Task → Task) → Tx Bool
update_task k p f s =
    if meets p (get task_id_of k s.tasks)
    then ok (true, record s { tasks = modify task_id_of k f s.tasks })
    else ok (false, s)

unfoldable pub update_attempt : ℕ → (Attempt → Bool) → (Attempt → Attempt) → Tx Bool
update_attempt i p f s =
    if meets p (get attempt_id_of i s.attempts)
    then ok (true, record s { attempts = modify attempt_id_of i f s.attempts })
    else ok (false, s)

-- SQL's `active_attempt_id = ?`, which a NULL does not meet.
abbrev pub is_active_id : ℕ → Option ℕ → Bool
is_active_id i none = false
is_active_id i (some j) = nat_beq j i

abbrev pub is_null : Option ℕ → Bool
is_null none = true
is_null (some i) = false

-- `EXISTS (SELECT 1 FROM task WHERE id = ? AND lifecycle = 'open' AND active_attempt_id = ?)`
abbrev pub owns : String → ℕ → Tables → Bool
owns k i s =
    meets (λ t. is_task t.lifecycle open_ && is_active_id i t.active_attempt_id)
      (get task_id_of k s.tasks)

-- `activeAttemptExistsTx`, and the test of the index `attempt_one_active`.
abbrev pub has_active : String → List Attempt → Bool
has_active k = any (λ a. a.task_id == k && is_active_attempt a.lifecycle)

-- `COALESCE(MAX(ordinal), 0)` over the attempts of a task.
unfoldable pub max_ordinal : String → List Attempt → ℕ
max_ordinal k [] = 0
max_ordinal k (a ∷ rows) =
    let rest = max_ordinal k rows in if a.task_id == k then max a.ordinal rest else rest

abbrev has_ordinal : String → ℕ → List Attempt → Bool
has_ordinal k n = any (λ a. a.task_id == k && nat_beq a.ordinal n)

abbrev pub is_some {ℓ} : {R : Type ℓ} → Option R → Bool
is_some none = false
is_some (some r) = true

-- The constraints of the table `attempt` on a new row: its CHECK, its foreign key, its primary key,
-- UNIQUE (task_id, ordinal), and the index `attempt_one_active`.
unfoldable pub attempt_fits : Attempt → Tables → Bool
attempt_fits a s =
    not (is_attempt a.lifecycle AttemptLifecycle.unset)
    && is_some (get task_id_of a.task_id s.tasks)
    && not (is_some (get attempt_id_of a.id s.attempts))
    && not (has_ordinal a.task_id a.ordinal s.attempts)
    && not (is_active_attempt a.lifecycle && has_active a.task_id s.attempts)

abbrev defaulted : Attempt → Attempt
defaulted a =
    if is_attempt a.lifecycle AttemptLifecycle.unset
    then record a { lifecycle = provisioning }
    else a

abbrev numbered : Tables → Attempt → Attempt
numbered s a =
    if nat_beq a.ordinal 0 then record a { ordinal = max_ordinal a.task_id s.attempts + 1 } else a

-- AUTOINCREMENT gives an id above every id that the table ever had.
abbrev identified : Tables → Attempt → Attempt
identified s a = if nat_beq a.id 0 then record a { id = s.attempt_seq + 1 } else a

unfoldable pub prepared : Attempt → Tables → Attempt
prepared a s = identified s (numbered s (defaulted a))

-- `insertAttemptTx`
unfoldable pub insert_attempt : Attempt → Tx Attempt
insert_attempt a s =
    let b = prepared a s in
    if attempt_fits b s
    then ok
        (b, record s { attempts = s.attempts ++ (b ∷ []); attempt_seq = max s.attempt_seq b.id })
    else err constraint_failed

-- The constraints of the table `task` on a new row.
unfoldable pub task_fits : Task → Tables → Bool
task_fits t s =
    not (is_task t.lifecycle TaskLifecycle.unset)
    && not (is_some (get task_id_of t.id s.tasks))
    && (is_null t.active_attempt_id
        || meets (λ i. is_some (get attempt_id_of i s.attempts)) t.active_attempt_id)

unfoldable pub insert_task : Task → Tx (Unit {0})
unfolding task_fits
insert_task t s =
    if task_fits t s
    then ok (tt, record s { tasks = s.tasks ++ (t ∷ []) })
    else err constraint_failed

-- The error that a caller makes of `isSQLiteConstraint`.
abbrev pub constraint_as : StoreError → StoreError → StoreError
constraint_as y constraint_failed = y
constraint_as y x = x

abbrev pub on_constraint : {A : Type 0} → StoreError → Tx A → Tx A
on_constraint y m s = elim (m s) [ ok r ↦ ok r | err x ↦ err (constraint_as y x) ]

-- ===== src/Store/History.antt =====
-- The readers of internal/store/store.go: `ReadTask`, `TaskExists`, `ReadAttempt`,
-- `ReadActiveAttempt`, `ListAttempts`, `ReadSend` and `ReadTaskHistory`, on a database that the engine
-- reads without failing.
use secondhand.Base.{
  ℕ, String, ◌≡◌, ◌∙◌, refl, Bool, true, List, [], ◌∷◌, Option, none, some, arith, if◌then◌else◌,
  leb, ◌==◌, nat_beq_iff, nat_eq, string_eq, Result, ok, err,
}
use secondhand.Store.Types.{Task, Attempt, SendAttempt, is_active_attempt}
use secondhand.Store.Table.{get, keep, get-keep, IsKeyed, IsKeyed-keep}
use secondhand.Store.Tables.{Tables, task_id_of, attempt_id_of, send_id_of, is_some, is_null}
use secondhand.Store.Ownership.Step.{attempt_view}
use secondhand.Store.Ownership.Invariant.{backs}
use secondhand.Store.Refinement.Rows.{IsConsistent}

unfoldable pub read_task : String → Tables → Option Task
read_task k s = get task_id_of k s.tasks

unfoldable pub task_exists : String → Tables → Bool
task_exists k s = is_some (get task_id_of k s.tasks)

unfoldable pub read_attempt : ℕ → Tables → Option Attempt
read_attempt i s = get attempt_id_of i s.attempts

unfoldable pub read_send : ℕ → Tables → Option SendAttempt
read_send n s = get send_id_of n s.sends

-- The subquery's NULL is no id.
pub owned_row : Option Task → Tables → Option Attempt
owned_row none s = none
owned_row (some t) s = elim t.active_attempt_id [
  | none ↦ none
  | some i ↦ get attempt_id_of i s.attempts
]

unfoldable pub read_active_attempt : String → Tables → Option Attempt
unfolding owned_row
read_active_attempt k s = owned_row (get task_id_of k s.tasks) s

-- `ORDER BY ordinal`
unfoldable pub insert_by_ordinal : Attempt → List Attempt → List Attempt
insert_by_ordinal a [] = a ∷ []
insert_by_ordinal a (b ∷ rows) =
    let rest = insert_by_ordinal a rows in
    if leb a.ordinal b.ordinal then a ∷ b ∷ rows else b ∷ rest

unfoldable pub by_ordinal : List Attempt → List Attempt
by_ordinal [] = []
by_ordinal (a ∷ rows) = insert_by_ordinal a (by_ordinal rows)

unfoldable pub list_attempts : String → Tables → List Attempt
list_attempts k s = by_ordinal (keep attempt_id_of (λ a. a.task_id == k) s.attempts)

pub record TaskHistory : Type 0 where
  pub task : Task
  pub active_attempt : Option Attempt
  pub attempts : List Attempt
  pub sends : List SendAttempt

pub data HistoryError : Type 0 where
  active_attempt_not_found : HistoryError

-- `ActiveAttemptID`, whose 0 is no attempt.
abbrev pub active_number : Task → ℕ
active_number t = elim t.active_attempt_id [ none ↦ 0 | some i ↦ i ]

-- The loop is the first row that has the id.
unfoldable pub history_of : Task → List Attempt → Result HistoryError (Option TaskHistory)
history_of t attempts =
    let active = get attempt_id_of (active_number t) attempts in
    if is_null t.active_attempt_id
    then ok (some (record { task = t; active_attempt = active; attempts = attempts; sends = [] }))
    else if is_some active
    then ok (some (record { task = t; active_attempt = active; attempts = attempts; sends = [] }))
    else err active_attempt_not_found

unfoldable pub history_found : Option Task → List Attempt → Result HistoryError (Option TaskHistory)
unfolding history_of
history_found none attempts = ok none
history_found (some t) attempts = history_of t attempts

unfoldable pub read_task_history : String → Tables → Result HistoryError (Option TaskHistory)
unfolding history_found
read_task_history k s = history_found (get task_id_of k s.tasks) (list_attempts k s)

get-insert_by_ordinal :
    (i : ℕ) (a : Attempt) (rows : List Attempt)
    → get attempt_id_of a.id rows ≡ none
    → get attempt_id_of i (insert_by_ordinal a rows)
      ≡ (if a.id == i then some a else get attempt_id_of i rows)
unfolding get insert_by_ordinal
get-insert_by_ordinal i a [] new = refl
get-insert_by_ordinal i a (b ∷ rows) new = ground (
  arith,
  get-insert_by_ordinal i a rows,
  nat_beq_iff a.id i,
  nat_beq_iff b.id i,
  nat_beq_iff b.id a.id,
)

-- Sorting keeps what an id finds.
get-by_ordinal :
    (i : ℕ) (rows : List Attempt)
    → IsKeyed attempt_id_of rows
    → get attempt_id_of i (by_ordinal rows) ≡ get attempt_id_of i rows
unfolding get by_ordinal
get-by_ordinal i [] h = refl
get-by_ordinal i (a ∷ rows) h =
    get-insert_by_ordinal i a (by_ordinal rows) (get-by_ordinal a.id rows h.1 ∙ h.0)
    ∙ rw (get-by_ordinal i rows h.1) refl

backed_row :
    (k : String) (o : Option Attempt)
    → backs k (attempt_view o) ≡ true
    → (a : Attempt) × (o ≡ some a)
      × ((a.task_id == k) ≡ true)
      × (is_active_attempt a.lifecycle ≡ true)
backed_row k none h = absurd (ground arith)
backed_row k (some a) h = (a, refl, ground arith, ground arith)

listed :
    (s : Tables) (k : String) (i : ℕ) (a : Attempt)
    → IsConsistent s
    → get attempt_id_of i s.attempts ≡ some a
    → (a.task_id == k) ≡ true
    → get attempt_id_of i (list_attempts k s) ≡ some a
unfolding list_attempts
listed s k i a c found own =
    get-by_ordinal i _
      (IsKeyed-keep attempt_id_of (λ b. b.task_id == k) s.attempts c.attempts_keyed)
    ∙ get-keep attempt_id_of i (λ b. b.task_id == k) s.attempts c.attempts_keyed
    ∙ rw found (rw own refl)

-- On a database in order, for a task that names an active attempt, `ReadTaskHistory` never fails and
-- `ReadActiveAttempt` finds the same row: the attempt that the task names, provisioning or running.
pub read_task_history-read_active_attempt :
    (s : Tables) (k : String) (t : Task) (i : ℕ)
    → IsConsistent s
    → read_task k s ≡ some t
    → t.active_attempt_id ≡ some i
    → (a : Attempt) × (read_attempt i s ≡ some a)
      × (is_active_attempt a.lifecycle ≡ true)
      × (read_active_attempt k s ≡ some a)
      × (read_task_history k s
          ≡ ok (
              some (record {
                task = t;
                active_attempt = some a;
                attempts = list_attempts k s;
                sends = [];
              })))
unfolding read_task read_attempt read_active_attempt read_task_history
read_task_history-read_active_attempt s k t i c there names =
    let (a, found, own, live) =
      backed_row k (get attempt_id_of i s.attempts)
        (c.owned.backed k i t.lifecycle (rw there (rw names))) in
    (
      a,
      found,
      live,
      rw there (rw names found),
      rw there (rw names (rw (listed s k i a c found own) refl)),
    )

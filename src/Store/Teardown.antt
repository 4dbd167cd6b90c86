-- ===== src/Store/Teardown.antt =====
-- The methods of internal/store/store.go that record how far an attempt's teardown has come:
-- `SetAttemptTeardownDecision`, `SetAttemptTeardownResourceState` and
-- `SetAttemptTeardownCompletionState`. `later` is the state that a refused statement's diagnosis
-- reads.
use secondhand.Base.{
  ℕ, String, Bool, true, false, not, ◌&&◌, ◌||◌, Option, none, some, if◌then◌else◌, ◌==◌, nat_eq,
  string_eq, Result, ok, err,
}
use secondhand.Store.Types.{
  Attempt, AttemptLifecycle, is_attempt, completed, interrupted, is_active_attempt,
}
use secondhand.Store.Table.{get}
use secondhand.Store.Tables.{
  Tables, attempt_id_of, StoreError, invalid_transition, lifecycle_conflict, ownership_conflict,
  Engine, autocommit, update_attempt, owns, owned_by,
}
use secondhand.Store.Lifecycle.{in_lifecycle}

abbrev pub resource_releasing : String
resource_releasing = "releasing"

abbrev pub resource_released : String
resource_released = "released"

abbrev pub resource_ambiguous : String
resource_ambiguous = "ambiguous"

abbrev pub resource_retryable : String
resource_retryable = "retryable"

abbrev pub resource_abandoned : String
resource_abandoned = "abandoned"

abbrev pub completion_pending : String
completion_pending = "pending"

abbrev pub completion_appended : String
completion_appended = "appended"

-- Where the statement changed no row, the row that a second read finds decides: a row that already
-- stands as asked is a success.
abbrev pub settled_or :
    Result StoreError Unit → Result StoreError Bool × Tables → Result StoreError Unit × Tables
settled_or r (ok true, s) = (ok tt, s)
settled_or r (ok false, s) = (r, s)
settled_or r (err y, s) = (err y, s)

pub already : (Attempt → Bool) → Option Attempt → Result StoreError Unit
already p none = err ownership_conflict
already p (some a) = if p a then ok tt else err lifecycle_conflict

abbrev pub decided : AttemptLifecycle → String → Attempt → Attempt
decided l disposition a = record a {
  teardown_terminal_attempt = l;
  teardown_disposition = disposition;
}

unfoldable pub set_attempt_teardown_decision :
    Engine
    → String
    → ℕ
    → AttemptLifecycle
    → String
    → Tables
    → Tables
    → Result StoreError Unit × Tables
unfolding already
set_attempt_teardown_decision e k i to disposition later s =
    if not (is_attempt to completed) && not (is_attempt to interrupted)
    then (err invalid_transition, s)
    else settled_or
        (already
          (λ a. is_attempt a.teardown_terminal_attempt to && a.teardown_disposition == disposition)
          (owned_by k (get attempt_id_of i later.attempts)))
        (autocommit e
          (update_attempt i
            (λ a.
              a.task_id == k
              && is_active_attempt a.lifecycle
              && is_attempt a.teardown_terminal_attempt AttemptLifecycle.unset
              && owns k i s)
            (decided to disposition))
          s)

-- The two resources, each with the column that records its state.
pub data Resource : Type 0 where
  herdr_pane worktree_lease unknown_resource : Resource

pub resource_named : String → Resource
resource_named r =
    if r == "herdr"
    then herdr_pane
    else if r == "worktree"
    then worktree_lease
    else unknown_resource

abbrev pub resource_state : Resource → Attempt → String
resource_state herdr_pane a = a.teardown_herdr_state
resource_state worktree_lease a = a.teardown_worktree_state
resource_state unknown_resource a = ""

abbrev pub with_resource_state : Resource → String → Attempt → Attempt
with_resource_state herdr_pane x a = record a { teardown_herdr_state = x }
with_resource_state worktree_lease x a = record a { teardown_worktree_state = x }
with_resource_state unknown_resource x a = a

abbrev pub is_resource_state : String → Bool
is_resource_state x =
    x == resource_releasing
    || x == resource_released
    || x == resource_ambiguous
    || x == resource_retryable
    || x == resource_abandoned

-- `column IN (currentAllowed)`
unfoldable pub resource_may_move : String → String → Bool
resource_may_move current next =
    if next == resource_releasing
    then current == "" || current == resource_retryable || current == resource_ambiguous
    else if next == resource_released || next == resource_retryable
    then current == resource_releasing
    else if next == resource_ambiguous
    then current == resource_releasing || current == resource_retryable || current == ""
    else if next == resource_abandoned
    then current == resource_ambiguous || current == resource_retryable || current == ""
    else current == ""

pub set_resource_state :
    Engine
    → String
    → ℕ
    → AttemptLifecycle
    → Resource
    → String
    → Tables
    → Tables
    → Result StoreError Unit × Tables
unfolding already
set_resource_state e k i expected unknown_resource next later s = (err invalid_transition, s)
set_resource_state e k i expected r next later s =
    if not (is_resource_state next)
    then (err invalid_transition, s)
    else settled_or
        (already (λ a. resource_state r a == next)
          (owned_by k (get attempt_id_of i later.attempts)))
        (autocommit e
          (update_attempt i
            (λ a. in_lifecycle k expected a && resource_may_move (resource_state r a) next)
            (with_resource_state r next))
          s)

unfoldable pub set_attempt_teardown_resource_state :
    Engine
    → String
    → ℕ
    → AttemptLifecycle
    → String
    → String
    → Tables
    → Tables
    → Result StoreError Unit × Tables
unfolding set_resource_state resource_named
set_attempt_teardown_resource_state e k i expected resource next later s =
    set_resource_state e k i expected (resource_named resource) next later s

abbrev pub completion_may_move : String → String → Bool
completion_may_move current next =
    if next == completion_appended then current == completion_pending else current == ""

unfoldable pub set_attempt_teardown_completion_state :
    Engine
    → String
    → ℕ
    → AttemptLifecycle
    → String
    → Tables
    → Tables
    → Result StoreError Unit × Tables
unfolding already
set_attempt_teardown_completion_state e k i expected next later s =
    if not (next == completion_pending) && not (next == completion_appended)
    then (err invalid_transition, s)
    else settled_or
        (already (λ a. a.teardown_completion_state == next)
          (owned_by k (get attempt_id_of i later.attempts)))
        (autocommit e
          (update_attempt i
            (λ a. in_lifecycle k expected a && completion_may_move a.teardown_completion_state next)
            (λ a. record a { teardown_completion_state = next }))
          s)

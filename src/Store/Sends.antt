-- ===== src/Store/Sends.antt =====
-- The deliveries of internal/store/store.go, a message sent to the pane of a running attempt:
-- `BeginSend`, `FinalizeSend`, `NormalizePendingSend`, `NormalizePendingSends`, `ImportLegacySend`,
-- and the reads `LatestSend`, `PendingSend`, `SendNeedsAttention` and `SendRetrySafe`.
pub mod Rows
pub mod Keeping
pub mod Answers
pub mod Reading
use secondhand.Base.{
  ℕ, ◌+◌, String, Bool, true, false, not, ◌&&◌, ◌||◌, List, [], ◌∷◌, ◌++◌, Option, none, some,
  if◌then◌else◌, any, ltb, take, length, codes, bytes_equal, ◌==◌, nat_beq, nat_eq, string_eq,
  Result, ok, err,
}
use secondhand.Store.Types.{
  Task, Attempt, SendAttempt, SendState, SendOrigin, Herdr, is_attempt, is_send, running, pending,
  not_submitted, submitted, uncertain, operator, usage_limit_resume, legacy_undelivered, unknown,
}
use secondhand.Store.Table.{get, modify}
use secondhand.Store.Tables.{
  Tables, task_id_of, attempt_id_of, send_id_of, StoreError, send_ownership_conflict,
  send_in_flight, invalid_send_transition, invalid_send_origin, constraint_failed, engine_failed,
  contention, Outcome, fine, busy, broken, Engine, Tx, ◌>>=◌, ◌>>◌, pure, raise, require, transact,
  autocommit, select_task, owned_by, meets, is_some, on_constraint,
}
use secondhand.Store.Lifecycle.{open_and_owner}

-- A body that can answer without committing: its `false` leaves by the deferred `Rollback`.
abbrev pub commit_if :
    {A : Type 0}
    → Outcome
    → Tables
    → Result StoreError ((Bool × A) × Tables)
    → Result StoreError A × Tables
commit_if o s (err x) = (err x, s)
commit_if o s (ok ((false, a), s')) = (ok a, s)
commit_if fine s (ok ((true, a), s')) = (ok a, s')
commit_if _ s (ok ((true, a), s')) = (err engine_failed, s)

abbrev pub begin_if :
    {A : Type 0} → Outcome → Outcome → Tx (Bool × A) → Tables → Result StoreError A × Tables
begin_if fine o body s = commit_if o s (body s)
begin_if busy o body s = (err contention, s)
begin_if broken o body s = (err engine_failed, s)

unfoldable pub transact_if :
    {A : Type 0} → Engine → Tx (Bool × A) → Tables → Result StoreError A × Tables
transact_if e body s = begin_if e.begin e.commit body s

abbrev pub origin_rank : SendOrigin → ℕ
origin_rank operator = 0
origin_rank usage_limit_resume = 1
origin_rank legacy_undelivered = 2
origin_rank unknown = 3

abbrev pub is_origin : SendOrigin → SendOrigin → Bool
is_origin a b = nat_beq (origin_rank a) (origin_rank b)

abbrev pub valid_send_origin : SendOrigin → Bool
valid_send_origin unknown = false
valid_send_origin _ = true

abbrev pub valid_send_terminal_state : SendState → Bool
valid_send_terminal_state x = is_send x not_submitted || is_send x submitted || is_send x uncertain

abbrev pub is_pending : SendAttempt → Bool
is_pending x = is_send x.state pending

abbrev pub has_pending : ℕ → List SendAttempt → Bool
has_pending i = any (λ x. nat_beq x.attempt_id i && is_pending x)

-- The constraints of the table `send_attempt` on a new row: its CHECK, its foreign keys, its primary
-- key, and the index `send_attempt_one_pending`.
unfoldable pub send_fits : SendAttempt → Tables → Bool
send_fits x s =
    valid_send_origin x.origin
    && is_some (get task_id_of x.task_id s.tasks)
    && is_some (get attempt_id_of x.attempt_id s.attempts)
    && not (is_some (get send_id_of x.id s.sends))
    && not (is_pending x && has_pending x.attempt_id s.sends)

abbrev pub numbered_send : SendAttempt → Tables → SendAttempt
numbered_send x s = record x { id = s.send_seq + 1 }

unfoldable pub insert_send : SendAttempt → Tx SendAttempt
insert_send x s =
    let b = numbered_send x s in
    if send_fits b s
    then ok (b, record s { sends = s.sends ++ (b ∷ []); send_seq = b.id })
    else err constraint_failed

abbrev pub same_herdr : Herdr → Herdr → Bool
same_herdr a b =
    a.session == b.session
    && a.workspace_id == b.workspace_id
    && a.tab_id == b.tab_id
    && a.pane_id == b.pane_id

abbrev pub runs_in : Herdr → Attempt → Bool
runs_in h a = is_attempt a.lifecycle running && same_herdr a.herdr h

abbrev pub select_owned : String → ℕ → Tx (Option Attempt)
select_owned k i s = ok (owned_by k (get attempt_id_of i s.attempts), s)

abbrev pub new_send : String → ℕ → SendOrigin → String → String → ℕ → SendAttempt
new_send k i origin message at episode = record {
  id = 0;
  task_id = k;
  attempt_id = i;
  origin = origin;
  message = message;
  state = pending;
  reason_code = "";
  created_at = at;
  finalized_at = "";
  usage_limit_episode = episode;
}

pub begin_send_body : String → ℕ → Herdr → SendAttempt → Tx SendAttempt
begin_send_body k i ownership x = do
  t ← select_task k
  require (meets (open_and_owner i) t) send_ownership_conflict
  a ← select_owned k i
  require (meets (runs_in ownership) a) send_ownership_conflict
  on_constraint send_in_flight (insert_send x)

unfoldable pub begin_send :
    Engine
    → String
    → ℕ
    → Herdr
    → SendOrigin
    → String
    → String
    → ℕ
    → Tables
    → Result StoreError SendAttempt × Tables
unfolding begin_send_body
begin_send e k i ownership origin message at episode s =
    if not (valid_send_origin origin)
    then (err invalid_send_origin, s)
    else transact e (begin_send_body k i ownership (new_send k i origin message at episode)) s

-- `UPDATE send_attempt SET … WHERE id = ? AND task_id = ? AND attempt_id = ? AND state = 'pending'`
abbrev pub pending_for : String → ℕ → SendAttempt → Bool
pending_for k i x = x.task_id == k && nat_beq x.attempt_id i && is_pending x

abbrev pub finalized : SendState → String → String → SendAttempt → SendAttempt
finalized next reason at x = record x { state = next; reason_code = reason; finalized_at = at }

unfoldable pub update_send : ℕ → (SendAttempt → Bool) → (SendAttempt → SendAttempt) → Tx Bool
update_send n p f s =
    if meets p (get send_id_of n s.sends)
    then ok (true, record s { sends = modify send_id_of n f s.sends })
    else ok (false, s)

pub finalize_pending :
    String → ℕ → SendState → String → String → SendAttempt → Tx (Bool × SendAttempt)
finalize_pending k i next reason at x = do
  n ← update_send x.id (pending_for k i) (finalized next reason at)
  require n send_ownership_conflict
  pure (true, finalized next reason at x)

pub finalize_found :
    String → ℕ → SendState → String → String → Option SendAttempt → Tx (Bool × SendAttempt)
unfolding finalize_pending
finalize_found k i next reason at none = raise send_ownership_conflict
finalize_found k i next reason at (some x) = do
  require (x.task_id == k && nat_beq x.attempt_id i) send_ownership_conflict
  if is_pending x
      then finalize_pending k i next reason at x
      else if is_send x.state next
      then pure (false, x)
      else raise invalid_send_transition

unfoldable pub finalize_send :
    Engine
    → ℕ
    → String
    → ℕ
    → SendState
    → String
    → String
    → Tables
    → Result StoreError SendAttempt × Tables
unfolding finalize_found
finalize_send e n k i next reason at s =
    if not (valid_send_terminal_state next)
    then (err invalid_send_transition, s)
    else transact_if e (λ t. finalize_found k i next reason at (get send_id_of n t.sends) t) s

-- `NormalizePendingSend`; its answer's Boolean is whether the send was pending.
pub normalize_pending :
    String → ℕ → String → String → SendAttempt → Tx (Bool × (SendAttempt × Bool))
normalize_pending k i reason at x = do
  n ← update_send x.id (pending_for k i) (finalized uncertain reason at)
  require n send_ownership_conflict
  pure (true, (finalized uncertain reason at x, true))

pub normalize_found :
    String → ℕ → String → String → Option SendAttempt → Tx (Bool × (SendAttempt × Bool))
unfolding normalize_pending
normalize_found k i reason at none = raise send_ownership_conflict
normalize_found k i reason at (some x) = do
  require (x.task_id == k && nat_beq x.attempt_id i) send_ownership_conflict
  if is_pending x then normalize_pending k i reason at x else pure (false, (x, false))

unfoldable pub normalize_pending_send :
    Engine
    → ℕ
    → String
    → ℕ
    → String
    → String
    → Tables
    → Result StoreError (SendAttempt × Bool) × Tables
unfolding normalize_found
normalize_pending_send e n k i reason at s =
    transact_if e (λ t. normalize_found k i reason at (get send_id_of n t.sends) t) s

-- `NormalizePendingSends`: every pending send of a task; the answer is how many there were.
abbrev pub pending_of : String → SendAttempt → Bool
pending_of k x = x.task_id == k && is_pending x

pub set_all :
    (SendAttempt → Bool) → (SendAttempt → SendAttempt) → List SendAttempt → List SendAttempt
set_all p f [] = []
set_all p f (x ∷ rows) = let rest = set_all p f rows in if p x then f x ∷ rest else x ∷ rest

pub count : (SendAttempt → Bool) → List SendAttempt → ℕ
count p [] = 0
count p (x ∷ rows) = let rest = count p rows in if p x then 1 + rest else rest

unfoldable pub normalize_pending_sends :
    Engine → String → String → String → Tables → Result StoreError ℕ × Tables
normalize_pending_sends e k reason at s =
    autocommit e
      (λ t. ok (
        count (pending_of k) t.sends,
        record t { sends = set_all (pending_of k) (finalized uncertain reason at) t.sends },
      ))
      s

-- `ImportLegacySend`
abbrev pub is_imported : String → ℕ → String → String → SendAttempt → Bool
is_imported k i message at x =
    x.task_id == k
    && nat_beq x.attempt_id i
    && is_origin x.origin legacy_undelivered
    && x.message == message
    && x.created_at == at

abbrev pub legacy_send : String → ℕ → String → String → String → SendAttempt
legacy_send k i message created_at finalized_at = record {
  id = 0;
  task_id = k;
  attempt_id = i;
  origin = legacy_undelivered;
  message = message;
  state = uncertain;
  reason_code = "legacy-undelivered-trace";
  created_at = created_at;
  finalized_at = finalized_at;
  usage_limit_episode = 0;
}

pub import_body : SendAttempt → Tx (Unit {0})
import_body x s =
    if is_some (get task_id_of x.task_id s.tasks)
      && is_some (owned_by x.task_id (get attempt_id_of x.attempt_id s.attempts))
      && not (any (is_imported x.task_id x.attempt_id x.message x.created_at) s.sends)
    then (insert_send x >>= λ y. pure tt) s
    else require (is_some (owned_by x.task_id (get attempt_id_of x.attempt_id s.attempts)))
        send_ownership_conflict s

unfoldable pub import_legacy_send :
    Engine → String → ℕ → String → String → String → Tables → Result StoreError Unit × Tables
unfolding import_body
import_legacy_send e k i message created_at finalized_at s =
    if message == ""
    then (ok tt, s)
    else transact e
        (import_body (
          legacy_send k i message (if created_at == "" then finalized_at else created_at)
            finalized_at))
        s

-- `LatestSend`: the largest id among the rows that match; no origins match every row.
abbrev pub matches : String → ℕ → List SendOrigin → SendAttempt → Bool
matches k i [] x = x.task_id == k && nat_beq x.attempt_id i
matches k i (o ∷ origins) x =
    x.task_id == k && nat_beq x.attempt_id i && any (is_origin x.origin) (o ∷ origins)

abbrev pub newer : SendAttempt → Option SendAttempt → SendAttempt
newer x none = x
newer x (some y) = if ltb x.id y.id then y else x

unfoldable pub latest : (SendAttempt → Bool) → List SendAttempt → Option SendAttempt
latest p [] = none
latest p (x ∷ rows) = let rest = latest p rows in if p x then some (newer x rest) else rest

unfoldable pub latest_send : String → ℕ → List SendOrigin → Tables → Option SendAttempt
unfolding latest
latest_send k i origins s = latest (matches k i origins) s.sends

pub first : (SendAttempt → Bool) → List SendAttempt → Option SendAttempt
first p [] = none
first p (x ∷ rows) = if p x then some x else first p rows

-- `PendingSend`; the source reads no message, and the row here keeps it.
unfoldable pub pending_send : String → ℕ → Tables → Option SendAttempt
unfolding first
pending_send k i s = first (pending_for k i) s.sends

-- Go's strings.HasPrefix
abbrev pub has_prefix : String → String → Bool
has_prefix s p = bytes_equal (take (length (codes p)) (codes s)) (codes p)

abbrev pub text_rejected_before_acceptance : String
text_rejected_before_acceptance = "text-rejected-before-acceptance"

abbrev pub enter_rejected_after_text_staged : String
enter_rejected_after_text_staged = "enter-rejected-after-text-staged"

unfoldable pub send_needs_attention : SendAttempt → Bool
send_needs_attention x =
    is_send x.state pending
    || is_send x.state uncertain
    || (is_send x.state not_submitted && has_prefix x.reason_code enter_rejected_after_text_staged)

unfoldable pub send_retry_safe : SendAttempt → Bool
send_retry_safe x =
    is_send x.state not_submitted && has_prefix x.reason_code text_rejected_before_acceptance

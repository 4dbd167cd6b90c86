-- ===== src/Store/Refinement/Ending.antt =====
-- The methods that end an attempt or a task: `TerminalizeTaskAndAttempt`, `TransitionAttempt`,
-- `TransitionTask`, `SetActiveAttempt` and `DeleteTask`.
use secondhand.Base.{
  if◌then◌else◌, ℕ, String, ◌≡◌, refl, true, false, not, ◌&&◌, ◌||◌, Option, none, some, arith,
  ◌==◌, nat_eq, string_eq, eq_iff, Bool-cases, inl, inr, ok,
}
use secondhand.Store.Types.{
  Task, Attempt, AttemptLifecycle, is_attempt, running, open_, terminal, is_active_attempt,
  valid_attempt_transition, is_attempt-eq,
}
use secondhand.Store.Table.{get, modify, IsKeyed-modify}
use secondhand.Store.Tables.{Tables, task_id_of, attempt_id_of, Engine}
use secondhand.Store.Statements.{
  meets-true, update_attempt-eq_ok, update_task-last, settled, require-eq_ok,
}
use secondhand.Store.Lifecycle.{
  transition_found, with_lifecycle, with_active, ended, in_lifecycle, open_and_owner,
  open_and_idle_or, terminalize_task_and_attempt, transition_attempt,
}
use secondhand.Store.Ownership.Step.{Label, release, advance, releasing, advancing}
use secondhand.Store.Refinement.Rows.{
  IsConsistent, Refines, Does, Leaves, transact-Leaves, task-modified, attempt-modified,
  open_and_owner-view, in_lifecycle-view,
}

-- The owned attempt ended, and its task changed beside it.
pub release-Refines :
    (s : Tables) (k : String) (i : ℕ) (to : AttemptLifecycle) (f : Task → Task) (t : Task)
    (a : Attempt)
    → IsConsistent s
    → ((r : Task) → task_id_of (f r) ≡ task_id_of r)
    → is_active_attempt to ≡ false
    → get attempt_id_of i s.attempts ≡ some a
    → a.task_id ≡ k
    → get task_id_of k s.tasks ≡ some t
    → open_and_owner i t ≡ true
    → (f t).active_attempt_id ≡ none
    → Refines (releasing k i to (f t).lifecycle) s (record s {
      tasks = modify task_id_of k f s.tasks;
      attempts = modify attempt_id_of i (with_lifecycle to) s.attempts;
    })
release-Refines s k i to f t a c same over there own there_t owns cleared =
    let (is_open, names) = open_and_owner-view i t owns in
    record {
      step =
          release k i a.lifecycle to (f t).lifecycle (rw there_t (rw is_open (rw names)))
            (rw there (rw own)) over
            (λ j. rw (← cleared) (task-modified k f t s.tasks same there_t j))
            (λ j.
              rw (← own) (attempt-modified i (with_lifecycle to) a s.attempts (λ r. refl) there j));
      tasks_keyed = IsKeyed-modify task_id_of k f s.tasks same c.tasks_keyed;
      attempts_keyed =
          IsKeyed-modify attempt_id_of i (with_lifecycle to) s.attempts (λ r. refl)
            c.attempts_keyed;
    }

pub terminalize_task_and_attempt-Refines :
    (e : Engine) (k : String) (i : ℕ) (from to : AttemptLifecycle) (s : Tables)
    → IsConsistent s
    → Leaves
        (Does (λ l. l ≡ releasing k i to terminal) s)
        s
        (terminalize_task_and_attempt e k i from to s)
unfolding terminalize_task_and_attempt
terminalize_task_and_attempt-Refines e k i from to s c =
    elim (Bool-cases (not (valid_attempt_transition from to) || is_active_attempt to)) [
      | inl refused ↦ rw refused refl
      | inr allowed ↦ rw allowed (
          transact-Leaves (Does (λ l. l ≡ releasing k i to terminal) s) s e _ λ u s' h.
            let (moves, h₁) =
              update_attempt-eq_ok i (in_lifecycle k from) (with_lifecycle to) _ _ s h in
            let (ends, h₂) = update_task-last k (open_and_owner i) ended _ _ h₁ in
            let (a, there, own) = meets-true (in_lifecycle k from) _ moves in
            let (t, there_t, owns) = meets-true (open_and_owner i) _ ends in
            settled (Does (λ l. l ≡ releasing k i to terminal) s) tt u _ s'
              (
                releasing k i to terminal,
                refl,
                release-Refines s k i to ended t a c (λ r. refl) (ground arith) there
                    (in_lifecycle-view k from a own).0 there_t owns refl,
              )
              h₂)
    ]

from_active :
    (from to : AttemptLifecycle)
    → valid_attempt_transition from to ≡ true
    → is_active_attempt from ≡ true
unfolding valid_attempt_transition
from_active from to h = ground arith

-- The owned attempt moved on, and its task naming it still.
advance-Refines :
    (s : Tables) (i : ℕ) (to : AttemptLifecycle) (t : Task) (a : Attempt)
    → IsConsistent s
    → is_active_attempt a.lifecycle ≡ true
    → is_active_attempt to ≡ true
    → get attempt_id_of i s.attempts ≡ some a
    → get task_id_of a.task_id s.tasks ≡ some t
    → Refines (advancing a.task_id i to) s (record s {
      tasks = modify task_id_of a.task_id (with_active (some i)) s.tasks;
      attempts = modify attempt_id_of i (with_lifecycle to) s.attempts;
    })
advance-Refines s i to t a c live alive there there_t =
    let owner = c.owned.owned i a.task_id a.lifecycle (rw there) live in
    let same = with_active (some i) in
    record {
      step =
          advance a.task_id i a.lifecycle to owner (rw there) alive
            (λ j. ground (
              arith,
              task-modified a.task_id same t s.tasks (λ r. refl) there_t j,
              owner,
              there_t,
              eq_iff a.task_id j,
            ))
            (attempt-modified i (with_lifecycle to) a s.attempts (λ r. refl) there);
      tasks_keyed = IsKeyed-modify task_id_of a.task_id same s.tasks (λ r. refl) c.tasks_keyed;
      attempts_keyed =
          IsKeyed-modify attempt_id_of i (with_lifecycle to) s.attempts (λ r. refl)
            c.attempts_keyed;
    }

-- `TransitionAttempt` moves the attempt on, or ends it and leaves its task open.
abbrev pub Transitions : ℕ → AttemptLifecycle → Label → Type 0
Transitions i to l =
    (k : String) × (l ≡ (if is_active_attempt to then advancing k i to else releasing k i to open_))

transition_found-Refines :
    (i : ℕ) (from to : AttemptLifecycle) (s : Tables) (o : Option Attempt) (u : Unit) (s' : Tables)
    → IsConsistent s
    → valid_attempt_transition from to ≡ true
    → get attempt_id_of i s.attempts ≡ o
    → transition_found i from to o s ≡ ok (u, s')
    → Does (Transitions i to) s s'
unfolding transition_attempt
transition_found-Refines i from to s none u s' c v there h = absurd (ground arith)
transition_found-Refines i from to s (some a) u s' c v there h =
    let (current, h₁) = require-eq_ok (is_attempt a.lifecycle from) _ _ s h in
    let (confirmed, h₂) =
      require-eq_ok (not (is_attempt to running && a.launch_confirmed_at == "")) _ _ s h₁ in
    let (moves, h₃) =
      update_attempt-eq_ok i (in_lifecycle a.task_id from) (with_lifecycle to) _ _ s h₂ in
    elim (Bool-cases (is_active_attempt to)) [
      | inl alive ↦
          let (takes, h₄) =
            update_task-last a.task_id (open_and_idle_or i) (with_active (some i)) _ _
              (rw alive at h₃) in
          let (t, there_t, free) = meets-true (open_and_idle_or i) _ takes in
          settled (Does (Transitions i to) s) tt u _ s'
            (
              advancing a.task_id i to,
              (a.task_id, rw alive refl),
              advance-Refines s i to t a c
                  (rw (is_attempt-eq a.lifecycle from current) (from_active from to v)) alive there
                  there_t,
            )
            h₄
      | inr over ↦
          let (takes, h₄) =
            update_task-last a.task_id (open_and_owner i) (with_active none) _ _ (rw over at h₃) in
          let (t, there_t, owns) = meets-true (open_and_owner i) _ takes in
          settled (Does (Transitions i to) s) tt u _ s'
            (
              releasing a.task_id i to t.lifecycle,
              (a.task_id, rw (over, (open_and_owner-view i t owns).0) refl),
              release-Refines s a.task_id i to (with_active none) t a c (λ r. refl) over there refl
                  there_t owns refl,
            )
            h₄
    ]

pub transition_attempt-Refines :
    (e : Engine) (i : ℕ) (from to : AttemptLifecycle) (s : Tables)
    → IsConsistent s
    → Leaves (Does (Transitions i to) s) s (transition_attempt e i from to s)
unfolding transition_attempt
transition_attempt-Refines e i from to s c = elim (Bool-cases (valid_attempt_transition from to)) [
  | inl allowed ↦ rw allowed (
      transact-Leaves (Does (Transitions i to) s) s e _
        λ u s' h. transition_found-Refines i from to s _ u s' c allowed refl h)
  | inr refused ↦ rw refused refl
]

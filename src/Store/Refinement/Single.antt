-- ===== src/Store/Refinement/Single.antt =====
-- The methods that are one statement: `TransitionTask`, `SetActiveAttempt` and `DeleteTask`.
use secondhand.Base.{
  ℕ, String, ◌≡◌, refl, Bool, true, false, not, ◌&&◌, Option, none, some, arith, if◌then◌else◌,
  ◌==◌, nat_eq, string_eq, eq_iff, Bool-cases, inl, inr, ok, err,
}
use secondhand.Store.Types.{
  Task, Attempt, TaskLifecycle, is_task, open_, terminal, is_active_attempt, valid_task_transition,
  is_task-eq,
}
use secondhand.Store.Table.{
  get, modify, keep, kept_if, get_key, IsKeyed-modify, IsKeyed-keep, get-keep,
}
use secondhand.Store.Tables.{
  Tables, task_id_of, attempt_id_of, send_id_of, StoreError, constraint_failed, Engine, meets,
  autocommit, is_null, Outcome, fine, busy, broken, commit_as,
}
use secondhand.Store.Statements.{meets-true}
use secondhand.Store.Lifecycle.{
  with_active, moved, open_and_idle, transition_task, set_active_attempt, delete_task,
  left_dangling,
}
use secondhand.Store.Ownership.Step.{
  task_view, attempt_view, without, retire, delete, retiring, deleting,
}
use secondhand.Store.Refinement.Rows.{
  IsConsistent, Refines, Does, Leaves, Changes, answered-Leaves, update_task-Changes, task-modified,
}

pub and-true_left : (a b : Bool) → (a && b) ≡ true → a ≡ true
and-true_left true b h = refl
and-true_left false b h = cc

pub and-true_right : (a b : Bool) → (a && b) ≡ true → b ≡ true
and-true_right true b h = h
and-true_right false b h = cc

retire-Refines :
    (s : Tables) (k : String) (t : Task)
    → IsConsistent s
    → get task_id_of k s.tasks ≡ some t
    → (is_task t.lifecycle open_ && is_null t.active_attempt_id) ≡ true
    → Refines (retiring k) s (record s { tasks = modify task_id_of k (moved terminal) s.tasks })
retire-Refines s k t c there idle = record {
  step =
      retire k (rw there (ground (arith, is_task-eq t.lifecycle open_)))
        (task-modified k (moved terminal) t s.tasks (λ r. refl) there) (λ j. refl);
  tasks_keyed = IsKeyed-modify task_id_of k (moved terminal) s.tasks (λ r. refl) c.tasks_keyed;
  attempts_keyed = c.attempts_keyed;
}

valid_ends :
    (from to : TaskLifecycle)
    → valid_task_transition from to ≡ true
    → (from ≡ open_) × (to ≡ terminal)
unfolding valid_task_transition
valid_ends from to h = ground (arith, is_task-eq from open_, is_task-eq to terminal)

pub transition_task-Refines :
    (e : Engine) (k : String) (from to : TaskLifecycle) (later s : Tables)
    → IsConsistent s
    → Leaves (Does (λ l. l ≡ retiring k) s) s (transition_task e k from to later s)
unfolding transition_task
transition_task-Refines e k from to later s c = elim (Bool-cases (valid_task_transition from to)) [
  | inr refused ↦ rw refused refl
  | inl allowed ↦
      let (is_from, is_to) = valid_ends from to allowed in
      rw allowed (
        answered-Leaves (Does (λ l. l ≡ retiring k) s) s _ _ (
          rw (is_from, is_to)
            (update_task-Changes (Does (λ l. l ≡ retiring k) s) s e k
              (λ t. is_task t.lifecycle open_ && is_null t.active_attempt_id) (moved terminal)
              (λ t there idle. (retiring k, refl, retire-Refines s k t c there idle)))))
]

-- An idle task has no active attempt to be given.
no_idle_owner :
    (s : Tables) (k : String) (i : ℕ) (t : Task) (a : Attempt)
    → IsConsistent s
    → get task_id_of k s.tasks ≡ some t
    → open_and_idle t ≡ true
    → get attempt_id_of i s.attempts ≡ some a
    → (a.task_id == k && is_active_attempt a.lifecycle) ≡ true
    → ⊥
no_idle_owner s k i t a c there idle found own =
    let owner = c.owned.owned i a.task_id a.lifecycle (rw found) (ground arith) in
    let same = (eq_iff a.task_id k).0 (ground arith) in ground (arith, (rw same at owner), there)

pub set_active_attempt-Refines :
    (e : Engine) (k : String) (i : ℕ) (later s : Tables)
    → IsConsistent s
    → Leaves (Does (λ l. ⊥) s) s (set_active_attempt e k i later s)
unfolding set_active_attempt
set_active_attempt-Refines e k i later s c = answered-Leaves (Does (λ l. ⊥) s) s _ _ (
    update_task-Changes (Does (λ l. ⊥) s) s e k _ (with_active (some i)) (λ t there both.
      let (a, found, own) =
        meets-true (λ a. a.task_id == k && is_active_attempt a.lifecycle) _
          (and-true_right (open_and_idle t) _ both) in
      absurd (no_idle_owner s k i t a c there (and-true_left (open_and_idle t) _ both) found own)))

-- The rows that stay when a task goes.
without-kept :
    (k : String) (o : Option Attempt)
    → attempt_view (kept_if (λ a. not (a.task_id == k)) o) ≡ without k (attempt_view o)
without-kept k none = refl
without-kept k (some a) = ground arith

task-kept :
    (k j : String) (o : Option Task)
    → ((t : Task) → o ≡ some t → t.id ≡ j)
    → task_view (kept_if (λ t. not (t.id == k)) o) ≡ (if k == j then none else task_view o)
task-kept k j none named = ground arith
task-kept k j (some t) named = ground (arith, named t refl, eq_iff t.id k, eq_iff k j)

delete-Refines :
    (s : Tables) (k : String) (t : Task)
    → IsConsistent s
    → get task_id_of k s.tasks ≡ some t
    → Refines (deleting k) s (record s {
      tasks = keep task_id_of (λ t. not (t.id == k)) s.tasks;
      attempts = keep attempt_id_of (λ a. not (a.task_id == k)) s.attempts;
      sends = keep send_id_of (λ x. not (x.task_id == k)) s.sends;
    })
delete-Refines s k t c there = record {
  step =
      delete k (t.lifecycle, t.active_attempt_id) (rw there refl)
        (λ j.
          rw (get-keep task_id_of j (λ t. not (t.id == k)) s.tasks c.tasks_keyed)
            (task-kept k j (get task_id_of j s.tasks) (λ t. get_key task_id_of j s.tasks)))
        (λ j.
          rw (get-keep attempt_id_of j (λ a. not (a.task_id == k)) s.attempts c.attempts_keyed)
            (without-kept k (get attempt_id_of j s.attempts)));
  tasks_keyed = IsKeyed-keep task_id_of (λ t. not (t.id == k)) s.tasks c.tasks_keyed;
  attempts_keyed =
      IsKeyed-keep attempt_id_of (λ a. not (a.task_id == k)) s.attempts c.attempts_keyed;
}

commit_as-deletes :
    (P : Tables → Type 0) (o : Outcome) (b d : Bool) (x : StoreError) (s s' : Tables)
    → (b ≡ true → P s')
    → Changes P s
        (commit_as o s (if b then (if d then err x else ok (true, s')) else ok (false, s)))
commit_as-deletes P o true true x s s' h = refl
commit_as-deletes P fine true false x s s' h = h refl
commit_as-deletes P busy true false x s s' h = refl
commit_as-deletes P broken true false x s s' h = refl
commit_as-deletes P fine false d x s s' h = refl
commit_as-deletes P busy false d x s s' h = refl
commit_as-deletes P broken false d x s s' h = refl

pub delete_task-Refines :
    (e : Engine) (k : String) (s : Tables)
    → IsConsistent s
    → Leaves (Does (λ l. l ≡ deleting k) s) s (delete_task e k s)
unfolding delete_task autocommit
delete_task-Refines e k s c = answered-Leaves (Does (λ l. l ≡ deleting k) s) s _ _ (
    commit_as-deletes (Does (λ l. l ≡ deleting k) s) e.exec
      (meets (λ t. true) (get task_id_of k s.tasks)) (left_dangling k s) constraint_failed s _
      (λ present.
        let (t, there, any) = meets-true (λ t. true) _ present in
        (deleting k, refl, delete-Refines s k t c there)))

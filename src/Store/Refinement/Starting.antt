-- ===== src/Store/Refinement/Starting.antt =====
-- The methods that bring an attempt in: `CreateTaskWithAttempt`, `CreateAttempt`,
-- `CreateAttemptIfOpenAndInactive`, `ReopenTask` and `PromoteTask`.
use secondhand.Base.{
  subst, ℕ, String, ◌≡◌, ◌∙◌, refl, Bool, true, false, not, ◌&&◌, [], ◌∷◌, ◌++◌, Option, none, some,
  arith, if◌then◌else◌, ◌==◌, nat_eq, string_eq, Bool-cases, inl, inr, ok,
}
use secondhand.Store.Types.{
  Task, Attempt, AttemptLifecycle, is_attempt, is_task, open_, terminal, provisioning,
  is_active_attempt, is_attempt-eq, is_task-eq,
}
use secondhand.Store.Table.{get, modify, IsKeyed-modify, IsKeyed-insert}
use secondhand.Store.Tables.{
  Tables, task_id_of, attempt_id_of, lifecycle_conflict, Engine, is_null, attempt_fits, prepared,
  insert_attempt,
}
use secondhand.Store.Statements.{
  meets-true, settled, inserted, require-eq_ok, update_task-eq_ok, insert_attempt-eq_ok,
  on_constraint-eq_ok, attempt_fits-new, prepared-task_id, prepared-kept,
}
use secondhand.Store.Lifecycle.{
  with_active, open_and_idle_or, create_attempt_for, started, create_attempt_with, create_attempt,
  create_attempt_if_open_and_inactive, reopened, reopen_found, reopen_task, is_open,
}
use secondhand.Store.Ownership.Step.{
  Label, view, attempt_view, Step, assign, keep_record, reopen, assigning, recording, reopening,
}
use secondhand.Store.Refinement.Rows.{
  IsConsistent, Refines, Does, Leaves, transact-Leaves, task-modified, attempt-inserted,
}

-- A new attempt in the table, and the task `k` changed to own it.
abbrev given : String → (Task → Task) → Attempt → Tables → Tables
given k f b s = record (inserted b s) { tasks = modify task_id_of k f s.tasks }

module _ (s : Tables) (c : IsConsistent s) (k : String) (b : Attempt) (own : b.task_id ≡ k)
    (fits : attempt_fits b s ≡ true) where
  placed :
      (j : ℕ)
      → attempt_view (get attempt_id_of j (s.attempts ++ (b ∷ []))) ≡ (
          if b.id == j
          then some (k, b.lifecycle)
          else attempt_view (get attempt_id_of j s.attempts))
  placed j = rw (← own) (attempt-inserted b s.attempts (attempt_fits-new b s fits) j)

  given-Refines :
      (f : Task → Task)
      → ((r : Task) → task_id_of (f r) ≡ task_id_of r)
      → (l : Label) → Step (view s) (view (given k f b s)) l
      → Refines l s (given k f b s)
  given-Refines f same l step = record {
    step = step;
    tasks_keyed = IsKeyed-modify task_id_of k f s.tasks same c.tasks_keyed;
    attempts_keyed =
        IsKeyed-insert attempt_id_of b s.attempts c.attempts_keyed (attempt_fits-new b s fits);
  }

  -- No task owns an attempt that is not in the table.
  new-not_owned :
      (t : Task)
      → get task_id_of k s.tasks ≡ some t
      → open_and_idle_or b.id t ≡ true
      → (t.lifecycle ≡ open_) × (t.active_attempt_id ≡ none)
  new-not_owned t there free = ground (
    arith,
    is_task-eq t.lifecycle open_,
    attempt_fits-new b s fits,
    c.owned.backed k b.id t.lifecycle,
  )

  assigned-Refines :
      (t : Task)
      → is_active_attempt b.lifecycle ≡ true
      → get task_id_of k s.tasks ≡ some t
      → open_and_idle_or b.id t ≡ true
      → Refines (assigning k b.id b.lifecycle) s (given k (with_active (some b.id)) b s)
  assigned-Refines t live there free =
      let (is_open, idle) = new-not_owned t there free in
      given-Refines (with_active (some b.id)) (λ r. refl) (assigning k b.id b.lifecycle)
        (assign k b.id b.lifecycle (rw there (rw is_open (rw idle)))
          (rw (attempt_fits-new b s fits)) live
          (λ j.
            rw (← is_open)
              (task-modified k (with_active (some b.id)) t s.tasks (λ r. refl) there j))
          placed)

  -- An attempt that is over from the start takes nothing.
  kept-Refines :
      (t : Task)
      → is_active_attempt b.lifecycle ≡ false
      → get task_id_of k s.tasks ≡ some t
      → is_open t ≡ true
      → Refines (recording k b.id b.lifecycle) s (inserted b s)
  kept-Refines t over there free = record {
    step =
        keep_record k b.id b.lifecycle t.active_attempt_id
          (ground (arith, is_task-eq t.lifecycle open_)) (rw (attempt_fits-new b s fits)) over
          (λ j. refl) placed;
    tasks_keyed = c.tasks_keyed;
    attempts_keyed =
        IsKeyed-insert attempt_id_of b s.attempts c.attempts_keyed (attempt_fits-new b s fits);
  }

  -- A terminal task comes to own the new attempt.
  reopened-Refines :
      (t : Task)
      → b.lifecycle ≡ provisioning
      → get task_id_of k s.tasks ≡ some t
      → is_task t.lifecycle terminal ≡ true
      → Refines (reopening k b.id) s (given k (reopened b.id) b s)
  reopened-Refines t fresh there over =
      given-Refines (reopened b.id) (λ r. refl) (reopening k b.id)
        (reopen k b.id t.active_attempt_id (ground (arith, is_task-eq t.lifecycle terminal))
          (rw (attempt_fits-new b s fits))
          (task-modified k (reopened b.id) t s.tasks (λ r. refl) there)
          (λ j. rw (← fresh) (placed j)))

pub prepared-provisioning :
    (a : Attempt) (s : Tables)
    → is_attempt a.lifecycle provisioning ≡ true
    → (prepared a s).lifecycle ≡ provisioning
prepared-provisioning a s h =
    prepared-kept a s (ground arith) ∙ is_attempt-eq a.lifecycle provisioning h

-- `ReopenTask` gives the task a new attempt.
abbrev pub Reopens : String → Label → Type 0
Reopens k l = (i : ℕ) × (l ≡ reopening k i)

-- `CreateAttempt` gives an open task a new attempt, or only records one that is over from the start.
abbrev pub Creates : String → AttemptLifecycle → Label → Type 0
Creates k m l = (i : ℕ) × (l ≡ (if is_active_attempt m then assigning k i m else recording k i m))

reopen_found-Refines :
    (s : Tables) (a : Attempt) (o : Option Task) (r : Attempt) (s' : Tables)
    → IsConsistent s
    → is_attempt a.lifecycle provisioning ≡ true
    → get task_id_of a.task_id s.tasks ≡ o
    → reopen_found a o s ≡ ok (r, s')
    → Does (Reopens a.task_id) s s'
unfolding reopen_task
reopen_found-Refines s a none r s' c p there h = absurd (ground arith)
reopen_found-Refines s a (some t) r s' c p there h =
    let (over, h₁) = require-eq_ok (is_task t.lifecycle terminal) _ _ s h in
    let (fits, h₂) =
      insert_attempt-eq_ok a _ s
        (on_constraint-eq_ok lifecycle_conflict (insert_attempt a) _ s h₁) in
    let b = prepared a s in
    let (gives, h₃) =
      update_task-eq_ok a.task_id (λ r. is_task r.lifecycle terminal) (reopened b.id) _ _ _ h₂ in
    settled (Does (Reopens a.task_id) s) b r _ s'
      (
        reopening a.task_id b.id,
        (b.id, refl),
        reopened-Refines s c a.task_id b (prepared-task_id a s) fits t (prepared-provisioning a s p)
            there over,
      )
      h₃

pub reopen_task-Refines :
    (e : Engine) (k : String) (a : Attempt) (s : Tables)
    → IsConsistent s
    → Leaves (Does (Reopens k) s) s (reopen_task e k a s)
unfolding reopen_task
reopen_task-Refines e k a s c = elim (Bool-cases (is_attempt a.lifecycle provisioning)) [
  | inl allowed ↦ rw allowed (
      transact-Leaves (Does (Reopens k) s) s e _ λ r s' h.
        reopen_found-Refines s (record a { task_id = k; id = 0; ordinal = 0 }) _ r s' c allowed refl
          h)
  | inr refused ↦ rw refused refl
]

-- `createAttempt`, behind the row of its task.
create_attempt_for-Refines :
    (s : Tables) (q : Bool) (a : Attempt) (o : Option Task) (r : Attempt) (s' : Tables)
    → IsConsistent s
    → is_attempt a.lifecycle AttemptLifecycle.unset ≡ false
    → get task_id_of a.task_id s.tasks ≡ o
    → create_attempt_for q a o s ≡ ok (r, s')
    → Does (Creates a.task_id a.lifecycle) s s'
unfolding create_attempt_with
create_attempt_for-Refines s q a none r s' c p there h = absurd (ground arith)
create_attempt_for-Refines s q a (some t) r s' c p there h =
    let (free, h₁) = require-eq_ok (is_open t) _ _ s h in
    let (idle, h₂) =
      require-eq_ok (not (q && is_active_attempt a.lifecycle && not (is_null t.active_attempt_id)))
        _ _ s h₁ in
    let (fits, h₃) =
      insert_attempt-eq_ok a _ s
        (on_constraint-eq_ok lifecycle_conflict (insert_attempt a) _ s h₂) in
    let b = prepared a s in
    let own = prepared-task_id a s in
    elim (Bool-cases (is_active_attempt a.lifecycle)) [
      | inl live ↦
          let (takes, h₄) =
            update_task-eq_ok b.task_id (open_and_idle_or b.id) (with_active (some b.id)) _ _ _
              (rw live at h₃) in
          let (t', there', free') = meets-true (open_and_idle_or b.id) _ takes in
          settled (Does (Creates a.task_id a.lifecycle) s) b r _ s'
            (
              assigning b.task_id b.id b.lifecycle,
              (b.id, rw (live, own, prepared-kept a s p) refl),
              assigned-Refines s c b.task_id b refl fits t' (rw (prepared-kept a s p) live) there'
                  free',
            )
            h₄
      | inr over ↦
          settled (Does (Creates a.task_id a.lifecycle) s) b r _ s'
            (
              recording a.task_id b.id b.lifecycle,
              (b.id, rw (over, prepared-kept a s p) refl),
              kept-Refines s c a.task_id b own fits t (rw (prepared-kept a s p) over) there free,
            )
            (rw over at h₃)
    ]

started-task_id : (a : Attempt) → (started a).task_id ≡ a.task_id
started-task_id a = ground arith

create_attempt_with-Refines :
    (e : Engine) (a : Attempt) (q : Bool) (s : Tables)
    → IsConsistent s
    → Leaves (Does (Creates a.task_id (started a).lifecycle) s) s (create_attempt_with e a q s)
unfolding create_attempt_with
create_attempt_with-Refines e a q s c =
    transact-Leaves (Does (Creates a.task_id (started a).lifecycle) s) s e _ λ r s' h.
      subst (λ (k : String). Does (Creates k (started a).lifecycle) s s') (started-task_id a)
        (create_attempt_for-Refines s q (started a) _ r s' c (ground arith) refl h)

pub create_attempt-Refines :
    (e : Engine) (a : Attempt) (s : Tables)
    → IsConsistent s
    → Leaves (Does (Creates a.task_id (started a).lifecycle) s) s (create_attempt e a s)
unfolding create_attempt
create_attempt-Refines e a s c = create_attempt_with-Refines e a false s c

pub create_attempt_if_open_and_inactive-Refines :
    (e : Engine) (a : Attempt) (s : Tables)
    → IsConsistent s
    → Leaves
        (Does (Creates a.task_id (started (record a { ordinal = 0 })).lifecycle) s)
        s
        (create_attempt_if_open_and_inactive e a s)
unfolding create_attempt_if_open_and_inactive
create_attempt_if_open_and_inactive-Refines e a s c =
    elim (Bool-cases (
      not (is_attempt a.lifecycle AttemptLifecycle.unset)
      && not (is_attempt a.lifecycle provisioning))) [
        | inl refused ↦ rw refused refl
        | inr allowed ↦
            rw allowed (create_attempt_with-Refines e (record a { ordinal = 0 }) true s c)
      ]

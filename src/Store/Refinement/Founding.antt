-- ===== src/Store/Refinement/Founding.antt =====
-- `CreateTaskWithAttempt` and `PromoteTask`, which change a task and its attempts together.
use secondhand.Base.{
  subst, ℕ, String, ◌≡◌, ◌∙◌, refl, Bool, true, false, not, ◌||◌, [], ◌∷◌, ◌++◌, Option, none, some,
  arith, if◌then◌else◌, ◌==◌, nat_eq, string_eq, eq_iff, Bool-cases, inl, inr, ok,
}
use secondhand.Store.Types.{
  Task, Attempt, AttemptLifecycle, is_attempt, open_, provisioning, completed,
  valid_attempt_transition, is_task-eq,
}
use secondhand.Store.Table.{get, modify, IsKeyed-modify, IsKeyed-insert, get-modify, changed}
use secondhand.Store.Tables.{
  Tables, task_id_of, attempt_id_of, lifecycle_conflict, Engine, attempt_fits, prepared,
  insert_attempt, insert_task,
}
use secondhand.Store.Statements.{
  meets-true, settled, inserted, require-eq_ok, update_task-eq_ok, update_attempt-eq_ok,
  insert_attempt-eq_ok, insert_task-eq_ok, on_constraint-eq_ok, attempt_fits-new, prepared-task_id,
}
use secondhand.Store.Lifecycle.{
  with_active, with_lifecycle, open_and_idle, in_lifecycle, create_body, opened, addressed,
  create_task_with_attempt, scouted_by, shipped, promote_found, promote_task,
}
use secondhand.Store.Ownership.Step.{Label, found, hand_over, founding, handing_over}
use secondhand.Store.Refinement.Rows.{
  IsConsistent, Refines, Does, Leaves, transact-Leaves, task-modified, attempt-modified,
  task-inserted, attempt-inserted, in_lifecycle-view,
}
use secondhand.Store.Refinement.Starting.{prepared-provisioning}

-- A row added to the tasks.
abbrev with_task : Task → Tables → Tables
with_task b s = record s { tasks = s.tasks ++ (b ∷ []) }

found-Refines :
    (s : Tables) (n : Task) (b : Attempt) (t : Task)
    → IsConsistent s
    → get task_id_of n.id s.tasks ≡ none
    → b.task_id ≡ n.id
    → b.lifecycle ≡ provisioning
    → attempt_fits b (with_task n s) ≡ true
    → get task_id_of n.id (s.tasks ++ (n ∷ [])) ≡ some t
    → open_and_idle t ≡ true
    → Refines (founding n.id b.id) s (record (inserted b s) {
      tasks = modify task_id_of n.id (with_active (some b.id)) (s.tasks ++ (n ∷ []));
    })
found-Refines s n b t c absent own fresh fits there free =
    let new = attempt_fits-new b (with_task n s) fits in
    let owns = with_active (some b.id) in
    record {
      step =
          found n.id b.id (rw absent) (rw new)
            (λ j. ground (
              arith,
              task-modified n.id owns t (s.tasks ++ (n ∷ [])) (λ r. refl) there j,
              task-inserted n s.tasks absent j,
              is_task-eq t.lifecycle open_,
            ))
            (λ j. rw (← fresh) (rw (← own) (attempt-inserted b s.attempts new j)));
      tasks_keyed =
          IsKeyed-modify task_id_of n.id owns _ (λ r. refl)
            (IsKeyed-insert task_id_of n s.tasks c.tasks_keyed absent);
      attempts_keyed = IsKeyed-insert attempt_id_of b s.attempts c.attempts_keyed new;
    }

-- `CreateTaskWithAttempt` brings the task in with its first attempt.
abbrev pub Founds : String → Label → Type 0
Founds k l = (i : ℕ) × (l ≡ founding k i)

-- `PromoteTask` puts a new attempt in the place of the scout's.
abbrev pub Promotes : String → ℕ → Label → Type 0
Promotes k i l = (n : ℕ) × (l ≡ handing_over k i n)

create_body-Refines :
    (s : Tables) (t : Task) (a r : Attempt) (s' : Tables)
    → IsConsistent s
    → a.task_id ≡ t.id
    → is_attempt a.lifecycle provisioning ≡ true
    → create_body t a s ≡ ok (r, s')
    → Does (Founds t.id) s s'
unfolding create_task_with_attempt
create_body-Refines s t a r s' c own fresh h =
    let n = record t { active_attempt_id = none } in
    let z = record a { ordinal = 0 } in
    let (absent, h₁) =
      insert_task-eq_ok n _ s (on_constraint-eq_ok lifecycle_conflict (insert_task n) _ s h) in
    let (fits, h₂) = insert_attempt-eq_ok z _ (with_task n s) h₁ in
    let b = prepared z (with_task n s) in
    let (gives, h₃) = update_task-eq_ok t.id open_and_idle (with_active (some b.id)) _ _ _ h₂ in
    let (x, there, free) = meets-true open_and_idle _ gives in
    settled (Does (Founds t.id) s) b r _ s'
      (
        founding t.id b.id,
        (b.id, refl),
        found-Refines s n b x c absent (prepared-task_id z _ ∙ own)
            (prepared-provisioning z _ fresh) fits there free,
      )
      h₃

opened-id : (t : Task) → (opened t).id ≡ t.id
opened-id t = ground arith

pub create_task_with_attempt-Refines :
    (e : Engine) (t : Task) (a : Attempt) (s : Tables)
    → IsConsistent s
    → Leaves (Does (Founds t.id) s) s (create_task_with_attempt e t a s)
unfolding create_task_with_attempt
create_task_with_attempt-Refines e t a s c =
    let b = addressed t a in
    elim (Bool-cases (not (b.task_id == t.id) || not (is_attempt b.lifecycle provisioning))) [
      | inl refused ↦ rw refused refl
      | inr allowed ↦ rw allowed (
          transact-Leaves (Does (Founds t.id) s) s e _ λ r s' h.
            subst (λ (k : String). Does (Founds k) s s') (opened-id t)
              (create_body-Refines s (opened t) b r s' c (ground (arith, eq_iff b.task_id t.id))
                (ground arith) h))
    ]

-- The state after the scout's attempt is completed.
abbrev scout_completed : ℕ → Tables → Tables
scout_completed i s = record s {
  attempts = modify attempt_id_of i (with_lifecycle completed) s.attempts;
}

unchanged_none :
    (f : Attempt → Attempt) (x o : Option Attempt) (q : Bool)
    → x ≡ (if q then changed f o else o)
    → x ≡ none
    → o ≡ none
unchanged_none f x none q e h = refl
unchanged_none f x (some a) true e h = ground arith
unchanged_none f x (some a) false e h = ground arith

handed_over-Refines :
    (s : Tables) (k : String) (i : ℕ) (a b : Attempt) (t : Task)
    → IsConsistent s
    → get attempt_id_of i s.attempts ≡ some a
    → a.task_id ≡ k
    → b.task_id ≡ k
    → b.lifecycle ≡ provisioning
    → attempt_fits b (scout_completed i s) ≡ true
    → get task_id_of k s.tasks ≡ some t
    → scouted_by i t ≡ true
    → Refines (handing_over k i b.id) s (record (inserted b (scout_completed i s)) {
      tasks = modify task_id_of k (shipped b.id) s.tasks;
    })
handed_over-Refines s k i a b t c there own own_b fresh fits there_t scouts =
    let ending = with_lifecycle completed in
    let new = attempt_fits-new b (scout_completed i s) fits in
    let absent =
      unchanged_none ending _ (get attempt_id_of b.id s.attempts) (i == b.id)
        (get-modify attempt_id_of i b.id ending s.attempts (λ r. refl)) new in
    record {
      step =
          hand_over k i b.id a.lifecycle (ground (arith, is_task-eq t.lifecycle open_))
            (rw there (rw own)) (rw absent)
            (λ j. ground (
              arith,
              task-modified k (shipped b.id) t s.tasks (λ r. refl) there_t j,
              is_task-eq t.lifecycle open_,
            ))
            (λ j. ground (
              arith,
              attempt-inserted b (scout_completed i s).attempts new j,
              attempt-modified i ending a s.attempts (λ r. refl) there j,
            ));
      tasks_keyed = IsKeyed-modify task_id_of k (shipped b.id) s.tasks (λ r. refl) c.tasks_keyed;
      attempts_keyed =
          IsKeyed-insert attempt_id_of b (scout_completed i s).attempts
            (IsKeyed-modify attempt_id_of i ending s.attempts (λ r. refl) c.attempts_keyed) new;
    }

promote_found-Refines :
    (s : Tables) (i : ℕ) (from : AttemptLifecycle) (a : Attempt) (o : Option Task) (r : Attempt)
    (s' : Tables)
    → IsConsistent s
    → is_attempt a.lifecycle provisioning ≡ true
    → get task_id_of a.task_id s.tasks ≡ o
    → promote_found i from a o s ≡ ok (r, s')
    → Does (Promotes a.task_id i) s s'
unfolding promote_task
promote_found-Refines s i from a none r s' c fresh there h = absurd (ground arith)
promote_found-Refines s i from a (some t) r s' c fresh there h =
    let (scouts, h₁) = require-eq_ok (scouted_by i t) _ _ s h in
    let (ends, h₂) =
      update_attempt-eq_ok i (in_lifecycle a.task_id from) (with_lifecycle completed) _ _ s h₁ in
    let s₁ = scout_completed i s in
    let (fits, h₃) =
      insert_attempt-eq_ok a _ s₁
        (on_constraint-eq_ok lifecycle_conflict (insert_attempt a) _ s₁ h₂) in
    let b = prepared a s₁ in
    let (gives, h₄) = update_task-eq_ok a.task_id (scouted_by i) (shipped b.id) _ _ _ h₃ in
    let (x, found_x, own) = meets-true (in_lifecycle a.task_id from) _ ends in
    settled (Does (Promotes a.task_id i) s) b r _ s'
      (
        handing_over a.task_id i b.id,
        (b.id, refl),
        handed_over-Refines s a.task_id i x b t c found_x (in_lifecycle-view a.task_id from x own).0
            (prepared-task_id a s₁) (prepared-provisioning a s₁ fresh) fits there scouts,
      )
      h₄

pub promote_task-Refines :
    (e : Engine) (k : String) (i : ℕ) (from : AttemptLifecycle) (ship : Attempt) (s : Tables)
    → IsConsistent s
    → Leaves (Does (Promotes k i) s) s (promote_task e k i from ship s)
unfolding promote_task
promote_task-Refines e k i from ship s c =
    elim (Bool-cases (valid_attempt_transition from completed)) [
      | inr refused ↦ rw refused refl
      | inl moves ↦ elim (Bool-cases (is_attempt ship.lifecycle provisioning)) [
        | inr refused ↦ rw (moves, refused) refl
        | inl fresh ↦
            rw (moves, fresh)
              (transact-Leaves (Does (Promotes k i) s) s e _ λ r s' h.
                promote_found-Refines s i from (record ship { task_id = k; id = 0; ordinal = 0 }) _
                  r s' c fresh refl h)
      ]
    ]

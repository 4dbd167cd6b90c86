-- ===== src/Store/Refinement/Facts.antt =====
-- The facts of Store/Facts.antt and Store/Teardown.antt leave ownership alone, except
-- `MarkAttemptRunning`, which moves the owned attempt on.
use secondhand.Base.{
  ℕ, String, ◌≡◌, refl, Bool, true, false, not, ◌&&◌, some, arith, if◌then◌else◌, ◌==◌, nat_eq,
  string_eq, eq_iff, nat_beq_iff, Bool-cases, inl, inr, Result, err,
}
use secondhand.Store.Types.{
  Task, Attempt, AttemptLifecycle, is_attempt, running, completed, interrupted, provisioning,
}
use secondhand.Store.Table.{get, modify, IsKeyed-modify}
use secondhand.Store.Tables.{
  Tables, task_id_of, attempt_id_of, StoreError, invalid_transition, Engine, autocommit,
  update_task, update_attempt, owns,
}
use secondhand.Store.Statements.{meets-true}
use secondhand.Store.Lifecycle.{in_lifecycle, open_and_owner}
use secondhand.Store.Facts.{
  task_fact, attempt_fact, mark_attempt_running, clear_task_repair, now_running,
}
use secondhand.Store.Teardown.{
  settled_or, set_attempt_teardown_decision, set_resource_state,
  set_attempt_teardown_resource_state, set_attempt_teardown_completion_state, Resource, herdr_pane,
  worktree_lease, unknown_resource, with_resource_state, resource_state, is_resource_state,
  resource_may_move, resource_named, completion_pending, completion_appended, decided,
}
use secondhand.Store.Ownership.Step.{staying, advancing, stay, advance}
use secondhand.Store.Refinement.Rows.{
  IsConsistent, Refines, Refines-refl, Does, Leaves, Changes, answered-Leaves, settled_or-Leaves,
  update_task-Changes, update_attempt-Changes, task-modified, attempt-modified, in_lifecycle-view,
  open_and_owner-view,
}
use secondhand.Store.Refinement.Single.{and-true_left, and-true_right}

-- A fact is recorded, and no step is made.
abbrev pub Stays : Tables → Tables → Type 0
Stays = Does (λ l. l ≡ staying)

-- A change of a task that its lifecycle and its owner do not notice.
pub record IsTaskFact (f : Task → Task) : Type 0 where
  pub same_id : (t : Task) → (f t).id ≡ t.id
  pub same_lifecycle : (t : Task) → (f t).lifecycle ≡ t.lifecycle
  pub same_active : (t : Task) → (f t).active_attempt_id ≡ t.active_attempt_id

pub record IsAttemptFact (f : Attempt → Attempt) : Type 0 where
  pub same_id : (a : Attempt) → (f a).id ≡ a.id
  pub same_task : (a : Attempt) → (f a).task_id ≡ a.task_id
  pub same_lifecycle : (a : Attempt) → (f a).lifecycle ≡ a.lifecycle

module _ (e : Engine) (s : Tables) (c : IsConsistent s) where
  task_update-Refines :
      (k : String) (p : Task → Bool) (f : Task → Task)
      → IsTaskFact f
      → Changes (Stays s) s (autocommit e (update_task k p f) s)
  task_update-Refines k p f fact = update_task-Changes (Stays s) s e k p f λ t there q. (
    staying,
    refl,
    record {
      step =
          stay
            (λ j. ground (
              arith,
              task-modified k f t s.tasks fact.same_id there j,
              there,
              eq_iff k j,
              fact.same_lifecycle t,
              fact.same_active t,
            ))
            (λ j. refl);
      tasks_keyed = IsKeyed-modify task_id_of k f s.tasks fact.same_id c.tasks_keyed;
      attempts_keyed = c.attempts_keyed;
    },
  )

  pub task_fact-Refines :
      (k : String) (p : Task → Bool) (f : Task → Task)
      → IsTaskFact f
      → Leaves (Stays s) s (task_fact e k p f s)
  unfolding task_fact
  task_fact-Refines k p f fact = answered-Leaves (Stays s) s _ _ (task_update-Refines k p f fact)

  attempt_update-Refines :
      (i : ℕ) (p : Attempt → Bool) (f : Attempt → Attempt)
      → IsAttemptFact f
      → Changes (Stays s) s (autocommit e (update_attempt i p f) s)
  attempt_update-Refines i p f fact = update_attempt-Changes (Stays s) s e i p f λ a there q. (
    staying,
    refl,
    record {
      step =
          stay (λ j. refl)
            (λ j. ground (
              arith,
              attempt-modified i f a s.attempts fact.same_id there j,
              there,
              nat_beq_iff i j,
              fact.same_lifecycle a,
              fact.same_task a,
            ));
      tasks_keyed = c.tasks_keyed;
      attempts_keyed = IsKeyed-modify attempt_id_of i f s.attempts fact.same_id c.attempts_keyed;
    },
  )

  pub attempt_fact-Refines :
      (k : String) (i : ℕ) (l : AttemptLifecycle) (p : Attempt → Bool) (f : Attempt → Attempt)
      → IsAttemptFact f
      → Leaves (Stays s) s (attempt_fact e k i l p f s)
  unfolding attempt_fact
  attempt_fact-Refines k i l p f fact =
      answered-Leaves (Stays s) s _ _ (attempt_update-Refines i _ f fact)

  pub clear_task_repair-Refines :
      (k code : String) (later : Tables) → Leaves (Stays s) s (clear_task_repair e k code later s)
  unfolding clear_task_repair
  clear_task_repair-Refines k code later = answered-Leaves (Stays s) s _ _ (
      task_update-Refines k _ _
        (record { same_id = λ t. refl; same_lifecycle = λ t. refl; same_active = λ t. refl }))

  -- The owned attempt runs.
  running-Refines :
      (k : String) (i : ℕ) (a : Attempt)
      → get attempt_id_of i s.attempts ≡ some a
      → (in_lifecycle k provisioning a && not (a.launch_confirmed_at == "") && owns k i s) ≡ true
      → Refines
          (advancing k i running)
          s
          (record s { attempts = modify attempt_id_of i now_running s.attempts })
  running-Refines k i a there fits =
      let (own, fresh) =
        in_lifecycle-view k provisioning a (
          and-true_left _ (not (a.launch_confirmed_at == ""))
            (and-true_left _ (owns k i s) fits)) in
      let (t, there_t, owner) = meets-true (open_and_owner i) (get task_id_of k s.tasks) (
        and-true_right (in_lifecycle k provisioning a && not (a.launch_confirmed_at == "")) _
          fits) in
      let (is_open, names) = open_and_owner-view i t owner in
      record {
        step =
            advance k i provisioning running (rw there_t (rw is_open (rw names)))
              (rw there (rw own (rw fresh))) refl (λ j. refl)
              (λ j. rw (← own) (attempt-modified i now_running a s.attempts (λ r. refl) there j));
        tasks_keyed = c.tasks_keyed;
        attempts_keyed =
            IsKeyed-modify attempt_id_of i now_running s.attempts (λ r. refl) c.attempts_keyed;
      }

  pub mark_attempt_running-Refines :
      (k : String) (i : ℕ) (later : Tables)
      → Leaves (Does (λ l. l ≡ advancing k i running) s) s (mark_attempt_running e k i later s)
  unfolding mark_attempt_running
  mark_attempt_running-Refines k i later =
      answered-Leaves (Does (λ l. l ≡ advancing k i running) s) s _ _ (
        update_attempt-Changes (Does (λ l. l ≡ advancing k i running) s) s e i _ now_running
          (λ a there fits. (advancing k i running, refl, running-Refines k i a there fits)))

  resource-IsAttemptFact : (r : Resource) (x : String) → IsAttemptFact (with_resource_state r x)
  resource-IsAttemptFact herdr_pane x = record {
    same_id = λ a. refl;
    same_task = λ a. refl;
    same_lifecycle = λ a. refl;
  }
  resource-IsAttemptFact worktree_lease x = record {
    same_id = λ a. refl;
    same_task = λ a. refl;
    same_lifecycle = λ a. refl;
  }
  resource-IsAttemptFact unknown_resource x = record {
    same_id = λ a. refl;
    same_task = λ a. refl;
    same_lifecycle = λ a. refl;
  }

  pub set_attempt_teardown_decision-Refines :
      (k : String) (i : ℕ) (to : AttemptLifecycle) (disposition : String) (later : Tables)
      → Leaves (Stays s) s (set_attempt_teardown_decision e k i to disposition later s)
  unfolding set_attempt_teardown_decision
  set_attempt_teardown_decision-Refines k i to disposition later =
      elim (Bool-cases (not (is_attempt to completed) && not (is_attempt to interrupted))) [
        | inl refused ↦ rw refused refl
        | inr allowed ↦ rw allowed (
            settled_or-Leaves (Stays s) s _ _ (staying, refl, Refines-refl s c)
              (attempt_update-Refines i _ (decided to disposition) (record {
                same_id = λ a. refl;
                same_task = λ a. refl;
                same_lifecycle = λ a. refl;
              })))
      ]

  known-Refines :
      (k : String) (i : ℕ) (l : AttemptLifecycle) (r : Resource) (next : String)
      (q : Result StoreError Unit) (b : Bool)
      → Leaves (Stays s) s (
          if b
          then (err invalid_transition, s)
          else settled_or q (
              autocommit e
                (update_attempt i
                  (λ a. in_lifecycle k l a && resource_may_move (resource_state r a) next)
                  (with_resource_state r next))
                s))
  known-Refines k i l r next q true = refl
  known-Refines k i l r next q false =
      settled_or-Leaves (Stays s) s _ _ (staying, refl, Refines-refl s c)
        (attempt_update-Refines i _ (with_resource_state r next) (resource-IsAttemptFact r next))

  set_resource_state-Refines :
      (k : String) (i : ℕ) (l : AttemptLifecycle) (r : Resource) (next : String) (later : Tables)
      → Leaves (Stays s) s (set_resource_state e k i l r next later s)
  unfolding set_attempt_teardown_resource_state
  set_resource_state-Refines k i l unknown_resource next later = refl
  set_resource_state-Refines k i l herdr_pane next later =
      known-Refines k i l herdr_pane next _ (not (is_resource_state next))
  set_resource_state-Refines k i l worktree_lease next later =
      known-Refines k i l worktree_lease next _ (not (is_resource_state next))

  pub set_attempt_teardown_resource_state-Refines :
      (k : String) (i : ℕ) (l : AttemptLifecycle) (resource next : String) (later : Tables)
      → Leaves (Stays s) s (set_attempt_teardown_resource_state e k i l resource next later s)
  unfolding set_attempt_teardown_resource_state
  set_attempt_teardown_resource_state-Refines k i l resource next later =
      set_resource_state-Refines k i l (resource_named resource) next later

  pub set_attempt_teardown_completion_state-Refines :
      (k : String) (i : ℕ) (l : AttemptLifecycle) (next : String) (later : Tables)
      → Leaves (Stays s) s (set_attempt_teardown_completion_state e k i l next later s)
  unfolding set_attempt_teardown_completion_state
  set_attempt_teardown_completion_state-Refines k i l next later =
      elim (Bool-cases (not (next == completion_pending) && not (next == completion_appended))) [
        | inl refused ↦ rw refused refl
        | inr allowed ↦ rw allowed (
            settled_or-Leaves (Stays s) s _ _ (staying, refl, Refines-refl s c)
              (attempt_update-Refines i _ _ (record {
                same_id = λ a. refl;
                same_task = λ a. refl;
                same_lifecycle = λ a. refl;
              })))
      ]

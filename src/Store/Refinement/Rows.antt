-- ===== src/Store/Refinement/Rows.antt =====
-- What the changes of rows look like in the view, and the parts of a refinement.
use secondhand.Base.{
  Bool, false, Result, ok, err, ℕ, String, ◌≡◌, refl, true, List, [], ◌∷◌, ◌++◌, Option, none, some,
  arith, if◌then◌else◌, ◌==◌, nat_eq, string_eq, eq_iff, nat_beq_iff, nat_beq, Bool-cases, inl, inr,
}
use secondhand.Store.Types.{Task, Attempt, AttemptLifecycle, is_task-eq, is_attempt-eq, open_}
use secondhand.Store.Table.{get, or_else, modify, IsKeyed, get-modify, get-insert}
use secondhand.Store.Tables.{
  Tables, task_id_of, attempt_id_of, StoreError, Outcome, fine, busy, broken, Engine, Tx, meets,
  commit_as, begin_as, transact, autocommit, update_task, update_attempt,
}
use secondhand.Store.Statements.{meets-true}
use secondhand.Store.Teardown.{settled_or}
use secondhand.Store.Lifecycle.{open_and_owner, in_lifecycle, answered}
use secondhand.Store.Ownership.Step.{Label, staying, Step, stay, view, task_view, attempt_view}
use secondhand.Store.Ownership.Invariant.{IsOwned, Step-IsOwned}

-- A database that the lifecycle methods keep: keys are unique, and ownership is in order.
pub record IsConsistent (s : Tables) : Type 0 where
  pub tasks_keyed : IsKeyed task_id_of s.tasks
  pub attempts_keyed : IsKeyed attempt_id_of s.attempts
  pub owned : IsOwned (view s)

-- A new state that is the step `l` from the old one.
pub record Refines (l : Label) (s s' : Tables) : Type 0 where
  pub step : Step (view s) (view s') l
  pub tasks_keyed : IsKeyed task_id_of s'.tasks
  pub attempts_keyed : IsKeyed attempt_id_of s'.attempts

pub Refines-refl : (s : Tables) → IsConsistent s → Refines staying s s
Refines-refl s c = record {
  step = stay (λ j. refl) (λ j. refl);
  tasks_keyed = c.tasks_keyed;
  attempts_keyed = c.attempts_keyed;
}

pub Refines-IsConsistent :
    {l : Label} {s s' : Tables} → Refines l s s' → IsConsistent s → IsConsistent s'
Refines-IsConsistent r c = record {
  tasks_keyed = r.tasks_keyed;
  attempts_keyed = r.attempts_keyed;
  owned = Step-IsOwned r.step c.owned;
}

-- A new state that is one of the steps from the old one.
abbrev pub Does : (Label → Type 0) → Tables → Tables → Type 0
Does L s s' = (l : Label) × L l × Refines l s s'

-- What a method leaves: the old state where it fails.
abbrev pub Leaves :
    {A : Type 0} → (Tables → Type 0) → Tables → Result StoreError A × Tables → Type 0
Leaves P s (err x, s') = s' ≡ s
Leaves P s (ok a, s') = P s'

-- The same of a statement that says whether it changed a row.
abbrev pub Changes : (Tables → Type 0) → Tables → Result StoreError Bool × Tables → Type 0
Changes P s (err x, s') = s' ≡ s
Changes P s (ok true, s') = P s'
Changes P s (ok false, s') = s' ≡ s

module _ (P : Tables → Type 0) (s : Tables) where
  pub answered-Leaves :
      (x : StoreError) (r : Result StoreError Bool × Tables)
      → Changes P s r
      → Leaves P s (answered x r)
  answered-Leaves x (ok true, s') h = h
  answered-Leaves x (ok false, s') h = h
  answered-Leaves x (err y, s') h = h

  pub settled_or-Leaves :
      (q : Result StoreError Unit) (r : Result StoreError Bool × Tables)
      → P s
      → Changes P s r
      → Leaves P s (settled_or q r)
  settled_or-Leaves q (ok true, s') here h = h
  settled_or-Leaves (ok u) (ok false, s') here h = rw h here
  settled_or-Leaves (err x) (ok false, s') here h = h
  settled_or-Leaves q (err y, s') here h = h

  commit_as-Changes :
      (o : Outcome) (b : Bool) (s' : Tables)
      → (b ≡ true → P s')
      → Changes P s (commit_as o s (if b then ok (true, s') else ok (false, s)))
  commit_as-Changes fine true s' h = h refl
  commit_as-Changes fine false s' h = refl
  commit_as-Changes busy true s' h = refl
  commit_as-Changes busy false s' h = refl
  commit_as-Changes broken true s' h = refl
  commit_as-Changes broken false s' h = refl

  -- A statement on a row of the tasks, and one on a row of the attempts.
  pub update_task-Changes :
      (e : Engine) (k : String) (p : Task → Bool) (f : Task → Task)
      → ((t : Task)
          → get task_id_of k s.tasks ≡ some t
          → p t ≡ true
          → P (record s { tasks = modify task_id_of k f s.tasks }))
      → Changes P s (autocommit e (update_task k p f) s)
  unfolding autocommit update_task
  update_task-Changes e k p f done =
      commit_as-Changes e.exec (meets p (get task_id_of k s.tasks)) _
        (λ b. let (t, there, pt) = meets-true p _ b in done t there pt)

  pub update_attempt-Changes :
      (e : Engine) (i : ℕ) (p : Attempt → Bool) (f : Attempt → Attempt)
      → ((a : Attempt)
          → get attempt_id_of i s.attempts ≡ some a
          → p a ≡ true
          → P (record s { attempts = modify attempt_id_of i f s.attempts }))
      → Changes P s (autocommit e (update_attempt i p f) s)
  unfolding autocommit update_attempt
  update_attempt-Changes e i p f done =
      commit_as-Changes e.exec (meets p (get attempt_id_of i s.attempts)) _
        (λ b. let (a, there, pa) = meets-true p _ b in done a there pa)

  pub commit_as-Leaves :
      {A : Type 0} (o : Outcome) (m : Result StoreError (A × Tables))
      → ((a : A) (s' : Tables) → m ≡ ok (a, s') → P s')
      → Leaves P s (commit_as o s m)
  commit_as-Leaves o (err x) k = refl
  commit_as-Leaves fine (ok (a, s')) k = k a s' refl
  commit_as-Leaves busy (ok (a, s')) k = refl
  commit_as-Leaves broken (ok (a, s')) k = refl

  begin_as-Leaves :
      {A : Type 0} (o c : Outcome) (body : Tx A)
      → ((a : A) (s' : Tables) → body s ≡ ok (a, s') → P s')
      → Leaves P s (begin_as o c body s)
  begin_as-Leaves fine c body k = commit_as-Leaves c (body s) k
  begin_as-Leaves busy c body k = refl
  begin_as-Leaves broken c body k = refl

  pub transact-Leaves :
      {A : Type 0} (e : Engine) (body : Tx A)
      → ((a : A) (s' : Tables) → body s ≡ ok (a, s') → P s')
      → Leaves P s (transact e body s)
  unfolding transact
  transact-Leaves e body k = begin_as-Leaves e.begin e.commit body k

pub task-modified :
    (k : String) (f : Task → Task) (t : Task) (rows : List Task)
    → ((r : Task) → task_id_of (f r) ≡ task_id_of r)
    → get task_id_of k rows ≡ some t
    → (j : String)
    → task_view (get task_id_of j (modify task_id_of k f rows)) ≡ (
        if k == j
        then some ((f t).lifecycle, (f t).active_attempt_id)
        else task_view (get task_id_of j rows))
task-modified k f t rows same there j =
    rw (get-modify task_id_of k j f rows same) (elim (Bool-cases (k == j)) [
      | inl e ↦ rw e (rw (← (eq_iff k j).0 e) (rw there))
      | inr e ↦ rw e
    ])

pub attempt-modified :
    (k : ℕ) (f : Attempt → Attempt) (a : Attempt) (rows : List Attempt)
    → ((r : Attempt) → attempt_id_of (f r) ≡ attempt_id_of r)
    → get attempt_id_of k rows ≡ some a
    → (j : ℕ)
    → attempt_view (get attempt_id_of j (modify attempt_id_of k f rows)) ≡ (
        if k == j
        then some ((f a).task_id, (f a).lifecycle)
        else attempt_view (get attempt_id_of j rows))
attempt-modified k f a rows same there j =
    rw (get-modify attempt_id_of k j f rows same) (elim (Bool-cases (nat_beq k j)) [
      | inl e ↦ rw e (rw (← (nat_beq_iff k j).0 e) (rw there))
      | inr e ↦ rw e
    ])

or_else-none {ℓ} : {R : Type ℓ} (o : Option R) → or_else o none ≡ o
or_else-none none = refl
or_else-none (some r) = refl

pub task-inserted :
    (b : Task) (rows : List Task)
    → get task_id_of b.id rows ≡ none
    → (j : String)
    → task_view (get task_id_of j (rows ++ (b ∷ []))) ≡ (
        if b.id == j
        then some (b.lifecycle, b.active_attempt_id)
        else task_view (get task_id_of j rows))
task-inserted b rows new j = rw (get-insert task_id_of j b rows) (elim (Bool-cases (b.id == j)) [
  | inl e ↦ rw e (rw (← (eq_iff b.id j).0 e) (rw new))
  | inr e ↦ rw (e, or_else-none (get task_id_of j rows))
])

pub attempt-inserted :
    (b : Attempt) (rows : List Attempt)
    → get attempt_id_of b.id rows ≡ none
    → (j : ℕ)
    → attempt_view (get attempt_id_of j (rows ++ (b ∷ []))) ≡ (
        if b.id == j
        then some (b.task_id, b.lifecycle)
        else attempt_view (get attempt_id_of j rows))
attempt-inserted b rows new j =
    rw (get-insert attempt_id_of j b rows) (elim (Bool-cases (nat_beq b.id j)) [
      | inl e ↦ rw e (rw (← (nat_beq_iff b.id j).0 e) (rw new))
      | inr e ↦ rw (e, or_else-none (get attempt_id_of j rows))
    ])

pub open_and_owner-view :
    (i : ℕ) (t : Task)
    → open_and_owner i t ≡ true
    → (t.lifecycle ≡ open_) × (t.active_attempt_id ≡ some i)
open_and_owner-view i t h = ground (arith, is_task-eq t.lifecycle open_)

pub in_lifecycle-view :
    (k : String) (l : AttemptLifecycle) (a : Attempt)
    → in_lifecycle k l a ≡ true
    → (a.task_id ≡ k) × (a.lifecycle ≡ l)
in_lifecycle-view k l a h = ground (arith, eq_iff a.task_id k, is_attempt-eq a.lifecycle l)

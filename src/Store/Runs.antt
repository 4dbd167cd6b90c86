-- ===== src/Store/Runs.antt =====
-- Sequences of the calls of Store/Commands.antt.
use secondhand.Base.{
  ℕ, String, ◌≡◌, refl, true, List, [], ◌∷◌, Option, none, some, arith, nat_eq, string_eq, eq_iff,
}
use secondhand.Store.Types.{Task, Attempt, open_, is_active_attempt}
use secondhand.Store.Table.{get}
use secondhand.Store.Tables.{Tables, StoreError, empty_tables, attempt_id_of, task_id_of, Engine}
use secondhand.Store.Commands.{Command, call, execute, run}
use secondhand.Store.Ownership.Step.{view, attempt_view, Step, Label}
use secondhand.Store.Ownership.Invariant.{backs, IsOwned-one_active}
use secondhand.Store.Refinement.Rows.{IsConsistent, Refines-IsConsistent, Does}
use secondhand.Store.Refinement.Calls.{Promises, Follows, call-Refines}

Follows-IsConsistent :
    (L : Label → Type 0) (s : Tables) (r : Option StoreError × Tables)
    → IsConsistent s
    → Follows (λ s'. Does L s s') s r
    → IsConsistent r.1
Follows-IsConsistent L s (none, s') c (l, promised, r) = Refines-IsConsistent r c
Follows-IsConsistent L s (some x, s') c h = rw h c

pub execute-IsConsistent :
    (e : Engine) (x : Command) (s : Tables) → IsConsistent s → IsConsistent (execute e x s)
unfolding execute
execute-IsConsistent e x s c =
    Follows-IsConsistent (Promises x) s (call e x s) c (call-Refines e x s c)

-- A database without rows is in order.
pub empty-IsConsistent : IsConsistent empty_tables
unfolding get
empty-IsConsistent = record {
  tasks_keyed = tt;
  attempts_keyed = tt;
  owned = record {
    owned = λ i k l e a. ground arith;
    names_open = λ k i l e. ground arith;
    backed = λ k i l e. ground arith;
    has_task = λ i k l e. ground arith;
  };
}

-- From any database that is in order, whatever calls are made with whatever arguments and however the
-- engine answers, the database stays in order: keys are unique, every active attempt is the one that
-- its task names and that task is open, and a task that names an attempt names an active one of its
-- own.
pub run-IsConsistent :
    (calls : List (Engine × Command)) (s : Tables) → IsConsistent s → IsConsistent (run calls s)
unfolding run
run-IsConsistent [] s c = c
run-IsConsistent ((e, x) ∷ calls) s c =
    run-IsConsistent calls (execute e x s) (execute-IsConsistent e x s c)

-- The one step between two databases that a call makes.
abbrev pub Steps : Command → Tables → Tables → Type 0
Steps x s s' = (l : Label) × Promises x l × Step (view s) (view s') l

-- Each call of a sequence, from the database that the ones before it leave.
abbrev pub AllFollow : List (Engine × Command) → Tables → Type 0
AllFollow [] s = Unit
AllFollow ((e, x) ∷ calls) s = Follows (Steps x s) s (call e x s) × AllFollow calls (execute e x s)

Follows-Steps :
    (x : Command) (s : Tables) (r : Option StoreError × Tables)
    → Follows (λ s'. Does (Promises x) s s') s r
    → Follows (Steps x s) s r
Follows-Steps x s (none, s') (l, promised, r) = (l, promised, r.step)
Follows-Steps x s (some y, s') h = h

-- The calls implement the abstract machine of tasks and owners: from a database in order, in any
-- sequence of calls with any arguments and answers of the engine, each call that fails leaves the
-- database as it was, and each that succeeds makes exactly the step that it promises, at the task and
-- the attempt that it names: creating, reopening and promoting bring a new attempt in, a transition
-- moves the attempt on or ends it and frees its task, a task ends only idle or with its attempt, a
-- deletion takes the task with its attempts, and recording a fact leaves all ownership alone.
-- `SetActiveAttempt` never succeeds.
pub run-AllFollow :
    (calls : List (Engine × Command)) (s : Tables) → IsConsistent s → AllFollow calls s
run-AllFollow [] s c = tt
run-AllFollow ((e, x) ∷ calls) s c = (
  Follows-Steps x s (call e x s) (call-Refines e x s c),
  run-AllFollow calls (execute e x s) (execute-IsConsistent e x s c),
)

-- After any calls on an empty database, two active attempts of one task are one attempt: a task never
-- has two workers.
pub run-one_active :
    (calls : List (Engine × Command)) (i j : ℕ) (a b : Attempt)
    → get attempt_id_of i (run calls empty_tables).attempts ≡ some a
    → get attempt_id_of j (run calls empty_tables).attempts ≡ some b
    → a.task_id ≡ b.task_id
    → is_active_attempt a.lifecycle ≡ true
    → is_active_attempt b.lifecycle ≡ true
    → i ≡ j
run-one_active calls i j a b there_a there_b same la lb =
    IsOwned-one_active i j a.task_id a.lifecycle b.lifecycle
      (run-IsConsistent calls empty_tables empty-IsConsistent).owned (rw there_a)
      (rw (there_b, same)) la lb

-- After any calls on an empty database, a task that names an active attempt is open, and the attempt
-- is in the table, is its own, and is provisioning or running.
pub run-owner_active :
    (calls : List (Engine × Command)) (k : String) (i : ℕ) (t : Task)
    → get task_id_of k (run calls empty_tables).tasks ≡ some t
    → t.active_attempt_id ≡ some i
    → (t.lifecycle ≡ open_)
      × ((a : Attempt) × (get attempt_id_of i (run calls empty_tables).attempts ≡ some a)
          × (a.task_id ≡ k)
          × (is_active_attempt a.lifecycle ≡ true))
run-owner_active calls k i t there names =
    let c = (run-IsConsistent calls empty_tables empty-IsConsistent).owned in
    (
      c.names_open k i t.lifecycle (rw there (rw names)),
      backs-row k _ (c.backed k i t.lifecycle (rw there (rw names))),
    )
  where
    backs-row :
        (k : String) (o : Option Attempt)
        → backs k (attempt_view o) ≡ true
        → (a : Attempt) × (o ≡ some a) × (a.task_id ≡ k) × (is_active_attempt a.lifecycle ≡ true)
    backs-row k none h = absurd (ground arith)
    backs-row k (some a) h = (a, refl, ground (arith, eq_iff a.task_id k), ground arith)

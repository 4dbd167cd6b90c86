-- ===== src/Store/Statements.antt =====
-- What a statement of Tables.antt has found and done, where the rest of its transaction went on.
use secondhand.Base.{
  ℕ, max, String, ◌≡◌, refl, Bool, true, false, [], ◌∷◌, ◌++◌, Option, none, some, arith,
  if◌then◌else◌, nat_eq, string_eq, Result, ok, err, subst, ap,
}
use secondhand.Store.Types.{Task, Attempt, AttemptLifecycle, is_attempt, provisioning}
use secondhand.Store.Table.{get, modify}
use secondhand.Store.Tables.{
  Tables, task_id_of, attempt_id_of, StoreError, constraint_failed, Engine, fine, busy, broken,
  Outcome, Tx, ◌>>=◌, ◌>>◌, pure, require, transact, autocommit, commit_as, begin_as, meets,
  update_task, update_attempt, insert_attempt, insert_task, task_fits, on_constraint, constraint_as,
  attempt_fits, prepared,
}

pub meets-true {ℓ} :
    {R : Type ℓ} (p : R → Bool) (o : Option R)
    → meets p o ≡ true
    → (r : R) × (o ≡ some r) × (p r ≡ true)
meets-true p none h = cc
meets-true p (some r) h = (r, refl, h)

abbrev pub changing : Bool → Tables → Tables → Result StoreError (Bool × Tables)
changing b s' s = if b then ok (true, s') else ok (false, s)

-- The state behind an insertion.
abbrev pub inserted : Attempt → Tables → Tables
inserted b s = record s { attempts = s.attempts ++ (b ∷ []); attempt_seq = max s.attempt_seq b.id }

abbrev inserting : Bool → Attempt → Tables → Result StoreError (Attempt × Tables)
inserting b a s' = if b then ok (a, s') else err constraint_failed

abbrev renamed :
    {B : Type 0} → StoreError → Result StoreError (B × Tables) → Result StoreError (B × Tables)
renamed y (ok r) = ok r
renamed y (err x) = err (constraint_as y x)

module _ {A : Type 0} where
  abbrev pub going_on :
      (Bool → Tx A) → Result StoreError (Bool × Tables) → Result StoreError (A × Tables)
  going_on f (ok (a, s)) = f a s
  going_on f (err x) = err x

  pub changing-eq_ok :
      (b : Bool) (s' s : Tables) (x : StoreError) (rest : Tx A) {r : A × Tables}
      → going_on (λ n. require n x >> rest) (changing b s' s) ≡ ok r
      → (b ≡ true) × (rest s' ≡ ok r)
  changing-eq_ok true s' s x rest h = (refl, h)
  changing-eq_ok false s' s x rest h = cc

  pub require-eq_ok :
      (b : Bool) (x : StoreError) (k : Tx A) (s : Tables) {r : A × Tables}
      → (require b x >> k) s ≡ ok r
      → (b ≡ true) × (k s ≡ ok r)
  require-eq_ok true x k s h = (refl, h)
  require-eq_ok false x k s h = cc

  -- `UPDATE task … WHERE id = k AND p`, which has to change a row.
  pub update_task-eq_ok :
      (k : String) (p : Task → Bool) (f : Task → Task) (x : StoreError) (rest : Tx A) (s : Tables)
      {r : A × Tables}
      → (update_task k p f >>= λ n. require n x >> rest) s ≡ ok r
      → (meets p (get task_id_of k s.tasks) ≡ true)
        × (rest (record s { tasks = modify task_id_of k f s.tasks }) ≡ ok r)
  unfolding update_task
  update_task-eq_ok k p f x rest s h =
      changing-eq_ok (meets p (get task_id_of k s.tasks))
        (record s { tasks = modify task_id_of k f s.tasks }) s x rest h

  pub update_attempt-eq_ok :
      (i : ℕ) (p : Attempt → Bool) (f : Attempt → Attempt) (x : StoreError) (rest : Tx A)
      (s : Tables) {r : A × Tables}
      → (update_attempt i p f >>= λ n. require n x >> rest) s ≡ ok r
      → (meets p (get attempt_id_of i s.attempts) ≡ true)
        × (rest (record s { attempts = modify attempt_id_of i f s.attempts }) ≡ ok r)
  unfolding update_attempt
  update_attempt-eq_ok i p f x rest s h =
      changing-eq_ok (meets p (get attempt_id_of i s.attempts))
        (record s { attempts = modify attempt_id_of i f s.attempts }) s x rest h

  abbrev inserting_then :
      (Attempt → Tx A) → Result StoreError (Attempt × Tables) → Result StoreError (A × Tables)
  inserting_then f (ok (a, s)) = f a s
  inserting_then f (err x) = err x

  inserting-eq_ok :
      (b : Bool) (a : Attempt) (s' : Tables) (rest : Attempt → Tx A) {r : A × Tables}
      → inserting_then rest (inserting b a s') ≡ ok r
      → (b ≡ true) × (rest a s' ≡ ok r)
  inserting-eq_ok true a s' rest h = (refl, h)
  inserting-eq_ok false a s' rest h = cc

  pub insert_attempt-eq_ok :
      (a : Attempt) (rest : Attempt → Tx A) (s : Tables) {r : A × Tables}
      → (insert_attempt a >>= rest) s ≡ ok r
      → (attempt_fits (prepared a s) s ≡ true)
        × (rest (prepared a s) (inserted (prepared a s) s) ≡ ok r)
  unfolding insert_attempt
  insert_attempt-eq_ok a rest s h =
      inserting-eq_ok (attempt_fits (prepared a s) s) (prepared a s) (inserted (prepared a s) s)
        rest h

module _ {A B : Type 0} where
  abbrev bound : (B → Tx A) → Result StoreError (B × Tables) → Result StoreError (A × Tables)
  bound f (ok (b, s)) = f b s
  bound f (err x) = err x

  renamed-eq_ok :
      (y : StoreError) (m : Result StoreError (B × Tables)) (rest : B → Tx A) {r : A × Tables}
      → bound rest (renamed y m) ≡ ok r
      → bound rest m ≡ ok r
  renamed-eq_ok y (ok v) rest h = h
  renamed-eq_ok y (err x) rest h = cc

  pub on_constraint-eq_ok :
      (y : StoreError) (m : Tx B) (rest : B → Tx A) (s : Tables) {r : A × Tables}
      → (on_constraint y m >>= rest) s ≡ ok r
      → (m >>= rest) s ≡ ok r
  on_constraint-eq_ok y m rest s h = renamed-eq_ok y (m s) rest h

abbrev passed : {B : Type 0} → Result StoreError (B × Tables) → Result StoreError (B × Tables)
passed (ok (b, s)) = ok (b, s)
passed (err x) = err x

renamed_last :
    {B : Type 0} (y : StoreError) (m : Result StoreError (B × Tables)) {r : B × Tables}
    → renamed y m ≡ ok r
    → passed m ≡ ok r
renamed_last y (ok v) h = h
renamed_last y (err x) h = cc

pub on_constraint-last :
    {B : Type 0} (y : StoreError) (m : Tx B) (s : Tables) {r : B × Tables}
    → on_constraint y m s ≡ ok r
    → (m >>= pure) s ≡ ok r
on_constraint-last y m s h = renamed_last y (m s) h

-- A transaction leaves the state that it found, or, where it answers, the one of its body.
module _ {A : Type 0} (P : Tables → Type 0) where
  commit_as-keeps :
      (o : Outcome) (s : Tables) (m : Result StoreError (A × Tables))
      → P s
      → ((a : A) (s' : Tables) → m ≡ ok (a, s') → P s')
      → P (commit_as o s m).1
  commit_as-keeps o s (err x) h k = h
  commit_as-keeps fine s (ok (a, s')) h k = k a s' refl
  commit_as-keeps busy s (ok (a, s')) h k = h
  commit_as-keeps broken s (ok (a, s')) h k = h

  pub autocommit-keeps :
      (e : Engine) (body : Tx A) (s : Tables)
      → P s
      → ((a : A) (s' : Tables) → body s ≡ ok (a, s') → P s')
      → P (autocommit e body s).1
  unfolding autocommit
  autocommit-keeps e body s h k = commit_as-keeps e.exec s (body s) h k

  begin_as-keeps :
      (o c : Outcome) (body : Tx A) (s : Tables)
      → P s
      → ((a : A) (s' : Tables) → body s ≡ ok (a, s') → P s')
      → P (begin_as o c body s).1
  begin_as-keeps fine c body s h k = commit_as-keeps c s (body s) h k
  begin_as-keeps busy c body s h k = h
  begin_as-keeps broken c body s h k = h

  pub transact-keeps :
      (e : Engine) (body : Tx A) (s : Tables)
      → P s
      → ((a : A) (s' : Tables) → body s ≡ ok (a, s') → P s')
      → P (transact e body s).1
  unfolding transact
  transact-keeps e body s h k = begin_as-keeps e.begin e.commit body s h k

-- What a row that fits says of the table.
pub attempt_fits-new :
    (b : Attempt) (s : Tables) → attempt_fits b s ≡ true → get attempt_id_of b.id s.attempts ≡ none
unfolding attempt_fits
attempt_fits-new b s h = ground arith

pub task_fits-new :
    (t : Task) (s : Tables) → task_fits t s ≡ true → get task_id_of t.id s.tasks ≡ none
unfolding task_fits
task_fits-new t s h = ground arith

pub prepared-task_id : (a : Attempt) (s : Tables) → (prepared a s).task_id ≡ a.task_id
unfolding prepared
prepared-task_id a s = ground arith

pub prepared-lifecycle :
    (a : Attempt) (s : Tables)
    → (prepared a s).lifecycle
      ≡ (if is_attempt a.lifecycle AttemptLifecycle.unset then provisioning else a.lifecycle)
unfolding prepared
prepared-lifecycle a s = ground arith

module _ {A : Type 0} where
  -- The end of a block.
  pub settled :
      (P : Tables → Type 0) (a b : A) (s s' : Tables)
      → P s
      → ◌≡◌ {A = Result StoreError (A × Tables)} (ok (a, s)) (ok (b, s'))
      → P s'
  settled P a b s s' h e = subst P (state_eq e) h
    where
      state_of : Result StoreError (A × Tables) → Tables
      state_of (ok (x, t)) = t
      state_of (err x) = s

      state_eq : ◌≡◌ {A = Result StoreError (A × Tables)} (ok (a, s)) (ok (b, s')) → s ≡ s'
      state_eq q = ap state_of q

changing_last :
    (b : Bool) (s' s : Tables) (x : StoreError) {r : Unit × Tables}
    → going_on (λ n. require n x) (changing b s' s) ≡ ok r
    → (b ≡ true) × (◌≡◌ {A = Result StoreError (Unit × Tables)} (ok (tt, s')) (ok r))
changing_last true s' s x h = (refl, h)
changing_last false s' s x h = cc

-- `UPDATE task` as the last statement of a block.
pub update_task-last :
    (k : String) (p : Task → Bool) (f : Task → Task) (x : StoreError) (s : Tables)
    {r : Unit × Tables}
    → (update_task k p f >>= λ n. require n x) s ≡ ok r
    → (meets p (get task_id_of k s.tasks) ≡ true)
      × (◌≡◌ {A = Result StoreError (Unit × Tables)}
          (ok (tt, record s { tasks = modify task_id_of k f s.tasks }))
          (ok r))
unfolding update_task
update_task-last k p f x s h =
    changing_last (meets p (get task_id_of k s.tasks))
      (record s { tasks = modify task_id_of k f s.tasks }) s x h

pub prepared-kept :
    (a : Attempt) (s : Tables)
    → is_attempt a.lifecycle AttemptLifecycle.unset ≡ false
    → (prepared a s).lifecycle ≡ a.lifecycle
prepared-kept a s h = rw (prepared-lifecycle a s) (rw h refl)

module _ {A : Type 0} where
  abbrev adding_then : Bool → Tables → Tx A → Result StoreError (A × Tables)
  adding_then b s' rest = bound (λ u. rest) (if b then ok (tt, s') else err constraint_failed)

  adding-eq_ok :
      (b : Bool) (s' : Tables) (rest : Tx A) {r : A × Tables}
      → adding_then b s' rest ≡ ok r
      → (b ≡ true) × (rest s' ≡ ok r)
  adding-eq_ok true s' rest h = (refl, h)
  adding-eq_ok false s' rest h = cc

  pub insert_task-eq_ok :
      (t : Task) (rest : Tx A) (s : Tables) {r : A × Tables}
      → (insert_task t >> rest) s ≡ ok r
      → (get task_id_of t.id s.tasks ≡ none)
        × (rest (record s { tasks = s.tasks ++ (t ∷ []) }) ≡ ok r)
  unfolding insert_task
  insert_task-eq_ok t rest s h =
      let (fits, h₁) =
        adding-eq_ok (task_fits t s) (record s { tasks = s.tasks ++ (t ∷ []) }) rest h in
      (task_fits-new t s fits, h₁)

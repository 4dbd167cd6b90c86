-- ===== src/Store/Ownership/Invariant.antt =====
-- Ownership is exclusive and mutual, and every step keeps it so.
use secondhand.Base.{
  ℕ, String, ◌≡◌, ◌≢◌, refl, Bool, true, false, ◌&&◌, Option, none, some, arith, if◌then◌else◌,
  ◌==◌, nat_eq, string_eq, eq_iff, nat_beq_iff, nat_beq,
}
use secondhand.Store.Types.{
  TaskLifecycle, AttemptLifecycle, open_, terminal, provisioning, completed, is_active_attempt,
}
use secondhand.Store.Ownership.Step.{
  Label, View, TaskSet, AttemptSet, Step, stay, assign, found, keep_record, advance, release,
  retire, reopen, hand_over, delete, without,
}

-- Whether an attempt is one of the task `k`, and active.
abbrev pub backs : String → Option (String × AttemptLifecycle) → Bool
backs k none = false
backs k (some (j, l)) = j == k && is_active_attempt l

pub record IsOwned (v : View) : Type 0 where
  -- an active attempt is the one that its task, which is open, names
  pub owned :
      (i : ℕ) (k : String) (l : AttemptLifecycle)
      → v.attempt i ≡ some (k, l)
      → is_active_attempt l ≡ true
      → v.task k ≡ some (open_, some i)
  -- a task that names an attempt is open
  pub names_open :
      (k : String) (i : ℕ) (l : TaskLifecycle) → v.task k ≡ some (l, some i) → l ≡ open_
  -- and the attempt is one of its own, and active
  pub backed :
      (k : String) (i : ℕ) (l : TaskLifecycle)
      → v.task k ≡ some (l, some i)
      → backs k (v.attempt i) ≡ true
  -- every attempt has its task
  pub has_task :
      (i : ℕ) (k : String) (l : AttemptLifecycle) → v.attempt i ≡ some (k, l) → v.task k ≢ none

-- Two active attempts of one task are one attempt.
pub IsOwned-one_active :
    {v : View} (i j : ℕ) (k : String) (l m : AttemptLifecycle)
    → IsOwned v
    → v.attempt i ≡ some (k, l)
    → v.attempt j ≡ some (k, m)
    → is_active_attempt l ≡ true
    → is_active_attempt m ≡ true
    → i ≡ j
IsOwned-one_active i j k l m h a b la mb = ground (arith, h.owned i k l a la, h.owned j k m b mb)

-- The task `k` and the attempt `i` of it are set together, and agree on whether `k` owns `i`.
record Agrees (v : View) (k : String) (i : ℕ) (t : TaskLifecycle) (o : Option ℕ)
    (m : AttemptLifecycle) : Type 0 where
  only_own : (j : String) → backs j (v.attempt i) ≡ true → j ≡ k
  no_other :
      (n : ℕ) (l : AttemptLifecycle)
      → v.attempt n ≡ some (k, l)
      → is_active_attempt l ≡ true
      → n ≡ i
  owns_active : is_active_attempt m ≡ true → (t ≡ open_) × (o ≡ some i)
  active_owned : (n : ℕ) → o ≡ some n → (n ≡ i) × (t ≡ open_) × (is_active_attempt m ≡ true)

module _ {v w : View} (h : IsOwned v) where
  set-IsOwned :
      (k : String) (i : ℕ) (t : TaskLifecycle) (o : Option ℕ) (m : AttemptLifecycle)
      → Agrees v k i t o m
      → TaskSet v w k (some (t, o))
      → AttemptSet v w i (some (k, m))
      → IsOwned w
  set-IsOwned k i t o m g ts xs = record {
    owned = λ n j l e a. ground (
      arith,
      ts j,
      xs n,
      h.owned n j l,
      eq_iff k j,
      nat_beq_iff i n,
      g.no_other n l,
      g.owns_active,
    );
    names_open = λ j n l e. ground (arith, ts j, h.names_open j n l, eq_iff k j, g.active_owned n);
    backed = λ j n l e. ground (
      arith,
      ts j,
      xs n,
      h.backed j n l,
      eq_iff k j,
      nat_beq_iff i n,
      g.active_owned n,
      g.only_own j,
    );
    has_task = λ n j l e. ground (arith, ts j, xs n, h.has_task n j l, eq_iff k j, nat_beq_iff i n);
  }

-- Nothing but the tasks changes, at one idle task.
idle-IsOwned :
    {v w : View} (k : String) (t : TaskLifecycle)
    → IsOwned v
    → ((n : ℕ) (l : AttemptLifecycle) → v.attempt n ≡ some (k, l) → is_active_attempt l ≡ false)
    → TaskSet v w k (some (t, none))
    → ((j : ℕ) → w.attempt j ≡ v.attempt j)
    → IsOwned w
idle-IsOwned k t h idle ts xs = record {
  owned = λ n j l e a. ground (arith, ts j, xs n, h.owned n j l, eq_iff k j, idle n l);
  names_open = λ j n l e. ground (arith, ts j, h.names_open j n l, eq_iff k j);
  backed = λ j n l e. ground (arith, ts j, xs n, h.backed j n l, eq_iff k j);
  has_task = λ n j l e. ground (arith, ts j, xs n, h.has_task n j l, eq_iff k j);
}

backs-without :
    (j k : String) (x : Option (String × AttemptLifecycle))
    → (k == j) ≡ false
    → backs j (without k x) ≡ backs j x
backs-without j k none h = refl
backs-without j k (some (i, l)) h = ground (arith, eq_iff i k, eq_iff i j, eq_iff k j)

delete-IsOwned :
    {v w : View} (k : String)
    → IsOwned v
    → TaskSet v w k none
    → ((j : ℕ) → w.attempt j ≡ without k (v.attempt j))
    → IsOwned w
delete-IsOwned {v} k h ts xs = record {
  owned = λ n j l e a. ground (arith, ts j, xs n, h.owned n j l, eq_iff k j, eq_iff j k);
  names_open = λ j n l e. ground (arith, ts j, h.names_open j n l, eq_iff k j);
  backed = λ j n l e. ground (arith, ts j, xs n, h.backed j n l, backs-without j k (v.attempt n));
  has_task = λ n j l e. ground (arith, ts j, xs n, h.has_task n j l, eq_iff k j, eq_iff j k);
}

hand_over-IsOwned :
    {v w : View} (k : String) (i n : ℕ) (l : AttemptLifecycle)
    → IsOwned v
    → v.task k ≡ some (open_, some i)
    → v.attempt i ≡ some (k, l)
    → v.attempt n ≡ none
    → TaskSet v w k (some (open_, some n))
    → ((j : ℕ)
        → w.attempt j ≡ (
            if nat_beq n j
            then some (k, provisioning)
            else if nat_beq i j
            then some (k, completed)
            else v.attempt j))
    → IsOwned w
hand_over-IsOwned k i n l h owner old new ts xs = record {
  owned = λ x j m e a.
      ground
        (arith, ts j, xs x, h.owned x j m, eq_iff k j, nat_beq_iff n x, nat_beq_iff i x, owner);
  names_open = λ j x m e. ground (arith, ts j, h.names_open j x m, eq_iff k j);
  backed = λ j x m e. ground (
    arith,
    ts j,
    xs x,
    h.backed j x m,
    eq_iff k j,
    nat_beq_iff n x,
    nat_beq_iff i x,
    old,
    new,
    eq_iff k k,
  );
  has_task = λ x j m e.
      ground (arith, ts j, xs x, h.has_task x j m, eq_iff k j, nat_beq_iff n x, nat_beq_iff i x);
}

-- Every step keeps ownership exclusive and mutual.
pub Step-IsOwned : {v w : View} {l : Label} → Step v w l → IsOwned v → IsOwned w
Step-IsOwned (stay ts xs) h = record {
  owned = λ n j l e a. ground (arith, ts j, xs n, h.owned n j l);
  names_open = λ j n l e. ground (arith, ts j, h.names_open j n l);
  backed = λ j n l e. ground (arith, ts j, xs n, h.backed j n l);
  has_task = λ n j l e. ground (arith, ts j, xs n, h.has_task n j l);
}
Step-IsOwned {v} (assign k i l idle new a ts xs) h =
    set-IsOwned h k i open_ (some i) l
      (record {
        only_own = λ j e. ground (arith, new);
        no_other = λ n m e b. ground (arith, h.owned n k m e b, idle);
        owns_active = λ e. (refl, refl);
        active_owned = λ n e. ground arith;
      })
      ts xs
Step-IsOwned (found k i absent new ts xs) h =
    set-IsOwned h k i open_ (some i) provisioning
      (record {
        only_own = λ j e. ground (arith, new);
        no_other = λ n m e b. absurd (h.has_task n k m e absent);
        owns_active = λ e. (refl, refl);
        active_owned = λ n e. ground arith;
      })
      ts xs
Step-IsOwned {v} {w} (keep_record k i l o there new over ts xs) h = record {
  owned = λ n j m e a. ground (arith, ts j, xs n, h.owned n j m, nat_beq_iff i n);
  names_open = λ j n m e. ground (arith, ts j, h.names_open j n m);
  backed = λ j n m e. ground (arith, ts j, xs n, h.backed j n m, nat_beq_iff i n);
  has_task = λ n j m e. ground (arith, ts j, xs n, h.has_task n j m, nat_beq_iff i n);
}
Step-IsOwned {v} {w} (advance k i l m owner old a ts xs) h =
    set-IsOwned h k i open_ (some i) m
      (record {
        only_own = λ j e. ground (arith, old, eq_iff k j);
        no_other = λ n x e b. ground (arith, h.owned n k x e b, owner);
        owns_active = λ e. (refl, refl);
        active_owned = λ n e. ground arith;
      })
      (λ j. ground (arith, ts j, owner, eq_iff k j)) xs
Step-IsOwned (release k i l m t owner old over ts xs) h =
    set-IsOwned h k i t none m
      (record {
        only_own = λ j e. ground (arith, old, eq_iff k j);
        no_other = λ n x e b. ground (arith, h.owned n k x e b, owner);
        owns_active = λ e. ground arith;
        active_owned = λ n e. ground arith;
      })
      ts xs
Step-IsOwned (retire k idle ts xs) h =
    idle-IsOwned k terminal h (λ n m e. ground (arith, h.owned n k m e, idle)) ts xs
Step-IsOwned (reopen k i o ended new ts xs) h =
    set-IsOwned h k i open_ (some i) provisioning
      (record {
        only_own = λ j e. ground (arith, new);
        no_other = λ n m e b. ground (arith, h.owned n k m e b, ended);
        owns_active = λ e. (refl, refl);
        active_owned = λ n e. ground arith;
      })
      ts xs
Step-IsOwned (hand_over k i n l owner old new ts xs) h =
    hand_over-IsOwned k i n l h owner old new ts xs
Step-IsOwned (delete k x there ts xs) h = delete-IsOwned k h ts xs

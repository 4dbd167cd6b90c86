-- ===== src/Store/Sends/Keeping.antt =====
-- Every operation of Store/Sends.antt keeps one pending send per attempt, and never changes a send
-- that is final.
use secondhand.Base.{
  ℕ, ◌+◌, String, ◌≡◌, refl, Bool, true, false, ◌&&◌, [], ◌∷◌, ◌++◌, Option, none, some, arith,
  if◌then◌else◌, ◌==◌, nat_beq, nat_eq, string_eq, Bool-cases, inl, inr, Result, ok, err,
}
use secondhand.Store.Types.{
  Attempt, SendAttempt, SendState, SendOrigin, Herdr, is_send, pending, uncertain,
}
use secondhand.Store.Table.{get, modify, IsKeyed}
use secondhand.Store.Tables.{
  Tables, send_id_of, task_id_of, attempt_id_of, owned_by, StoreError, constraint_failed,
  send_in_flight, send_ownership_conflict, is_some, require, Outcome, fine, busy, broken, Engine,
  Tx, ◌>>=◌, ◌>>◌, pure, meets,
}
use secondhand.Store.Statements.{
  meets-true, require-eq_ok, on_constraint-last, changing-eq_ok, transact-keeps, autocommit-keeps,
  settled,
}
use secondhand.Store.Lifecycle.{open_and_owner}
use secondhand.Store.Sends.{
  transact_if, begin_if, commit_if, is_pending, has_pending, send_fits, numbered_send, insert_send,
  runs_in, new_send, begin_send_body, begin_send, valid_send_origin, valid_send_terminal_state,
  pending_for, finalized, update_send, finalize_pending, finalize_found, finalize_send,
  normalize_pending, normalize_found, normalize_pending_send, pending_of, normalize_pending_sends,
  import_body, import_legacy_send,
}
use secondhand.Store.Sends.Rows.{
  OnePending, Moves, Moves-refl, insert-Moves, modify-Moves, set_all-Moves,
}

-- The sends of a database that these operations keep.
pub record IsDelivering (s : Tables) : Type 0 where
  pub keyed : IsKeyed send_id_of s.sends
  pub one : OnePending s.sends

abbrev pub Delivers : Tables → Tables → Type 0
Delivers s s' = Moves s.sends s'.sends

module _ {A : Type 0} (P : Tables → Type 0) where
  commit_if-keeps :
      (o : Outcome) (s : Tables) (m : Result StoreError ((Bool × A) × Tables))
      → P s
      → ((a : A) (s' : Tables) → m ≡ ok ((true, a), s') → P s')
      → P (commit_if o s m).1
  commit_if-keeps o s (err x) h k = h
  commit_if-keeps o s (ok ((false, a), s')) h k = h
  commit_if-keeps fine s (ok ((true, a), s')) h k = k a s' refl
  commit_if-keeps busy s (ok ((true, a), s')) h k = h
  commit_if-keeps broken s (ok ((true, a), s')) h k = h

  begin_if-keeps :
      (o c : Outcome) (body : Tx (Bool × A)) (s : Tables)
      → P s
      → ((a : A) (s' : Tables) → body s ≡ ok ((true, a), s') → P s')
      → P (begin_if o c body s).1
  begin_if-keeps fine c body s h k = commit_if-keeps c s (body s) h k
  begin_if-keeps busy c body s h k = h
  begin_if-keeps broken c body s h k = h

  transact_if-keeps :
      (e : Engine) (body : Tx (Bool × A)) (s : Tables)
      → P s
      → ((a : A) (s' : Tables) → body s ≡ ok ((true, a), s') → P s')
      → P (transact_if e body s).1
  unfolding transact_if
  transact_if-keeps e body s h k = begin_if-keeps e.begin e.commit body s h k

abbrev adding : Bool → SendAttempt → Tables → Result StoreError (SendAttempt × Tables)
adding b x s = if b then ok (x, s) else err constraint_failed

module _ {A : Type 0} where
  abbrev adding_then :
      (SendAttempt → Tx A)
      → Result StoreError (SendAttempt × Tables)
      → Result StoreError (A × Tables)
  adding_then f (ok (x, s)) = f x s
  adding_then f (err z) = err z

  adding-eq_ok :
      (rest : SendAttempt → Tx A) (b : Bool) (x : SendAttempt) (s' : Tables) {r : A × Tables}
      → adding_then rest (adding b x s') ≡ ok r
      → (b ≡ true) × (rest x s' ≡ ok r)
  adding-eq_ok rest true x s' h = (refl, h)
  adding-eq_ok rest false x s' h = cc

  insert_send-eq_ok :
      (rest : SendAttempt → Tx A) (x : SendAttempt) (s : Tables) {r : A × Tables}
      → (insert_send x >>= rest) s ≡ ok r
      → (send_fits (numbered_send x s) s ≡ true)
        × (rest
              (numbered_send x s)
              (record s { sends = s.sends ++ (numbered_send x s ∷ []); send_seq = s.send_seq + 1 })
            ≡ ok r)
  unfolding insert_send
  insert_send-eq_ok rest x s h =
      adding-eq_ok rest (send_fits (numbered_send x s) s) (numbered_send x s) _ h

send_fits-new :
    (x : SendAttempt) (s : Tables)
    → send_fits x s ≡ true
    → (get send_id_of x.id s.sends ≡ none)
      × ((is_pending x && has_pending x.attempt_id s.sends) ≡ false)
unfolding send_fits
send_fits-new x s h = (ground arith, ground arith)

inserted-Delivers :
    (x : SendAttempt) (s : Tables)
    → IsDelivering s
    → send_fits (numbered_send x s) s ≡ true
    → Moves s.sends (s.sends ++ (numbered_send x s ∷ []))
inserted-Delivers x s c fits =
    let (new, free) = send_fits-new (numbered_send x s) s fits in
    insert-Moves s.sends c.keyed c.one (numbered_send x s) new free

refl-Delivers : (s : Tables) → IsDelivering s → Delivers s s
refl-Delivers s c = Moves-refl s.sends c.keyed c.one

abbrev read_owned : String → ℕ → Tables → Option Attempt
read_owned k i s = owned_by k (get attempt_id_of i s.attempts)

begin_send_body-Delivers :
    (k : String) (i : ℕ) (h : Herdr) (x y : SendAttempt) (s s' : Tables)
    → IsDelivering s
    → begin_send_body k i h x s ≡ ok (y, s')
    → Delivers s s'
unfolding begin_send
begin_send_body-Delivers k i h x y s s' c e =
    let (owner, e₁) = require-eq_ok (meets (open_and_owner i) (get task_id_of k s.tasks)) _ _ s e in
    let (runs, e₂) = require-eq_ok (meets (runs_in h) (read_owned k i s)) _ _ s e₁ in
    let (fits, e₃) =
      insert_send-eq_ok pure x s (on_constraint-last send_in_flight (insert_send x) s e₂) in
    settled (λ t. Delivers s t) (numbered_send x s) y _ s' (inserted-Delivers x s c fits) e₃

pub begin_send-Delivers :
    (e : Engine) (k : String) (i : ℕ) (h : Herdr) (o : SendOrigin) (message at : String) (n : ℕ)
    (s : Tables)
    → IsDelivering s
    → Delivers s (begin_send e k i h o message at n s).1
unfolding begin_send
begin_send-Delivers e k i h o message at n s c = elim (Bool-cases (valid_send_origin o)) [
  | inr refused ↦ rw refused (refl-Delivers s c)
  | inl allowed ↦ rw allowed (
      transact-keeps (λ t. Delivers s t) e _ s (refl-Delivers s c)
        λ y s' q. begin_send_body-Delivers k i h (new_send k i o message at n) y s s' c q)
]

-- A pending send comes to its end.
pub update_send-eq_ok :
    {A : Type 0} (n : ℕ) (p : SendAttempt → Bool) (f : SendAttempt → SendAttempt) (x : StoreError)
    (rest : Tx A) (s : Tables) {r : A × Tables}
    → (update_send n p f >>= λ b. require b x >> rest) s ≡ ok r
    → (meets p (get send_id_of n s.sends) ≡ true)
      × (rest (record s { sends = modify send_id_of n f s.sends }) ≡ ok r)
unfolding update_send
update_send-eq_ok n p f x rest s h =
    changing-eq_ok (meets p (get send_id_of n s.sends))
      (record s { sends = modify send_id_of n f s.sends }) s x rest h

ended-Delivers :
    (n : ℕ) (k : String) (i : ℕ) (next : SendState) (reason at : String) (s : Tables)
    → IsDelivering s
    → is_send next pending ≡ false
    → meets (pending_for k i) (get send_id_of n s.sends) ≡ true
    → Moves s.sends (modify send_id_of n (finalized next reason at) s.sends)
ended-Delivers n k i next reason at s c over found =
    let (z, there, fits) = meets-true (pending_for k i) _ found in
    modify-Moves s.sends c.keyed c.one n next reason at z over there (ground arith)

finalize_pending-Delivers :
    (k : String) (i : ℕ) (next : SendState) (reason at : String) (x : SendAttempt) (q : Bool)
    (y : SendAttempt) (s s' : Tables)
    → IsDelivering s
    → is_send next pending ≡ false
    → finalize_pending k i next reason at x s ≡ ok ((q, y), s')
    → Delivers s s'
unfolding finalize_send
finalize_pending-Delivers k i next reason at x q y s s' c over h =
    let (found, h₁) =
      update_send-eq_ok x.id (pending_for k i) (finalized next reason at) send_ownership_conflict _
        s h in
    settled (λ t. Delivers s t) (true, finalized next reason at x) (q, y) _ s'
      (ended-Delivers x.id k i next reason at s c over found) h₁

pub no_ok :
    {A : Type 0} (x : StoreError) {r : A × Tables}
    → ◌≡◌ {A = Result StoreError (A × Tables)} (err x) (ok r)
    → ⊥
no_ok x h = cc

finalize_found-Delivers :
    (k : String) (i : ℕ) (next : SendState) (reason at : String) (o : Option SendAttempt) (q : Bool)
    (y : SendAttempt) (s s' : Tables)
    → IsDelivering s
    → is_send next pending ≡ false
    → finalize_found k i next reason at o s ≡ ok ((q, y), s')
    → Delivers s s'
unfolding finalize_send
finalize_found-Delivers k i next reason at none q y s s' c over h = absurd (ground arith)
finalize_found-Delivers k i next reason at (some x) q y s s' c over h =
    let (own, h₁) =
      require-eq_ok (x.task_id == k && nat_beq x.attempt_id i) send_ownership_conflict _ s h in
    elim (Bool-cases (is_pending x)) [
      | inl waits ↦ finalize_pending-Delivers k i next reason at x q y s s' c over (rw waits at h₁)
      | inr ended ↦ elim (Bool-cases (is_send x.state next)) [
        | inl same ↦
            settled (λ t. Delivers s t) (false, x) (q, y) s s' (refl-Delivers s c)
              (rw (ended, same) at h₁)
        | inr other ↦ absurd (no_ok _ (rw (ended, other) at h₁))
      ]
    ]

pub finalize_send-Delivers :
    (e : Engine) (n : ℕ) (k : String) (i : ℕ) (next : SendState) (reason at : String) (s : Tables)
    → IsDelivering s
    → Delivers s (finalize_send e n k i next reason at s).1
unfolding finalize_send
finalize_send-Delivers e n k i next reason at s c =
    elim (Bool-cases (valid_send_terminal_state next)) [
      | inr refused ↦ rw refused (refl-Delivers s c)
      | inl allowed ↦ rw allowed (
          transact_if-keeps (λ t. Delivers s t) e _ s (refl-Delivers s c)
            λ y s' q. finalize_found-Delivers k i next reason at _ true y s s' c (ground arith) q)
    ]

normalize_pending-Delivers :
    (k : String) (i : ℕ) (reason at : String) (x : SendAttempt) (q : Bool) (y : SendAttempt × Bool)
    (s s' : Tables)
    → IsDelivering s
    → normalize_pending k i reason at x s ≡ ok ((q, y), s')
    → Delivers s s'
unfolding normalize_pending_send
normalize_pending-Delivers k i reason at x q y s s' c h =
    let (found, h₁) =
      update_send-eq_ok x.id (pending_for k i) (finalized uncertain reason at)
        send_ownership_conflict _ s h in
    settled (λ t. Delivers s t) (true, (finalized uncertain reason at x, true)) (q, y) _ s'
      (ended-Delivers x.id k i uncertain reason at s c refl found) h₁

normalize_found-Delivers :
    (k : String) (i : ℕ) (reason at : String) (o : Option SendAttempt) (q : Bool)
    (y : SendAttempt × Bool) (s s' : Tables)
    → IsDelivering s
    → normalize_found k i reason at o s ≡ ok ((q, y), s')
    → Delivers s s'
unfolding normalize_pending_send
normalize_found-Delivers k i reason at none q y s s' c h = absurd (ground arith)
normalize_found-Delivers k i reason at (some x) q y s s' c h =
    let (own, h₁) =
      require-eq_ok (x.task_id == k && nat_beq x.attempt_id i) send_ownership_conflict _ s h in
    elim (Bool-cases (is_pending x)) [
      | inl waits ↦ normalize_pending-Delivers k i reason at x q y s s' c (rw waits at h₁)
      | inr ended ↦
          settled (λ t. Delivers s t) (false, (x, false)) (q, y) s s' (refl-Delivers s c)
            (rw ended at h₁)
    ]

pub normalize_pending_send-Delivers :
    (e : Engine) (n : ℕ) (k : String) (i : ℕ) (reason at : String) (s : Tables)
    → IsDelivering s
    → Delivers s (normalize_pending_send e n k i reason at s).1
unfolding normalize_pending_send
normalize_pending_send-Delivers e n k i reason at s c =
    transact_if-keeps (λ t. Delivers s t) e _ s (refl-Delivers s c)
      λ y s' q. normalize_found-Delivers k i reason at _ true y s s' c q

pub normalize_pending_sends-Delivers :
    (e : Engine) (k reason at : String) (s : Tables)
    → IsDelivering s
    → Delivers s (normalize_pending_sends e k reason at s).1
unfolding normalize_pending_sends
normalize_pending_sends-Delivers e k reason at s c =
    autocommit-keeps (λ t. Delivers s t) e _ s (refl-Delivers s c)
      λ n s' h.
        settled (λ t. Delivers s t) _ n _ s'
          (set_all-Moves (pending_of k) reason at s.sends c.keyed c.one (λ x over. ground arith)) h

import_body-Delivers :
    (x : SendAttempt) (u : Unit) (s s' : Tables)
    → IsDelivering s
    → import_body x s ≡ ok (u, s')
    → Delivers s s'
unfolding import_legacy_send
import_body-Delivers x u s s' c h = importing _ h
  where
    importing :
        (b : Bool)
        → (if b
            then (insert_send x >>= λ y. pure tt) s
            else require (is_some (read_owned x.task_id x.attempt_id s)) send_ownership_conflict s)
          ≡ ok (u, s')
        → Delivers s s'
    importing true q =
        let (fits, q₁) = insert_send-eq_ok (λ y. pure tt) x s q in
        settled (λ t. Delivers s t) tt u _ s' (inserted-Delivers x s c fits) q₁
    importing false q = elim (Bool-cases (is_some (read_owned x.task_id x.attempt_id s))) [
      | inl there ↦ settled (λ t. Delivers s t) tt u s s' (refl-Delivers s c) (rw there at q)
      | inr absent ↦ absurd (no_ok _ (rw absent at q))
    ]

pub import_legacy_send-Delivers :
    (e : Engine) (k : String) (i : ℕ) (message created_at finalized_at : String) (s : Tables)
    → IsDelivering s
    → Delivers s (import_legacy_send e k i message created_at finalized_at s).1
unfolding import_legacy_send
import_legacy_send-Delivers e k i message created_at finalized_at s c =
    elim (Bool-cases (message == "")) [
      | inl empty ↦ rw empty (refl-Delivers s c)
      | inr there ↦ rw there (
          transact-keeps (λ t. Delivers s t) e _ s (refl-Delivers s c)
            λ u s' q. import_body-Delivers _ u s s' c q)
    ]

-- ===== src/Store/Sends/Answers.antt =====
-- What `FinalizeSend` answers, and what a caller finds who asks again.
use secondhand.Base.{
  ℕ, String, ◌≡◌, ◌∙◌, refl, Bool, true, false, ◌&&◌, List, Option, none, some, arith,
  if◌then◌else◌, ◌==◌, nat_beq, nat_beq_iff, nat_eq, string_eq, Bool-cases, inl, inr, Result, ok,
  err, ap, subst,
}
use secondhand.Store.Types.{SendAttempt, SendState, is_send, is_send-eq}
use secondhand.Store.Table.{get, modify, changed, get-modify, get_key}
use secondhand.Store.Tables.{
  Tables, send_id_of, StoreError, send_ownership_conflict, invalid_send_transition, Outcome, fine,
  busy, broken, Engine, Tx,
}
use secondhand.Store.Statements.{require-eq_ok}
use secondhand.Store.Sends.{
  transact_if, begin_if, commit_if, is_pending, valid_send_terminal_state, pending_for, finalized,
  finalize_found, finalize_send,
}
use secondhand.Store.Sends.Keeping.{update_send-eq_ok, no_ok}

abbrev kept_or : Bool → Tables → Tables → Tables
kept_or q s' s = if q then s' else s

module _ {A : Type 0} where
  commit_if-answer :
      (o : Outcome) (s : Tables) (m : Result StoreError ((Bool × A) × Tables)) (a : A)
      → (commit_if o s m).0 ≡ ok a
      → (q : Bool) × (s' : Tables) × (m ≡ ok ((q, a), s')) × ((commit_if o s m).1 ≡ kept_or q s' s)
  commit_if-answer o s (err x) a h = cc
  commit_if-answer o s (ok ((false, b), s')) a h = (false, s', cc, refl)
  commit_if-answer fine s (ok ((true, b), s')) a h = (true, s', cc, refl)
  commit_if-answer busy s (ok ((true, b), s')) a h = cc
  commit_if-answer broken s (ok ((true, b), s')) a h = cc

  begin_if-answer :
      (o c : Outcome) (body : Tx (Bool × A)) (s : Tables) (a : A)
      → (begin_if o c body s).0 ≡ ok a
      → (q : Bool) × (s' : Tables) × (body s ≡ ok ((q, a), s'))
        × ((begin_if o c body s).1 ≡ kept_or q s' s)
  begin_if-answer fine c body s a h = commit_if-answer c s (body s) a h
  begin_if-answer busy c body s a h = cc
  begin_if-answer broken c body s a h = cc

-- A send that stands in the table as final, with the state that was asked for.
pub record IsFinal (n : ℕ) (k : String) (i : ℕ) (next : SendState) (x : SendAttempt) (s : Tables)
    : Type 0 where
  pub row : get send_id_of n s.sends ≡ some x
  pub owned : (x.task_id == k && nat_beq x.attempt_id i) ≡ true
  pub ended : is_send x.state next ≡ true

returned :
    {B : Type 0} (P : B → Type 0) (r r' : B)
    → P r
    → ◌≡◌ {A = Result StoreError B} (ok r) (ok r')
    → P r'
returned {B} P r r' h e = subst P (ap answer e) h
  where
    answer : Result StoreError B → B
    answer (ok b) = b
    answer (err x) = r

-- The answer of a body, and the state that its transaction leaves.
abbrev Final : ℕ → String → ℕ → SendState → Tables → (Bool × SendAttempt) × Tables → Type 0
Final n k i next s r = IsFinal n k i next r.0.1 (kept_or r.0.0 r.1 s)

row_after :
    (n : ℕ) (next : SendState) (reason at : String) (rows : List SendAttempt) (x : SendAttempt)
    → get send_id_of n rows ≡ some x
    → get send_id_of n (modify send_id_of x.id (finalized next reason at) rows)
      ≡ some (finalized next reason at x)
row_after n next reason at rows x there =
    get-modify send_id_of x.id n (finalized next reason at) rows (λ z. refl) ∙ here
  where
    same_id : nat_beq x.id n ≡ true
    same_id = (nat_beq_iff x.id n).1 (get_key send_id_of n rows there)

    here :
        (if x.id == n
          then changed (finalized next reason at) (get send_id_of n rows)
          else get send_id_of n rows)
        ≡ some (finalized next reason at x)
    here = rw same_id (rw there refl)

finalize_found-Final :
    (n : ℕ) (k : String) (i : ℕ) (next : SendState) (reason at : String) (o : Option SendAttempt)
    (s : Tables) (r : (Bool × SendAttempt) × Tables)
    → get send_id_of n s.sends ≡ o
    → finalize_found k i next reason at o s ≡ ok r
    → Final n k i next s r
unfolding finalize_send
finalize_found-Final n k i next reason at none s r there h = absurd (no_ok _ h)
finalize_found-Final n k i next reason at (some x) s r there h =
    let (own, h₁) =
      require-eq_ok (x.task_id == k && nat_beq x.attempt_id i) send_ownership_conflict _ s h in
    elim (Bool-cases (is_pending x)) [
      | inl waits ↦
          let (found, h₂) =
            update_send-eq_ok x.id (pending_for k i) (finalized next reason at)
              send_ownership_conflict _ s (rw waits at h₁) in
          returned (Final n k i next s) (_, _) r
            (record {
              row = row_after n next reason at s.sends x there;
              owned = own;
              ended = ground arith;
            })
            h₂
      | inr ended ↦ elim (Bool-cases (is_send x.state next)) [
        | inl same ↦
            returned (Final n k i next s) ((false, x), s) r
              (record { row = there; owned = own; ended = same }) (rw (ended, same) at h₁)
        | inr other ↦ absurd (no_ok _ (rw (ended, other) at h₁))
      ]
    ]

pub finalize_send-IsFinal :
    (e : Engine) (n : ℕ) (k : String) (i : ℕ) (next : SendState) (reason at : String) (s : Tables)
    (x : SendAttempt)
    → (finalize_send e n k i next reason at s).0 ≡ ok x
    → IsFinal n k i next x (finalize_send e n k i next reason at s).1
      × (valid_send_terminal_state next ≡ true)
unfolding finalize_send transact_if
finalize_send-IsFinal e n k i next reason at s x h =
    elim (Bool-cases (valid_send_terminal_state next)) [
      | inr refused ↦ absurd (no_answer (rw refused at h))
      | inl allowed ↦
          let (q, s', found, left) =
            begin_if-answer e.begin e.commit
              (λ t. finalize_found k i next reason at (get send_id_of n t.sends) t) s x
              (rw allowed at h) in
          (
            rw allowed
                (rw left (finalize_found-Final n k i next reason at _ s ((q, x), s') refl found)),
            allowed,
          )
    ]
  where
    no_answer : ◌≡◌ {A = Result StoreError SendAttempt} (err invalid_send_transition) (ok x) → ⊥
    no_answer e = cc

-- The transaction of a state in which the send is final.
asked_again :
    (n : ℕ) (k : String) (i : ℕ) (now : SendState) (x : SendAttempt) (s : Tables) (e : Engine)
    (next : SendState) (reason at : String)
    → IsFinal n k i now x s
    → valid_send_terminal_state now ≡ true
    → valid_send_terminal_state next ≡ true
    → e.begin ≡ fine
    → finalize_send e n k i next reason at s
      ≡ ((if is_send now next then ok x else err invalid_send_transition), s)
unfolding finalize_send transact_if finalize_found
asked_again n k i now x s e next reason at f terminal allowed begun =
    let same = is_send-eq x.state now f.ended in
    let over = not_pending x now same terminal in
    elim (Bool-cases (is_send now next)) [
      | inl equal ↦ rw (allowed, begun, f.row, f.owned, over, same, equal) refl
      | inr other ↦ rw (allowed, begun, f.row, f.owned, over, same, other) refl
    ]
  where
    not_pending :
        (x : SendAttempt) (now : SendState)
        → x.state ≡ now
        → valid_send_terminal_state now ≡ true
        → is_pending x ≡ false
    not_pending x now same terminal = ground arith

-- Where `FinalizeSend` has answered with a send, a second call for the same send that asks for a
-- terminal state and that the engine lets begin answers from the record and changes nothing: the same
-- send where it asks for the same state, whatever its reason and time, and an invalid transition where
-- it asks for another.
pub finalize_send-again :
    (e d : Engine) (n : ℕ) (k : String) (i : ℕ) (first second : SendState)
    (reason at other later : String) (s : Tables) (x : SendAttempt)
    → (finalize_send e n k i first reason at s).0 ≡ ok x
    → valid_send_terminal_state second ≡ true
    → d.begin ≡ fine
    → finalize_send d n k i second other later (finalize_send e n k i first reason at s).1 ≡ (
      (if is_send first second then ok x else err invalid_send_transition),
      (finalize_send e n k i first reason at s).1,
    )
finalize_send-again e d n k i first second reason at other later s x h allowed begun =
    let (final, terminal) = finalize_send-IsFinal e n k i first reason at s x h in
    asked_again n k i first x _ d second other later final terminal allowed begun

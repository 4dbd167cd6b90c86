-- ===== src/Store/Sends/Reading.antt =====
-- The reads of Store/Sends.antt, and what any sequence of its operations leaves behind.
use secondhand.Base.{
  ℕ, ◌≤◌, String, ◌≡◌, subst, refl, Bool, true, false, List, [], ◌∷◌, Option, none, some, arith,
  nat_beq, nat_beq_iff, nat_eq, string_eq, Bool-cases, inl, inr, ltb,
}
use Prim.Native.Char.{Char, code}
use secondhand.Store.Types.{SendAttempt, SendState, SendOrigin, Herdr}
use secondhand.Store.Table.{get, IsKeyed}
use secondhand.Store.Tables.{Tables, send_id_of, Engine}
use secondhand.Store.Sends.{
  matches, newer, latest, latest_send, has_prefix, send_needs_attention, send_retry_safe,
  text_rejected_before_acceptance, enter_rejected_after_text_staged, is_pending, begin_send,
  finalize_send, normalize_pending_send, normalize_pending_sends, import_legacy_send,
}
use secondhand.Store.Sends.Keeping.{
  IsDelivering, Delivers, begin_send-Delivers, finalize_send-Delivers,
  normalize_pending_send-Delivers, normalize_pending_sends-Delivers, import_legacy_send-Delivers,
}

-- What the newest of the rows that a test picks is: one of them, and none has a larger id.
abbrev pub Newest : (SendAttempt → Bool) → List SendAttempt → Option SendAttempt → Type 0
Newest p rows none = (m : ℕ) (x : SendAttempt) → get send_id_of m rows ≡ some x → p x ≡ false
Newest p rows (some y) =
    (get send_id_of y.id rows ≡ some y)
    × (p y ≡ true)
    × ((m : ℕ) (x : SendAttempt) → get send_id_of m rows ≡ some x → p x ≡ true → m ≤ y.id)

module _ (p : SendAttempt → Bool) (x : SendAttempt) (rows : List SendAttempt)
    (new : get send_id_of x.id rows ≡ none) where
  older-Newest : (o : Option SendAttempt) → p x ≡ false → Newest p rows o → Newest p (x ∷ rows) o
  unfolding get
  older-Newest none q h = λ m z e. ground (arith, h m z)
  older-Newest (some y) q (there, py, above) = (
    ground (arith, nat_beq_iff x.id y.id),
    py,
    λ m z e pz. ground (arith, above m z, nat_beq_iff x.id m),
  )

  newer-Newest :
      (o : Option SendAttempt)
      → p x ≡ true
      → Newest p rows o
      → Newest p (x ∷ rows) (some (newer x o))
  unfolding get
  newer-Newest none q h = (
    ground (arith, nat_beq_iff x.id x.id),
    q,
    λ m z e pz. ground (arith, h m z, nat_beq_iff x.id m),
  )
  newer-Newest (some y) q (there, py, above) = elim (Bool-cases (ltb x.id y.id)) [
    | inl less ↦
        subst (λ z. Newest p (x ∷ rows) (some z)) (stays less)
          (
            ground (arith, nat_beq_iff x.id y.id),
            py,
            λ m z e pz. ground (arith, above m z, nat_beq_iff x.id m),
          )
    | inr more ↦
        subst (λ z. Newest p (x ∷ rows) (some z)) (leads more)
          (
            ground (arith, nat_beq_iff x.id x.id),
            q,
            λ m z e pz. ground (arith, above m z, nat_beq_iff x.id m),
          )
  ]
    where
      stays : ltb x.id y.id ≡ true → y ≡ newer x (some y)
      stays less = rw less refl

      leads : ltb x.id y.id ≡ false → x ≡ newer x (some y)
      leads more = rw more refl

latest-Newest :
    (p : SendAttempt → Bool) (rows : List SendAttempt)
    → IsKeyed send_id_of rows
    → Newest p rows (latest p rows)
unfolding latest_send get
latest-Newest p [] h = λ m x e. ground arith
latest-Newest p (x ∷ rows) h = elim (Bool-cases (p x)) [
  | inl q ↦ rw q (newer-Newest p x rows h.0 (latest p rows) q (latest-Newest p rows h.1))
  | inr q ↦ rw q (older-Newest p x rows h.0 (latest p rows) q (latest-Newest p rows h.1))
]

-- Where ids are unique, `LatestSend` finds, of the sends of the task and attempt that come from one of
-- the origins (of any origin where none is given), the one with the largest id, and finds none only
-- where there is none.
pub latest_send-Newest :
    (k : String) (i : ℕ) (origins : List SendOrigin) (s : Tables)
    → IsKeyed send_id_of s.sends
    → Newest (matches k i origins) s.sends (latest_send k i origins s)
unfolding latest_send
latest_send-Newest k i origins s h = latest-Newest (matches k i origins) s.sends h

-- Text rejected before acceptance and an Enter rejected after the text was staged differ in their
-- first letters.
same_letter :
    (c d : Char) (s p : String)
    → has_prefix (String.◌∷◌ c s) (String.◌∷◌ d p) ≡ true
    → nat_beq (code c) (code d) ≡ true
same_letter c d s p h = ground arith

not_both_prefixes :
    (s : String)
    → has_prefix s text_rejected_before_acceptance ≡ true
    → has_prefix s enter_rejected_after_text_staged ≡ false
not_both_prefixes String.[] h = cc
not_both_prefixes (String.◌∷◌ c s) h =
    elim (Bool-cases (has_prefix (String.◌∷◌ c s) enter_rejected_after_text_staged)) [
      | inr other ↦ other
      | inl found ↦
          let t = same_letter c "t" s "ext-rejected-before-acceptance" h in
          let e = same_letter c "e" s "nter-rejected-after-text-staged" found in
          absurd (omega (arith, (nat_beq_iff (code c) 116).0 t, (nat_beq_iff (code c) 101).0 e))
    ]

-- A send that is safe to repeat is none that needs attention: repeating it cannot deliver twice.
retry_safe-needs_no_attention :
    (x : SendAttempt) → send_retry_safe x ≡ true → send_needs_attention x ≡ false
unfolding send_retry_safe send_needs_attention
retry_safe-needs_no_attention x h = ground (arith, not_both_prefixes x.reason_code)

-- A call of a method on sends.
pub data SendCommand : Type 0 where
  begin_with :
      (k : String) (i : ℕ) (h : Herdr) (o : SendOrigin) (message at : String) (n : ℕ) → SendCommand
  finalize_with : (n : ℕ) (k : String) (i : ℕ) (to : SendState) (reason at : String) → SendCommand
  normalize_with : (n : ℕ) (k : String) (i : ℕ) (reason at : String) → SendCommand
  normalize_all_with : (k reason at : String) → SendCommand
  import_with : (k : String) (i : ℕ) (message created_at finalized_at : String) → SendCommand

unfoldable pub deliver : Engine → SendCommand → Tables → Tables
deliver e (begin_with k i h o message at n) s = (begin_send e k i h o message at n s).1
deliver e (finalize_with n k i to reason at) s = (finalize_send e n k i to reason at s).1
deliver e (normalize_with n k i reason at) s = (normalize_pending_send e n k i reason at s).1
deliver e (normalize_all_with k reason at) s = (normalize_pending_sends e k reason at s).1
deliver e (import_with k i message created_at finalized_at) s =
    (import_legacy_send e k i message created_at finalized_at s).1

unfoldable pub deliver_all : List (Engine × SendCommand) → Tables → Tables
unfolding deliver
deliver_all [] s = s
deliver_all ((e, x) ∷ calls) s = deliver_all calls (deliver e x s)

deliver-Delivers :
    (e : Engine) (x : SendCommand) (s : Tables) → IsDelivering s → Delivers s (deliver e x s)
unfolding deliver
deliver-Delivers e (begin_with k i h o message at n) s c =
    begin_send-Delivers e k i h o message at n s c
deliver-Delivers e (finalize_with n k i to reason at) s c =
    finalize_send-Delivers e n k i to reason at s c
deliver-Delivers e (normalize_with n k i reason at) s c =
    normalize_pending_send-Delivers e n k i reason at s c
deliver-Delivers e (normalize_all_with k reason at) s c =
    normalize_pending_sends-Delivers e k reason at s c
deliver-Delivers e (import_with k i message created_at finalized_at) s c =
    import_legacy_send-Delivers e k i message created_at finalized_at s c

moved-IsDelivering : (s t : Tables) → Delivers s t → IsDelivering t
moved-IsDelivering s t m = record { keyed = m.keyed; one = m.one }

-- From a database whose sends have unique ids and whose attempts have at most one pending send each,
-- any calls on sends lead to such a database again, however the engine answers.
pub deliver_all-IsDelivering :
    (calls : List (Engine × SendCommand)) (s : Tables)
    → IsDelivering s
    → IsDelivering (deliver_all calls s)
unfolding deliver_all
deliver_all-IsDelivering [] s c = c
deliver_all-IsDelivering ((e, x) ∷ calls) s c =
    deliver_all-IsDelivering calls (deliver e x s)
      (moved-IsDelivering s _ (deliver-Delivers e x s c))

-- A send that is no longer pending stays in the table as it is, through any calls on sends: what was
-- recorded of a delivery is never rewritten.
pub deliver_all-final :
    (calls : List (Engine × SendCommand)) (s : Tables) (n : ℕ) (x : SendAttempt)
    → IsDelivering s
    → get send_id_of n s.sends ≡ some x
    → is_pending x ≡ false
    → get send_id_of n (deliver_all calls s).sends ≡ some x
unfolding deliver_all
deliver_all-final [] s n x c there over = there
deliver_all-final ((e, d) ∷ calls) s n x c there over =
    let m = deliver-Delivers e d s c in
    deliver_all-final calls (deliver e d s) n x (moved-IsDelivering s _ m) (m.final n x there over)
      over

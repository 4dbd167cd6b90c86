-- ===== src/Steering/Delivery.antt =====
-- From the recorded send to its final state (`finalize`, `rejectionReason` and the end of `Execute` of
-- internal/steering/send.go).
use Prim.Native.String
use secondhand.Base.{
  String, Bool, true, false, ◌&&◌, not, Option, none, some, if◌then◌else◌, ◌==◌, string_eq, Result,
  ok, err,
}
use secondhand.Store.Types.{
  Attempt, SendAttempt, SendState, SendOrigin, is_send, pending, not_submitted, submitted,
  uncertain, operator,
}
use secondhand.Store.Tables.{Tables, StoreError}
use secondhand.Store.Sends.{
  begin_send, finalize_send, text_rejected_before_acceptance, enter_rejected_after_text_staged,
}
use secondhand.Steering.Request.{
  SteeringError, plain_error, precondition, pending_error, Request, Submission, Answers,
  rejected_send, injected_fault, store_failed, finalization_failed, accepted, refused, ambiguous,
}

-- `rejectionReason`
abbrev pub rejection_reason : Submission → String → String
rejection_reason (refused code) fallback =
    if code == "" then fallback else String.◌++◌ fallback (String.◌++◌ ":" code)
rejection_reason _ fallback = fallback

-- The answer of `FinalizeSend`.
abbrev pub finalize_answer :
    SendAttempt
    → SendState
    → String
    → Bool
    → Result StoreError SendAttempt
    → Result SteeringError (Option SendAttempt)
finalize_answer x next reason partial (err e) = err (record (plain_error (finalization_failed e)) {
  send = some x;
  attempt_id = x.attempt_id;
  state = some pending;
  reason = "durable-finalization-unresolved";
  finalization_fault = true;
})
finalize_answer x next reason partial (ok y) =
    if is_send next submitted
    then ok (some y)
    else err (record (plain_error rejected_send) {
      send = some y;
      attempt_id = y.attempt_id;
      state = some next;
      reason = reason;
      retry_safe = is_send next not_submitted && not partial;
      partial_composer = partial;
    })

unfoldable pub finalize :
    Answers
    → SendAttempt
    → SendState
    → String
    → Bool
    → Tables
    → Result SteeringError (Option SendAttempt) × Tables
finalize ans x next reason partial s =
    let (r, s') =
      finalize_send ans.finalizing x.id x.task_id x.attempt_id next reason ans.finalized_at s in
    (finalize_answer x next reason partial r, s')

-- From the accepted Enter on.
unfoldable pub entered :
    Request → Answers → SendAttempt → Tables → Result SteeringError (Option SendAttempt) × Tables
entered req ans x s =
    if req.faults.after_enter
    then (err (pending_error x injected_fault "enter-succeeded-before-finalization"), s)
    else if req.faults.before_persist
    then (
      err (record (pending_error x injected_fault "durable-finalization-unresolved") {
        finalization_fault = true;
      }),
      s,
    )
    else finalize ans x submitted "text-and-enter-accepted" false s

unfoldable pub enter_answered :
    Request
    → Answers
    → SendAttempt
    → Submission
    → Tables
    → Result SteeringError (Option SendAttempt) × Tables
enter_answered req ans x accepted s = entered req ans x s
enter_answered req ans x ambiguous s = finalize ans x uncertain "enter-outcome-ambiguous" false s
enter_answered req ans x a s =
    finalize ans x not_submitted (rejection_reason a enter_rejected_after_text_staged) true s

-- From the accepted text on.
unfoldable pub staged :
    Request → Answers → SendAttempt → Tables → Result SteeringError (Option SendAttempt) × Tables
staged req ans x s =
    if req.faults.after_text
    then (err (pending_error x injected_fault "text-succeeded-before-enter"), s)
    else if req.faults.before_enter
    then (err (pending_error x injected_fault "before-enter"), s)
    else enter_answered req ans x ans.enter s

unfoldable pub text_answered :
    Request
    → Answers
    → SendAttempt
    → Submission
    → Tables
    → Result SteeringError (Option SendAttempt) × Tables
text_answered req ans x accepted s = staged req ans x s
text_answered req ans x ambiguous s = finalize ans x uncertain "text-outcome-ambiguous" false s
text_answered req ans x a s =
    finalize ans x not_submitted (rejection_reason a text_rejected_before_acceptance) false s

-- From the recorded send on.
unfoldable pub begun :
    Request
    → Answers
    → Result StoreError SendAttempt
    → Tables
    → Result SteeringError (Option SendAttempt) × Tables
begun req ans (err e) s = (err (precondition (store_failed e)), s)
begun req ans (ok x) s =
    if req.faults.after_pending
    then (err (pending_error x injected_fault "pending-before-text"), s)
    else if req.faults.before_text
    then (err (pending_error x injected_fault "before-text"), s)
    else text_answered req ans x ans.text s

abbrev pub origin_of : Request → SendOrigin
origin_of req = elim req.origin [ none ↦ operator | some o ↦ o ]

unfoldable pub submit :
    Request → Answers → Attempt → Tables → Result SteeringError (Option SendAttempt) × Tables
submit req ans a s =
    let (r, s') =
      begin_send ans.beginning req.task_id a.id a.herdr (origin_of req) req.message ans.begun_at
        req.usage_limit_episode s in
    begun req ans r s'

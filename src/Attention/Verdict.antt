-- ===== src/Attention/Verdict.antt =====
-- Which evidence makes a task need attention (internal/attention/attention.go).
use secondhand.Base.{
  String, ◌≡◌, refl, Bool, true, false, ◌&&◌, ◌||◌, [], arith, any, any-append, not, Bytes,
  bytes_equal, bytes_equal_iff, ◌==◌, string_eq, Bool-cases, inl, inr,
}
use secondhand.Report.Line.{
  report_working, report_done, report_paused, report_blocked, report_needs_decision, report_failed,
}
use secondhand.Attention.{
  Evidence, add_if, claim_subjects, report_subjects, derive, needs_attention, unreported_evidence,
  unreported_runtime,
}

actionable-add_if :
    (b : Bool) (kind reason provenance : String) (actionable : Bool)
    → any (λ x. x.actionable) (add_if b kind reason provenance actionable) ≡ (b && actionable)
unfolding add_if
actionable-add_if b kind reason provenance actionable = ground arith

and_true : (b : Bool) → (b && true) ≡ b
and_true b = ground arith

and_false : (b : Bool) → (b && false) ≡ false
and_false b = ground arith

or_false : (b : Bool) → (b || false) ≡ b
or_false b = ground arith

-- The reported states that ask for a supervisor; `done` is a claim that waits for evidence.
abbrev pub asks_for_supervisor : Bytes → Bool
asks_for_supervisor s =
    bytes_equal s report_paused
    || bytes_equal s report_blocked
    || bytes_equal s report_needs_decision
    || bytes_equal s report_failed

actionable-claim_subjects :
    (s : Bytes) → any (λ x. x.actionable) (claim_subjects s) ≡ asks_for_supervisor s
unfolding claim_subjects add_if
actionable-claim_subjects s = elim (Bool-cases (bytes_equal s report_done)) [
  | inl e ↦ rw ((bytes_equal_iff s report_done).0 e) refl
  | inr e ↦ ground arith
]

actionable-report_subjects :
    (b : Bool) (s : Bytes)
    → any (λ x. x.actionable) (report_subjects b s) ≡ (b && asks_for_supervisor s)
unfolding report_subjects
actionable-report_subjects true s = actionable-claim_subjects s
actionable-report_subjects false s = refl

ruleset subject_laws =
    (any-append, actionable-add_if, actionable-report_subjects, and_true, and_false, or_false)

-- A task needs attention exactly where its report channel is unreadable, its report is not
-- acknowledged, its worker stopped unreported, is unreachable or has been silent past its bound, its
-- runtime is unknown, it needs repair, a send is uncertain, pending or partial, its gate has a
-- problem, or its worker claims to be paused, blocked, failed or in need of a decision. An
-- unannounced report and a claimed completion alone never ask for anyone.
pub needs_attention_lem :
    (e : Evidence)
    → needs_attention e ≡ (
        e.report_unreadable
        || e.unacknowledged
        || e.unreported
        || e.runtime_unknown
        || e.unreachable
        || e.parked
        || e.repair
        || e.send_uncertain
        || e.send_pending
        || e.send_partial
        || (e.report_claim && asks_for_supervisor e.reported_state)
        || not (e.gate_problem == ""))
unfolding needs_attention derive
needs_attention_lem e = simp subject_laws

needs_attention-unreported : (b : Bool) → needs_attention (unreported_evidence b) ≡ b
unfolding needs_attention derive add_if report_subjects
needs_attention-unreported true = refl
needs_attention-unreported false = refl

-- A pane that stopped asks for attention exactly where herdr calls it idle or done and no report, or
-- only a `working` one, explains the stop.
pub unreported_runtime_lem :
    (runtime_state : String) (reported_state : Bytes)
    → unreported_runtime runtime_state reported_state ≡ (
        (runtime_state == "idle" || runtime_state == "done")
        && (bytes_equal reported_state [] || bytes_equal reported_state report_working))
unfolding unreported_runtime
unreported_runtime_lem runtime_state reported_state = needs_attention-unreported _

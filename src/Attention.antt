-- ===== src/Attention.antt =====
-- Why a task needs its supervisor (internal/attention/attention.go): `Derive` names the subjects that
-- the evidence supports, `NeedsAttention` asks whether one of them is actionable, and
-- `UnreportedRuntime` is the question that the watcher asks of a pane that stopped.
pub mod Verdict
use Prim.Native.String
use secondhand.Base.{
  String, ◌≡◌, refl, Bool, true, false, ◌&&◌, ◌||◌, List, [], ◌∷◌, ◌++◌, arith, if◌then◌else◌, any,
  any-append, not, Bytes, bytes_equal, bytes_equal_iff, ◌==◌, string_eq, Bool-cases, inl, inr,
}
use secondhand.Report.Line.{
  report_working, report_done, report_paused, report_blocked, report_needs_decision, report_failed,
}

abbrev pub kind_report_unreadable : String
kind_report_unreadable = "report-unreadable"

abbrev pub kind_unacknowledged : String
kind_unacknowledged = "unacknowledged"

abbrev pub kind_unannounced : String
kind_unannounced = "unannounced"

abbrev pub kind_unreported : String
kind_unreported = "unreported"

abbrev pub kind_runtime_unknown : String
kind_runtime_unknown = "runtime-unknown"

abbrev pub kind_unreachable : String
kind_unreachable = "unreachable"

abbrev pub kind_parked : String
kind_parked = "parked"

abbrev pub kind_needs_repair : String
kind_needs_repair = "needs-repair"

abbrev pub kind_send_uncertain : String
kind_send_uncertain = "send-uncertain"

abbrev pub kind_send_partial : String
kind_send_partial = "send-partial"

abbrev pub kind_report_paused : String
kind_report_paused = "paused"

abbrev pub kind_report_blocked : String
kind_report_blocked = "blocked"

abbrev pub kind_report_decision : String
kind_report_decision = "needs-decision"

abbrev pub kind_report_failed : String
kind_report_failed = "failed"

abbrev pub kind_report_done : String
kind_report_done = "report-done"

abbrev pub kind_gate : String
kind_gate = "gate"

abbrev pub kind_send_pending : String
kind_send_pending = "send-pending"

abbrev pub provenance_report : String
provenance_report = "report"

abbrev pub provenance_acknowledgement : String
provenance_acknowledgement = "acknowledgement"

abbrev pub provenance_wake : String
provenance_wake = "wake"

abbrev pub provenance_evidence : String
provenance_evidence = "evidence"

abbrev pub provenance_runtime : String
provenance_runtime = "runtime"

abbrev pub provenance_repair : String
provenance_repair = "repair"

abbrev pub provenance_send : String
provenance_send = "send"

abbrev pub provenance_gate : String
provenance_gate = "gate"

pub record Evidence : Type 0 where
  pub id : String
  pub report_unreadable : Bool
  pub unacknowledged : Bool
  pub unannounced : Bool
  pub unreported : Bool
  pub runtime_unknown : Bool
  pub unreachable : Bool
  pub parked : Bool
  pub repair : Bool
  pub send_uncertain : Bool
  pub send_pending : Bool
  pub send_partial : Bool
  pub reported_state : Bytes
  pub report_claim : Bool
  pub gate_problem : String

pub record Subject : Type 0 where
  pub kind : String
  pub reason : String
  pub provenance : String
  pub actionable : Bool

-- The closure `add`, which appends one subject; each call stands under its own `if`.
unfoldable pub add_if : Bool → String → String → String → Bool → List Subject
add_if b kind reason provenance actionable =
    if b
    then record { kind = kind; reason = reason; provenance = provenance; actionable = actionable }
      ∷ []
    else []

-- The switch on the reported state.
unfoldable pub claim_subjects : Bytes → List Subject
unfolding add_if
claim_subjects s =
    if bytes_equal s report_done
    then add_if true kind_report_done "worker claims completion; independent evidence is separate"
        provenance_report false
    else if bytes_equal s report_paused
    then add_if true kind_report_paused "worker reports paused" provenance_report true
    else if bytes_equal s report_blocked
    then add_if true kind_report_blocked "worker reports blocked" provenance_report true
    else if bytes_equal s report_needs_decision
    then add_if true kind_report_decision "worker requests an operator decision" provenance_report
        true
    else if bytes_equal s report_failed
    then add_if true kind_report_failed "worker reports failure" provenance_report true
    else []

-- The same under its `if`.
unfoldable pub report_subjects : Bool → Bytes → List Subject
unfolding claim_subjects
report_subjects claimed s = if claimed then claim_subjects s else []

unfoldable pub derive : Evidence → List Subject
derive e =
    add_if e.report_unreadable kind_report_unreadable "report channel is unreadable"
      provenance_report true
    ++ add_if e.unacknowledged kind_unacknowledged "worker report is not acknowledged"
        provenance_acknowledgement true
    ++ add_if e.unannounced kind_unannounced "terminal report is not announced by a watcher"
        provenance_wake false
    ++ add_if e.unreported kind_unreported "worker stopped without a terminal report"
        provenance_runtime true
    ++ add_if e.runtime_unknown kind_runtime_unknown "runtime state is unknown" provenance_evidence
        true
    ++ add_if e.unreachable kind_unreachable "worker runtime is unreachable" provenance_runtime true
    ++ add_if e.parked kind_parked "worker has exceeded its report silence bound" provenance_runtime
        true
    ++ add_if e.repair kind_needs_repair "task needs repair" provenance_repair true
    ++ add_if e.send_uncertain kind_send_uncertain "send outcome is uncertain" provenance_send true
    ++ add_if e.send_pending kind_send_pending "send is still in flight" provenance_send true
    ++ add_if e.send_partial kind_send_partial "send may have been partially delivered"
        provenance_send true
    ++ report_subjects e.report_claim e.reported_state
    ++ add_if (not (e.gate_problem == "")) kind_gate e.gate_problem provenance_gate true

unfoldable pub needs_attention : Evidence → Bool
needs_attention e = any (λ s. s.actionable) (derive e)

-- The zero `Evidence` with one flag set.
abbrev pub unreported_evidence : Bool → Evidence
unreported_evidence b = record {
  id = "";
  report_unreadable = false;
  unacknowledged = false;
  unannounced = false;
  unreported = b;
  runtime_unknown = false;
  unreachable = false;
  parked = false;
  repair = false;
  send_uncertain = false;
  send_pending = false;
  send_partial = false;
  reported_state = [];
  report_claim = false;
  gate_problem = "";
}

unfoldable pub unreported_runtime : String → Bytes → Bool
unreported_runtime runtime_state reported_state = needs_attention (
    unreported_evidence (
      (runtime_state == "idle" || runtime_state == "done")
      && (bytes_equal reported_state [] || bytes_equal reported_state report_working)))

-- `Subject.String`
pub subject_text : Subject → String
subject_text s = if s.reason == "" then s.kind else String.◌++◌ s.kind (String.◌++◌ ": " s.reason)

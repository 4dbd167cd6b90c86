-- ===== src/Report/Line.antt =====
-- `ReportLine`, `ParseReportLine`, `blankReportLine`, `LastReportedState` and `TerminalReport` of
-- internal/state/report.go.
use secondhand.Base.{
  ◌∙◌, not, append-nil, append_assoc, ◌≡◌, ◌≢◌, refl, Bool, true, false, ◌||◌, List, [], ◌∷◌, ◌++◌,
  Option, none, some, arith, nat_beq, if◌then◌else◌, ◌⊎◌, inl, inr, Bytes, bytes_equal, reverse,
  bytes_equal_iff, codes, any,
}
use mathlib.Core.List.{reverse-append}
use secondhand.Report.Space.{
  visible, trim_space_of_visible, any-append_left, any-append_both, trim_space, cut,
  trim_space-blank, cut-append,
}

abbrev pub report_working : Bytes
report_working = codes "working"

abbrev pub report_paused : Bytes
report_paused = codes "paused"

abbrev pub report_blocked : Bytes
report_blocked = codes "blocked"

abbrev pub report_needs_decision : Bytes
report_needs_decision = codes "needs-decision"

abbrev pub report_done : Bytes
report_done = codes "done"

abbrev pub report_failed : Bytes
report_failed = codes "failed"

-- The keys of `reportStates`; the map's value at any other text is false.
unfoldable pub report_states : Bytes → Bool
report_states s =
    bytes_equal s report_working
    || bytes_equal s report_paused
    || bytes_equal s report_blocked
    || bytes_equal s report_needs_decision
    || bytes_equal s report_done
    || bytes_equal s report_failed

pub record ReportLine : Type 0 where
  pub state : Bytes
  pub note : Bytes
  pub raw : Bytes
  pub malformed : Bool

abbrev pub malformed_line : Bytes → ReportLine
malformed_line line = record { state = []; note = []; raw = line; malformed = true }

-- The line behind its `strings.Cut`.
classify : Bytes → Option (Bytes × Bytes) → ReportLine
classify line none = malformed_line line
classify line (some (prefix, note)) =
    if report_states (trim_space prefix)
    then record { state = trim_space prefix; note = trim_space note; raw = line; malformed = false }
    else malformed_line line

unfoldable pub parse_report_line : Bytes → ReportLine
unfolding classify
parse_report_line line = classify line (cut b':' line)

unfoldable pub blank_report_line : Bytes → Bool
blank_report_line line = bytes_equal (trim_space line) []

-- The loop runs from the end of the lines to their start.
last_from_end : List ReportLine → Option ReportLine
last_from_end [] = none
last_from_end (l ∷ ls) = if l.malformed then last_from_end ls else some l

unfoldable pub terminal_report : Bytes → Bool
terminal_report s = bytes_equal s report_done || bytes_equal s report_failed

unfoldable pub last_reported_state : List ReportLine → Option ReportLine
unfolding last_from_end
last_reported_state lines = last_from_end (reverse lines)

-- The line that a worker writes for a state and a note.
abbrev pub report_text : Bytes → Bytes → Bytes
report_text state note = state ++ (b':' ∷ b' ' ∷ note)

-- The six states hold no colon, no newline and no space at either end, and some letter.
abbrev IsPlain : Bytes → Type 0
IsPlain s =
    (any (λ c. nat_beq c b':') s ≡ false)
    × (trim_space s ≡ s)
    × (any (λ c. nat_beq c b'\n') s ≡ false)
    × (any visible s ≡ true)

states_of_true :
    (s : Bytes)
    → report_states s ≡ true
    → (s ≡ report_working)
      ⊎ (s ≡ report_paused)
      ⊎ (s ≡ report_blocked)
      ⊎ (s ≡ report_needs_decision)
      ⊎ (s ≡ report_done)
      ⊎ (s ≡ report_failed)
unfolding report_states
states_of_true s h = ground (
  arith,
  bytes_equal_iff s report_working,
  bytes_equal_iff s report_paused,
  bytes_equal_iff s report_blocked,
  bytes_equal_iff s report_needs_decision,
  bytes_equal_iff s report_done,
  bytes_equal_iff s report_failed,
)

report_states-IsPlain : (s : Bytes) → report_states s ≡ true → IsPlain s
unfolding trim_space
report_states-IsPlain s h = elim (states_of_true s h) [
  | inl e ↦ rw e (refl, refl, refl, refl)
  | inr (inl e) ↦ rw e (refl, refl, refl, refl)
  | inr (inr (inl e)) ↦ rw e (refl, refl, refl, refl)
  | inr (inr (inr (inl e))) ↦ rw e (refl, refl, refl, refl)
  | inr (inr (inr (inr (inl e)))) ↦ rw e (refl, refl, refl, refl)
  | inr (inr (inr (inr (inr e)))) ↦ rw e (refl, refl, refl, refl)
]

-- A line `state: note` of the vocabulary classifies as that state, with the note as it was written
-- if it has no space at either end, and keeps the raw line.
pub parse_report_line-report_text :
    (state note : Bytes)
    → report_states state ≡ true
    → trim_space note ≡ note
    → parse_report_line (report_text state note)
      ≡ record { state = state; note = note; raw = report_text state note; malformed = false }
unfolding parse_report_line
parse_report_line-report_text state note h plain =
    let (no_colon, trimmed, no_newline, letter) = report_states-IsPlain state h in
    rw (cut-append b':' state (b' ' ∷ note) no_colon)
      (rw (trimmed, trim_space-blank note, plain, h, if◌then◌else◌) refl)

pub raw-parse_report_line : (line : Bytes) → (parse_report_line line).raw ≡ line
unfolding parse_report_line
raw-parse_report_line line = ground arith

bytes_equal_nil : (s : Bytes) → s ≢ [] → bytes_equal s [] ≡ false
bytes_equal_nil [] h = absurd (h refl)
bytes_equal_nil (c ∷ s) h = refl

-- A report in the vocabulary is neither blank nor broken into lines.
pub report_text_plain :
    (state note : Bytes)
    → report_states state ≡ true
    → any (λ c. nat_beq c b'\n') note ≡ false
    → (blank_report_line (report_text state note) ≡ false)
      × (any (λ c. nat_beq c b'\n') (report_text state note) ≡ false)
unfolding blank_report_line
report_text_plain state note h plain =
    let (no_colon, trimmed, no_newline, letter) = report_states-IsPlain state h in
    let some_letter = any-append_left visible state (b':' ∷ b' ' ∷ note) letter in
    (
      bytes_equal_nil (trim_space (report_text state note))
          (trim_space_of_visible (report_text state note) some_letter),
      any-append_both (λ c. nat_beq c b'\n') state (b':' ∷ b' ' ∷ note) no_newline plain,
    )

-- Behind a classified line nothing earlier counts.
last_reported_state-concat :
    (ls : List ReportLine) (l : ReportLine)
    → l.malformed ≡ false
    → last_reported_state (ls ++ (l ∷ [])) ≡ some l
unfolding last_reported_state
last_reported_state-concat ls l h = rw (reverse-append ls (l ∷ [])) (unfold last_from_end in rw h)

last_reported_state-malformed :
    (ls : List ReportLine) (l : ReportLine)
    → l.malformed ≡ true
    → last_reported_state (ls ++ (l ∷ [])) ≡ last_reported_state ls
unfolding last_reported_state
last_reported_state-malformed ls l h =
    rw (reverse-append ls (l ∷ [])) (unfold last_from_end in rw h refl)

all_malformed :
    (l : ReportLine) (ls : List ReportLine)
    → any (λ r. not r.malformed) (l ∷ ls) ≡ false
    → (l.malformed ≡ true) × (any (λ r. not r.malformed) ls ≡ false)
all_malformed l ls h = ground arith

last_reported_state-skips :
    (ls noise : List ReportLine)
    → any (λ r. not r.malformed) noise ≡ false
    → last_reported_state (ls ++ noise) ≡ last_reported_state ls
last_reported_state-skips ls [] h = rw (append-nil ls) refl
last_reported_state-skips ls (l ∷ noise) h =
    let (bad, rest) = all_malformed l noise h in
    rw (← append_assoc ls (l ∷ []) noise) (
      last_reported_state-skips (ls ++ (l ∷ [])) noise rest
      ∙ last_reported_state-malformed ls l bad)

-- Malformed lines behind a line do not hide what it reports.
pub last_reported_state-last :
    (ls noise : List ReportLine) (l : ReportLine)
    → l.malformed ≡ false
    → any (λ r. not r.malformed) noise ≡ false
    → last_reported_state ((ls ++ (l ∷ [])) ++ noise) ≡ some l
last_reported_state-last ls noise l h bad =
    last_reported_state-skips (ls ++ (l ∷ [])) noise bad ∙ last_reported_state-concat ls l h

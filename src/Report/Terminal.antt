-- ===== src/Report/Terminal.antt =====
-- `classifyReportBytes`, `TerminalReportInData` and `CurrentReportCursor` of
-- internal/state/report.go.

use secondhand.Base.{
  not, any, append_assoc, sym, ◌≡◌, ◌≢◌, refl, ap, ◌∙◌, Bool, true, false, List, [], ◌∷◌, ◌++◌,
  Option, none, some, arith, nat_beq, if◌then◌else◌, Bytes, drop, drop-length_append, subst,
}
use secondhand.Report.Line.{
  ReportLine, parse_report_line, blank_report_line, last_reported_state, terminal_report,
  report_states, report_text, parse_report_line-report_text, report_text_plain,
  last_reported_state-last,
}
use secondhand.Report.Space.{trim_space}
use secondhand.Report.Cursor.{ReportCursor, zero_cursor, covers, covers-report_cursor_for}
use secondhand.Report.Lines.{
  lines_of, finished, unfinished, has_newline, lines_of_no_newline, lines_of_newline,
  lines_of-finished_append, unfinished-finished_append, lines_of-line, unfinished-line,
  finished-append-unfinished, unfinished_no_newline,
}
use secondhand.Report.Tail.{
  FileRead, classify_lines, classify_lines-append, tail_report, cursor_after, offset_of,
  offset-report_cursor_for,
}

-- `strings.Split(s, "\n")`: one more piece than the text has newlines.
unfoldable pub split_newlines : Bytes → List Bytes
split_newlines [] = [] ∷ []
split_newlines (c ∷ s) =
    let pieces = split_newlines s in
    if nat_beq c b'\n' then [] ∷ pieces else elim pieces [ [] ↦ [] | p ∷ ps ↦ (c ∷ p) ∷ ps ]

unfoldable pub classify_report_bytes : Bytes → List ReportLine
classify_report_bytes content = classify_lines (split_newlines content)

-- `ReadReportData` and `ReportLinesInData`: a missing file has no lines.
pub read_report_lines : FileRead → Option (List ReportLine)
read_report_lines FileRead.missing = some (classify_report_bytes [])
read_report_lines FileRead.unreadable = none
read_report_lines (FileRead.contents content) = some (classify_report_bytes content)

terminal_line : Option ReportLine → Bool
terminal_line none = false
terminal_line (some l) = terminal_report l.state

module _ (report_digest : Bytes → Bytes) where
  unfoldable pub terminal_report_in_data : Bytes → ReportCursor → Bool
  unfolding terminal_line
  terminal_report_in_data content cur =
      let base = if covers report_digest cur content then cur else zero_cursor in
      terminal_line
        (last_reported_state (classify_report_bytes (drop (offset_of base.offset) content)))

  -- The lines are dropped, the cursor and the failure kept.
  pub current_report_cursor : FileRead → ReportCursor × Bool
  current_report_cursor file =
      let (lines, cursor, failed) = tail_report report_digest file zero_cursor in (cursor, failed)

split_newlines_of_no_newline : (s : Bytes) → has_newline s ≡ false → split_newlines s ≡ s ∷ []
unfolding split_newlines
split_newlines_of_no_newline [] h = refl
split_newlines_of_no_newline (c ∷ s) h = ground (arith, split_newlines_of_no_newline s)

-- A snapshot has the complete lines and, behind them, the unfinished one, be it empty.
split_newlines_lem : (s : Bytes) → split_newlines s ≡ lines_of s ++ (unfinished s ∷ [])
unfolding split_newlines lines_of unfinished
split_newlines_lem [] = refl
split_newlines_lem (c ∷ s) = ground (
  arith,
  split_newlines_lem s,
  lines_of_no_newline s,
  lines_of_newline s,
  split_newlines_of_no_newline s,
)

-- The snapshot reader (`hand status`) shows what a watcher announces for the same bytes and,
-- behind that, the line still being written, unless that is blank.
pub classify_report_bytes_lem :
    (content : Bytes)
    → classify_report_bytes content
      ≡ classify_lines (lines_of content)
        ++ (if blank_report_line (unfinished content)
            then []
            else parse_report_line (unfinished content) ∷ [])
unfolding classify_report_bytes
classify_report_bytes_lem content = rw (split_newlines_lem content) (
    classify_lines-append (lines_of content) (unfinished content ∷ [])
    ∙ ap (λ (ls : List ReportLine). classify_lines (lines_of content) ++ ls)
        (unfold classify_lines in refl))

-- A snapshot reads complete lines, and then what stands behind them.
classify_report_bytes-append :
    (lines : List Bytes) (whole more : Bytes)
    → lines_of whole ≡ lines ++ lines_of more
    → unfinished whole ≡ unfinished more
    → classify_report_bytes whole ≡ classify_lines lines ++ classify_report_bytes more
classify_report_bytes-append lines whole more complete open_line =
    rw (classify_report_bytes_lem whole, classify_report_bytes_lem more)
      (rw (complete, open_line)
        (rw (classify_lines-append lines (lines_of more))
          (append_assoc (classify_lines lines) (classify_lines (lines_of more)) _)))

-- A line that is ended by a newline, with others before it and more behind it.
classify_report_bytes-line :
    (s line more : Bytes)
    → has_newline line ≡ false
    → blank_report_line line ≡ false
    → classify_report_bytes (finished s ++ (line ++ (b'\n' ∷ more)))
      ≡ (classify_lines (lines_of s) ++ (parse_report_line line ∷ [])) ++ classify_report_bytes more
classify_report_bytes-line s line more h nb =
    classify_report_bytes-append (lines_of s ++ (line ∷ [])) _ more
      (rw (lines_of-finished_append s (line ++ (b'\n' ∷ more)), lines_of-line line more h)
        (sym (append_assoc (lines_of s) (line ∷ []) (lines_of more))))
      (rw (unfinished-finished_append s (line ++ (b'\n' ∷ more)), unfinished-line line more) refl)
    ∙ rw (classify_lines-append (lines_of s) (line ∷ [])) (unfold classify_lines in rw nb refl)

blank_only :
    (s : Bytes) → has_newline s ≡ false → blank_report_line s ≡ true → classify_report_bytes s ≡ []
unfolding classify_report_bytes classify_lines
blank_only s h blank = rw (split_newlines_of_no_newline s h) (rw blank)

module _ (report_digest : Bytes → Bytes) (nonempty : (s : Bytes) → report_digest s ≢ []) where
  -- Where the file goes on from the consumed lines of `s`, only what follows counts.
  terminal_report_in_data-append :
      (s more : Bytes)
      → terminal_report_in_data report_digest (finished s ++ more) (cursor_after report_digest s)
        ≡ terminal_line (last_reported_state (classify_report_bytes more))
  unfolding terminal_report_in_data
  terminal_report_in_data-append s more =
      rw (covers-report_cursor_for report_digest nonempty (finished s) more) (
        rw (offset-report_cursor_for report_digest (finished s))
          (rw (drop-length_append (finished s) more)))

  -- If no digest is empty: after a supervisor consumed the complete lines of `s`, a file that goes on
  -- with any lines, then with the report `state: note`, with a state of the vocabulary and a note
  -- without newlines or spaces at its ends, and then with anything whose lines are all malformed or
  -- blank, carries a terminal report past that cursor exactly when the state is `done` or `failed`.
  pub terminal_report_in_data_last :
      (s between state note noise : Bytes)
      → report_states state ≡ true
      → trim_space note ≡ note
      → has_newline note ≡ false
      → any (λ r. not r.malformed) (classify_report_bytes noise) ≡ false
      → terminal_report_in_data report_digest
          (finished s ++ (finished between ++ (report_text state note ++ (b'\n' ∷ noise))))
          (cursor_after report_digest s)
        ≡ terminal_report state
  terminal_report_in_data_last s between state note noise known plain no_newline bad =
      let (not_blank, one_line) = report_text_plain state note known no_newline in
      rw (terminal_report_in_data-append s _) (
        rw (classify_report_bytes-line between (report_text state note) noise one_line not_blank) (
          rw (parse_report_line-report_text state note known plain) (
            rw
              (last_reported_state-last (classify_lines (lines_of between))
                (classify_report_bytes noise)
                (record {
                  state = state;
                  note = note;
                  raw = report_text state note;
                  malformed = false;
                })
                refl bad)
              (unfold terminal_line in refl))))

  -- If no digest is empty: a supervisor who consumed the complete lines of a file has no terminal
  -- report left to hear of where the line behind them is blank.
  pub terminal_report_in_data_consumed :
      (s : Bytes)
      → blank_report_line (unfinished s) ≡ true
      → terminal_report_in_data report_digest s (cursor_after report_digest s) ≡ false
  terminal_report_in_data_consumed s h =
      subst
        (λ (t : Bytes).
          terminal_report_in_data report_digest t (cursor_after report_digest s) ≡ false)
        (finished-append-unfinished s)
        (rw (terminal_report_in_data-append s (unfinished s)) (
          rw (blank_only (unfinished s) (unfinished_no_newline s) h)
            (unfold terminal_line last_reported_state in refl)))

-- ===== src/Tests/Reports.antt =====
-- A report file as a worker writes it, and its readers (internal/state/report.go).
use secondhand.Base.{
  any, not, ◌≡◌, ◌≢◌, refl, ap, true, false, [], ◌∷◌, ◌++◌, Bytes, codes, if◌then◌else◌, ◌↔◌, arith,
}
use secondhand.Report.Space.{cut, trim_space}
use secondhand.Report.Line.{
  ReportLine, report_text, report_done, report_states, parse_report_line, terminal_report,
  parse_report_line-report_text, blank_report_line,
}
use secondhand.Report.Cursor.{covers, covers_iff_extends, report_cursor_for}
use secondhand.Report.Lines.{lines_of, finished, unfinished}
use secondhand.Report.Tail.{
  contents, tail_report, tail_loop, tail_of, tail_loop_lem, classify_lines, cursor_after,
  tail_report-append, tail_report-replaced,
}
use secondhand.Report.Polling.{polls, joined, polls_announce_once}
use secondhand.Report.Terminal.{
  split_newlines, classify_report_bytes, classify_report_bytes_lem, terminal_report_in_data,
  terminal_report_in_data_last, terminal_report_in_data_consumed,
}

-- A digest in which no two texts meet and that is never empty.
abbrev digest : Bytes → Bytes
digest s = 0 ∷ s

digest-injective : (a b : Bytes) → digest a ≡ digest b → a ≡ b
digest-injective a b h = ground arith

digest-nonempty : (s : Bytes) → digest s ≢ []
digest-nonempty s = λ h. ground arith

abbrev note : Bytes
note = codes "tests pass"

abbrev working_line : Bytes
working_line = codes "working: on it" ++ (b'\n' ∷ [])

abbrev done_line : Bytes
done_line = report_text report_done note

done-known : report_states report_done ≡ true
unfolding report_states
done-known = refl

note-trimmed : trim_space note ≡ note
unfolding trim_space
note-trimmed = refl

parse_report_line-report_text_example :
    parse_report_line done_line
    ≡ record { state = report_done; note = note; raw = done_line; malformed = false }
parse_report_line-report_text_example =
    parse_report_line-report_text report_done note done-known note-trimmed

done-not_malformed : (parse_report_line done_line).malformed ≡ false
done-not_malformed = ap (λ (r : ReportLine). r.malformed) parse_report_line-report_text_example

covers_iff_extends_example :
    (covers digest (report_cursor_for digest working_line) done_line ≡ true)
    ↔ ((more : Bytes) × (done_line ≡ working_line ++ more))
covers_iff_extends_example =
    covers_iff_extends digest digest-injective digest-nonempty working_line done_line

tail_loop_lem_example :
    tail_loop 40 (working_line ++ done_line) 15 [] ≡ tail_of working_line done_line []
tail_loop_lem_example = tail_loop_lem 40 working_line done_line [] (omega arith)

tail_report-append_example :
    tail_report digest
      (contents (finished working_line ++ done_line))
      (cursor_after digest working_line)
    ≡ (
      classify_lines (lines_of done_line),
      report_cursor_for digest (finished working_line ++ finished done_line),
      false,
    )
tail_report-append_example = tail_report-append digest digest-nonempty working_line done_line

done-not_covered : covers digest (report_cursor_for digest working_line) done_line ≡ false
unfolding covers report_cursor_for
done-not_covered = refl

tail_report-replaced_example :
    tail_report digest (contents done_line) (report_cursor_for digest working_line)
    ≡ (classify_lines (lines_of done_line), cursor_after digest done_line, false)
tail_report-replaced_example =
    tail_report-replaced digest digest-nonempty (report_cursor_for digest working_line) done_line
      done-not_covered

polls_announce_once_example :
    polls digest working_line
      (cursor_after digest working_line)
      (codes "done: te" ∷ codes "sts pass" ∷ (b'\n' ∷ []) ∷ [])
    ≡ (
      classify_lines (
          lines_of (
            unfinished working_line
            ++ joined (codes "done: te" ∷ codes "sts pass" ∷ (b'\n' ∷ []) ∷ []))),
      cursor_after digest
          (working_line ++ joined (codes "done: te" ∷ codes "sts pass" ∷ (b'\n' ∷ []) ∷ [])),
    )
polls_announce_once_example =
    polls_announce_once digest digest-nonempty working_line
      (codes "done: te" ∷ codes "sts pass" ∷ (b'\n' ∷ []) ∷ [])

classify_report_bytes_lem_example :
    classify_report_bytes (working_line ++ done_line)
    ≡ classify_lines (lines_of (working_line ++ done_line))
      ++ (if blank_report_line (unfinished (working_line ++ done_line))
          then []
          else parse_report_line (unfinished (working_line ++ done_line)) ∷ [])
classify_report_bytes_lem_example = classify_report_bytes_lem (working_line ++ done_line)

-- Free text behind the report, not ended yet.
abbrev chatter : Bytes
chatter = codes "bye"

chatter-malformed : any (λ r. not r.malformed) (classify_report_bytes chatter) ≡ false
unfolding classify_report_bytes split_newlines classify_lines blank_report_line parse_report_line
    trim_space cut
chatter-malformed = refl

terminal_report_in_data_last_example :
    terminal_report_in_data digest
      (finished working_line ++ (finished working_line ++ (done_line ++ (b'\n' ∷ chatter))))
      (cursor_after digest working_line)
    ≡ terminal_report report_done
terminal_report_in_data_last_example =
    terminal_report_in_data_last digest digest-nonempty working_line working_line report_done note
      chatter done-known note-trimmed refl chatter-malformed

nothing_unfinished : blank_report_line (unfinished working_line) ≡ true
unfolding blank_report_line unfinished trim_space
nothing_unfinished = refl

terminal_report_in_data_consumed_example :
    terminal_report_in_data digest working_line (cursor_after digest working_line) ≡ false
terminal_report_in_data_consumed_example =
    terminal_report_in_data_consumed digest digest-nonempty working_line nothing_unfinished

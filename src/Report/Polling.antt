-- ===== src/Report/Polling.antt =====
-- A reader that polls `TailReport` after each write to the file, as the watcher does, and one that
-- reads the file once (`ReadReportLines`).
use secondhand.Base.{
  ◌≡◌, ◌≢◌, refl, sym, ap, ap₂, subst, ◌∙◌, false, List, [], ◌∷◌, ◌++◌, Bytes, append-nil,
  append_assoc, Bool-cases, inl, inr,
}
use secondhand.Report.Line.{ReportLine}
use secondhand.Report.Cursor.{ReportCursor, covers, covers_iff_extends}
use secondhand.Report.Lines.{
  lines_of, finished, unfinished, finished-append-unfinished, lines_of-append, finished-append,
  unfinished-append, unfinished_no_newline, lines_of_no_newline,
}
use secondhand.Report.Tail.{
  contents, tail_report, classify_lines, classify_lines-append, cursor_after, tail_report-append,
  tail_report-replaced,
}

abbrev pub joined : List Bytes → Bytes
joined [] = []
joined (m ∷ ms) = m ++ joined ms

module _ (report_digest : Bytes → Bytes) where
  -- A poll after each of the writes, which append to the file.
  pub polls : Bytes → ReportCursor → List Bytes → List ReportLine × ReportCursor
  polls file cur [] = ([], cur)
  polls file cur (m ∷ ms) =
      let (lines, next, failed) = tail_report report_digest (contents (file ++ m)) cur in
      let (later, last) = polls (file ++ m) next ms in (lines ++ later, last)

later_lines :
    (s m rest : Bytes)
    → classify_lines (lines_of (unfinished s ++ m))
        ++ classify_lines (lines_of (unfinished (s ++ m) ++ rest))
      ≡ classify_lines (lines_of (unfinished s ++ (m ++ rest)))
later_lines s m rest = rw (unfinished-append s m) (
    sym (classify_lines-append (lines_of (unfinished s ++ m)) _)
    ∙ ap classify_lines (sym (lines_of-append (unfinished s ++ m) rest))
    ∙ ap (λ (t : Bytes). classify_lines (lines_of t)) (append_assoc (unfinished s) m rest))

module _ (report_digest : Bytes → Bytes) (nonempty : (s : Bytes) → report_digest s ≢ []) where
  -- A poll of a file that has grown.
  tail_report-grown :
      (s m : Bytes)
      → tail_report report_digest (contents (s ++ m)) (cursor_after report_digest s) ≡ (
        classify_lines (lines_of (unfinished s ++ m)),
        cursor_after report_digest (s ++ m),
        false,
      )
  tail_report-grown s m =
      subst
        (λ (t : Bytes). tail_report report_digest (contents t) (cursor_after report_digest s) ≡ (
          classify_lines (lines_of (unfinished s ++ m)),
          cursor_after report_digest (s ++ m),
          false,
        ))
        (sym (append_assoc (finished s) (unfinished s) m)
          ∙ ap (λ (t : Bytes). t ++ m) (finished-append-unfinished s))
        (rw (finished-append s m) (tail_report-append report_digest nonempty s (unfinished s ++ m)))

  -- If no digest is empty: however the writes are cut into pieces, the polls together announce every complete line that
  -- the writes finish exactly once and in order, and end with the cursor of the whole file.
  pub polls_announce_once :
      (s : Bytes) (writes : List Bytes)
      → polls report_digest s (cursor_after report_digest s) writes ≡ (
        classify_lines (lines_of (unfinished s ++ joined writes)),
        cursor_after report_digest (s ++ joined writes),
      )
  unfolding polls
  polls_announce_once s [] = rw (append-nil s) (
      rw (append-nil (unfinished s)) (
        rw (lines_of_no_newline (unfinished s) (unfinished_no_newline s))
          (unfold classify_lines in refl)))
  polls_announce_once s (m ∷ ms) = rw (tail_report-grown s m) (
      rw (polls_announce_once (s ++ m) ms) (
        ap₂ (λ (ls : List ReportLine) (t : Bytes). (ls, cursor_after report_digest t))
          (later_lines s m (joined ms)) (append_assoc s m (joined ms))))

  -- Where the file no longer starts with the complete lines of `s`, a poll with the cursor of `s`
  -- announces all its complete lines; no two texts may have one digest.
  pub tail_report-other_file :
      ((a b : Bytes) → report_digest a ≡ report_digest b → a ≡ b)
      → (s content : Bytes) → ¬ ((more : Bytes) × (content ≡ finished s ++ more))
      → tail_report report_digest (contents content) (cursor_after report_digest s)
        ≡ (classify_lines (lines_of content), cursor_after report_digest content, false)
  tail_report-other_file collision_free s content other =
      tail_report-replaced report_digest nonempty (cursor_after report_digest s) content
        (elim (Bool-cases (covers report_digest (cursor_after report_digest s) content)) [
          | inl h ↦ absurd (
              other (
                (covers_iff_extends report_digest collision_free nonempty (finished s) content).0
                  h))
          | inr h ↦ h
        ])

-- ===== src/Report/Tail.antt =====
-- `readReport`, `TailReport`, `ReadReportLines` and `classifyReportBytes` of
-- internal/state/report.go. What `os.ReadFile` gives is an argument.
use secondhand.Base.Int.{ℤ, pos, negsuc}
use secondhand.Base.{
  ℕ, zero, suc, ◌+◌, ◌<◌, ◌≡◌, ◌≢◌, refl, sym, ap, ap₂, subst, ◌∙◌, Bool, true, false, List, [],
  ◌∷◌, ◌++◌, Option, none, some, arith, nat_beq, if◌then◌else◌, Bytes, length, take, drop,
  length-append, take-length_append, drop-length_append, append-nil, append_assoc, Bool-cases, ◌⊎◌,
  inl, inr,
}
use secondhand.Report.Line.{ReportLine, parse_report_line, blank_report_line}
use secondhand.Report.Cursor.{
  ReportCursor, zero_cursor, covers, report_cursor_for, covers-report_cursor_for,
}
use secondhand.Report.Lines.{
  has_newline, lines_of, finished, unfinished, lines_of_no_newline, finished_of_no_newline,
  lines_of-line, finished-line, finished-append-unfinished,
}

-- The answer of `os.ReadFile`: the file is not there, cannot be read, or holds these bytes.
pub data FileRead : Type 0 where
  missing unreadable : FileRead
  contents : Bytes → FileRead

-- `bytes.IndexByte`, with `none` for -1.
pub index_byte : Bytes → ℕ → Option ℕ
index_byte [] b = none
index_byte (c ∷ s) b =
    let later = index_byte s b in
    if nat_beq c b then some 0 else elim later [ none ↦ none | some i ↦ some (suc i) ]

-- Blank lines are passed over, the others classified.
abbrev pub append_report : List ReportLine → Bytes → List ReportLine
append_report lines line =
    if blank_report_line line then lines else lines ++ (parse_report_line line ∷ [])

-- The loop of `TailReport`, on fuel: `tail`, `consumed` and `lines` are its variables.
pub tail_loop : ℕ → Bytes → ℕ → List ReportLine → List ReportLine × ℕ
tail_loop zero tail consumed lines = (lines, consumed)
tail_loop (suc fuel) tail consumed lines = elim (index_byte (drop consumed tail) b'\n') [
  | none ↦ (lines, consumed)
  | some idx ↦
      let line = take idx (drop consumed tail) in
      tail_loop fuel tail (consumed + (idx + 1)) (append_report lines line)
]

-- The lines of a text, blank ones passed over, classified.
unfoldable pub classify_lines : List Bytes → List ReportLine
classify_lines [] = []
classify_lines (l ∷ ls) =
    let rest = classify_lines ls in if blank_report_line l then rest else parse_report_line l ∷ rest

abbrev pub offset_of : ℤ → ℕ
offset_of (pos n) = n
offset_of (negsuc n) = 0

module _ (report_digest : Bytes → Bytes) where
  -- The bytes, the cursor that they support, and whether the read failed.
  unfoldable pub read_report : FileRead → ReportCursor → Bytes × ReportCursor × Bool
  read_report missing cur = ([], zero_cursor, false)
  read_report unreadable cur = ([], cur, true)
  read_report (contents content) cur =
      if covers report_digest cur content
      then (content, cur, false)
      else (content, zero_cursor, false)

  -- The part of `TailReport` behind the read, from the byte `start` on.
  tail_at : Bytes → ℕ → List ReportLine × ReportCursor × Bool
  unfolding tail_loop
  tail_at content start =
      let tail = drop start content in
      let (lines, consumed) = tail_loop (suc (length tail)) tail 0 [] in
      (lines, report_cursor_for report_digest (take (start + consumed) content), false)

  tail_from : Bytes × ReportCursor × Bool → List ReportLine × ReportCursor × Bool
  unfolding tail_at
  tail_from (content, base, true) = ([], base, true)
  tail_from (content, base, false) = tail_at content (offset_of base.offset)

  -- The fuel is one more than the bytes to read, and each round takes at least one.
  unfoldable pub tail_report : FileRead → ReportCursor → List ReportLine × ReportCursor × Bool
  unfolding read_report tail_from
  tail_report file cur = tail_from (read_report file cur)

index_byte-none : (s : Bytes) → has_newline s ≡ false → index_byte s b'\n' ≡ none
unfolding index_byte
index_byte-none [] h = refl
index_byte-none (c ∷ s) h = ground (arith, index_byte-none s)

index_byte-line :
    (line rest : Bytes)
    → has_newline line ≡ false
    → index_byte (line ++ (b'\n' ∷ rest)) b'\n' ≡ some (length line)
unfolding index_byte
index_byte-line [] rest h = ground arith
index_byte-line (c ∷ line) rest h = ground (arith, index_byte-line line rest)

-- A text with a newline is a first line, the newline, and a rest.
record FirstLine (s : Bytes) : Type 0 where
  line : Bytes
  rest : Bytes
  splits : s ≡ line ++ (b'\n' ∷ rest)
  plain : has_newline line ≡ false

first_line : (s : Bytes) → (has_newline s ≡ false) ⊎ FirstLine s
first_line [] = inl refl
first_line (c ∷ s) = elim (Bool-cases (nat_beq c b'\n')) [
  | inl e ↦ inr (record { line = []; rest = s; splits = ground arith; plain = refl })
  | inr e ↦ elim (first_line s) [
    | inl none_later ↦ inl (ground arith)
    | inr f ↦ inr (record {
      line = c ∷ f.line;
      rest = f.rest;
      splits = ap (◌∷◌ c) f.splits;
      plain = ground (arith, f.plain);
    })
  ]
]

pub classify_lines-append :
    (xs ys : List Bytes) → classify_lines (xs ++ ys) ≡ classify_lines xs ++ classify_lines ys
unfolding classify_lines
classify_lines-append [] ys = refl
classify_lines-append (x ∷ xs) ys = ground (arith, classify_lines-append xs ys)

append_report-classify_lines :
    (lines : List ReportLine) (line : Bytes) (ls : List Bytes)
    → append_report lines line ++ classify_lines ls ≡ lines ++ classify_lines (line ∷ ls)
unfolding classify_lines
append_report-classify_lines lines line ls =
    ground (arith, append_assoc lines (parse_report_line line ∷ []) (classify_lines ls))

-- One round, in front of a complete line.
tail_loop-line :
    (fuel : ℕ) (before line rest : Bytes) (lines : List ReportLine)
    → has_newline line ≡ false
    → tail_loop (suc fuel) (before ++ (line ++ (b'\n' ∷ rest))) (length before) lines
      ≡ tail_loop fuel
          (before ++ (line ++ (b'\n' ∷ rest)))
          (length before + (length line + 1))
          (append_report lines line)
unfolding tail_loop
tail_loop-line fuel before line rest lines plain = ground (
  arith,
  drop-length_append before (line ++ (b'\n' ∷ rest)),
  index_byte-line line rest plain,
  take-length_append line (b'\n' ∷ rest),
)

tail_loop-no_newline :
    (fuel : ℕ) (before rest : Bytes) (lines : List ReportLine)
    → has_newline rest ≡ false
    → tail_loop (suc fuel) (before ++ rest) (length before) lines ≡ (lines, length before)
unfolding tail_loop
tail_loop-no_newline fuel before rest lines h =
    ground (arith, drop-length_append before rest, index_byte-none rest h)

-- What the loop leaves: the reports of the complete lines of `rest`, and where they end.
abbrev pub tail_of : Bytes → Bytes → List ReportLine → List ReportLine × ℕ
tail_of before rest lines =
    (lines ++ classify_lines (lines_of rest), length before + length (finished rest))

tail_of-no_newline :
    (before rest : Bytes) (lines : List ReportLine)
    → has_newline rest ≡ false
    → tail_of before rest lines ≡ (lines, length before)
unfolding classify_lines
tail_of-no_newline before rest lines h =
    rw (lines_of_no_newline rest h)
      (rw (finished_of_no_newline rest h) (ground (arith, append-nil lines)))

tail_of-line :
    (before line rest : Bytes) (lines : List ReportLine)
    → has_newline line ≡ false
    → tail_of (before ++ (line ++ (b'\n' ∷ []))) rest (append_report lines line)
      ≡ tail_of before (line ++ (b'\n' ∷ rest)) lines
tail_of-line before line rest lines h = rw (lines_of-line line rest h) (
    rw (finished-line line rest h) (
      ground (
        arith,
        append_report-classify_lines lines line (lines_of rest),
        length-append before (line ++ (b'\n' ∷ [])),
        length-append line (b'\n' ∷ []),
        length-append line (b'\n' ∷ finished rest),
      )))

through-append :
    (before line rest : Bytes)
    → before ++ (line ++ (b'\n' ∷ rest)) ≡ (before ++ (line ++ (b'\n' ∷ []))) ++ rest
through-append before line rest = simp append_assoc

length-through :
    (before line : Bytes)
    → length before + (length line + 1) ≡ length (before ++ (line ++ (b'\n' ∷ [])))
length-through before line =
    omega (arith, length-append before (line ++ (b'\n' ∷ [])), length-append line (b'\n' ∷ []))

FirstLine-shorter :
    {s : Bytes} {fuel : ℕ} (f : FirstLine s) → length s < suc fuel → length f.rest < fuel
FirstLine-shorter f h =
    omega (arith, ap (length {0}) f.splits, length-append f.line (b'\n' ∷ f.rest))

-- On fuel above the number of bytes that are left, `rest`, the loop of `TailReport` does not run out:
-- it adds the reports of the complete lines of `rest`, in order and without the blank ones, to those
-- that it had, and stops behind the last newline.
pub tail_loop_lem :
    (fuel : ℕ) (before rest : Bytes) (lines : List ReportLine)
    → length rest < fuel
    → tail_loop fuel (before ++ rest) (length before) lines ≡ tail_of before rest lines
tail_loop_lem zero before rest lines h = absurd (omega arith)
tail_loop_lem (suc fuel) before rest lines h = elim (first_line rest) [
  | inl plain ↦
      tail_loop-no_newline fuel before rest lines plain
      ∙ sym (tail_of-no_newline before rest lines plain)
  | inr f ↦
      let through = before ++ (f.line ++ (b'\n' ∷ [])) in
      let later =
        tail_loop_lem fuel through f.rest (append_report lines f.line) (FirstLine-shorter f h) in
      rw f.splits (
        tail_loop-line fuel before f.line f.rest lines f.plain
        ∙ ap₂ (λ (t : Bytes) (n : ℕ). tail_loop fuel t n (append_report lines f.line))
            (through-append before f.line f.rest) (length-through before f.line)
        ∙ later
        ∙ tail_of-line before f.line f.rest lines f.plain)
]

module _ (report_digest : Bytes → Bytes) where
  -- The cursor that a reader holds who has consumed the complete lines of `s`.
  abbrev pub cursor_after : Bytes → ReportCursor
  cursor_after s = report_cursor_for report_digest (finished s)

  pub offset-report_cursor_for :
      (p : Bytes) → offset_of (report_cursor_for report_digest p).offset ≡ length p
  unfolding report_cursor_for
  offset-report_cursor_for [] = refl
  offset-report_cursor_for (c ∷ s) = refl

  take-finished :
      (p more : Bytes) → take (length p + length (finished more)) (p ++ more) ≡ p ++ finished more
  take-finished p more =
      subst (λ (m : Bytes). take (length p + length (finished more)) (p ++ m) ≡ p ++ finished more)
        (finished-append-unfinished more)
        (rw (← length-append p (finished more)) (
          rw (← append_assoc p (finished more) (unfinished more))
            (take-length_append (p ++ finished more) (unfinished more))))

  tail_at_lem :
      (p more : Bytes)
      → tail_at report_digest (p ++ more) (length p) ≡ (
        classify_lines (lines_of more),
        report_cursor_for report_digest (p ++ finished more),
        false,
      )
  unfolding tail_at
  tail_at_lem p more = ground (
    arith,
    drop-length_append p more,
    take-finished p more,
    tail_loop_lem (suc (length more)) [] more [],
  )

module _ (report_digest : Bytes → Bytes) (nonempty : (s : Bytes) → report_digest s ≢ []) where
  -- Where a file goes on from the complete lines of `s` by `more`, the tail is the reports of the
  -- complete lines of `more`, each once and in order, blank lines left out, the cursor moves to the
  -- end of the last of them, and nothing fails. No digest may be empty.
  pub tail_report-append :
      (s more : Bytes)
      → tail_report report_digest (contents (finished s ++ more)) (cursor_after report_digest s) ≡ (
        classify_lines (lines_of more),
        report_cursor_for report_digest (finished s ++ finished more),
        false,
      )
  unfolding tail_report
  tail_report-append s more =
      rw (covers-report_cursor_for report_digest nonempty (finished s) more) (
        rw (offset-report_cursor_for report_digest (finished s))
          (tail_at_lem report_digest (finished s) more))

  -- Where the cursor does not cover the file, the file is read from its start: the tail is the reports
  -- of all its complete lines, blank ones left out, and the cursor is the one after them.
  pub tail_report-replaced :
      (cur : ReportCursor) (content : Bytes)
      → covers report_digest cur content ≡ false
      → tail_report report_digest (contents content) cur
        ≡ (classify_lines (lines_of content), cursor_after report_digest content, false)
  unfolding tail_report
  tail_report-replaced cur content other = rw other (tail_at_lem report_digest [] content)

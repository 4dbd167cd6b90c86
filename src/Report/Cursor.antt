-- ===== src/Report/Cursor.antt =====
-- `ReportCursor`, `covers` and `reportCursorFor` of internal/state/report.go. `reportDigest` is
-- hex over SHA-256, both Go's: a parameter.
use secondhand.Base.Int.{ℤ, pos, negsuc}
use secondhand.Base.{
  ℕ, zero, suc, ◌-◌, ◌≡◌, ◌≢◌, refl, Bool, true, false, ◌||◌, [], ◌∷◌, ◌++◌, arith, ltb, nat_beq,
  if◌then◌else◌, Bytes, bytes_equal, bytes_equal_iff, length, take, length-append,
  take-length_append, drop, take-append-drop, ◌↔◌, sym, ap, ◌∙◌,
}

pub record ReportCursor : Type 0 where
  pub offset : ℤ
  pub digest : Bytes

abbrev pub zero_cursor : ReportCursor
zero_cursor = record { offset = pos 0; digest = [] }

-- `data[i]`, 0 out of range, where the program does not read.
abbrev byte_at : Bytes → ℕ → ℕ
byte_at [] i = 0
byte_at (c ∷ s) zero = c
byte_at (c ∷ s) (suc i) = byte_at s i

module _ (report_digest : Bytes → Bytes) where
  covers_at : ℕ → Bytes → Bytes → Bool
  covers_at n [] content = nat_beq n 0 || nat_beq (byte_at content (n - 1)) b'\n'
  covers_at n (d ∷ ds) content = bytes_equal (d ∷ ds) (report_digest (take n content))

  covers_from : ℤ → Bytes → Bytes → Bool
  unfolding covers_at
  covers_from (negsuc n) digest content = false
  covers_from (pos n) digest content =
      if ltb (length content) n then false else covers_at n digest content

  unfoldable pub covers : ReportCursor → Bytes → Bool
  unfolding covers_from
  covers c content = covers_from c.offset c.digest content

  unfoldable pub report_cursor_for : Bytes → ReportCursor
  report_cursor_for [] = zero_cursor
  report_cursor_for (c ∷ s) = record {
    offset = pos (length (c ∷ s));
    digest = report_digest (c ∷ s);
  }

  covers_at-digest :
      (n : ℕ) (digest content : Bytes)
      → digest ≢ []
      → covers_at n digest content ≡ bytes_equal digest (report_digest (take n content))
  unfolding covers_at
  covers_at-digest n [] content some_bytes = absurd (some_bytes refl)
  covers_at-digest n (d ∷ ds) content some_bytes = refl

  -- A cursor taken after `consumed` covers every file that goes on from there.
  pub covers-report_cursor_for :
      ((s : Bytes) → report_digest s ≢ [])
      → (consumed more : Bytes) → covers (report_cursor_for consumed) (consumed ++ more) ≡ true
  unfolding covers report_cursor_for
  covers-report_cursor_for nonempty [] more = ground arith
  covers-report_cursor_for nonempty (c ∷ s) more =
      let all = report_digest (c ∷ s) in
      ground (
        arith,
        covers_at-digest (suc (length s)) all (c ∷ (s ++ more)) (nonempty (c ∷ s)),
        take-length_append s more,
        length-append s more,
        bytes_equal_iff all all,
      )

  covers_takes :
      ((a b : Bytes) → report_digest a ≡ report_digest b → a ≡ b)
      → ((s : Bytes) → report_digest s ≢ [])
      → (consumed content : Bytes) → covers (report_cursor_for consumed) content ≡ true
      → take (length consumed) content ≡ consumed
  unfolding covers report_cursor_for
  covers_takes collision_free nonempty [] content h = refl
  covers_takes collision_free nonempty (c ∷ s) content h =
      let all = report_digest (c ∷ s) in
      let cut = take (suc (length s)) content in
      collision_free cut (c ∷ s) (
        ground (
          arith,
          covers_at-digest (suc (length s)) all content (nonempty (c ∷ s)),
          bytes_equal_iff all (report_digest cut),
        ))

  -- The cursor taken after `consumed` covers a file exactly when the file goes on from there, if
  -- no two texts have one digest and no digest is empty.
  pub covers_iff_extends :
      ((a b : Bytes) → report_digest a ≡ report_digest b → a ≡ b)
      → ((s : Bytes) → report_digest s ≢ [])
      → (consumed content : Bytes)
      → (covers (report_cursor_for consumed) content ≡ true)
        ↔ ((more : Bytes) × (content ≡ consumed ++ more))
  covers_iff_extends collision_free nonempty consumed content = (
    λ h.
        let taken = covers_takes collision_free nonempty consumed content h in
        (
          drop (length consumed) content,
          sym (take-append-drop (length consumed) content)
              ∙ ap (λ s. s ++ drop (length consumed) content) taken,
        ),
    λ (more, e). rw e (covers-report_cursor_for nonempty consumed more),
  )

-- ===== src/Watcher/Log.antt =====
-- The events log (`appendEventLog` of internal/watcher/watcher.go), as the lines of its file; reading
-- and replacing the file is I/O.
use secondhand.Base.{
  ℕ, zero, suc, ◌+◌, ◌-◌, ◌≤◌, ◌≡◌, ◌∙◌, ap, sym, refl, false, List, [], ◌∷◌, ◌++◌, arith,
  if◌then◌else◌, if_with, ltb, length, drop, length-append, append_assoc, append-nil,
}

abbrev pub max_event_log_lines : ℕ
max_event_log_lines = 200

-- `if len(lines) > maxEventLogLines`
unfoldable pub kept_lines {ℓ} : {A : Type ℓ} → List A → List A
kept_lines lines =
    if ltb max_event_log_lines (length lines)
    then drop (length lines - max_event_log_lines) lines
    else lines

unfoldable pub append_event_log {ℓ} : {A : Type ℓ} → List A → A → List A
append_event_log lines line = kept_lines (lines ++ (line ∷ []))

-- A log that many events were appended to.
unfoldable pub log_all {ℓ} : {A : Type ℓ} → List A → List A → List A
log_all lines [] = lines
log_all lines (e ∷ events) = log_all (append_event_log lines e) events

nothing_over : (n : ℕ) → ltb max_event_log_lines n ≡ false → 0 ≡ n - max_event_log_lines
nothing_over n h = ground arith

module _ {ℓ} {A : Type ℓ} where
  length-drop : (n : ℕ) (xs : List A) → length (drop n xs) ≡ length xs - n
  length-drop zero xs = omega arith
  length-drop (suc n) [] = omega arith
  length-drop (suc n) (x ∷ xs) = omega (arith, length-drop n xs)

  drop-nil : (n : ℕ) → drop {A = A} n [] ≡ []
  drop-nil zero = refl
  drop-nil (suc n) = refl

  drop-drop : (n m k : ℕ) (xs : List A) → n + m ≡ k → drop m (drop n xs) ≡ drop k xs
  drop-drop zero m k xs h = ap (λ (i : ℕ). drop i xs) (omega arith)
  drop-drop (suc n) m k [] h = drop-nil m ∙ sym (drop-nil k)
  drop-drop (suc n) m zero (x ∷ xs) h = absurd (omega arith)
  drop-drop (suc n) m (suc k) (x ∷ xs) h = drop-drop n m k xs (omega arith)

  drop-append : (n : ℕ) (xs ys : List A) → n ≤ length xs → drop n (xs ++ ys) ≡ drop n xs ++ ys
  drop-append zero xs ys h = refl
  drop-append (suc n) [] ys h = absurd (omega arith)
  drop-append (suc n) (x ∷ xs) ys h = drop-append n xs ys (omega arith)

  kept_lines_lem : (xs : List A) → kept_lines xs ≡ drop (length xs - max_event_log_lines) xs
  unfolding kept_lines
  kept_lines_lem xs =
      if_with (λ ys. ys ≡ drop (length xs - max_event_log_lines) xs)
        (ltb max_event_log_lines (length xs)) _ _ (λ long. refl)
        λ short. ap (λ (n : ℕ). drop n xs) (nothing_over (length xs) short)

  kept_lines-nil : [] ≡ kept_lines {A = A} []
  unfolding kept_lines
  kept_lines-nil = refl

  append_event_log-kept :
      (l : List A) (e : A) → append_event_log (kept_lines l) e ≡ kept_lines (l ++ (e ∷ []))
  unfolding append_event_log
  append_event_log-kept l e =
      let over = length l - max_event_log_lines in
      let short = drop over l in
      rw (kept_lines_lem l, kept_lines_lem (short ++ (e ∷ [])), kept_lines_lem (l ++ (e ∷ [])))
        (rw (← drop-append over l (e ∷ []) (omega arith)) (
          drop-drop over _ _ (l ++ (e ∷ []))
            (omega (arith, length-append l (e ∷ []), length-drop over (l ++ (e ∷ []))))))

  log_all-kept : (l events : List A) → log_all (kept_lines l) events ≡ kept_lines (l ++ events)
  unfolding log_all
  log_all-kept l [] = ap kept_lines (sym (append-nil l))
  log_all-kept l (e ∷ events) =
      rw (append_event_log-kept l e)
        (log_all-kept (l ++ (e ∷ [])) events ∙ ap kept_lines (append_assoc l (e ∷ []) events))

  -- However many events are appended to an empty log, one by one, it has the last 200 of them, in
  -- order, and all of them where there are at most 200; so it never has more than 200 lines.
  pub log_all_lem :
      (events : List A)
      → (log_all [] events ≡ drop (length events - max_event_log_lines) events)
        × (length (log_all [] events) ≤ max_event_log_lines)
  log_all_lem events = (ends, rw ends (omega (arith, length-drop (length events - 200) events)))
    where
      ends : log_all [] events ≡ drop (length events - max_event_log_lines) events
      ends =
          ap (λ (l : List A). log_all l events) kept_lines-nil
          ∙ log_all-kept [] events
          ∙ kept_lines_lem events

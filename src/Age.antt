-- ===== src/Age.antt =====
-- The elapsed time that hand status and the watcher show (internal/age/age.go). A duration is a whole
-- number of nanoseconds; the source goes through float64, which agrees short of the last nanosecond
-- before a full day on durations of many weeks.
use Prim.Native.Nat.{◌/◌, ◌%◌}
use Prim.Native.String
use secondhand.Base.{ℕ, zero, suc, ◌*◌, String, List, [], ◌∷◌, ltb, true, false, ◌≡◌, refl}
use secondhand.Base.Int.{ℤ, pos, negsuc}

abbrev pub second : ℕ
second = 1_000_000_000

abbrev pub minute : ℕ
minute = 60 * second

abbrev pub hour : ℕ
hour = 60 * minute

-- The digits in order; the last counts for every number past them.
text_at : ℕ → String → List String → String
text_at n t [] = t
text_at zero t (u ∷ ts) = t
text_at (suc n) t (u ∷ ts) = text_at n u ts

digit : ℕ → String
unfolding text_at
digit n = text_at n "0" ("1" ∷ "2" ∷ "3" ∷ "4" ∷ "5" ∷ "6" ∷ "7" ∷ "8" ∷ "9" ∷ [])

digits : ℕ → ℕ → String
unfolding digit
digits zero n = ""
digits (suc fuel) n = elim (ltb n 10) [
  | true ↦ digit n
  | false ↦ String.◌++◌ (digits fuel (n / 10)) (digit (n % 10))
]

-- The verb `%d` of a number that is not negative; a number has fewer digits than it is large.
unfoldable pub decimal : ℕ → String
unfolding digits
decimal n = digits (suc n) n

unfoldable pub format_duration : ℤ → String
unfolding decimal
format_duration (negsuc n) = "just now"
format_duration (pos d) = elim (ltb d minute) [
  | true ↦ "just now"
  | false ↦ elim (ltb d hour) [
    | true ↦ String.◌++◌ (decimal (d / minute)) "m"
    | false ↦ elim (ltb d (24 * hour)) [
      | true ↦ String.◌++◌ (decimal (d / hour)) "h"
      | false ↦ String.◌++◌ (decimal (d / (24 * hour))) "d"
    ]
  ]
]

days_shown : format_duration (pos (50 * hour)) ≡ "2d"
unfolding format_duration
days_shown = refl

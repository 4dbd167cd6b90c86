-- ===== src/Report/Lines.antt =====
-- What a report file holds, with no cursor and no loop: its complete lines, the bytes that they
-- take, and the unfinished line behind them.
use secondhand.Base.{
  ℕ, ◌≡◌, refl, Bool, true, false, List, [], ◌∷◌, ◌++◌, arith, nat_beq, if◌then◌else◌, Bytes, any,
  ◌≢◌, subst, append_assoc,
}

abbrev pub has_newline : Bytes → Bool
has_newline = any (λ c. nat_beq c b'\n')

-- A byte in front of the first line, if there is one.
abbrev onto_first : ℕ → List Bytes → List Bytes
onto_first c [] = []
onto_first c (l ∷ ls) = (c ∷ l) ∷ ls

unfoldable pub lines_of : Bytes → List Bytes
lines_of [] = []
lines_of (c ∷ s) = let ls = lines_of s in if nat_beq c b'\n' then [] ∷ ls else onto_first c ls

abbrev kept_if_any : ℕ → Bytes → Bytes
kept_if_any c [] = []
kept_if_any c (d ∷ s) = c ∷ d ∷ s

pub finished : Bytes → Bytes
finished [] = []
finished (c ∷ s) = let f = finished s in if nat_beq c b'\n' then b'\n' ∷ f else kept_if_any c f

unfoldable pub unfinished : Bytes → Bytes
unfinished [] = []
unfinished (c ∷ s) = let u = unfinished s in if has_newline (c ∷ s) then u else c ∷ s

pub finished_of_no_newline : (s : Bytes) → has_newline s ≡ false → finished s ≡ []
unfolding finished
finished_of_no_newline [] h = refl
finished_of_no_newline (c ∷ s) h = ground (arith, finished_of_no_newline s)

pub lines_of_no_newline : (s : Bytes) → has_newline s ≡ false → lines_of s ≡ []
unfolding lines_of
lines_of_no_newline [] h = refl
lines_of_no_newline (c ∷ s) h = ground (arith, lines_of_no_newline s)

pub lines_of_newline : (s : Bytes) → has_newline s ≡ true → lines_of s ≢ []
unfolding lines_of
lines_of_newline [] h = ground arith
lines_of_newline (c ∷ s) h = ground (arith, lines_of_newline s)

finished_of_newline : (s : Bytes) → has_newline s ≡ true → finished s ≢ []
unfolding finished
finished_of_newline [] h = ground arith
finished_of_newline (c ∷ s) h = ground (arith, finished_of_newline s)

pub finished-append-unfinished : (s : Bytes) → finished s ++ unfinished s ≡ s
unfolding finished unfinished
finished-append-unfinished [] = refl
finished-append-unfinished (c ∷ s) =
    ground (arith, finished-append-unfinished s, finished_of_newline s, finished_of_no_newline s)

-- A first line, ended by a newline, in front of any rest.
pub lines_of-line :
    (line rest : Bytes)
    → has_newline line ≡ false
    → lines_of (line ++ (b'\n' ∷ rest)) ≡ line ∷ lines_of rest
unfolding lines_of
lines_of-line [] rest h = ground arith
lines_of-line (c ∷ line) rest h = ground (arith, lines_of-line line rest)

kept_if_any-append : (c d : ℕ) (s t : Bytes) → kept_if_any c (s ++ (d ∷ t)) ≡ c ∷ (s ++ (d ∷ t))
kept_if_any-append c d [] t = refl
kept_if_any-append c d (x ∷ s) t = refl

pub finished-line :
    (line rest : Bytes)
    → has_newline line ≡ false
    → finished (line ++ (b'\n' ∷ rest)) ≡ line ++ (b'\n' ∷ finished rest)
unfolding finished
finished-line [] rest h = ground arith
finished-line (c ∷ line) rest h =
    ground (arith, finished-line line rest, kept_if_any-append c b'\n' line (finished rest))

-- What follows the complete lines of `s` is read as if it stood alone.
pub lines_of-finished_append :
    (s more : Bytes) → lines_of (finished s ++ more) ≡ lines_of s ++ lines_of more
unfolding finished lines_of
lines_of-finished_append [] more = refl
lines_of-finished_append (c ∷ s) more = ground (
  arith,
  lines_of-finished_append s more,
  finished_of_newline s,
  finished_of_no_newline s,
  lines_of_newline s,
  lines_of_no_newline s,
)

pub finished-finished_append :
    (s more : Bytes) → finished (finished s ++ more) ≡ finished s ++ finished more
unfolding finished
finished-finished_append [] more = refl
finished-finished_append (c ∷ s) more =
    ground (arith, finished-finished_append s more, finished_of_newline s, finished_of_no_newline s)

newline-append : (s t : Bytes) → has_newline s ≡ true → has_newline (s ++ t) ≡ true
newline-append [] t h = ground arith
newline-append (c ∷ s) t h = ground (arith, newline-append s t)

newline-finished : (s : Bytes) → has_newline s ≡ true → has_newline (finished s) ≡ true
unfolding finished
newline-finished [] h = ground arith
newline-finished (c ∷ s) h = ground (arith, newline-finished s, finished_of_no_newline s)

pub unfinished-finished_append :
    (s more : Bytes) → unfinished (finished s ++ more) ≡ unfinished more
unfolding finished unfinished
unfinished-finished_append [] more = refl
unfinished-finished_append (c ∷ s) more = ground (
  arith,
  unfinished-finished_append s more,
  finished_of_newline s,
  finished_of_no_newline s,
  newline-finished s,
  newline-append (finished s) more,
)

-- The lines of two texts in a row: the second goes on with what the first left unfinished.
pub lines_of-append :
    (s more : Bytes) → lines_of (s ++ more) ≡ lines_of s ++ lines_of (unfinished s ++ more)
lines_of-append s more =
    subst (λ (t : Bytes). lines_of (t ++ more) ≡ lines_of s ++ lines_of (unfinished s ++ more))
      (finished-append-unfinished s)
      (rw (append_assoc (finished s) (unfinished s) more)
        (lines_of-finished_append s (unfinished s ++ more)))

pub finished-append :
    (s more : Bytes) → finished (s ++ more) ≡ finished s ++ finished (unfinished s ++ more)
finished-append s more =
    subst (λ (t : Bytes). finished (t ++ more) ≡ finished s ++ finished (unfinished s ++ more))
      (finished-append-unfinished s)
      (rw (append_assoc (finished s) (unfinished s) more)
        (finished-finished_append s (unfinished s ++ more)))

pub unfinished-append :
    (s more : Bytes) → unfinished (s ++ more) ≡ unfinished (unfinished s ++ more)
unfinished-append s more =
    subst (λ (t : Bytes). unfinished (t ++ more) ≡ unfinished (unfinished s ++ more))
      (finished-append-unfinished s)
      (rw (append_assoc (finished s) (unfinished s) more)
        (unfinished-finished_append s (unfinished s ++ more)))

pub unfinished_no_newline : (s : Bytes) → has_newline (unfinished s) ≡ false
unfolding unfinished
unfinished_no_newline [] = refl
unfinished_no_newline (c ∷ s) = ground (arith, unfinished_no_newline s)

newline-inside : (s t : Bytes) → has_newline (s ++ (b'\n' ∷ t)) ≡ true
newline-inside [] t = refl
newline-inside (c ∷ s) t = ground (arith, newline-inside s t)

pub unfinished-line : (line rest : Bytes) → unfinished (line ++ (b'\n' ∷ rest)) ≡ unfinished rest
unfolding unfinished
unfinished-line [] rest = ground arith
unfinished-line (c ∷ line) rest =
    ground (arith, unfinished-line line rest, newline-inside line rest)

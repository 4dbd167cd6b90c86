-- ===== src/Shellquote.antt =====
-- Shell arguments (internal/shellquote/shellquote.go): `Quote`, and the reader that it is measured by,
-- how a POSIX shell takes one word off a command line.
use secondhand.Base.{
  ℕ, ◌≡◌, refl, ap, Bool, true, ◌||◌, [], ◌∷◌, ◌++◌, Option, none, some, arith, if◌then◌else◌,
  nat_beq, nat_beq_iff, Bytes, append_assoc, append-nil, Bool-cases, inl, inr,
}

abbrev pub single_quote : ℕ
single_quote = 39

abbrev pub backslash : ℕ
backslash = 92

-- `strings.ReplaceAll(value, "'", "'\''")`
unfoldable pub escape_quotes : Bytes → Bytes
escape_quotes [] = []
escape_quotes (c ∷ s) =
    let rest = escape_quotes s in
    if nat_beq c single_quote
    then single_quote ∷ backslash ∷ single_quote ∷ single_quote ∷ rest
    else c ∷ rest

unfoldable pub quote : Bytes → Bytes
quote value = (single_quote ∷ escape_quotes value) ++ (single_quote ∷ [])

-- Where the shell is in a word: outside quotes, inside single quotes, or behind a backslash.
pub data Mode : Type 0 where
  outside inside escaped : Mode

abbrev pub with_byte : ℕ → Option (Bytes × Bytes) → Option (Bytes × Bytes)
with_byte c none = none
with_byte c (some (word, rest)) = some (c ∷ word, rest)

abbrev pub is_blank : ℕ → Bool
is_blank c = nat_beq c b' ' || nat_beq c b'\t' || nat_beq c b'\n'

-- The first word and what is left of the line. Outside quotes every byte but the quote, the backslash
-- and the blanks counts as one that the shell might treat specially, so that no word is read.
unfoldable pub read_word : Mode → Bytes → Option (Bytes × Bytes)
read_word outside [] = some ([], [])
read_word outside (c ∷ s) =
    let quoted = read_word inside s in
    let behind = read_word escaped s in
    if nat_beq c single_quote
    then quoted
    else if nat_beq c backslash
    then behind
    else if is_blank c
    then some ([], c ∷ s)
    else none
read_word inside [] = none
read_word inside (c ∷ s) =
    let closed = read_word outside s in
    let more = read_word inside s in if nat_beq c single_quote then closed else with_byte c more
read_word escaped [] = none
read_word escaped (c ∷ s) = with_byte c (read_word outside s)

abbrev behind_word : Bytes → Option (Bytes × Bytes) → Option (Bytes × Bytes)
behind_word [] o = o
behind_word (c ∷ s) o = with_byte c (behind_word s o)

read_word-escape_quotes :
    (s rest : Bytes)
    → read_word inside (escape_quotes s ++ (single_quote ∷ rest))
      ≡ behind_word s (read_word outside rest)
unfolding read_word escape_quotes
read_word-escape_quotes [] rest = refl
read_word-escape_quotes (c ∷ s) rest = elim (Bool-cases (nat_beq c single_quote)) [
  | inl e ↦ rw e (
      rw ((nat_beq_iff c single_quote).0 e)
        (ap (with_byte single_quote) (read_word-escape_quotes s rest)))
  | inr e ↦ rw (e, e) (ap (with_byte c) (read_word-escape_quotes s rest))
]

behind_word-some :
    (s word rest : Bytes) → behind_word s (some (word, rest)) ≡ some (s ++ word, rest)
behind_word-some [] word rest = refl
behind_word-some (c ∷ s) word rest = ap (with_byte c) (behind_word-some s word rest)

-- Whether a word ends here: at the end of the line or at a blank.
abbrev pub ends_word : Bytes → Bool
ends_word [] = true
ends_word (c ∷ s) = is_blank c

read_word-end : (rest : Bytes) → ends_word rest ≡ true → read_word outside rest ≡ some ([], rest)
unfolding read_word
read_word-end [] h = refl
read_word-end (c ∷ s) h = ground arith

-- A shell that reads a quoted value off a command line, at whose end the line ends or a blank stands,
-- gets back exactly the value, whatever bytes it has, and goes on with exactly the rest.
pub read_word-quote :
    (value rest : Bytes)
    → ends_word rest ≡ true
    → read_word outside (quote value ++ rest) ≡ some (value, rest)
unfolding quote read_word
read_word-quote value rest h = rw (append_assoc (escape_quotes value) (single_quote ∷ []) rest) (
    rw (read_word-escape_quotes value rest, read_word-end rest h)
      (rw (behind_word-some value [] rest) (rw (append-nil value) refl)))

-- ===== src/Report/Space.antt =====
-- `strings.TrimSpace` and `strings.Cut` of Go's standard library, as internal/state/report.go uses
-- them, on the bytes of a UTF-8 text.
use mathlib.Core.Bool.{false≢true}
use mathlib.Core.List.{reverse-append}
use secondhand.Base.{
  ℕ, zero, suc, ◌-◌, ◌≡◌, ◌≢◌, refl, Bool, true, false, ◌&&◌, ◌||◌, [], ◌∷◌, ◌++◌, reverse, Option,
  none, some, arith, leb, ltb, not, ◌⊎◌, nat_beq, if◌then◌else◌, Bytes, any, Option-cases,
  Bool-cases, inl, inr,
}

-- The one-byte characters that `unicode.IsSpace` accepts.
abbrev ascii_space : ℕ → Bool
ascii_space c = nat_beq c 32 || (leb 9 c && leb c 13)

-- U+0085 and U+00A0.
abbrev space_of_two : ℕ → ℕ → Bool
space_of_two a b = nat_beq a 0xc2 && (nat_beq b 0x85 || nat_beq b 0xa0)

-- U+1680, U+2000 to U+200A, U+2028, U+2029, U+202F, U+205F and U+3000.
abbrev space_of_three : ℕ → ℕ → ℕ → Bool
space_of_three a b c =
    (nat_beq a 0xe1 && nat_beq b 0x9a && nat_beq c 0x80)
    || (nat_beq a 0xe2
        && nat_beq b 0x80
        && ((leb 0x80 c && leb c 0x8a) || nat_beq c 0xa8 || nat_beq c 0xa9 || nat_beq c 0xaf))
    || (nat_beq a 0xe2 && nat_beq b 0x81 && nat_beq c 0x9f)
    || (nat_beq a 0xe3 && nat_beq b 0x80 && nat_beq c 0x80)

-- How many bytes the space in front takes, 0 where there is none. The flag tells a text read from
-- its end, whose characters have their bytes in reverse.
space_width : Bool → Bytes → ℕ
space_width back [] = 0
space_width back (a ∷ []) = if ascii_space a then 1 else 0
space_width back (a ∷ b ∷ []) =
    if ascii_space a
    then 1
    else if (if back then space_of_two b a else space_of_two a b)
    then 2
    else 0
space_width back (a ∷ b ∷ c ∷ rest) =
    if ascii_space a
    then 1
    else if (if back then space_of_two b a else space_of_two a b)
    then 2
    else if (if back then space_of_three c b a else space_of_three a b c)
    then 3
    else 0

-- Drops `k` bytes more of the space just seen, and then every space that follows.
skip_space : Bool → ℕ → Bytes → Bytes
unfolding space_width
skip_space back k [] = []
skip_space back (suc k) (c ∷ rest) = skip_space back k rest
skip_space back zero (c ∷ rest) =
    let width = space_width back (c ∷ rest) in
    let shorter = skip_space back (width - 1) rest in if nat_beq width 0 then c ∷ rest else shorter

unfoldable pub trim_space : Bytes → Bytes
unfolding skip_space
trim_space s = reverse (skip_space true 0 (reverse (skip_space false 0 s)))

-- The text before and behind the first `sep`.
unfoldable pub cut : ℕ → Bytes → Option (Bytes × Bytes)
cut sep [] = none
cut sep (c ∷ rest) =
    let later = cut sep rest in
    if nat_beq c sep
    then some ([], rest)
    else elim later [ none ↦ none | some (before, behind) ↦ some (c ∷ before, behind) ]

-- A leading blank is trimmed away, whatever follows.
pub trim_space-blank : (s : Bytes) → trim_space (b' ' ∷ s) ≡ trim_space s
unfolding trim_space
trim_space-blank [] = refl
trim_space-blank (a ∷ []) = refl
trim_space-blank (a ∷ b ∷ s) = refl

pub cut-eq_some :
    (sep : ℕ) (s : Bytes) {before behind : Bytes}
    → cut sep s ≡ some (before, behind)
    → (s ≡ before ++ (sep ∷ behind)) × (any (λ c. nat_beq c sep) before ≡ false)
unfolding cut
cut-eq_some sep [] h = ground arith
cut-eq_some sep (c ∷ s) h = elim (Option-cases (cut sep s)) [
  | inl missing ↦ ground arith
  | inr (pair, found) ↦ ground (arith, cut-eq_some sep s found)
]

pub cut-eq_none : (sep : ℕ) (s : Bytes) → cut sep s ≡ none → any (λ c. nat_beq c sep) s ≡ false
unfolding cut
cut-eq_none sep [] h = refl
cut-eq_none sep (c ∷ s) h = ground (arith, cut-eq_none sep s)

-- The first separator is found whatever stands behind it.
pub cut-append :
    (sep : ℕ) (before behind : Bytes)
    → any (λ c. nat_beq c sep) before ≡ false
    → cut sep (before ++ (sep ∷ behind)) ≡ some (before, behind)
unfolding cut
cut-append sep [] behind h = ground arith
cut-append sep (c ∷ before) behind h = ground (arith, cut-append sep before behind)

-- A printing ASCII character, which is part of no space.
abbrev pub visible : ℕ → Bool
visible c = ltb 32 c && ltb c 128

-- None of the first `k` bytes is a printing character.
hidden : ℕ → Bytes → Bool
hidden zero s = true
hidden (suc k) [] = true
hidden (suc k) (c ∷ s) = not (visible c) && hidden k s

hidden-ascii : (a : ℕ) (s : Bytes) → ascii_space a ≡ true → hidden 1 (a ∷ s) ≡ true
unfolding hidden
hidden-ascii a s h = ground arith

hidden-two :
    (a b : ℕ) (s : Bytes)
    → (space_of_two a b ≡ true) ⊎ (space_of_two b a ≡ true)
    → hidden 2 (a ∷ b ∷ s) ≡ true
unfolding hidden
hidden-two a b s h = ground arith

wide_of_three :
    (a b c : ℕ)
    → space_of_three a b c ≡ true
    → (leb 128 a ≡ true) × (leb 128 b ≡ true) × (leb 128 c ≡ true)
wide_of_three a b c h = ground arith

hidden-three :
    (a b c : ℕ) (s : Bytes)
    → (leb 128 a ≡ true) × (leb 128 b ≡ true) × (leb 128 c ≡ true)
    → hidden 3 (a ∷ b ∷ c ∷ s) ≡ true
unfolding hidden
hidden-three a b c s h = ground arith

hidden_choice :
    (s : Bytes) (one two three : Bool)
    → (one ≡ true → hidden 1 s ≡ true)
    → (two ≡ true → hidden 2 s ≡ true)
    → (three ≡ true → hidden 3 s ≡ true)
    → hidden (if one then 1 else if two then 2 else if three then 3 else 0) s ≡ true
hidden_choice s true two three h1 h2 h3 = h1 refl
hidden_choice s false true three h1 h2 h3 = h2 refl
hidden_choice s false false true h1 h2 h3 = h3 refl
hidden_choice s false false false h1 h2 h3 = unfold hidden in refl

hidden-space_width : (back : Bool) (s : Bytes) → hidden (space_width back s) s ≡ true
unfolding space_width
hidden-space_width back [] = unfold hidden in refl
hidden-space_width back (a ∷ []) =
    hidden_choice (a ∷ []) (ascii_space a) false false (hidden-ascii a []) (λ e. cc) (λ e. cc)
hidden-space_width true (a ∷ b ∷ []) =
    hidden_choice (a ∷ b ∷ []) (ascii_space a) (space_of_two b a) false (hidden-ascii a (b ∷ []))
      (λ e. hidden-two a b [] (inr e)) (λ e. cc)
hidden-space_width false (a ∷ b ∷ []) =
    hidden_choice (a ∷ b ∷ []) (ascii_space a) (space_of_two a b) false (hidden-ascii a (b ∷ []))
      (λ e. hidden-two a b [] (inl e)) (λ e. cc)
hidden-space_width true (a ∷ b ∷ c ∷ s) =
    hidden_choice (a ∷ b ∷ c ∷ s) (ascii_space a) (space_of_two b a) (space_of_three c b a)
      (hidden-ascii a (b ∷ c ∷ s)) (λ e. hidden-two a b (c ∷ s) (inr e))
      (λ e. let (x, y, z) = wide_of_three c b a e in hidden-three a b c s (z, y, x))
hidden-space_width false (a ∷ b ∷ c ∷ s) =
    hidden_choice (a ∷ b ∷ c ∷ s) (ascii_space a) (space_of_two a b) (space_of_three a b c)
      (hidden-ascii a (b ∷ c ∷ s)) (λ e. hidden-two a b (c ∷ s) (inl e))
      (λ e. hidden-three a b c s (wide_of_three a b c e))

-- The rest of a space, once its first byte is dropped.
hidden-pred :
    (w c : ℕ) (s : Bytes)
    → hidden w (c ∷ s) ≡ true
    → nat_beq w 0 ≡ false
    → (visible c ≡ false) × (hidden (w - 1) s ≡ true)
unfolding hidden
hidden-pred zero c s h e = absurd (ground arith)
hidden-pred (suc w) c s h e = ground arith

any-visible-skip_space :
    (back : Bool) (k : ℕ) (s : Bytes)
    → hidden k s ≡ true
    → any visible s ≡ true
    → any visible (skip_space back k s) ≡ true
unfolding skip_space hidden
any-visible-skip_space back k [] h v = ground arith
any-visible-skip_space back (suc k) (c ∷ s) h v = ground (arith, any-visible-skip_space back k s)
any-visible-skip_space back zero (c ∷ s) h v = ground (
  arith,
  any-visible-skip_space back (space_width back (c ∷ s) - 1) s,
  hidden-pred (space_width back (c ∷ s)) c s (hidden-space_width back (c ∷ s)),
)

any-append : (p : ℕ → Bool) (s t : Bytes) → any p s ≡ true → any p (t ++ s) ≡ true
any-append p s [] h = h
any-append p s (c ∷ t) h = ground (arith, any-append p s t)

pub any-append_left : (p : ℕ → Bool) (s t : Bytes) → any p s ≡ true → any p (s ++ t) ≡ true
any-append_left p [] t h = ground arith
any-append_left p (c ∷ s) t h = ground (arith, any-append_left p s t)

pub any-append_both :
    (p : ℕ → Bool) (s t : Bytes) → any p s ≡ false → any p t ≡ false → any p (s ++ t) ≡ false
any-append_both p [] t h k = k
any-append_both p (c ∷ s) t h k = ground (arith, any-append_both p s t)

any-reverse : (p : ℕ → Bool) (s : Bytes) → any p s ≡ true → any p (reverse s) ≡ true
any-reverse p [] h = ground arith
any-reverse p (c ∷ s) h = rw (reverse-append (c ∷ []) s) (elim (Bool-cases (p c)) [
  | inl e ↦ any-append p (c ∷ []) (reverse s) (rw e)
  | inr e ↦ any-append_left p (reverse s) (c ∷ []) (any-reverse p s (ground arith))
])

-- A text with a printing character is not trimmed to nothing.
pub trim_space_of_visible : (s : Bytes) → any visible s ≡ true → trim_space s ≢ []
unfolding trim_space hidden
trim_space_of_visible s h e =
    let front = any-visible-skip_space false 0 s refl h in
    let both =
      any-visible-skip_space true 0 (reverse (skip_space false 0 s)) refl
        (any-reverse visible (skip_space false 0 s) front) in
    let kept = any-reverse visible (skip_space true 0 (reverse (skip_space false 0 s))) both in
    false≢true (rw e at kept)

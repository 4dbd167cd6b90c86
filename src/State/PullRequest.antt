-- ===== src/State/PullRequest.antt =====
-- `ValidatePRURL` and `ParsePRURL` of internal/state/pr.go. The pattern is matched by
-- hand: each of its repeated classes stops at the first byte that is not of the class, which the
-- literal behind it starts with.
pub mod Shape
use secondhand.Base.{
  ℕ, ◌≡◌, refl, ap, ◌∙◌, Bool, true, false, ◌||◌, ◌&&◌, not, List, [], ◌∷◌, ◌++◌, Option, none,
  some, arith, if◌then◌else◌, nat_beq, leb, any, Bytes, bytes_equal, codes, append_assoc,
  append-nil, length, take, drop, take-length_append, drop-length_append, bytes_equal_iff,
  Bool-cases, inl, inr,
}

-- `[0-9]`
abbrev pub is_digit : ℕ → Bool
is_digit c = leb 48 c && leb c 57

-- `[A-Za-z0-9._-]`
abbrev pub is_slug : ℕ → Bool
is_slug c =
    (leb 65 c && leb c 90)
    || (leb 97 c && leb c 122)
    || is_digit c
    || nat_beq c b'.'
    || nat_beq c b'_'
    || nat_beq c b'-'

-- The longest run of a class, and what follows it.
unfoldable pub span : (ℕ → Bool) → Bytes → Bytes × Bytes
span p [] = ([], [])
span p (c ∷ s) = let rest = span p s in if p c then (c ∷ rest.0, rest.1) else ([], c ∷ s)

-- What follows a literal, if the text starts with it.
unfoldable pub behind : Bytes → Bytes → Option Bytes
behind literal s =
    if bytes_equal (take (length literal) s) literal then some (drop (length literal) s) else none

abbrev pub some_of : Bytes × Bytes → Option (Bytes × Bytes)
some_of ([], s) = none
some_of (c ∷ run, s) = some (c ∷ run, s)

abbrev pub host : Bytes
host = codes "https://github.com/"

abbrev pub pull : Bytes
pull = codes "/pull/"

abbrev pub at_end : Bytes → Option (Bytes × Bytes) → Option Bytes
at_end slug (some (number, [])) = some slug
at_end slug _ = none

abbrev pub numbered : Bytes → Option Bytes → Option Bytes
numbered slug none = none
numbered slug (some s) = at_end slug (some_of (span is_digit s))

abbrev pub with_repo : Bytes → Option (Bytes × Bytes) → Option Bytes
with_repo owner none = none
with_repo owner (some (repo, s)) = numbered (owner ++ (b'/' ∷ repo)) (behind pull s)

abbrev pub repo_of : Bytes → Option Bytes → Option Bytes
repo_of owner none = none
repo_of owner (some s) = with_repo owner (some_of (span is_slug s))

abbrev pub with_owner : Option (Bytes × Bytes) → Option Bytes
with_owner none = none
with_owner (some (owner, s)) = repo_of owner (behind (b'/' ∷ []) s)

abbrev pub owner_of : Option Bytes → Option Bytes
owner_of none = none
owner_of (some s) = with_owner (some_of (span is_slug s))

-- The slug `owner/repo`.
unfoldable pub parse_pr_url : Bytes → Option Bytes
parse_pr_url url = owner_of (behind host url)

abbrev is_there : Option Bytes → Bool
is_there none = false
is_there (some s) = true

unfoldable pub validate_pr_url : Bytes → Bool
validate_pr_url url = is_there (parse_pr_url url)

abbrev pub all_of : (ℕ → Bool) → Bytes → Bool
all_of p [] = true
all_of p (c ∷ s) = p c && all_of p s

abbrev stops : (ℕ → Bool) → Bytes → Bool
stops p [] = true
stops p (c ∷ s) = not (p c)

span-append :
    (p : ℕ → Bool) (run s : Bytes)
    → all_of p run ≡ true
    → stops p s ≡ true
    → span p (run ++ s) ≡ (run, s)
unfolding span
span-append p [] [] h k = refl
span-append p [] (c ∷ s) h k = ground arith
span-append p (c ∷ run) s h k =
    let rest = span-append p run s (ground arith) k in ground (arith, rest)

span-all : (p : ℕ → Bool) (run : Bytes) → all_of p run ≡ true → span p run ≡ (run, [])
unfolding span
span-all p [] h = refl
span-all p (c ∷ run) h = let rest = span-all p run (ground arith) in ground (arith, rest)

behind-append : (literal s : Bytes) → behind literal (literal ++ s) ≡ some s
unfolding behind
behind-append literal s =
    rw
      (
        take-length_append literal s,
        drop-length_append literal s,
        (bytes_equal_iff literal literal).1 refl,
      )
      refl

abbrev pub pr_url : Bytes → Bytes → Bytes → Bytes
pr_url owner repo number = host ++ (owner ++ ((b'/' ∷ []) ++ (repo ++ (pull ++ number))))

-- The URL of a pull request, of an owner, a repository and a number that are not empty and of the
-- bytes that the pattern allows, is valid, and its slug is the owner and the repository.
pub parse_pr_url-pr_url :
    (o : ℕ) (wner : Bytes) (r : ℕ) (epo : Bytes) (d : ℕ) (igits : Bytes)
    → all_of is_slug (o ∷ wner) ≡ true
    → all_of is_slug (r ∷ epo) ≡ true
    → all_of is_digit (d ∷ igits) ≡ true
    → parse_pr_url (pr_url (o ∷ wner) (r ∷ epo) (d ∷ igits)) ≡ some ((o ∷ wner) ++ (b'/' ∷ r ∷ epo))
unfolding parse_pr_url
parse_pr_url-pr_url o wner r epo d igits owner repo number =
    ap owner_of (behind-append host _)
    ∙ ap (λ x. with_owner (some_of x)) (span-append is_slug (o ∷ wner) _ owner refl)
    ∙ ap (repo_of (o ∷ wner)) (behind-append (b'/' ∷ []) _)
    ∙ ap (λ x. with_repo (o ∷ wner) (some_of x)) (span-append is_slug (r ∷ epo) _ repo refl)
    ∙ ap (numbered ((o ∷ wner) ++ (b'/' ∷ r ∷ epo))) (behind-append pull (d ∷ igits))
    ∙ ap (λ x. at_end ((o ∷ wner) ++ (b'/' ∷ r ∷ epo)) (some_of x))
        (span-all is_digit (d ∷ igits) number)

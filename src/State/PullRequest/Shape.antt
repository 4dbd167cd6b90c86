-- ===== src/State/PullRequest/Shape.antt =====
-- Nothing but the URL of a pull request is ever accepted as one (internal/state/pr.go).
use secondhand.Base.{
  ℕ, ◌≡◌, refl, ap, sym, ◌∙◌, Bool, true, false, [], ◌∷◌, ◌++◌, Option, none, some, arith, Bytes,
  bytes_equal, take, drop, length, take-append-drop, bytes_equal_iff, append-nil, Bool-cases, inl,
  inr, ◌↔◌,
}
use secondhand.State.PullRequest.{
  is_digit, is_slug, span, behind, some_of, host, pull, at_end, numbered, with_repo, repo_of,
  with_owner, owner_of, parse_pr_url, all_of, pr_url, parse_pr_url-pr_url,
}

-- The URL of a pull request of the slug.
pub record IsPrUrl (url slug : Bytes) : Type 0 where
  pub o : ℕ
  pub wner : Bytes
  pub r : ℕ
  pub epo : Bytes
  pub d : ℕ
  pub igits : Bytes
  pub owner_slug : all_of is_slug (o ∷ wner) ≡ true
  pub repo_slug : all_of is_slug (r ∷ epo) ≡ true
  pub digits : all_of is_digit (d ∷ igits) ≡ true
  pub url_is : url ≡ pr_url (o ∷ wner) (r ∷ epo) (d ∷ igits)
  pub slug_is : slug ≡ (o ∷ wner) ++ (b'/' ∷ r ∷ epo)

span-splits :
    (p : ℕ → Bool) (s run rest : Bytes)
    → span p s ≡ (run, rest)
    → (s ≡ run ++ rest) × (all_of p run ≡ true)
unfolding span
span-splits p [] run rest h = ground arith
span-splits p (c ∷ s) run rest h =
    let deeper = span-splits p s (span p s).0 (span p s).1 refl in ground (arith, deeper)

behind-splits : (literal s t : Bytes) → behind literal s ≡ some t → s ≡ literal ++ t
unfolding behind
behind-splits literal s t h = elim (Bool-cases (bytes_equal (take (length literal) s) literal)) [
  | inl e ↦
      let front = (bytes_equal_iff (take (length literal) s) literal).0 e in
      let rest : drop (length literal) s ≡ t = ground (arith, h, e) in
      sym (take-append-drop (length literal) s) ∙ rw (front, rest) refl
  | inr e ↦ absurd (none_found literal s t h e)
]
  where
    none_found :
        (literal s t : Bytes)
        → behind literal s ≡ some t
        → bytes_equal (take (length literal) s) literal ≡ false
        → ⊥
    none_found literal s t h e = ground arith

module _ (url slug : Bytes) where
  at_end-inv :
      (expected s : Bytes) (q : Bytes × Bytes)
      → span is_digit s ≡ q
      → at_end expected (some_of q) ≡ some slug
      → (d : ℕ) × (igits : Bytes) × (s ≡ d ∷ igits)
        × (all_of is_digit (d ∷ igits) ≡ true)
        × (slug ≡ expected)
  at_end-inv expected s ([], t) e h = cc
  at_end-inv expected s (d ∷ run, []) e h =
      let (splits, digits) = span-splits is_digit s (d ∷ run) [] e in
      (d, run, splits ∙ append-nil (d ∷ run), digits, ground arith)
  at_end-inv expected s (d ∷ run, c ∷ t) e h = cc

  numbered-inv :
      (expected s : Bytes) (o : Option Bytes)
      → behind pull s ≡ o
      → numbered expected o ≡ some slug
      → (d : ℕ) × (igits : Bytes) × (s ≡ pull ++ (d ∷ igits))
        × (all_of is_digit (d ∷ igits) ≡ true)
        × (slug ≡ expected)
  numbered-inv expected s none e h = cc
  numbered-inv expected s (some t) e h =
      let (d, igits, rest, digits, same) = at_end-inv expected t (span is_digit t) refl h in
      (d, igits, behind-splits pull s t e ∙ ap (λ (u : Bytes). pull ++ u) rest, digits, same)

  with_repo-inv :
      (owner s : Bytes) (q : Bytes × Bytes)
      → span is_slug s ≡ q
      → with_repo owner (some_of q) ≡ some slug
      → (r : ℕ) × (epo : Bytes) × (d : ℕ) × (igits : Bytes) × (s
          ≡ (r ∷ epo) ++ (pull ++ (d ∷ igits)))
        × (all_of is_slug (r ∷ epo) ≡ true)
        × (all_of is_digit (d ∷ igits) ≡ true)
        × (slug ≡ owner ++ (b'/' ∷ r ∷ epo))
  with_repo-inv owner s ([], t) e h = cc
  with_repo-inv owner s (r ∷ epo, t) e h =
      let (splits, slugs) = span-splits is_slug s (r ∷ epo) t e in
      let (d, igits, rest, digits, same) =
        numbered-inv (owner ++ (b'/' ∷ r ∷ epo)) t (behind pull t) refl h in
      (r, epo, d, igits, splits ∙ ap (λ (u : Bytes). (r ∷ epo) ++ u) rest, slugs, digits, same)

  repo_of-inv :
      (owner s : Bytes) (o : Option Bytes)
      → behind (b'/' ∷ []) s ≡ o
      → repo_of owner o ≡ some slug
      → (r : ℕ) × (epo : Bytes) × (d : ℕ) × (igits : Bytes) × (s
          ≡ (b'/' ∷ []) ++ ((r ∷ epo) ++ (pull ++ (d ∷ igits))))
        × (all_of is_slug (r ∷ epo) ≡ true)
        × (all_of is_digit (d ∷ igits) ≡ true)
        × (slug ≡ owner ++ (b'/' ∷ r ∷ epo))
  repo_of-inv owner s none e h = cc
  repo_of-inv owner s (some t) e h =
      let (r, epo, d, igits, rest, slugs, digits, same) =
        with_repo-inv owner t (span is_slug t) refl h in
      (
        r,
        epo,
        d,
        igits,
        behind-splits (b'/' ∷ []) s t e ∙ ap (λ (u : Bytes). (b'/' ∷ []) ++ u) rest,
        slugs,
        digits,
        same,
      )

  with_owner-inv :
      (s : Bytes) (q : Bytes × Bytes)
      → url ≡ host ++ s
      → span is_slug s ≡ q
      → with_owner (some_of q) ≡ some slug
      → IsPrUrl url slug
  with_owner-inv s ([], t) front e h = cc
  with_owner-inv s (o ∷ wner, t) front e h =
      let (splits, slugs) = span-splits is_slug s (o ∷ wner) t e in
      let (r, epo, d, igits, rest, repo, digits, same) =
        repo_of-inv (o ∷ wner) t (behind (b'/' ∷ []) t) refl h in
      record {
        o = o;
        wner = wner;
        r = r;
        epo = epo;
        d = d;
        igits = igits;
        owner_slug = slugs;
        repo_slug = repo;
        digits = digits;
        url_is =
            front
            ∙ ap (λ (u : Bytes). host ++ u) (splits ∙ ap (λ (u : Bytes). (o ∷ wner) ++ u) rest);
        slug_is = same;
      }

  owner_of-inv :
      (o : Option Bytes) → behind host url ≡ o → owner_of o ≡ some slug → IsPrUrl url slug
  owner_of-inv none e h = cc
  owner_of-inv (some s) e h = with_owner-inv s (span is_slug s) (behind-splits host url s e) refl h

-- A text is accepted, with a slug, exactly where it is the URL of a pull request, of an owner, a
-- repository and a number that are not empty and of the bytes that the pattern allows, and the slug
-- is the owner and the repository: nothing stands before, between or behind them.
pub parse_pr_url-IsPrUrl : (url slug : Bytes) → (parse_pr_url url ≡ some slug) ↔ IsPrUrl url slug
unfolding parse_pr_url
parse_pr_url-IsPrUrl url slug = (owner_of-inv url slug (behind host url) refl, accepted)
  where
    accepted : IsPrUrl url slug → parse_pr_url url ≡ some slug
    accepted u =
        rw (u.url_is, u.slug_is)
          (parse_pr_url-pr_url u.o u.wner u.r u.epo u.d u.igits u.owner_slug u.repo_slug u.digits)

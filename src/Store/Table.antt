-- ===== src/Store/Table.antt =====
-- A table with a primary key, in the order of insertion.
use secondhand.Base.{
  ◌≡◌, refl, Bool, false, List, [], ◌∷◌, ◌++◌, Option, none, some, arith, if◌then◌else◌, any,
  Comparable, ◌==◌, Bool-cases, inl, inr,
}

-- `unset` where no row has the key.
abbrev pub changed {ℓ} : {R : Type ℓ} → (R → R) → Option R → Option R
changed f none = none
changed f (some r) = some (f r)

abbrev pub or_else {ℓ} : {R : Type ℓ} → Option R → Option R → Option R
or_else none o = o
or_else (some r) o = some r

abbrev pub kept_if {ℓ} : {R : Type ℓ} → (R → Bool) → Option R → Option R
kept_if p none = none
kept_if p (some r) = if p r then some r else none

module _ {K R : Type 0} ⦃e : Comparable K⦄ (key : R → K) where
  -- `SELECT … WHERE key = k`
  unfoldable pub get : K → List R → Option R
  get k [] = none
  get k (r ∷ rows) = if key r == k then some r else get k rows

  -- The row of a key, changed in place.
  unfoldable pub modify : K → (R → R) → List R → List R
  modify k f [] = []
  modify k f (r ∷ rows) = if key r == k then f r ∷ rows else r ∷ modify k f rows

  -- `DELETE`: the rows that a test keeps.
  unfoldable pub keep : (R → Bool) → List R → List R
  keep p [] = []
  keep p (r ∷ rows) = let rest = keep p rows in if p r then r ∷ rest else rest

  -- What the primary key's index sees to.
  abbrev pub IsKeyed : List R → Type 0
  IsKeyed [] = Unit
  IsKeyed (r ∷ rows) = (get (key r) rows ≡ none) × IsKeyed rows

  pub get_key : (k : K) (rows : List R) {r : R} → get k rows ≡ some r → key r ≡ k
  unfolding get
  get_key k [] h = ground arith
  get_key k (x ∷ rows) {r} h = ground (arith, e.same_iff (key x) k, get_key k rows {r = r})

  pub get-modify :
      (k j : K) (f : R → R) (rows : List R)
      → ((r : R) → key (f r) ≡ key r)
      → get j (modify k f rows) ≡ (if k == j then changed f (get j rows) else get j rows)
  unfolding get modify
  get-modify k j f [] same = ground arith
  get-modify k j f (r ∷ rows) same = ground (
    arith,
    same r,
    e.same_iff (key r) k,
    e.same_iff (key r) j,
    e.same_iff k j,
    get-modify k j f rows same,
  )

  pub get-insert :
      (j : K) (r : R) (rows : List R)
      → get j (rows ++ (r ∷ [])) ≡ or_else (get j rows) (if key r == j then some r else none)
  unfolding get
  get-insert j r [] = ground arith
  get-insert j r (x ∷ rows) = ground (arith, get-insert j r rows)

  pub IsKeyed-insert :
      (r : R) (rows : List R) → IsKeyed rows → get (key r) rows ≡ none → IsKeyed (rows ++ (r ∷ []))
  unfolding get
  IsKeyed-insert r [] h absent = (refl, tt)
  IsKeyed-insert r (x ∷ rows) h absent = (
    ground (
      arith,
      get-insert (key x) r rows,
      h.0,
      e.same_iff (key r) (key x),
      e.same_iff (key x) (key r),
    ),
    IsKeyed-insert r rows h.1 (ground arith),
  )

  pub IsKeyed-modify :
      (k : K) (f : R → R) (rows : List R)
      → ((r : R) → key (f r) ≡ key r)
      → IsKeyed rows
      → IsKeyed (modify k f rows)
  unfolding modify
  IsKeyed-modify k f [] same h = tt
  IsKeyed-modify k f (x ∷ rows) same h = elim (Bool-cases (key x == k)) [
    | inl e' ↦ rw e' (rw (same x) h.0, h.1)
    | inr e' ↦
        rw e'
          (ground (arith, get-modify k (key x) f rows same, h.0), IsKeyed-modify k f rows same h.1)
  ]

  pub get-keep :
      (j : K) (p : R → Bool) (rows : List R)
      → IsKeyed rows
      → get j (keep p rows) ≡ kept_if p (get j rows)
  unfolding get keep
  get-keep j p [] h = refl
  get-keep j p (r ∷ rows) h = ground (arith, get-keep j p rows h.1, e.same_iff (key r) j)

  pub IsKeyed-keep : (p : R → Bool) (rows : List R) → IsKeyed rows → IsKeyed (keep p rows)
  unfolding keep
  IsKeyed-keep p [] h = tt
  IsKeyed-keep p (r ∷ rows) h = elim (Bool-cases (p r)) [
    | inl e' ↦ rw e' (ground (arith, get-keep (key r) p rows h.1, h.0), IsKeyed-keep p rows h.1)
    | inr e' ↦ rw e' (IsKeyed-keep p rows h.1)
  ]

  -- A row that a key finds is among the rows that a test is made on.
  pub any-get :
      (k : K) (p : R → Bool) (rows : List R) {r : R}
      → get k rows ≡ some r
      → any p rows ≡ false
      → p r ≡ false
  unfolding get
  any-get k p [] h a = ground arith
  any-get k p (x ∷ rows) {r} h a = ground (arith, any-get k p rows {r = r})

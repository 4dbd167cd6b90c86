-- ===== src/Store/Sends/Rows.antt =====
-- What the statements of Store/Sends.antt do to the rows of `send_attempt`.
use secondhand.Base.{
  ℕ, String, ◌≡◌, ◌≢◌, refl, Bool, true, false, ◌&&◌, List, [], ◌∷◌, ◌++◌, none, some, arith,
  if◌then◌else◌, ◌⊎◌, ◌==◌, nat_beq, nat_beq_iff, nat_eq, string_eq, Bool-cases, inl, inr,
}
use secondhand.Store.Types.{SendAttempt, SendState, is_send, uncertain}
use secondhand.Store.Table.{
  get, modify, changed, IsKeyed, get-modify, get-insert, IsKeyed-insert, IsKeyed-modify, any-get,
}
use secondhand.Store.Tables.{send_id_of}
use secondhand.Store.Sends.{is_pending, has_pending, set_all, finalized}

-- An attempt has at most one pending send.
abbrev pub OnePending : List SendAttempt → Type 0
OnePending rows =
    (m n : ℕ) (x y : SendAttempt)
    → get send_id_of m rows ≡ some x
    → get send_id_of n rows ≡ some y
    → is_pending x ≡ true
    → is_pending y ≡ true
    → x.attempt_id ≡ y.attempt_id
    → m ≡ n

-- From the rows `v` to the rows `w`: the keys and the pending sends stay in order, a send that is
-- final stays as it is, and a pending one keeps what it was to deliver.
pub record Moves (v w : List SendAttempt) : Type 0 where
  pub keyed : IsKeyed send_id_of w
  pub one : OnePending w
  pub final :
      (n : ℕ) (x : SendAttempt)
      → get send_id_of n v ≡ some x
      → is_pending x ≡ false
      → get send_id_of n w ≡ some x
  pub carried :
      (n : ℕ) (x : SendAttempt)
      → get send_id_of n v ≡ some x
      → (y : SendAttempt) × (get send_id_of n w ≡ some y)
        × (y.attempt_id ≡ x.attempt_id)
        × (y.message ≡ x.message)

module _ (rows : List SendAttempt) (keyed : IsKeyed send_id_of rows) (one : OnePending rows) where
  pub Moves-refl : Moves rows rows
  Moves-refl = record {
    keyed = keyed;
    one = one;
    final = λ n x there p. there;
    carried = λ n x there. (x, there, refl, refl);
  }

  pub insert-Moves :
      (b : SendAttempt)
      → get send_id_of b.id rows ≡ none
      → (is_pending b && has_pending b.attempt_id rows) ≡ false
      → Moves rows (rows ++ (b ∷ []))
  insert-Moves b new free = record {
    keyed = IsKeyed-insert send_id_of b rows keyed new;
    one = λ m n x y there_x there_y px py same. ground (
      arith,
      get-insert send_id_of m b rows,
      get-insert send_id_of n b rows,
      one m n x y,
      none_free m x,
      none_free n y,
      nat_beq_iff b.id m,
      nat_beq_iff b.id n,
    );
    final = λ n x there p. ground (arith, get-insert send_id_of n b rows);
    carried = λ n x there. (x, ground (arith, get-insert send_id_of n b rows), refl, refl);
  }
    where
      none_free :
          (m : ℕ) (x : SendAttempt)
          → get send_id_of m rows ≡ some x
          → is_pending x ≡ true
          → is_pending b ≡ true
          → x.attempt_id ≢ b.attempt_id
      none_free m x there px pb same = ground (
        arith,
        any-get send_id_of m (λ z. nat_beq z.attempt_id b.attempt_id && is_pending z) rows {r = x}
            there,
        nat_beq_iff x.attempt_id b.attempt_id,
      )

  pub modify-Moves :
      (k : ℕ) (next : SendState) (reason at : String) (z : SendAttempt)
      → is_send next SendState.pending ≡ false
      → get send_id_of k rows ≡ some z
      → is_pending z ≡ true
      → Moves rows (modify send_id_of k (finalized next reason at) rows)
  modify-Moves k next reason at z over there_z pz =
      let found =
        λ (n : ℕ). get-modify send_id_of k n (finalized next reason at) rows (λ x. refl) in
      record {
        keyed = IsKeyed-modify send_id_of k _ rows (λ x. refl) keyed;
        one = λ m n x y there_x there_y px py same.
            ground (arith, found m, found n, one m n x y, nat_beq_iff k m, nat_beq_iff k n);
        final = λ n x there p. ground (arith, found n, nat_beq_iff k n);
        carried = λ n x there. carry n x there (found n);
      }
    where
      carry :
          (n : ℕ) (x : SendAttempt)
          → get send_id_of n rows ≡ some x
          → get send_id_of n (modify send_id_of k (finalized next reason at) rows) ≡ (
              if k == n
              then changed (finalized next reason at) (get send_id_of n rows)
              else get send_id_of n rows)
          → (y : SendAttempt) × (get send_id_of n
                (modify send_id_of k (finalized next reason at) rows)
              ≡ some y)
            × (y.attempt_id ≡ x.attempt_id)
            × (y.message ≡ x.message)
      carry n x there e = elim (Bool-cases (nat_beq k n)) [
        | inl h ↦ (finalized next reason at x, rw e (rw (h, there)), refl, refl)
        | inr h ↦ (x, rw e (rw (h, there)), refl, refl)
      ]

-- `UPDATE` of every row that a test picks.
get-set_all :
    (n : ℕ) (p : SendAttempt → Bool) (f : SendAttempt → SendAttempt) (rows : List SendAttempt)
    → ((x : SendAttempt) → (f x).id ≡ x.id)
    → get send_id_of n (set_all p f rows)
      ≡ changed (λ x. if p x then f x else x) (get send_id_of n rows)
unfolding get set_all
get-set_all n p f [] same = refl
get-set_all n p f (x ∷ rows) same = ground (arith, get-set_all n p f rows same, same x)

IsKeyed-set_all :
    (p : SendAttempt → Bool) (f : SendAttempt → SendAttempt) (rows : List SendAttempt)
    → ((x : SendAttempt) → (f x).id ≡ x.id)
    → IsKeyed send_id_of rows
    → IsKeyed send_id_of (set_all p f rows)
unfolding set_all
IsKeyed-set_all p f [] same h = tt
IsKeyed-set_all p f (x ∷ rows) same h = elim (Bool-cases (p x)) [
  | inl e ↦ rw e (
    rw (same x) (rw (get-set_all x.id p f rows same) (rw h.0 refl)),
    IsKeyed-set_all p f rows same h.1,
  )
  | inr e ↦
      rw e (rw (get-set_all x.id p f rows same) (rw h.0 refl), IsKeyed-set_all p f rows same h.1)
]

pub set_all-Moves :
    (p : SendAttempt → Bool) (reason at : String) (rows : List SendAttempt)
    → IsKeyed send_id_of rows
    → OnePending rows
    → ((x : SendAttempt) → is_pending x ≡ false → p x ≡ false)
    → Moves rows (set_all p (finalized uncertain reason at) rows)
set_all-Moves p reason at rows keyed one only_pending =
    let end = finalized uncertain reason at in
    let found = λ (n : ℕ). get-set_all n p end rows (λ x. refl) in
    record {
      keyed = IsKeyed-set_all p end rows (λ x. refl) keyed;
      one = λ m n x y there_x there_y px py same.
          one m n x y (left_as m x there_x px (found m)) (left_as n y there_y py (found n)) px py
            same;
      final = λ n x there q. rw (found n) (rw there (rw (only_pending x q) refl));
      carried = λ n x there. carry n x there (found n) (Bool-cases (p x));
    }
  where
    left_as :
        (n : ℕ) (x : SendAttempt)
        → get send_id_of n (set_all p (finalized uncertain reason at) rows) ≡ some x
        → is_pending x ≡ true
        → get send_id_of n (set_all p (finalized uncertain reason at) rows)
          ≡ changed
              (λ z. if p z then finalized uncertain reason at z else z)
              (get send_id_of n rows)
        → get send_id_of n rows ≡ some x
    left_as n x there px e = ground arith

    carry :
        (n : ℕ) (x : SendAttempt)
        → get send_id_of n rows ≡ some x
        → get send_id_of n (set_all p (finalized uncertain reason at) rows)
          ≡ changed
              (λ z. if p z then finalized uncertain reason at z else z)
              (get send_id_of n rows)
        → (p x ≡ true) ⊎ (p x ≡ false)
        → (y : SendAttempt) × (get send_id_of n (set_all p (finalized uncertain reason at) rows)
            ≡ some y)
          × (y.attempt_id ≡ x.attempt_id)
          × (y.message ≡ x.message)
    carry n x there e (inl h) =
        (finalized uncertain reason at x, rw e (rw (there, h) refl), refl, refl)
    carry n x there e (inr h) = (x, rw e (rw (there, h) refl), refl, refl)

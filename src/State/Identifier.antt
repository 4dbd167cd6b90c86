-- ===== src/State/Identifier.antt =====
-- `ValidateID` of internal/state/task.go. `filepath.Base` is Go's, an argument. A text is its code
-- points.
use secondhand.Base.{
  ℕ, String, ◌≡◌, refl, Bool, true, false, ◌||◌, ◌&&◌, not, List, [], ◌∷◌, arith, if◌then◌else◌,
  ◌==◌, string_eq, nat_beq, leb, any, codes,
}

abbrev pub is_id_character : ℕ → Bool
is_id_character r =
    (leb b'a' r && leb r b'z')
    || (leb b'A' r && leb r b'Z')
    || (leb b'0' r && leb r b'9')
    || nat_beq r b'-'
    || nat_beq r b'_'
    || nat_beq r b'.'

unfoldable pub validate_id : (String → String) → String → Bool
validate_id base id =
    if id == "" || id == "." || id == ".." || not (base id == id)
    then false
    else not (any (λ r. not (is_id_character r)) (codes id))

no_separator :
    (rs : List ℕ)
    → any (λ r. not (is_id_character r)) rs ≡ false
    → any (λ r. nat_beq r b'/') rs ≡ false
no_separator [] h = refl
no_separator (r ∷ rs) h = ground (arith, no_separator rs)

-- An id that is accepted names a file of its own in a directory: it is no path, neither the directory
-- nor the one above it, and holds no separator.
validate_id-safe :
    (base : String → String) (id : String)
    → validate_id base id ≡ true
    → ((id == "." || id == "..") ≡ false) × (any (λ r. nat_beq r b'/') (codes id) ≡ false)
unfolding validate_id
validate_id-safe base id h = (ground arith, no_separator (codes id) (ground arith))

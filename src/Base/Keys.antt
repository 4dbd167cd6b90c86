-- ===== src/Base/Keys.antt =====
-- Equality tests of the keys and texts that the program compares.
use Prim.Native.Nat.{ℕ}
use Prim.Native.String.{String}
use mathlib.Core.Path.{◌≡◌}
use mathlib.Core.Logic.{◌↔◌}
use mathlib.Core.Bool.{Bool, true}
use text.Mathlib.Text.{◌==◌ as text_equal}
use text.Mathlib.TextEquality.{eq_iff}
use secondhand.Base.Tests.{nat_beq, nat_beq_iff}

-- Go's comparable types, as far as keys go.
pub record Comparable {ℓ} (K : Type ℓ) : Type ℓ where
  pub same : K → K → Bool
  pub same_iff : (k j : K) → (same k j ≡ true) ↔ (k ≡ j)

-- Task ids, names, and every other text.
instance abbrev pub string_eq : Comparable String
string_eq = record { same_iff = eq_iff; same = text_equal }

-- The ids that SQLite numbers.
instance abbrev pub nat_eq : Comparable ℕ
nat_eq = record { same_iff = nat_beq_iff; same = nat_beq }

infix 50 ◌==◌
-- `==` on keys.
abbrev pub ◌==◌ {ℓ} : {K : Type ℓ} ⦃comparable : Comparable K⦄ → K → K → Bool
◌==◌ ⦃comparable⦄ = comparable.same

-- ===== src/Base/Latch.antt =====
-- A step that answers at most once: it waits, fires on the first input that is due, and is silent
-- from then on.
use mathlib.Core.Path.{◌≡◌, refl, ap}
use mathlib.Core.Bool.{Bool, true, false}
use mathlib.Core.Option.{Option, none, some}
use mathlib.Core.List.{List, [], ◌∷◌}
use mathlib.Core.Logic.{inl, inr}
use secondhand.Base.Tests.{if◌then◌else◌, Bool-cases}
use secondhand.Base.Lists.{any}

abbrev pub with_answer {ℓ} : {E : Type ℓ} → Option E → List E → List E
with_answer none es = es
with_answer (some e) es = e ∷ es

-- The answers along a list of inputs.
abbrev pub answers {ℓ} : {S A E : Type ℓ} → (A → S → S × Option E) → List A → S → List E
answers step [] s = []
answers step (a ∷ inputs) s = with_answer (step a s).1 (answers step inputs (step a s).0)

abbrev pub first_due {ℓ} : {A E : Type ℓ} → (A → Bool) → (A → E) → List A → List E
first_due due e [] = []
first_due due e (a ∷ inputs) = if due a then e a ∷ [] else first_due due e inputs

pub record IsLatch {ℓ} {S A E : Type ℓ} (step : A → S → S × Option E) (due : A → Bool) (e : A → E)
    (IsArmed IsFired : S → Type ℓ) : Type ℓ where
  pub fires :
      (a : A) (s : S)
      → IsArmed s
      → due a ≡ true
      → IsFired (step a s).0 × ((step a s).1 ≡ some (e a))
  pub waits :
      (a : A) (s : S) → IsArmed s → due a ≡ false → IsArmed (step a s).0 × ((step a s).1 ≡ none)
  pub stays : (a : A) (s : S) → IsFired s → IsFired (step a s).0 × ((step a s).1 ≡ none)

module _ {ℓ} {S A E : Type ℓ} {step : A → S → S × Option E} {due : A → Bool} {e : A → E}
    {IsArmed IsFired : S → Type ℓ} (latch : IsLatch step due e IsArmed IsFired) where
  pub answers-fired : (inputs : List A) (s : S) → IsFired s → answers step inputs s ≡ []
  answers-fired [] s h = refl
  answers-fired (a ∷ inputs) s h =
      let (still, quiet) = latch.stays a s h in rw quiet (answers-fired inputs _ still)

  pub answers-armed :
      (inputs : List A) (s : S) → IsArmed s → answers step inputs s ≡ first_due due e inputs
  answers-armed [] s h = refl
  answers-armed (a ∷ inputs) s h = elim (Bool-cases (due a)) [
    | inl now ↦
        let (fired, said) = latch.fires a s h now in
        rw (now, said) (ap (◌∷◌ (e a)) (answers-fired inputs _ fired))
    | inr later ↦
        let (armed, quiet) = latch.waits a s h later in
        rw (later, quiet) (answers-armed inputs _ armed)
  ]

pub first_due-constant {ℓ} :
    {A E : Type ℓ} (due : A → Bool) (x : E) (inputs : List A)
    → first_due due (λ a. x) inputs ≡ (if any due inputs then x ∷ [] else [])
first_due-constant due x [] = refl
first_due-constant due x (a ∷ inputs) = elim (Bool-cases (due a)) [
  | inl now ↦ rw now refl
  | inr later ↦ rw later (first_due-constant due x inputs)
]

-- ===== src/Base/Picks.antt =====
-- One element taken out of a list by its place, as a channel or a scheduler takes one of several.
use mathlib.Core.Path.{◌≡◌, subst}
use mathlib.Core.Bool.{Bool, ◌||◌}
use mathlib.Core.Option.{Option, none, some}
use mathlib.Core.List.{List, [], ◌∷◌}
use Prim.Native.Nat.{ℕ, zero, suc}
use native.Mathlib.Omega.{arith}
use aa.Base.Lists.{any, All}
use aa.Base.Tests.{Option-cases, some_inj}
use mathlib.Core.Logic.{inl, inr}

module _ {ℓ} {A : Type ℓ} where
  abbrev cons_second : A → Option (A × List A) → Option (A × List A)
  cons_second x none = none
  cons_second x (some (y, rest)) = some (y, x ∷ rest)

  unfoldable pub pick : ℕ → List A → Option (A × List A)
  pick i [] = none
  pick zero (x ∷ xs) = some (x, xs)
  pick (suc i) (x ∷ xs) = cons_second x (pick i xs)

  pub any-pick :
      (p : A → Bool) (i : ℕ) (xs : List A) {x : A} {rest : List A}
      → pick i xs ≡ some (x, rest)
      → any p xs ≡ (p x || any p rest)
  unfolding pick
  any-pick p i [] e = ground arith
  any-pick p zero (y ∷ xs) e = ground arith
  any-pick p (suc i) (y ∷ xs) {x} {rest} e = elim (Option-cases (pick i xs)) [
    | inl n ↦ ground arith
    | inr ((z, r), q) ↦ ground (arith, any-pick p i xs q)
  ]

  pub All-pick {κ} :
      (P : A → Type κ) (i : ℕ) (xs : List A) {x : A} {rest : List A}
      → pick i xs ≡ some (x, rest)
      → All P xs
      → P x × All P rest
  unfolding pick
  All-pick P i [] e h = absurd (ground arith)
  All-pick P zero (y ∷ xs) e h = subst (λ t. P t.0 × All P t.1) (some_inj e) h
  All-pick P (suc i) (y ∷ xs) {x} {rest} e h = elim (Option-cases (pick i xs)) [
    | inl n ↦ absurd (ground arith)
    | inr ((z, r), q) ↦
        (let v = All-pick P i xs q h.1 in
          subst (λ t. P t.0 × All P t.1) (some_inj (rw q at e)) (v.0, (h.0, v.1)))
  ]

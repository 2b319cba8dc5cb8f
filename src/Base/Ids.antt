-- ===== src/Base/Ids.antt =====
-- The ids that the elements of a list stand for, and what taking one element out does to them.
use mathlib.Core.Path.{◌≡◌, refl, ◌∙◌, ap, sym, subst}
use mathlib.Core.Logic.{inl, inr}
use mathlib.Core.Bool.{Bool, false, ◌||◌}
use mathlib.Core.Option.{Option, none, some}
use mathlib.Core.List.{List, [], ◌∷◌}
use Prim.Native.Nat.{ℕ, zero, suc}
use Prim.Native.String.{String}
use native.Mathlib.Omega.{arith}
use aa.Base.Lists.{any}
use aa.Base.Tests.{Option-cases, some_inj}
use aa.Base.Text.{str_eq, elem, eq_iff}
use aa.Base.Picks.{pick, any-pick}

-- No text twice.
abbrev pub Distinct : List String → Type 0
Distinct [] = Unit
Distinct (x ∷ xs) = (elem x xs ≡ false) × Distinct xs

abbrev pub with_id : Option String → List String → List String
with_id none ids = ids
with_id (some id) ids = id ∷ ids

abbrev pub is_id : Option String → String → Bool
is_id none j = false
is_id (some id) j = str_eq id j

pub drop-Distinct : (a : Option String) (xs : List String) → Distinct (with_id a xs) → Distinct xs
drop-Distinct none xs d = d
drop-Distinct (some a) xs d = d.1

pub front-Distinct :
    (a : Option String) (xs : List String) {id : String}
    → a ≡ some id
    → Distinct (with_id a xs)
    → elem id xs ≡ false
front-Distinct none xs e d = absurd (ground arith)
front-Distinct (some a) xs {id} e d = subst (λ x. elem x xs ≡ false) (some_inj e) d.0

-- Two ids in front are distinct from the others in either order.
swap-Distinct :
    (a b : Option String) (xs ys : List String)
    → ((j : String) → elem j ys ≡ (is_id a j || elem j xs))
    → Distinct (with_id b ys)
    → Distinct (with_id a xs)
    → Distinct (with_id a (with_id b xs))
swap-Distinct none none xs ys e d f = f
swap-Distinct (some a) none xs ys e d f = f
swap-Distinct none (some b) xs ys e d f = (sym (e b) ∙ d.0, f)
swap-Distinct (some a) (some b) xs ys e d f =
    ground (arith, e b, d.0, f.0, f.1, eq_iff a b, eq_iff b a)

module _ {ℓ} {A : Type ℓ} (key : A → Option String) where
  unfoldable pub ids : List A → List String
  ids [] = []
  ids (x ∷ xs) = with_id (key x) (ids xs)

  elem-ids : (j : String) (xs : List A) → elem j (ids xs) ≡ any (λ (x : A). is_id (key x) j) xs
  unfolding ids
  elem-ids j [] = refl
  elem-ids j (x ∷ xs) = elim (Option-cases (key x)) [
    | inl e ↦ rw (e, ids) (rw (elem-ids j xs) refl)
    | inr (i, e) ↦ rw (e, ids) (rw (elem-ids j xs) refl)
  ]

  pub elem-pick :
      (j : String) (i : ℕ) (xs : List A) {x : A} {rest : List A}
      → pick i xs ≡ some (x, rest)
      → elem j (ids xs) ≡ (is_id (key x) j || elem j (ids rest))
  elem-pick j i xs {x} {rest} e =
      elem-ids j xs
      ∙ any-pick (λ (y : A). is_id (key y) j) i xs e
      ∙ ap (λ b. is_id (key x) j || b) (sym (elem-ids j rest))

  pub pick-Distinct :
      (i : ℕ) (xs : List A) {x : A} {rest : List A}
      → pick i xs ≡ some (x, rest)
      → Distinct (ids xs)
      → Distinct (with_id (key x) (ids rest))
  unfolding pick ids
  pick-Distinct i [] e d = absurd (ground arith)
  pick-Distinct zero (y ∷ ys) e d =
      subst (λ t. Distinct (with_id (key t.0) (ids t.1))) (some_inj e) d
  pick-Distinct (suc i) (y ∷ ys) {x} {rest} e d = elim (Option-cases (pick i ys)) [
    | inl n ↦ absurd (ground arith)
    | inr ((z, r), q) ↦
        subst (λ t. Distinct (with_id (key t.0) (ids t.1))) (some_inj (rw q at e))
          (swap-Distinct (key z) (key y) (ids r) (ids ys) (λ j. elem-pick j i ys q) d
            (pick-Distinct i ys q (drop-Distinct (key y) (ids ys) d)))
  ]

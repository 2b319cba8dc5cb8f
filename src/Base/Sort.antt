-- ===== src/Base/Sort.antt =====
-- `sort.Strings` and `sort.Slice`: insertion sort by a Boolean "less than". Where the source sorts,
-- the result depends only on the order, never on how the library's sort reaches it.
use mathlib.Core.Path.{◌≡◌, refl}
use mathlib.Core.Bool.{Bool, true, false, ◌&&◌, ◌||◌}
use mathlib.Core.List.{List, [], ◌∷◌, Perm}
use mathlib.Core.List.Perm
use Prim.Native.Nat.{suc}
use Prim.Native.String.{String}
use native.Mathlib.Omega.{arith}
use aa.Base.Tests.{if◌then◌else◌, Bool-cases}
use mathlib.Core.Logic.{inl, inr}
use aa.Base.Lists.{length, any, all, keep}
use aa.Base.Text.{str_lt, str_lt_trans, str_lt_asymm, str_lt_trichotomy}

module _ {ℓ} {A : Type ℓ} (less : A → A → Bool) where
  unfoldable pub insert_sorted : A → List A → List A
  insert_sorted x [] = x ∷ []
  insert_sorted x (y ∷ ys) = if less y x then y ∷ insert_sorted x ys else x ∷ y ∷ ys

  unfoldable pub sort_by : List A → List A
  unfolding insert_sorted
  sort_by [] = []
  sort_by (x ∷ xs) = insert_sorted x (sort_by xs)

  insert_sorted-perm : (x : A) (ys : List A) → Perm (insert_sorted x ys) (x ∷ ys)
  unfolding insert_sorted
  insert_sorted-perm x [] = Perm.refl _
  insert_sorted-perm x (y ∷ ys) = elim (Bool-cases (less y x)) [
    | inl h ↦ rw h (Perm.trans (Perm.cons y (insert_sorted-perm x ys)) (Perm.swap x y ys))
    | inr h ↦ rw h (Perm.refl _)
  ]

  -- Sorting only rearranges.
  pub sort_by-perm : (xs : List A) → Perm (sort_by xs) xs
  unfolding sort_by
  sort_by-perm [] = Perm.refl _
  sort_by-perm (x ∷ xs) =
      Perm.trans (insert_sorted-perm x (sort_by xs)) (Perm.cons x (sort_by-perm xs))

  any-insert_sorted :
      (p : A → Bool) (x : A) (ys : List A) → any p (insert_sorted x ys) ≡ (p x || any p ys)
  unfolding insert_sorted
  any-insert_sorted p x [] = refl
  any-insert_sorted p x (y ∷ ys) = ground (arith, any-insert_sorted p x ys)

  -- Sorting keeps every test on members.
  pub any-sort_by : (p : A → Bool) (xs : List A) → any p (sort_by xs) ≡ any p xs
  unfolding sort_by
  any-sort_by p [] = refl
  any-sort_by p (x ∷ xs) = ground (arith, any-insert_sorted p x (sort_by xs), any-sort_by p xs)

  all-insert_sorted :
      (p : A → Bool) (x : A) (ys : List A) → all p (insert_sorted x ys) ≡ (p x && all p ys)
  unfolding insert_sorted
  all-insert_sorted p x [] = refl
  all-insert_sorted p x (y ∷ ys) = ground (arith, all-insert_sorted p x ys)

  pub all-sort_by : (p : A → Bool) (xs : List A) → all p (sort_by xs) ≡ all p xs
  unfolding sort_by
  all-sort_by p [] = refl
  all-sort_by p (x ∷ xs) = ground (arith, all-insert_sorted p x (sort_by xs), all-sort_by p xs)

  length-insert_sorted : (x : A) (ys : List A) → length (insert_sorted x ys) ≡ suc (length ys)
  unfolding insert_sorted
  length-insert_sorted x [] = refl
  length-insert_sorted x (y ∷ ys) = ground (arith, length-insert_sorted x ys)

  pub length-sort_by : (xs : List A) → length (sort_by xs) ≡ length xs
  unfolding sort_by
  length-sort_by [] = refl
  length-sort_by (x ∷ xs) = ground (arith, length-insert_sorted x (sort_by xs), length-sort_by xs)

  -- No later element is less than an earlier one.
  abbrev pub IsSorted : List A → Type 0
  IsSorted [] = Unit
  IsSorted (x ∷ xs) = (any (λ y. less y x) xs ≡ false) × IsSorted xs

  any_mono :
      (p : A → Bool) (q : A → Bool) (xs : List A) → any p xs ≡ false → any p (keep q xs) ≡ false
  any_mono p q [] h = refl
  any_mono p q (x ∷ xs) h = ground (arith, any_mono p q xs)

  pub keep-IsSorted : (q : A → Bool) (xs : List A) → IsSorted xs → IsSorted (keep q xs)
  keep-IsSorted q [] s = tt
  keep-IsSorted q (x ∷ xs) s =
      ground (arith, keep-IsSorted q xs s.1, any_mono (λ (y : A). less y x) q xs)

  -- What a "less than" must satisfy for the result to be in order.
  pub record IsOrder : Type ℓ where
    pub asymm : (x y : A) → less x y ≡ true → less y x ≡ false
    pub cotrans : (x y z : A) → less x z ≡ true → less y z ≡ false → less x y ≡ true

  module _ (o : IsOrder) where
    below :
        (x y : A) (zs : List A)
        → less y x ≡ false
        → any (λ z. less z y) zs ≡ false
        → any (λ z. less z x) zs ≡ false
    below x y [] h k = refl
    below x y (z ∷ zs) h k = ground (arith, below x y zs h, o.cotrans z y x)

    insert_sorted-IsSorted : (x : A) (ys : List A) → IsSorted ys → IsSorted (insert_sorted x ys)
    unfolding insert_sorted
    insert_sorted-IsSorted x [] s = (refl, tt)
    insert_sorted-IsSorted x (y ∷ ys) s = ground (
      arith,
      insert_sorted-IsSorted x ys s.1,
      any-insert_sorted (λ z. less z y) x ys,
      o.asymm y x,
      below x y ys,
    )

    pub sort_by-IsSorted : (xs : List A) → IsSorted (sort_by xs)
    unfolding sort_by
    sort_by-IsSorted [] = tt
    sort_by-IsSorted (x ∷ xs) = insert_sorted-IsSorted x (sort_by xs) (sort_by-IsSorted xs)

str_lt-cotrans : (x y z : String) → str_lt x z ≡ true → str_lt y z ≡ false → str_lt x y ≡ true
str_lt-cotrans x y z h k = ground (arith, str_lt_trans y x z, str_lt_trichotomy x y)

pub str_order : IsOrder str_lt
str_order = record { asymm = str_lt_asymm; cotrans = str_lt-cotrans }

-- `sort.Strings`
abbrev pub sort_strings : List String → List String
sort_strings = sort_by str_lt

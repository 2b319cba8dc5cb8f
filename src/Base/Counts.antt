-- ===== src/Base/Counts.antt =====
-- How often a text stands in a list, and lists without repetition as finite sets.
use mathlib.Core.Path.{◌≡◌, refl, ◌∙◌, sym}
use mathlib.Core.Logic.{inl, inr}
use mathlib.Core.Bool.{Bool, true, false, ◌||◌}
use mathlib.Core.List.{List, [], ◌∷◌, ◌++◌}
use Prim.Native.Nat.{ℕ, suc, ◌+◌, ◌≤◌}
use Prim.Native.String.{String}
use native.Mathlib.Omega.{arith}
use aa.Base.Lists.{any, length, any-append}
use aa.Base.Tests.{if◌then◌else◌, Bool-cases}
use aa.Base.Text.{str_eq, elem, eq_iff, str_lt, eq_refl, str_lt_trichotomy}
use aa.Base.Assoc.{keys, HasUniqueKeys, elem-keys}
use aa.Base.Sort.{sort_by, insert_sorted, any-sort_by, IsSorted}
use aa.Base.Ids.{Distinct}

unfoldable pub count : String → List String → ℕ
count x [] = 0
count x (y ∷ ys) = (if str_eq y x then 1 else 0) + count x ys

pub count-append : (x : String) (xs ys : List String) → count x (xs ++ ys) ≡ count x xs + count x ys
unfolding count
count-append x [] ys = omega arith
count-append x (y ∷ xs) ys = omega (arith, count-append x xs ys)

count-insert_sorted :
    (x y : String) (ys : List String)
    → count x (insert_sorted str_lt y ys) ≡ (if str_eq y x then 1 else 0) + count x ys
unfolding count insert_sorted
count-insert_sorted x y [] = refl
count-insert_sorted x y (z ∷ ys) = ground (arith, count-insert_sorted x y ys)

pub count-sort_by : (x : String) (xs : List String) → count x (sort_by str_lt xs) ≡ count x xs
unfolding count sort_by
count-sort_by x [] = refl
count-sort_by x (y ∷ xs) =
    count-insert_sorted x y (sort_by str_lt xs) ∙ ground (arith, count-sort_by x xs)

elem-insert_sorted :
    (z x : String) (xs : List String)
    → elem z (insert_sorted str_lt x xs) ≡ (str_eq x z || elem z xs)
unfolding insert_sorted
elem-insert_sorted z x [] = refl
elem-insert_sorted z x (w ∷ xs) = ground (arith, elem-insert_sorted z x xs)

insert_sorted-Distinct :
    (y : String) (ys : List String)
    → elem y ys ≡ false
    → Distinct ys
    → Distinct (insert_sorted str_lt y ys)
unfolding insert_sorted
insert_sorted-Distinct y [] h d = (h, d)
insert_sorted-Distinct y (z ∷ ys) h d = elim (Bool-cases (str_lt z y)) [
  | inl e ↦ rw e (
    ground (arith, elem-insert_sorted z y ys, d.0, h, eq_iff y z, eq_iff z y),
    insert_sorted-Distinct y ys (ground (arith, h)) d.1,
  )
  | inr e ↦ rw e (h, d)
]

pub sort_by-Distinct : (xs : List String) → Distinct xs → Distinct (sort_by str_lt xs)
unfolding sort_by
sort_by-Distinct [] d = tt
sort_by-Distinct (x ∷ xs) d =
    insert_sorted-Distinct x (sort_by str_lt xs)
      (any-sort_by str_lt (λ (y : String). str_eq y x) xs ∙ d.0) (sort_by-Distinct xs d.1)

pub snoc-Distinct :
    (xs : List String) (x : String) → elem x xs ≡ false → Distinct xs → Distinct (xs ++ x ∷ [])
snoc-Distinct [] x h d = (refl, tt)
snoc-Distinct (y ∷ xs) x h d = (
  any-append (λ z. str_eq z y) xs (x ∷ []) ∙ ground (arith, h, d.0, eq_iff x y, eq_iff y x),
  snoc-Distinct xs x (ground (arith, h)) d.1,
)

-- One occurrence less.
remove : String → List String → List String
remove x [] = []
remove x (y ∷ ys) = if str_eq y x then ys else y ∷ remove x ys

length-remove :
    (x : String) (ys : List String) → elem x ys ≡ true → suc (length (remove x ys)) ≡ length ys
unfolding remove
length-remove x [] h = absurd (ground arith)
length-remove x (y ∷ ys) h = ground (arith, length-remove x ys)

elem-remove :
    (x j : String) (ys : List String) → str_eq x j ≡ false → elem j (remove x ys) ≡ elem j ys
unfolding remove
elem-remove x j [] h = refl
elem-remove x j (y ∷ ys) h = ground (arith, elem-remove x j ys, eq_iff y x, eq_iff y j, eq_iff x j)

-- A list without repetition is no longer than a list that holds its elements.
pub length-Distinct-le :
    (xs ys : List String)
    → Distinct xs
    → ((j : String) → elem j xs ≡ true → elem j ys ≡ true)
    → length xs ≤ length ys
length-Distinct-le [] ys d h = omega arith
length-Distinct-le (x ∷ xs) ys d h =
    let there = h x (ground (arith, eq_refl x)) in
    omega (
      arith,
      length-remove x ys there,
      length-Distinct-le xs (remove x ys) d.1
          (λ j e. ground (arith, elem-remove x j ys, h j, d.0, eq_iff x j, e)),
    )

-- Where it is as long, it holds all of them.
pub Distinct-covers :
    (xs ys : List String) (j : String)
    → Distinct xs
    → ((j : String) → elem j xs ≡ true → elem j ys ≡ true)
    → length ys ≤ length xs
    → elem j ys ≡ true
    → elem j xs ≡ true
Distinct-covers xs ys j d h l e = elim (Bool-cases (elem j xs)) [
  | inl f ↦ f
  | inr f ↦ absurd (
      omega (
        arith,
        l,
        length-Distinct-le (j ∷ xs) ys (f, d) (λ k g. ground (arith, h k, eq_iff j k, e, g)),
      ))
]

pub keys-Distinct {ℓ} : {V : Type ℓ} (m : List (String × V)) → HasUniqueKeys m → Distinct (keys m)
keys-Distinct [] u = tt
keys-Distinct ((k, v) ∷ m) u = (elem-keys k m ∙ rw u.0 refl, keys-Distinct m u.1)

elem-none :
    (x : String) (xs : List String) (p : String → Bool)
    → any p xs ≡ false
    → elem x xs ≡ true
    → p x ≡ false
elem-none x [] p h k = absurd (ground arith)
elem-none x (y ∷ xs) p h k = ground (arith, elem-none x xs p, eq_iff y x, h, k)

pub least_is_first :
    (x y : String) (xs ys : List String)
    → IsSorted str_lt (x ∷ xs)
    → IsSorted str_lt (y ∷ ys)
    → elem y (x ∷ xs) ≡ true
    → elem x (y ∷ ys) ≡ true
    → x ≡ y
least_is_first x y xs ys s t h k = elim (Bool-cases (str_eq x y)) [
  | inl e ↦ ground (arith, eq_iff x y, e)
  | inr e ↦
      str_lt_trichotomy x y
        (elem-none x ys (λ z. str_lt z y) t.0 (ground (arith, k, e, eq_iff y x, eq_iff x y)))
        (elem-none y xs (λ z. str_lt z x) s.0 (ground (arith, h, e)))
]

-- Two sorted lists without repetition that hold the same texts are the same list.
pub sorted-eq :
    (xs ys : List String)
    → Distinct xs
    → Distinct ys
    → IsSorted str_lt xs
    → IsSorted str_lt ys
    → ((j : String) → elem j xs ≡ elem j ys)
    → xs ≡ ys
sorted-eq [] [] d f s t h = refl
sorted-eq [] (y ∷ ys) d f s t h = absurd (ground (arith, h y, eq_refl y))
sorted-eq (x ∷ xs) [] d f s t h = absurd (ground (arith, h x, eq_refl x))
sorted-eq (x ∷ xs) (y ∷ ys) d f s t h =
    let e : x ≡ y =
      least_is_first x y xs ys s t (h y ∙ ground (arith, eq_refl y))
        (sym (h x) ∙ ground (arith, eq_refl x)) in
    let rest : xs ≡ ys =
      sorted-eq xs ys d.1 f.1 s.1 t.1
        (λ j. ground (arith, h j, e, d.0, f.0, eq_iff x j, eq_iff y j)) in
    cc

-- ===== src/Base/Multisets.antt =====
-- Lists as multisets of texts: sorting forgets the order and nothing else.
use mathlib.Core.Path.{◌≡◌, refl, ◌∙◌, sym}
use mathlib.Core.Bool.{true}
use mathlib.Core.List.{List, [], ◌∷◌}
use Prim.Native.Nat.{◌<◌}
use Prim.Native.String.{String}
use native.Mathlib.Omega.{arith}
use aa.Base.Text.{elem, str_lt, eq_refl}
use aa.Base.Sort.{sort_strings, IsSorted, str_order, sort_by-IsSorted}
use aa.Base.Counts.{count, count-sort_by, least_is_first}

-- Two lists hold the same texts, each as often.
abbrev pub SameItems : List String → List String → Type 0
SameItems xs ys = (x : String) → count x xs ≡ count x ys

pub elem-count : (x : String) (xs : List String) → 0 < count x xs → elem x xs ≡ true
unfolding count
elem-count x [] h = absurd (ground arith)
elem-count x (y ∷ xs) h = ground (arith, elem-count x xs)

sorted_same :
    (xs ys : List String) → IsSorted str_lt xs → IsSorted str_lt ys → SameItems xs ys → xs ≡ ys
unfolding count
sorted_same [] [] s t h = refl
sorted_same [] (y ∷ ys) s t h = absurd (ground (arith, h y, eq_refl y))
sorted_same (x ∷ xs) [] s t h = absurd (ground (arith, h x, eq_refl x))
sorted_same (x ∷ xs) (y ∷ ys) s t h =
    let there : elem y (x ∷ xs) ≡ true = elem-count y (x ∷ xs) (ground (arith, h y, eq_refl y)) in
    let here : elem x (y ∷ ys) ≡ true = elem-count x (y ∷ ys) (ground (arith, h x, eq_refl x)) in
    let e : x ≡ y = least_is_first x y xs ys s t there here in
    let rest : xs ≡ ys = sorted_same xs ys s.1 t.1 (λ j. ground (arith, h j, e)) in cc

-- Lists with the same texts are sorted to the same list.
pub sort_strings-same : (xs ys : List String) → SameItems xs ys → sort_strings xs ≡ sort_strings ys
sort_strings-same xs ys h =
    sorted_same (sort_strings xs) (sort_strings ys) (sort_by-IsSorted str_lt str_order xs)
      (sort_by-IsSorted str_lt str_order ys)
      (λ j. count-sort_by j xs ∙ h j ∙ sym (count-sort_by j ys))

-- ===== src/Base/Text.antt =====
-- Whole texts: equality and the byte order by which Go compares and sorts strings.

use Prim.Native.Nat.{ℕ, zero, suc, ◌+◌, ◌/◌, ◌%◌, Ordering, compare as compare_ℕ}
use Prim.Native.Char.{code}
use Prim.Native.String.compare
use Prim.Native.String.{String, ◌++◌, compare, slice, then}
use mathlib.Core.Path.{◌≡◌, refl}
use mathlib.Core.Bool.{Bool, true, false, ◌&&◌}
use mathlib.Core.List.{List, [], ◌∷◌}
use native.Mathlib.Omega.{arith}
use text.Mathlib.TextEquality.{path_by_compare}
use aa.Base.Lists.{any, all, keep}
pub use text.Mathlib.Text.{◌==◌ as str_eq, is_eq, is_lt}
pub use text.Mathlib.TextEquality.{eq_iff}
pub use text.Mathlib.TextPositions.{eq_refl, compare_refl}

-- Go's `a < b` on strings.
abbrev pub str_lt : String → String → Bool
str_lt a b = is_lt (compare a b)

-- Whether a text is in a list: the loop `for _, x := range xs { if x == s { return true } }`.
abbrev pub elem : String → List String → Bool
elem s xs = any (λ x. str_eq x s) xs

abbrev flip : Ordering → Ordering
flip Ordering.lt = Ordering.gt
flip Ordering.eq = Ordering.eq
flip Ordering.gt = Ordering.lt

flip-compare_ℕ : (m n : ℕ) → flip (compare_ℕ m n) ≡ compare_ℕ n m
flip-compare_ℕ m n = ground arith

flip-then : (o p : Ordering) → flip (then o p) ≡ then (flip o) (flip p)
flip-then Ordering.lt p = refl
flip-then Ordering.eq p = refl
flip-then Ordering.gt p = refl

-- Comparing the other way round turns the answer.
pub flip-compare : (s t : String) → flip (compare s t) ≡ compare t s
flip-compare String.[] String.[] = rw compare.nil-nil
flip-compare String.[] (String.◌∷◌ d t) = rw (compare.nil-cons d t, compare.cons-nil d t)
flip-compare (String.◌∷◌ c s) String.[] = rw (compare.nil-cons c s, compare.cons-nil c s)
flip-compare (String.◌∷◌ c s) (String.◌∷◌ d t) = rw (
  compare.cons-cons c d s t,
  compare.cons-cons d c t s,
  flip-then,
  flip-compare_ℕ,
  flip-compare s t,
)

pub str_lt_irrefl : (s : String) → str_lt s s ≡ false
str_lt_irrefl s = rw (compare_refl s)

-- Two texts neither of which is less are equal.
pub str_lt_trichotomy : (s t : String) → str_lt s t ≡ false → str_lt t s ≡ false → s ≡ t
str_lt_trichotomy s t h k = path_by_compare s t (ground (arith, flip-compare s t))

pub str_lt_asymm : (s t : String) → str_lt s t ≡ true → str_lt t s ≡ false
str_lt_asymm s t h = ground (arith, flip-compare s t)

then_trans :
    (l m n : ℕ) (a b c : Ordering)
    → is_lt (then (compare_ℕ l m) a) ≡ true
    → is_lt (then (compare_ℕ m n) b) ≡ true
    → (is_lt a ≡ true → is_lt b ≡ true → is_lt c ≡ true)
    → is_lt (then (compare_ℕ l n) c) ≡ true
then_trans l m n a b c h k rest = ground arith

-- The byte order is transitive.
pub str_lt_trans : (s t u : String) → str_lt s t ≡ true → str_lt t u ≡ true → str_lt s u ≡ true
str_lt_trans String.[] t String.[] h k = cc (str_lt_asymm String.[] t h)
str_lt_trans String.[] t (String.◌∷◌ e u) h k = rw (compare.nil-cons e u)
str_lt_trans (String.◌∷◌ c s) String.[] u h k = cc (compare.cons-nil c s)
str_lt_trans (String.◌∷◌ c s) (String.◌∷◌ d t) String.[] h k = cc (compare.cons-nil d t)
str_lt_trans (String.◌∷◌ c s) (String.◌∷◌ d t) (String.◌∷◌ e u) h k =
    rw (compare.cons-cons c e s u) (
      then_trans (code c) (code d) (code e) (compare s t) (compare t u) (compare s u)
        (rw (compare.cons-cons c d s t) at h) (rw (compare.cons-cons d e t u) at k)
        (str_lt_trans s t u))

-- One decimal digit, `d < 10`.
abbrev digit : ℕ → String
digit d = slice "0123456789" d (d + 1)

-- The loop that prints a number, last digit first; `fuel` bounds the number of digits.
unfoldable pub decimal_loop : ℕ → ℕ → String → String
decimal_loop zero n acc = acc
decimal_loop (suc fuel) n acc =
    let more = decimal_loop fuel (n / 10) (digit (n % 10) ++ acc) in
    elim (compare_ℕ n 10) [ Ordering.lt ↦ digit n ++ acc | _ ↦ more ]

-- `%d`: a number has at most n + 1 digits.
unfoldable pub decimal : ℕ → String
unfolding decimal_loop
decimal n = decimal_loop (suc n) n ""

pub elem-all :
    (c : String) (cs : List String) (p : String → Bool)
    → all p cs ≡ true
    → elem c cs ≡ true
    → p c ≡ true
elem-all c [] p h k = ground arith
elem-all c (x ∷ cs) p h k = ground (arith, elem-all c cs p, eq_iff x c)

pub elem-keep :
    (p : String → Bool) (c : String) (xs : List String) → elem c (keep p xs) ≡ (p c && elem c xs)
elem-keep p c [] = ground arith
elem-keep p c (x ∷ xs) = ground (arith, elem-keep p c xs, eq_iff x c)

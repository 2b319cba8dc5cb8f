-- ===== src/Sync/Parallel/Balance.antt =====
-- sync/parallel/parallel.go: how Assign spreads the work.
use aa.Base.{
  ℕ, zero, suc, ◌+◌, ◌*◌, ◌%◌, ◌≤◌, ◌<◌, String, some, List, [], ◌∷◌, map, ◌≡◌, refl, ap, ◌∙◌,
  length, arith, length-append, Bool-cases, inl, inr, ltb, subst, ◌==◌,
}
use aa.Sync.Parallel.{
  Assignment, append_at, place, idle, most_from, most_loaded, least_from, least_loaded, or_zero,
}

-- The first r nodes have q + 1 packages and the others q.
abbrev pub Loaded : ℕ → ℕ → List Assignment → Type 0
Loaded q r [] = r ≡ 0
Loaded q zero (a ∷ rest) = (length a.packages ≡ q) × Loaded q 0 rest
Loaded q (suc r) (a ∷ rest) = (length a.packages ≡ q + 1) × Loaded q r rest

pub idle-Loaded : (nodes : List String) → Loaded 0 0 (map idle nodes)
idle-Loaded [] = refl
idle-Loaded (n ∷ nodes) = (refl, idle-Loaded nodes)

-- The next node gets one more.
append_at-Loaded :
    (q r : ℕ) (id : String) (ls : List Assignment)
    → Loaded q r ls
    → r < length ls
    → Loaded q (suc r) (append_at r id ls)
unfolding append_at
append_at-Loaded q r id [] h l = absurd (omega arith)
append_at-Loaded q zero id (a ∷ rest) h l =
    (omega (arith, length-append a.packages (id ∷ []), h.0), h.1)
append_at-Loaded q (suc r) id (a ∷ rest) h l = (h.0, append_at-Loaded q r id rest h.1 (omega arith))

-- A full round.
Loaded-all : (q : ℕ) (ls : List Assignment) → Loaded q (length ls) ls → Loaded (q + 1) 0 ls
Loaded-all q [] h = refl
Loaded-all q (a ∷ rest) h = (h.0, Loaded-all q rest h.1)

pub length-append_at :
    (i : ℕ) (id : String) (ls : List Assignment) → length (append_at i id ls) ≡ length ls
unfolding append_at
length-append_at i id [] = refl
length-append_at zero id (a ∷ rest) = refl
length-append_at (suc i) id (a ∷ rest) = ap suc (length-append_at i id rest)

rest_of : (q r k : ℕ) → r < k → (q * k + r) % k ≡ r
rest_of q r k h = grind arith

-- Placing packages keeps the loads within one of each other.
pub place-Loaded :
    (k i q r : ℕ) (ids : List String) (ls : List Assignment)
    → length ls ≡ k
    → i ≡ q * k + r
    → r < k
    → Loaded q r ls
    → (q' : ℕ) × (r' : ℕ) × Loaded q' r' (place k i ids ls)
unfolding place
place-Loaded k i q r [] ls n e l h = (q, r, h)
place-Loaded k i q r (id ∷ ids) ls n e l h =
    let ls' : List Assignment = append_at (i % k) id ls in
    let at : i % k ≡ r = ap (λ (j : ℕ). j % k) e ∙ rest_of q r k l in
    let n' : length ls' ≡ k = length-append_at (i % k) id ls ∙ n in
    let h' : Loaded q (suc r) ls' = rw at (append_at-Loaded q r id ls h (omega arith)) in
    elim (Bool-cases (suc r == k)) [
      | inl full ↦
          place-Loaded k (i + 1) (q + 1) 0 ids ls' n' (grind arith) (omega arith)
            (Loaded-all q ls' (subst (λ j. Loaded q j ls') (ground (arith, n', full)) h'))
      | inr more ↦ place-Loaded k (i + 1) q (suc r) ids ls' n' (omega arith) (ground arith) h'
    ]

most_from-le :
    (ls : List Assignment) (q r m : ℕ) → Loaded q r ls → m ≤ q + 1 → most_from m ls ≤ q + 1
unfolding most_from
most_from-le [] q r m h l = l
most_from-le (a ∷ rest) q zero m h l = most_from-le rest q 0 _ h.1 (ground (arith, h.0))
most_from-le (a ∷ rest) q (suc r) m h l = most_from-le rest q r _ h.1 (ground (arith, h.0))

le-least_from :
    (ls : List Assignment) (q r n : ℕ)
    → Loaded q r ls
    → q ≤ n
    → q ≤ or_zero (least_from (some n) ls)
unfolding least_from
le-least_from [] q r n h l = l
le-least_from (a ∷ rest) q zero n h l = elim (Bool-cases (ltb (length a.packages) n)) [
  | inl e ↦ rw e (le-least_from rest q 0 (length a.packages) h.1 (omega (arith, h.0)))
  | inr e ↦ rw e (le-least_from rest q 0 n h.1 l)
]
le-least_from (a ∷ rest) q (suc r) n h l = elim (Bool-cases (ltb (length a.packages) n)) [
  | inl e ↦ rw e (le-least_from rest q r (length a.packages) h.1 (omega (arith, h.0)))
  | inr e ↦ rw e (le-least_from rest q r n h.1 l)
]

-- Loads within one of each other, as the two measures of the source see them.
pub most_loaded-le :
    (ls : List Assignment) (q r : ℕ)
    → 0 < length ls
    → Loaded q r ls
    → most_loaded ls ≤ least_loaded ls + 1
unfolding most_loaded least_loaded least_from
most_loaded-le [] q r l h = absurd (omega arith)
most_loaded-le (a ∷ rest) q zero l h = omega (
  arith,
  most_from-le (a ∷ rest) q 0 0 h,
  le-least_from rest q 0 (length a.packages) h.1 (omega (arith, h.0)),
)
most_loaded-le (a ∷ rest) q (suc r) l h = omega (
  arith,
  most_from-le (a ∷ rest) q (suc r) 0 h,
  le-least_from rest q r (length a.packages) h.1 (omega (arith, h.0)),
)

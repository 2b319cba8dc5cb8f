-- ===== src/Sync/Parallel/Placement.antt =====
-- sync/parallel/parallel.go: what Assign promises of a coordinator that NewCoordinator returned.
use aa.Base.{
  ℕ, zero, suc, ◌+◌, ◌%◌, ◌≤◌, ◌<◌, String, false, List, [], ◌∷◌, ◌++◌, map, ◌≡◌, refl, ap, ◌∙◌,
  length, str_eq, elem, ok, arith, inl, inr, ok_inj, Result-cases, str_lt,
}
use aa.Base.Sort.{sort_strings, length-sort_by, any-sort_by}
use aa.Base.Counts.{count, count-append, count-sort_by}
use aa.Base.Multisets.{SameItems, sort_strings-same}
use aa.Sync.Parallel.{
  Assignment, Coordinator, append_at, place, idle, assign, clean_nodes, new_coordinator,
  sorted_coordinator, most_loaded, least_loaded,
}
use aa.Sync.Parallel.Balance.{idle-Loaded, place-Loaded, most_loaded-le, length-append_at}

-- All packages, node by node.
unfoldable pub placed : List Assignment → List String
placed [] = []
placed (a ∷ rest) = a.packages ++ placed rest

unfoldable pub nodes_of : List Assignment → List String
nodes_of [] = []
nodes_of (a ∷ rest) = a.node ∷ nodes_of rest

nodes_of-idle : (nodes : List String) → nodes_of (map idle nodes) ≡ nodes
unfolding nodes_of
nodes_of-idle [] = refl
nodes_of-idle (n ∷ nodes) = ap (λ ns. n ∷ ns) (nodes_of-idle nodes)

placed-idle : (nodes : List String) → placed (map idle nodes) ≡ []
unfolding placed
placed-idle [] = refl
placed-idle (n ∷ nodes) = placed-idle nodes

nodes_of-append_at :
    (i : ℕ) (id : String) (ls : List Assignment) → nodes_of (append_at i id ls) ≡ nodes_of ls
unfolding nodes_of append_at
nodes_of-append_at i id [] = refl
nodes_of-append_at zero id (a ∷ rest) = refl
nodes_of-append_at (suc i) id (a ∷ rest) = ap (λ ns. a.node ∷ ns) (nodes_of-append_at i id rest)

count-append_at :
    (x id : String) (i : ℕ) (ls : List Assignment)
    → i < length ls
    → count x (placed (append_at i id ls)) ≡ count x (placed ls) + count x (id ∷ [])
unfolding placed append_at
count-append_at x id i [] l = absurd (omega arith)
count-append_at x id zero (a ∷ rest) l = omega (
  arith,
  count-append x (a.packages ++ id ∷ []) (placed rest),
  count-append x a.packages (id ∷ []),
  count-append x a.packages (placed rest),
)
count-append_at x id (suc i) (a ∷ rest) l = omega (
  arith,
  count-append x a.packages (placed (append_at i id rest)),
  count-append x a.packages (placed rest),
  count-append_at x id i rest (omega arith),
)

nodes_of-place :
    (k i : ℕ) (ids : List String) (ls : List Assignment) → nodes_of (place k i ids ls) ≡ nodes_of ls
unfolding place
nodes_of-place k i [] ls = refl
nodes_of-place k i (id ∷ ids) ls =
    nodes_of-place k (i + 1) ids (append_at (i % k) id ls) ∙ nodes_of-append_at (i % k) id ls

length-place :
    (k i : ℕ) (ids : List String) (ls : List Assignment) → length (place k i ids ls) ≡ length ls
unfolding place
length-place k i [] ls = refl
length-place k i (id ∷ ids) ls =
    length-place k (i + 1) ids (append_at (i % k) id ls) ∙ length-append_at (i % k) id ls

mod-lt : (i k : ℕ) → 0 < k → i % k < k
mod-lt i k h = grind arith

count-place :
    (x : String) (k i : ℕ) (ids : List String) (ls : List Assignment)
    → 0 < k
    → length ls ≡ k
    → count x (placed (place k i ids ls)) ≡ count x (placed ls) + count x ids
unfolding place count
count-place x k i [] ls h n = omega arith
count-place x k i (id ∷ ids) ls h n = omega (
  arith,
  count-place x k (i + 1) ids (append_at (i % k) id ls) h (length-append_at (i % k) id ls ∙ n),
  count-append_at x id (i % k) ls (omega (arith, mod-lt i k h)),
)

length-map-idle : (nodes : List String) → length (map idle nodes) ≡ length nodes
length-map-idle [] = refl
length-map-idle (n ∷ nodes) = ap suc (length-map-idle nodes)

new_coordinator-nonempty :
    (nodes : List String) {c : Coordinator} → new_coordinator nodes ≡ ok c → 0 < length c.nodes
unfolding new_coordinator
new_coordinator-nonempty nodes {c} e = elim (Result-cases (clean_nodes [] nodes)) [
  | inl (clean, q) ↦ kept clean (rw q at e)
  | inr (x, q) ↦ absurd (ground (arith, rw q at e))
]
  where
    kept : (clean : List String) → sorted_coordinator clean ≡ ok c → 0 < length c.nodes
    kept [] f = absurd (ground arith)
    kept (n ∷ ns) f =
        let g : length (sort_strings (n ∷ ns)) ≡ length c.nodes =
          ap (λ (d : Coordinator). length d.nodes) (ok_inj f) in
        omega (arith, g, length-sort_by str_lt (n ∷ ns))

count_nil : (x : String) → count x [] ≡ 0
unfolding count
count_nil x = refl

module _ (c : Coordinator) (ids : List String) where
  placement : List Assignment
  placement = place (length c.nodes) 0 (sort_strings ids) (map idle c.nodes)

  assign-placement : elem "" ids ≡ false → assign c ids ≡ ok placement
  unfolding assign placement
  assign-placement h = rw (any-sort_by str_lt (λ x. str_eq x "") ids ∙ h)

  placement-nodes : nodes_of placement ≡ c.nodes
  unfolding placement
  placement-nodes =
      nodes_of-place (length c.nodes) 0 (sort_strings ids) (map idle c.nodes)
      ∙ nodes_of-idle c.nodes

  placement-SameItems : 0 < length c.nodes → SameItems (placed placement) ids
  unfolding placement
  placement-SameItems l x =
      count-place x (length c.nodes) 0 (sort_strings ids) (map idle c.nodes) l
        (length-map-idle c.nodes)
      ∙ omega (arith, ap (count x) (placed-idle c.nodes), count_nil x, count-sort_by x ids)

  placement-balanced : 0 < length c.nodes → most_loaded placement ≤ least_loaded placement + 1
  unfolding placement
  placement-balanced l =
      let r =
        place-Loaded (length c.nodes) 0 0 0 (sort_strings ids) (map idle c.nodes)
          (length-map-idle c.nodes) (omega arith) l (idle-Loaded c.nodes) in
      most_loaded-le placement r.0 r.1
        (omega (
          arith,
          length-place (length c.nodes) 0 (sort_strings ids) (map idle c.nodes),
          length-map-idle c.nodes,
        ))
        r.2

-- A coordinator from NewCoordinator places any package ids without an empty one: the answer names
-- the coordinator's nodes in their order, holds each package as often as it was given, and
-- MostLoaded exceeds LeastLoaded by one at most.
pub assign-balanced :
    (nodes ids : List String) {c : Coordinator}
    → new_coordinator nodes ≡ ok c
    → elem "" ids ≡ false
    → (ls : List Assignment) × (assign c ids ≡ ok ls)
      × (nodes_of ls ≡ c.nodes)
      × SameItems (placed ls) ids
      × (most_loaded ls ≤ least_loaded ls + 1)
assign-balanced nodes ids {c} e h =
    let l = new_coordinator-nonempty nodes e in
    (
      placement c ids,
      assign-placement c ids h,
      placement-nodes c ids,
      placement-SameItems c ids l,
      placement-balanced c ids l,
    )

-- Assign answers alike, errors included, for two lists with the same package ids in any order.
pub assign-same :
    (c : Coordinator) (xs ys : List String) → SameItems xs ys → assign c xs ≡ assign c ys
unfolding assign
assign-same c xs ys h = rw (sort_strings-same xs ys h)

-- ===== src/Kernel/Planner/Drain.antt =====
-- kernel/allocator/planner/planner.go, `topologicalLocked`: the loop over the queue ends within its fuel.
use aa.Base.{
  ℕ, zero, suc, ◌+◌, ◌-◌, ◌≤◌, ◌<◌, String, ◌≡◌, refl, true, List, [], ◌∷◌, ◌++◌, length, ◌==◌,
  get_or, is_some, if◌then◌else◌, arith, length-append,
}
use aa.Base.Assoc.{lookup, insert}
use aa.Base.Sort.{sort_by, length-sort_by}
use aa.Base.{str_lt}
use aa.Kernel.Planner.Topology.{
  Dependencies, initial_indegree, collect_children, sort_children, roots, release, drain, drain_all,
  drain_fuel, count_dependencies,
}

unfoldable sum_degrees : List (String × ℕ) → ℕ
sum_degrees [] = 0
sum_degrees ((id, d) ∷ m) = d + sum_degrees m

sum_degrees-insert :
    (id : String) (d : ℕ) (m : List (String × ℕ))
    → sum_degrees (insert id d m) + get_or (lookup id m) 0 ≡ sum_degrees m + d
unfolding sum_degrees insert lookup
sum_degrees-insert id d [] = omega arith
sum_degrees-insert id d ((k, e) ∷ m) = ground (arith, sum_degrees-insert id d m)

-- An id that enters the queue takes one off the degrees.
release-le :
    (children : List String) (degrees : List (String × ℕ)) (queue : List String)
    → length (release children degrees queue).1 + sum_degrees (release children degrees queue).0
      ≤ length queue + sum_degrees degrees
unfolding release
release-le [] degrees queue = omega arith
release-le (child ∷ rest) degrees queue =
    let d = get_or (lookup child degrees) 0 in
    ground (
      arith,
      release-le rest (insert child (d - 1) degrees)
          (if d == 1 then queue ++ child ∷ [] else queue),
      sum_degrees-insert child (d - 1) degrees,
      length-append queue (child ∷ []),
    )

drain-ends :
    (fuel : ℕ) (children : List (String × List String)) (degrees : List (String × ℕ))
    (queue order : List String)
    → length queue + sum_degrees degrees < fuel
    → is_some (drain fuel children degrees queue order) ≡ true
unfolding drain
drain-ends zero children degrees queue order h = absurd (ground arith)
drain-ends (suc fuel) children degrees [] order h = refl
drain-ends (suc fuel) children degrees (id ∷ queue) order h =
    let r = release (get_or (lookup id children) []) degrees queue in
    drain-ends fuel children r.0 (sort_by str_lt r.1) (order ++ id ∷ []) (
      omega (
        arith,
        h,
        release-le (get_or (lookup id children) []) degrees queue,
        length-sort_by str_lt r.1,
      ))

length-roots-le : (ns : Dependencies) → length (roots (initial_indegree ns)) ≤ length ns
unfolding roots initial_indegree
length-roots-le [] = omega arith
length-roots-le ((id, deps) ∷ ns) = ground (arith, length-roots-le ns)

sum_degrees-initial :
    (ns : Dependencies) → sum_degrees (initial_indegree ns) ≡ count_dependencies ns
unfolding sum_degrees initial_indegree count_dependencies
sum_degrees-initial [] = refl
sum_degrees-initial ((id, deps) ∷ ns) = omega (arith, sum_degrees-initial ns)

-- The loop over the queue always ends: the fuel, one more than the packages and their dependencies
-- together, is enough for every graph.
pub drain_all-ends : (ns : Dependencies) → is_some (drain_all ns) ≡ true
unfolding drain_all
drain_all-ends ns =
    let degrees = initial_indegree ns in
    drain-ends (drain_fuel ns) (sort_children (collect_children ns [])) degrees
      (sort_by str_lt (roots degrees)) []
      (omega
        (arith, length-roots-le ns, sum_degrees-initial ns, length-sort_by str_lt (roots degrees)))

-- ===== src/Kernel/Planner/Topology.antt =====
-- kernel/allocator/planner/planner.go, `topologicalLocked`: Kahn's algorithm with a sorted queue.
-- `d == 1` is the decrement that reaches zero: an entry that is zero stays so, where the source's
-- goes below zero, and in both neither is ever queued again.
use aa.Base.{
  ℕ, zero, suc, ◌+◌, ◌-◌, String, Option, none, some, List, [], ◌∷◌, ◌++◌, length, ◌==◌, get_or,
  if◌then◌else◌,
}
use aa.Base.Assoc.{lookup, insert}
use aa.Base.Sort.{sort_strings}

-- Each node's id with the ids that it depends on, in insertion order.
abbrev pub Dependencies : Type 0
Dependencies = List (String × List String)

unfoldable pub initial_indegree : Dependencies → List (String × ℕ)
initial_indegree [] = []
initial_indegree ((id, deps) ∷ ns) = (id, length deps) ∷ initial_indegree ns

-- `children[dep] = append(children[dep], id)` for each of the node's dependencies.
unfoldable pub add_children :
    String → List String → List (String × List String) → List (String × List String)
add_children id [] children = children
add_children id (dep ∷ deps) children =
    add_children id deps (insert dep (get_or (lookup dep children) [] ++ id ∷ []) children)

unfoldable pub collect_children :
    Dependencies → List (String × List String) → List (String × List String)
unfolding add_children
collect_children [] children = children
collect_children ((id, deps) ∷ ns) children = collect_children ns (add_children id deps children)

-- `for k := range children { sort.Strings(children[k]) }`
unfoldable pub sort_children : List (String × List String) → List (String × List String)
sort_children [] = []
sort_children ((k, ids) ∷ m) = (k, sort_strings ids) ∷ sort_children m

unfoldable pub roots : List (String × ℕ) → List String
roots [] = []
roots ((id, d) ∷ m) = let rest = roots m in if d == 0 then id ∷ rest else rest

-- The loop over the children of a node that leaves the queue.
unfoldable pub release :
    List String → List (String × ℕ) → List String → List (String × ℕ) × List String
release [] indegree queue = (indegree, queue)
release (child ∷ rest) indegree queue =
    let d = get_or (lookup child indegree) 0 in
    release rest (insert child (d - 1) indegree) (if d == 1 then queue ++ child ∷ [] else queue)

-- `none` means that the fuel ran out.
unfoldable pub drain :
    ℕ
    → List (String × List String)
    → List (String × ℕ)
    → List String
    → List String
    → Option (List String)
unfolding release
drain zero children indegree queue order = none
drain (suc fuel) children indegree [] order = some order
drain (suc fuel) children indegree (id ∷ queue) order =
    let (indegree', queue') = release (get_or (lookup id children) []) indegree queue in
    drain fuel children indegree' (sort_strings queue') (order ++ id ∷ [])

-- How many dependencies are declared in all.
unfoldable pub count_dependencies : Dependencies → ℕ
count_dependencies [] = 0
count_dependencies ((id, deps) ∷ ns) = length deps + count_dependencies ns

-- Each round takes one id off the queue, and an id is queued once as a root or by a dependency.
abbrev pub drain_fuel : Dependencies → ℕ
drain_fuel ns = suc (length ns + count_dependencies ns)

unfoldable pub drain_all : Dependencies → Option (List String)
unfolding initial_indegree collect_children sort_children roots drain count_dependencies
drain_all ns =
    let indegree = initial_indegree ns in
    drain (drain_fuel ns) (sort_children (collect_children ns [])) indegree
      (sort_strings (roots indegree)) []

-- `none` stands for the error "dependency cycle detected".
unfoldable pub topological_order : Dependencies → Option (List String)
unfolding drain_all
topological_order ns = elim (drain_all ns) [
  | none ↦ none
  | some order ↦ if length order == length ns then some order else none
]

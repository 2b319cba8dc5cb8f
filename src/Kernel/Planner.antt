-- ===== src/Kernel/Planner.antt =====
-- kernel/allocator/planner/planner.go: work packages, their dependency graph and dispatch readiness.
pub mod Topology
pub mod Readiness
pub mod Progress
pub mod Drain
pub mod Release
pub mod Kahn
pub mod Schedules
pub mod Validation
pub mod Liveness
use aa.Base.{
  ℕ, zero, suc, ◌+◌, String, ◌≡◌, Bool, true, false, not, ◌&&◌, ◌||◌, Option, none, some, List, [],
  ◌∷◌, ◌++◌, map, length, any, all, keep, elem, str_eq, is_some, ◌==◌, get_or, if◌then◌else◌,
  Result, ok, err, ◌>>=◌, ◌>>◌, fail_if,
}
use aa.Base.Assoc.{lookup, insert, keys, values}
use aa.Base.Sort.{sort_strings}
use aa.Kernel.Planner.Topology.{Dependencies, topological_order}

-- The constants of `type State string`; `unset` is the empty text and `other` any other text.
pub data State : Type 0 where
  unset proposed ready running completed deficient : State
  other : String → State

pub record WorkPackage : Type 0 where
  pub id : String
  pub title : String
  pub role : String
  pub capabilities : List String
  pub depends_on : List String
  pub acceptance : List String
  pub state : State

-- `nodes` is the map and the slice `order` together: the entries stand in insertion order. Only
-- `Add` extends either, and it extends both with the same new key.
pub record Graph : Type 0 where
  pub project_id : String
  pub id : String
  pub revision : ℕ
  pub nodes : List (String × WorkPackage)

pub data Error : Type 0 where
  id_required cycle : Error
  duplicate unknown_node : String → Error
  self_dependency : String → Error
  missing_dependency : String → String → Error

unfoldable pub new_graph : String → String → Graph
new_graph project_id id = record { project_id = project_id; id = id; revision = 1; nodes = [] }

abbrev pub default_state : State → State
default_state unset = proposed
default_state s = s

unfoldable pub add : Graph → WorkPackage → Result Error Graph
add g wp = do
  fail_if (str_eq wp.id "") id_required
  fail_if (is_some (lookup wp.id g.nodes)) (duplicate wp.id)
  ok (record g { nodes = g.nodes ++ (wp.id, record wp { state = default_state wp.state }) ∷ [] })

unfoldable pub get : Graph → String → Option WorkPackage
get g id = lookup id g.nodes

unfoldable pub list : Graph → List WorkPackage
list g = values g.nodes

abbrev pub dependencies : List (String × WorkPackage) → Dependencies
dependencies [] = []
dependencies ((id, wp) ∷ ns) = (id, wp.depends_on) ∷ dependencies ns

-- The inner loop of `validateLocked` over one package's dependencies.
unfoldable pub check_dependencies :
    List (String × WorkPackage) → String → List String → Result Error (Unit {0})
check_dependencies nodes id [] = ok tt
check_dependencies nodes id (dep ∷ deps) = do
  fail_if (str_eq dep id) (self_dependency id)
  fail_if (not (is_some (lookup dep nodes))) (missing_dependency id dep)
  check_dependencies nodes id deps

-- The outer loop of `validateLocked`.
unfoldable pub check_nodes :
    List (String × WorkPackage) → List (String × WorkPackage) → Result Error (Unit {0})
check_nodes nodes [] = ok tt
check_nodes nodes ((id, wp) ∷ rest) = do
  check_dependencies nodes id wp.depends_on
  check_nodes nodes rest

unfoldable pub topological : Graph → Result Error (List String)
topological g = elim (topological_order (dependencies g.nodes)) [
  | none ↦ err cycle
  | some order ↦ ok order
]

unfoldable pub validate : Graph → Result Error (Unit {0})
validate g = do check_nodes g.nodes g.nodes; order ← topological g; ok tt

-- The node is found and its field is written through the pointer.
unfoldable pub update_state :
    String → State → List (String × WorkPackage) → List (String × WorkPackage)
update_state id s [] = []
update_state id s ((k, wp) ∷ ns) =
    if str_eq k id then (k, record wp { state = s }) ∷ ns else (k, wp) ∷ update_state id s ns

unfoldable pub set_state : Graph → String → State → Result Error Graph
set_state g id s = do
  fail_if (not (is_some (lookup id g.nodes))) (unknown_node id)
  ok (record g { nodes = update_state id s g.nodes })

abbrev pub is_dispatchable : State → Bool
is_dispatchable proposed = true
is_dispatchable ready = true
is_dispatchable _ = false

abbrev pub is_completed : State → Bool
is_completed completed = true
is_completed _ = false

-- `depWP, ok := g.nodes[dep]; ok && depWP.State == StateCompleted`
abbrev pub dependency_done : List (String × WorkPackage) → String → Bool
dependency_done nodes dep = elim (lookup dep nodes) [
  | none ↦ false
  | some wp ↦ is_completed wp.state
]

-- The loop of `Ready`: the inner loop stops at the first dependency that is not completed.
unfoldable pub collect_ready :
    List (String × WorkPackage) → List (String × WorkPackage) → List String
collect_ready nodes [] = []
collect_ready nodes ((id, wp) ∷ rest) =
    let others = collect_ready nodes rest in
    if is_dispatchable wp.state && all (dependency_done nodes) wp.depends_on
    then id ∷ others
    else others

unfoldable pub ready_ids : Graph → List String
unfolding collect_ready
ready_ids g = sort_strings (collect_ready g.nodes g.nodes)

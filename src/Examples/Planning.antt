-- ===== src/Examples/Planning.antt =====
-- kernel/allocator/planner/planner.go: a graph of two packages, validated and ordered.
use aa.Base.{
  String, ◌≡◌, refl, true, false, ◌||◌, some, List, [], ◌∷◌, is_empty, is_some, ok, arith, eq_iff,
}
use aa.Base.Assoc.{lookup, insert}
use aa.Base.Sort.{sort_by}
use aa.Kernel.Planner
use aa.Kernel.Planner.{WorkPackage, Graph, validate}
use aa.Kernel.Planner.Topology.{topological_order, drain_all}
use aa.Kernel.Planner.Readiness.{IsWellFormed, is_startable, has_completed}
use aa.Kernel.Planner.Drain.{drain_all-ends}
use aa.Kernel.Planner.Kahn.{is_ordered}
use aa.Kernel.Planner.Validation.{Schedules, validate-Schedules, validate_complete}
use aa.Kernel.Planner.Liveness.{ready_ids-nonempty}

abbrev base : WorkPackage
base = record {
  id = "a";
  title = "t";
  role = "";
  capabilities = [];
  depends_on = [];
  acceptance = [];
  state = Planner.completed;
}

abbrev next : WorkPackage
next = record base { id = "b"; depends_on = "a" ∷ []; state = Planner.proposed }

abbrev pair : Graph
pair = record { project_id = "p"; id = "g"; revision = 1; nodes = ("b", next) ∷ ("a", base) ∷ [] }

pair-IsWellFormed : IsWellFormed pair
unfolding lookup
pair-IsWellFormed = record {
  unique = (refl, (refl, tt));
  named = (refl, (λ e. cc), (refl, (λ e. cc), tt));
}

pair_valid : validate pair ≡ ok tt
unfolding validate Planner.check_nodes Planner.check_dependencies Planner.topological
    topological_order lookup sort_by insert
pair_valid = refl

validate-Schedules_example : (order : List String) × Schedules pair order
validate-Schedules_example = validate-Schedules pair pair-IsWellFormed pair_valid

pair_schedule : Schedules pair ("a" ∷ "b" ∷ [])
unfolding lookup is_ordered
pair_schedule = record {
  members = λ j. ground (arith, eq_iff "a" j, eq_iff "b" j);
  once = (refl, (refl, tt));
  ordered = refl;
}

validate_complete_example : validate pair ≡ ok tt
validate_complete_example = validate_complete pair ("a" ∷ "b" ∷ []) pair-IsWellFormed pair_schedule

drain_all-ends_example : is_some (drain_all (("a", "b" ∷ []) ∷ ("b", "a" ∷ []) ∷ [])) ≡ true
drain_all-ends_example = drain_all-ends (("a", "b" ∷ []) ∷ ("b", "a" ∷ []) ∷ [])

pair_idle :
    (j : String) (wp : WorkPackage)
    → lookup j pair.nodes ≡ some wp
    → (is_startable wp.state || has_completed pair.nodes j) ≡ true
unfolding lookup
pair_idle j wp e = ground (arith, eq_iff "a" j, eq_iff "b" j)

pair_open : (is_some (Planner.get pair "b") ≡ true) × (has_completed pair.nodes "b" ≡ false)
unfolding lookup Planner.get
pair_open = (refl, refl)

ready_ids-nonempty_example : is_empty (Planner.ready_ids pair) ≡ false
ready_ids-nonempty_example =
    ready_ids-nonempty pair "b" pair-IsWellFormed pair_valid pair_idle pair_open.0 pair_open.1

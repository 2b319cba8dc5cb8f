-- ===== src/Kernel/Planner/Validation.antt =====
-- kernel/allocator/planner/planner.go: which graphs `Validate` lets through, and why they never stall.
use aa.Base.{
  String, ◌≡◌, refl, true, false, ◌&&◌, ◌||◌, not, Option, none, some, List, [], ◌∷◌, ◌++◌, get_or,
  is_some, all_mono, arith, eq_iff, eq_refl, any-append, elem, all, str_eq, Option-cases,
  Bool-cases, inl, inr, ◌∙◌, ap, subst, ok,
}
use aa.Base.Assoc.{lookup, HasUniqueKeys}
use aa.Base.Ids.{Distinct}
use aa.Kernel.Planner.{
  WorkPackage, Graph, dependencies, topological, validate, check_nodes, check_dependencies,
}
use aa.Kernel.Planner.Topology.{Dependencies, topological_order}
use aa.Kernel.Planner.Release.{deps_of}
use aa.Kernel.Planner.Kahn.{is_ordered}
use aa.Kernel.Planner.Readiness.{IsWellFormed}
use aa.Kernel.Planner.Schedules.{
  IsSchedule, topological_order-IsSchedule, topological_order_complete,
}

abbrev deps_in : Option WorkPackage → Option (List String)
deps_in none = none
deps_in (some wp) = some wp.depends_on

pub lookup-dependencies :
    (ns : List (String × WorkPackage)) (j : String)
    → lookup j (dependencies ns) ≡ deps_in (lookup j ns)
unfolding lookup
lookup-dependencies [] j = refl
lookup-dependencies ((k, wp) ∷ ns) j = ground (arith, lookup-dependencies ns j)

dependencies-HasUniqueKeys :
    (ns : List (String × WorkPackage)) → HasUniqueKeys ns → HasUniqueKeys (dependencies ns)
dependencies-HasUniqueKeys [] u = tt
dependencies-HasUniqueKeys ((k, wp) ∷ ns) u =
    (lookup-dependencies ns k ∙ rw u.0 refl, dependencies-HasUniqueKeys ns u.1)

-- The packages of a graph in an order in which they can be done.
abbrev pub Schedules : Graph → List String → Type 0
Schedules g order = IsSchedule (dependencies g.nodes) order

validate_inv :
    (g : Graph)
    → validate g ≡ ok tt
    → (order : List String) × (topological_order (dependencies g.nodes) ≡ some order)
unfolding validate topological
validate_inv g e = elim (Option-cases (topological_order (dependencies g.nodes))) [
  | inl n ↦ absurd (ground arith)
  | inr (order, d) ↦ (order, d)
]

-- The packages of a graph that `Validate` lets through can be done in some order: every package once,
-- and each after all its dependencies.
pub validate-Schedules :
    (g : Graph) → IsWellFormed g → validate g ≡ ok tt → (order : List String) × Schedules g order
validate-Schedules g v e =
    let (order, d) = validate_inv g e in
    (
      order,
      topological_order-IsSchedule (dependencies g.nodes)
          (dependencies-HasUniqueKeys g.nodes v.unique) d,
    )

-- In a schedule, the dependencies of an id are other ids before it.
scheduled_deps :
    (ns : Dependencies) (seen w : List String) (x : String)
    → is_ordered ns seen w ≡ true
    → Distinct w
    → ((j : String) → elem j seen ≡ true → elem j w ≡ false)
    → elem x w ≡ true
    → all (λ d. (elem d seen || elem d w) && not (str_eq d x)) (deps_of ns x) ≡ true
unfolding is_ordered
scheduled_deps ns seen [] x o u a h = absurd (ground arith)
scheduled_deps ns seen (y ∷ w) x o u a h = elim (Bool-cases (str_eq y x)) [
  | inl e ↦
      all_mono (λ d. elem d seen) _ (deps_of ns x)
        (λ d g. ground (arith, a d g, eq_iff d x, eq_iff y x, eq_iff y d, e, g))
        (ground (arith, eq_iff y x, e))
  | inr e ↦
      all_mono (λ d. (elem d (seen ++ y ∷ []) || elem d w) && not (str_eq d x)) _ (deps_of ns x)
        (λ d g. ground (arith, any-append (λ z. str_eq z d) seen (y ∷ []), g))
        (scheduled_deps ns (seen ++ y ∷ []) w x (ground arith) u.1
          (λ j g.
            ground (arith, any-append (λ z. str_eq z j) seen (y ∷ []), a j, u.0, eq_iff y j, g))
          (ground (arith, e)))
]

check_dependencies-ok :
    (nodes : List (String × WorkPackage)) (id : String) (deps : List String)
    → all (λ d. is_some (lookup d nodes) && not (str_eq d id)) deps ≡ true
    → check_dependencies nodes id deps ≡ ok tt
unfolding check_dependencies
check_dependencies-ok nodes id [] h = refl
check_dependencies-ok nodes id (d ∷ deps) h = ground (arith, check_dependencies-ok nodes id deps)

check_nodes-ok :
    (nodes rest : List (String × WorkPackage))
    → HasUniqueKeys rest
    → ((id : String) (wp : WorkPackage)
        → lookup id rest ≡ some wp
        → all (λ d. is_some (lookup d nodes) && not (str_eq d id)) wp.depends_on ≡ true)
    → check_nodes nodes rest ≡ ok tt
unfolding check_nodes lookup
check_nodes-ok nodes [] u h = refl
check_nodes-ok nodes ((id, wp) ∷ rest) u h = ground (
  arith,
  check_dependencies-ok nodes id wp.depends_on (h id wp (ground (arith, eq_refl id))),
  check_nodes-ok nodes rest u.1 (λ j w e. h j w (ground (arith, e, u.0, eq_iff id j))),
)

-- `Validate` lets through every graph whose packages can be done in some order.
pub validate_complete :
    (g : Graph) (order : List String) → IsWellFormed g → Schedules g order → validate g ≡ ok tt
unfolding validate topological
validate_complete g order v s =
    let ns = dependencies g.nodes in
    let known = λ (id : String) (wp : WorkPackage) (e : lookup id g.nodes ≡ some wp).
      all_mono (λ d. (elem d [] || elem d order) && not (str_eq d id))
        (λ d. is_some (lookup d g.nodes) && not (str_eq d id)) wp.depends_on
        (λ d h. ground (arith, s.members d, lookup-dependencies g.nodes d, h))
        (subst (λ l. all (λ d. (elem d [] || elem d order) && not (str_eq d id)) l ≡ true)
          (ap (λ o. get_or o []) (lookup-dependencies g.nodes id) ∙ rw e refl)
          (scheduled_deps ns [] order id s.ordered s.once (λ j h. absurd (ground arith))
            (s.members id ∙ lookup-dependencies-some id wp e))) in
    let checked = check_nodes-ok g.nodes g.nodes v.unique known in
    let found =
      topological_order_complete ns order (dependencies-HasUniqueKeys g.nodes v.unique) s in
    ground (arith, checked, found)
  where
    lookup-dependencies-some :
        (id : String) (wp : WorkPackage)
        → lookup id g.nodes ≡ some wp
        → is_some (lookup id (dependencies g.nodes)) ≡ true
    lookup-dependencies-some id wp e = ground (arith, lookup-dependencies g.nodes id, e)

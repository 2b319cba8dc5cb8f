-- ===== src/Kernel/Planner/Progress.antt =====
-- kernel/allocator/planner/planner.go: how a change of one state bears on the dependencies of all.
use aa.Base.{
  all_mono, String, ◌≡◌, refl, ◌≢◌, inl, inr, Bool, true, false, ◌||◌, Option, none, some, List, [],
  ◌∷◌, all, elem, str_eq, eq_iff, if◌then◌else◌, ok, err, Result-cases, arith, Option-cases,
  Bool-cases, ◌∙◌, sym,
}
use aa.Base.Assoc.{lookup}
use aa.Kernel.Planner.{
  State, completed, WorkPackage, Graph, get, set_state, update_state, is_dispatchable,
  dependency_done, ready_ids,
}
use aa.Kernel.Planner.Readiness.{
  IsWellFormed, update_state-lookup, set_state-IsWellFormed, elem-ready_ids,
}

abbrev pub state_in : Option WorkPackage → Option State
state_in none = none
state_in (some wp) = some wp.state

abbrev pub state_of : Graph → String → Option State
state_of g id = state_in (lookup id g.nodes)

-- `SetState`, where an unknown id changes nothing.
abbrev pub put_state : Graph → String → State → Graph
put_state g id s = elim (set_state g id s) [ ok g' ↦ g' | err e ↦ g ]

abbrev pub with_state : Bool → State → Option WorkPackage → Option WorkPackage
with_state hit s none = none
with_state hit s (some wp) = some (if hit then record wp { state = s } else wp)

pub put_state-lookup :
    (g : Graph) (id j : String) (s : State)
    → lookup j (put_state g id s).nodes ≡ with_state (str_eq id j) s (lookup j g.nodes)
unfolding set_state
put_state-lookup g id j s = ground (arith, update_state-lookup id j s g.nodes, eq_iff id j)

pub put_state-IsWellFormed :
    (g : Graph) (id : String) (s : State) → IsWellFormed g → IsWellFormed (put_state g id s)
put_state-IsWellFormed g id s v = elim (Result-cases (set_state g id s)) [
  | inl (g', e) ↦ rw (e, put_state) (set_state-IsWellFormed g id s v e)
  | inr (x, e) ↦ rw (e, put_state) v
]

-- No package has left PROPOSED and READY before its dependencies were all completed.
abbrev pub RespectsDependencies : Graph → Type 0
RespectsDependencies g =
    (id : String) (wp : WorkPackage)
    → lookup id g.nodes ≡ some wp
    → (is_dispatchable wp.state || all (dependency_done g.nodes) wp.depends_on) ≡ true

dependency_done-put_state :
    (g : Graph) (id d : String) (s : State)
    → state_of g id ≢ some completed
    → dependency_done g.nodes d ≡ true
    → dependency_done (put_state g id s).nodes d ≡ true
dependency_done-put_state g id d s n h = ground (arith, put_state-lookup g id d s, eq_iff id d)

pub still_done :
    (g : Graph) (id : String) (s : State) (b : Bool) (deps : List String)
    → state_of g id ≢ some completed
    → (b || all (dependency_done g.nodes) deps) ≡ true
    → (b || all (dependency_done (put_state g id s).nodes) deps) ≡ true
still_done g id s true deps n h = refl
still_done g id s false deps n h =
    all_mono (dependency_done g.nodes) (dependency_done (put_state g id s).nodes) deps
      (λ d. dependency_done-put_state g id d s n) h

-- A package that is not completed may be given any state for which its dependencies are ready.
pub put_state-RespectsDependencies :
    (g : Graph) (id : String) (s : State)
    → state_of g id ≢ some completed
    → ((wp : WorkPackage)
        → lookup id g.nodes ≡ some wp
        → (is_dispatchable s || all (dependency_done g.nodes) wp.depends_on) ≡ true)
    → RespectsDependencies g
    → RespectsDependencies (put_state g id s)
put_state-RespectsDependencies g id s n new old j wp e =
    let l = sym (put_state-lookup g id j s) ∙ e in
    elim (Option-cases (lookup j g.nodes)) [
      | inl none_there ↦ absurd (ground arith)
      | inr (wp₀, there) ↦ elim (Bool-cases (str_eq id j)) [
        | inl same ↦
            still_done g id s (is_dispatchable wp.state) wp.depends_on n
              (ground (arith, new wp₀, eq_iff id j))
        | inr other ↦
            still_done g id s (is_dispatchable wp.state) wp.depends_on n
              (ground (arith, old j wp₀ there))
      ]
    ]

abbrev pub if_known : Option State → State → Option State
if_known none s = none
if_known (some old) s = some s

pub state_of-put_state :
    (g : Graph) (id j : String) (s : State)
    → state_of (put_state g id s) j
      ≡ (if str_eq id j then if_known (state_of g j) s else state_of g j)
state_of-put_state g id j s = ground (arith, put_state-lookup g id j s)

-- A ready package is known, dispatchable, and has its dependencies completed.
pub ready-facts :
    (g : Graph) (id : String)
    → IsWellFormed g
    → elem id (ready_ids g) ≡ true
    → (wp : WorkPackage) × (lookup id g.nodes ≡ some wp)
      × (is_dispatchable wp.state ≡ true)
      × (all (dependency_done g.nodes) wp.depends_on ≡ true)
unfolding get
ready-facts g id v h = elim (Option-cases (lookup id g.nodes)) [
  | inl e ↦ absurd (ground (arith, elem-ready_ids g id v))
  | inr (wp, e) ↦
      (wp, e, ground (arith, elem-ready_ids g id v), ground (arith, elem-ready_ids g id v))
]

update_state-twice :
    (id : String) (s t : State) (ns : List (String × WorkPackage))
    → update_state id t (update_state id s ns) ≡ update_state id t ns
unfolding update_state
update_state-twice id s t [] = refl
update_state-twice id s t ((k, wp) ∷ ns) = ground (arith, update_state-twice id s t ns)

pub put_state-twice :
    (g : Graph) (id : String) (s t : State) → put_state (put_state g id s) id t ≡ put_state g id t
unfolding set_state
put_state-twice g id s t =
    ground (arith, update_state-twice id s t g.nodes, update_state-lookup id id s g.nodes)

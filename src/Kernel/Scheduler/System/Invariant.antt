-- ===== src/Kernel/Scheduler/System/Invariant.antt =====
-- kernel/scheduler: what holds of a system between two moves, and that every move keeps it.
use aa.Base.{
  String, ◌≡◌, refl, ◌≢◌, true, false, ◌||◌, Option, none, some, List, ◌∷◌, all, All, elem, str_eq,
  eq_iff, if◌then◌else◌, ok, arith, ap, ◌∙◌, sym, subst,
}
use aa.Base.Assoc.{lookup}
use aa.Base.Ids.{ids, Distinct}
use aa.Kernel.Planner
use aa.Kernel.Planner.Readiness.{IsWellFormed}
use aa.Kernel.Planner.Progress.{
  state_of, put_state, state_of-put_state, put_state-IsWellFormed, put_state-RespectsDependencies,
  RespectsDependencies, ready-facts, put_state-twice,
}
use aa.Kernel.Assignment
use aa.Kernel.Assignment.{Assignment}
use aa.Kernel.Scheduler.{Scheduler, DispatchReport}
use aa.Kernel.Scheduler.Dispatch.{InFlight}
use aa.Kernel.Scheduler.System.{System, id_of}
use aa.Kernel.Scheduler.System.Parts.{says_failed}
use aa.Kernel.Scheduler.System.Core.{Core, update-Core}

abbrev pub flight_id : InFlight → Option String
flight_id f = some (id_of f)

-- The package of an outcome that is a failure.
abbrev pub failure_id : String × DispatchReport → Option String
failure_id (id, d) = if says_failed (ok d) then some id else none

abbrev pub IsFlying : InFlight → Type 0
IsFlying f = (f.assignment.work_package_id ≡ id_of f) × (f.assignment.state ≡ Assignment.running)

pub record Inv (s : System) : Type 0 where
  pub core : Core s.scheduler (ids flight_id s.flights) (ids failure_id s.outcomes)
  pub one_flight : Distinct (ids flight_id s.flights)
  pub one_failure : Distinct (ids failure_id s.outcomes)
  pub flying : All IsFlying s.flights

-- The invariant reads the scheduler's graph and assignments only.
pub Core-same :
    (o o' : Scheduler) (flying failing : List String)
    → o'.graph ≡ o.graph
    → o'.assignments ≡ o.assignments
    → Core o flying failing
    → Core o' flying failing
Core-same o o' flying failing g l c = record {
  well = subst IsWellFormed (sym g) c.well;
  respects = subst RespectsDependencies (sym g) c.respects;
  flies = λ j h. ap (λ x. state_of x j) g ∙ c.flies j h;
  fails = λ j h. ap (λ x. state_of x j) g ∙ c.fails j h;
  keyed = λ j a h. c.keyed j a (sym (ap (lookup j) l) ∙ h);
  waits = λ j a h w.
      let v = c.waits j a (sym (ap (lookup j) l) ∙ h) w in (ap (λ x. state_of x j) g ∙ v.0, v.1);
  done = λ j h.
      let (a, there, w) = c.done j (sym (ap (λ x. state_of x j) g) ∙ h) in
      (a, ap (lookup j) l ∙ there, w);
}

-- A package that has neither run nor been completed gets the state `s`, and its assignment is kept.
module _ (o o' : Scheduler) (id : String) (s : Planner.State)
    (flying flying' failing failing' : List String) (c : Core o flying failing)
    (known : state_of o.graph id ≢ none) (idle : state_of o.graph id ≢ some Planner.running)
    (unfinished : state_of o.graph id ≢ some Planner.completed)
    (g : o'.graph ≡ put_state o.graph id s) (l : o'.assignments ≡ o.assignments) where
  pub revive-Core :
      ((wp : Planner.WorkPackage)
        → lookup id o.graph.nodes ≡ some wp
        → (Planner.is_dispatchable s || all (Planner.dependency_done o.graph.nodes) wp.depends_on)
          ≡ true)
      → ((j : String) → str_eq id j ≡ false → elem j flying' ≡ elem j flying)
      → ((j : String) → str_eq id j ≡ false → elem j failing' ≡ true → elem j failing ≡ true)
      → (elem id flying' ≡ true → s ≡ Planner.running)
      → (elem id failing' ≡ true → s ≡ Planner.deficient)
      → s ≢ Planner.completed
      → Core o' flying' failing'
  revive-Core fits of ox f x n =
      update-Core o o' id s (lookup id o.assignments) flying flying' failing failing'
        (subst IsWellFormed (sym g) (put_state-IsWellFormed o.graph id s c.well))
        (subst RespectsDependencies (sym g)
          (put_state-RespectsDependencies o.graph id s unfinished fits c.respects))
        (λ j.
          ap (λ h. state_of h j) g ∙ ground (arith, state_of-put_state o.graph id j s, eq_iff id j))
        (λ j. ap (lookup j) l ∙ ground (arith, eq_iff id j)) of ox f x (c.keyed id)
        (λ a h w. absurd (idle (c.waits id a h w).0)) (λ e. absurd (n e)) c

module _ (o : Scheduler) (id : String) (flying failing : List String) (c : Core o flying failing)
    (ready : elem id (Planner.ready_ids o.graph) ≡ true) where
  ready_state :
      (state_of o.graph id ≢ none)
      × (state_of o.graph id ≢ some Planner.running)
      × (state_of o.graph id ≢ some Planner.completed)
      × (state_of o.graph id ≢ some Planner.deficient)
  ready_state =
      let (wp, there, dispatchable, deps) = ready-facts o.graph id c.well ready in ground arith

  pub grounded : elem id flying ≡ false
  grounded = ground (arith, c.flies id, ready_state.1)

  not_failing : elem id failing ≡ false
  not_failing = ground (arith, c.fails id, ready_state.3)

  ready_deps :
      (s : Planner.State) (wp : Planner.WorkPackage)
      → lookup id o.graph.nodes ≡ some wp
      → (Planner.is_dispatchable s || all (Planner.dependency_done o.graph.nodes) wp.depends_on)
        ≡ true
  ready_deps s wp e =
      let (wp', there, dispatchable, deps) = ready-facts o.graph id c.well ready in
      ground (arith, there, e, deps)

  pub undone-Core :
      (o' : Scheduler)
      → o'.graph ≡ put_state (put_state o.graph id Planner.running) id Planner.deficient
      → o'.assignments ≡ o.assignments
      → Core o' flying failing
  undone-Core o' g l =
      revive-Core o o' id Planner.deficient flying flying failing failing c ready_state.0
        ready_state.1 ready_state.2
        (g ∙ put_state-twice o.graph id Planner.running Planner.deficient) l
        (ready_deps Planner.deficient) (λ j e. refl) (λ j e h. h) (λ h. ground (arith, grounded))
        (λ h. refl) (λ e. cc)

  pub launched-Core :
      (o' : Scheduler)
      → o'.graph ≡ put_state o.graph id Planner.running
      → o'.assignments ≡ o.assignments
      → Core o' (id ∷ flying) failing
  launched-Core o' g l =
      revive-Core o o' id Planner.running flying (id ∷ flying) failing failing c ready_state.0
        ready_state.1 ready_state.2 g l (ready_deps Planner.running) (λ j e. ground arith)
        (λ j e h. h) (λ h. refl) (λ h. ground (arith, not_failing)) (λ e. cc)

-- ===== src/Kernel/Scheduler/System/Safety.antt =====
-- kernel/scheduler/run.go: what a call of `Run` on a scheduler that `New` made never does, whatever
-- order its attempts, its retries and the resolutions beside it take.
use aa.Base.{
  ℕ, String, ◌≡◌, refl, true, false, some, List, [], elem, elem-all, ◌≢◌, ok, arith, sym, subst,
  Option-cases, inl, inr,
}
use aa.Base.Assoc.{lookup}
use aa.Base.Ids.{ids, Distinct}
use aa.Kernel.Planner
use aa.Kernel.Planner.Readiness.{IsWellFormed}
use aa.Kernel.Planner.Progress.{state_of, state_in}
use aa.Kernel.Assignment
use aa.Kernel.Assignment.{Assignment}
use aa.Kernel.Scheduler
use aa.Kernel.Scheduler.{Scheduler, Config}
use aa.Kernel.Scheduler.System.{Move, run, system_of}
use aa.Kernel.Scheduler.System.Core.{Core}
use aa.Kernel.Scheduler.System.Invariant.{Inv, flight_id}
use aa.Kernel.Scheduler.System.Batch.{Waits}
use aa.Kernel.Scheduler.System.Interleavings.{run-Inv}

-- No package has been begun: each is PROPOSED or READY.
abbrev pub IsFresh : Planner.Graph → Type 0
IsFresh g =
    (id : String) (wp : Planner.WorkPackage)
    → lookup id g.nodes ≡ some wp
    → Planner.is_dispatchable wp.state ≡ true

new-parts :
    (g : Planner.Graph) (config : Config) {o : Scheduler}
    → Scheduler.new g config ≡ ok o
    → (o.graph ≡ g) × (o.assignments ≡ [])
unfolding Scheduler.new
new-parts g config e = ground arith

fresh-Core :
    (o : Scheduler) → IsWellFormed o.graph → IsFresh o.graph → o.assignments ≡ [] → Core o [] []
unfolding lookup
fresh-Core o w f l = record {
  well = w;
  respects = λ id wp e. rw (f id wp e) refl;
  flies = λ id h. absurd (ground arith);
  fails = λ id h. absurd (ground arith);
  keyed = λ id a h. absurd (ground (arith, l));
  waits = λ id a h w. absurd (ground (arith, l));
  done = λ id h. elim (Option-cases (lookup id o.graph.nodes)) [
    | inl e ↦ absurd (ground arith)
    | inr (wp, e) ↦ absurd (ground (arith, f id wp e))
  ];
}

done-completed :
    (nodes : List (String × Planner.WorkPackage)) (id : String)
    → Planner.dependency_done nodes id ≡ true
    → state_in (lookup id nodes) ≡ some Planner.completed
done-completed nodes id h = ground arith

module _ (m : ℕ) (moves : List Move) (g : Planner.Graph) (config : Config) (o : Scheduler)
    (w : IsWellFormed g) (f : IsFresh g) (e : Scheduler.new g config ≡ ok o) where
  pub fresh-Inv : Inv (system_of o)
  unfolding ids
  fresh-Inv =
      let (g_same, l) = new-parts g config e in
      record {
        core = fresh-Core o (subst IsWellFormed (sym g_same) w) (subst IsFresh (sym g_same) f) l;
        one_flight = tt;
        one_failure = tt;
        flying = tt;
      }

  pub fresh-Waits : Waits (system_of o)
  unfolding ids
  fresh-Waits = record { ready = λ j h. absurd (ground arith); single = tt }

  reached-Inv : Inv (run m (system_of o) moves)
  reached-Inv = (run-Inv m (system_of o) moves fresh-Inv fresh-Waits).0

  -- Start from a scheduler that New has just made of a well-formed graph whose packages are all
  -- PROPOSED or READY, and let one call of Run, with calls of Resolve, Approve and Reject beside it,
  -- take any interleaved moves (no call of Dispatch, and no other Run). Then every dependency of a
  -- package that has left PROPOSED and READY is COMPLETED.
  pub run-respects_dependencies :
      (id dependency : String) (wp : Planner.WorkPackage)
      → lookup id (run m (system_of o) moves).scheduler.graph.nodes ≡ some wp
      → wp.state ≢ Planner.proposed
      → wp.state ≢ Planner.ready
      → elem dependency wp.depends_on ≡ true
      → state_of (run m (system_of o) moves).scheduler.graph dependency ≡ some Planner.completed
  run-respects_dependencies id dependency wp there p r d =
      let respects = reached-Inv.core.respects id wp there in
      let nodes = (run m (system_of o) moves).scheduler.graph.nodes in
      done-completed nodes dependency (
        elem-all dependency wp.depends_on (Planner.dependency_done nodes)
          (ground (arith, respects, p, r)) d)

  -- Start from a scheduler that New has just made of a well-formed graph whose packages are all
  -- PROPOSED or READY, and let one call of Run, with calls of Resolve, Approve and Reject beside it,
  -- take any interleaved moves (no call of Dispatch, and no other Run). Then a package that is
  -- COMPLETED has a stored assignment of its own that is in the state ACCEPTED.
  pub run-completed_is_accepted :
      (id : String)
      → state_of (run m (system_of o) moves).scheduler.graph id ≡ some Planner.completed
      → (a : Assignment) × (lookup id (run m (system_of o) moves).scheduler.assignments ≡ some a)
        × (a.state ≡ Assignment.accepted)
        × (a.work_package_id ≡ id)
  run-completed_is_accepted id h =
      let v = reached-Inv in
      let (a, there, s) = v.core.done id h in (a, there, s, v.core.keyed id a there)

  -- Start from a scheduler that New has just made of a well-formed graph whose packages are all
  -- PROPOSED or READY, and let one call of Run, with calls of Resolve, Approve and Reject beside it,
  -- take any interleaved moves (no call of Dispatch, and no other Run). Then no package is with the
  -- runtime twice.
  pub run-one_flight : Distinct (ids flight_id (run m (system_of o) moves).flights)
  run-one_flight = reached-Inv.one_flight

  -- Start from a scheduler that New has just made of a well-formed graph whose packages are all
  -- PROPOSED or READY, and let one call of Run, with calls of Resolve, Approve and Reject beside it,
  -- take any interleaved moves (no call of Dispatch, and no other Run). Then a package that is with
  -- the runtime is RUNNING.
  pub run-flying_is_running :
      (id : String)
      → elem id (ids flight_id (run m (system_of o) moves).flights) ≡ true
      → state_of (run m (system_of o) moves).scheduler.graph id ≡ some Planner.running
  run-flying_is_running id = reached-Inv.core.flies id

  -- Start from a scheduler that New has just made of a well-formed graph whose packages are all
  -- PROPOSED or READY, and let one call of Run, with calls of Resolve, Approve and Reject beside it,
  -- take any interleaved moves (no call of Dispatch, and no other Run). Then a package whose stored
  -- assignment awaits its gates is RUNNING and is not with the runtime.
  pub run-awaiting_is_parked :
      (id : String) (a : Assignment)
      → lookup id (run m (system_of o) moves).scheduler.assignments ≡ some a
      → a.state ≡ Assignment.awaiting_gates
      → (state_of (run m (system_of o) moves).scheduler.graph id ≡ some Planner.running)
        × (elem id (ids flight_id (run m (system_of o) moves).flights) ≡ false)
  run-awaiting_is_parked id a there s = reached-Inv.core.waits id a there s

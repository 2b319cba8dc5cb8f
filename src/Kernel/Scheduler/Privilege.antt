-- ===== src/Kernel/Scheduler/Privilege.antt =====
-- kernel/scheduler/scheduler.go: what the runtime is handed where an attempt begins.
use aa.Base.{
  ℕ, ◌+◌, String, ◌≡◌, refl, inl, inr, ◌&&◌, Option, none, some, [], elem, get_or, Result, ok, err,
  arith, Option-cases, ap, ◌∙◌,
}
use aa.Base.Assoc.{lookup}
use aa.Kernel.Planner
use aa.Kernel.Assignment
use aa.Kernel.Assignment.{Assignment}
use aa.Kernel.Contract
use aa.Kernel.Contract.Privilege.{build-grants}
use aa.Kernel.RoleAllocator
use aa.Kernel.Scheduler.{
  Scheduler, Error, record_assignment, set_work_package_state, emit, execution_started,
}
use aa.Kernel.Scheduler.Dispatch.{
  InFlight, begin_dispatch, start, start_with, lease_and_launch, launch, launch_recorded, hand_over,
  planned_assignment, count_attempt, build_contract, contract_request, assignment_name,
  next_attempt,
}
use aa.Kernel.Scheduler.System.Begins.{advance_lem}

-- What a flight takes over from the built contract and from the new assignment.
abbrev IsMadeOf : Assignment → Contract.Contract → InFlight → Type 0
IsMadeOf a contract f =
    (f.request.capabilities ≡ contract.capabilities)
    × (f.request.contract_id ≡ contract.id)
    × (f.assignment.worker_id ≡ a.worker_id)
    × (f.assignment.attempt ≡ a.attempt)

launch_recorded-made :
    (r : Scheduler × Option Error) (id : String) (a : Assignment) (c : Contract.Contract)
    {f : InFlight}
    → (launch_recorded r id a c).1 ≡ ok f
    → IsMadeOf a c f
unfolding launch_recorded hand_over
launch_recorded-made (o, some e) id a c h = absurd (ground arith)
launch_recorded-made (o, none) id a c h = ground arith

launch-made :
    (o : Scheduler) (id : String) (a : Assignment) (c : Contract.Contract) {f : InFlight}
    → (launch o id a c).1 ≡ ok f
    → IsMadeOf a c f
unfolding launch
launch-made o id a c h =
    let o₁ =
      emit (set_work_package_state o id Planner.running) (execution_started id a.id a.worker_id) in
    launch_recorded-made (record_assignment o₁ a) id a c h

start_with-made :
    (o : Scheduler) (id : String) (a : Assignment) (now : ℕ)
    (r : Result Contract.Error Contract.Contract) {f : InFlight}
    → a.state ≡ Assignment.planned
    → (start_with o id a now r).1 ≡ ok f
    → (contract : Contract.Contract) × (r ≡ ok contract) × IsMadeOf a contract f
unfolding start_with lease_and_launch Assignment.lease_for launch
start_with-made o id a now (err e) s h = absurd (ground arith)
start_with-made o id a now (ok contract) s h =
    let a₁ : Assignment = record a { state = Assignment.running } in
    let leased = Assignment.lease_for a₁ a.worker_id now o.config.lease_ttl in
    (contract, refl, launch-made o id leased contract (rw (advance_lem a s, start_with) at h))

begun-made :
    (o : Scheduler) (id : String) (now : ℕ) {f : InFlight}
    → (begin_dispatch o id now).1 ≡ ok f
    → (wp : Planner.WorkPackage) × (worker : RoleAllocator.Worker) × (contract : Contract.Contract)
      × (Planner.get o.graph id ≡ some wp)
      × (RoleAllocator.select_one o.config.registry
            (record { roles = []; capabilities = wp.capabilities })
          ≡ some worker)
      × (build_contract o id wp ≡ ok contract)
      × IsMadeOf (planned_assignment o id worker) contract f
unfolding begin_dispatch start Assignment.new_assignment
begun-made o id now h = elim (Option-cases (Planner.get o.graph id)) [
  | inl e ↦ absurd (ground arith)
  | inr (wp, e) ↦
      elim (Option-cases (
        RoleAllocator.select_one o.config.registry
          (record { roles = []; capabilities = wp.capabilities }))) [
            | inl f ↦ absurd (ground arith)
            | inr (w, f) ↦
                (let (contract, built, made) =
                    start_with-made (count_attempt o id) id (planned_assignment o id w) now
                      (build_contract o id wp) refl (rw (e, begin_dispatch, f) at h) in
                  (wp, w, contract, e, f, built, made))
          ]
]

-- An attempt that begins is of a known package and goes to the worker that the allocator selects for
-- the package's capabilities; what the runtime is handed are exactly the capabilities that the package
-- asks for and the configuration permits; and the attempt's number is one more than the last.
pub begin_dispatch-hands_over :
    (o : Scheduler) (id : String) (now : ℕ) (f : InFlight) (c : String)
    → (begin_dispatch o id now).1 ≡ ok f
    → (wp : Planner.WorkPackage) × (worker : RoleAllocator.Worker) × (Planner.get o.graph id
        ≡ some wp)
      × (RoleAllocator.select_one o.config.registry
            (record { roles = []; capabilities = wp.capabilities })
          ≡ some worker)
      × (f.assignment.worker_id ≡ worker.id)
      × (f.assignment.attempt ≡ get_or (lookup id o.attempts) 0 + 1)
      × (elem c f.request.capabilities ≡ (elem c wp.capabilities && elem c o.config.permitted))
unfolding Assignment.new_assignment Contract.has
begin_dispatch-hands_over o id now f c h =
    let (wp, w, contract, known, chosen, built, made) = begun-made o id now h in
    let request = contract_request o wp id (assignment_name id (next_attempt o id)) in
    (
      wp,
      w,
      known,
      chosen,
      made.2,
      made.3,
      ap (elem c) made.0 ∙ (build-grants o.config.contract_digest request c built).0,
    )

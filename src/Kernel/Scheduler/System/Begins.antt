-- ===== src/Kernel/Scheduler/System/Begins.antt =====
-- kernel/scheduler/scheduler.go: what the first half of `dispatchOne` does, on every branch.
use aa.Base.{
  ℕ, String, ◌≡◌, refl, inl, inr, Option, none, some, [], Result, ok, err, arith, Option-cases, ap,
  ◌∙◌,
}
use aa.Runtime.Worker
use aa.Kernel.Planner
use aa.Kernel.Planner.Progress.{put_state}
use aa.Kernel.Assignment
use aa.Kernel.Assignment.{Assignment}
use aa.Kernel.Contract
use aa.Kernel.RoleAllocator
use aa.Kernel.Scheduler.{
  Scheduler, Answer, Error, set_work_package_state, record_assignment, emit, execution_started,
}
use aa.Kernel.Scheduler.Dispatch.{
  InFlight, begin_dispatch, start, start_with, count_attempt, build_contract, lease_and_launch,
  planned_assignment, launch, launch_recorded, hand_over, advance, worker_request,
}
use aa.Kernel.Scheduler.System.Parts.{set_work_package_state-parts, record_assignment-parts}

-- What beginning an attempt of the package `id` may do.
pub data Begin (o : Scheduler) (answer : Answer InFlight) (id : String) : Type 0 where
  refused :
      (e : Error)
      → answer.1 ≡ err e
      → answer.0.graph ≡ o.graph
      → answer.0.assignments ≡ o.assignments
      → Begin o answer id
  undone :
      (e : Error)
      → answer.1 ≡ err e
      → answer.0.graph ≡ put_state (put_state o.graph id Planner.running) id Planner.deficient
      → answer.0.assignments ≡ o.assignments
      → Begin o answer id
  launched :
      (flight : InFlight)
      → answer.1 ≡ ok flight
      → flight.request.work_package_id ≡ id
      → flight.assignment.work_package_id ≡ id
      → flight.assignment.state ≡ Assignment.running
      → answer.0.graph ≡ put_state o.graph id Planner.running
      → answer.0.assignments ≡ o.assignments
      → Begin o answer id

hand_over-parts :
    (o : Scheduler) (id : String) (a : Assignment) (c : Contract.Contract)
    → ((hand_over o id a c).0.graph ≡ o.graph)
      × ((hand_over o id a c).0.assignments ≡ o.assignments)
      × ((hand_over o id a c).1.assignment ≡ a)
      × ((hand_over o id a c).1.request ≡ worker_request o id a c)
unfolding hand_over
hand_over-parts o id a c = ground arith

launch_recorded-Begin :
    (o : Scheduler) (id : String) (a : Assignment) (c : Contract.Contract)
    (r : Scheduler × Option Error)
    → a.work_package_id ≡ id
    → a.state ≡ Assignment.running
    → r.0.graph ≡ put_state o.graph id Planner.running
    → r.0.assignments ≡ o.assignments
    → Begin o (launch_recorded r id a c) id
unfolding launch_recorded
launch_recorded-Begin o id a c (o₁, some e) w s g l =
    let p = set_work_package_state-parts o₁ id Planner.deficient in
    undone e refl (p.0 ∙ ap (λ h. put_state h id Planner.deficient) g) (p.1 ∙ l)
launch_recorded-Begin o id a c (o₁, none) w s g l =
    let p = hand_over-parts o₁ id a c in
    launched (hand_over o₁ id a c).1 refl (ap (λ (r : Worker.Request). r.work_package_id) p.3)
      (ap (λ (b : Assignment). b.work_package_id) p.2 ∙ w)
      (ap (λ (b : Assignment). b.state) p.2 ∙ s) (p.0 ∙ g) (p.1 ∙ l)

launch-Begin :
    (o : Scheduler) (id : String) (a : Assignment) (c : Contract.Contract)
    → a.work_package_id ≡ id
    → a.state ≡ Assignment.running
    → Begin o (launch o id a c) id
unfolding launch emit
launch-Begin o id a c w s =
    let o₁ = set_work_package_state o id Planner.running in
    let p = set_work_package_state-parts o id Planner.running in
    let o₂ = emit o₁ (execution_started id a.id a.worker_id) in
    let r = record_assignment-parts o₂ a in
    launch_recorded-Begin o id a c (record_assignment o₂ a) w s (r.0 ∙ p.0) (r.1 ∙ p.1)

pub advance_lem :
    (a : Assignment)
    → a.state ≡ Assignment.planned
    → advance a ≡ ok (record a { state = Assignment.running })
unfolding advance Assignment.transition
advance_lem a h = ground arith

Begin-same :
    (o o₁ : Scheduler) (answer : Answer InFlight) (id : String)
    → o₁.graph ≡ o.graph
    → o₁.assignments ≡ o.assignments
    → Begin o₁ answer id
    → Begin o answer id
Begin-same o o₁ answer id g l (refused e q g' l') = refused e q (g' ∙ g) (l' ∙ l)
Begin-same o o₁ answer id g l (undone e q g' l') =
    undone e q (g' ∙ ap (λ h. put_state (put_state h id Planner.running) id Planner.deficient) g)
      (l' ∙ l)
Begin-same o o₁ answer id g l (launched f q r w s g' l') =
    launched f q r w s (g' ∙ ap (λ h. put_state h id Planner.running) g) (l' ∙ l)

start_with-Begin :
    (o : Scheduler) (id : String) (a : Assignment) (now : ℕ)
    (r : Result Contract.Error Contract.Contract)
    → a.work_package_id ≡ id
    → a.state ≡ Assignment.planned
    → Begin o (start_with o id a now r) id
unfolding start_with lease_and_launch Assignment.lease_for
start_with-Begin o id a now (err e) w s = refused _ refl refl refl
start_with-Begin o id a now (ok contract) w s =
    let a₁ : Assignment = record a { state = Assignment.running } in
    rw (advance_lem a s, start_with)
      (launch-Begin o id (Assignment.lease_for a₁ a.worker_id now o.config.lease_ttl) contract w
        refl)

start-Begin :
    (o : Scheduler) (id : String) (wp : Planner.WorkPackage) (w : RoleAllocator.Worker) (now : ℕ)
    → Begin o (start o id wp w now) id
unfolding start Assignment.new_assignment
start-Begin o id wp w now = Begin-same o (count_attempt o id) _ id refl refl (
    start_with-Begin (count_attempt o id) id (planned_assignment o id w) now
      (build_contract o id wp) refl refl)

-- Beginning an attempt changes nothing but its own package.
pub begin_dispatch-Begin :
    (o : Scheduler) (id : String) (now : ℕ) → Begin o (begin_dispatch o id now) id
unfolding begin_dispatch
begin_dispatch-Begin o id now = elim (Option-cases (Planner.get o.graph id)) [
  | inl e ↦ rw (e, begin_dispatch) (refused _ refl refl refl)
  | inr (wp, e) ↦
      elim (Option-cases (
        RoleAllocator.select_one o.config.registry
          (record { roles = []; capabilities = wp.capabilities }))) [
            | inl f ↦ rw (e, begin_dispatch, f) (refused _ refl refl refl)
            | inr (w, f) ↦ rw (e, begin_dispatch, f) (start-Begin o id wp w now)
          ]
]

-- ===== src/Kernel/Scheduler/System/Parts.antt =====
-- kernel/scheduler/scheduler.go: what a call may change of the graph and of the assignments, and what
-- its smallest parts change.
use aa.Base.{
  String, ◌≡◌, ◌≢◌, Bool, true, false, Option, none, some, str_eq, if◌then◌else◌, Result, ok, err,
  arith,
}
use aa.Base.Assoc.{lookup}
use aa.Kernel.Planner
use aa.Kernel.Assignment
use aa.Kernel.Assignment.{Assignment}
use aa.Kernel.Assignment.Machine.{same_state_iff}
use aa.Kernel.Scheduler.{
  Scheduler, Answer, Error, set_graph_state, set_work_package_state, record_assignment,
  DispatchReport, succeeded, failed, force, reply,
}

abbrev pub says_failed : Result Error DispatchReport → Bool
says_failed (ok d) = elim d.status [ failed ↦ true | _ ↦ false ]
says_failed (err e) = false

abbrev pub says_succeeded : Result Error DispatchReport → Bool
says_succeeded (ok d) = elim d.status [ succeeded ↦ true | _ ↦ false ]
says_succeeded (err e) = false

-- After the call the package's stored assignment is `a`, and every other one is as before.
abbrev pub Stores : Scheduler → Scheduler → String → Assignment → Type 0
Stores o o' id a =
    (j : String)
    → lookup j o'.assignments ≡ (if str_eq id j then some a else lookup j o.assignments)

-- What a call about the package `id` may do.
pub data Change (o : Scheduler) (answer : Answer DispatchReport) (id : String) : Type 0 where
  kept :
      answer.0.graph ≡ o.graph
      → ((j : String) → lookup j answer.0.assignments ≡ lookup j o.assignments)
      → says_failed answer.1 ≡ false
      → says_succeeded answer.1 ≡ false
      → Change o answer id
  moved :
      (a : Assignment)
      → a.work_package_id ≡ id
      → a.state ≢ Assignment.accepted
      → answer.0.graph ≡ o.graph
      → Stores o answer.0 id a
      → says_failed answer.1 ≡ false
      → says_succeeded answer.1 ≡ false
      → Change o answer id
  closed :
      (a : Assignment)
      → a.work_package_id ≡ id
      → a.state ≡ Assignment.failed
      → answer.0.graph ≡ set_graph_state o.graph id Planner.deficient
      → Stores o answer.0 id a
      → says_succeeded answer.1 ≡ false
      → Change o answer id
  completed :
      (a : Assignment)
      → a.work_package_id ≡ id
      → a.state ≡ Assignment.accepted
      → answer.0.graph ≡ set_graph_state o.graph id Planner.completed
      → Stores o answer.0 id a
      → says_failed answer.1 ≡ false
      → Change o answer id

pub set_work_package_state-parts :
    (o : Scheduler) (id : String) (s : Planner.State)
    → ((set_work_package_state o id s).graph ≡ set_graph_state o.graph id s)
      × ((set_work_package_state o id s).assignments ≡ o.assignments)
      × ((set_work_package_state o id s).config ≡ o.config)
unfolding set_work_package_state
set_work_package_state-parts o id s = ground arith

pub record_assignment-parts :
    (o : Scheduler) (a : Assignment)
    → ((record_assignment o a).0.graph ≡ o.graph)
      × ((record_assignment o a).0.assignments ≡ o.assignments)
      × ((record_assignment o a).0.config ≡ o.config)
unfolding record_assignment
record_assignment-parts o a = ground arith

pub reply-rule :
    {A : Type 0} (P : Answer A → Type 0) (r : Scheduler × Option Error) (k : Scheduler → Answer A)
    → ((e : Error) → P (r.0, err e))
    → P (k r.0)
    → P (reply r k)
reply-rule P (o, none) k h g = g
reply-rule P (o, some e) k h g = h e

pub force-id :
    (a : Assignment) (s : Assignment.State) → (force a s).work_package_id ≡ a.work_package_id
unfolding Assignment.transition
force-id a s = ground arith

pub force-state :
    (a : Assignment) (s : Assignment.State)
    → Assignment.permits a.state s ≡ true
    → (force a s).state ≡ s
unfolding Assignment.transition
force-state a s h = ground (arith, same_state_iff a.state s)

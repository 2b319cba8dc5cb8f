-- ===== src/Kernel/Scheduler.antt =====
-- kernel/scheduler/scheduler.go: the configuration, the state and the log of one scheduler.
-- The calls of the sink and of the lifecycle hooks are recorded in the state, in order.
pub mod Dispatch
pub mod Restore
pub mod Verdict
pub mod Privilege
pub mod System
use aa.Base.{
  ℕ, ◌+◌, suc, String, Bool, true, false, ◌&&◌, Option, none, some, List, [], ◌∷◌, ◌++◌, map,
  is_some, get_or, elem, str_eq, ◌==◌, if◌then◌else◌, length, Result, ok, err, decimal,
}
use Prim.Native.String
use aa.Base.Assoc.{lookup, insert}
use aa.Runtime.Worker
use aa.Runtime.Intake
use aa.Kernel.Planner
use aa.Kernel.Assignment
use aa.Kernel.Assignment.{Assignment, Lease}
use aa.Kernel.Gate
use aa.Kernel.Contract
use aa.Kernel.Context
use aa.Kernel.RoleAllocator
use aa.Kernel.Telemetry

-- What is written through `Sink.Record`; the lease's expiry is left out where it is the zero time.
pub record AssignmentRecord : Type 0 where
  pub id : String
  pub project_id : String
  pub work_package_id : String
  pub worker_id : String
  pub state : Assignment.State
  pub attempt : ℕ
  pub lease_owner : String
  pub lease_expires_at : Option ℕ

-- The events that `emit` numbers, with what their payloads hold.
pub data Event : Type 0 where
  execution_started : String → String → String → Event
  work_accepted : String → String → Event
  work_package_state_persist_failed : String → Planner.State → String → Event
  assignment_persist_failed : String → String → Assignment.State → String → Event

-- One call of the outside world.
pub data Effect : Type 0 where
  emitted : ℕ → Event → Effect
  wrote_assignment : AssignmentRecord → Effect
  failed_assignment : AssignmentRecord → Effect
  wrote_work_package : String → Planner.State → Effect
  began : String → String → String → List String → Effect
  ended : String → Worker.Outcome → Effect

-- The collaborators: whether the sink fails may depend on all that was done before. `none` for
-- `write_work_package` is a sink without `RecordWorkPackageState`; the hook `Begin` gives an instance
-- id. Without `ContextInputs` the inputs are none. The digests and the hash are parameters.
pub record Config : Type 0 where
  pub registry : RoleAllocator.Registry
  pub gates : List Gate.Gate
  pub permitted : List String
  pub enabled : Bool
  pub lease_ttl : ℕ
  pub write_assignment : List Effect → AssignmentRecord → Option String
  pub write_work_package : Option (List Effect → String → Planner.State → Option String)
  pub lifecycle : Option (String → String)
  pub contract_digest : Contract.Contract → String
  pub max_tokens : ℕ
  pub context_inputs : String → List Context.Input
  pub bundle_digest : Context.Bundle → String
  pub hash : Intake.Hash

pub record Scheduler : Type 0 where
  pub project_id : String
  pub graph : Planner.Graph
  pub config : Config
  pub intake : Intake.Seen
  pub assignments : List (String × Assignment)
  pub attempts : List (String × ℕ)
  pub results : List (String × Worker.Result)
  pub telemetry_records : List Telemetry.Record
  pub learning_candidates : List Telemetry.Candidate
  pub sequence : ℕ
  pub effects : List Effect

pub data Error : Type 0 where
  unknown_work_package no_eligible_worker unknown_assignment not_awaiting_gates : String → Error
  bad_graph : Planner.Error → Error
  bad_contract : Contract.Error → Error
  bad_transition : Assignment.Error → Error
  bad_result : Intake.Error → Error
  persist_assignment : String → String → Error
  run_interrupted : Error

-- What a call leaves behind, and what it returns.
abbrev pub Answer : Type 0 → Type 0
Answer A = Scheduler × Result Error A

abbrev pub minute : ℕ
minute = 60000000000

-- `New`, for a graph, a registry and a runtime that are given; the time and what the runtime answers
-- are arguments of the calls.
unfoldable pub new : Planner.Graph → Config → Result Error Scheduler
new graph config = elim (Planner.validate graph) [
  | err e ↦ err (bad_graph e)
  | ok _ ↦ ok (record {
    project_id = graph.project_id;
    graph = graph;
    config = record config {
      lease_ttl = if config.lease_ttl == 0 then minute else config.lease_ttl;
    };
    intake = [];
    assignments = [];
    attempts = [];
    results = [];
    telemetry_records = [];
    learning_candidates = [];
    sequence = 0;
    effects = [];
  })
]

abbrev pub note : Scheduler → Effect → Scheduler
note o e = record o { effects = o.effects ++ e ∷ [] }

unfoldable pub emit : Scheduler → Event → Scheduler
emit o e = record o {
  sequence = o.sequence + 1;
  effects = o.effects ++ emitted (o.sequence + 1) e ∷ [];
}

-- `_ = o.graph.SetState(...)`: an unknown id changes nothing.
abbrev pub set_graph_state : Planner.Graph → String → Planner.State → Planner.Graph
set_graph_state g id s = elim (Planner.set_state g id s) [ ok g' ↦ g' | err e ↦ g ]

unfoldable pub report_work_package :
    Option (List Effect → String → Planner.State → Option String)
    → Scheduler
    → String
    → Planner.State
    → Scheduler
unfolding emit
report_work_package none o id s = o
report_work_package (some write) o id s = elim (write o.effects id s) [
  | none ↦ note o (wrote_work_package id s)
  | some e ↦ emit o (work_package_state_persist_failed id s e)
]

unfoldable pub set_work_package_state : Scheduler → String → Planner.State → Scheduler
unfolding report_work_package
set_work_package_state o id s =
    report_work_package o.config.write_work_package
      (record o { graph = set_graph_state o.graph id s }) id s

abbrev pub record_of : Assignment → AssignmentRecord
record_of a = record {
  id = a.id;
  project_id = a.project_id;
  work_package_id = a.work_package_id;
  worker_id = a.worker_id;
  state = a.state;
  attempt = a.attempt;
  lease_owner = a.lease.owner;
  lease_expires_at = if a.lease.expires_at == 0 then none else some a.lease.expires_at;
}

-- The error of `recordAssignment`, if the sink fails.
unfoldable pub record_assignment : Scheduler → Assignment → Scheduler × Option Error
unfolding emit
record_assignment o a = elim (o.config.write_assignment o.effects (record_of a)) [
  | none ↦ (note o (wrote_assignment (record_of a)), none)
  | some e ↦ (
    emit (note o (failed_assignment (record_of a)))
        (assignment_persist_failed a.id a.work_package_id a.state e),
    some (persist_assignment a.id e),
  )
]

-- `if err := o.recordAssignment(...); err != nil { return ..., err }`, and what follows it.
abbrev pub reply : {A : Type 0} → Scheduler × Option Error → (Scheduler → Answer A) → Answer A
reply (o, none) k = k o
reply (o, some e) k = (o, err e)

-- `o.assignments[id] = assignment`. The map holds a pointer: every later change of the assignment
-- is stored again under its id.
abbrev pub store : Scheduler → String → Assignment → Scheduler
store o id a = record o { assignments = insert id a o.assignments }

-- `_ = assignment.Transition(state)`: a transition that is refused changes nothing.
abbrev pub force : Assignment → Assignment.State → Assignment
force a s = elim (Assignment.transition a s) [ ok b ↦ b | err e ↦ a ]

-- The `Status` of a report.
pub data Progress : Type 0 where
  succeeded pending failed : Progress

pub record DispatchReport : Type 0 where
  pub work_package_id : String
  pub worker_id : String
  pub state : Assignment.State
  pub status : Progress
  pub gates : Gate.Report
  pub intake_accepted : Bool

abbrev pub no_gates : Gate.Report
no_gates = record { passed = false; pending = false; decisions = [] }

abbrev pub report_of : Assignment → Progress → Gate.Report → Bool → DispatchReport
report_of a status gates accepted = record {
  work_package_id = a.work_package_id;
  worker_id = a.worker_id;
  state = a.state;
  status = status;
  gates = gates;
  intake_accepted = accepted;
}

abbrev status_text : Worker.Status → String
status_text Worker.succeeded = "succeeded"
status_text Worker.failed = "failed"
status_text Worker.partial = "partial"
status_text Worker.blocked = "blocked"
status_text Worker.cancelled = "cancelled"
status_text (Worker.other s) = s

abbrev pub summaries : List Worker.TestResult → List Gate.TestSummary
summaries ts = map (λ (t : Worker.TestResult). record { name = t.name; outcome = t.outcome }) ts

abbrev pub subject : String → Worker.Result → Gate.Subject
subject id result = record {
  work_package_id = id;
  status = status_text result.status;
  tests = summaries result.tests;
  contract_id = "";
}

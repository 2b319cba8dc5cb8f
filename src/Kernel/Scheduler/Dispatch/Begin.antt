-- ===== src/Kernel/Scheduler/Dispatch/Begin.antt =====
-- kernel/scheduler/scheduler.go: the first half of `dispatchOne`, up to where it gives up the lock.
use aa.Base.{
  ℕ, ◌+◌, String, Option, none, some, List, [], map, get_or, Result, ok, err, ◌>>=◌, decimal,
}
use Prim.Native.String
use aa.Base.Assoc.{lookup, insert}
use aa.Base.Sort.{sort_strings}
use aa.Runtime.Worker
use aa.Kernel.Planner
use aa.Kernel.Assignment
use aa.Kernel.Assignment.{Assignment}
use aa.Kernel.Gate
use aa.Kernel.Contract
use aa.Kernel.Context
use aa.Kernel.RoleAllocator
use aa.Kernel.Scheduler.{
  Scheduler, Error, unknown_work_package, no_eligible_worker, bad_contract, bad_transition, Answer,
  began, note, emit, execution_started, set_work_package_state, record_assignment,
}

-- Texts joined, as `+` and `fmt.Sprintf` join them.
infixr 65 ◌<>◌
abbrev pub ◌<>◌ : String → String → String
a <> b = String.◌++◌ a b

-- A work package whose attempt is with the runtime.
pub record InFlight : Type 0 where
  pub assignment : Assignment
  pub request : Worker.Request
  pub instance_id : String

unfoldable pub gate_names : List Gate.Gate → List String
gate_names gates = sort_strings (map Gate.name gates)

-- The three transitions of a new assignment.
unfoldable pub advance : Assignment → Result Assignment.Error Assignment
advance a = do
  b ← Assignment.transition a Assignment.leased
  c ← Assignment.transition b Assignment.preparing
  Assignment.transition c Assignment.running

abbrev pub contract_request : Scheduler → Planner.WorkPackage → String → String → Contract.Request
contract_request o wp id assignment_id = record {
  id = "ec_" <> assignment_id;
  project_id = o.project_id;
  work_package_id = id;
  assignment_id = assignment_id;
  requested = wp.capabilities;
  permitted = o.config.permitted;
  budget = record {
    max_calls = none;
    max_tokens = none;
    max_cost_usd = none;
    max_duration_seconds = none;
  };
  runtime = some (record { kind = "runtime"; provider = ""; model = ""; node_id = "" });
  gates = gate_names o.config.gates;
}

-- `o.cfg.Compiler.Compile`
abbrev pub context_bundle : Scheduler → String → Context.Bundle
context_bundle o id =
    Context.compile o.config.bundle_digest o.config.max_tokens o.project_id id
      (o.config.context_inputs id)

abbrev pub worker_request : Scheduler → String → Assignment → Contract.Contract → Worker.Request
worker_request o id a contract = record {
  assignment_id = a.id;
  work_package_id = id;
  contract_id = contract.id;
  contract_digest = contract.digest;
  context_digest = (context_bundle o id).digest;
  instructions = "";
  capabilities = contract.capabilities;
}

-- `o.cfg.Lifecycle.Begin`, if there are hooks, and the request that is handed to the runtime.
unfoldable pub hand_over :
    Scheduler → String → Assignment → Contract.Contract → Scheduler × InFlight
hand_over o id a contract = elim o.config.lifecycle [
  | none ↦
      (o, record { assignment = a; request = worker_request o id a contract; instance_id = "" })
  | some begin ↦ (
    note o (began a.id id a.worker_id contract.capabilities),
    record { assignment = a; request = worker_request o id a contract; instance_id = begin a.id },
  )
]

-- The package is given up where its assignment could not be recorded.
unfoldable pub launch_recorded :
    Scheduler × Option Error → String → Assignment → Contract.Contract → Answer InFlight
unfolding hand_over
launch_recorded (o, some e) id a contract = (set_work_package_state o id Planner.deficient, err e)
launch_recorded (o, none) id a contract =
    ((hand_over o id a contract).0, ok (hand_over o id a contract).1)

-- From the started assignment to the unlock before the runtime.
unfoldable pub launch : Scheduler → String → Assignment → Contract.Contract → Answer InFlight
unfolding launch_recorded
launch o id a contract =
    let o₁ = set_work_package_state o id Planner.running in
    let o₂ = emit o₁ (execution_started id a.id a.worker_id) in
    launch_recorded (record_assignment o₂ a) id a contract

abbrev pub next_attempt : Scheduler → String → ℕ
next_attempt o id = get_or (lookup id o.attempts) 0 + 1

abbrev pub assignment_name : String → ℕ → String
assignment_name id attempt = "asg_" <> id <> "_" <> decimal attempt

-- The started attempt gets its lease.
unfoldable pub lease_and_launch :
    Scheduler
    → String
    → String
    → ℕ
    → Contract.Contract
    → Result Assignment.Error Assignment
    → Answer InFlight
unfolding launch
lease_and_launch o id worker_id now contract (err e) = (o, err (bad_transition e))
lease_and_launch o id worker_id now contract (ok a) =
    launch o id (Assignment.lease_for a worker_id now o.config.lease_ttl) contract

-- From the built contract on.
unfoldable pub start_with :
    Scheduler → String → Assignment → ℕ → Result Contract.Error Contract.Contract → Answer InFlight
unfolding lease_and_launch
start_with o id planned now (err e) = (o, err (bad_contract e))
start_with o id planned now (ok contract) =
    lease_and_launch o id planned.worker_id now contract (advance planned)

abbrev pub planned_assignment : Scheduler → String → RoleAllocator.Worker → Assignment
planned_assignment o id worker =
    let attempt = next_attempt o id in
    record (Assignment.new_assignment (assignment_name id attempt) o.project_id id worker.id) {
      attempt = attempt;
    }

abbrev pub count_attempt : Scheduler → String → Scheduler
count_attempt o id = record o { attempts = insert id (next_attempt o id) o.attempts }

abbrev pub build_contract :
    Scheduler → String → Planner.WorkPackage → Result Contract.Error Contract.Contract
build_contract o id wp =
    Contract.build o.config.contract_digest
      (contract_request o wp id (assignment_name id (next_attempt o id)))

-- From the selected worker on.
unfoldable pub start :
    Scheduler → String → Planner.WorkPackage → RoleAllocator.Worker → ℕ → Answer InFlight
unfolding start_with
start o id wp worker now =
    start_with (count_attempt o id) id (planned_assignment o id worker) now (build_contract o id wp)

unfoldable pub begin_dispatch : Scheduler → String → ℕ → Answer InFlight
unfolding start
begin_dispatch o id now = elim (Planner.get o.graph id) [
  | none ↦ (o, err (unknown_work_package id))
  | some wp ↦
      elim (RoleAllocator.select_one o.config.registry
        (record { roles = []; capabilities = wp.capabilities })) [
          | none ↦ (o, err (no_eligible_worker id))
          | some worker ↦ start o id wp worker now
        ]
]

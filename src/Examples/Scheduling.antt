-- ===== src/Examples/Scheduling.antt =====
-- kernel/scheduler: a plan of two packages, the second after the first, taken through a run.
use aa.Base.{
  if◌then◌else◌, ◌≤◌, ◌≡◌, refl, true, false, ◌&&◌, none, some, List, [], ◌∷◌, elem, get_or, ◌+◌,
  ok, arith, decimal,
}
use aa.Base.Assoc.{lookup, insert}
use aa.Base.Sort.{sort_by}
use aa.Base.Int.{pos}
use aa.Runtime.Worker
use aa.Kernel.Planner
use aa.Kernel.Planner.Topology.{topological_order}
use aa.Kernel.Planner.Readiness.{IsWellFormed}
use aa.Kernel.Planner.Progress.{state_of}
use aa.Kernel.Assignment
use aa.Kernel.Assignment.{Assignment}
use aa.Kernel.Gate
use aa.Kernel.Contract
use aa.Kernel.Context
use aa.Base.Picks.{pick}
use aa.Kernel.Scheduler.Dispatch.{InFlight, begin_dispatch, finish_dispatch, advance}
use aa.Runtime.Intake
use aa.Kernel.Scheduler.Verdict.{Writes, progress_of, expected, finish_dispatch-progress}
use aa.Kernel.Scheduler.Privilege.{begin_dispatch-hands_over}
use aa.Kernel.RoleAllocator
use aa.Kernel.Scheduler
use aa.Kernel.Scheduler.{Scheduler, Config}
use aa.Kernel.Scheduler.System.{System, Move, takes, begins, finishes, reads, run, system_of}
use aa.Kernel.Scheduler.System.Safety.{
  IsFresh, run-respects_dependencies, run-completed_is_accepted, run-one_flight,
  run-flying_is_running, run-awaiting_is_parked,
}
use aa.Base.Ids.{ids, Distinct}
use aa.Kernel.Scheduler.System.Bounds.{tries}
use aa.Kernel.Scheduler.System.Retries.{run-attempts-le}
use aa.Kernel.Scheduler.System.Invariant.{flight_id}

abbrev first_package : Planner.WorkPackage
first_package = record {
  id = "a";
  title = "first";
  role = "";
  capabilities = "run_tests" ∷ [];
  depends_on = [];
  acceptance = [];
  state = Planner.proposed;
}

abbrev second_package : Planner.WorkPackage
second_package = record first_package { id = "b"; title = "second"; depends_on = "a" ∷ [] }

abbrev plan : Planner.Graph
plan = record {
  project_id = "p";
  id = "g";
  revision = 1;
  nodes = ("a", first_package) ∷ ("b", second_package) ∷ [];
}

abbrev coder : RoleAllocator.Worker
coder = record {
  id = "w1";
  roles = "dev" ∷ [];
  capabilities = "execute_command" ∷ "run_tests" ∷ [];
  cost_weight = pos 1;
  available = true;
  node = "n";
  provider = "x";
}

abbrev config : Config
config = record {
  registry = ("w1", coder) ∷ [];
  gates = Gate.tests_gate ∷ [];
  permitted = "run_tests" ∷ [];
  enabled = true;
  lease_ttl = 1000;
  write_assignment = λ es r. none;
  write_work_package = none;
  lifecycle = none;
  contract_digest = λ c. c.id;
  max_tokens = 100;
  context_inputs = λ id. [];
  bundle_digest = λ b. b.work_package_id;
  hash = λ s text tests artifacts. text;
}

abbrev started : Scheduler
started = record {
  project_id = "p";
  graph = plan;
  config = config;
  intake = [];
  assignments = [];
  attempts = [];
  results = [];
  telemetry_records = [];
  learning_candidates = [];
  sequence = 0;
  effects = [];
}

new-started : Scheduler.new plan config ≡ ok started
unfolding Scheduler.new Planner.validate Planner.check_nodes Planner.check_dependencies
    Planner.topological topological_order lookup sort_by insert
new-started = refl

plan-IsWellFormed : IsWellFormed plan
unfolding lookup
plan-IsWellFormed = record {
  unique = (refl, (refl, tt));
  named = (refl, (λ e. cc), (refl, (λ e. cc), tt));
}

plan-IsFresh : IsFresh plan
unfolding lookup
plan-IsFresh id wp e = ground arith

abbrev good_result : Worker.Result
good_result = record {
  status = Worker.succeeded;
  summary = "done";
  tests = record { name = "t"; outcome = "passed" } ∷ [];
  artifacts = [];
  failure = none;
}

abbrev history : List Move
history =
    takes 2
    ∷ begins 0 5
    ∷ takes 2
    ∷ finishes 0 (Worker.returned good_result)
    ∷ reads 0
    ∷ takes 2
    ∷ begins 0 7
    ∷ []

-- The first package is COMPLETED, and the second is with the runtime.
abbrev reached : System
reached = run 2 (system_of started) history

reached_lem :
    (lookup "b" reached.scheduler.graph.nodes
      ≡ some (record second_package { state = Planner.running }))
    × (state_of reached.scheduler.graph "a" ≡ some Planner.completed)
    × (elem "b" (ids flight_id reached.flights) ≡ true)
unfolding run lookup Planner.ready_ids sort_by pick begin_dispatch Planner.get
    RoleAllocator.select_one RoleAllocator.select RoleAllocator.refuse RoleAllocator.collect
    Contract.build Contract.check_known Contract.is_known decimal insert finish_dispatch advance
    Assignment.transition Assignment.new_assignment Scheduler.record_assignment
    Scheduler.set_work_package_state Planner.set_state Planner.update_state Assignment.lease_for
    Intake.submit Gate.evaluate Gate.evaluate_gate ids
reached_lem = (refl, refl, refl)

run-respects_dependencies_example : state_of reached.scheduler.graph "a" ≡ some Planner.completed
run-respects_dependencies_example =
    run-respects_dependencies 2 history plan config started plan-IsWellFormed plan-IsFresh
      new-started "b" "a" (record second_package { state = Planner.running }) reached_lem.0
      (λ e. cc) (λ e. cc) refl

run-completed_is_accepted_example :
    (a : Assignment) × (lookup "a" reached.scheduler.assignments ≡ some a)
    × (a.state ≡ Assignment.accepted)
    × (a.work_package_id ≡ "a")
run-completed_is_accepted_example =
    run-completed_is_accepted 2 history plan config started plan-IsWellFormed plan-IsFresh
      new-started "a" reached_lem.1

run-one_flight_example : Distinct (ids flight_id reached.flights)
run-one_flight_example =
    run-one_flight 2 history plan config started plan-IsWellFormed plan-IsFresh new-started

run-flying_is_running_example : state_of reached.scheduler.graph "b" ≡ some Planner.running
run-flying_is_running_example =
    run-flying_is_running 2 history plan config started plan-IsWellFormed plan-IsFresh new-started
      "b" reached_lem.2

run-attempts-le_example :
    tries reached.report "b" + (if elem "b" (ids flight_id reached.flights) then 1 else 0) ≤ 2
run-attempts-le_example =
    run-attempts-le 2 history plan config started "b" plan-IsWellFormed plan-IsFresh new-started

-- The same plan under a human gate.
abbrev human_config : Config
human_config = record config { gates = Gate.human_gate Gate.new_human_gate ∷ [] }

abbrev human_started : Scheduler
human_started = record started { config = human_config }

new-human_started : Scheduler.new plan human_config ≡ ok human_started
unfolding Scheduler.new Planner.validate Planner.check_nodes Planner.check_dependencies
    Planner.topological topological_order lookup sort_by insert
new-human_started = refl

abbrev short_history : List Move
short_history = takes 1 ∷ begins 0 5 ∷ finishes 0 (Worker.returned good_result) ∷ []

abbrev parked : System
parked = run 2 (system_of human_started) short_history

abbrev parked_assignment : Assignment
parked_assignment = record {
  id = "asg_a_1";
  project_id = "p";
  work_package_id = "a";
  worker_id = "w1";
  state = Assignment.awaiting_gates;
  lease = record { owner = "w1"; expires_at = 1005 };
  attempt = 1;
}

parked_lem : lookup "a" parked.scheduler.assignments ≡ some parked_assignment
unfolding run lookup Planner.ready_ids sort_by pick begin_dispatch Planner.get
    RoleAllocator.select_one RoleAllocator.select RoleAllocator.refuse RoleAllocator.collect
    Contract.build Contract.check_known Contract.is_known decimal insert finish_dispatch advance
    Assignment.transition Assignment.new_assignment Scheduler.record_assignment
    Scheduler.set_work_package_state Planner.set_state Planner.update_state Assignment.lease_for
    Intake.submit Gate.evaluate Gate.evaluate_gate ids Gate.evaluate_human Gate.new_human_gate
parked_lem = refl

run-awaiting_is_parked_example :
    (state_of parked.scheduler.graph "a" ≡ some Planner.running)
    × (elem "a" (ids flight_id parked.flights) ≡ false)
run-awaiting_is_parked_example =
    run-awaiting_is_parked 2 short_history plan human_config human_started plan-IsWellFormed
      plan-IsFresh new-human_started "a" parked_assignment parked_lem refl

abbrev first_flight : InFlight
first_flight = record {
  assignment = record parked_assignment { state = Assignment.running };
  request = record {
    assignment_id = "asg_a_1";
    work_package_id = "a";
    contract_id = "ec_asg_a_1";
    contract_digest = "ec_asg_a_1";
    context_digest = "a";
    instructions = "";
    capabilities = "run_tests" ∷ [];
  };
  instance_id = "";
}

first_begun : (begin_dispatch started "a" 5).1 ≡ ok first_flight
unfolding run lookup Planner.ready_ids sort_by pick begin_dispatch Planner.get
    RoleAllocator.select_one RoleAllocator.select RoleAllocator.refuse RoleAllocator.collect
    Contract.build Contract.check_known Contract.is_known decimal insert finish_dispatch advance
    Assignment.transition Assignment.new_assignment Scheduler.record_assignment
    Scheduler.set_work_package_state Planner.set_state Planner.update_state Assignment.lease_for
    Intake.submit Gate.evaluate Gate.evaluate_gate ids Contract.assemble Contract.sorted_unique
    Scheduler.emit Context.compile
first_begun = refl

begin_dispatch-hands_over_example :
    (wp : Planner.WorkPackage) × (worker : RoleAllocator.Worker) × (Planner.get plan "a" ≡ some wp)
    × (RoleAllocator.select_one config.registry
          (record { roles = []; capabilities = wp.capabilities })
        ≡ some worker)
    × (first_flight.assignment.worker_id ≡ worker.id)
    × (first_flight.assignment.attempt ≡ get_or (lookup "a" []) 0 + 1)
    × (elem "run_tests" first_flight.request.capabilities
        ≡ (elem "run_tests" wp.capabilities && elem "run_tests" config.permitted))
begin_dispatch-hands_over_example =
    begin_dispatch-hands_over started "a" 5 first_flight "run_tests" first_begun

config-Writes : Writes config
config-Writes es r = refl

finish_dispatch-progress_example :
    progress_of (finish_dispatch started first_flight (Worker.returned good_result))
    ≡ expected config [] "a" first_flight.assignment (Worker.returned good_result)
finish_dispatch-progress_example =
    finish_dispatch-progress started first_flight (Worker.returned good_result) refl config-Writes

-- ===== src/Examples/Workflows.antt =====
-- toolbox/workflow/runtime.go: a plan of two steps.
use aa.Base.{
  ◌≡◌, refl, ap, zero, suc, true, false, none, some, List, [], ◌∷◌, ok, err, arith, eq_iff,
}
use aa.Base.Int.{pos}
use aa.Base.Assoc.{lookup, insert}
use aa.Toolbox.Workflow.{
  initial, Step, Plan, RunState, RunStatus, StepState, Event, Runner, Runtime, run, goes_on,
  returns, panics, ran, recorded, step_failed, result_of,
}
use aa.Toolbox.Workflow.History.{Legit}
use aa.Toolbox.Workflow.Order.{IsNamed}
use aa.Toolbox.Workflow.Runs.{is_finished, left_by, run_again, run-Legit, run_failed-panics}

abbrev first_step : Step
first_step = record { id = "a"; kind = "task"; retries = some (pos 1); on_failure = "" }

abbrev second_step : Step
second_step = record { id = "b"; kind = "task"; retries = none; on_failure = "skip" }

abbrev plan : Plan
plan = record {
  workflow_id = "w";
  version = "1";
  order = "a" ∷ "b" ∷ [];
  steps = ("a", first_step) ∷ ("b", second_step) ∷ [];
  depends_on = ("a", []) ∷ ("b", "a" ∷ []) ∷ [];
}

plan-IsNamed : IsNamed plan
unfolding lookup
plan-IsNamed id step e = ground (arith, eq_iff "a" id, eq_iff "b" id, e)

-- A runner whose first attempt fails, and one that always fails.
abbrev flaky : Runner
flaky = record {
  run = λ log step n. elim n [ suc (zero) ↦ err "flaky" | _ ↦ ok none ];
  compensate = none;
}

abbrev broken_runner : Runner
broken_runner = record { run = λ log step n. err "down"; compensate = none }

abbrev with_runner : Runner → Runtime
with_runner r = record { runner = some r; gates = none }

abbrev flaky_state : RunState
flaky_state = record {
  workflow_id = "w";
  version = "1";
  status = RunStatus.complete;
  order = "a" ∷ "b" ∷ [];
  results =
      ("a", result_of "a" StepState.completed 2 none "")
      ∷ ("b", result_of "b" StepState.skipped 1 none "flaky")
      ∷ [];
}

abbrev flaky_log : List Event
flaky_log =
    recorded "b" "task" 1 true ∷ ran "b" 1 ∷ recorded "a" "task" 2 true ∷ ran "a" 2 ∷ ran "a" 1 ∷ []

flaky_run : run (with_runner flaky) plan none [] ≡ goes_on flaky_state flaky_log
unfolding run lookup insert
flaky_run = refl

run_again_example :
    (flaky_state.status ≡ RunStatus.complete)
    × (is_finished plan flaky_state ≡ true)
    × (s' : RunState) × (run (with_runner broken_runner) plan (some flaky_state) [] ≡ goes_on s' [])
    × (s'.results ≡ flaky_state.results)
run_again_example =
    run_again (with_runner flaky) (with_runner broken_runner) plan none [] plan-IsNamed flaky_run

run-Legit_example : Legit plan (initial plan none) flaky_log
run-Legit_example = run-Legit (with_runner flaky) plan none plan-IsNamed (ap left_by flaky_run)

abbrev broken_state : RunState
broken_state = record {
  workflow_id = "w";
  version = "1";
  status = RunStatus.failed;
  order = "a" ∷ "b" ∷ [];
  results = ("a", result_of "a" StepState.broken 2 none "down") ∷ [];
}

broken_run :
    run (with_runner broken_runner) plan none []
    ≡ returns broken_state
        (step_failed "a" "down")
        (recorded "a" "task" 2 false ∷ ran "a" 2 ∷ ran "a" 1 ∷ [])
unfolding run lookup insert
broken_run = refl

run_failed-panics_example : run (with_runner flaky) plan (some broken_state) [] ≡ panics []
run_failed-panics_example =
    run_failed-panics (with_runner broken_runner) (with_runner flaky) flaky plan none []
      plan-IsNamed refl refl broken_run

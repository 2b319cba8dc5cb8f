-- ===== src/Toolbox/Workflow.antt =====
-- toolbox/workflow/runtime.go: the run of a compiled plan, step by step, and its resumption.
pub mod History
pub mod Steps
pub mod Policy
pub mod Order
pub mod Runs
use aa.Base.{
  ℕ, zero, suc, ◌+◌, ◌-◌, String, Bool, true, false, not, ◌||◌, Option, none, some, List, [], ◌∷◌,
  ◌++◌, str_eq, get_or, if◌then◌else◌, Result, ok, err,
}
use aa.Base.Int.{ℤ, pos, negsuc}
use aa.Base.Assoc.{lookup, insert}

-- `WorkflowStep`, the fields that the runtime reads; `retries` is a pointer.
pub record Step : Type 0 where
  pub id : String
  pub kind : String
  pub retries : Option ℤ
  pub on_failure : String

-- `Plan`, less the budget, which the runtime does not read.
pub record Plan : Type 0 where
  pub workflow_id : String
  pub version : String
  pub order : List String
  pub steps : List (String × Step)
  pub depends_on : List (String × List String)

pub data RunStatus : Type 0 where
  running complete failed awaiting_approval : RunStatus

-- `StepState`; the zero value is the empty text.
pub data StepState : Type 0 where
  unset pending started completed skipped compensated broken awaiting_gate : StepState

-- An output is a value that is only passed on; nil is `none`.
abbrev pub Output : Type 0
Output = Option String

pub record StepResult : Type 0 where
  pub id : String
  pub state : StepState
  pub attempts : ℕ
  pub output : Output
  pub reason : String

pub record RunState : Type 0 where
  pub workflow_id : String
  pub version : String
  pub status : RunStatus
  pub order : List String
  pub results : List (String × StepResult)

-- What the runtime asked of its runner, its gates and its metrics, the newest first. Latencies are
-- left out.
pub data Event : Type 0 where
  ran : String → ℕ → Event
  undone : String → Event
  evaluated : String → Event
  recorded : String → String → ℕ → Bool → Event

-- `Runner`, with the `Compensator` that it may be. Each answer may depend on all that went before.
pub record Runner : Type 0 where
  pub run : List Event → Step → ℕ → Result String Output
  pub compensate : Option (List Event → Step → Output → Option String)

-- `Runtime`; a missing runner or gate evaluator is nil.
pub record Runtime : Type 0 where
  pub runner : Option Runner
  pub gates : Option (List Event → Step → Result String Bool)

-- The errors of `Run`.
pub data Problem : Type 0 where
  dependencies_unsatisfied : String → Problem
  gate_error : String → Problem
  approval_required : String → Problem
  no_runner : String → Problem
  compensation_failed : String → String → Problem
  step_failed : String → String → Problem

-- What a part of `Run` leaves: it goes on, it returns with an error, or it panics.
pub data Ending : Type 0 where
  goes_on : RunState → List Event → Ending
  returns : RunState → Problem → List Event → Ending
  panics : List Event → Ending

-- `Terminal`
abbrev pub is_terminal : StepState → Bool
is_terminal completed = true
is_terminal skipped = true
is_terminal compensated = true
is_terminal state = false

abbrev pub is_done : Option StepResult → Bool
is_done none = false
is_done (some r) = is_terminal r.state

abbrev pub no_result : StepResult
no_result = record { id = ""; state = unset; attempts = 0; output = none; reason = "" }

abbrev pub result_of : String → StepState → ℕ → Output → String → StepResult
result_of id state attempts output reason = record {
  id = id;
  state = state;
  attempts = attempts;
  output = output;
  reason = reason;
}

abbrev pub put : RunState → StepResult → RunState
put s r = record s { results = insert r.id r s.results }

abbrev pub failing : RunState → StepResult → RunState
failing s r = record (put s r) { status = failed }

-- `newRunState`
unfoldable pub new_run_state : Plan → RunState
new_run_state plan = record {
  workflow_id = plan.workflow_id;
  version = plan.version;
  status = running;
  order = plan.order;
  results = [];
}

abbrev pub or_text : String → String → String
or_text t other = if str_eq t "" then other else t

-- The state that `Run` starts from.
unfoldable pub initial : Plan → Option RunState → RunState
unfolding new_run_state
initial plan none = new_run_state plan
initial plan (some prior) = record prior {
  workflow_id = or_text prior.workflow_id plan.workflow_id;
  version = or_text prior.version plan.version;
  status = running;
}

-- `depsSatisfied`: the loop over the dependencies.
unfoldable pub all_done : List (String × StepResult) → List String → Bool
all_done results [] = true
all_done results (dep ∷ deps) =
    let rest = all_done results deps in if is_done (lookup dep results) then rest else false

unfoldable pub deps_satisfied : Plan → RunState → String → Bool
unfolding all_done
deps_satisfied plan s id = all_done s.results (get_or (lookup id plan.depends_on) [])

abbrev pub retries_of : Option ℤ → ℕ
retries_of none = 0
retries_of (some (pos n)) = n
retries_of (some (negsuc n)) = 0

unfoldable pub max_attempts : Step → ℕ
max_attempts step = retries_of step.retries + 1

unfoldable pub on_failure : Step → String
on_failure step = or_text step.on_failure "fail"

-- `evaluateGate`
abbrev pub evaluate_gate :
    Option (List Event → Step → Result String Bool) → List Event → Step → Result String Bool
evaluate_gate none log step = err "no gate evaluator"
evaluate_gate (some gates) log step = gates log step

-- Only a gate evaluator that is there is asked.
abbrev pub gate_log :
    Option (List Event → Step → Result String Bool) → List Event → Step → List Event
gate_log none log step = log
gate_log (some gates) log step = evaluated step.id ∷ log

-- A gate step, from the answer of its evaluator on.
unfoldable pub pass_gate : RunState → List Event → String → Step → Result String Bool → Ending
pass_gate s log id step (err e) =
    returns (record (put s (result_of id awaiting_gate 0 none e)) { status = awaiting_approval })
      (gate_error e) (recorded step.id step.kind 1 false ∷ log)
pass_gate s log id step (ok false) =
    returns
      (record (put s (result_of id awaiting_gate 0 none "gate not passed")) {
        status = awaiting_approval;
      })
      (approval_required id) (recorded step.id step.kind 1 false ∷ log)
pass_gate s log id step (ok true) =
    goes_on (put s (result_of id completed 0 none "")) (recorded step.id step.kind 1 true ∷ log)

-- Where the loop over the attempts ends: with a success, or out of attempts with the last error.
pub data Tried : Type 0 where
  succeeded : RunState → List Event → Tried
  exhausted : RunState → List Event → ℕ → Option String → Tried

-- The loop `for attempt < max` of `runWithPolicy`, which has as many rounds left as its first number.
unfoldable pub try_runs : ℕ → Runner → Step → RunState → List Event → ℕ → Option String → Tried
try_runs zero runner step s log attempt last = exhausted s log attempt last
try_runs (suc left) runner step s log attempt last = elim (runner.run log step (attempt + 1)) [
  | ok output ↦
      succeeded (put s (result_of step.id completed (attempt + 1) output ""))
        (ran step.id (attempt + 1) ∷ log)
  | err e ↦
      try_runs left runner step (put s (result_of step.id started (attempt + 1) none e))
        (ran step.id (attempt + 1) ∷ log) (attempt + 1) (some e)
]

-- `lastErr.Error()` panics where there is no last error.
abbrev pub with_last : Option String → List Event → (String → Ending) → Ending
with_last none log f = panics log
with_last (some e) log f = f e

abbrev pub fails_step : RunState → List Event → Step → ℕ → Option String → Ending
fails_step s log step attempt last =
    with_last last log (λ e.
      returns (failing s (result_of step.id broken attempt none e)) (step_failed step.id e) log)

abbrev pub skips_step : RunState → List Event → Step → ℕ → Option String → Ending
skips_step s log step attempt last =
    with_last last log (λ e. goes_on (put s (result_of step.id skipped attempt none e)) log)

-- What `Compensate` answered.
abbrev pub settle_undo : RunState → List Event → Step → ℕ → Option String → Option String → Ending
settle_undo s log step attempt last (some c) =
    returns (failing s (result_of step.id broken attempt none c)) (compensation_failed step.id c)
      log
settle_undo s log step attempt last none =
    with_last last log (λ e. goes_on (put s (result_of step.id compensated attempt none e)) log)

unfoldable pub undo :
    Option (List Event → Step → Output → Option String)
    → Output
    → RunState
    → List Event
    → Step
    → ℕ
    → Option String
    → Ending
undo none output s log step attempt last = fails_step s log step attempt last
undo (some compensate) output s log step attempt last =
    settle_undo s (undone step.id ∷ log) step attempt last (compensate log step output)

-- The rest of `runWithPolicy` after the loop; `output` is that of the result before the run.
unfoldable pub by_policy : Runner → Step → Output → Tried → Ending
unfolding on_failure undo
by_policy runner step output (succeeded s log) = goes_on s log
by_policy runner step output (exhausted s log attempt last) =
    if str_eq (on_failure step) "skip"
    then skips_step s log step attempt last
    else if str_eq (on_failure step) "compensate"
    then undo runner.compensate output s log step attempt last
    else fails_step s log step attempt last

-- `runWithPolicy`
unfoldable pub run_with_policy : Option Runner → RunState → List Event → Step → Ending
unfolding try_runs by_policy max_attempts
run_with_policy none s log step =
    returns (failing s (result_of step.id broken 0 none "no runner configured")) (no_runner step.id)
      log
run_with_policy (some runner) s log step =
    let prior = get_or (lookup step.id s.results) no_result in
    by_policy runner step prior.output
      (try_runs (max_attempts step - prior.attempts) runner step s log prior.attempts none)

abbrev pub attempts_of : RunState → String → ℕ
attempts_of s id = (get_or (lookup id s.results) no_result).attempts

abbrev pub ends_well : RunState → String → Bool
ends_well s id = is_terminal (get_or (lookup id s.results) no_result).state

-- `recordStep` after a step that was run.
abbrev pub record_step : String → Step → Ending → Ending
record_step id step (goes_on s log) =
    goes_on s (recorded step.id step.kind (attempts_of s id) (ends_well s id) ∷ log)
record_step id step (returns s p log) =
    returns s p (recorded step.id step.kind (attempts_of s id) false ∷ log)
record_step id step (panics log) = panics log

abbrev pub is_gate : Step → Bool
is_gate step = str_eq step.kind "gate" || str_eq step.kind "human_approval"

-- The body of the loop of `Run` for a step of the plan.
unfoldable pub run_step : Runtime → Plan → RunState → List Event → String → Step → Ending
unfolding deps_satisfied pass_gate run_with_policy
run_step rt plan s log id step =
    if is_done (lookup id s.results)
    then goes_on s log
    else if not (deps_satisfied plan s id)
    then returns (failing s (result_of id awaiting_gate 0 none "dependencies not satisfied"))
        (dependencies_unsatisfied id) (recorded step.id step.kind 0 false ∷ log)
    else if is_gate step
    then pass_gate s (gate_log rt.gates log step) id step (evaluate_gate rt.gates log step)
    else record_step id step (run_with_policy rt.runner s log step)

-- A step that the plan does not list is passed over.
abbrev pub run_id : Runtime → Plan → RunState → List Event → String → Option Step → Ending
run_id rt plan s log id none = goes_on s log
run_id rt plan s log id (some step) = run_step rt plan s log id step

-- A return or a panic ends the run.
abbrev pub and_then : Ending → (RunState → List Event → Ending) → Ending
and_then (goes_on s log) f = f s log
and_then (returns s p log) f = returns s p log
and_then (panics log) f = panics log

-- The loop of `Run`.
unfoldable pub run_order : Runtime → Plan → RunState → List Event → List String → Ending
unfolding run_step
run_order rt plan s log [] = goes_on (record s { status = complete }) log
run_order rt plan s log (id ∷ ids) =
    and_then (run_id rt plan s log id (lookup id plan.steps))
      (λ s' log'. run_order rt plan s' log' ids)

-- `Run`; `goes_on` with the final state means that it returns no error.
unfoldable pub run : Runtime → Plan → Option RunState → List Event → Ending
unfolding initial run_order
run rt plan prior log = run_order rt plan (initial plan prior) log plan.order

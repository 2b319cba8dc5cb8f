-- ===== src/Toolbox/Workflow/Runs.antt =====
-- toolbox/workflow/runtime.go: whole runs, repeated and resumed.
use aa.Base.{
  String, Bool, true, not, ◌||◌, Option, none, some, List, [], ◌∷◌, ◌≡◌, refl, subst, inl, inr, all,
  eq_refl, elem, is_some, Bool-cases, arith, some_inj,
}
use aa.Base.Assoc.{lookup}
use aa.Toolbox.Workflow.{
  Plan, RunState, RunStatus, Event, Runner, Runtime, Ending, goes_on, returns, panics, is_done, run,
  initial, step_failed,
}
use aa.Toolbox.Workflow.History.{Legit}
use aa.Toolbox.Workflow.Order.{
  IsNamed, Passed, RunFair, run-fair, run_order-idle, run_order-panics, restart-Reaches,
}

-- Every step of the order that the plan lists is completed, skipped or compensated.
abbrev pub is_finished : Plan → RunState → Bool
is_finished plan s =
    all (λ id. not (is_some (lookup id plan.steps)) || is_done (lookup id s.results)) plan.order

all-elem :
    (p : String → Bool) (ids : List String)
    → ((id : String) → elem id ids ≡ true → p id ≡ true)
    → all p ids ≡ true
all-elem p [] h = refl
all-elem p (id ∷ ids) h =
    ground
      (arith, h id (ground (arith, eq_refl id)), all-elem p ids (λ j k. h j (ground (arith, k))))

Passed-finished :
    (plan : Plan) (named : IsNamed plan) (before s : RunState) (id : String)
    → Passed plan named before s id
    → (not (is_some (lookup id plan.steps)) || is_done (lookup id s.results)) ≡ true
Passed-finished plan named before s id d = elim (Bool-cases (is_some (lookup id plan.steps))) [
  | inl e ↦ rw e (d e)
  | inr e ↦ rw e refl
]

-- A run that returns no error, of a plan that lists each step under its own id and from any state
-- before it: its status is complete and every listed
-- step is finished; another run of the plan from this state, with any runner and gates, asks
-- nothing of them, records nothing, returns no error and changes no result.
pub run_again :
    (rt rt' : Runtime) (plan : Plan) (prior : Option RunState) (log' : List Event) {s : RunState}
    {log : List Event}
    → IsNamed plan
    → run rt plan prior [] ≡ goes_on s log
    → (s.status ≡ RunStatus.complete)
      × (is_finished plan s ≡ true)
      × (s' : RunState) × (run rt' plan (some s) log' ≡ goes_on s' log')
      × (s'.results ≡ s.results)
unfolding run initial
run_again rt rt' plan prior log' {s} {log} named e =
    let f =
      subst (RunFair plan named (initial plan prior) (initial plan prior) plan.order) e
        (run-fair plan named rt prior) in
    (
      f.3,
      all-elem (λ id. not (is_some (lookup id plan.steps)) || is_done (lookup id s.results))
          plan.order (λ id h. Passed-finished plan named (initial plan prior) s id (f.1 id h)),
      record (initial plan (some s)) { status = RunStatus.complete },
      run_order-idle plan named (initial plan prior) rt' plan.order (initial plan (some s)) log'
          f.1,
      refl,
    )

-- The state that a run returns, with or without an error, and its log.
abbrev pub left_by : Ending → Option (RunState × List Event)
left_by (goes_on s log) = some (s, log)
left_by (returns s p log) = some (s, log)
left_by (panics log) = none

left-Legit :
    (plan : Plan) (named : IsNamed plan) (s₀ : RunState) (e : Ending) {s : RunState}
    {log : List Event}
    → left_by e ≡ some (s, log)
    → RunFair plan named s₀ s₀ plan.order e
    → Legit plan s₀ log
left-Legit plan named s₀ (goes_on u l) q f =
    subst (λ (x : RunState × List Event). Legit plan s₀ x.1) (some_inj q) f.2.0
left-Legit plan named s₀ (returns u p l) q f =
    subst (λ (x : RunState × List Event). Legit plan s₀ x.1) (some_inj q) f.2
left-Legit plan named s₀ (panics l) q f = absurd (ground (arith, q))

-- Whatever the runner and the gates answer, for a plan that lists each step under its own id, and from
-- any state before: in a run that returns, each
-- call of the runner for a step came after every dependency of the step was completed, skipped or
-- compensated, either in the state before or by an earlier step of the run that is recorded as a
-- success; and the call's attempt is at most one more than the step's retries (a negative number of
-- retries being none).
pub run-Legit :
    (rt : Runtime) (plan : Plan) (prior : Option RunState) {s : RunState} {log : List Event}
    → IsNamed plan
    → left_by (run rt plan prior []) ≡ some (s, log)
    → Legit plan (initial plan prior) log
run-Legit rt plan prior named e =
    left-Legit plan named (initial plan prior) (run rt plan prior []) e
      (run-fair plan named rt prior)

-- A run, of a plan that lists each step under its own id, that a failed step has ended cannot be
-- resumed: with any runner that does not compensate,
-- and any gates, the run of the plan from the state that was returned panics, without asking them
-- anything.
pub run_failed-panics :
    (rt rt' : Runtime) (runner : Runner) (plan : Plan) (prior : Option RunState) (log' : List Event)
    {s : RunState} {log : List Event} {id e : String}
    → IsNamed plan
    → rt'.runner ≡ some runner
    → runner.compensate ≡ none
    → run rt plan prior [] ≡ returns s (step_failed id e) log
    → run rt' plan (some s) log' ≡ panics log'
unfolding run
run_failed-panics rt rt' runner plan prior log' {s} named r c e =
    let f =
      subst (RunFair plan named (initial plan prior) (initial plan prior) plan.order) e
        (run-fair plan named rt prior) in
    run_order-panics plan named (initial plan prior) rt' runner (initial plan (some s)) log' r c
      (restart-Reaches plan named (initial plan prior) s f.1)

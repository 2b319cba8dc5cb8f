-- ===== src/Toolbox/Workflow/Order.antt =====
-- toolbox/workflow/runtime.go: the loop over the order of a plan, and where it stops.
use aa.Base.{
  ◌-◌, ◌≤◌, String, true, false, Option, none, some, List, [], ◌∷◌, ◌≡◌, refl, ap, ◌∙◌, subst, inl,
  inr, str_eq, eq_iff, eq_refl, elem, is_some, if_rule, Bool-cases, Option-cases, arith,
}
use aa.Base.Assoc.{lookup}
use aa.Toolbox.Workflow.{
  Step, Plan, RunState, RunStatus, Event, Runner, Runtime, Problem, Ending, goes_on, returns,
  panics, is_done, deps_satisfied, max_attempts, on_failure, run_with_policy, run_step, run_id,
  run_order, run, initial, is_gate, attempts_of, step_failed, gate_error, approval_required,
  no_runner, compensation_failed, dependencies_unsatisfied, try_runs, by_policy, undo, record_step,
  and_then,
}
use aa.Toolbox.Workflow.History.{done_is_over, Done, Grows, Kept, Legit}
use aa.Toolbox.Workflow.Steps.{Stuck}
use aa.Toolbox.Workflow.Policy.{Over, run_step-Over}

-- The plan lists each step under its own id.
abbrev pub IsNamed : Plan → Type 0
IsNamed plan = (id : String) (step : Step) → lookup id plan.steps ≡ some step → step.id ≡ id

module _ (plan : Plan) (named : IsNamed plan) (before : RunState) where
  abbrev pub Passed : RunState → String → Type 0
  Passed s id = is_some (lookup id plan.steps) ≡ true → Done s id

  -- A step that failed for good.
  pub record IsStuck (s : RunState) (id : String) : Type 0 where
    pub step : Step
    pub listed : lookup id plan.steps ≡ some step
    pub undone : is_done (lookup id s.results) ≡ false
    pub ready : deps_satisfied plan s id ≡ true
    pub no_gate : is_gate step ≡ false
    pub spent : max_attempts step ≤ attempts_of s step.id
    pub no_skip : str_eq (on_failure step) "skip" ≡ false

  -- Where a run of these steps that starts from the state gets to.
  pub data Reaches (s : RunState) : List String → Type 0 where
    stuck : {id : String} {ids : List String} → IsStuck s id → Reaches s (id ∷ ids)
    later : {id : String} {ids : List String} → Passed s id → Reaches s ids → Reaches s (id ∷ ids)

  abbrev pub Stopped : RunState → List String → Problem → Type 0
  Stopped s ids (step_failed j e) = Reaches s ids
  Stopped s ids p = Unit

  abbrev pub RunFair : RunState → List String → Ending → Type 0
  RunFair s ids (goes_on s' log) =
      Grows s s'
      × ((id : String) → elem id ids ≡ true → Passed s' id)
      × Kept plan before s' log
      × (s'.status ≡ RunStatus.complete)
  RunFair s ids (returns s' p log) = Grows s s' × Stopped s' ids p × Legit plan before log
  RunFair s ids (panics log) = Unit

  abbrev pub IdFair : RunState → String → Ending → Type 0
  IdFair s id (goes_on s' log) = Grows s s' × Passed s' id × Kept plan before s' log
  IdFair s id (returns s' p log) =
      Grows s s' × ((ids : List String) → Stopped s' (id ∷ ids) p) × Legit plan before log
  IdFair s id (panics log) = Unit

  stop-Stopped :
      (s : RunState) (step : Step) (here : lookup step.id plan.steps ≡ some step) (p : Problem)
      → Stuck plan before step here s p
      → (ids : List String) → Stopped s (step.id ∷ ids) p
  stop-Stopped s step here (step_failed j e) f ids = stuck (record {
    step = step;
    listed = here;
    undone = f.1;
    ready = f.2;
    no_gate = f.3;
    spent = f.4;
    no_skip = f.5;
  })
  stop-Stopped s step here (gate_error e) f ids = tt
  stop-Stopped s step here (approval_required j) f ids = tt
  stop-Stopped s step here (no_runner j) f ids = tt
  stop-Stopped s step here (compensation_failed j e) f ids = tt
  stop-Stopped s step here (dependencies_unsatisfied j) f ids = tt

  step-IdFair :
      (s : RunState) (step : Step) (here : lookup step.id plan.steps ≡ some step) (e : Ending)
      → Over plan before step here s e
      → IdFair s step.id e
  step-IdFair s step here (goes_on s' log) f = (f.0, λ _. f.1, f.2)
  step-IdFair s step here (returns s' p log) f = (f.0, stop-Stopped s' step here p f.1, f.2)
  step-IdFair s step here (panics log) f = tt

  run_id-fair :
      (rt : Runtime) (s : RunState) (log : List Event) (id : String)
      → Kept plan before s log
      → IdFair s id (run_id rt plan s log id (lookup id plan.steps))
  run_id-fair rt s log id a = elim (Option-cases (lookup id plan.steps)) [
    | inl e ↦ rw e ((λ j d. d, λ h. absurd (ground (arith, h)), a))
    | inr (step, e) ↦
        (let same = named id step e in
          let here = ap (λ j. lookup j plan.steps) same ∙ e in
          rw e (
            subst (λ j. IdFair s j (run_step rt plan s log j step)) same
              (step-IdFair s step here (run_step rt plan s log step.id step)
                (run_step-Over plan before step here rt s log a))))
  ]

  later-Stopped :
      (s s' : RunState) (id : String) (ids : List String) (p : Problem)
      → Grows s s'
      → Passed s id
      → Stopped s' ids p
      → Stopped s' (id ∷ ids) p
  later-Stopped s s' id ids (step_failed j e) g d f = later (λ h. g id (d h)) f
  later-Stopped s s' id ids (gate_error e) g d f = tt
  later-Stopped s s' id ids (approval_required j) g d f = tt
  later-Stopped s s' id ids (no_runner j) g d f = tt
  later-Stopped s s' id ids (compensation_failed j e) g d f = tt
  later-Stopped s s' id ids (dependencies_unsatisfied j) g d f = tt

  -- After the first of the steps.
  then-fair :
      (s s' : RunState) (id : String) (ids : List String) (e : Ending)
      → Grows s s'
      → Passed s' id
      → RunFair s' ids e
      → RunFair s (id ∷ ids) e
  then-fair s s' id ids (goes_on u log) g d f = (
    λ j h. f.0 j (g j h),
    λ j h. elim (Bool-cases (str_eq id j)) [
      | inl e ↦ λ k. f.0 j (
          subst (Done s') (ground (arith, eq_iff id j, e)) (
            d (
              subst (λ i. is_some (lookup i plan.steps) ≡ true) (ground (arith, eq_iff id j, e))
                k)))
      | inr e ↦ f.1 j (ground (arith, h, e))
    ],
    f.2,
    f.3,
  )
  then-fair s s' id ids (returns u p log) g d f =
      (λ j h. f.0 j (g j h), later-Stopped s' u id ids p f.0 d f.1, f.2)
  then-fair s s' id ids (panics log) g d f = tt

  and_then-fair :
      (s : RunState) (id : String) (ids : List String) (e : Ending)
      (f : RunState → List Event → Ending)
      → IdFair s id e
      → ((s' : RunState) (log : List Event) → Kept plan before s' log → RunFair s' ids (f s' log))
      → RunFair s (id ∷ ids) (and_then e f)
  and_then-fair s id ids (goes_on s' log) f h k =
      then-fair s s' id ids (f s' log) h.0 h.1 (k s' log h.2)
  and_then-fair s id ids (returns s' p log) f h k = (h.0, h.1 ids, h.2)
  and_then-fair s id ids (panics log) f h k = tt

  run_order-fair :
      (rt : Runtime) (ids : List String) (s : RunState) (log : List Event)
      → Kept plan before s log
      → RunFair s ids (run_order rt plan s log ids)
  unfolding run_order
  run_order-fair rt [] s log a = (λ j d. d, λ id h. absurd (ground (arith, h)), a, refl)
  run_order-fair rt (id ∷ ids) s log a =
      and_then-fair s id ids (run_id rt plan s log id (lookup id plan.steps))
        (λ s' log'. run_order rt plan s' log' ids) (run_id-fair rt s log id a)
        (λ s' log' b. run_order-fair rt ids s' log' b)

  run_id-Passed :
      (rt : Runtime) (s : RunState) (log : List Event) (id : String)
      → Passed s id
      → run_id rt plan s log id (lookup id plan.steps) ≡ goes_on s log
  unfolding run_step
  run_id-Passed rt s log id d = elim (Option-cases (lookup id plan.steps)) [
    | inl e ↦ rw e refl
    | inr (step, e) ↦ rw e (rw (d (ap is_some e)) refl)
  ]

  -- Where all are done, nothing is asked.
  pub run_order-idle :
      (rt : Runtime) (ids : List String) (s : RunState) (log : List Event)
      → ((id : String) → elem id ids ≡ true → Passed s id)
      → run_order rt plan s log ids ≡ goes_on (record s { status = RunStatus.complete }) log
  unfolding run_order
  run_order-idle rt [] s log d = refl
  run_order-idle rt (id ∷ ids) s log d =
      rw (run_id-Passed rt s log id (d id (ground (arith, eq_refl id))))
        (run_order-idle rt ids s log (λ j h. d j (ground (arith, h))))

  stuck_out :
      (runner : Runner) (s : RunState) (log : List Event) (step : Step)
      → runner.compensate ≡ none
      → str_eq (on_failure step) "skip" ≡ false
      → max_attempts step ≤ attempts_of s step.id
      → run_with_policy (some runner) s log step ≡ panics log
  unfolding run_with_policy try_runs by_policy undo
  stuck_out runner s log step c k m =
      let z : max_attempts step - attempts_of s step.id ≡ 0 = omega (arith, m) in
      rw (z, run_with_policy)
        (rw (k, by_policy)
          (rw (c, undo)
            (if_rule (λ (x : Ending). x ≡ panics log) (str_eq (on_failure step) "compensate")
              (λ _. refl) (λ _. refl))))

  -- A step that failed for good panics when it is run again.
  stuck_panics :
      (rt : Runtime) (runner : Runner) (s : RunState) (log : List Event) (id : String)
      → rt.runner ≡ some runner
      → runner.compensate ≡ none
      → IsStuck s id
      → run_id rt plan s log id (lookup id plan.steps) ≡ panics log
  unfolding run_step
  stuck_panics rt runner s log id e c f = rw f.listed (
      rw (f.undone, f.ready, f.no_gate)
        (rw e (ap (record_step id f.step) (stuck_out runner s log f.step c f.no_skip f.spent))))

  -- Where the run reaches a step that failed for good, it panics.
  pub run_order-panics :
      (rt : Runtime) (runner : Runner) (s : RunState) (log : List Event) {ids : List String}
      → rt.runner ≡ some runner
      → runner.compensate ≡ none
      → Reaches s ids
      → run_order rt plan s log ids ≡ panics log
  unfolding run_order
  run_order-panics rt runner s log e c (stuck {id} f) =
      rw (stuck_panics rt runner s log id e c f) refl
  run_order-panics rt runner s log e c (later {id} d r) =
      rw (run_id-Passed rt s log id d) (run_order-panics rt runner s log e c r)

  pub restart-Reaches :
      (s : RunState) {ids : List String} → Reaches s ids → Reaches (initial plan (some s)) ids
  unfolding initial deps_satisfied
  restart-Reaches s (stuck f) = stuck (record {
    step = f.step;
    listed = f.listed;
    undone = f.undone;
    ready = f.ready;
    no_gate = f.no_gate;
    spent = f.spent;
    no_skip = f.no_skip;
  })
  restart-Reaches s (later d r) = later d (restart-Reaches s r)

pub run-fair :
    (plan : Plan) (named : IsNamed plan) (rt : Runtime) (prior : Option RunState)
    → RunFair plan named (initial plan prior) (initial plan prior) plan.order (run rt plan prior [])
unfolding run
run-fair plan named rt prior =
    let before = initial plan prior in
    run_order-fair plan named before rt plan.order before []
      (tt, λ j d. ground (arith, done_is_over (lookup j before.results) d))

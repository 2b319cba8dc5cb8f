-- ===== src/Toolbox/Workflow/Steps.antt =====
-- toolbox/workflow/runtime.go: what the attempts of one step do to the results and the log.
use aa.Base.{
  ℕ, zero, suc, ◌+◌, ◌-◌, ◌≤◌, String, true, false, Option, none, some, List, ◌∷◌, ◌≡◌, refl, ap,
  ◌∙◌, sym, subst, inl, inr, str_eq, eq_iff, get_or, Result-cases, arith, some_inj,
}
use aa.Base.Assoc.{lookup}
use aa.Toolbox.Workflow.{
  Step, Plan, StepResult, RunState, Event, Runner, Problem, Ending, Tried, ran, goes_on, returns,
  panics, succeeded, exhausted, is_terminal, is_done, no_result, result_of, put, failing,
  deps_satisfied, max_attempts, on_failure, try_runs, attempts_of, is_gate, step_failed, completed,
  started, broken,
}
use aa.Toolbox.Workflow.History.{
  Done, Grows, put-Grows, put-here, deps-Grows, tries_of, max_attempts_le, deps_of, all_done-elem,
  Legit, KeptBut, known_cons, put-KeptBut,
}

module _ (plan : Plan) (before : RunState) where
  module _ (step : Step) (here : lookup step.id plan.steps ≡ some step) where
    -- What a step that failed for good leaves behind.
    abbrev pub Stuck : RunState → Problem → Type 0
    Stuck s (step_failed j e) =
        (j ≡ step.id)
        × (is_done (lookup step.id s.results) ≡ false)
        × (deps_satisfied plan s step.id ≡ true)
        × (is_gate step ≡ false)
        × (max_attempts step ≤ attempts_of s step.id)
        × (str_eq (on_failure step) "skip" ≡ false)
    Stuck s p = Unit

    -- What the end of a step, begun in the state s, has to be like.
    abbrev pub Fair : RunState → Ending → Type 0
    Fair s (goes_on s' log) = Grows s s' × Done s' step.id × KeptBut plan before step.id s' log
    Fair s (returns s' p log) = Grows s s' × Stuck s' p × Legit plan before log
    Fair s (panics log) = Unit

    -- The same for the loop over the attempts.
    abbrev pub FairTry : RunState → Tried → Type 0
    FairTry s (succeeded s' log) = Grows s s' × Done s' step.id × KeptBut plan before step.id s' log
    FairTry s (exhausted s' log attempt last) =
        Grows s s'
        × (is_done (lookup step.id s'.results) ≡ false)
        × KeptBut plan before step.id s' log
        × (max_attempts step ≤ attempt)

    FairTry-Grows : (s s' : RunState) (t : Tried) → Grows s s' → FairTry s' t → FairTry s t
    FairTry-Grows s s' (succeeded u log) g f = (λ j d. f.0 j (g j d), f.1, f.2)
    FairTry-Grows s s' (exhausted u log n last) g f = (λ j d. f.0 j (g j d), f.1, f.2, f.3)

    ran-KeptBut :
        (s : RunState) (n : ℕ) (log : List Event)
        → is_done (lookup step.id s.results) ≡ false
        → deps_satisfied plan s step.id ≡ true
        → n ≤ max_attempts step
        → KeptBut plan before step.id s log
        → KeptBut plan before step.id s (ran step.id n ∷ log)
    unfolding deps_satisfied
    ran-KeptBut s n log u d l k = (
      (
        λ x e.
            let done = all_done-elem s (deps_of plan step.id) x d e in
            k.1 x (ground (arith, u, done, eq_iff step.id x)) done,
        λ other e.
            subst (λ (t : Step). n ≤ tries_of t.retries) (some_inj (sym here ∙ e))
              (omega (arith, l, max_attempts_le step)),
        k.0,
      ),
      λ j e h. known_cons plan before (ran step.id n) log j (k.1 j e h),
    )

    pub try_runs-Fair :
        (left : ℕ) (runner : Runner) (s : RunState) (log : List Event) (attempt : ℕ)
        (last : Option String)
        → is_done (lookup step.id s.results) ≡ false
        → deps_satisfied plan s step.id ≡ true
        → KeptBut plan before step.id s log
        → left ≤ max_attempts step - attempt
        → max_attempts step ≤ attempt + left
        → FairTry s (try_runs left runner step s log attempt last)
    unfolding try_runs
    try_runs-Fair zero runner s log attempt last n d a l m = (λ j h. h, n, a, omega arith)
    try_runs-Fair (suc left) runner s log attempt last n d a l m =
        let k : attempt + 1 ≤ max_attempts step = omega arith in
        elim (Result-cases (runner.run log step (attempt + 1))) [
          | inl (output, e) ↦
              rw (e, try_runs)
                (let r = result_of step.id completed (attempt + 1) output "" in
                  let g = put-Grows s r n in
                  (
                    g,
                    ap is_done (put-here s r),
                    put-KeptBut plan before step.id s r (ran step.id (attempt + 1) ∷ log) refl
                        (ran-KeptBut s (attempt + 1) log n d k a),
                  ))
          | inr (x, e) ↦
              rw (e, try_runs)
                (let r = result_of step.id started (attempt + 1) none x in
                  let s' = put s r in
                  let g = put-Grows s r n in
                  FairTry-Grows s s' _ g (
                    try_runs-Fair left runner s' (ran step.id (attempt + 1) ∷ log) (attempt + 1)
                      (some x) (ap is_done (put-here s r)) (deps-Grows plan s s' step.id g d)
                      (put-KeptBut plan before step.id s r (ran step.id (attempt + 1) ∷ log) refl
                        (ran-KeptBut s (attempt + 1) log n d k a))
                      (omega arith) (omega arith)))
        ]

    -- A result that ends the step, whether well or not.
    pub put-Fair :
        (s s' : RunState) (r : StepResult) (log : List Event)
        → r.id ≡ step.id
        → is_terminal r.state ≡ true
        → Grows s s'
        → is_done (lookup step.id s'.results) ≡ false
        → KeptBut plan before step.id s' log
        → Fair s (goes_on (put s' r) log)
    put-Fair s s' r log e t g n a =
        let g' = put-Grows s' r (subst (λ j. is_done (lookup j s'.results) ≡ false) (sym e) n) in
        (
          λ j d. g' j (g j d),
          subst (λ j. Done (put s' r) j) e (ap is_done (put-here s' r) ∙ t),
          put-KeptBut plan before step.id s' r log e a,
        )

    pub fail-Fair :
        (s s' : RunState) (attempt : ℕ) (e : String) (log : List Event)
        → Grows s s'
        → is_done (lookup step.id s'.results) ≡ false
        → deps_satisfied plan s' step.id ≡ true
        → is_gate step ≡ false
        → max_attempts step ≤ attempt
        → str_eq (on_failure step) "skip" ≡ false
        → KeptBut plan before step.id s' log
        → Fair s (
            returns
              (failing s' (result_of step.id broken attempt none e))
              (step_failed step.id e)
              log)
    unfolding deps_satisfied
    fail-Fair s s' attempt e log g n d k m f a =
        let r = result_of step.id broken attempt none e in
        let g' = put-Grows s' r n in
        (
          λ j h. g' j (g j h),
          (
            refl,
            ap is_done (put-here s' r),
            deps-Grows plan s' (put s' r) step.id g' d,
            k,
            subst (λ (o : Option StepResult). max_attempts step ≤ (get_or o no_result).attempts)
                (sym (put-here s' r)) m,
            f,
          ),
          a.0,
        )

    -- The result is written, and the run returns for another reason than a failed step.
    pub stop-Fair :
        (s s' u : RunState) (r : StepResult) (p : Problem) (log : List Event)
        → u.results ≡ (put s' r).results
        → r.id ≡ step.id
        → Grows s s'
        → is_done (lookup step.id s'.results) ≡ false
        → KeptBut plan before step.id s' log
        → Stuck u p
        → Fair s (returns u p log)
    stop-Fair s s' u r p log q e g n a f =
        let g' = put-Grows s' r (subst (λ j. is_done (lookup j s'.results) ≡ false) (sym e) n) in
        let h : Grows s' u = λ j d. subst (λ m. is_done (lookup j m) ≡ true) (sym q) (g' j d) in
        (λ j d. h j (g j d), f, a.0)

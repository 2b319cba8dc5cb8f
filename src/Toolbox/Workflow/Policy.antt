-- ===== src/Toolbox/Workflow/Policy.antt =====
-- toolbox/workflow/runtime.go: what the policy, the gates and one whole step of a run do.
use aa.Base.{
  Bool-cases, inl, inr, subst, sym, ℕ, ◌-◌, ◌≤◌, String, Bool, true, false, not, Option, none, some,
  List, ◌∷◌, ◌≡◌, refl, str_eq, get_or, if_rule, Result, ok, err, arith,
}
use aa.Base.Assoc.{lookup}
use aa.Toolbox.Workflow.{
  ends_well, evaluated, awaiting_approval, put, StepResult, Problem, attempts_of, Step, Plan,
  RunState, Event, Runner, Runtime, Ending, Tried, Output, undone, recorded, goes_on, returns,
  panics, succeeded, exhausted, is_done, no_result, result_of, failing, deps_satisfied,
  max_attempts, on_failure, evaluate_gate, gate_log, pass_gate, by_policy, run_with_policy,
  run_step, record_step, is_gate, gate_error, approval_required, no_runner, compensation_failed,
  dependencies_unsatisfied, undo, settle_undo, fails_step, skips_step, completed, skipped,
  compensated, broken, awaiting_gate,
}
use aa.Toolbox.Workflow.History.{Done, Grows, Kept, KeptBut, Legit, known_cons, deps-Grows}
use aa.Toolbox.Workflow.Steps.{Stuck, Fair, FairTry, put-Fair, fail-Fair, stop-Fair, try_runs-Fair}

module _ (plan : Plan) (before : RunState) where
  module _ (step : Step) (here : lookup step.id plan.steps ≡ some step) where
    -- A run of the step that is out of attempts.
    module _ (s s' : RunState) (log : List Event) (attempt : ℕ) (g : Grows s s')
        (n : is_done (lookup step.id s'.results) ≡ false)
        (a : KeptBut plan before step.id s' log) where
      skips-Fair :
          (last : Option String)
          → Fair plan before step here s (skips_step s' log step attempt last)
      skips-Fair none = tt
      skips-Fair (some e) =
          put-Fair plan before step here s s' (result_of step.id skipped attempt none e) log refl
            refl g n a

      settle-Fair :
          (last c : Option String)
          → Fair plan before step here s (settle_undo s' log step attempt last c)
      settle-Fair last (some c) =
          stop-Fair plan before step here s s'
            (failing s' (result_of step.id broken attempt none c))
            (result_of step.id broken attempt none c) (compensation_failed step.id c) log refl refl
            g n a tt
      settle-Fair none none = tt
      settle-Fair (some e) none =
          put-Fair plan before step here s s' (result_of step.id compensated attempt none e) log
            refl refl g n a

      module _ (d : deps_satisfied plan s' step.id ≡ true) (k : is_gate step ≡ false)
          (m : max_attempts step ≤ attempt) (f : str_eq (on_failure step) "skip" ≡ false) where
        fails-Fair :
            (last : Option String)
            → Fair plan before step here s (fails_step s' log step attempt last)
        fails-Fair none = tt
        fails-Fair (some e) = fail-Fair plan before step here s s' attempt e log g n d k m f a

    undo-Fair :
        (s s' : RunState) (log : List Event) (attempt : ℕ) (last : Option String) (output : Output)
        (c : Option (List Event → Step → Output → Option String))
        → Grows s s'
        → is_done (lookup step.id s'.results) ≡ false
        → KeptBut plan before step.id s' log
        → deps_satisfied plan s' step.id ≡ true
        → is_gate step ≡ false
        → max_attempts step ≤ attempt
        → str_eq (on_failure step) "skip" ≡ false
        → Fair plan before step here s (undo c output s' log step attempt last)
    unfolding undo
    undo-Fair s s' log attempt last output none g n a d k m f =
        fails-Fair s s' log attempt g n a d k m f last
    undo-Fair s s' log attempt last output (some compensate) g n a d k m f =
        settle-Fair s s' (undone step.id ∷ log) attempt g n
          (a.0, λ j n d. known_cons plan before (undone step.id) log j (a.1 j n d)) last
          (compensate log step output)

    by_policy-Fair :
        (s : RunState) (runner : Runner) (output : Output) (t : Tried)
        → is_gate step ≡ false
        → deps_satisfied plan s step.id ≡ true
        → FairTry plan before step here s t
        → Fair plan before step here s (by_policy runner step output t)
    unfolding by_policy
    by_policy-Fair s runner output (succeeded s' log) k d f = f
    by_policy-Fair s runner output (exhausted s' log attempt last) k d f =
        let d' = deps-Grows plan s s' step.id f.0 d in
        if_rule (Fair plan before step here s) (str_eq (on_failure step) "skip")
          (λ _. skips-Fair s s' log attempt f.0 f.1 f.2 last)
          (λ e.
            if_rule (Fair plan before step here s) (str_eq (on_failure step) "compensate")
              (λ _. undo-Fair s s' log attempt last output runner.compensate f.0 f.1 f.2 d' k f.3 e)
              (λ _. fails-Fair s s' log attempt f.0 f.1 f.2 d' k f.3 e last))

    run_with_policy-Fair :
        (runner : Option Runner) (s : RunState) (log : List Event)
        → is_gate step ≡ false
        → is_done (lookup step.id s.results) ≡ false
        → deps_satisfied plan s step.id ≡ true
        → KeptBut plan before step.id s log
        → Fair plan before step here s (run_with_policy runner s log step)
    unfolding run_with_policy
    run_with_policy-Fair none s log k n d a =
        stop-Fair plan before step here s s
          (failing s (result_of step.id broken 0 none "no runner configured"))
          (result_of step.id broken 0 none "no runner configured") (no_runner step.id) log refl refl
          (λ j h. h) n a tt
    run_with_policy-Fair (some runner) s log k n d a =
        let prior = get_or (lookup step.id s.results) no_result in
        by_policy-Fair s runner prior.output _ k d (
          try_runs-Fair plan before step here (max_attempts step - prior.attempts) runner s log
            prior.attempts none n d a (omega arith) (omega arith))

    -- What the end of a whole step has to be like: its success, if any, is in the log.
    abbrev pub Over : RunState → Ending → Type 0
    Over s (goes_on s' log) = Grows s s' × Done s' step.id × Kept plan before s' log
    Over s (returns s' p log) =
        Grows s s' × Stuck plan before step here s' p × Legit plan before log
    Over s (panics log) = Unit

    -- The event that the step went well makes it known.
    recorded-Kept :
        (s : RunState) (log : List Event) (n : ℕ)
        → KeptBut plan before step.id s log
        → Kept plan before s (recorded step.id step.kind n true ∷ log)
    recorded-Kept s log n a = (
      a.0,
      λ j d. elim (Bool-cases (str_eq step.id j)) [
        | inl e ↦ ground (arith, e)
        | inr e ↦ known_cons plan before (recorded step.id step.kind n true) log j (a.1 j e d)
      ],
    )

    Done-ends_well : (s : RunState) → Done s step.id → ends_well s step.id ≡ true
    Done-ends_well s d = ground (arith, d)

    record_step-Over :
        (s : RunState) (e : Ending)
        → Fair plan before step here s e
        → Over s (record_step step.id step e)
    record_step-Over s (goes_on s' log) f = (
      f.0,
      f.1,
      subst (λ b. Kept plan before s' (recorded step.id step.kind (attempts_of s' step.id) b ∷ log))
          (sym (Done-ends_well s' f.1)) (recorded-Kept s' log (attempts_of s' step.id) f.2),
    )
    record_step-Over s (returns s' p log) f = (f.0, f.1, f.2)
    record_step-Over s (panics log) f = tt

    -- A step whose log gets one more event that says of no success.
    stop-Over :
        (s u : RunState) (r : StepResult) (p : Problem) (log : List Event)
        → u.results ≡ (put s r).results
        → r.id ≡ step.id
        → is_done (lookup step.id s.results) ≡ false
        → KeptBut plan before step.id s log
        → Stuck plan before step here u p
        → Over s (returns u p log)
    stop-Over s u r p log q e n a f =
        stop-Fair plan before step here s s u r p log q e (λ j h. h) n a f

    quiet-KeptBut :
        (s : RunState) (log : List Event) (n : ℕ)
        → KeptBut plan before step.id s log
        → KeptBut plan before step.id s (recorded step.id step.kind n false ∷ log)
    quiet-KeptBut s log n a = (
      a.0,
      λ j e d. known_cons plan before (recorded step.id step.kind n false) log j (a.1 j e d),
    )

    gate_log-KeptBut :
        (s : RunState) (gates : Option (List Event → Step → Result String Bool)) (log : List Event)
        → KeptBut plan before step.id s log
        → KeptBut plan before step.id s (gate_log gates log step)
    gate_log-KeptBut s none log a = a
    gate_log-KeptBut s (some gates) log a =
        (a.0, λ j e d. known_cons plan before (evaluated step.id) log j (a.1 j e d))

    pass_gate-Over :
        (s : RunState) (log : List Event) (answer : Result String Bool)
        → is_done (lookup step.id s.results) ≡ false
        → KeptBut plan before step.id s log
        → Over s (pass_gate s log step.id step answer)
    unfolding pass_gate
    pass_gate-Over s log (err e) n a =
        stop-Over s
          (record (put s (result_of step.id awaiting_gate 0 none e)) { status = awaiting_approval })
          (result_of step.id awaiting_gate 0 none e) (gate_error e)
          (recorded step.id step.kind 1 false ∷ log) refl refl n (quiet-KeptBut s log 1 a) tt
    pass_gate-Over s log (ok false) n a =
        stop-Over s
          (record (put s (result_of step.id awaiting_gate 0 none "gate not passed")) {
            status = awaiting_approval;
          })
          (result_of step.id awaiting_gate 0 none "gate not passed") (approval_required step.id)
          (recorded step.id step.kind 1 false ∷ log) refl refl n (quiet-KeptBut s log 1 a) tt
    pass_gate-Over s log (ok true) n a =
        let r = result_of step.id completed 0 none "" in
        let f = put-Fair plan before step here s s r log refl refl (λ j h. h) n a in
        (f.0, f.1, recorded-Kept (put s r) log 1 f.2)

    -- One step of the loop, whatever its runner and its gates answer.
    pub run_step-Over :
        (rt : Runtime) (s : RunState) (log : List Event)
        → Kept plan before s log
        → Over s (run_step rt plan s log step.id step)
    unfolding run_step
    run_step-Over rt s log a =
        let b : KeptBut plan before step.id s log = (a.0, λ j e d. a.1 j d) in
        if_rule (Over s) (is_done (lookup step.id s.results)) (λ h. (λ j d. d, h, a))
          (λ n.
            if_rule (Over s) (not (deps_satisfied plan s step.id))
              (λ _.
                stop-Over s
                  (failing s (result_of step.id awaiting_gate 0 none "dependencies not satisfied"))
                  (result_of step.id awaiting_gate 0 none "dependencies not satisfied")
                  (dependencies_unsatisfied step.id) (recorded step.id step.kind 0 false ∷ log) refl
                  refl n (quiet-KeptBut s log 0 b) tt)
              (λ d.
                if_rule (Over s) (is_gate step)
                  (λ _.
                    pass_gate-Over s (gate_log rt.gates log step) (evaluate_gate rt.gates log step)
                      n (gate_log-KeptBut s rt.gates log b))
                  (λ k.
                    record_step-Over s (run_with_policy rt.runner s log step)
                      (run_with_policy-Fair rt.runner s log k n (ground (arith, d)) b))))

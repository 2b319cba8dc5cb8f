-- ===== src/Kernel/Scheduler/Verdict.antt =====
-- kernel/scheduler/scheduler.go: what a finished attempt is answered, on every path of `dispatchOne`.
use aa.Base.{
  String, ◌≡◌, refl, Bool, true, false, not, Option, none, some, List, if◌then◌else◌, Result, ok,
  err, arith, ap, ◌∙◌, sym, subst,
}
use aa.Base.Assoc.{insert}
use aa.Runtime.Worker
use aa.Runtime.Intake
use aa.Kernel.Planner
use aa.Kernel.Assignment
use aa.Kernel.Assignment.{Assignment}
use aa.Kernel.Gate
use aa.Kernel.Scheduler.{
  Scheduler, Config, Answer, Error, Effect, AssignmentRecord, record_of, reply, store, force,
  record_assignment, set_work_package_state, DispatchReport, Progress, succeeded, pending, failed,
  subject,
}
use aa.Kernel.Scheduler.Dispatch.{
  InFlight, accept, fail, conclude, await, decide, keep_result, collect, record_telemetry, end_hook,
  finish_with, finish_dispatch, is_usable, answer_of, envelope,
}
use aa.Kernel.Scheduler.System.Parts.{set_work_package_state-parts, record_assignment-parts}
use aa.Kernel.Scheduler.System.Changes.{transition_permitted, fail-parts}

-- The sink takes every assignment.
abbrev pub Writes : Config → Type 0
Writes config = (es : List Effect) (r : AssignmentRecord) → config.write_assignment es r ≡ none

abbrev pub progress_of : Answer DispatchReport → Option Progress
progress_of (o, ok d) = some d.status
progress_of (o, err e) = none

-- What the gates decide of a usable result.
abbrev pub verdict : Gate.Report → Progress
verdict r = if r.passed then succeeded else if r.pending then pending else failed

-- The answer that an attempt of the package `id` should get; none where there is an error instead.
abbrev pub expected_of :
    Config → Result Intake.Error Bool → String → Worker.Result → Option Progress
expected_of config (err e) id result = none
expected_of config (ok accepted) id result = some (
    if is_usable result.status
    then verdict (Gate.evaluate config.gates (subject id result))
    else failed)

abbrev pub expected : Config → Intake.Seen → String → Assignment → Worker.Outcome → Option Progress
expected config seen id a (Worker.returned result) =
    expected_of config (Intake.submit config.hash seen (envelope id a result)).1 id result
expected config seen id a Worker.interrupted = none
expected config seen id a (Worker.broken message) = some failed

record_assignment-Writes :
    (o : Scheduler) (a : Assignment) → Writes o.config → (record_assignment o a).1 ≡ none
unfolding record_assignment
record_assignment-Writes o a w = ground (arith, w o.effects (record_of a))

reply-progress :
    (r : Scheduler × Option Error) (k : Scheduler → Answer DispatchReport) {x : Option Progress}
    → r.1 ≡ none
    → progress_of (k r.0) ≡ x
    → progress_of (reply r k) ≡ x
reply-progress (o, none) k e h = h
reply-progress (o, some x) k e h = absurd (ground arith)

-- The assignment is recorded, and the rest decides.
recorded-progress :
    (o : Scheduler) (a : Assignment) (k : Scheduler → Answer DispatchReport) {x : Option Progress}
    → Writes o.config
    → progress_of (k (record_assignment o a).0) ≡ x
    → progress_of (reply (record_assignment o a) k) ≡ x
recorded-progress o a k w h =
    reply-progress (record_assignment o a) k (record_assignment-Writes o a w) h

if-progress :
    (b : Bool) (x y : Answer DispatchReport) (p q : Progress)
    → progress_of x ≡ some p
    → progress_of y ≡ some q
    → progress_of (if b then x else y) ≡ some (if b then p else q)
if-progress true x y p q h k = h
if-progress false x y p q h k = k

flip-progress :
    (b : Bool) (x y : Answer DispatchReport) (p : Progress)
    → progress_of x ≡ some failed
    → progress_of y ≡ some p
    → progress_of (if not b then x else y) ≡ some (if b then p else failed)
flip-progress true x y p h k = k
flip-progress false x y p h k = h

accept-progress :
    (o : Scheduler) (a : Assignment) (r : Gate.Report) (acc : Bool)
    → Writes o.config
    → progress_of (accept o a r acc) ≡ some succeeded
unfolding accept
accept-progress o a r acc w =
    let o₁ = store o a.work_package_id (force a Assignment.accepted) in
    let o₂ = set_work_package_state o₁ a.work_package_id Planner.completed in
    let p = set_work_package_state-parts o₁ a.work_package_id Planner.completed in
    recorded-progress o₂ (force a Assignment.accepted) _ (subst Writes (sym p.2) w) refl

conclude-progress :
    (o : Scheduler) (id : String) (a : Assignment) (r : Gate.Report) (acc : Bool)
    → Writes o.config
    → progress_of (conclude o id a r acc) ≡ some (verdict r)
unfolding conclude
conclude-progress o id a r acc w =
    if-progress r.passed (accept o a r acc) _ succeeded _ (accept-progress o a r acc w)
      (if-progress r.pending _ _ pending failed refl refl)

await-progress :
    (o : Scheduler) (id : String) (a : Assignment) (r : Gate.Report) (acc : Bool)
    → a.state ≡ Assignment.collecting
    → Writes o.config
    → progress_of (await o id a r acc) ≡ some (verdict r)
unfolding await
await-progress o id a r acc s w =
    let a₁ : Assignment = record a { state = Assignment.awaiting_gates } in
    let r₁ = record_assignment-parts (store o id a₁) a₁ in
    rw (transition_permitted a Assignment.awaiting_gates (rw s refl), await)
      (recorded-progress (store o id a₁) a₁ (λ o'. conclude o' id a₁ r acc) w
        (conclude-progress _ id a₁ r acc (subst Writes (sym r₁.2) w)))

decide-progress :
    (o : Scheduler) (id : String) (a : Assignment) (result : Worker.Result) (acc : Bool)
    → a.state ≡ Assignment.collecting
    → Writes o.config
    → progress_of (decide o id a result acc) ≡ expected_of o.config (ok acc) id result
unfolding decide
decide-progress o id a result acc s w =
    let p = fail-parts o id a in
    let report = Gate.evaluate o.config.gates (subject id result) in
    flip-progress (is_usable result.status) _ (await o id a report acc) (verdict report)
      (recorded-progress (fail o id a).0 (fail o id a).1 _ (subst Writes (sym p.2) w) refl)
      (await-progress o id a report acc s w)

keep_result-progress :
    (o : Scheduler) (id : String) (a : Assignment) (result : Worker.Result)
    (r : Result Intake.Error Bool)
    → a.state ≡ Assignment.collecting
    → Writes o.config
    → progress_of (keep_result o id a result r) ≡ expected_of o.config r id result
unfolding keep_result record_telemetry
keep_result-progress o id a result (err e) s w = refl
keep_result-progress o id a result (ok acc) s w =
    let o₁ : Scheduler = record (store o id a) { results = insert id result o.results } in
    let o₂ = record_telemetry o₁ a result in
    let r₁ = record_assignment-parts o₂ a in
    recorded-progress o₂ a (λ o'. decide o' id a result acc) w
      (decide-progress _ id a result acc s (subst Writes (sym r₁.2) w)
        ∙ ap (λ (c : Config). expected_of c (ok acc) id result) r₁.2)

collect-progress :
    (o : Scheduler) (id : String) (a : Assignment) (result : Worker.Result)
    → a.state ≡ Assignment.running
    → Writes o.config
    → progress_of (collect o id a result) ≡ expected o.config o.intake id a (Worker.returned result)
unfolding collect
collect-progress o id a result s w =
    let a₁ : Assignment = record a { state = Assignment.collecting } in
    let t = Intake.submit o.config.hash o.intake (envelope id a₁ result) in
    rw (transition_permitted a Assignment.collecting (rw s refl), collect)
      (keep_result-progress (record o { intake = t.0 }) id a₁ result t.1 refl w)

finish_with-progress :
    (o : Scheduler) (id : String) (a : Assignment) (outcome : Worker.Outcome)
    → a.state ≡ Assignment.running
    → Writes o.config
    → progress_of (finish_with o id a outcome) ≡ expected o.config o.intake id a outcome
unfolding finish_with
finish_with-progress o id a (Worker.returned result) s w = collect-progress o id a result s w
finish_with-progress o id a Worker.interrupted s w =
    let a₁ = force a Assignment.canceled in recorded-progress (store o id a₁) a₁ _ w refl
finish_with-progress o id a (Worker.broken message) s w =
    let p = fail-parts o id a in
    recorded-progress (fail o id a).0 (fail o id a).1 _ (subst Writes (sym p.2) w) refl

end_hook-kept :
    (o : Scheduler) (f : InFlight) (x : Worker.Outcome)
    → ((end_hook o f x).config ≡ o.config) × ((end_hook o f x).intake ≡ o.intake)
unfolding end_hook
end_hook-kept o f x = ground arith

-- Where the sink takes every assignment, the answer of a finished attempt is decided by the runtime's
-- outcome and the gates alone: an error of the runtime fails it, a cancellation and a result that the
-- intake refuses are errors, a result that is neither succeeded nor partial fails, and for a usable
-- result the gates say whether it succeeded, is pending or failed.
pub finish_dispatch-progress :
    (o : Scheduler) (flight : InFlight) (outcome : Worker.Outcome)
    → flight.assignment.state ≡ Assignment.running
    → Writes o.config
    → progress_of (finish_dispatch o flight outcome)
      ≡ expected o.config o.intake flight.request.work_package_id flight.assignment
          (answer_of o.config flight.request outcome)
unfolding finish_dispatch end_hook
finish_dispatch-progress o flight outcome s w =
    let x = answer_of o.config flight.request outcome in
    let o₁ = end_hook o flight x in
    let h = end_hook-kept o flight x in
    finish_with-progress o₁ flight.request.work_package_id flight.assignment x s
      (subst Writes (sym h.0) w)
    ∙ ap (λ (c : Config). expected c o₁.intake flight.request.work_package_id flight.assignment x)
        h.0
    ∙ ap
        (λ (i : Intake.Seen).
          expected o.config i flight.request.work_package_id flight.assignment x)
        h.1

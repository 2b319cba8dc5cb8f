-- ===== src/Kernel/Scheduler/System/Changes.antt =====
-- kernel/scheduler/scheduler.go: what each call changes of the graph and of the assignments.
use aa.Base.{
  inl, inr, Bool-cases, String, ◌≡◌, refl, ◌≢◌, ◌⊎◌, Bool, true, false, Option, none, some, List,
  str_eq, if◌then◌else◌, Result, ok, err, arith, not, ap, ◌∙◌, subst, if_rule, ap, ◌∙◌,
}
use aa.Base.Assoc.{lookup, insert, lookup-insert}
use aa.Runtime.Worker
use aa.Runtime.Intake
use aa.Kernel.Planner
use aa.Kernel.Assignment
use aa.Kernel.Assignment.{Assignment}
use aa.Kernel.Assignment.Machine.{same_state_iff}
use aa.Kernel.Gate
use aa.Kernel.Scheduler.{
  Scheduler, Answer, set_graph_state, set_work_package_state, record_assignment, emit,
  DispatchReport, failed, force, store, reply, run_interrupted,
}
use aa.Kernel.Scheduler.Dispatch.{
  InFlight, accept, fail, conclude, await, decide, keep_result, collect, record_telemetry, end_hook,
  finish_with, finish_dispatch, is_usable, answer_of, resolve, resolve_with, is_awaiting, envelope,
}
use aa.Kernel.Scheduler.System.Parts.{
  says_failed, says_succeeded, Stores, Change, kept, moved, closed, completed,
  set_work_package_state-parts, record_assignment-parts, reply-rule, force-id, force-state,
}

module _ (o : Scheduler) (id : String) (a : Assignment) where
  abbrev closing : Scheduler
  closing = store o id (force a Assignment.failed)

  pub fail-parts :
      ((fail o id a).0.graph ≡ set_graph_state o.graph id Planner.deficient)
      × ((fail o id a).0.assignments ≡ insert id (force a Assignment.failed) o.assignments)
      × ((fail o id a).0.config ≡ o.config)
  unfolding fail
  fail-parts = ground (arith, set_work_package_state-parts closing id Planner.deficient)

  fail-Change :
      (answer : Answer DispatchReport)
      → a.work_package_id ≡ id
      → Assignment.permits a.state Assignment.failed ≡ true
      → answer.0.graph ≡ (fail o id a).0.graph
      → answer.0.assignments ≡ (fail o id a).0.assignments
      → says_succeeded answer.1 ≡ false
      → Change o answer id
  fail-Change answer w s g l n =
      closed (force a Assignment.failed) (force-id a Assignment.failed ∙ w)
        (force-state a Assignment.failed s) (g ∙ fail-parts.0)
        (λ j.
          ap (lookup j) (l ∙ fail-parts.1)
          ∙ lookup-insert id j (force a Assignment.failed) o.assignments)
        n

  -- A failure that is then recorded, with or without an error.
  recorded_failure-Change :
      (k : Scheduler → DispatchReport)
      → a.work_package_id ≡ id
      → Assignment.permits a.state Assignment.failed ≡ true
      → ((o' : Scheduler) → (k o').status ≡ failed)
      → Change o
          (reply (record_assignment (fail o id a).0 (fail o id a).1) (λ o'. (o', ok (k o'))))
          id
  recorded_failure-Change k w s f =
      let r = record_assignment-parts (fail o id a).0 (fail o id a).1 in
      reply-rule (λ answer. Change o answer id) (record_assignment (fail o id a).0 (fail o id a).1)
        _ (λ e. fail-Change (_, err e) w s r.0 r.1 refl)
        (fail-Change (_, ok (k _)) w s r.0 r.1 (rw (f _)))

module _ (o : Scheduler) (a : Assignment) (r : Gate.Report) (acc : Bool) where
  abbrev accepting : Scheduler
  accepting =
      set_work_package_state (store o a.work_package_id (force a Assignment.accepted))
        a.work_package_id Planner.completed

  accept-parts :
      ((accept o a r acc).0.graph ≡ set_graph_state o.graph a.work_package_id Planner.completed)
      × ((accept o a r acc).0.assignments
          ≡ insert a.work_package_id (force a Assignment.accepted) o.assignments)
      × (says_failed (accept o a r acc).1 ≡ false)
  unfolding accept emit
  accept-parts = ground (
    arith,
    set_work_package_state-parts (store o a.work_package_id (force a Assignment.accepted))
        a.work_package_id Planner.completed,
    record_assignment-parts accepting (force a Assignment.accepted),
  )

  accept-Change :
      (id : String)
      → a.work_package_id ≡ id
      → a.state ≡ Assignment.awaiting_gates
      → Change o (accept o a r acc) id
  accept-Change id w s =
      subst (λ j. Change o (accept o a r acc) j) w
        (completed (force a Assignment.accepted) (force-id a Assignment.accepted)
          (force-state a Assignment.accepted (rw s refl)) accept-parts.0
          (λ j.
            ap (lookup j) accept-parts.1
            ∙ lookup-insert a.work_package_id j (force a Assignment.accepted) o.assignments)
          accept-parts.2)

module _ (o : Scheduler) (id : String) (a : Assignment) (r : Gate.Report)
    (w : a.work_package_id ≡ id) (s : a.state ≡ Assignment.awaiting_gates) where
  conclude-Change : (acc : Bool) → Change o (conclude o id a r acc) id
  unfolding conclude
  conclude-Change acc =
      if_rule (λ answer. Change o answer id) r.passed (λ e. accept-Change o a r acc id w s)
        (λ e.
          if_rule (λ answer. Change o answer id) r.pending (λ f. kept refl (λ j. refl) refl refl)
            (λ f. fail-Change o id a _ w (rw s refl) refl refl refl))

  resolve_with-Change : Change o (resolve_with o id a r) id
  unfolding resolve_with
  resolve_with-Change =
      if_rule (λ answer. Change o answer id) r.passed (λ e. accept-Change o a r true id w s)
        (λ e.
          if_rule (λ answer. Change o answer id) r.pending (λ f. kept refl (λ j. refl) refl refl)
            (λ f. recorded_failure-Change o id a _ w (rw s refl) (λ o'. refl)))

stored_twice :
    (m : List (String × Assignment)) (id j : String) (a b : Assignment) {x y : Option Assignment}
    → y ≡ (if str_eq id j then some b else x)
    → x ≡ (if str_eq id j then some a else lookup j m)
    → y ≡ (if str_eq id j then some b else lookup j m)
stored_twice m id j a b h k = ground arith

-- A change after the package's assignment was stored is a change from before.
Change-after :
    (o o₁ : Scheduler) (answer : Answer DispatchReport) (id : String) (a : Assignment)
    → a.work_package_id ≡ id
    → a.state ≢ Assignment.accepted
    → o₁.graph ≡ o.graph
    → Stores o o₁ id a
    → Change o₁ answer id
    → Change o answer id
Change-after o o₁ answer id a w n g l (kept g' l' f s) = moved a w n (g' ∙ g) (λ j. l' j ∙ l j) f s
Change-after o o₁ answer id a w n g l (moved b w' n' g' l' f s) =
    moved b w' n' (g' ∙ g) (λ j. stored_twice o.assignments id j a b (l' j) (l j)) f s
Change-after o o₁ answer id a w n g l (closed b w' e g' l' s) =
    closed b w' e (g' ∙ ap (λ h. set_graph_state h id Planner.deficient) g)
      (λ j. stored_twice o.assignments id j a b (l' j) (l j)) s
Change-after o o₁ answer id a w n g l (completed b w' e g' l' f) =
    completed b w' e (g' ∙ ap (λ h. set_graph_state h id Planner.completed) g)
      (λ j. stored_twice o.assignments id j a b (l' j) (l j)) f

pub transition_permitted :
    (a : Assignment) (s : Assignment.State)
    → Assignment.permits a.state s ≡ true
    → Assignment.transition a s ≡ ok (record a { state = s })
unfolding Assignment.transition
transition_permitted a s h = ground (arith, same_state_iff a.state s)

-- An assignment is stored and recorded, and what follows changes no other package.
keep-Change :
    (o o₁ : Scheduler) (id : String) (a : Assignment) (k : Scheduler → Answer DispatchReport)
    → a.work_package_id ≡ id
    → a.state ≢ Assignment.accepted
    → o₁.graph ≡ o.graph
    → o₁.assignments ≡ insert id a o.assignments
    → ((o' : Scheduler) → Change o' (k o') id)
    → Change o (reply (record_assignment o₁ a) k) id
keep-Change o o₁ id a k w n g l c =
    let r = record_assignment-parts o₁ a in
    let st : Stores o (record_assignment o₁ a).0 id a =
      λ j. ap (lookup j) (r.1 ∙ l) ∙ lookup-insert id j a o.assignments in
    reply-rule (λ answer. Change o answer id) (record_assignment o₁ a) k
      (λ e. moved a w n (r.0 ∙ g) st refl refl)
      (Change-after o (record_assignment o₁ a).0 (k _) id a w n (r.0 ∙ g) st (c _))

await-Change :
    (o : Scheduler) (id : String) (a : Assignment) (r : Gate.Report) (acc : Bool)
    → a.work_package_id ≡ id
    → a.state ≡ Assignment.collecting
    → Change o (await o id a r acc) id
unfolding await
await-Change o id a r acc w s =
    let a₁ : Assignment = record a { state = Assignment.awaiting_gates } in
    rw (transition_permitted a Assignment.awaiting_gates (rw s refl), await)
      (keep-Change o (store o id a₁) id a₁ (λ o'. conclude o' id a₁ r acc) w (λ e. cc) refl refl
        (λ o'. conclude-Change o' id a₁ r w refl acc))

decide-Change :
    (o : Scheduler) (id : String) (a : Assignment) (result : Worker.Result) (acc : Bool)
    → a.work_package_id ≡ id
    → a.state ≡ Assignment.collecting
    → Change o (decide o id a result acc) id
unfolding decide
decide-Change o id a result acc w s =
    if_rule (λ answer. Change o answer id) (not (is_usable result.status))
      (λ e. recorded_failure-Change o id a _ w (rw s refl) (λ o'. refl))
      (λ e. await-Change o id a _ acc w s)

keep_result-Change :
    (o : Scheduler) (id : String) (a : Assignment) (result : Worker.Result)
    (r : Result Intake.Error Bool)
    → a.work_package_id ≡ id
    → a.state ≡ Assignment.collecting
    → Change o (keep_result o id a result r) id
unfolding keep_result record_telemetry
keep_result-Change o id a result (err e) w s = kept refl (λ j. refl) refl refl
keep_result-Change o id a result (ok acc) w s =
    keep-Change o _ id a (λ o'. decide o' id a result acc) w (λ e. cc s) refl refl
      (λ o'. decide-Change o' id a result acc w s)

-- A change of a scheduler that has the same graph and assignments.
Change-same :
    (o o₁ : Scheduler) (answer : Answer DispatchReport) (id : String)
    → o₁.graph ≡ o.graph
    → o₁.assignments ≡ o.assignments
    → Change o₁ answer id
    → Change o answer id
Change-same o o₁ answer id g l (kept g' l' f s) = kept (g' ∙ g) (λ j. l' j ∙ ap (lookup j) l) f s
Change-same o o₁ answer id g l (moved b w' n' g' l' f s) =
    moved b w' n' (g' ∙ g) (λ j. l' j ∙ ap (λ m. if str_eq id j then some b else lookup j m) l) f s
Change-same o o₁ answer id g l (closed b w' e g' l' s) =
    closed b w' e (g' ∙ ap (λ h. set_graph_state h id Planner.deficient) g)
      (λ j. l' j ∙ ap (λ m. if str_eq id j then some b else lookup j m) l) s
Change-same o o₁ answer id g l (completed b w' e g' l' f) =
    completed b w' e (g' ∙ ap (λ h. set_graph_state h id Planner.completed) g)
      (λ j. l' j ∙ ap (λ m. if str_eq id j then some b else lookup j m) l) f

collect-Change :
    (o : Scheduler) (id : String) (a : Assignment) (result : Worker.Result)
    → a.work_package_id ≡ id
    → a.state ≡ Assignment.running
    → Change o (collect o id a result) id
unfolding collect
collect-Change o id a result w s =
    let a₁ : Assignment = record a { state = Assignment.collecting } in
    let t = Intake.submit o.config.hash o.intake (envelope id a₁ result) in
    let o₁ : Scheduler = record o { intake = t.0 } in
    rw (transition_permitted a Assignment.collecting (rw s refl), collect)
      (Change-same o o₁ (keep_result o₁ id a₁ result t.1) id refl refl
        (keep_result-Change o₁ id a₁ result t.1 w refl))

pub end_hook-parts :
    (o : Scheduler) (f : InFlight) (w : Worker.Outcome)
    → ((end_hook o f w).graph ≡ o.graph)
      × ((end_hook o f w).assignments ≡ o.assignments)
      × ((end_hook o f w).config ≡ o.config)
unfolding end_hook
end_hook-parts o f w = ground arith

finish_with-Change :
    (o : Scheduler) (id : String) (a : Assignment) (outcome : Worker.Outcome)
    → a.work_package_id ≡ id
    → a.state ≡ Assignment.running
    → Change o (finish_with o id a outcome) id
unfolding finish_with
finish_with-Change o id a (Worker.returned result) w s = collect-Change o id a result w s
finish_with-Change o id a Worker.interrupted w s =
    keep-Change o _ id (force a Assignment.canceled) (λ o'. (o', err run_interrupted))
      (force-id a Assignment.canceled ∙ w) (λ e. cc (force-state a Assignment.canceled (rw s refl)))
      refl refl (λ o'. kept refl (λ j. refl) refl refl)
finish_with-Change o id a (Worker.broken message) w s =
    recorded_failure-Change o id a _ w (rw s refl) (λ o'. refl)

-- Finishing an attempt changes nothing but its own package.
pub finish_dispatch-Change :
    (o : Scheduler) (flight : InFlight) (outcome : Worker.Outcome)
    → flight.assignment.work_package_id ≡ flight.request.work_package_id
    → flight.assignment.state ≡ Assignment.running
    → Change o (finish_dispatch o flight outcome) flight.request.work_package_id
unfolding finish_dispatch
finish_dispatch-Change o flight outcome w s =
    let answer = answer_of o.config flight.request outcome in
    let h = end_hook-parts o flight answer in
    Change-same o (end_hook o flight answer) _ _ h.0 h.1
      (finish_with-Change (end_hook o flight answer) _ flight.assignment answer w s)

-- Resolving changes nothing but its own package, and that only where it awaits its gates.
pub resolve-Change :
    (o : Scheduler) (id : String) (a : Assignment)
    → lookup id o.assignments ≡ some a
    → a.work_package_id ≡ id
    → a.state ≡ Assignment.awaiting_gates
    → Change o (resolve o id) id
unfolding resolve
resolve-Change o id a e w s =
    rw (e, resolve) (rw (ap is_awaiting s) (resolve_with-Change o id a _ w s))

pub resolve_elsewhere :
    (o : Scheduler) (id : String)
    → (lookup id o.assignments ≡ none)
      ⊎ ((a : Assignment) × (lookup id o.assignments ≡ some a)
          × (a.state ≢ Assignment.awaiting_gates))
    → (resolve o id).0 ≡ o
unfolding resolve
resolve_elsewhere o id h = ground arith

pub awaits_or_not :
    (x : Option Assignment)
    → ((x ≡ none) ⊎ ((a : Assignment) × (x ≡ some a) × (a.state ≢ Assignment.awaiting_gates)))
      ⊎ ((a : Assignment) × (x ≡ some a) × (a.state ≡ Assignment.awaiting_gates))
awaits_or_not none = inl (inl refl)
awaits_or_not (some a) =
    elim (Bool-cases (Assignment.same_state a.state Assignment.awaiting_gates)) [
      | inl e ↦ inr (a, refl, ground (arith, same_state_iff a.state Assignment.awaiting_gates))
      | inr e ↦
          inl (inr (a, refl, λ w. ground (arith, same_state_iff a.state Assignment.awaiting_gates)))
    ]

-- ===== src/Kernel/Scheduler/Dispatch/Finish.antt =====
-- kernel/scheduler/scheduler.go: the second half of `dispatchOne`, once the runtime has answered, and
-- `Resolve`, `Dispatch`, `Approve`, `Reject` and `accept`.
use aa.Base.{
  ℕ, String, Bool, true, false, not, Option, none, some, List, [], ◌∷◌, ◌++◌, map, keep, get_or,
  str_eq, if◌then◌else◌, Result, ok, err,
}
use aa.Base.Assoc.{lookup, insert}
use aa.Runtime.Worker
use aa.Runtime.Intake
use aa.Kernel.Planner
use aa.Kernel.Assignment
use aa.Kernel.Assignment.{Assignment}
use aa.Kernel.Gate
use aa.Kernel.Telemetry
use aa.Kernel.Scheduler.{
  Scheduler, Config, Error, unknown_assignment, not_awaiting_gates, bad_transition, bad_result,
  run_interrupted, Answer, reply, ended, note, emit, work_accepted, set_work_package_state,
  record_assignment, store, force, succeeded, pending, failed, DispatchReport, no_gates, report_of,
  subject,
}
use aa.Kernel.Scheduler.Dispatch.Begin.{InFlight, begin_dispatch, ◌<>◌}

unfoldable pub accept : Scheduler → Assignment → Gate.Report → Bool → Answer DispatchReport
accept o a report accepted =
    let a' = force a Assignment.accepted in
    let o₁ =
      set_work_package_state (store o a.work_package_id a') a.work_package_id Planner.completed in
    reply (record_assignment o₁ a') λ o₂.
      (emit o₂ (work_accepted a.work_package_id a.id), ok (report_of a' succeeded report accepted))

-- Failure through a transition that is stored, and the package's state.
unfoldable pub fail : Scheduler → String → Assignment → Scheduler × Assignment
fail o id a =
    let a' = force a Assignment.failed in
    (set_work_package_state (store o id a') id Planner.deficient, a')

abbrev pub is_usable : Worker.Status → Bool
is_usable Worker.succeeded = true
is_usable Worker.partial = true
is_usable _ = false

-- The package awaits its gates, and they were evaluated.
unfoldable pub conclude :
    Scheduler → String → Assignment → Gate.Report → Bool → Answer DispatchReport
unfolding accept fail
conclude o id a report accepted =
    if report.passed
    then accept o a report accepted
    else if report.pending
    then (o, ok (report_of a pending report accepted))
    else ((fail o id a).0, ok (report_of (fail o id a).1 failed report accepted))

-- A usable result awaits its gates.
unfoldable pub await : Scheduler → String → Assignment → Gate.Report → Bool → Answer DispatchReport
unfolding conclude
await o id a report accepted = elim (Assignment.transition a Assignment.awaiting_gates) [
  | err e ↦ (o, err (bad_transition e))
  | ok a₁ ↦ reply (record_assignment (store o id a₁) a₁) λ o₁. conclude o₁ id a₁ report accepted
]

-- From the recorded result on.
unfoldable pub decide :
    Scheduler → String → Assignment → Worker.Result → Bool → Answer DispatchReport
unfolding await
decide o id a result accepted =
    let report = Gate.evaluate o.config.gates (subject id result) in
    if not (is_usable result.status)
    then reply (record_assignment (fail o id a).0 (fail o id a).1)
        (λ o₁. (o₁, ok (report_of (fail o id a).1 failed report accepted)))
    else await o id a report accepted

abbrev pub envelope : String → Assignment → Worker.Result → Intake.Envelope
envelope id a result = record {
  id = "res_" <> a.id;
  attempt_id = "att_" <> a.id;
  assignment_id = a.id;
  work_package_id = id;
  status = result.status;
  summary = result.summary;
  tests = result.tests;
  artifacts = result.artifacts;
  failure = result.failure;
}

abbrev pub failed_tests : List Worker.TestResult → List String
failed_tests ts = map (λ t. t.name) (keep (λ t. not (str_eq t.outcome "passed")) ts)

unfoldable pub record_telemetry : Scheduler → Assignment → Worker.Result → Scheduler
record_telemetry o a result =
    let entry : Telemetry.Record = record {
      attempt_id = "att_" <> a.id;
      assignment_id = a.id;
      work_package_id = a.work_package_id;
      outcome = result.status;
      calls = 0;
      tokens = 0;
      cost_micros = 0;
      duration_ms = 0;
    } in
    record o {
      telemetry_records = o.telemetry_records ++ entry ∷ [];
      learning_candidates =
          o.learning_candidates ++ Telemetry.derive entry (failed_tests result.tests);
    }

-- The submitted result is stored and recorded.
unfoldable pub keep_result :
    Scheduler
    → String
    → Assignment
    → Worker.Result
    → Result Intake.Error Bool
    → Answer DispatchReport
unfolding decide record_telemetry
keep_result o id a result (err e) = (o, err (bad_result e))
keep_result o id a result (ok accepted) =
    let o₁ = store o id a in
    let o₂ : Scheduler = record o₁ { results = insert id result o₁.results } in
    reply (record_assignment (record_telemetry o₂ a result) a) λ o₃. decide o₃ id a result accepted

unfoldable pub collect : Scheduler → String → Assignment → Worker.Result → Answer DispatchReport
unfolding keep_result
collect o id a result = elim (Assignment.transition a Assignment.collecting) [
  | err e ↦ (o, err (bad_transition e))
  | ok a₁ ↦
      (let (seen, submitted) = Intake.submit o.config.hash o.intake (envelope id a₁ result) in
        keep_result (record o { intake = seen }) id a₁ result submitted)
]

-- `o.cfg.Lifecycle.End`, if there are hooks.
unfoldable pub end_hook : Scheduler → InFlight → Worker.Outcome → Scheduler
end_hook o flight outcome = elim o.config.lifecycle [
  | none ↦ o
  | some begin ↦ note o (ended flight.instance_id outcome)
]

unfoldable pub finish_with :
    Scheduler → String → Assignment → Worker.Outcome → Answer DispatchReport
unfolding collect
finish_with o id a (Worker.returned result) = collect o id a result
finish_with o id a Worker.interrupted =
    let a₁ = force a Assignment.canceled in
    reply (record_assignment (store o id a₁) a₁) λ o₁. (o₁, err run_interrupted)
finish_with o id a (Worker.broken message) =
    reply (record_assignment (fail o id a).0 (fail o id a).1)
      λ o₁. (o₁, ok (report_of (fail o id a).1 failed no_gates false))

-- An execution that is not enabled is answered by `worker.Disabled`.
abbrev pub answer_of : Config → Worker.Request → Worker.Outcome → Worker.Outcome
answer_of config request outcome = if config.enabled then outcome else Worker.disabled_run request

unfoldable pub finish_dispatch : Scheduler → InFlight → Worker.Outcome → Answer DispatchReport
unfolding finish_with end_hook
finish_dispatch o flight outcome =
    let answer = answer_of o.config flight.request outcome in
    finish_with (end_hook o flight answer) flight.request.work_package_id flight.assignment answer

abbrev pub no_result : Worker.Result
no_result = record {
  status = Worker.other "";
  summary = "";
  tests = [];
  artifacts = [];
  failure = none;
}

abbrev pub is_awaiting : Assignment.State → Bool
is_awaiting Assignment.awaiting_gates = true
is_awaiting _ = false

-- A gate that fails here is recorded, unlike in `conclude`.
unfoldable pub resolve_with : Scheduler → String → Assignment → Gate.Report → Answer DispatchReport
unfolding accept fail
resolve_with o id a report =
    if report.passed
    then accept o a report true
    else if report.pending
    then (o, ok (report_of a pending report false))
    else reply (record_assignment (fail o id a).0 (fail o id a).1)
        (λ o₁. (o₁, ok (report_of (fail o id a).1 failed report false)))

unfoldable pub resolve : Scheduler → String → Answer DispatchReport
unfolding resolve_with
resolve o id = elim (lookup id o.assignments) [
  | none ↦ (o, err (unknown_assignment id))
  | some a ↦
      (if not (is_awaiting a.state)
        then (o, err (not_awaiting_gates id))
        else resolve_with o id a
            (Gate.evaluate o.config.gates (subject id (get_or (lookup id o.results) no_result))))
]

-- `Dispatch`, where nothing comes between: the first ready package is begun and finished.
unfoldable pub dispatch :
    Scheduler
    → ℕ
    → (Worker.Request → Worker.Outcome)
    → Scheduler × Option (Result Error DispatchReport)
unfolding begin_dispatch finish_dispatch
dispatch o now runtime = elim (Planner.ready_ids o.graph) [
  | [] ↦ (o, none)
  | id ∷ rest ↦
      (let (o₁, begun) = begin_dispatch o id now in
        elim begun [
          | err e ↦ (o₁, some (err e))
          | ok flight ↦
              (let (o₂, answer) = finish_dispatch o₁ flight (runtime flight.request) in
                (o₂, some answer))
        ])
]

abbrev pub approve_gate : String → Gate.Gate → Gate.Gate
approve_gate id (Gate.human_gate g) = Gate.human_gate (Gate.approve_human g id)
approve_gate id g = g

abbrev pub reject_gate : String → String → Gate.Gate → Gate.Gate
reject_gate id reason (Gate.human_gate g) = Gate.human_gate (Gate.reject_human g id reason)
reject_gate id reason g = g

-- `Approve` and `Reject` reach every gate that takes them.
unfoldable pub approve : Scheduler → String → Scheduler
approve o id = record o {
  config = record o.config { gates = map (approve_gate id) o.config.gates };
}

unfoldable pub reject : Scheduler → String → String → Scheduler
reject o id reason = record o {
  config = record o.config { gates = map (reject_gate id reason) o.config.gates };
}

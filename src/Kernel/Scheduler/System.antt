-- ===== src/Kernel/Scheduler/System.antt =====
-- kernel/scheduler/run.go: one scheduler whose attempts run side by side. `Run` starts a goroutine for
-- each package of a batch and reads their outcomes from a channel; here each lock-protected part is a
-- move, and any sequence of moves is an interleaving.
pub mod Parts
pub mod Changes
pub mod Begins
pub mod Core
pub mod Invariant
pub mod Reads
pub mod Batch
pub mod Moves
pub mod Interleavings
pub mod Safety
pub mod Bounds
pub mod Retries
use aa.Base.{
  ℕ, ◌+◌, suc, String, Bool, true, false, not, ◌&&◌, ◌||◌, Option, none, some, List, [], ◌∷◌, ◌++◌,
  map, elem, take, is_empty, get_or, ltb, is_some, if◌then◌else◌, Result, ok, err,
}
use aa.Base.Assoc.{lookup, insert}
use aa.Base.Picks.{pick}
use aa.Runtime.Worker
use aa.Kernel.Planner
use aa.Kernel.Scheduler.{
  Scheduler, Error, Answer, Progress, succeeded, pending, failed, DispatchReport, set_graph_state,
}
use aa.Kernel.Scheduler.Dispatch.{
  InFlight, begin_dispatch, finish_dispatch, resolve, approve, reject,
}

pub record RunReport : Type 0 where
  pub dispatched : ℕ
  pub accepted : ℕ
  pub failed : ℕ
  pub pending : ℕ
  pub attempts : List (String × ℕ)

abbrev pub empty_report : RunReport
empty_report = record { dispatched = 0; accepted = 0; failed = 0; pending = 0; attempts = [] }

-- The scheduler; the goroutines of the batch that have not entered `dispatchOne` yet, the attempts that
-- are with the runtime, and the channel of outcomes; the report, and whether an error has come up,
-- which is the answer of `Run` once it is read.
pub record System : Type 0 where
  pub scheduler : Scheduler
  pub batch : List String
  pub flights : List InFlight
  pub outcomes : List (String × DispatchReport)
  pub report : RunReport
  pub ended : Bool

-- `resetForRetry`; the boolean says whether the package was returned to the ready state.
unfoldable pub reset_for_retry : Scheduler → String → Scheduler × Bool
reset_for_retry o id =
    if not (is_some (lookup id o.assignments))
    then (o, false)
    else elim (Planner.set_state o.graph id Planner.ready) [
      | err e ↦ (o, false)
      | ok g ↦ (record o { graph = g }, true)
    ]

-- `MaxAttempts` of zero or one is one.
abbrev pub at_least_one : ℕ → ℕ
at_least_one n = if ltb n 1 then 1 else n

-- The report once an outcome of the package has been read.
abbrev pub counted : RunReport → String → RunReport
counted r id = record r {
  dispatched = r.dispatched + 1;
  attempts = insert id (get_or (lookup id r.attempts) 0 + 1) r.attempts;
}

abbrev pub may_retry : ℕ → RunReport → String → Bool
may_retry max_attempts r id = ltb (get_or (lookup id r.attempts) 0) (at_least_one max_attempts)

abbrev pub count_failure : RunReport → RunReport
count_failure r = record r { failed = r.failed + 1 }

-- The case of the loop over the outcomes that fails: a retry, or a failure that is counted. The
-- state is reset only where another attempt is left.
unfoldable pub tally_failure : ℕ → Scheduler → RunReport → String → Scheduler × RunReport
unfolding reset_for_retry
tally_failure max_attempts o r id =
    if may_retry max_attempts r id && (reset_for_retry o id).1
    then ((reset_for_retry o id).0, r)
    else (o, count_failure r)

-- The switch on the status, once the outcome is counted.
unfoldable pub tally_as : ℕ → Scheduler → RunReport → String → Progress → Scheduler × RunReport
unfolding tally_failure
tally_as max_attempts o r id succeeded = (o, record r { accepted = r.accepted + 1 })
tally_as max_attempts o r id failed = tally_failure max_attempts o r id
tally_as max_attempts o r id pending = (o, record r { pending = r.pending + 1 })

-- The body of the loop over the outcomes.
unfoldable pub tally : ℕ → Scheduler → RunReport → String → DispatchReport → Scheduler × RunReport
unfolding tally_as
tally max_attempts o r id d = tally_as max_attempts o (counted r id) id d.status

-- `takes`: the loop of `Run` takes a batch of at most so many ready packages; `begins`: the n-th of the
-- goroutines that wait enters `dispatchOne`; `finishes`: the runtime has answered the n-th attempt;
-- `reads`: the loop of `Run` takes the n-th outcome. The others are callers beside `Run`.
pub data Move : Type 0 where
  takes : ℕ → Move
  begins : ℕ → ℕ → Move
  finishes : ℕ → Worker.Outcome → Move
  reads : ℕ → Move
  resolves : String → Move
  approves : String → Move
  rejects : String → String → Move

abbrev pub id_of : InFlight → String
id_of f = f.request.work_package_id

abbrev pub begun : System → Answer InFlight → System
begun s (o, ok flight) = record s { scheduler = o; flights = flight ∷ s.flights }
begun s (o, err e) = record s { scheduler = o; ended = true }

-- An error ends `Run`, with no outcome to count.
abbrev pub finished : System → List InFlight → String → Answer DispatchReport → System
finished s rest id (o, ok d) = record s {
  scheduler = o;
  flights = rest;
  outcomes = (id, d) ∷ s.outcomes;
}
finished s rest id (o, err e) = record s { scheduler = o; flights = rest; ended = true }

unfoldable pub finish_flight : System → Worker.Outcome → Option (InFlight × List InFlight) → System
finish_flight s outcome none = s
finish_flight s outcome (some (flight, rest)) =
    finished s rest (id_of flight) (finish_dispatch s.scheduler flight outcome)

unfoldable pub read_outcome :
    ℕ → System → Option ((String × DispatchReport) × List (String × DispatchReport)) → System
unfolding tally
read_outcome max_attempts s none = s
read_outcome max_attempts s (some ((id, d), rest)) =
    let t = tally max_attempts s.scheduler s.report id d in
    record s { scheduler = t.0; report = t.1; outcomes = rest }

-- Every goroutine of the batch has sent its outcome, and all are read.
abbrev pub is_idle : System → Bool
is_idle s = is_empty s.batch && is_empty s.flights && is_empty s.outcomes

unfoldable pub take_batch : ℕ → System → System
take_batch concurrency s =
    if is_idle s && not s.ended
    then record s { batch = take (at_least_one concurrency) (Planner.ready_ids s.scheduler.graph) }
    else s

unfoldable pub begin_picked : System → ℕ → Option (String × List String) → System
begin_picked s now none = s
begin_picked s now (some (id, rest)) =
    begun (record s { batch = rest }) (begin_dispatch s.scheduler id now)

unfoldable pub step : ℕ → System → Move → System
unfolding finish_flight read_outcome take_batch begin_picked
step max_attempts s (takes concurrency) = take_batch concurrency s
step max_attempts s (begins n now) = begin_picked s now (pick n s.batch)
step max_attempts s (finishes n outcome) = finish_flight s outcome (pick n s.flights)
step max_attempts s (reads n) = read_outcome max_attempts s (pick n s.outcomes)
step max_attempts s (resolves id) = record s { scheduler = (resolve s.scheduler id).0 }
step max_attempts s (approves id) = record s { scheduler = approve s.scheduler id }
step max_attempts s (rejects id reason) = record s { scheduler = reject s.scheduler id reason }

unfoldable pub run : ℕ → System → List Move → System
unfolding step
run max_attempts s [] = s
run max_attempts s (m ∷ ms) = run max_attempts (step max_attempts s m) ms

abbrev pub system_of : Scheduler → System
system_of o = record {
  scheduler = o;
  batch = [];
  flights = [];
  outcomes = [];
  report = empty_report;
  ended = false;
}

-- ===== src/Runtime/Lifecycle.antt =====
-- runtime/lifecycle/lifecycle.go: worker instances, their states and the log of their transitions.
pub mod Frames
pub mod Running
pub mod Ends
use Prim.Native.String.{◌++◌ as ◌<>◌}
use aa.Base.{
  ℕ, zero, suc, ◌+◌, ◌-◌, String, Bool, true, false, Option, none, some, List, [], ◌∷◌, ◌++◌,
  length, drop, str_eq, str_lt, ltb, ◌==◌, is_some, if◌then◌else◌, decimal, map,
}
use aa.Base.Assoc.{lookup, insert, delete, values}
use aa.Base.Sort.{sort_by}
use aa.Runtime.Worker.{Request, Result, Outcome, Status, returned, interrupted, broken, other}

pub data State : Type 0 where
  created starting running stopping stopped terminated failed : State

-- `Terminal`
abbrev pub is_terminal : State → Bool
is_terminal stopped = true
is_terminal terminated = true
is_terminal failed = true
is_terminal state = false

pub record Event : Type 0 where
  pub worker_id : String
  pub assignment_id : String
  pub work_package_id : String
  pub state : State
  pub at : ℕ
  pub reason : String

-- `record`, of which a snapshot is a copy. A time is 0 where it is not set.
pub record Instance : Type 0 where
  pub id : String
  pub selected_worker : String
  pub assignment_id : String
  pub work_package_id : String
  pub capabilities : List String
  pub state : State
  pub created_at : ℕ
  pub ended_at : ℕ
  pub status : Status
  pub summary : String
  pub error : String

-- `control`, less the cancellation, which reaches the adapter.
pub record Control : Type 0 where
  pub stopped : Bool
  pub terminated : Bool

-- `Manager`. A run and the map of the active workers share a control: it stands in a store, and
-- `active` has its place there. The sink is not part of it.
pub record Manager : Type 0 where
  pub retain : ℕ
  pub seq : ℕ
  pub workers : List (String × Instance)
  pub active : List (String × ℕ)
  pub controls : ℕ → Control
  pub next_control : ℕ
  pub events : List Event

abbrev pub unsignalled : Control
unsignalled = record { stopped = false; terminated = false }

-- `New`; a bound of zero or less is 1024.
unfoldable pub new : ℕ → Manager
new retain = record {
  retain = if retain == 0 then 1024 else retain;
  seq = 0;
  workers = [];
  active = [];
  controls = λ n. unsignalled;
  next_control = 0;
  events = [];
}

-- The last elements of a log that may have grown past its bound.
unfoldable pub trimmed : ℕ → List Event → List Event
trimmed retain events =
    if ltb retain (length events) then drop (length events - retain) events else events

abbrev pub event_of : Instance → State → ℕ → String → Event
event_of r state now reason = record {
  worker_id = r.id;
  assignment_id = r.assignment_id;
  work_package_id = r.work_package_id;
  state = state;
  at = now;
  reason = reason;
}

-- `transition` as far as it holds the lock, with the record that was found; it gives the event to the
-- sink after that.
unfoldable pub transition_found : Manager → String → Option Instance → State → ℕ → String → Manager
unfolding trimmed
transition_found m id none state now reason = m
transition_found m id (some r) state now reason = record m {
  workers = insert id (record r { state = state }) m.workers;
  events = trimmed m.retain (m.events ++ event_of r state now reason ∷ []);
}

unfoldable pub transition : Manager → String → State → ℕ → String → Manager
unfolding transition_found
transition m id state now reason = transition_found m id (lookup id m.workers) state now reason

-- The result and the error that an adapter returns.
abbrev pub status_of : Outcome → Status
status_of (returned r) = r.status
status_of interrupted = other ""
status_of (broken e) = other ""

abbrev pub summary_of : Outcome → String
summary_of (returned r) = r.summary
summary_of interrupted = ""
summary_of (broken e) = ""

abbrev pub error_of : Outcome → String → String
error_of (returned r) old = old
error_of interrupted old = "context canceled"
error_of (broken e) old = e

-- `finish`, with the record that was found.
unfoldable pub finish_found : Manager → String → Option Instance → Outcome → ℕ → Manager
finish_found m id none outcome now = m
finish_found m id (some r) outcome now = record m {
  workers =
      insert id
        (record r {
          status = status_of outcome;
          summary = summary_of outcome;
          error = error_of outcome r.error;
          ended_at = now;
        })
        m.workers;
}

unfoldable pub finish : Manager → String → Outcome → ℕ → Manager
unfolding finish_found
finish m id outcome now = finish_found m id (lookup id m.workers) outcome now

-- `nextIDLocked`
abbrev pub next_id : Manager → String → String
next_id m assignment_id =
    if str_eq assignment_id "" then "wrk_" <> decimal (m.seq + 1) else "wrk_" <> assignment_id

abbrev pub next_seq : Manager → String → ℕ
next_seq m assignment_id = if str_eq assignment_id "" then m.seq + 1 else m.seq

abbrev pub instance_of : String → String → String → String → List String → ℕ → Instance
instance_of id selected assignment work_package capabilities now = record {
  id = id;
  selected_worker = selected;
  assignment_id = assignment;
  work_package_id = work_package;
  capabilities = capabilities;
  state = created;
  created_at = now;
  ended_at = 0;
  status = other "";
  summary = "";
  error = "";
}

abbrev pub started : Manager → String → ℕ → Manager
started m id now = transition (transition m id starting now "") id running now ""

-- The instance and its control are registered.
abbrev pub with_run : Manager → Request → ℕ → Manager
with_run m req now =
    let id = next_id m req.assignment_id in
    record m {
      seq = next_seq m req.assignment_id;
      workers =
          insert id (instance_of id "" req.assignment_id req.work_package_id req.capabilities now)
            m.workers;
      active = insert id m.next_control m.active;
      controls = λ n. if m.next_control == n then unsignalled else m.controls n;
      next_control = m.next_control + 1;
    }

-- `Run` up to the call of the adapter: the id and the place of the control.
unfoldable pub begin_run : Manager → Request → ℕ → Manager × String × ℕ
unfolding transition
begin_run m req now =
    let id = next_id m req.assignment_id in
    (started (with_run m req now) id now, id, m.next_control)

-- The switch of `Run` over the signals and the error.
abbrev pub by_outcome : Outcome → State × String
by_outcome (returned r) = (stopped, "completed")
by_outcome interrupted = (stopped, "canceled")
by_outcome (broken e) = (failed, e)

abbrev pub final_state : Control → Outcome → State × String
final_state c outcome =
    if c.terminated
    then (terminated, "terminated")
    else if c.stopped
    then (stopped, "stopped")
    else by_outcome outcome

abbrev pub ended : Manager → String → Outcome → State × String → ℕ → Manager
ended m id outcome (state, reason) now =
    transition (transition (finish m id outcome now) id stopping now reason) id state now reason

-- `Run` from the adapter's return on.
unfoldable pub end_run : Manager → String → ℕ → Outcome → ℕ → Manager
unfolding finish transition
end_run m id place outcome now =
    ended (record m { active = delete id m.active }) id outcome
      (final_state (m.controls place) outcome) now

abbrev pub signalled : Bool → Control → Control
signalled terminate c =
    if terminate then record c { terminated = true } else record c { stopped = true }

-- `signal`, with the control that was found.
unfoldable pub signal_found : Manager → Bool → Option ℕ → Manager × Bool
signal_found m terminate none = (m, false)
signal_found m terminate (some place) = (
  record m {
    controls = λ n. if place == n then signalled terminate (m.controls n) else m.controls n;
  },
  true,
)

-- `Stop` and `Terminate`
unfoldable pub signal : Manager → String → Bool → Manager × Bool
unfolding signal_found
signal m id terminate = signal_found m terminate (lookup id m.active)

-- `Workers`
unfoldable pub list_workers : Manager → List Instance
list_workers m = sort_by (λ (a b : Instance). str_lt a.id b.id) (values m.workers)

abbrev pub is_active : Manager → String → Bool
is_active m id = is_some (lookup id m.active)

abbrev pub with_hook : Manager → String → String → String → List String → ℕ → Manager
with_hook m assignment_id work_package_id worker_id capabilities now =
    let id = next_id m assignment_id in
    record m {
      seq = next_seq m assignment_id;
      workers =
          insert id (instance_of id worker_id assignment_id work_package_id capabilities now)
            m.workers;
    }

-- `Begin`
unfoldable pub begin_hook : Manager → String → String → String → List String → ℕ → Manager × String
unfolding transition
begin_hook m assignment_id work_package_id worker_id capabilities now =
    let id = next_id m assignment_id in
    (started (with_hook m assignment_id work_package_id worker_id capabilities now) id now, id)

-- `End`
unfoldable pub end_hook : Manager → String → Outcome → ℕ → Manager
unfolding finish transition
end_hook m id outcome now = ended m id outcome (by_outcome outcome) now

-- One of the calls that may come at any time.
pub data Call : Type 0 where
  begins : Request → ℕ → Call
  ends : String → ℕ → Outcome → ℕ → Call
  signals : String → Bool → Call
  hook_begins : String → String → String → List String → ℕ → Call
  hook_ends : String → Outcome → ℕ → Call

unfoldable pub call : Manager → Call → Manager
call m (begins req now) = (begin_run m req now).0
call m (ends id place outcome now) = end_run m id place outcome now
call m (signals id terminate) = (signal m id terminate).0
call m (hook_begins a w k cs now) = (begin_hook m a w k cs now).0
call m (hook_ends id outcome now) = end_hook m id outcome now

unfoldable pub calls : Manager → List Call → Manager
unfolding call
calls m [] = m
calls m (c ∷ cs) = calls (call m c) cs

-- ===== src/Kernel/Assignment.antt =====
-- kernel/scheduler/assignment.go: the state machine and the lease of an assignment.
-- A `time.Time` is a number of nanoseconds since the zero time, so that `IsZero` is `== 0`; a
-- duration that is not positive is 0.
pub mod Machine
use aa.Base.{
  ℕ, ◌+◌, suc, String, Bool, true, false, not, ◌&&◌, ◌||◌, str_eq, leb, if◌then◌else◌, Result, ok,
  err, ◌>>=◌, ◌>>◌, fail_if,
}

-- The constants of `type State string`, and any other text.
pub data State : Type 0 where
  planned leased preparing running paused collecting awaiting_gates accepted failed canceled
        expired :
      State
  other : String → State

-- `a == b` on two states.
abbrev pub same_state : State → State → Bool
same_state planned planned = true
same_state leased leased = true
same_state preparing preparing = true
same_state running running = true
same_state paused paused = true
same_state collecting collecting = true
same_state awaiting_gates awaiting_gates = true
same_state accepted accepted = true
same_state failed failed = true
same_state canceled canceled = true
same_state expired expired = true
same_state (other a) (other b) = str_eq a b
same_state _ _ = false

-- `transitions[from][to]`; a key that is not there gives false.
abbrev pub permits : State → State → Bool
permits planned leased = true
permits planned canceled = true
permits leased preparing = true
permits leased expired = true
permits leased canceled = true
permits preparing running = true
permits preparing failed = true
permits preparing expired = true
permits preparing canceled = true
permits running paused = true
permits running collecting = true
permits running failed = true
permits running canceled = true
permits paused running = true
permits paused failed = true
permits paused canceled = true
permits collecting awaiting_gates = true
permits collecting failed = true
permits awaiting_gates accepted = true
permits awaiting_gates failed = true
permits failed planned = true
permits expired planned = true
permits _ _ = false

pub record Lease : Type 0 where
  pub owner : String
  pub expires_at : ℕ

abbrev pub no_lease : Lease
no_lease = record { owner = ""; expires_at = 0 }

pub record Assignment : Type 0 where
  pub id : String
  pub project_id : String
  pub work_package_id : String
  pub worker_id : String
  pub state : State
  pub lease : Lease
  pub attempt : ℕ

-- `ErrInvalidTransition`, with the two states that the message names.
pub data Error : Type 0 where
  invalid_transition : State → State → Error
  cannot_retry : State → Error

unfoldable pub is_expired : Lease → ℕ → Bool
is_expired l now = leb l.expires_at now

unfoldable pub new_assignment : String → String → String → String → Assignment
new_assignment id project_id work_package_id worker_id = record {
  id = id;
  project_id = project_id;
  work_package_id = work_package_id;
  worker_id = worker_id;
  state = planned;
  lease = no_lease;
  attempt = 0;
}

unfoldable pub transition : Assignment → State → Result Error Assignment
transition a to =
    if same_state a.state to
    then ok a
    else if not (permits a.state to)
    then err (invalid_transition a.state to)
    else ok (record a { state = to })

unfoldable pub can_transition : Assignment → State → Bool
can_transition a to = same_state a.state to || permits a.state to

unfoldable pub lease_for : Assignment → String → ℕ → ℕ → Assignment
lease_for a owner now ttl = record a { lease = record { owner = owner; expires_at = now + ttl } }

abbrev is_leased_or_preparing : State → Bool
is_leased_or_preparing leased = true
is_leased_or_preparing preparing = true
is_leased_or_preparing _ = false

unfoldable pub expire : Assignment → ℕ → Result Error Assignment
unfolding is_expired transition
expire a now =
    if not (is_leased_or_preparing a.state)
    then ok a
    else if not (is_expired a.lease now)
    then ok a
    else transition a expired

abbrev is_retryable : State → Bool
is_retryable expired = true
is_retryable failed = true
is_retryable _ = false

unfoldable pub retry : Assignment → Result Error Assignment
unfolding transition
retry a = do
  fail_if (not (is_retryable a.state)) (cannot_retry a.state)
  a' ← transition a planned
  ok (record a' { attempt = a'.attempt + 1; lease = no_lease })

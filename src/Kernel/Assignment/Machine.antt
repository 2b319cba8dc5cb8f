-- ===== src/Kernel/Assignment/Machine.antt =====
-- kernel/scheduler/assignment.go: what holds of an assignment over every history of calls.
use aa.Base.{
  ℕ, ◌+◌, ◌≤◌, ◌<◌, String, ◌≡◌, refl, ◌≢◌, ◌⊎◌, Bool, true, false, eq_iff, List, [], ◌∷◌, any,
  Result, ok, err, arith, if◌then◌else◌,
}
use aa.Kernel.Assignment.{
  State, planned, leased, preparing, collecting, awaiting_gates, accepted, failed, canceled,
  expired, other, same_state, no_lease, Assignment, Error, invalid_transition, cannot_retry,
  new_assignment, transition, can_transition, lease_for, expire, retry, is_expired,
}

-- The `other` states are told apart by their texts.
pub same_state_iff : (s t : State) → same_state s t ≡ true → s ≡ t
same_state_iff (other a) (other b) h = ground (arith, eq_iff a b)
same_state_iff planned t h = ground arith
same_state_iff _ t h = ground arith

-- `Transition` succeeds exactly where `CanTransition` says so; then it sets the state and nothing
-- else, and otherwise it names the two states.
pub transition_lem :
    (a : Assignment) (to : State)
    → transition a to ≡ (
        if can_transition a to
        then ok (record a { state = to })
        else err (invalid_transition a.state to))
unfolding transition can_transition
transition_lem a to = ground (arith, same_state_iff a.state to)

-- One call of a method that changes an assignment.
pub data Call : Type 0 where
  moves : State → Call
  leases : String → ℕ → ℕ → Call
  expires : ℕ → Call
  retries : Call

-- A call that fails leaves the assignment as it was.
abbrev pub settle : Assignment → Result Error Assignment → Assignment
settle a (ok b) = b
settle a (err e) = a

unfoldable pub call : Assignment → Call → Assignment
call a (moves to) = settle a (transition a to)
call a (leases owner now ttl) = lease_for a owner now ttl
call a (expires now) = settle a (expire a now)
call a retries = settle a (retry a)

unfoldable pub calls : Assignment → List Call → Assignment
unfolding call
calls a [] = a
calls a (c ∷ cs) = calls (call a c) cs

abbrev pub IsFinal : State → Type 0
IsFinal s = (s ≡ accepted) ⊎ (s ≡ canceled)

call-final : (a : Assignment) (c : Call) → IsFinal a.state → (call a c).state ≡ a.state
unfolding call transition lease_for expire retry
call-final a (moves to) h = ground (arith, same_state_iff a.state to)
call-final a (leases owner now ttl) h = refl
call-final a (expires now) h = ground arith
call-final a retries h = ground arith

-- An accepted or canceled assignment keeps its state whatever is called afterwards.
pub calls-final : (a : Assignment) (cs : List Call) → IsFinal a.state → (calls a cs).state ≡ a.state
unfolding calls
calls-final a [] h = refl
calls-final a (c ∷ cs) h = ground (arith, call-final a c h, calls-final (call a c) cs)

-- Before the gates: the states from which acceptance is more than one transition away.
abbrev pub is_before_gates : State → Bool
is_before_gates accepted = false
is_before_gates awaiting_gates = false
is_before_gates _ = true

abbrev pub is_gates_call : Call → Bool
is_gates_call (moves awaiting_gates) = true
is_gates_call _ = false

abbrev pub is_collecting_call : Call → Bool
is_collecting_call (moves collecting) = true
is_collecting_call _ = false

call-before_gates :
    (a : Assignment) (c : Call)
    → is_before_gates a.state ≡ true
    → (is_gates_call c ≡ true) ⊎ (is_before_gates (call a c).state ≡ true)
unfolding call transition lease_for expire retry
call-before_gates a (moves to) h = ground arith
call-before_gates a (leases owner now ttl) h = ground arith
call-before_gates a (expires now) h = ground arith
call-before_gates a retries h = ground arith

calls-before_gates :
    (a : Assignment) (cs : List Call)
    → is_before_gates a.state ≡ true
    → (calls a cs).state ≡ accepted
    → any is_gates_call cs ≡ true
unfolding calls
calls-before_gates a [] h e = ground arith
calls-before_gates a (c ∷ cs) h e =
    ground (arith, call-before_gates a c h, calls-before_gates (call a c) cs)

-- A new assignment is accepted only after it was moved to awaiting_gates: no history of calls
-- accepts work past the gates.
pub accepted_needs_gates :
    (id p w k : String) (cs : List Call)
    → (calls (new_assignment id p w k) cs).state ≡ accepted
    → any is_gates_call cs ≡ true
unfolding new_assignment
accepted_needs_gates id p w k cs e = calls-before_gates _ cs refl e

-- The lease of an assignment in the state leased or preparing decides what `Expire` does, and in
-- every other state it does nothing; it never fails.
pub expire_lem :
    (a : Assignment) (now : ℕ)
    → (((a.state ≡ leased) ⊎ (a.state ≡ preparing))
        × (a.lease.expires_at ≤ now)
        × (expire a now ≡ ok (record a { state = expired })))
      ⊎ ((expire a now ≡ ok a)
          × ((a.state ≢ leased) × (a.state ≢ preparing) ⊎ (now < a.lease.expires_at)))
unfolding expire transition is_expired
expire_lem a now = ground arith

-- `Retry` succeeds from expired and failed alone; it starts the next attempt with no lease.
pub retry_iff :
    (a : Assignment)
    → (((a.state ≡ expired) ⊎ (a.state ≡ failed))
        × (retry a ≡ ok (record a { state = planned; attempt = a.attempt + 1; lease = no_lease })))
      ⊎ ((a.state ≢ expired) × (a.state ≢ failed) × (retry a ≡ err (cannot_retry a.state)))
unfolding retry transition
retry_iff a = ground arith

call-attempt-le : (a : Assignment) (c : Call) → a.attempt ≤ (call a c).attempt
unfolding call transition lease_for expire retry
call-attempt-le a (moves to) = ground arith
call-attempt-le a (leases owner now ttl) = ground arith
call-attempt-le a (expires now) = ground arith
call-attempt-le a retries = ground arith

-- No history of calls lowers the attempt counter.
pub calls-attempt-le : (a : Assignment) (cs : List Call) → a.attempt ≤ (calls a cs).attempt
unfolding calls
calls-attempt-le a [] = omega arith
calls-attempt-le a (c ∷ cs) = omega (arith, call-attempt-le a c, calls-attempt-le (call a c) cs)

-- ===== src/Runtime/Lifecycle/Ends.antt =====
-- runtime/lifecycle/lifecycle.go: how a run ends, whatever is called while its adapter works.
use aa.Base.{
  any, Bool, ℕ, String, true, false, some, List, ◌≡◌, refl, ap, ◌∙◌, str_eq, eq_iff, eq_refl,
  is_some, ◌==◌, if◌then◌else◌, if_rule, Option-cases, inl, inr, arith, subst,
}
use aa.Base.Assoc.{lookup, delete, lookup-insert, lookup-delete}
use aa.Runtime.Worker.{Request, Outcome, returned, interrupted, broken}
use aa.Runtime.Lifecycle.{
  terminated, failed, stopped, Manager, Instance, State, Call, Control, new, transition_found,
  transition, finish, finish_found, begin_run, end_run, ended, unsignalled, calls, final_state,
  is_terminal, is_active, next_id, with_run, stopping, status_of, summary_of, error_of,
}
use aa.Runtime.Lifecycle.Frames.{ended-Frame, started-Frame, Below, calls-Below}
use aa.Runtime.Lifecycle.Running.{
  is_signal, Running, Frame-Running, all_leave_alone, heard_all, calls-Running,
}

begin_run-Running :
    (m : Manager) (req : Request) (now : ℕ)
    → Below m
    → Running (begin_run m req now).0 (begin_run m req now).1 (begin_run m req now).2 unsignalled
unfolding begin_run
begin_run-Running m req now b =
    let id = next_id m req.assignment_id in
    Frame-Running (with_run m req now) _ id m.next_control unsignalled
      (started-Frame (with_run m req now) id now)
      (record {
        here = lookup-insert id id m.next_control m.active ∙ ground (arith, eq_refl id);
        control =
            if_rule (λ x. x ≡ unsignalled) (m.next_control == m.next_control) (λ _. refl)
              (λ e. absurd (ground (arith, e)));
        made = omega arith;
        only = λ j e. new_only j (rw (lookup-insert id j m.next_control m.active) at e);
        known = ap is_some (lookup-insert id id _ m.workers) ∙ ground (arith, eq_refl id);
      })
  where
    new_only :
        (j : String)
        → (if str_eq (next_id m req.assignment_id) j
            then some m.next_control
            else lookup j m.active)
          ≡ some m.next_control
        → j ≡ next_id m req.assignment_id
    new_only j e = ground (arith, e, eq_iff (next_id m req.assignment_id) j, b j m.next_control)

transition_at :
    (m : Manager) (id : String) (state : State) (now : ℕ) (reason : String) {r : Instance}
    → lookup id m.workers ≡ some r
    → lookup id (transition m id state now reason).workers ≡ some (record r { state = state })
unfolding transition transition_found
transition_at m id state now reason {r} e =
    rw (e, transition_found)
      (lookup-insert id id (record r { state = state }) m.workers ∙ ground (arith, eq_refl id))

finish_at :
    (m : Manager) (id : String) (outcome : Outcome) (now : ℕ) {r : Instance}
    → lookup id m.workers ≡ some r
    → (r' : Instance) × (lookup id (finish m id outcome now).workers ≡ some r')
      × (r'.ended_at ≡ now)
unfolding finish finish_found
finish_at m id outcome now {r} e =
    let r' : Instance = record r {
      status = status_of outcome;
      summary = summary_of outcome;
      error = error_of outcome r.error;
      ended_at = now;
    } in
    (r', rw (e, finish_found) (lookup-insert id id r' m.workers ∙ ground (arith, eq_refl id)), refl)

ended_at_lem :
    (m : Manager) (id : String) (outcome : Outcome) (x : State × String) (now : ℕ)
    → is_some (lookup id m.workers) ≡ true
    → (r : Instance) × (lookup id (ended m id outcome x now).workers ≡ some r)
      × (r.state ≡ x.0)
      × (r.ended_at ≡ now)
ended_at_lem m id outcome x now k = elim (Option-cases (lookup id m.workers)) [
  | inl e ↦ absurd (ground (arith, e, k))
  | inr (r, e) ↦
      (let f = finish_at m id outcome now e in
        (
          record f.0 { state = x.0 },
          transition_at (transition (finish m id outcome now) id stopping now x.1) id x.0 now x.1
              (transition_at (finish m id outcome now) id stopping now x.1 f.1),
          refl,
          f.2,
        ))
]

-- The state that a worker ends in, by whether it was terminated or stopped, and by the answer.
abbrev pub state_after : Bool → Bool → Outcome → State
state_after true was_stopped outcome = terminated
state_after false true outcome = stopped
state_after false false (returned r) = stopped
state_after false false interrupted = stopped
state_after false false (broken e) = failed

final_state-after :
    (c : Control) (outcome : Outcome)
    → (final_state c outcome).0 ≡ state_after c.terminated c.stopped outcome
final_state-after c (returned r) = ground arith
final_state-after c interrupted = ground arith
final_state-after c (broken e) = ground arith

state_after-terminal :
    (a b : Bool) (outcome : Outcome) → is_terminal (state_after a b outcome) ≡ true
state_after-terminal true b outcome = refl
state_after-terminal false true outcome = refl
state_after-terminal false false (returned r) = refl
state_after-terminal false false interrupted = refl
state_after-terminal false false (broken e) = refl

new-Below : (retain : ℕ) → Below (new retain)
unfolding new lookup
new-Below retain j p e = absurd (ground (arith, e))

-- A run of a manager that has served any calls, with any calls while its adapter works that do not
-- begin or end a worker of its id: when the adapter returns, the worker is no longer active, its end
-- is recorded, and its state is terminal: terminated where Terminate was called for it meanwhile,
-- else stopped where Stop was, else
-- failed where the adapter returned an error other than the context's, else stopped.
pub run-ends :
    (retain : ℕ) (before during : List Call) (req : Request) (outcome : Outcome) (now later : ℕ)
    {m : Manager} {id : String} {place : ℕ}
    → begin_run (calls (new retain) before) req now ≡ (m, id, place)
    → all_leave_alone m id during ≡ true
    → (r : Instance) × (lookup id (end_run (calls m during) id place outcome later).workers
        ≡ some r)
      × (r.state
          ≡ state_after (any (is_signal id true) during) (any (is_signal id false) during) outcome)
      × (is_terminal r.state ≡ true)
      × (r.ended_at ≡ later)
      × (is_active (end_run (calls m during) id place outcome later) id ≡ false)
unfolding end_run
run-ends retain before during req outcome now later {m} {id} {place} e alone =
    let b = calls-Below (new retain) before (new-Below retain) in
    let r₀ =
      subst (λ (t : Manager × String × ℕ). Running t.0 t.1 t.2 unsignalled) e
        (begin_run-Running (calls (new retain) before) req now b) in
    let r = calls-Running m id place unsignalled during alone r₀ in
    let m' : Manager = record (calls m during) { active = delete id (calls m during).active } in
    let x = final_state ((calls m during).controls place) outcome in
    let f = ended_at_lem m' id outcome x later r.known in
    let s =
      f.2
      ∙ ap (λ c. (final_state c outcome).0) r.control
      ∙ final_state-after (heard_all id during) outcome in
    (
      f.0,
      f.1,
      s,
      ap is_terminal s
          ∙ state_after-terminal (any (is_signal id true) during) (any (is_signal id false) during)
              outcome,
      f.3,
      ap (λ a. is_some (lookup id a)) (ended-Frame m' id outcome x later).active
          ∙ ap is_some (lookup-delete id id (calls m during).active)
          ∙ ground (arith, eq_refl id),
    )

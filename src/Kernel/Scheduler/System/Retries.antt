-- ===== src/Kernel/Scheduler/System/Retries.antt =====
-- kernel/scheduler/run.go: no package is tried more often than `MaxAttempts` allows.
use aa.Base.{
  ℕ, ◌+◌, ◌≤◌, ◌<◌, String, ◌≡◌, refl, ◌⊎◌, inl, inr, true, false, ◌&&◌, some, List, [], ◌∷◌, elem,
  get_or, str_eq, eq_iff, if◌then◌else◌, ok, arith, Option-cases, Bool-cases, ap, ◌∙◌, sym, subst,
  if_rule, not,
}
use aa.Base.Assoc.{lookup, lookup-insert}
use aa.Base.Ids.{ids, elem-pick, pick-Distinct}
use aa.Base.Picks.{pick}
use aa.Runtime.Worker
use aa.Kernel.Planner
use aa.Kernel.Planner.Progress.{state_of, state_of-put_state}
use aa.Kernel.Scheduler
use aa.Kernel.Planner.Readiness.{IsWellFormed}
use aa.Kernel.Scheduler.System.Safety.{IsFresh, fresh-Inv, fresh-Waits}
use aa.Kernel.Scheduler.{
  Scheduler, Config, Answer, DispatchReport, Progress, succeeded, failed, pending,
}
use aa.Kernel.Scheduler.Dispatch.{begin_dispatch, finish_dispatch, resolve, approve, reject}
use aa.Kernel.Scheduler.System.{
  System, system_of, Move, takes, is_idle, take_batch, begin_picked, begins, finishes, reads,
  resolves, approves, rejects, step, run, finish_flight, read_outcome, tally, tally_as,
  tally_failure, reset_for_retry, id_of, RunReport, counted, at_least_one, may_retry, count_failure,
}
use aa.Kernel.Scheduler.System.Changes.{
  finish_dispatch-Change, resolve-Change, resolve_elsewhere, awaits_or_not,
}
use aa.Kernel.Scheduler.System.Begins.{begin_dispatch-Begin}
use aa.Kernel.Scheduler.System.Invariant.{Inv, flight_id}
use aa.Kernel.Scheduler.System.Reads.{Reset, same, revived, reset_for_retry-Reset}
use aa.Kernel.Scheduler.System.Moves.{left-Inv, batch-Inv, step-Inv}
use aa.Kernel.Scheduler.System.Batch.{Waits, picked-IsReady}
use aa.Kernel.Scheduler.System.Interleavings.{step-Waits}
use aa.Kernel.Scheduler.System.Bounds.{
  outcome_id, can_start, startable, Shrinks, tries, Bound, graph-Shrinks, Change-Shrinks,
  shrink-Bound, batch-Bound, begun-Bound, finished-Bound,
}

-- What reading an outcome does: the scheduler is kept, or the package gets another attempt that is left.
Tallied : ℕ → Scheduler → RunReport → String → Scheduler × RunReport → Type 0
Tallied m o r id t =
    (t.1.attempts ≡ r.attempts) × ((t.0 ≡ o) ⊎ ((tries r id < at_least_one m) × Reset o t.0 id))

tally_failure-Tallied :
    (m : ℕ) (o : Scheduler) (r : RunReport) (id : String)
    → Tallied m o r id (tally_failure m o r id)
unfolding tally_failure Tallied
tally_failure-Tallied m o r id =
    if_rule (Tallied m o r id) (may_retry m r id && (reset_for_retry o id).1)
      {x = ((reset_for_retry o id).0, r)} {y = (o, count_failure r)}
      (λ e. (refl, inr (ground (arith, e), reset_for_retry-Reset o id))) (λ e. (refl, inl refl))

tally_as-Tallied :
    (m : ℕ) (o : Scheduler) (r : RunReport) (id : String) (p : Progress)
    → Tallied m o r id (tally_as m o r id p)
unfolding tally_as Tallied
tally_as-Tallied m o r id succeeded = (refl, inl refl)
tally_as-Tallied m o r id failed = tally_failure-Tallied m o r id
tally_as-Tallied m o r id pending = (refl, inl refl)

Tallied-startable :
    (m : ℕ) (o : Scheduler) (r : RunReport) (id : String) (t : Scheduler × RunReport) (j : String)
    → Tallied m o r id t
    → startable t.0 j ≡ true
    → (startable o j ≡ true) ⊎ ((id ≡ j) × (tries r id < at_least_one m))
unfolding Tallied
Tallied-startable m o r id t j (a, inl e) h = inl (subst (λ x. startable x j ≡ true) e h)
Tallied-startable m o r id t j (a, inr (l, same g q)) h =
    inl (subst (λ x. can_start (state_of x j) ≡ true) g h)
Tallied-startable m o r id t j (a, inr (l, revived g q)) h = elim (Bool-cases (str_eq id j)) [
  | inl e ↦ inr (ground (arith, eq_iff id j, e), l)
  | inr e ↦ inl (
      ground (
        arith,
        subst (λ x. can_start (state_of x j) ≡ true) g h,
        state_of-put_state o.graph id j Planner.ready,
        e,
      ))
]

tries-counted :
    (r : RunReport) (id j : String)
    → tries (counted r id) j ≡ tries r j + (if str_eq id j then 1 else 0)
tries-counted r id j = ground (arith, lookup-insert id j (tries r id + 1) r.attempts, eq_iff id j)

taken-Bound :
    (m n : ℕ) (s : System) (id : String) (d : DispatchReport)
    (rest : List (String × DispatchReport))
    → Bound m s
    → pick n s.outcomes ≡ some ((id, d), rest)
    → let t = tally_as m s.scheduler (counted s.report id) id d.status in
      Bound m (record s { scheduler = t.0; report = t.1; outcomes = rest })
unfolding Tallied
taken-Bound m n s id d rest b e =
    let r = counted s.report id in
    let t = tally_as m s.scheduler r id d.status in
    let x = tally_as-Tallied m s.scheduler r id d.status in
    let split = λ (j : String). elem-pick outcome_id j n s.outcomes e in
    let one = pick-Distinct outcome_id n s.outcomes e b.single in
    let start =
      λ (j : String) (h : startable t.0 j ≡ true). Tallied-startable m s.scheduler r id t j x h in
    let count = λ (j : String).
      ap (λ (l : List (String × ℕ)). get_or (lookup j l) 0) x.0 ∙ tries-counted s.report id j in
    record {
      single = one.1;
      apart = λ j h. ground (arith, split j, b.apart j, h);
      unread = λ j h. elim (start j h) [
        | inl k ↦ ground (arith, split j, b.unread j k)
        | inr (k, l) ↦ subst (λ i. elem i (ids outcome_id rest) ≡ false) k one.0
      ];
      spare = λ j h. elim (start j h) [
        | inl k ↦ ground (arith, count j, b.spare j k, b.unread j k, split j)
        | inr (k, l) ↦
            subst (λ i. tries t.1 i < at_least_one m) k
              (subst (λ (a : List (String × ℕ)). get_or (lookup id a) 0 < at_least_one m) (sym x.0)
                l)
      ];
      within = λ j. ground (arith, count j, b.within j, split j, b.apart j, one.0, eq_iff id j);
    }

read-Bound : (m n : ℕ) (s : System) → Bound m s → Bound m (read_outcome m s (pick n s.outcomes))
unfolding read_outcome tally
read-Bound m n s b = elim (Option-cases (pick n s.outcomes)) [
  | inl e ↦ rw (e, read_outcome) b
  | inr (((id, d), rest), e) ↦ rw (e, read_outcome) (taken-Bound m n s id d rest b e)
]

finish-Bound :
    (m n : ℕ) (s : System) (outcome : Worker.Outcome)
    → Inv s
    → Bound m s
    → Bound m (finish_flight s outcome (pick n s.flights))
unfolding finish_flight
finish-Bound m n s outcome v b = elim (Option-cases (pick n s.flights)) [
  | inl e ↦ rw (e, finish_flight) b
  | inr ((flight, rest), e) ↦
      (let (w, landed, flies, ran) = left-Inv s n flight rest v e in
        let answer = finish_dispatch s.scheduler flight outcome in
        rw (e, finish_flight)
          (finished-Bound m s rest (id_of flight) answer b
            (Change-Shrinks s.scheduler answer (id_of flight)
              (finish_dispatch-Change s.scheduler flight outcome flies.0 flies.1))
            (ap can_start ran) (λ j. elem-pick flight_id j n s.flights e) landed))
]

resolve-Shrinks :
    (s : System) (id : String) → Inv s → Shrinks s.scheduler (resolve s.scheduler id).0
resolve-Shrinks s id v = elim (awaits_or_not (lookup id s.scheduler.assignments)) [
  | inl h ↦
      graph-Shrinks s.scheduler (resolve s.scheduler id).0
        (ap (λ (o : Scheduler). o.graph) (resolve_elsewhere s.scheduler id h)) (λ j k. k)
  | inr (a, there, w) ↦
      Change-Shrinks s.scheduler (resolve s.scheduler id) id
        (resolve-Change s.scheduler id a there (v.core.keyed id a there) w)
]

begin-Bound :
    (m : ℕ) (s : System) (n now : ℕ)
    → Inv s
    → Waits s
    → Bound m s
    → Bound m (begin_picked s now (pick n s.batch))
unfolding begin_picked
begin-Bound m s n now v w b = elim (Option-cases (pick n s.batch)) [
  | inl e ↦ rw (e, begin_picked) b
  | inr ((id, rest), e) ↦
      rw (e, begin_picked)
        (begun-Bound m (record s { batch = rest }) id (begin_dispatch s.scheduler id now)
          (batch-Inv s rest v) (picked-IsReady s n id rest w e)
          (begin_dispatch-Begin s.scheduler id now) (batch-Bound m s rest b))
]

take-Bound : (m : ℕ) (s : System) (k : ℕ) → Bound m s → Bound m (take_batch k s)
unfolding take_batch
take-Bound m s k b =
    if_rule (Bound m) (is_idle s && not s.ended) (λ _. batch-Bound m s _ b) (λ _. b)

step-Bound :
    (m : ℕ) (s : System) (move : Move) → Inv s → Waits s → Bound m s → Bound m (step m s move)
unfolding step approve reject
step-Bound m s (takes k) v w b = take-Bound m s k b
step-Bound m s (begins n now) v w b = begin-Bound m s n now v w b
step-Bound m s (finishes n outcome) v w b = finish-Bound m n s outcome v b
step-Bound m s (reads n) v w b = read-Bound m n s b
step-Bound m s (resolves id) v w b =
    shrink-Bound m s (resolve s.scheduler id).0 (resolve-Shrinks s id v) b
step-Bound m s (approves id) v w b = shrink-Bound m s (approve s.scheduler id) (λ j h. h) b
step-Bound m s (rejects id reason) v w b =
    shrink-Bound m s (reject s.scheduler id reason) (λ j h. h) b

run-Bound :
    (m : ℕ) (s : System) (moves : List Move) → Inv s → Waits s → Bound m s → Bound m (run m s moves)
unfolding run
run-Bound m s [] v w b = b
run-Bound m s (x ∷ moves) v w b =
    run-Bound m (step m s x) moves (step-Inv m s x v w) (step-Waits m s x v w)
      (step-Bound m s x v w b)

start-Bound : (m : ℕ) (o : Scheduler) → Bound m (system_of o)
unfolding ids lookup
start-Bound m o = record {
  single = tt;
  apart = λ j h. refl;
  unread = λ j h. refl;
  spare = λ j h. ground arith;
  within = λ j. ground arith;
}

-- After any moves of one call of Run on a fresh scheduler (one that New has just made of a
-- well-formed graph whose packages are all PROPOSED or READY), with Resolve, Approve and Reject beside
-- it, no package has been tried more often than `MaxAttempts` allows (once, where it is zero),
-- attempts that are still under way included.
pub run-attempts-le :
    (m : ℕ) (moves : List Move) (g : Planner.Graph) (config : Config) (o : Scheduler) (id : String)
    → IsWellFormed g
    → IsFresh g
    → Scheduler.new g config ≡ ok o
    → tries (run m (system_of o) moves).report id
        + (if elem id (ids flight_id (run m (system_of o) moves).flights) then 1 else 0)
      ≤ at_least_one m
run-attempts-le m moves g config o id w f e =
    let b =
      run-Bound m (system_of o) moves (fresh-Inv m moves g config o w f e)
        (fresh-Waits m moves g config o w f e) (start-Bound m o) in
    ground (arith, b.within id)

-- ===== src/Kernel/Scheduler/System/Interleavings.antt =====
-- kernel/scheduler/run.go: one call of `Run`, in any interleaving with Resolve, Approve and Reject.
use aa.Base.{
  ℕ, String, ◌≡◌, refl, inl, inr, ◌&&◌, not, List, [], ◌∷◌, Option-cases, if_rule, ok, err,
}
use aa.Base.Assoc.{lookup}
use aa.Base.Picks.{pick}
use aa.Runtime.Worker
use aa.Kernel.Planner
use aa.Kernel.Scheduler.{Answer, DispatchReport}
use aa.Kernel.Scheduler.Dispatch.{
  InFlight, begin_dispatch, finish_dispatch, resolve, approve, reject,
}
use aa.Kernel.Scheduler.System.{
  System, Move, takes, begins, finishes, reads, resolves, approves, rejects, step, run, is_idle,
  take_batch, begin_picked, finish_flight, finished, id_of, at_least_one,
}
use aa.Kernel.Scheduler.System.Changes.{
  finish_dispatch-Change, resolve-Change, awaits_or_not, resolve_elsewhere,
}
use aa.Kernel.Scheduler.System.Begins.{begin_dispatch-Begin}
use aa.Kernel.Scheduler.System.Reads.{read-Waits}
use aa.Kernel.Scheduler.System.Batch.{
  Waits, take_batch-Waits, begun-Waits, keep-Waits, same-Waits, Change-KeepsReady, unready,
}
use aa.Kernel.Scheduler.System.Moves.{left-Inv, step-Inv}
use aa.Kernel.Scheduler.System.Invariant.{Inv}

take-Waits : (s : System) (k : ℕ) → Inv s → Waits s → Waits (take_batch k s)
unfolding take_batch
take-Waits s k v w =
    if_rule Waits (is_idle s && not s.ended) (λ _. take_batch-Waits s (at_least_one k) v) (λ _. w)

begin-Waits :
    (s : System) (n now : ℕ) → Inv s → Waits s → Waits (begin_picked s now (pick n s.batch))
unfolding begin_picked
begin-Waits s n now v w = elim (Option-cases (pick n s.batch)) [
  | inl e ↦ rw (e, begin_picked) w
  | inr ((id, rest), e) ↦
      rw (e, begin_picked)
        (begun-Waits s n id rest (begin_dispatch s.scheduler id now) v w e
          (begin_dispatch-Begin s.scheduler id now))
]

finished-scheduler :
    (s : System) (rest : List InFlight) (id : String) (answer : Answer DispatchReport)
    → (finished s rest id answer).scheduler ≡ answer.0
finished-scheduler s rest id (o, ok d) = refl
finished-scheduler s rest id (o, err e) = refl

finished-batch :
    (s : System) (rest : List InFlight) (id : String) (answer : Answer DispatchReport)
    → (finished s rest id answer).batch ≡ s.batch
finished-batch s rest id (o, ok d) = refl
finished-batch s rest id (o, err e) = refl

finish-Waits :
    (s : System) (outcome : Worker.Outcome) (n : ℕ)
    → Inv s
    → Waits s
    → Waits (finish_flight s outcome (pick n s.flights))
unfolding finish_flight
finish-Waits s outcome n v w = elim (Option-cases (pick n s.flights)) [
  | inl e ↦ rw (e, finish_flight) w
  | inr ((flight, rest), e) ↦
      (let (u, landed, flies, ran) = left-Inv s n flight rest v e in
        let answer = finish_dispatch s.scheduler flight outcome in
        let id = id_of flight in
        rw (e, finish_flight)
          (same-Waits _ (record s { scheduler = answer.0 }) (finished-scheduler s rest id answer)
            (finished-batch s rest id answer)
            (keep-Waits s answer.0 id
              (Change-KeepsReady s.scheduler answer id v.core.well ran
                (finish_dispatch-Change s.scheduler flight outcome flies.0 flies.1))
              (λ j h. unready s.scheduler id j Planner.running v.core.well ran refl (w.ready j h))
              w)))
]

resolve-Waits :
    (s : System) (id : String)
    → Inv s
    → Waits s
    → Waits (record s { scheduler = (resolve s.scheduler id).0 })
resolve-Waits s id v w = elim (awaits_or_not (lookup id s.scheduler.assignments)) [
  | inl h ↦ same-Waits _ s (resolve_elsewhere s.scheduler id h) refl w
  | inr (a, there, awaits) ↦
      (let (ran, landed) = v.core.waits id a there awaits in
        keep-Waits s (resolve s.scheduler id).0 id
          (Change-KeepsReady s.scheduler (resolve s.scheduler id) id v.core.well ran
            (resolve-Change s.scheduler id a there (v.core.keyed id a there) awaits))
          (λ j h. unready s.scheduler id j Planner.running v.core.well ran refl (w.ready j h)) w)
]

pub step-Waits : (m : ℕ) (s : System) (move : Move) → Inv s → Waits s → Waits (step m s move)
unfolding step approve reject
step-Waits m s (takes k) v w = take-Waits s k v w
step-Waits m s (begins n now) v w = begin-Waits s n now v w
step-Waits m s (finishes n outcome) v w = finish-Waits s outcome n v w
step-Waits m s (reads n) v w = read-Waits s m n v w
step-Waits m s (resolves id) v w = resolve-Waits s id v w
step-Waits m s (approves id) v w = record { ready = w.ready; single = w.single }
step-Waits m s (rejects id reason) v w = record { ready = w.ready; single = w.single }

pub run-Inv :
    (m : ℕ) (s : System) (moves : List Move)
    → Inv s
    → Waits s
    → Inv (run m s moves) × Waits (run m s moves)
unfolding run
run-Inv m s [] v w = (v, w)
run-Inv m s (x ∷ moves) v w =
    run-Inv m (step m s x) moves (step-Inv m s x v w) (step-Waits m s x v w)

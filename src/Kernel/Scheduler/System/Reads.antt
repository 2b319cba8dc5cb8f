-- ===== src/Kernel/Scheduler/System/Reads.antt =====
-- kernel/scheduler: the loop of `Run` over the outcomes keeps the invariant, retries included.
use aa.Base.{
  ℕ, String, ◌≡◌, refl, ◌⊎◌, inl, inr, true, false, ◌&&◌, some, List, elem, eq_iff, ok, arith,
  Option-cases, Result-cases, sym, subst, if_rule,
}
use aa.Base.Assoc.{lookup}
use aa.Base.Ids.{ids, elem-pick, pick-Distinct, drop-Distinct, front-Distinct}
use aa.Base.Picks.{pick}
use aa.Kernel.Planner
use aa.Kernel.Planner.Readiness.{IsWellFormed}
use aa.Kernel.Planner.Progress.{state_of, put_state}
use aa.Kernel.Scheduler.{Scheduler, DispatchReport, Progress, failed, succeeded, pending}
use aa.Kernel.Scheduler.System.{
  System, read_outcome, tally, tally_failure, reset_for_retry, RunReport, counted, may_retry,
  tally_as, count_failure,
}
use aa.Kernel.Scheduler.System.Parts.{says_failed}
use aa.Kernel.Scheduler.System.Core.{Core, forget-Core}
use aa.Kernel.Scheduler.System.Batch.{
  Waits, KeepsReady, keep-Waits, same-Waits, graph-KeepsReady, same-KeepsReady, unready,
}
use aa.Kernel.Scheduler.System.Invariant.{Inv, flight_id, failure_id, Core-same, revive-Core}

-- A scheduler is left as it is, or one package of it becomes ready again.
pub data Reset (o o' : Scheduler) (id : String) : Type 0 where
  same : o'.graph ≡ o.graph → o'.assignments ≡ o.assignments → Reset o o' id
  revived :
      o'.graph ≡ put_state o.graph id Planner.ready → o'.assignments ≡ o.assignments → Reset o o' id

pub reset_for_retry-Reset : (o : Scheduler) (id : String) → Reset o (reset_for_retry o id).0 id
unfolding reset_for_retry
reset_for_retry-Reset o id = elim (Option-cases (lookup id o.assignments)) [
  | inl e ↦ rw (e, reset_for_retry) (same refl refl)
  | inr (a, e) ↦ elim (Result-cases (Planner.set_state o.graph id Planner.ready)) [
    | inl (g, f) ↦ rw (e, reset_for_retry, f) (revived (rw (f, put_state) refl) refl)
    | inr (x, f) ↦ rw (e, reset_for_retry, f) (same refl refl)
  ]
]

tally_failure-Reset :
    (m : ℕ) (o : Scheduler) (r : RunReport) (id : String) → Reset o (tally_failure m o r id).0 id
unfolding tally_failure
tally_failure-Reset m o r id =
    if_rule (λ (t : Scheduler × RunReport). Reset o t.0 id)
      (may_retry m r id && (reset_for_retry o id).1) {x = ((reset_for_retry o id).0, r)}
      {y = (o, count_failure r)} (λ e. reset_for_retry-Reset o id) (λ e. same refl refl)

-- Only a failure makes its package ready again.
tally_as-Reset :
    (m : ℕ) (o : Scheduler) (r : RunReport) (id : String) (d : DispatchReport) (p : Progress)
    → d.status ≡ p
    → ((tally_as m o r id p).0 ≡ o)
      ⊎ ((says_failed (ok d) ≡ true) × Reset o (tally_as m o r id p).0 id)
unfolding tally_as
tally_as-Reset m o r id d succeeded e = inl refl
tally_as-Reset m o r id d failed e = inr (rw e refl, tally_failure-Reset m o r id)
tally_as-Reset m o r id d pending e = inl refl

-- The outcome is gone from the channel.
module _ (s : System) (n : ℕ) (id : String) (d : DispatchReport)
    (rest : List (String × DispatchReport)) (v : Inv s)
    (taken : pick n s.outcomes ≡ some ((id, d), rest)) where
  abbrev others : System
  others = record s { outcomes = rest }

  fewer :
      (j : String) → elem j (ids failure_id rest) ≡ true → elem j (ids failure_id s.outcomes) ≡ true
  fewer j h = ground (arith, elem-pick failure_id j n s.outcomes taken)

  taken-Inv : Inv others
  taken-Inv = record {
    core =
        forget-Core s.scheduler (ids flight_id s.flights) (ids failure_id s.outcomes)
          (ids failure_id rest) fewer v.core;
    one_flight = v.one_flight;
    one_failure =
        drop-Distinct (failure_id (id, d)) (ids failure_id rest)
          (pick-Distinct failure_id n s.outcomes taken v.one_failure);
    flying = v.flying;
  }

  reported :
      says_failed (ok d) ≡ true
      → (state_of s.scheduler.graph id ≡ some Planner.deficient)
        × (elem id (ids failure_id rest) ≡ false)
  reported f = (
    v.core.fails id (ground (arith, elem-pick failure_id id n s.outcomes taken, eq_iff id id)),
    front-Distinct (failure_id (id, d)) (ids failure_id rest) (rw f refl)
        (pick-Distinct failure_id n s.outcomes taken v.one_failure),
  )

  Reset-Core :
      (o' : Scheduler)
      → says_failed (ok d) ≡ true
      → Reset s.scheduler o' id
      → Core o' (ids flight_id s.flights) (ids failure_id rest)
  Reset-Core o' f (same g l) = Core-same s.scheduler o' _ _ g l taken-Inv.core
  Reset-Core o' f (revived g l) =
      let (deficient, gone) = reported f in
      revive-Core s.scheduler o' id Planner.ready (ids flight_id s.flights)
        (ids flight_id s.flights) (ids failure_id rest) (ids failure_id rest) taken-Inv.core
        (λ e. cc) (λ e. cc) (λ e. cc) g l (λ wp e. refl) (λ j e. refl) (λ j e h. h)
        (λ h. absurd (ground (arith, v.core.flies id h, deficient))) (λ h. absurd (ground arith))
        (λ e. cc)

-- Reading an outcome keeps the invariant.
pub read-Inv : (s : System) (m n : ℕ) → Inv s → Inv (read_outcome m s (pick n s.outcomes))
unfolding read_outcome tally
read-Inv s m n v = elim (Option-cases (pick n s.outcomes)) [
  | inl e ↦ rw (e, read_outcome) v
  | inr (((id, d), rest), e) ↦
      (let w = taken-Inv s n id d rest v e in
        rw (e, read_outcome)
          (record {
            core = elim (tally_as-Reset m s.scheduler (counted s.report id) id d d.status refl) [
              | inl q ↦
                  subst (λ x. Core x (ids flight_id s.flights) (ids failure_id rest)) (sym q) w.core
              | inr (f, q) ↦ Reset-Core s n id d rest v e _ f q
            ];
            one_flight = w.one_flight;
            one_failure = w.one_failure;
            flying = w.flying;
          }))
]

Reset-KeepsReady :
    (o o' : Scheduler) (id : String)
    → IsWellFormed o.graph
    → state_of o.graph id ≡ some Planner.deficient
    → Reset o o' id
    → KeepsReady o o' id
Reset-KeepsReady o o' id v d (same g l) = same-KeepsReady o o' id g
Reset-KeepsReady o o' id v d (revived g l) = graph-KeepsReady o o' id Planner.ready v (λ h. cc) g

-- Reading an outcome leaves those that wait ready: the package of the failure is none of them.
pub read-Waits :
    (s : System) (m n : ℕ) → Inv s → Waits s → Waits (read_outcome m s (pick n s.outcomes))
unfolding read_outcome tally
read-Waits s m n v w = elim (Option-cases (pick n s.outcomes)) [
  | inl e ↦ rw (e, read_outcome) w
  | inr (((id, d), rest), e) ↦
      rw (e, read_outcome)
        (elim (tally_as-Reset m s.scheduler (counted s.report id) id d d.status refl) [
          | inl q ↦ same-Waits _ s q refl w
          | inr (f, q) ↦
              (let deficient = (reported s n id d rest v e f).0 in
                let o' = (tally_as m s.scheduler (counted s.report id) id d.status).0 in
                same-Waits _ (record s { scheduler = o' }) refl refl
                  (keep-Waits s o' id (Reset-KeepsReady s.scheduler o' id v.core.well deficient q)
                    (λ j h.
                      unready s.scheduler id j Planner.deficient v.core.well deficient refl
                        (w.ready j h))
                    w))
        ])
]

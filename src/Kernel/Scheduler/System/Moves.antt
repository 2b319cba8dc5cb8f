-- ===== src/Kernel/Scheduler/System/Moves.antt =====
-- kernel/scheduler: every move of a system keeps the invariant.
use aa.Base.{
  ℕ, String, ◌≡◌, refl, inl, inr, Bool, true, false, ◌||◌, none, some, List, ◌∷◌, elem, str_eq,
  eq_iff, if◌then◌else◌, if_rule, not, ◌&&◌, ok, err, arith, Option-cases, ap, ◌∙◌, sym, subst,
}
use aa.Base.Assoc.{lookup}
use aa.Base.Ids.{ids, Distinct, elem-pick, pick-Distinct, with_id}
use aa.Base.Picks.{pick, All-pick}
use aa.Runtime.Worker
use aa.Kernel.Planner
use aa.Kernel.Planner.Progress.{state_of}
use aa.Kernel.Scheduler.{Answer, DispatchReport}
use aa.Kernel.Scheduler.Dispatch.{
  InFlight, begin_dispatch, finish_dispatch, resolve, approve, reject,
}
use aa.Kernel.Scheduler.System.{
  System, Move, takes, is_idle, take_batch, begin_picked, begins, finishes, reads, resolves,
  approves, rejects, step, begun, finished, finish_flight, id_of,
}
use aa.Kernel.Scheduler.System.Parts.{says_failed}
use aa.Kernel.Scheduler.System.Changes.{
  finish_dispatch-Change, resolve-Change, awaits_or_not, resolve_elsewhere,
}
use aa.Kernel.Scheduler.System.Begins.{Begin, refused, undone, launched, begin_dispatch-Begin}
use aa.Kernel.Scheduler.System.Reads.{read-Inv}
use aa.Kernel.Scheduler.System.Batch.{Waits, picked-IsReady}
use aa.Kernel.Scheduler.System.Core.{Core, forget-Core, after_answer, Change-Core}
use aa.Kernel.Scheduler.System.Invariant.{
  Inv, IsFlying, flight_id, failure_id, Core-same, grounded, undone-Core, launched-Core,
}

begun-Inv :
    (s : System) (id : String) (answer : Answer InFlight)
    → Inv s
    → elem id (Planner.ready_ids s.scheduler.graph) ≡ true
    → Begin s.scheduler answer id
    → Inv (begun s answer)
unfolding ids
begun-Inv s id (o, err e) v r (refused e' q g l) = record {
  core = Core-same s.scheduler o _ _ g l v.core;
  one_flight = v.one_flight;
  one_failure = v.one_failure;
  flying = v.flying;
}
begun-Inv s id (o, err e) v r (undone e' q g l) = record {
  core = undone-Core s.scheduler id _ _ v.core r o g l;
  one_flight = v.one_flight;
  one_failure = v.one_failure;
  flying = v.flying;
}
begun-Inv s id (o, err e) v r (launched f q w a t g l) = absurd (ground arith)
begun-Inv s id (o, ok f) v r (refused e' q g l) = absurd (ground arith)
begun-Inv s id (o, ok f) v r (undone e' q g l) = absurd (ground arith)
begun-Inv s id (o, ok f) v r (launched f' q w a t g l) =
    let same : f ≡ f' = ground arith in
    let named : id ≡ id_of f = sym (ap id_of same ∙ w) in
    record {
      core =
          subst (λ x. Core o (x ∷ ids flight_id s.flights) (ids failure_id s.outcomes)) named
            (launched-Core s.scheduler id _ _ v.core r o g l);
      one_flight = (
        subst (λ x. elem x (ids flight_id s.flights) ≡ false) named
            (grounded s.scheduler id _ _ v.core r),
        v.one_flight,
      );
      one_failure = v.one_failure;
      flying = (
        (
          ap (λ (x : InFlight). x.assignment.work_package_id) same ∙ a ∙ named,
          ap (λ (x : InFlight). x.assignment.state) same ∙ t,
        ),
        v.flying,
      );
    }

-- The flight has left the list, and its package is left running.
module _ (s : System) (n : ℕ) (flight : InFlight) (rest : List InFlight) (v : Inv s)
    (taken : pick n s.flights ≡ some (flight, rest)) where
  abbrev others : System
  others = record s { flights = rest }

  pub left-Inv :
      Inv others
      × (elem (id_of flight) (ids flight_id rest) ≡ false)
      × IsFlying flight
      × (state_of s.scheduler.graph (id_of flight) ≡ some Planner.running)
  left-Inv =
      let d = pick-Distinct flight_id n s.flights taken v.one_flight in
      let all_fly = All-pick IsFlying n s.flights taken v.flying in
      let e : (j : String)
          → elem j (ids flight_id s.flights)
            ≡ (str_eq (id_of flight) j || elem j (ids flight_id rest)) =
        λ j. elem-pick flight_id j n s.flights taken in
      (
        record {
          core = record {
            well = v.core.well;
            respects = v.core.respects;
            flies = λ j h. v.core.flies j (ground (arith, e j));
            fails = v.core.fails;
            keyed = v.core.keyed;
            waits = λ j a h w. let x = v.core.waits j a h w in (x.0, ground (arith, e j, x.1));
            done = v.core.done;
          };
          one_flight = d.1;
          one_failure = v.one_failure;
          flying = all_fly.1;
        },
        d.0,
        all_fly.0,
        v.core.flies (id_of flight)
            (ground (arith, e (id_of flight), eq_iff (id_of flight) (id_of flight))),
      )

with_failure :
    (b : Bool) (id : String) (xs : List String)
    → with_id (if b then some id else none) xs ≡ (if b then id ∷ xs else xs)
with_failure true id xs = refl
with_failure false id xs = refl

with_failure-Distinct :
    (b : Bool) (id : String) (xs : List String)
    → elem id xs ≡ false
    → Distinct xs
    → Distinct (with_id (if b then some id else none) xs)
with_failure-Distinct true id xs h d = (h, d)
with_failure-Distinct false id xs h d = d

finished-Inv :
    (s : System) (rest : List InFlight) (id : String) (answer : Answer DispatchReport)
    → Inv (record s { flights = rest })
    → elem id (ids flight_id rest) ≡ false
    → elem id (ids failure_id s.outcomes) ≡ false
    → Core answer.0 (ids flight_id rest) (after_answer answer id (ids failure_id s.outcomes))
    → Inv (finished s rest id answer)
unfolding ids
finished-Inv s rest id (o, err e) v g x c = record {
  core = c;
  one_flight = v.one_flight;
  one_failure = v.one_failure;
  flying = v.flying;
}
finished-Inv s rest id (o, ok d) v g x c = record {
  core =
      subst (λ l. Core o (ids flight_id rest) l)
        (sym (with_failure (says_failed (ok d)) id (ids failure_id s.outcomes))) c;
  one_flight = v.one_flight;
  one_failure =
      with_failure-Distinct (says_failed (ok d)) id (ids failure_id s.outcomes) x v.one_failure;
  flying = v.flying;
}

finish-Inv :
    (s : System) (outcome : Worker.Outcome) (n : ℕ)
    → Inv s
    → Inv (finish_flight s outcome (pick n s.flights))
unfolding finish_flight
finish-Inv s outcome n v = elim (Option-cases (pick n s.flights)) [
  | inl e ↦ rw (e, finish_flight) v
  | inr ((flight, rest), e) ↦
      (let (w, landed, flies, ran) = left-Inv s n flight rest v e in
        let answer = finish_dispatch s.scheduler flight outcome in
        let id = id_of flight in
        rw (e, finish_flight)
          (finished-Inv s rest id answer w landed (ground (arith, v.core.fails id, ran)) (
            Change-Core s.scheduler id (ids flight_id rest) (ids failure_id s.outcomes) answer
              landed ran w.core
              (finish_dispatch-Change s.scheduler flight outcome flies.0 flies.1))))
]

-- A resolution puts no outcome into the channel.
fewer_failures :
    (b : Bool) (id : String) (xs : List String) (j : String)
    → elem j xs ≡ true
    → elem j (if b then id ∷ xs else xs) ≡ true
fewer_failures b id xs j h = ground arith

resolve-Inv :
    (s : System) (id : String) → Inv s → Inv (record s { scheduler = (resolve s.scheduler id).0 })
resolve-Inv s id v = record {
  core = elim (awaits_or_not (lookup id s.scheduler.assignments)) [
    | inl h ↦
        subst (λ o. Core o (ids flight_id s.flights) (ids failure_id s.outcomes))
          (sym (resolve_elsewhere s.scheduler id h)) v.core
    | inr (a, there, w) ↦
        (let (ran, landed) = v.core.waits id a there w in
          let answer = resolve s.scheduler id in
          forget-Core answer.0 (ids flight_id s.flights)
            (after_answer answer id (ids failure_id s.outcomes)) (ids failure_id s.outcomes)
            (fewer_failures (says_failed answer.1) id (ids failure_id s.outcomes))
            (Change-Core s.scheduler id (ids flight_id s.flights) (ids failure_id s.outcomes) answer
              landed ran v.core
              (resolve-Change s.scheduler id a there (v.core.keyed id a there) w)))
  ];
  one_flight = v.one_flight;
  one_failure = v.one_failure;
  flying = v.flying;
}

-- The invariant does not read who waits to begin.
pub batch-Inv : (s : System) (batch : List String) → Inv s → Inv (record s { batch = batch })
batch-Inv s batch v = record {
  core = v.core;
  one_flight = v.one_flight;
  one_failure = v.one_failure;
  flying = v.flying;
}

take-Inv : (s : System) (k : ℕ) → Inv s → Inv (take_batch k s)
unfolding take_batch
take-Inv s k v = if_rule Inv (is_idle s && not s.ended) (λ _. batch-Inv s _ v) (λ _. v)

begin-Inv : (s : System) (n now : ℕ) → Inv s → Waits s → Inv (begin_picked s now (pick n s.batch))
unfolding begin_picked
begin-Inv s n now v w = elim (Option-cases (pick n s.batch)) [
  | inl e ↦ rw (e, begin_picked) v
  | inr ((id, rest), e) ↦
      rw (e, begin_picked)
        (begun-Inv (record s { batch = rest }) id (begin_dispatch s.scheduler id now)
          (batch-Inv s rest v) (picked-IsReady s n id rest w e)
          (begin_dispatch-Begin s.scheduler id now))
]

-- Every move keeps the invariant.
pub step-Inv : (m : ℕ) (s : System) (move : Move) → Inv s → Waits s → Inv (step m s move)
unfolding step approve reject
step-Inv m s (takes k) v w = take-Inv s k v
step-Inv m s (begins n now) v w = begin-Inv s n now v w
step-Inv m s (finishes n outcome) v w = finish-Inv s outcome n v
step-Inv m s (reads n) v w = read-Inv s m n v
step-Inv m s (resolves id) v w = resolve-Inv s id v
step-Inv m s (approves id) v w = record {
  core = Core-same s.scheduler _ _ _ refl refl v.core;
  one_flight = v.one_flight;
  one_failure = v.one_failure;
  flying = v.flying;
}
step-Inv m s (rejects id reason) v w = record {
  core = Core-same s.scheduler _ _ _ refl refl v.core;
  one_flight = v.one_flight;
  one_failure = v.one_failure;
  flying = v.flying;
}

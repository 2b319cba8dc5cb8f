-- ===== src/Kernel/Scheduler/System/Bounds.antt =====
-- kernel/scheduler/run.go: where the attempts of a package are counted while it is begun and finished.
use aa.Base.{
  ℕ, ◌+◌, ◌≤◌, ◌<◌, String, ◌≡◌, refl, Bool, true, false, ◌||◌, Option, none, some, List, ◌∷◌, elem,
  get_or, str_eq, eq_iff, eq_refl, if◌then◌else◌, ok, err, arith, ap, ◌∙◌, subst,
}
use aa.Base.Assoc.{lookup}
use aa.Base.Ids.{ids, Distinct}
use aa.Kernel.Planner
use aa.Kernel.Planner.Progress.{
  state_of, put_state, state_of-put_state, put_state-twice, ready-facts,
}
use aa.Kernel.Scheduler.{Scheduler, Answer, DispatchReport}
use aa.Kernel.Scheduler.Dispatch.{InFlight}
use aa.Kernel.Scheduler.System.{System, begun, finished, id_of, RunReport, at_least_one}
use aa.Kernel.Scheduler.System.Parts.{Change, kept, moved, closed, completed}
use aa.Kernel.Scheduler.System.Begins.{Begin, refused, undone, launched}
use aa.Kernel.Scheduler.System.Invariant.{Inv, flight_id}

abbrev pub outcome_id : String × DispatchReport → Option String
outcome_id (id, d) = some id

abbrev pub can_start : Option Planner.State → Bool
can_start none = false
can_start (some s) = Planner.is_dispatchable s

abbrev pub startable : Scheduler → String → Bool
startable o id = can_start (state_of o.graph id)

abbrev pub tries : RunReport → String → ℕ
tries r id = get_or (lookup id r.attempts) 0

-- No package can be started that could not be before.
abbrev pub Shrinks : Scheduler → Scheduler → Type 0
Shrinks o o' = (j : String) → startable o' j ≡ true → startable o j ≡ true

put_state-shrinks :
    (g : Planner.Graph) (id j : String) (s : Planner.State)
    → Planner.is_dispatchable s ≡ false
    → can_start (state_of (put_state g id s) j) ≡ true
    → can_start (state_of g j) ≡ true
put_state-shrinks g id j s n h = ground (arith, state_of-put_state g id j s, n, h)

pub graph-Shrinks :
    (o o' : Scheduler) {g : Planner.Graph}
    → o'.graph ≡ g
    → ((j : String) → can_start (state_of g j) ≡ true → startable o j ≡ true)
    → Shrinks o o'
graph-Shrinks o o' e h j k = h j (subst (λ x. can_start (state_of x j) ≡ true) e k)

pub Change-Shrinks :
    (o : Scheduler) (answer : Answer DispatchReport) (id : String)
    → Change o answer id
    → Shrinks o answer.0
Change-Shrinks o answer id (kept g l f s) = graph-Shrinks o answer.0 g (λ j h. h)
Change-Shrinks o answer id (moved a w n g l f s) = graph-Shrinks o answer.0 g (λ j h. h)
Change-Shrinks o answer id (closed a w e g l s) =
    graph-Shrinks o answer.0 g (λ j. put_state-shrinks o.graph id j Planner.deficient refl)
Change-Shrinks o answer id (completed a w e g l f) =
    graph-Shrinks o answer.0 g (λ j. put_state-shrinks o.graph id j Planner.completed refl)

Begin-Shrinks :
    (o : Scheduler) (answer : Answer InFlight) (id : String)
    → Begin o answer id
    → Shrinks o answer.0
Begin-Shrinks o answer id (refused e q g l) = graph-Shrinks o answer.0 g (λ j h. h)
Begin-Shrinks o answer id (undone e q g l) =
    graph-Shrinks o answer.0 (g ∙ put_state-twice o.graph id Planner.running Planner.deficient)
      (λ j. put_state-shrinks o.graph id j Planner.deficient refl)
Begin-Shrinks o answer id (launched f q r w s g l) =
    graph-Shrinks o answer.0 g (λ j. put_state-shrinks o.graph id j Planner.running refl)

-- A package is in one place at a time, and what is left of its attempts covers the one it is in.
pub record Bound (m : ℕ) (s : System) : Type 0 where
  pub single : Distinct (ids outcome_id s.outcomes)
  pub apart :
      (j : String)
      → elem j (ids flight_id s.flights) ≡ true
      → elem j (ids outcome_id s.outcomes) ≡ false
  pub unread :
      (j : String) → startable s.scheduler j ≡ true → elem j (ids outcome_id s.outcomes) ≡ false
  pub spare : (j : String) → startable s.scheduler j ≡ true → tries s.report j < at_least_one m
  pub within :
      (j : String)
      → tries s.report j
          + (if elem j (ids flight_id s.flights) || elem j (ids outcome_id s.outcomes)
              then 1
              else 0)
        ≤ at_least_one m

pub shrink-Bound :
    (m : ℕ) (s : System) (o : Scheduler)
    → Shrinks s.scheduler o
    → Bound m s
    → Bound m (record s { scheduler = o })
shrink-Bound m s o h b = record {
  single = b.single;
  apart = b.apart;
  unread = λ j k. b.unread j (h j k);
  spare = λ j k. b.spare j (h j k);
  within = b.within;
}

pub batch-Bound :
    (m : ℕ) (s : System) (batch : List String) → Bound m s → Bound m (record s { batch = batch })
batch-Bound m s batch b = record {
  single = b.single;
  apart = b.apart;
  unread = b.unread;
  spare = b.spare;
  within = b.within;
}

ids-cons :
    (f : InFlight) (fs : List InFlight) (j : String)
    → elem j (ids flight_id (f ∷ fs)) ≡ (str_eq (id_of f) j || elem j (ids flight_id fs))
unfolding ids
ids-cons f fs j = refl

outcomes-cons :
    (id : String) (d : DispatchReport) (rest : List (String × DispatchReport)) (j : String)
    → elem j (ids outcome_id ((id, d) ∷ rest)) ≡ (str_eq id j || elem j (ids outcome_id rest))
unfolding ids
outcomes-cons id d rest j = refl

outcomes-Distinct :
    (id : String) (d : DispatchReport) (rest : List (String × DispatchReport))
    → elem id (ids outcome_id rest) ≡ false
    → Distinct (ids outcome_id rest)
    → Distinct (ids outcome_id ((id, d) ∷ rest))
unfolding ids
outcomes-Distinct id d rest h k = (h, k)

ready-startable :
    (s : System) (id : String)
    → Inv s
    → elem id (Planner.ready_ids s.scheduler.graph) ≡ true
    → startable s.scheduler id ≡ true
ready-startable s id v h =
    let (wp, there, dispatchable, deps) = ready-facts s.scheduler.graph id v.core.well h in
    ground arith

pub begun-Bound :
    (m : ℕ) (s : System) (id : String) (answer : Answer InFlight)
    → Inv s
    → elem id (Planner.ready_ids s.scheduler.graph) ≡ true
    → Begin s.scheduler answer id
    → Bound m s
    → Bound m (begun s answer)
begun-Bound m s id (o, err e) v r c b =
    let b' = shrink-Bound m s o (Begin-Shrinks s.scheduler (o, err e) id c) b in
    record {
      single = b'.single;
      apart = b'.apart;
      unread = b'.unread;
      spare = b'.spare;
      within = b'.within;
    }
begun-Bound m s id (o, ok f) v r c b =
    let named : id_of f ≡ id = begun_id c in
    let can = ready-startable s id v r in
    let c' = shrink-Bound m s o (Begin-Shrinks s.scheduler (o, ok f) id c) b in
    record {
      single = b.single;
      apart = λ j h.
          ground (arith, ids-cons f s.flights j, named, eq_iff id j, b.apart j, b.unread id can, h);
      unread = c'.unread;
      spare = c'.spare;
      within = λ j. ground (
        arith,
        ids-cons f s.flights j,
        named,
        eq_iff id j,
        b.within j,
        b.spare id can,
        b.apart j,
        b.unread id can,
      );
    }
  where
    begun_id : Begin s.scheduler (o, ok f) id → id_of f ≡ id
    begun_id (refused e q g l) = absurd (ground arith)
    begun_id (undone e q g l) = absurd (ground arith)
    begun_id (launched f' q w a t g l) = let e : f ≡ f' = ground arith in ap id_of e ∙ w

pub finished-Bound :
    (m : ℕ) (s : System) (rest : List InFlight) (id : String) (answer : Answer DispatchReport)
    → Bound m s
    → Shrinks s.scheduler answer.0
    → startable s.scheduler id ≡ false
    → ((j : String)
        → elem j (ids flight_id s.flights) ≡ (str_eq id j || elem j (ids flight_id rest)))
    → elem id (ids flight_id rest) ≡ false
    → Bound m (finished s rest id answer)
finished-Bound m s rest id (o, err e) b h n f g = record {
  single = b.single;
  apart = λ j k. b.apart j (ground (arith, f j, k));
  unread = λ j k. b.unread j (h j k);
  spare = λ j k. b.spare j (h j k);
  within = λ j. ground (arith, b.within j, f j);
}
finished-Bound m s rest id (o, ok d) b h n f g = record {
  single =
      outcomes-Distinct id d s.outcomes (b.apart id (ground (arith, f id, eq_refl id))) b.single;
  apart = λ j k. ground (arith, outcomes-cons id d s.outcomes j, b.apart j, f j, g, eq_iff id j, k);
  unread = λ j k.
      ground (arith, outcomes-cons id d s.outcomes j, b.unread j (h j k), h j k, n, eq_iff id j);
  spare = λ j k. b.spare j (h j k);
  within =
      λ j. ground (arith, outcomes-cons id d s.outcomes j, b.within j, f j, b.apart j, eq_iff id j);
}

-- ===== src/Kernel/Scheduler/System/Batch.antt =====
-- kernel/scheduler/run.go: the packages of a batch stay ready until their goroutines begin them.
use aa.Base.{
  ℕ, zero, suc, String, ◌≡◌, refl, ◌≢◌, true, false, ◌&&◌, some, List, [], ◌∷◌, all, elem, take,
  str_eq, eq_iff, ok, err, arith, Bool-cases, ap, ◌∙◌, sym, subst, inl, inr, if_rule, Option,
}
use aa.Base.Assoc.{lookup, HasUniqueKeys}
use aa.Base.Ids.{ids, Distinct, elem-pick, pick-Distinct}
use aa.Base.Counts.{sort_by-Distinct}
use aa.Base.Picks.{pick}
use aa.Kernel.Planner
use aa.Kernel.Planner.Readiness.{IsWellFormed, elem-ready_ids, elem-collect_ready, is_ready}
use aa.Kernel.Planner.Progress.{
  state_of, put_state, put_state-lookup, put_state-IsWellFormed, put_state-twice, ready-facts,
  still_done,
}
use aa.Kernel.Scheduler.{Scheduler, Answer, DispatchReport}
use aa.Kernel.Scheduler.Dispatch.{InFlight}
use aa.Kernel.Scheduler.System.{System, begun}
use aa.Kernel.Scheduler.System.Parts.{Change, kept, moved, closed, completed}
use aa.Kernel.Scheduler.System.Begins.{Begin, refused, undone, launched}
use aa.Kernel.Scheduler.System.Invariant.{Inv}

abbrev pub IsReady : Scheduler → String → Type 0
IsReady o id = elem id (Planner.ready_ids o.graph) ≡ true

-- What is ready stays ready, but for one package.
abbrev pub KeepsReady : Scheduler → Scheduler → String → Type 0
KeepsReady o o' id = (j : String) → str_eq id j ≡ false → IsReady o j → IsReady o' j

put_state-ready :
    (g : Planner.Graph) (id j : String) (s : Planner.State)
    → IsWellFormed g
    → state_of g id ≢ some Planner.completed
    → str_eq id j ≡ false
    → elem j (Planner.ready_ids g) ≡ true
    → elem j (Planner.ready_ids (put_state g id s)) ≡ true
unfolding Planner.get
put_state-ready g id j s v n e h =
    let (wp, there, dispatchable, deps) = ready-facts g j v h in
    let d : all (Planner.dependency_done (put_state g id s).nodes) wp.depends_on ≡ true =
      still_done g id s false wp.depends_on n deps in
    let l : lookup j (put_state g id s).nodes ≡ some wp =
      put_state-lookup g id j s ∙ ground (arith, there, e) in
    elem-ready_ids (put_state g id s) j (put_state-IsWellFormed g id s v)
    ∙ ground (arith, l, d, dispatchable)

pub graph-KeepsReady :
    (o o' : Scheduler) (id : String) (s : Planner.State)
    → IsWellFormed o.graph
    → state_of o.graph id ≢ some Planner.completed
    → o'.graph ≡ put_state o.graph id s
    → KeepsReady o o' id
graph-KeepsReady o o' id s v n g j e h =
    subst (λ x. elem j (Planner.ready_ids x) ≡ true) (sym g)
      (put_state-ready o.graph id j s v n e h)

pub same-KeepsReady : (o o' : Scheduler) (id : String) → o'.graph ≡ o.graph → KeepsReady o o' id
same-KeepsReady o o' id g j e h = subst (λ x. elem j (Planner.ready_ids x) ≡ true) (sym g) h

pub Change-KeepsReady :
    (o : Scheduler) (answer : Answer DispatchReport) (id : String)
    → IsWellFormed o.graph
    → state_of o.graph id ≡ some Planner.running
    → Change o answer id
    → KeepsReady o answer.0 id
Change-KeepsReady o answer id v ran (kept g l f s) = same-KeepsReady o answer.0 id g
Change-KeepsReady o answer id v ran (moved a w n g l f s) = same-KeepsReady o answer.0 id g
Change-KeepsReady o answer id v ran (closed a w e g l s) =
    graph-KeepsReady o answer.0 id Planner.deficient v (λ h. cc) g
Change-KeepsReady o answer id v ran (completed a w e g l f) =
    graph-KeepsReady o answer.0 id Planner.completed v (λ h. cc) g

pub Begin-KeepsReady :
    (o : Scheduler) (answer : Answer InFlight) (id : String)
    → IsWellFormed o.graph
    → state_of o.graph id ≢ some Planner.completed
    → Begin o answer id
    → KeepsReady o answer.0 id
Begin-KeepsReady o answer id v n (refused e q g l) = same-KeepsReady o answer.0 id g
Begin-KeepsReady o answer id v n (undone e q g l) =
    graph-KeepsReady o answer.0 id Planner.deficient v n
      (g ∙ put_state-twice o.graph id Planner.running Planner.deficient)
Begin-KeepsReady o answer id v n (launched f q w a s g l) =
    graph-KeepsReady o answer.0 id Planner.running v n g

-- A package in another state than PROPOSED and READY is none of those that are ready.
pub unready :
    (o : Scheduler) (id j : String) (s : Planner.State)
    → IsWellFormed o.graph
    → state_of o.graph id ≡ some s
    → Planner.is_dispatchable s ≡ false
    → IsReady o j
    → str_eq id j ≡ false
unready o id j s v e n h =
    let (wp, there, dispatchable, deps) = ready-facts o.graph j v h in
    ground (arith, there, dispatchable, e, n, eq_iff id j)

collect_ready-Distinct :
    (nodes ns : List (String × Planner.WorkPackage))
    → HasUniqueKeys ns
    → Distinct (Planner.collect_ready nodes ns)
unfolding Planner.collect_ready lookup
collect_ready-Distinct nodes [] u = tt
collect_ready-Distinct nodes ((id, wp) ∷ ns) u =
    if_rule Distinct
      (Planner.is_dispatchable wp.state && all (Planner.dependency_done nodes) wp.depends_on)
      (λ _. (
        elem-collect_ready nodes ns id u.1 ∙ ap (is_ready nodes) u.0,
        collect_ready-Distinct nodes ns u.1,
      ))
      (λ _. collect_ready-Distinct nodes ns u.1)

abbrev pub waiting_id : String → Option String
waiting_id id = some id

pub elem-take :
    (n : ℕ) (xs : List String) (j : String)
    → elem j (ids waiting_id (take n xs)) ≡ true
    → elem j xs ≡ true
unfolding ids
elem-take zero xs j h = absurd (ground arith)
elem-take (suc n) [] j h = absurd (ground arith)
elem-take (suc n) (x ∷ xs) j h = ground (arith, elem-take n xs j, h)

take-Distinct : (n : ℕ) (xs : List String) → Distinct xs → Distinct (ids waiting_id (take n xs))
unfolding ids
take-Distinct zero xs d = tt
take-Distinct (suc n) [] d = tt
take-Distinct (suc n) (x ∷ xs) d = elim (Bool-cases (elem x (ids waiting_id (take n xs)))) [
  | inl e ↦ absurd (ground (arith, elem-take n xs x e, d.0))
  | inr e ↦ (e, take-Distinct n xs d.1)
]

-- The goroutines that wait are for different packages, and each of these is ready.
pub record Waits (s : System) : Type 0 where
  pub ready : (j : String) → elem j (ids waiting_id s.batch) ≡ true → IsReady s.scheduler j
  pub single : Distinct (ids waiting_id s.batch)

pub take_batch-Waits :
    (s : System) (n : ℕ)
    → Inv s
    → Waits (record s { batch = take n (Planner.ready_ids s.scheduler.graph) })
unfolding Planner.ready_ids
take_batch-Waits s n v = record {
  ready = λ j h. elem-take n (Planner.ready_ids s.scheduler.graph) j h;
  single = take-Distinct n (Planner.ready_ids s.scheduler.graph) (
      sort_by-Distinct _ (
        collect_ready-Distinct s.scheduler.graph.nodes s.scheduler.graph.nodes v.core.well.unique));
}

-- Where one package that nobody waits for changes, the others stay ready.
pub keep-Waits :
    (s : System) (o : Scheduler) (id : String)
    → KeepsReady s.scheduler o id
    → ((j : String) → elem j (ids waiting_id s.batch) ≡ true → str_eq id j ≡ false)
    → Waits s
    → Waits (record s { scheduler = o })
keep-Waits s o id k n w = record { ready = λ j h. k j (n j h) (w.ready j h); single = w.single }

-- Only the scheduler and the batch are read.
pub same-Waits :
    (s s' : System) → s.scheduler ≡ s'.scheduler → s.batch ≡ s'.batch → Waits s' → Waits s
same-Waits s s' o b w = record {
  ready = λ j h.
      subst (λ x. IsReady x j) (sym o)
        (w.ready j (subst (λ x. elem j (ids waiting_id x) ≡ true) b h));
  single = subst (λ x. Distinct (ids waiting_id x)) (sym b) w.single;
}

pub picked-IsReady :
    (s : System) (n : ℕ) (id : String) (rest : List String)
    → Waits s
    → pick n s.batch ≡ some (id, rest)
    → IsReady s.scheduler id
picked-IsReady s n id rest w e =
    w.ready id (ground (arith, elem-pick waiting_id id n s.batch e, eq_iff id id))

begun-scheduler : (s : System) (answer : Answer InFlight) → (begun s answer).scheduler ≡ answer.0
begun-scheduler s (o, ok f) = refl
begun-scheduler s (o, err e) = refl

begun-batch : (s : System) (answer : Answer InFlight) → (begun s answer).batch ≡ s.batch
begun-batch s (o, ok f) = refl
begun-batch s (o, err e) = refl

-- The package of a goroutine that begins is not among those that wait on.
pub begun-Waits :
    (s : System) (n : ℕ) (id : String) (rest : List String) (answer : Answer InFlight)
    → Inv s
    → Waits s
    → pick n s.batch ≡ some (id, rest)
    → Begin s.scheduler answer id
    → Waits (begun (record s { batch = rest }) answer)
begun-Waits s n id rest answer v w e b =
    let d = pick-Distinct waiting_id n s.batch e w.single in
    let s' = record s { batch = rest } in
    let (wp, there, dispatchable, deps) =
      ready-facts s.scheduler.graph id v.core.well (picked-IsReady s n id rest w e) in
    let keeps = Begin-KeepsReady s.scheduler answer id v.core.well (λ h. absurd (ground arith)) b in
    let u =
      keep-Waits s' answer.0 id keeps (λ j h. ground (arith, d.0, h, eq_iff id j))
        (record {
          ready = λ j h. w.ready j (ground (arith, elem-pick waiting_id j n s.batch e, h));
          single = d.1;
        }) in
    same-Waits (begun s' answer) (record s' { scheduler = answer.0 }) (begun-scheduler s' answer)
      (begun-batch s' answer) u

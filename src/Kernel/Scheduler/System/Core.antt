-- ===== src/Kernel/Scheduler/System/Core.antt =====
-- kernel/scheduler: what holds of the graph and of the assignments between two moves.
use aa.Base.{
  String, ◌≡◌, refl, ◌≢◌, inl, inr, true, false, Option, some, List, ◌∷◌, elem, str_eq, eq_iff,
  if◌then◌else◌, arith, Bool-cases, ap, ◌∙◌, sym, subst,
}
use aa.Base.Assoc.{lookup}
use aa.Kernel.Planner
use aa.Kernel.Planner.Readiness.{IsWellFormed}
use aa.Kernel.Planner.Progress.{
  state_of, put_state, state_of-put_state, put_state-IsWellFormed, put_state-RespectsDependencies,
  RespectsDependencies,
}
use aa.Kernel.Assignment
use aa.Kernel.Assignment.{Assignment}
use aa.Kernel.Scheduler.{Scheduler, Answer, DispatchReport}
use aa.Kernel.Scheduler.System.Parts.{Change, kept, moved, closed, completed, says_failed}

-- `flying` are the packages with the runtime, and `failing` those whose failure is in the channel.
pub record Core (o : Scheduler) (flying failing : List String) : Type 0 where
  pub well : IsWellFormed o.graph
  pub respects : RespectsDependencies o.graph
  pub flies : (id : String) → elem id flying ≡ true → state_of o.graph id ≡ some Planner.running
  pub fails : (id : String) → elem id failing ≡ true → state_of o.graph id ≡ some Planner.deficient
  pub keyed :
      (id : String) (a : Assignment) → lookup id o.assignments ≡ some a → a.work_package_id ≡ id
  pub waits :
      (id : String) (a : Assignment)
      → lookup id o.assignments ≡ some a
      → a.state ≡ Assignment.awaiting_gates
      → (state_of o.graph id ≡ some Planner.running) × (elem id flying ≡ false)
  pub done :
      (id : String)
      → state_of o.graph id ≡ some Planner.completed
      → (a : Assignment) × (lookup id o.assignments ≡ some a) × (a.state ≡ Assignment.accepted)

-- One package gets the state `s` and the assignment `x`; nothing else changes.
module _ (o o' : Scheduler) (id : String) (s : Planner.State) (x : Option Assignment)
    (flying flying' failing failing' : List String) (well : IsWellFormed o'.graph)
    (respects : RespectsDependencies o'.graph)
    (states : (j : String)
      → state_of o'.graph j ≡ (if str_eq id j then some s else state_of o.graph j))
    (stored : (j : String)
      → lookup j o'.assignments ≡ (if str_eq id j then x else lookup j o.assignments))
    (others_fly : (j : String) → str_eq id j ≡ false → elem j flying' ≡ elem j flying)
    (others_fail : (j : String)
      → str_eq id j ≡ false
      → elem j failing' ≡ true
      → elem j failing ≡ true)
    (flies : elem id flying' ≡ true → s ≡ Planner.running)
    (fails : elem id failing' ≡ true → s ≡ Planner.deficient)
    (keyed : (a : Assignment) → x ≡ some a → a.work_package_id ≡ id)
    (waits : (a : Assignment)
      → x ≡ some a
      → a.state ≡ Assignment.awaiting_gates
      → (s ≡ Planner.running) × (elem id flying' ≡ false))
    (done : s ≡ Planner.completed
      → (a : Assignment) × (x ≡ some a) × (a.state ≡ Assignment.accepted)) where
  pub update-Core : Core o flying failing → Core o' flying' failing'
  update-Core c = record {
    well = well;
    respects = respects;
    flies = λ j h. elim (Bool-cases (str_eq id j)) [
      | inl e ↦ ground (arith, states j, flies, eq_iff id j)
      | inr e ↦ ground (arith, states j, others_fly j e, c.flies j)
    ];
    fails = λ j h. elim (Bool-cases (str_eq id j)) [
      | inl e ↦ ground (arith, states j, fails, eq_iff id j)
      | inr e ↦ ground (arith, states j, others_fail j e, c.fails j)
    ];
    keyed = λ j a h. elim (Bool-cases (str_eq id j)) [
      | inl e ↦ ground (arith, stored j, keyed a, eq_iff id j)
      | inr e ↦ c.keyed j a (ground (arith, stored j))
    ];
    waits = λ j a h w. elim (Bool-cases (str_eq id j)) [
      | inl e ↦ ground (arith, stored j, states j, waits a, eq_iff id j)
      | inr e ↦ ground (arith, stored j, states j, others_fly j e, c.waits j a)
    ];
    done = λ j h. elim (Bool-cases (str_eq id j)) [
      | inl e ↦
          (let (a, there, ok_state) = done (ground (arith, states j)) in
            (a, ground (arith, stored j), ok_state))
      | inr e ↦
          (let (a, there, ok_state) = c.done j (ground (arith, states j)) in
            (a, ground (arith, stored j), ok_state))
    ];
  }

-- Fewer failures in the channel ask for less.
pub forget-Core :
    (o : Scheduler) (flying failing failing' : List String)
    → ((j : String) → elem j failing' ≡ true → elem j failing ≡ true)
    → Core o flying failing
    → Core o flying failing'
forget-Core o flying failing failing' fewer c = record {
  well = c.well;
  respects = c.respects;
  flies = c.flies;
  fails = λ j h. c.fails j (fewer j h);
  keyed = c.keyed;
  waits = c.waits;
  done = c.done;
}

-- The failures in the channel once a call has answered.
abbrev pub after_answer : Answer DispatchReport → String → List String → List String
after_answer answer id failing = if says_failed answer.1 then id ∷ failing else failing

module _ (o : Scheduler) (id : String) (flying failing : List String)
    (answer : Answer DispatchReport) (landed : elem id flying ≡ false)
    (ran : state_of o.graph id ≡ some Planner.running) (c : Core o flying failing) where
  not_failing : elem id failing ≡ false
  not_failing = ground (arith, c.fails id)

  put-Core :
      (s : Planner.State) (a : Assignment)
      → answer.0.graph ≡ put_state o.graph id s
      → ((j : String)
          → lookup j answer.0.assignments
            ≡ (if str_eq id j then some a else lookup j o.assignments))
      → a.work_package_id ≡ id
      → a.state ≢ Assignment.awaiting_gates
      → (s ≡ Planner.completed → a.state ≡ Assignment.accepted)
      → (says_failed answer.1 ≡ true → s ≡ Planner.deficient)
      → Core answer.0 flying (after_answer answer id failing)
  put-Core s a g l w n d f =
      update-Core o answer.0 id s (some a) flying flying failing (after_answer answer id failing)
        (subst IsWellFormed (sym g) (put_state-IsWellFormed o.graph id s c.well))
        (subst RespectsDependencies (sym g) (
          put_state-RespectsDependencies o.graph id s (λ e. cc)
            (λ wp e. ground (arith, c.respects id wp e)) c.respects))
        (λ j.
          ap (λ h. state_of h j) g ∙ ground (arith, state_of-put_state o.graph id j s, eq_iff id j))
        l (λ j e. refl) (λ j e h. ground arith) (λ h. cc) (λ h. ground (arith, f, not_failing))
        (λ b e. ground arith) (λ b e h. absurd (n (ground arith))) (λ e. (a, refl, d e)) c

  stay-Core :
      (x : Option Assignment)
      → answer.0.graph ≡ o.graph
      → ((j : String)
          → lookup j answer.0.assignments ≡ (if str_eq id j then x else lookup j o.assignments))
      → ((a : Assignment) → x ≡ some a → a.work_package_id ≡ id)
      → says_failed answer.1 ≡ false
      → Core answer.0 flying (after_answer answer id failing)
  stay-Core x g l w f =
      update-Core o answer.0 id Planner.running x flying flying failing
        (after_answer answer id failing) (subst IsWellFormed (sym g) c.well)
        (subst RespectsDependencies (sym g) c.respects)
        (λ j. ap (λ h. state_of h j) g ∙ ground (arith, eq_iff id j)) l (λ j e. refl)
        (λ j e h. ground arith) (λ h. refl) (λ h. ground (arith, not_failing)) w
        (λ b e h. (refl, landed)) (λ e. cc) c

  -- A change of a package that runs and is not with the runtime keeps the invariant.
  pub Change-Core : Change o answer id → Core answer.0 flying (after_answer answer id failing)
  Change-Core (kept g l f s) =
      stay-Core (lookup id o.assignments) g (λ j. l j ∙ ground (arith, eq_iff id j)) (c.keyed id) f
  Change-Core (moved a w n g l f s) = stay-Core (some a) g l (λ b e. ground arith) f
  Change-Core (closed a w e g l s) =
      put-Core Planner.deficient a g l w (λ h. cc) (λ h. cc) (λ h. refl)
  Change-Core (completed a w e g l f) =
      put-Core Planner.completed a g l w (λ h. cc) (λ h. e) (λ h. cc)

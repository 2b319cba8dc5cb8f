-- ===== src/Toolbox/Workflow/History.antt =====
-- toolbox/workflow/runtime.go: the results and the log of a run, and what the log may hold.
use aa.Base.{
  ℕ, suc, ◌≤◌, String, true, false, Option, none, some, List, [], ◌∷◌, ◌≡◌, refl, ap, ◌∙◌, any,
  elem, ◌||◌, ◌&&◌, Bool, str_eq, eq_iff, eq_refl, get_or, if◌then◌else◌, arith,
}
use aa.Base.Int.{ℤ, pos, negsuc}
use aa.Base.Assoc.{lookup, lookup-insert}
use aa.Toolbox.Workflow.{
  Step, Plan, StepResult, RunState, Event, ran, undone, evaluated, recorded, is_done, put, all_done,
  deps_satisfied, max_attempts, skipped, compensated, completed,
}

abbrev pub Done : RunState → String → Type 0
Done s id = is_done (lookup id s.results) ≡ true

-- What is done stays done.
abbrev pub Grows : RunState → RunState → Type 0
Grows s s' = (j : String) → Done s j → Done s' j

pub lookup-put :
    (s : RunState) (r : StepResult) (j : String)
    → lookup j (put s r).results ≡ (if str_eq r.id j then some r else lookup j s.results)
lookup-put s r j = lookup-insert r.id j r s.results

pub put-Grows :
    (s : RunState) (r : StepResult) → is_done (lookup r.id s.results) ≡ false → Grows s (put s r)
put-Grows s r n j d = ap is_done (lookup-put s r j) ∙ ground (arith, eq_iff r.id j, n, d)

pub put-here : (s : RunState) (r : StepResult) → lookup r.id (put s r).results ≡ some r
put-here s r = lookup-put s r r.id ∙ ground (arith, eq_refl r.id)

all_done-Grows :
    (s s' : RunState) (deps : List String)
    → Grows s s'
    → all_done s.results deps ≡ true
    → all_done s'.results deps ≡ true
unfolding all_done
all_done-Grows s s' [] g h = refl
all_done-Grows s s' (dep ∷ deps) g h = ground (arith, g dep, all_done-Grows s s' deps g, h)

pub deps-Grows :
    (plan : Plan) (s s' : RunState) (id : String)
    → Grows s s'
    → deps_satisfied plan s id ≡ true
    → deps_satisfied plan s' id ≡ true
unfolding deps_satisfied
deps-Grows plan s s' id g h = all_done-Grows s s' (get_or (lookup id plan.depends_on) []) g h

-- A step that has been completed, skipped or compensated, told by the names of the states.
abbrev pub is_over : Option StepResult → Bool
is_over none = false
is_over (some r) = elim r.state [
  | completed ↦ true
  | skipped ↦ true
  | compensated ↦ true
  | _ ↦ false
]

pub done_is_over : (o : Option StepResult) → is_done o ≡ true → is_over o ≡ true
done_is_over o h = ground arith

-- The event says that the step went well.
abbrev pub is_success : String → Event → Bool
is_success j (recorded id kind attempts went_well) = went_well && str_eq id j
is_success j event = false

-- The first attempt and the retries, of which a negative number is none.
abbrev pub tries_of : Option ℤ → ℕ
tries_of none = 1
tries_of (some (pos n)) = suc n
tries_of (some (negsuc n)) = 1

pub max_attempts_le : (step : Step) → max_attempts step ≤ tries_of step.retries
unfolding max_attempts
max_attempts_le step = ground arith

abbrev pub deps_of : Plan → String → List String
deps_of plan id = get_or (lookup id plan.depends_on) []

pub all_done-elem :
    (s : RunState) (deps : List String) (d : String)
    → all_done s.results deps ≡ true
    → elem d deps ≡ true
    → Done s d
unfolding all_done
all_done-elem s [] d h e = absurd (ground (arith, e))
all_done-elem s (dep ∷ deps) d h e = ground (arith, all_done-elem s deps d, h, e, eq_iff dep d)

-- A run of the plan that starts from the state `before`; logs have the last event in front.
module _ (plan : Plan) (before : RunState) where
  -- The step was over before the run, or has gone well in it.
  abbrev pub known : List Event → String → Bool
  known log j = is_over (lookup j before.results) || any (is_success j) log

  -- Each call of the runner came when the dependencies of its step were known to be over, and its
  -- attempt is one that the step has.
  abbrev pub Legit : List Event → Type 0
  Legit [] = Unit
  Legit (ran id n ∷ log) =
      ((d : String) → elem d (deps_of plan id) ≡ true → known log d ≡ true)
      × ((step : Step) → lookup id plan.steps ≡ some step → n ≤ tries_of step.retries)
      × Legit log
  Legit (undone id ∷ log) = Legit log
  Legit (evaluated id ∷ log) = Legit log
  Legit (recorded id kind n b ∷ log) = Legit log

  -- All that is done is known.
  abbrev pub Kept : RunState → List Event → Type 0
  Kept s log = Legit log × ((j : String) → Done s j → known log j ≡ true)

  -- The same, but for the step that is under way.
  abbrev pub KeptBut : String → RunState → List Event → Type 0
  KeptBut id s log =
      Legit log × ((j : String) → str_eq id j ≡ false → Done s j → known log j ≡ true)

  pub known_cons :
      (e : Event) (log : List Event) (j : String) → known log j ≡ true → known (e ∷ log) j ≡ true
  known_cons e log j h = ground (arith, h)

  pub put-KeptBut :
      (id : String) (s : RunState) (r : StepResult) (log : List Event)
      → r.id ≡ id
      → KeptBut id s log
      → KeptBut id (put s r) log
  put-KeptBut id s r log e k = (k.0, λ j n d. k.1 j n (ground (arith, lookup-put s r j, e, n, d)))

-- ===== src/Runtime/Lifecycle/Frames.antt =====
-- runtime/lifecycle/lifecycle.go: what each call leaves alone, and where the controls stand.
use aa.Base.{
  ℕ, ◌+◌, ◌<◌, String, true, Option, none, some, List, [], ◌∷◌, ◌≡◌, refl, ap, ◌∙◌, sym, str_eq,
  is_some, if◌then◌else◌, arith, subst,
}
use aa.Base.Assoc.{lookup, insert, delete, lookup-insert, lookup-delete}
use aa.Runtime.Worker.{Outcome}
use aa.Runtime.Lifecycle.{
  Manager, Instance, State, Call, transition_found, transition, finish, finish_found, begin_run,
  end_run, ended, signal, signal_found, begin_hook, end_hook, call, calls, begins, ends, signals,
  hook_begins, hook_ends, by_outcome, final_state, next_id, started, with_run, with_hook, running,
  starting, stopping,
}

-- Signals and runs stay as they are, and no worker is lost.
pub record Frame (m m' : Manager) : Type 0 where
  pub active : m'.active ≡ m.active
  pub controls : m'.controls ≡ m.controls
  pub next : m'.next_control ≡ m.next_control
  pub known :
      (j : String) → is_some (lookup j m.workers) ≡ true → is_some (lookup j m'.workers) ≡ true

Frame-trans : (m n o : Manager) → Frame m n → Frame n o → Frame m o
Frame-trans m n o f g = record {
  active = g.active ∙ f.active;
  controls = g.controls ∙ f.controls;
  next = g.next ∙ f.next;
  known = λ j h. g.known j (f.known j h);
}

pub insert_known :
    (id j : String) (r : Instance) (workers : List (String × Instance))
    → is_some (lookup j workers) ≡ true
    → is_some (lookup j (insert id r workers)) ≡ true
insert_known id j r workers h = ap is_some (lookup-insert id j r workers) ∙ ground (arith, h)

transition_found-Frame :
    (m : Manager) (id : String) (r : Option Instance) (state : State) (now : ℕ) (reason : String)
    → Frame m (transition_found m id r state now reason)
unfolding transition_found
transition_found-Frame m id none state now reason = record {
  active = refl;
  controls = refl;
  next = refl;
  known = λ j h. h;
}
transition_found-Frame m id (some r) state now reason = record {
  active = refl;
  controls = refl;
  next = refl;
  known = λ j h. insert_known id j _ m.workers h;
}

transition-Frame :
    (m : Manager) (id : String) (state : State) (now : ℕ) (reason : String)
    → Frame m (transition m id state now reason)
unfolding transition
transition-Frame m id state now reason =
    transition_found-Frame m id (lookup id m.workers) state now reason

finish_found-Frame :
    (m : Manager) (id : String) (r : Option Instance) (outcome : Outcome) (now : ℕ)
    → Frame m (finish_found m id r outcome now)
unfolding finish_found
finish_found-Frame m id none outcome now = record {
  active = refl;
  controls = refl;
  next = refl;
  known = λ j h. h;
}
finish_found-Frame m id (some r) outcome now = record {
  active = refl;
  controls = refl;
  next = refl;
  known = λ j h. insert_known id j _ m.workers h;
}

pub ended-Frame :
    (m : Manager) (id : String) (outcome : Outcome) (x : State × String) (now : ℕ)
    → Frame m (ended m id outcome x now)
unfolding finish
ended-Frame m id outcome x now =
    let a = finish_found-Frame m id (lookup id m.workers) outcome now in
    let b = transition-Frame (finish m id outcome now) id stopping now x.1 in
    Frame-trans m _ _ (Frame-trans m _ _ a b)
      (transition-Frame (transition (finish m id outcome now) id stopping now x.1) id x.0 now x.1)

pub started-Frame : (m : Manager) (id : String) (now : ℕ) → Frame m (started m id now)
started-Frame m id now =
    Frame-trans m _ _ (transition-Frame m id starting now "")
      (transition-Frame (transition m id starting now "") id running now "")

-- Every active worker's control is one that was made.
abbrev pub Below : Manager → Type 0
Below m = (j : String) (p : ℕ) → lookup j m.active ≡ some p → p < m.next_control

Frame-Below : (m m' : Manager) → Frame m m' → Below m → Below m'
Frame-Below m m' f b j p e =
    subst (λ n. p < n) (sym f.next) (b j p (ap (lookup j) (sym f.active) ∙ e))

call-Below : (m : Manager) (c : Call) → Below m → Below (call m c)
unfolding call begin_run end_run begin_hook end_hook signal signal_found
call-Below m (begins req now) b =
    Frame-Below (with_run m req now) _
      (started-Frame (with_run m req now) (next_id m req.assignment_id) now)
      (λ j p e.
        new_place j p
          (rw (lookup-insert (next_id m req.assignment_id) j m.next_control m.active) at e))
  where
    new_place :
        (j : String) (p : ℕ)
        → (if str_eq (next_id m req.assignment_id) j
            then some m.next_control
            else lookup j m.active)
          ≡ some p
        → p < m.next_control + 1
    new_place j p e = ground (arith, e, b j p)
call-Below m (ends id place outcome now) b =
    Frame-Below (record m { active = delete id m.active }) _
      (ended-Frame (record m { active = delete id m.active }) id outcome
        (final_state (m.controls place) outcome) now)
      (λ j p e. b j p (ground (arith, lookup-delete id j m.active, e)))
call-Below m (signals id terminate) b = signal_Below (lookup id m.active)
  where
    signal_Below : (place : Option ℕ) → Below (signal_found m terminate place).0
    signal_Below none = b
    signal_Below (some place) = b
call-Below m (hook_begins a w k cs now) b =
    Frame-Below (with_hook m a w k cs now) _
      (started-Frame (with_hook m a w k cs now) (next_id m a) now) b
call-Below m (hook_ends id outcome now) b =
    Frame-Below m _ (ended-Frame m id outcome (by_outcome outcome) now) b

pub calls-Below : (m : Manager) (cs : List Call) → Below m → Below (calls m cs)
unfolding calls
calls-Below m [] b = b
calls-Below m (c ∷ cs) b = calls-Below (call m c) cs (call-Below m c b)

-- ===== src/Runtime/Lifecycle/Running.antt =====
-- runtime/lifecycle/lifecycle.go: a run that is on, and what its control hears.
use aa.Base.{
  ℕ, ◌<◌, String, Bool, true, false, not, ◌&&◌, ◌||◌, Option, none, some, List, [], ◌∷◌, ◌≡◌, refl,
  ap, ◌∙◌, sym, any, str_eq, eq_iff, same_bool, is_some, ◌==◌, if◌then◌else◌, if_rule, Bool-cases,
  inl, inr, arith, subst,
}
use aa.Base.Assoc.{lookup, delete, lookup-insert, lookup-delete}
use aa.Runtime.Worker.{Request}
use aa.Runtime.Lifecycle.{
  Manager, Call, Control, begin_run, end_run, signalled, signal, signal_found, begin_hook, end_hook,
  call, calls, begins, ends, signals, hook_begins, hook_ends, by_outcome, final_state, next_id,
  with_run, with_hook,
}
use aa.Runtime.Lifecycle.Frames.{Frame, insert_known, ended-Frame, started-Frame}

-- The run with this control is on, and nothing else has its control.
pub record Running (m : Manager) (id : String) (place : ℕ) (c : Control) : Type 0 where
  pub here : lookup id m.active ≡ some place
  pub control : m.controls place ≡ c
  pub made : place < m.next_control
  pub only : (j : String) → lookup j m.active ≡ some place → j ≡ id
  pub known : is_some (lookup id m.workers) ≡ true

pub Frame-Running :
    (m m' : Manager) (id : String) (place : ℕ) (c : Control)
    → Frame m m'
    → Running m id place c
    → Running m' id place c
Frame-Running m m' id place c f r = record {
  here = ap (lookup id) f.active ∙ r.here;
  control = ap (λ (g : ℕ → Control). g place) f.controls ∙ r.control;
  made = subst (λ n. place < n) (sym f.next) r.made;
  only = λ j e. r.only j (ap (lookup j) (sym f.active) ∙ e);
  known = f.known id r.known;
}

-- The call does not begin or end a worker of this id.
abbrev pub leaves_alone : Manager → String → Call → Bool
leaves_alone m id (begins req now) = not (str_eq (next_id m req.assignment_id) id)
leaves_alone m id (ends j place outcome now) = not (str_eq j id)
leaves_alone m id (signals j terminate) = true
leaves_alone m id (hook_begins a w k cs now) = not (str_eq (next_id m a) id)
leaves_alone m id (hook_ends j outcome now) = not (str_eq j id)

unfoldable pub all_leave_alone : Manager → String → List Call → Bool
all_leave_alone m id [] = true
all_leave_alone m id (c ∷ cs) = leaves_alone m id c && all_leave_alone (call m c) id cs

abbrev pub is_signal : String → Bool → Call → Bool
is_signal id t (signals j terminate) = str_eq j id && same_bool t terminate
is_signal id t c = false

-- A control that has heard the call.
abbrev heard : String → Control → Call → Control
heard id c call = record {
  stopped = c.stopped || is_signal id false call;
  terminated = c.terminated || is_signal id true call;
}

quiet :
    (k : Control)
    → ◌≡◌ {A = Control}
        (record { stopped = k.stopped || false; terminated = k.terminated || false })
        k
quiet k = ground arith

hears_signal :
    (k : Control) (t : Bool)
    → signalled t k ≡ record {
      stopped = k.stopped || same_bool false t;
      terminated = k.terminated || same_bool true t;
    }
hears_signal k true = ground arith
hears_signal k false = ground arith

with_run-Running :
    (m : Manager) (id : String) (place : ℕ) (k : Control) (req : Request) (now : ℕ)
    → str_eq (next_id m req.assignment_id) id ≡ false
    → Running m id place k
    → Running (with_run m req now) id place k
with_run-Running m id place k req now h r = record {
  here =
      lookup-insert (next_id m req.assignment_id) id m.next_control m.active
      ∙ ground (arith, h, r.here);
  control =
      if_rule (λ x. x ≡ k) (m.next_control == place) (λ e. absurd (ground (arith, e, r.made)))
        (λ _. r.control);
  made = omega (arith, r.made);
  only = λ j e.
      other j (rw (lookup-insert (next_id m req.assignment_id) j m.next_control m.active) at e);
  known = insert_known (next_id m req.assignment_id) id _ m.workers r.known;
}
  where
    other :
        (j : String)
        → (if str_eq (next_id m req.assignment_id) j
            then some m.next_control
            else lookup j m.active)
          ≡ some place
        → j ≡ id
    other j e = ground (arith, e, r.made, r.only j)

deleted-Running :
    (m : Manager) (id j : String) (place : ℕ) (k : Control)
    → str_eq j id ≡ false
    → Running m id place k
    → Running (record m { active = delete j m.active }) id place k
deleted-Running m id j place k h r = record {
  here = lookup-delete j id m.active ∙ ground (arith, h, r.here);
  control = r.control;
  made = r.made;
  only = λ i e. r.only i (ground (arith, lookup-delete j i m.active, e));
  known = r.known;
}

signal_found-Running :
    (m : Manager) (id j : String) (place : ℕ) (k : Control) (t : Bool) (o : Option ℕ)
    → lookup j m.active ≡ o
    → Running m id place k
    → Running (signal_found m t o).0 id place (heard id k (signals j t))
unfolding signal_found
signal_found-Running m id j place k t none e r =
    let off : str_eq j id ≡ false = ground (arith, e, r.here, eq_iff j id) in
    rw off (subst (Running m id place) (sym (quiet k)) r)
signal_found-Running m id j place k t (some p) e r = elim (Bool-cases (p == place)) [
  | inl at ↦
      (let same : j ≡ id = r.only j (e ∙ ap some (ground (arith, at))) in
        let on : str_eq j id ≡ true = ground (arith, same, eq_iff j id) in
        record {
          here = r.here;
          control = rw (at, on) (ap (signalled t) r.control ∙ hears_signal k t);
          made = r.made;
          only = r.only;
          known = r.known;
        })
  | inr off ↦
      (let other : str_eq j id ≡ false = ground (arith, off, e, r.here, eq_iff j id) in
        record {
          here = r.here;
          control = rw (off, other) (r.control ∙ sym (quiet k));
          made = r.made;
          only = r.only;
          known = r.known;
        })
]

call-Running :
    (m : Manager) (id : String) (place : ℕ) (k : Control) (c : Call)
    → leaves_alone m id c ≡ true
    → Running m id place k
    → Running (call m c) id place (heard id k c)
unfolding call begin_run end_run begin_hook end_hook signal
call-Running m id place k (begins req now) h r =
    Frame-Running (with_run m req now) _ id place _
      (started-Frame (with_run m req now) (next_id m req.assignment_id) now)
      (subst (Running (with_run m req now) id place) (sym (quiet k))
        (with_run-Running m id place k req now (ground (arith, h)) r))
call-Running m id place k (ends j p outcome now) h r =
    let m' : Manager = record m { active = delete j m.active } in
    Frame-Running m' _ id place _
      (ended-Frame m' j outcome (final_state (m.controls p) outcome) now)
      (subst (Running m' id place) (sym (quiet k))
        (deleted-Running m id j place k (ground (arith, h)) r))
call-Running m id place k (signals j terminate) h r =
    signal_found-Running m id j place k terminate (lookup j m.active) refl r
call-Running m id place k (hook_begins a w t cs now) h r =
    Frame-Running (with_hook m a w t cs now) _ id place _
      (started-Frame (with_hook m a w t cs now) (next_id m a) now)
      (subst (Running (with_hook m a w t cs now) id place) (sym (quiet k)) (record {
        here = r.here;
        control = r.control;
        made = r.made;
        only = r.only;
        known = insert_known (next_id m a) id _ m.workers r.known;
      }))
call-Running m id place k (hook_ends j outcome now) h r =
    Frame-Running m _ id place _ (ended-Frame m j outcome (by_outcome outcome) now)
      (subst (Running m id place) (sym (quiet k)) r)

-- What a control has heard of a list of calls.
abbrev pub heard_all : String → List Call → Control
heard_all id cs = record {
  stopped = any (is_signal id false) cs;
  terminated = any (is_signal id true) cs;
}

abbrev after : Control → Control → Control
after k c = record { stopped = k.stopped || c.stopped; terminated = k.terminated || c.terminated }

or_assoc : (a b c : Bool) → ((a || b) || c) ≡ (a || (b || c))
or_assoc true b c = refl
or_assoc false b c = refl

pub calls-Running :
    (m : Manager) (id : String) (place : ℕ) (k : Control) (cs : List Call)
    → all_leave_alone m id cs ≡ true
    → Running m id place k
    → Running (calls m cs) id place (after k (heard_all id cs))
unfolding calls all_leave_alone
calls-Running m id place k [] h r = subst (Running m id place) (sym (quiet k)) r
calls-Running m id place k (c ∷ cs) h r =
    subst (Running (calls (call m c) cs) id place)
      (ground (
        arith,
        or_assoc k.stopped (is_signal id false c) (any (is_signal id false) cs),
        or_assoc k.terminated (is_signal id true c) (any (is_signal id true) cs),
      ))
      (calls-Running (call m c) id place (heard id k c) cs (ground (arith, h))
        (call-Running m id place k c (ground (arith, h)) r))

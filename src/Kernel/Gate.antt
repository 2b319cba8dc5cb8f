-- ===== src/Kernel/Gate.antt =====
-- kernel/gate/gate.go: gates decide on a subject, and a report combines their decisions.
pub mod Reports
use aa.Base.{
  String, Bool, true, false, not, ◌&&◌, ◌||◌, Option, none, some, List, [], ◌∷◌, ◌++◌, str_eq,
  str_lt, is_some, get_or, if◌then◌else◌,
}
use aa.Base.Assoc.{lookup, insert, delete}
use aa.Base.Sort.{sort_by}

pub record TestSummary : Type 0 where
  pub name : String
  pub outcome : String

pub record Subject : Type 0 where
  pub work_package_id : String
  pub status : String
  pub tests : List TestSummary
  pub contract_id : String

-- The reason's variable part is carried beside its fixed text.
pub data Reason : Type 0 where
  no_tests_reported all_tests_passed approved_by_human awaiting_human_approval : Reason
  test_did_not_pass : String → Reason
  rejected_because : String → Reason
  other_reason : String → Reason

pub record Decision : Type 0 where
  pub gate : String
  pub passed : Bool
  pub pending : Bool
  pub reason : Reason

pub record HumanGate : Type 0 where
  pub approved : List (String × Bool)
  pub rejected : List (String × String)

-- The two gates of the package, and any other value of the interface `Gate`.
pub data Gate : Type 0 where
  tests_gate : Gate
  human_gate : HumanGate → Gate
  custom_gate : String → (Subject → Decision) → Gate

unfoldable pub new_human_gate : HumanGate
new_human_gate = record { approved = []; rejected = [] }

unfoldable pub name : Gate → String
name tests_gate = "tests"
name (human_gate g) = "human_review"
name (custom_gate n f) = n

-- The loop of `TestsGate.Evaluate`.
unfoldable pub evaluate_tests : List TestSummary → Decision
evaluate_tests [] = record {
  gate = "tests";
  passed = true;
  pending = false;
  reason = all_tests_passed;
}
evaluate_tests (t ∷ ts) =
    let rest = evaluate_tests ts in
    if not (str_eq t.outcome "passed")
    then record {
      gate = "tests";
      passed = false;
      pending = false;
      reason = test_did_not_pass t.name;
    }
    else rest

abbrev pub evaluate_tests_gate : List TestSummary → Decision
evaluate_tests_gate [] = record {
  gate = "tests";
  passed = false;
  pending = false;
  reason = no_tests_reported;
}
evaluate_tests_gate (t ∷ ts) = evaluate_tests (t ∷ ts)

unfoldable pub approve_human : HumanGate → String → HumanGate
approve_human g id = record g { approved = insert id true g.approved }

unfoldable pub reject_human : HumanGate → String → String → HumanGate
reject_human g id reason = record g {
  approved = delete id g.approved;
  rejected = insert id reason g.rejected;
}

unfoldable pub evaluate_human : HumanGate → Subject → Decision
evaluate_human g s = elim (lookup s.work_package_id g.rejected) [
  | some reason ↦ record {
    gate = "human_review";
    passed = false;
    pending = false;
    reason = rejected_because (if str_eq reason "" then "no reason given" else reason);
  }
  | none ↦
      if get_or (lookup s.work_package_id g.approved) false
      then record {
        gate = "human_review";
        passed = true;
        pending = false;
        reason = approved_by_human;
      }
      else record {
        gate = "human_review";
        passed = false;
        pending = true;
        reason = awaiting_human_approval;
      }
]

unfoldable pub evaluate_gate : Gate → Subject → Decision
unfolding evaluate_tests evaluate_human
evaluate_gate tests_gate s = evaluate_tests_gate s.tests
evaluate_gate (human_gate g) s = evaluate_human g s
evaluate_gate (custom_gate n f) s = f s

pub record Report : Type 0 where
  pub passed : Bool
  pub pending : Bool
  pub decisions : List Decision

-- The body of the loop of `Evaluate`.
abbrev pub add_decision : Report → Decision → Report
add_decision report d = record {
  passed = if d.pending then false else if not d.passed then false else report.passed;
  pending = if d.pending then true else report.pending;
  decisions = report.decisions ++ d ∷ [];
}

-- The loop of `Evaluate` over the sorted gates.
unfoldable pub evaluate_from : Report → List Gate → Subject → Report
evaluate_from report [] s = report
evaluate_from report (g ∷ gs) s = evaluate_from (add_decision report (evaluate_gate g s)) gs s

unfoldable pub evaluate : List Gate → Subject → Report
unfolding evaluate_from name
evaluate gates s =
    evaluate_from (record { passed = true; pending = false; decisions = [] })
      (sort_by (λ a b. str_lt (name a) (name b)) gates) s

-- ===== src/Kernel/Gate/Reports.antt =====
-- kernel/gate/gate.go: what a combined report says of the gates, and how a human gate decides.
use aa.Base.{
  String, ◌≡◌, refl, Bool, true, false, not, ◌&&◌, ◌||◌, List, [], ◌∷◌, any, all, str_eq, str_lt,
  is_some, arith, get_or, is_empty,
}
use aa.Base.Assoc.{lookup, lookup-insert, lookup-delete}
use aa.Base.Sort.{sort_by, any-sort_by, all-sort_by}
use aa.Kernel.Gate.{
  TestSummary, Subject, HumanGate, Gate, tests_gate, name, evaluate_tests, evaluate_tests_gate,
  approve_human, reject_human, evaluate_human, evaluate_gate, Report, add_decision, evaluate_from,
  evaluate, new_human_gate,
}

abbrev pub clears : Subject → Gate → Bool
clears s g = (evaluate_gate g s).passed && not (evaluate_gate g s).pending

abbrev pub waits : Subject → Gate → Bool
waits s g = (evaluate_gate g s).pending

evaluate_from-passed :
    (r : Report) (gs : List Gate) (s : Subject)
    → ((evaluate_from r gs s).passed ≡ (r.passed && all (clears s) gs))
      × ((evaluate_from r gs s).pending ≡ (r.pending || any (waits s) gs))
unfolding evaluate_from
evaluate_from-passed r [] s = ground arith
evaluate_from-passed r (g ∷ gs) s =
    ground (arith, evaluate_from-passed (add_decision r (evaluate_gate g s)) gs s)

-- The combined report passes exactly when every gate passes and none is pending, and is pending
-- exactly when some gate is; the order in which the gates are given plays no part.
pub evaluate_iff :
    (gates : List Gate) (s : Subject)
    → ((evaluate gates s).passed ≡ all (clears s) gates)
      × ((evaluate gates s).pending ≡ any (waits s) gates)
unfolding evaluate
evaluate_iff gates s = ground (
  arith,
  evaluate_from-passed (record { passed = true; pending = false; decisions = [] })
      (sort_by (λ (a b : Gate). str_lt (name a) (name b)) gates) s,
  all-sort_by (λ (a b : Gate). str_lt (name a) (name b)) (clears s) gates,
  any-sort_by (λ (a b : Gate). str_lt (name a) (name b)) (waits s) gates,
)

-- What is called on a human gate.
pub data HumanCall : Type 0 where
  approves : String → HumanCall
  rejects : String → String → HumanCall

unfoldable pub human_call : HumanGate → HumanCall → HumanGate
human_call g (approves id) = approve_human g id
human_call g (rejects id reason) = reject_human g id reason

unfoldable pub human_calls : HumanGate → List HumanCall → HumanGate
unfolding human_call
human_calls g [] = g
human_calls g (c ∷ cs) = human_calls (human_call g c) cs

-- Whether a history rejects, or approves, a work package.
abbrev pub is_rejection : String → HumanCall → Bool
is_rejection id (approves j) = false
is_rejection id (rejects j reason) = str_eq j id

abbrev pub is_approval : String → HumanCall → Bool
is_approval id (approves j) = str_eq j id
is_approval id (rejects j reason) = false

rejected-human_calls :
    (g : HumanGate) (cs : List HumanCall) (id : String)
    → is_some (lookup id (human_calls g cs).rejected)
      ≡ (is_some (lookup id g.rejected) || any (is_rejection id) cs)
unfolding human_calls approve_human reject_human
rejected-human_calls g [] id = ground arith
rejected-human_calls g (approves j ∷ cs) id =
    ground (arith, rejected-human_calls (human_call g (approves j)) cs id)
rejected-human_calls g (rejects j r ∷ cs) id = ground (
  arith,
  rejected-human_calls (human_call g (rejects j r)) cs id,
  lookup-insert j id r g.rejected,
)

approved-human_calls :
    (g : HumanGate) (cs : List HumanCall) (id : String)
    → any (is_rejection id) cs ≡ false
    → get_or (lookup id (human_calls g cs).approved) false
      ≡ (get_or (lookup id g.approved) false || any (is_approval id) cs)
unfolding human_calls approve_human reject_human
approved-human_calls g [] id h = ground arith
approved-human_calls g (approves j ∷ cs) id h = ground (
  arith,
  approved-human_calls (human_call g (approves j)) cs id,
  lookup-insert j id true g.approved,
)
approved-human_calls g (rejects j r ∷ cs) id h =
    ground (
      arith,
      approved-human_calls (human_call g (rejects j r)) cs id,
      lookup-delete j id g.approved,
    )

-- After any history of calls on a new human gate, a work package passes exactly when it was approved
-- and never rejected, and waits exactly when it was neither: one rejection is final, whatever is
-- approved before or after it.
pub human_calls_iff :
    (cs : List HumanCall) (s : Subject)
    → let d = evaluate_human (human_calls new_human_gate cs) s in
      (d.passed
        ≡ (any (is_approval s.work_package_id) cs && not (any (is_rejection s.work_package_id) cs)))
      × (d.pending ≡ (
          not (any (is_approval s.work_package_id) cs)
          && not (any (is_rejection s.work_package_id) cs)))
unfolding evaluate_human new_human_gate lookup
human_calls_iff cs s = ground (
  arith,
  rejected-human_calls new_human_gate cs s.work_package_id,
  approved-human_calls new_human_gate cs s.work_package_id,
)

evaluate_tests-passed :
    (ts : List TestSummary)
    → ((evaluate_tests ts).passed ≡ all (λ t. str_eq t.outcome "passed") ts)
      × ((evaluate_tests ts).pending ≡ false)
unfolding evaluate_tests
evaluate_tests-passed [] = (refl, refl)
evaluate_tests-passed (t ∷ ts) = ground (arith, evaluate_tests-passed ts)

evaluate_tests_gate-passed :
    (ts : List TestSummary)
    → ((evaluate_tests_gate ts).passed
        ≡ (not (is_empty ts) && all (λ t. str_eq t.outcome "passed") ts))
      × ((evaluate_tests_gate ts).pending ≡ false)
evaluate_tests_gate-passed [] = (refl, refl)
evaluate_tests_gate-passed (t ∷ ts) = evaluate_tests-passed (t ∷ ts)

-- The tests gate passes exactly when tests were reported and all of them passed; it never waits.
pub evaluate_tests_iff :
    (s : Subject)
    → ((evaluate_gate tests_gate s).passed
        ≡ (not (is_empty s.tests) && all (λ t. str_eq t.outcome "passed") s.tests))
      × ((evaluate_gate tests_gate s).pending ≡ false)
unfolding evaluate_gate
evaluate_tests_iff s = evaluate_tests_gate-passed s.tests

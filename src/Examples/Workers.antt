-- ===== src/Examples/Workers.antt =====
-- runtime/lifecycle/lifecycle.go: a worker that is stopped and terminated while it runs.
use aa.Base.{◌≡◌, refl, true, false, some, List, [], ◌∷◌}
use aa.Base.Assoc.{lookup, insert}
use aa.Runtime.Worker.{Request, interrupted}
use aa.Runtime.Lifecycle.{
  Manager, Instance, call, begin_hook, State, Call, new, begin_run, end_run, calls, signals,
  hook_begins, is_terminal, is_active,
}
use aa.Runtime.Lifecycle.Running.{all_leave_alone}
use aa.Runtime.Lifecycle.Ends.{run-ends}

abbrev request : Request
request = record {
  assignment_id = "a1";
  work_package_id = "p";
  contract_id = "c";
  contract_digest = "";
  context_digest = "";
  instructions = "";
  capabilities = [];
}

abbrev earlier : List Call
earlier = hook_begins "a0" "p0" "w" [] 1 ∷ []

-- Stop, then Terminate for the worker, and another worker in between.
abbrev meanwhile : List Call
meanwhile = signals "wrk_a1" false ∷ hook_begins "a2" "p2" "w" [] 3 ∷ signals "wrk_a1" true ∷ []

begun : Manager
begun = (begin_run (calls (new 2) earlier) request 2).0

begun_run : begin_run (calls (new 2) earlier) request 2 ≡ (begun, "wrk_a1", 0)
unfolding begun begin_run calls call begin_hook new insert lookup
begun_run = refl

begun_alone : all_leave_alone begun "wrk_a1" meanwhile ≡ true
unfolding begun all_leave_alone
begun_alone = refl

run-ends_example :
    (r : Instance) × (lookup "wrk_a1"
        (end_run (calls begun meanwhile) "wrk_a1" 0 interrupted 9).workers
      ≡ some r)
    × (r.state ≡ State.terminated)
    × (is_terminal r.state ≡ true)
    × (r.ended_at ≡ 9)
    × (is_active (end_run (calls begun meanwhile) "wrk_a1" 0 interrupted 9) "wrk_a1" ≡ false)
run-ends_example = run-ends 2 earlier meanwhile request interrupted 2 9 begun_run begun_alone

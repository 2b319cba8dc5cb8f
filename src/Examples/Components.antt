-- ===== src/Examples/Components.antt =====
-- The components of kernel/ and of runtime/ at small inputs.
use aa.Base.{
  ◌≤◌, String, ◌≡◌, refl, inl, true, false, not, ◌&&◌, none, some, List, [], ◌∷◌, all, any, elem,
  str_lt, ok,
}
use aa.Base.Assoc.{lookup, insert}
use aa.Base.Sort.{sort_by, IsSorted}
use aa.Base.Int.{pos}
use aa.Runtime.Worker
use aa.Runtime.Intake
use aa.Runtime.Intake.Dedup.{SubmitOutcome, submit-outcome, submit_all, submit_all-keeps}
use aa.Kernel.Planner
use aa.Kernel.Planner.Readiness.{IsWellFormed, is_ready, ready_ids_iff}
use aa.Kernel.Assignment
use aa.Kernel.Assignment.{Assignment}
use aa.Kernel.Assignment.Machine.{
  Call, moves, leases, expires, retries, calls, calls-final, is_gates_call, accepted_needs_gates,
}
use aa.Kernel.Gate
use aa.Kernel.Gate.Reports.{clears, waits, evaluate_iff}
use aa.Kernel.Contract
use aa.Kernel.Contract.Privilege.{build-grants}
use aa.Kernel.RoleAllocator
use aa.Kernel.RoleAllocator.Selection.{SelectOutcome, select_one-outcome}
use aa.Kernel.Context
use aa.Kernel.Context.Budget.{sum_tokens, compile-within_budget}

-- kernel/scheduler/assignment.go

abbrev leased_one : Assignment
leased_one = record {
  id = "a1";
  project_id = "p";
  work_package_id = "wp";
  worker_id = "w";
  state = Assignment.leased;
  lease = record { owner = "w"; expires_at = 10 };
  attempt = 1;
}

abbrev accepted_one : Assignment
accepted_one = record leased_one { state = Assignment.accepted }

abbrev failed_one : Assignment
failed_one = record leased_one { state = Assignment.failed }

calls-final_example :
    (calls accepted_one (retries ∷ moves Assignment.planned ∷ expires 99 ∷ [])).state
    ≡ Assignment.accepted
calls-final_example =
    calls-final accepted_one (retries ∷ moves Assignment.planned ∷ expires 99 ∷ []) (inl refl)

abbrev full_history : List Call
full_history =
    moves Assignment.leased
    ∷ leases "w" 5 10
    ∷ moves Assignment.preparing
    ∷ moves Assignment.running
    ∷ moves Assignment.collecting
    ∷ moves Assignment.awaiting_gates
    ∷ moves Assignment.accepted
    ∷ []

full_history_accepts :
    (calls (Assignment.new_assignment "a1" "p" "wp" "w") full_history).state ≡ Assignment.accepted
unfolding calls Assignment.new_assignment Assignment.transition Assignment.lease_for
full_history_accepts = refl

accepted_needs_gates_example : any is_gates_call full_history ≡ true
accepted_needs_gates_example =
    accepted_needs_gates "a1" "p" "wp" "w" full_history full_history_accepts

-- kernel/gate/gate.go

abbrev tested : Gate.Subject
tested = record {
  work_package_id = "wp";
  status = "succeeded";
  tests = record { name = "t"; outcome = "passed" } ∷ [];
  contract_id = "";
}

abbrev two_gates : List Gate.Gate
two_gates = Gate.tests_gate ∷ Gate.human_gate Gate.new_human_gate ∷ []

evaluate_iff_example :
    ((Gate.evaluate two_gates tested).passed ≡ all (clears tested) two_gates)
    × ((Gate.evaluate two_gates tested).pending ≡ any (waits tested) two_gates)
evaluate_iff_example = evaluate_iff two_gates tested

-- kernel/contract/contract.go

abbrev plain_digest : Contract.Contract → String
plain_digest c = c.id

abbrev asks : Contract.Request
asks = record {
  id = "ec";
  project_id = "p";
  work_package_id = "wp";
  assignment_id = "a1";
  requested = "run_tests" ∷ "deploy" ∷ [];
  permitted = "run_tests" ∷ [];
  budget = record {
    max_calls = none;
    max_tokens = none;
    max_cost_usd = none;
    max_duration_seconds = none;
  };
  runtime = none;
  gates = [];
}

abbrev built : Contract.Contract
built = record (Contract.assemble asks) { digest = plain_digest (Contract.assemble asks) }

asks_are_built : Contract.build plain_digest asks ≡ ok built
unfolding Contract.build Contract.check_known Contract.is_known
asks_are_built = refl

build-grants_example :
    (Contract.has built "deploy" ≡ (elem "deploy" asks.requested && elem "deploy" asks.permitted))
    × (elem "deploy" built.denied
        ≡ (elem "deploy" asks.requested && not (elem "deploy" asks.permitted)))
build-grants_example = build-grants plain_digest asks "deploy" asks_are_built

-- kernel/allocator/role_allocator/role_allocator.go

abbrev worker_one : RoleAllocator.Worker
worker_one = record {
  id = "w1";
  roles = "dev" ∷ [];
  capabilities = "run_tests" ∷ [];
  available = true;
  node = "n";
  provider = "x";
  cost_weight = pos 2;
}

abbrev workers : RoleAllocator.Registry
workers = ("w1", worker_one) ∷ ("w2", record worker_one { id = "w2"; cost_weight = pos 1 }) ∷ []

abbrev wanted : RoleAllocator.Requirement
wanted = record { roles = "dev" ∷ []; capabilities = "run_tests" ∷ [] }

select_one-outcome_example : SelectOutcome workers wanted (RoleAllocator.select_one workers wanted)
select_one-outcome_example = select_one-outcome workers wanted

-- kernel/context/compiler.go

abbrev short_input : Context.Input
short_input = record { kind = "k"; id = "i"; text = 104 ∷ 105 ∷ []; provenance = none }

abbrev no_digest : Context.Bundle → String
no_digest b = "d"

compile-within_budget_example :
    ((Context.compile no_digest 3 "p" "wp" (short_input ∷ [])).tokens_used
      ≤ (Context.compile no_digest 3 "p" "wp" (short_input ∷ [])).token_budget)
    × ((Context.compile no_digest 3 "p" "wp" (short_input ∷ [])).tokens_used
        ≡ sum_tokens (Context.compile no_digest 3 "p" "wp" (short_input ∷ [])).sections)
compile-within_budget_example = compile-within_budget no_digest 3 "p" "wp" (short_input ∷ [])

short_fits : (Context.compile no_digest 3 "p" "wp" (short_input ∷ [])).truncated ≡ false
unfolding Context.compile Context.estimate_tokens sort_by
short_fits = refl

-- runtime/intake/intake.go

abbrev plain_hash : Intake.Hash
plain_hash status summary tests artifacts = summary

abbrev sent : Intake.Envelope
sent = record {
  id = "r";
  attempt_id = "t";
  assignment_id = "a1";
  work_package_id = "wp";
  status = Worker.succeeded;
  summary = "done";
  tests = [];
  artifacts = [];
  failure = none;
}

sent_new : Intake.submit plain_hash [] sent ≡ (("r", "done") ∷ [], ok true)
unfolding Intake.submit lookup insert
sent_new = refl

submit-outcome_example : SubmitOutcome plain_hash [] sent (Intake.submit plain_hash [] sent)
submit-outcome_example = submit-outcome plain_hash [] sent

sent_there : lookup {V = String} "r" (("r", "done") ∷ []) ≡ some "done"
unfolding lookup
sent_there = refl

submit_all-keeps_example :
    lookup "r" (submit_all plain_hash (("r", "done") ∷ []) (record sent { summary = "other" } ∷ []))
    ≡ some "done"
submit_all-keeps_example =
    submit_all-keeps plain_hash (("r", "done") ∷ []) (record sent { summary = "other" } ∷ []) "r"
      "done" sent_there

-- kernel/allocator/planner/planner.go

abbrev lone : Planner.WorkPackage
lone = record {
  id = "a";
  title = "t";
  role = "";
  capabilities = [];
  depends_on = [];
  acceptance = [];
  state = Planner.unset;
}

abbrev single : Planner.Graph
single = record {
  project_id = "p";
  id = "g";
  revision = 1;
  nodes = ("a", record lone { state = Planner.proposed }) ∷ [];
}

single-IsWellFormed : IsWellFormed single
unfolding lookup
single-IsWellFormed = record { unique = (refl, tt); named = (refl, (λ e. cc), tt) }

ready_ids_iff_example :
    (elem "a" (Planner.ready_ids single) ≡ is_ready single.nodes (Planner.get single "a"))
    × IsSorted str_lt (Planner.ready_ids single)
ready_ids_iff_example = ready_ids_iff single "a" single-IsWellFormed

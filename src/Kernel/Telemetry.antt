-- ===== src/Kernel/Telemetry.antt =====
-- kernel/telemetry/telemetry.go: bounded evidence and the candidates derived from it. A cost in
-- dollars is counted in millionths, and a confidence in tenths; a candidate's texts are carried as the
-- data that they are printed from.
use aa.Base.{ℕ, ◌+◌, String, List, [], ◌∷◌, ◌++◌, is_empty, leb, str_lt, if◌then◌else◌}
use aa.Base.Sort.{sort_by, sort_strings}
use aa.Runtime.Worker.{Status, succeeded, failed}

pub record Record : Type 0 where
  pub attempt_id : String
  pub assignment_id : String
  pub work_package_id : String
  pub outcome : Status
  pub calls : ℕ
  pub tokens : ℕ
  pub cost_micros : ℕ
  pub duration_ms : ℕ

pub data Content : Type 0 where
  success_of : ℕ → ℕ → Content
  tests_failed : List String → Content
  failed_without_detail : Content
  high_cost : ℕ → Content

pub record Candidate : Type 0 where
  pub kind : String
  pub level : String
  pub work_package_id : String
  pub content : Content
  pub evidence : List String
  pub confidence_tenths : ℕ

unfoldable pub outcome_candidates : Record → List String → List Candidate
outcome_candidates r failed_tests = elim r.outcome [
  | succeeded ↦
      record {
        kind = "success";
        level = "task";
        work_package_id = r.work_package_id;
        content = success_of r.calls r.tokens;
        evidence = r.attempt_id ∷ [];
        confidence_tenths = 6;
      }
      ∷ []
  | failed ↦
      (if is_empty failed_tests
        then record {
          kind = "failure";
          level = "project";
          work_package_id = r.work_package_id;
          content = failed_without_detail;
          evidence = r.attempt_id ∷ [];
          confidence_tenths = 4;
        }
        else record {
          kind = "pitfall";
          level = "project";
          work_package_id = r.work_package_id;
          content = tests_failed (sort_strings failed_tests);
          evidence = r.attempt_id ∷ [];
          confidence_tenths = 5;
        })
      ∷ []
  | _ ↦ []
]

unfoldable pub cost_candidates : Record → List Candidate
cost_candidates r =
    if leb 1000000 r.cost_micros
    then record {
      kind = "cost";
      level = "project";
      work_package_id = r.work_package_id;
      content = high_cost r.cost_micros;
      evidence = r.attempt_id ∷ [];
      confidence_tenths = 5;
    }
      ∷ []
    else []

-- No two candidates share a kind, so the title never decides their order.
unfoldable pub derive : Record → List String → List Candidate
unfolding outcome_candidates cost_candidates
derive r failed_tests =
    sort_by (λ a b. str_lt a.kind b.kind) (outcome_candidates r failed_tests ++ cost_candidates r)

pub record Summary : Type 0 where
  pub attempts : ℕ
  pub successes : ℕ
  pub failures : ℕ
  pub total_calls : ℕ
  pub total_tokens : ℕ
  pub total_micros : ℕ

abbrev pub count_outcome : Status → Summary → Summary
count_outcome succeeded s = record s { successes = s.successes + 1 }
count_outcome failed s = record s { failures = s.failures + 1 }
count_outcome _ s = s

unfoldable pub summarize_from : Summary → List Record → Summary
summarize_from s [] = s
summarize_from s (r ∷ rs) =
    let t = count_outcome r.outcome (record s { attempts = s.attempts + 1 }) in
    summarize_from
      (record t {
        total_calls = t.total_calls + r.calls;
        total_tokens = t.total_tokens + r.tokens;
        total_micros = t.total_micros + r.cost_micros;
      })
      rs

unfoldable pub summarize : List Record → Summary
unfolding summarize_from
summarize = summarize_from (record {
  attempts = 0;
  successes = 0;
  failures = 0;
  total_calls = 0;
  total_tokens = 0;
  total_micros = 0;
})

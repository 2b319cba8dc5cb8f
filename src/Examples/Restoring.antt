-- ===== src/Examples/Restoring.antt =====
-- kernel/scheduler/scheduler.go: a scheduler restored from two records of one package.
use aa.Base.{◌<◌, ◌≡◌, refl, false, none, some, [], ◌∷◌, ok}
use aa.Base.Assoc.{lookup, insert}
use aa.Kernel.Planner.{new_graph}
use aa.Kernel.Assignment
use aa.Kernel.Assignment.{Assignment}
use aa.Kernel.Scheduler.{Scheduler, Config}
use aa.Kernel.Scheduler.Dispatch.{next_attempt}
use aa.Kernel.Scheduler.Restore.{RestoreAssignment, ParseTime, restore}
use aa.Kernel.Scheduler.Restore.Recovery.{restore-next_attempt, restore-expires, Stored}

abbrev empty_config : Config
empty_config = record {
  registry = [];
  gates = [];
  permitted = [];
  enabled = false;
  lease_ttl = 1;
  write_assignment = λ es r. none;
  write_work_package = none;
  lifecycle = none;
  contract_digest = λ c. "";
  max_tokens = 1;
  context_inputs = λ id. [];
  bundle_digest = λ b. "";
  hash = λ s text tests artifacts. "";
}

abbrev empty_scheduler : Scheduler
empty_scheduler = record {
  project_id = "p";
  graph = new_graph "p" "g";
  config = empty_config;
  intake = [];
  assignments = [];
  attempts = [];
  results = [];
  telemetry_records = [];
  learning_candidates = [];
  sequence = 0;
  effects = [];
}

abbrev parse_time : ParseTime
parse_time text = some 10

abbrev kept_record : RestoreAssignment
kept_record = record {
  id = "asg_a_3";
  project_id = "p";
  work_package_id = "a";
  worker_id = "w";
  state = Assignment.leased;
  attempt = 3;
  lease_owner = "w";
  lease_expires_at = "t";
}

abbrev recovered : Scheduler
recovered = (restore parse_time 20 empty_scheduler (kept_record ∷ [])).0

abbrev expired_assignment : Assignment
expired_assignment = record {
  id = "asg_a_3";
  project_id = "p";
  work_package_id = "a";
  worker_id = "w";
  state = Assignment.expired;
  lease = record { owner = "w"; expires_at = 10 };
  attempt = 3;
}

recovered_lem :
    ((restore parse_time 20 empty_scheduler (kept_record ∷ [])).1
      ≡ ok (record kept_record { state = Assignment.expired } ∷ []))
    × (lookup "a" recovered.assignments ≡ some expired_assignment)
unfolding restore Assignment.expire Assignment.transition lookup insert
recovered_lem = (refl, refl)

restore-next_attempt_example : (3 < next_attempt recovered "a") × Unit {0}
restore-next_attempt_example =
    restore-next_attempt parse_time 20 empty_scheduler (kept_record ∷ []) recovered_lem.0

abbrev older_record : RestoreAssignment
older_record = record kept_record { id = "asg_a_2"; attempt = 2; state = Assignment.failed }

restored_both :
    (restore parse_time 20 empty_scheduler (older_record ∷ kept_record ∷ [])).1
    ≡ ok (record kept_record { state = Assignment.expired } ∷ [])
unfolding restore Assignment.expire Assignment.transition lookup insert
restored_both = refl

restore-expires_example :
    Stored parse_time 20
      (restore parse_time 20 empty_scheduler (older_record ∷ kept_record ∷ [])).0
      (older_record ∷ kept_record ∷ [])
restore-expires_example =
    restore-expires parse_time 20 empty_scheduler (older_record ∷ kept_record ∷ []) restored_both
